-- ===== src/Session/Handshake/Toy.antt =====
-- A concrete `NoiseHandshake` for the examples: three messages of one byte.
use goxfer.Base.{ℕ, ◌≤◌, ◌≡◌, arith, [], ◌∷◌, Option, none, some, Bytes, length}
use goxfer.Session.Handshake.{NoiseHandshake}

pub data Stage : Type 0 where
  i0 i1 i2 i3 r0 r1 r2 r3 : Stage

abbrev pub toy_write : Stage → Bytes → Option (Bytes × Option ℕ × Option ℕ × Stage)
toy_write i0 payload = some (1 ∷ [], none, none, i1)
toy_write r1 payload = some (2 ∷ [], none, none, r2)
toy_write i2 payload = some (3 ∷ [], some 5, some 6, i3)
toy_write _ payload = none

abbrev pub toy_read : Stage → Bytes → Option (Bytes × Option ℕ × Option ℕ × Stage)
toy_read r0 message = some ([], none, none, r1)
toy_read i1 message = some ([], none, none, i2)
toy_read r2 message = some ([], some 5, some 6, r3)
toy_read _ message = none

pub length-toy_write :
    (s t : Stage) (payload message : Bytes) (c d : Option ℕ)
    → toy_write s payload ≡ some (message, c, d, t)
    → length message ≤ 65535
length-toy_write i0 t payload message c d h = ground arith
length-toy_write i1 t payload message c d h = cc
length-toy_write i2 t payload message c d h = ground arith
length-toy_write i3 t payload message c d h = cc
length-toy_write r0 t payload message c d h = cc
length-toy_write r1 t payload message c d h = ground arith
length-toy_write r2 t payload message c d h = cc
length-toy_write r3 t payload message c d h = cc

abbrev pub toy_handshake : NoiseHandshake ℕ
toy_handshake = record {
  State = Stage;
  write_message = toy_write;
  read_message = toy_read;
  length-write_message = length-toy_write;
}
