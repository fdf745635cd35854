-- ===== src/Session/Toy.antt =====
-- A concrete `CipherSuite` for the examples: the nonce is the state, and the tag is the nonce
-- sixteen times, in front of the text.
use goxfer.Base.{
  ℕ, suc, ◌+◌, ◌≡◌, ap, ◌∙◌, ◌++◌, Option, none, some, Bytes, length, drop, replicate, arith,
  has_prefix, has_prefix-append, if◌then◌else◌,
}
use goxfer.Session.{CipherSuite}

abbrev pub seal : ℕ → Bytes → Bytes
seal n plain = replicate 16 n ++ plain

abbrev pub unseal : ℕ → Bytes → Option (Bytes × ℕ)
unseal n cipher = if has_prefix cipher (replicate 16 n) then some (drop 16 cipher, suc n) else none

unseal-seal : (n : ℕ) (plain : Bytes) → unseal n (seal n plain) ≡ some (plain, suc n)
unseal-seal n plain = rw (has_prefix-append (replicate 16 n) plain)

abbrev pub toy_encrypt : ℕ → Bytes → Option (Bytes × ℕ)
toy_encrypt n plain = some (seal n plain, suc n)

pub unseal_paired :
    (s r t : ℕ) (plain cipher : Bytes)
    → s ≡ r
    → toy_encrypt s plain ≡ some (cipher, t)
    → (u : ℕ) × (unseal r cipher ≡ some (plain, u)) × (t ≡ u)
unseal_paired s r t plain cipher same h =
    (suc r, ap (unseal r) (ground arith) ∙ unseal-seal r plain, ground arith)

pub length-toy_encrypt :
    (s t : ℕ) (plain cipher : Bytes)
    → toy_encrypt s plain ≡ some (cipher, t)
    → length cipher ≡ length plain + 16
length-toy_encrypt s t plain cipher h =
    let e : seal s plain ≡ cipher = ground arith in omega (arith, ap length e)

abbrev pub toy_suite : CipherSuite
toy_suite = record {
  State = ℕ;
  encrypt = toy_encrypt;
  decrypt = unseal;
  Paired = λ s r. s ≡ r;
  decrypt-encrypt = unseal_paired;
  length-encrypt = length-toy_encrypt;
}
