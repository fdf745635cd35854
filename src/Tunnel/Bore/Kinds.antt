-- ===== src/Tunnel/Bore/Kinds.antt =====
-- internal/tunnel/bore.go: which messages decodeServerMsg makes of what a server sends.
use goxfer.Base.{
  ℕ, ◌^◌, ◌<◌, ◌≡◌, refl, sym, subst, arith, true, Bool-cases, inl, inr, [], Option, none, some,
  Bytes, Text, codes, text_eq, ltb, ltb→lt, pos, negsuc, if◌then◌else◌, Result, ok, err,
}
use goxfer.Json.{Json, JsonObject, null, other, flag, num, text}
use goxfer.Tunnel.Bore.{
  ServerValue, plain, object, ServerJson, ServerMsg, zero_msg, BoreError, uint16_value, text_value,
  field, field_msg, decode_fields, decode_value, decode_server_msg, by_challenge, by_error,
  by_connection, by_hello, decode_string, decode_read, unknown_string,
}

-- The messages of a server, by their kinds.
pub data ServerKind : Type 0 where
  heartbeat : ServerKind
  hello : ℕ → ServerKind
  connection error challenge : Text → ServerKind

abbrev pub message_of : ServerKind → ServerMsg
message_of heartbeat = record zero_msg { heartbeat = true }
message_of (hello port) = record zero_msg { hello = some port }
message_of (connection uuid) = record zero_msg { connection = some uuid }
message_of (error e) = record zero_msg { error = some e }
message_of (challenge c) = record zero_msg { challenge = some c }

-- A port has 16 bits.
abbrev pub HasPort : ServerKind → Type 0
HasPort (hello port) = port < 2 ^ 16
HasPort _ = Unit {0}

abbrev pub OfKind : ServerMsg → Type 0
OfKind m = (k : ServerKind) × HasPort k × (m ≡ message_of k)

abbrev Kinded : Result BoreError ServerMsg → Type 0
Kinded (ok m) = OfKind m
Kinded (err e) = Unit {0}

text_Kinded :
    (make : Text → ServerMsg) (k : Text → ServerKind)
    → ((t : Text) → HasPort (k t))
    → ((t : Text) → make t ≡ message_of (k t))
    → (v : Json) → Kinded (field_msg make (text_value v))
text_Kinded make k h e (text t) = (k t, h t, e t)
text_Kinded make k h e null = (k [], h [], e [])
text_Kinded make k h e (num z) = tt
text_Kinded make k h e (flag b) = tt
text_Kinded make k h e other = tt

port_Kinded :
    (v : Json) → Kinded (field_msg (λ n. record zero_msg { hello = some n }) (uint16_value v))
port_Kinded (num (pos n)) = elim (Bool-cases (ltb n (2 ^ 16))) [
  | inl t ↦
      subst
        (λ b.
          Kinded (field_msg (λ n. record zero_msg { hello = some n }) (if b then some n else none)))
        (sym t) (hello n, ltb→lt n (2 ^ 16) t, refl)
  | inr t ↦
      subst
        (λ b.
          Kinded (field_msg (λ n. record zero_msg { hello = some n }) (if b then some n else none)))
        (sym t) tt
]
port_Kinded (num (negsuc n)) = tt
port_Kinded null = (hello 0, omega arith, refl)
port_Kinded (text t) = tt
port_Kinded (flag b) = tt
port_Kinded other = tt

decode_fields-Kinded : (o : JsonObject) → Kinded (decode_fields o)
decode_fields-Kinded o = by_hello_Kinded (field (codes "Hello") o)
  where
    by_challenge_Kinded : (v : Option Json) → Kinded (by_challenge v)
    by_challenge_Kinded (some v) = text_Kinded _ challenge (λ t. tt) (λ t. refl) v
    by_challenge_Kinded none = tt

    by_error_Kinded :
        (v : Option Json) → Kinded (by_error v (by_challenge (field (codes "Challenge") o)))
    by_error_Kinded (some v) = text_Kinded _ error (λ t. tt) (λ t. refl) v
    by_error_Kinded none = by_challenge_Kinded (field (codes "Challenge") o)

    by_connection_Kinded :
        (v : Option Json)
        → Kinded (
            by_connection v
              (by_error (field (codes "Error") o) (by_challenge (field (codes "Challenge") o))))
    by_connection_Kinded (some v) = text_Kinded _ connection (λ t. tt) (λ t. refl) v
    by_connection_Kinded none = by_error_Kinded (field (codes "Error") o)

    by_hello_Kinded :
        (v : Option Json)
        → Kinded (
            by_hello v (
              by_connection
                (field (codes "Connection") o)
                (by_error (field (codes "Error") o) (by_challenge (field (codes "Challenge") o)))))
    by_hello_Kinded (some v) = port_Kinded v
    by_hello_Kinded none = by_connection_Kinded (field (codes "Connection") o)

decode_string-Kinded : (s : Text) → Kinded (decode_string s)
decode_string-Kinded s = elim (Bool-cases (text_eq s (codes "Heartbeat"))) [
  | inl t ↦
      subst
        (λ b.
          Kinded (if b then ok (record zero_msg { heartbeat = true }) else err (unknown_string s)))
        (sym t) (heartbeat, tt, refl)
  | inr t ↦
      subst
        (λ b.
          Kinded (if b then ok (record zero_msg { heartbeat = true }) else err (unknown_string s)))
        (sym t) tt
]

decode_value-Kinded : (v : ServerValue) → Kinded (decode_value v)
decode_value-Kinded (plain (text t)) = decode_string-Kinded t
decode_value-Kinded (plain null) = decode_string-Kinded []
decode_value-Kinded (plain (num z)) = tt
decode_value-Kinded (plain (flag b)) = tt
decode_value-Kinded (plain other) = tt
decode_value-Kinded (object o) = decode_fields-Kinded o

decode_read-Kinded : (v : Option ServerValue) → Kinded (decode_read v)
decode_read-Kinded none = tt
decode_read-Kinded (some v) = decode_value-Kinded v

-- A message that decodeServerMsg returns without an error is of exactly one kind: a heartbeat, or
-- only one of its four fields is set; and a port is below 2^16.
pub decode_server_msg-OfKind :
    (J : ServerJson) (bytes : Bytes) (m : ServerMsg) → decode_server_msg J bytes ≡ ok m → OfKind m
unfolding decode_server_msg
decode_server_msg-OfKind J bytes m h = subst Kinded h (decode_read-Kinded (J.value bytes))
