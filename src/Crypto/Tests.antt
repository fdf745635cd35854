-- ===== src/Crypto/Tests.antt =====
-- internal/crypto/identity.go: runs on small inputs.
use goxfer.Base.{ℕ, ◌≡◌, ◌↔◌, refl, [], ◌∷◌, some, Option, Bytes, replicate, ok}
use goxfer.Crypto.{Identity, fingerprint, validate}
use goxfer.Crypto.Keys.{IsIdentity, validate-eq-ok_iff, fingerprint_iff}

abbrev toy_public : Bytes → Option Bytes
toy_public private_key = some private_key

abbrev toy_sha256 : Bytes → Bytes
toy_sha256 content = replicate 32 7

abbrev identity : Identity
identity = record {
  signing_private_key = replicate 64 1;
  signing_public_key = replicate 32 1;
  key_agreement_private_key = replicate 32 2;
  key_agreement_public_key = replicate 32 2;
}

abbrev other_identity : Identity
other_identity = record identity { key_agreement_public_key = replicate 32 3 }

abbrev left : Bytes
left = 1 ∷ 2 ∷ []

abbrev right : Bytes
right = 1 ∷ 3 ∷ []

validate-eq-ok_iff_example : (validate toy_public identity ≡ ok tt) ↔ IsIdentity toy_public identity
validate-eq-ok_iff_example = validate-eq-ok_iff toy_public identity

fingerprint_iff_example :
    (fingerprint toy_sha256 identity ≡ fingerprint toy_sha256 other_identity)
    ↔ (replicate {A = ℕ} 16 7 ≡ replicate {A = ℕ} 16 7)
fingerprint_iff_example = fingerprint_iff toy_sha256 identity other_identity (λ b. refl) (λ b. refl)
