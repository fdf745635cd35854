-- ===== src/Crypto/Keys.antt =====
-- internal/crypto/identity.go: what Validate accepts, and what a fingerprint tells.
use goxfer.Base.{
  ℕ, ◌/◌, ◌%◌, ◌<◌, ◌≡◌, ◌↔◌, refl, sym, ap, ◌∙◌, true, ◌==◌, ltb, all, [], ◌∷◌, ◌++◌, Option, none,
  some, Bytes, length, length-take, take, drop, ok, arith, Bool-cases, inl, inr,
}
use goxfer.Hex.{hex_encode, hex_digit}
use goxfer.Crypto.{
  Identity, same_elements, equal_bytes, digest_text, to_upper, fingerprint, validate,
  agreement_keys,
}

same_elements_iff :
    (left right : Bytes)
    → length left ≡ length right
    → (same_elements left right ≡ true) ↔ (left ≡ right)
same_elements_iff [] [] h = (λ _. refl, λ _. refl)
same_elements_iff [] (r ∷ right) h = absurd (omega (arith))
same_elements_iff (l ∷ left) [] h = absurd (omega (arith))
same_elements_iff (l ∷ left) (r ∷ right) h = ground (arith, same_elements_iff left right)

-- equalBytes is true of two slices exactly if they are equal.
pub equal_bytes_iff : (left right : Bytes) → (equal_bytes left right ≡ true) ↔ (left ≡ right)
unfolding equal_bytes
equal_bytes_iff left right = elim (Bool-cases (length left == length right)) [
  | inl same ↦ rw same (same_elements_iff left right (ground arith))
  | inr other ↦ rw other (λ h. cc, λ e. ground (arith, ap length e))
]

-- The key pairs that belong together.
pub record IsIdentity (x25519_public : Bytes → Option Bytes) (i : Identity) : Type 0 where
  pub signing_size : length i.signing_private_key ≡ 64
  pub signing_public_size : length i.signing_public_key ≡ 32
  pub agreement_size : length i.key_agreement_private_key ≡ 32
  pub agreement_public_size : length i.key_agreement_public_key ≡ 32
  pub signing_pair : drop 32 i.signing_private_key ≡ i.signing_public_key
  pub agreement_pair : x25519_public i.key_agreement_private_key ≡ some i.key_agreement_public_key

agreement_keys_iff :
    (x25519_public : Bytes → Option Bytes) (public_key : Bytes) (o : Option Bytes)
    → (agreement_keys x25519_public public_key o ≡ ok tt) ↔ (o ≡ some public_key)
agreement_keys_iff x25519_public public_key none = (λ h. cc, λ h. cc)
agreement_keys_iff x25519_public public_key (some derived) =
    ground (arith, equal_bytes_iff derived public_key)

module _ (x25519_public : Bytes → Option Bytes) where
  -- Validate accepts an identity exactly if its four keys have their sizes, the Ed25519 private
  -- key ends with the public key, and the X25519 private key is one and has the public key.
  pub validate-eq-ok_iff :
      (i : Identity) → (validate x25519_public i ≡ ok tt) ↔ IsIdentity x25519_public i
  unfolding validate
  validate-eq-ok_iff i = (
    λ h. record {
      signing_size = ground arith;
      signing_public_size = ground arith;
      agreement_size = ground arith;
      agreement_public_size = ground arith;
      signing_pair =
          ground (arith, equal_bytes_iff (drop 32 i.signing_private_key) i.signing_public_key);
      agreement_pair =
          (agreement_keys_iff x25519_public i.key_agreement_public_key
              (x25519_public i.key_agreement_private_key)).0
            (ground arith);
    },
    λ v. ground (
      arith,
      v.signing_size,
      v.signing_public_size,
      v.agreement_size,
      v.agreement_public_size,
      (equal_bytes_iff (drop 32 i.signing_private_key) i.signing_public_key).1 v.signing_pair,
      (agreement_keys_iff x25519_public i.key_agreement_public_key
            (x25519_public i.key_agreement_private_key)).1
          v.agreement_pair,
    ),
  )

upper_digit-injective :
    (m n : ℕ) → m < 16 → n < 16 → to_upper (hex_digit m) ≡ to_upper (hex_digit n) → m ≡ n
upper_digit-injective m n hm hn e = ground arith

digest_text-cons :
    (a b : ℕ) (ds : Bytes)
    → digest_text (a ∷ b ∷ ds)
      ≡ to_upper (hex_digit (a / 16)) ∷ to_upper (hex_digit (a % 16)) ∷ b':' ∷ digest_text (b ∷ ds)
unfolding hex_encode
digest_text-cons a b ds = refl

byte_of_digits :
    (a b : ℕ)
    → a < 256
    → b < 256
    → to_upper (hex_digit (a / 16)) ≡ to_upper (hex_digit (b / 16))
    → to_upper (hex_digit (a % 16)) ≡ to_upper (hex_digit (b % 16))
    → a ≡ b
byte_of_digits a b ha hb high low =
    let h = upper_digit-injective (a / 16) (b / 16) (omega arith) (omega arith) high in
    let l = upper_digit-injective (a % 16) (b % 16) (omega arith) (omega arith) low in omega arith

digest_text-injective :
    (ds es : Bytes)
    → all (λ b. ltb b 256) ds ≡ true
    → all (λ b. ltb b 256) es ≡ true
    → length ds ≡ length es
    → digest_text ds ≡ digest_text es
    → ds ≡ es
unfolding hex_encode
digest_text-injective [] [] hd he l e = refl
digest_text-injective [] (b ∷ es) hd he l e = absurd (omega arith)
digest_text-injective (a ∷ ds) [] hd he l e = absurd (omega arith)
digest_text-injective (a ∷ []) (b ∷ []) hd he l e =
    ap (λ x. x ∷ []) (byte_of_digits a b (ground arith) (ground arith) (cc e) (cc e))
digest_text-injective (a ∷ []) (b ∷ c ∷ es) hd he l e = absurd (omega arith)
digest_text-injective (a ∷ c ∷ ds) (b ∷ []) hd he l e = absurd (omega arith)
digest_text-injective (a ∷ c ∷ ds) (b ∷ d ∷ es) hd he l e =
    let split = sym (digest_text-cons a c ds) ∙ e ∙ digest_text-cons b d es in
    let first : a ≡ b = byte_of_digits a b (ground arith) (ground arith) (cc split) (cc split) in
    let rest : c ∷ ds ≡ d ∷ es =
      digest_text-injective (c ∷ ds) (d ∷ es) (ground arith) (ground arith) (omega arith)
        (cc split) in
    cc

module _ (sha256 : Bytes → Bytes) where
  -- The bytes of which a fingerprint takes the digest.
  abbrev public_keys : Identity → Bytes
  public_keys i = i.signing_public_key ++ i.key_agreement_public_key

  -- Two identities have the same fingerprint exactly if the first 16 bytes of the digests of
  -- their public keys are the same; for digests of 32 bytes, as numbers below 256.
  pub fingerprint_iff :
      (i j : Identity)
      → ((b : Bytes) → length (sha256 b) ≡ 32)
      → ((b : Bytes) → all (λ x. ltb x 256) (take 16 (sha256 b)) ≡ true)
      → (fingerprint sha256 i ≡ fingerprint sha256 j)
        ↔ (take 16 (sha256 (public_keys i)) ≡ take 16 (sha256 (public_keys j)))
  unfolding fingerprint
  fingerprint_iff i j size bytes = (
    digest_text-injective (take 16 (sha256 (public_keys i))) (take 16 (sha256 (public_keys j)))
        (bytes (public_keys i)) (bytes (public_keys j))
        (omega (
          arith,
          length-take 16 (sha256 (public_keys i)),
          length-take 16 (sha256 (public_keys j)),
          size (public_keys i),
          size (public_keys j),
        )),
    ap digest_text,
  )
