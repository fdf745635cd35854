-- ===== src/Crypto.antt =====
-- internal/crypto/identity.go: identities and their fingerprints.
-- Curve25519 is the parameter `x25519_public`: the public key of a private key, if it is one.
-- An Ed25519 private key ends with its public key.
pub mod Keys
mod Tests
use goxfer.Base.{
  ℕ, zero, suc, ◌+◌, ◌-◌, Bool, true, false, not, ◌&&◌, ◌==◌, leb, List, [], ◌∷◌, ◌++◌, map, Option,
  none, some, Bytes, Text, codes, length, take, drop, if◌then◌else◌, Result, ok, err,
}
use goxfer.Hex.{hex_encode}

pub record Identity : Type 0 where
  pub signing_private_key : Bytes
  pub signing_public_key : Bytes
  pub key_agreement_private_key : Bytes
  pub key_agreement_public_key : Bytes

pub data IdentityError : Type 0 where
  signing_private_key_size signing_public_key_size agreement_private_key_size
        agreement_public_key_size :
      IdentityError
  signing_keys_differ bad_agreement_key agreement_keys_differ : IdentityError

-- The loop over two slices of one length.
abbrev pub same_elements : Bytes → Bytes → Bool
same_elements [] right = true
same_elements (l ∷ left) [] = true
same_elements (l ∷ left) (r ∷ right) =
    let rest = same_elements left right in if not (l == r) then false else rest

unfoldable pub equal_bytes : Bytes → Bytes → Bool
equal_bytes left right =
    if not (length left == length right) then false else same_elements left right

abbrev to_upper : ℕ → ℕ
to_upper c = if leb b'a' c && leb c b'z' then c - 32 else c

-- encoded[idx:idx+2] for every second index; the text has an even length.
abbrev pub pairs : Text → List Text
pairs [] = []
pairs (a ∷ []) = []
pairs (a ∷ b ∷ t) = (a ∷ b ∷ []) ∷ pairs t

-- strings.Join
abbrev pub join_with : Text → List Text → Text
join_with sep [] = []
join_with sep (t ∷ []) = t
join_with sep (t ∷ u ∷ ts) = t ++ (sep ++ join_with sep (u ∷ ts))

abbrev pub digest_text : Bytes → Text
digest_text digest = join_with (codes ":") (pairs (map to_upper (hex_encode digest)))

module _ (sha256 : Bytes → Bytes) where
  unfoldable pub fingerprint : Identity → Text
  fingerprint i =
      digest_text (take 16 (sha256 (i.signing_public_key ++ i.key_agreement_public_key)))

module _ (x25519_public : Bytes → Option Bytes) where
  abbrev agreement_keys : Bytes → Option Bytes → Result IdentityError (Unit {0})
  agreement_keys public_key none = err bad_agreement_key
  agreement_keys public_key (some derived) =
      if not (equal_bytes derived public_key) then err agreement_keys_differ else ok tt

  unfoldable pub validate : Identity → Result IdentityError (Unit {0})
  validate i =
      if not (length i.signing_private_key == 64)
      then err signing_private_key_size
      else if not (length i.signing_public_key == 32)
      then err signing_public_key_size
      else if not (length i.key_agreement_private_key == 32)
      then err agreement_private_key_size
      else if not (length i.key_agreement_public_key == 32)
      then err agreement_public_key_size
      else if not (equal_bytes (drop 32 i.signing_private_key) i.signing_public_key)
      then err signing_keys_differ
      else agreement_keys i.key_agreement_public_key (x25519_public i.key_agreement_private_key)
