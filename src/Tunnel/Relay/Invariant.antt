-- ===== src/Tunnel/Relay/Invariant.antt =====
-- internal/tunnel/relay.go: what holds between the pending map, the goroutines and the channels.
use goxfer.Base.{
  ℕ, ◌≡◌, ◌≢◌, ◌==◌, Option, none, some, Text, text_eq, text_eq_iff, arith, Bool-cases, inl, inr,
}
use goxfer.Base.Family.{set}
use goxfer.Base.Dict.{Dict, lookup, insert, erase, lookup-insert, lookup-erase}
use goxfer.Tunnel.Relay.{Phase, reading, registered, waiting, claiming, delivered, set}

-- The sender that a receiver has claimed, and the code of a sender that waits.
abbrev pub holds : Phase → Option ℕ
holds (claiming c) = some c
holds (delivered c) = some c
holds _ = none

abbrev pub has_code : Phase → Option Text
has_code (registered code) = some code
has_code (waiting code) = some code
has_code _ = none

pub record Inv (pending : Dict ℕ) (f : ℕ → Phase) (channel : ℕ → Option ℕ) : Type 0 where
  pub owned : (code : Text) (c : ℕ) → lookup code pending ≡ some c → has_code (f c) ≡ some code
  pub free : (r c : ℕ) (code : Text) → holds (f r) ≡ some c → lookup code pending ≢ some c
  pub begun : (r c : ℕ) → holds (f r) ≡ some c → f c ≢ reading
  pub one : (r r' c : ℕ) → holds (f r) ≡ some c → holds (f r') ≡ some c → r ≡ r'
  pub full : (c r : ℕ) → channel c ≡ some r → f r ≡ delivered c

-- A connection moves on that holds nobody, then or before, and was in no channel.
pub move-Inv :
    (p q : Dict ℕ) (f : ℕ → Phase) (ch : ℕ → Option ℕ) (c : ℕ) (a : Phase)
    → Inv p f ch
    → ((code : Text) (d : ℕ) → lookup code q ≡ some d → lookup code p ≡ some d)
    → a ≢ reading
    → holds a ≡ none
    → ((d : ℕ) → ch d ≢ some c)
    → ((code : Text) → lookup code q ≡ some c → has_code a ≡ some code)
    → Inv q (set f c a) ch
unfolding set
move-Inv p q f ch c a inv sub other empty alone codes = record {
  owned = λ code d h. elim (Bool-cases (c == d)) [
    | inl e ↦ ground (arith, codes code)
    | inr e ↦ ground (arith, inv.owned code d, sub code d)
  ];
  free = λ r d code h. ground (arith, inv.free r d code, sub code d);
  begun = λ r d h. elim (Bool-cases (c == r)) [
    | inl e ↦ absurd (ground arith)
    | inr e ↦ ground (arith, inv.begun r d)
  ];
  one = λ r r' d h h'. elim (Bool-cases (c == r)) [
    | inl e ↦ absurd (ground arith)
    | inr e ↦ ground (arith, inv.one r r' d)
  ];
  full = λ d r h. elim (Bool-cases (c == r)) [
    | inl e ↦ absurd (ground (arith, alone d))
    | inr e ↦ ground (arith, inv.full d r h)
  ];
}

pub clear-Inv :
    (p : Dict ℕ) (f : ℕ → Phase) (ch : ℕ → Option ℕ) (c : ℕ) → Inv p f ch → Inv p f (set ch c none)
unfolding set
clear-Inv p f ch c inv = record {
  owned = inv.owned;
  free = inv.free;
  begun = inv.begun;
  one = inv.one;
  full = λ d r h. ground (arith, inv.full d r);
}

pub register-Inv :
    (p : Dict ℕ) (f : ℕ → Phase) (ch : ℕ → Option ℕ) (c : ℕ) (code : Text)
    → Inv p f ch
    → f c ≡ reading
    → Inv (insert code c p) (set f c (registered code)) ch
unfolding set
register-Inv p f ch c code inv h = record {
  owned = λ k d e. elim (Bool-cases (text_eq code k)) [
    | inl same ↦ ground (arith, lookup-insert code k c p, text_eq_iff code k)
    | inr other ↦ elim (Bool-cases (c == d)) [
      | inl is_c ↦ absurd (ground (arith, lookup-insert code k c p, inv.owned k d))
      | inr not_c ↦ ground (arith, lookup-insert code k c p, inv.owned k d)
    ]
  ];
  free = λ r d k e. elim (Bool-cases (c == r)) [
    | inl is_r ↦ absurd (ground arith)
    | inr not_r ↦ elim (Bool-cases (text_eq code k)) [
      | inl same ↦ λ g. ground (arith, lookup-insert code k c p, inv.begun r d)
      | inr other ↦ λ g. ground (arith, lookup-insert code k c p, inv.free r d k)
    ]
  ];
  begun = λ r d e. elim (Bool-cases (c == d)) [
    | inl is_d ↦ ground arith
    | inr not_d ↦ ground (arith, inv.begun r d)
  ];
  one = λ r r' d e e'. ground (arith, inv.one r r' d);
  full = λ d r e. elim (Bool-cases (c == r)) [
    | inl is_r ↦ absurd (ground (arith, inv.full d r))
    | inr not_r ↦ ground (arith, inv.full d r)
  ];
}

pub claim-Inv :
    (p : Dict ℕ) (f : ℕ → Phase) (ch : ℕ → Option ℕ) (r c : ℕ) (code : Text)
    → Inv p f ch
    → f r ≡ reading
    → lookup code p ≡ some c
    → Inv (erase code p) (set f r (claiming c)) ch
unfolding set
claim-Inv p f ch r c code inv h found = record {
  owned = λ k d e. elim (Bool-cases (r == d)) [
    | inl is_d ↦ absurd (ground (arith, lookup-erase code k p, inv.owned k d))
    | inr not_d ↦ ground (arith, lookup-erase code k p, inv.owned k d)
  ];
  free = λ x d k e. elim (Bool-cases (r == x)) [
    | inl is_x ↦ λ g.
        ground
          (arith, lookup-erase code k p, text_eq_iff code k, inv.owned k c, inv.owned code c found)
    | inr not_x ↦ λ g. ground (arith, lookup-erase code k p, inv.free x d k)
  ];
  begun = λ x d e. elim (Bool-cases (r == d)) [
    | inl is_d ↦ ground arith
    | inr not_d ↦ elim (Bool-cases (r == x)) [
      | inl is_x ↦ λ g. ground (arith, inv.owned code c found)
      | inr not_x ↦ ground (arith, inv.begun x d)
    ]
  ];
  one = λ x y d e e'. elim (Bool-cases (r == x)) [
    | inl is_x ↦ elim (Bool-cases (r == y)) [
      | inl is_y ↦ ground arith
      | inr not_y ↦ absurd (ground (arith, inv.free y c code))
    ]
    | inr not_x ↦ elim (Bool-cases (r == y)) [
      | inl is_y ↦ absurd (ground (arith, inv.free x c code))
      | inr not_y ↦ ground (arith, inv.one x y d)
    ]
  ];
  full = λ d x e. elim (Bool-cases (r == x)) [
    | inl is_x ↦ absurd (ground (arith, inv.full d x))
    | inr not_x ↦ ground (arith, inv.full d x)
  ];
}

pub deliver-Inv :
    (p : Dict ℕ) (f : ℕ → Phase) (ch : ℕ → Option ℕ) (r c : ℕ)
    → Inv p f ch
    → f r ≡ claiming c
    → Inv p (set f r (delivered c)) (set ch c (some r))
unfolding set
deliver-Inv p f ch r c inv h = record {
  owned = λ k d e. elim (Bool-cases (r == d)) [
    | inl is_d ↦ absurd (ground (arith, inv.owned k d))
    | inr not_d ↦ ground (arith, inv.owned k d)
  ];
  free = λ x d k e. inv.free x d k (held x d e);
  begun = λ x d e. elim (Bool-cases (r == d)) [
    | inl is_d ↦ ground arith
    | inr not_d ↦ ground (arith, inv.begun x d (held x d e))
  ];
  one = λ x y d e e'. inv.one x y d (held x d e) (held y d e');
  full = λ d x e. elim (Bool-cases (c == d)) [
    | inl is_d ↦ ground arith
    | inr not_d ↦ elim (Bool-cases (r == x)) [
      | inl is_x ↦ absurd (ground (arith, inv.full d x))
      | inr not_x ↦ ground (arith, inv.full d x)
    ]
  ];
}
  where
    held : (x d : ℕ) → holds (set f r (delivered c) x) ≡ some d → holds (f x) ≡ some d
    held x d e = elim (Bool-cases (r == x)) [ inl is_x ↦ ground arith | inr not_x ↦ ground arith ]
