-- ===== src/Base/Triple.antt =====
-- Triples: what holds before a step, after it, and after its failure; rules that follow the shape
-- of the code.
use mathlib.Core.Bool.{Bool, true, false}
use goxfer.Base.Process.{Outcome, done, fail, Proc, pure, throw, guard, finally, ◌>>=◌}

-- Cleaning up where a step failed, and only there.
abbrev pub on_failure : {S E A : Type 0} → (S → S) → Proc S E A → Proc S E A
on_failure cleanup m s = elim (m s) [ done a t ↦ done a t | fail e t ↦ fail e (cleanup t) ]

abbrev pub Holds : {S E A : Type 0} → (A → S → Type 0) → (S → Type 0) → Outcome S E A → Type 0
Holds Q R (done a t) = Q a t
Holds Q R (fail e t) = R t

pub record Triple {S E A : Type 0} (P : S → Type 0) (m : Proc S E A) (Q : A → S → Type 0)
    (R : S → Type 0) : Type 0 where
  pub holds : (s : S) → P s → Holds Q R (m s)

module _ {S E : Type 0} {P : S → Type 0} {R : S → Type 0} where
  pub Triple-bind :
      {A B : Type 0} {Q : A → S → Type 0} {Q' : B → S → Type 0} (m : Proc S E A)
      (f : A → Proc S E B)
      → Triple P m Q R
      → ((a : A) → Triple (Q a) (f a) Q' R)
      → Triple P (m >>= f) Q' R
  Triple-bind {A} {B} {Q} {Q'} m f tm tf = record { holds = λ s p. go s (m s) (tm.holds s p) }
    where
      next : Outcome S E A → Outcome S E B
      next o = elim o [ done a t ↦ f a t | fail e t ↦ fail e t ]

      go : (s : S) (o : Outcome S E A) → Holds Q R o → Holds Q' R (next o)
      go s (done a t) h = (tf a).holds t h
      go s (fail e t) h = h

  pub Triple-pure :
      {A : Type 0} {Q : A → S → Type 0} (a : A)
      → ((s : S) → P s → Q a s)
      → Triple P (pure {E = E} a) Q R
  Triple-pure a h = record { holds = h }

  pub Triple-throw :
      {A : Type 0} {Q : A → S → Type 0} (e : E)
      → ((s : S) → P s → R s)
      → Triple P (throw {A = A} e) Q R
  Triple-throw e h = record { holds = h }

  pub Triple-guard : (b : Bool) (e : E) → ((s : S) → P s → R s) → Triple P (guard b e) (λ _. P) R
  Triple-guard true e h = record { holds = λ s p. p }
  Triple-guard false e h = record { holds = h }

  pub Triple-if :
      {A : Type 0} {Q : A → S → Type 0} (b : Bool) (m n : Proc S E A)
      → Triple P m Q R
      → Triple P n Q R
      → Triple P (elim b [ true ↦ m | false ↦ n ]) Q R
  Triple-if true m n tm tn = tm
  Triple-if false m n tm tn = tn

  -- A failure that is cleaned up after.
  pub Triple-on_failure :
      {A : Type 0} {Q : A → S → Type 0} {R' : S → Type 0} (cleanup : S → S) (m : Proc S E A)
      → Triple P m Q R'
      → ((s : S) → R' s → R (cleanup s))
      → Triple P (on_failure cleanup m) Q R
  Triple-on_failure {A} {Q} {R'} cleanup m tm c = record { holds = λ s p. go (m s) (tm.holds s p) }
    where
      go :
          (o : Outcome S E A)
          → Holds Q R' o
          → Holds Q R (elim o [ done a t ↦ done a t | fail e t ↦ fail e (cleanup t) ])
      go (done a t) h = h
      go (fail e t) h = c t h

  -- A deferred cleanup.
  pub Triple-finally :
      {A : Type 0} {Q Q' : A → S → Type 0} {R' : S → Type 0} (cleanup : S → S) (m : Proc S E A)
      → Triple P m Q' R'
      → ((a : A) (s : S) → Q' a s → Q a (cleanup s))
      → ((s : S) → R' s → R (cleanup s))
      → Triple P (finally cleanup m) Q R
  Triple-finally {A} {Q} {Q'} {R'} cleanup m tm c d = record {
    holds = λ s p. go (m s) (tm.holds s p);
  }
    where
      go :
          (o : Outcome S E A)
          → Holds Q' R' o
          → Holds Q R (elim o [ done a t ↦ done a (cleanup t) | fail e t ↦ fail e (cleanup t) ])
      go (done a t) h = c a t h
      go (fail e t) h = d t h

  pub Triple-weaken :
      {A : Type 0} {Q Q' : A → S → Type 0} {R' : S → Type 0} (m : Proc S E A)
      → Triple P m Q' R'
      → ((a : A) (s : S) → Q' a s → Q a s)
      → ((s : S) → R' s → R s)
      → Triple P m Q R
  Triple-weaken {A} {Q} {Q'} {R'} m tm c d = record { holds = λ s p. go (m s) (tm.holds s p) }
    where
      go : (o : Outcome S E A) → Holds Q' R' o → Holds Q R o
      go (done a t) h = c a t h
      go (fail e t) h = d t h
