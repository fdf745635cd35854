-- ===== src/Base/Keeps.antt =====
-- Predicates that a step keeps, also when it fails: rules that follow the shape of the code.
use mathlib.Core.Path.{◌≡◌, refl, sym, subst}
use mathlib.Core.Bool.{Bool, true, false}
use goxfer.Base.Process.{Outcome, done, fail, Proc, pure, after, guard, ◌>>=◌, >>=-done, >>=-fail}

pub record Keeps {S E A : Type 0} (Q : S → Type 0) (m : Proc S E A) : Type 0 where
  pub kept : (s : S) → Q s → Q (after (m s))

module _ {S E : Type 0} (Q : S → Type 0) where
  pub Keeps-bind :
      {A B : Type 0} (m : Proc S E A) (f : A → Proc S E B)
      → Keeps Q m
      → ((a : A) → Keeps Q (f a))
      → Keeps Q (m >>= f)
  Keeps-bind {A} {B} m f km kf = record { kept = λ s q. go s q (m s) refl }
    where
      go : (s : S) → Q s → (o : Outcome S E A) → m s ≡ o → Q (after ((m >>= f) s))
      go s q (done a t) e =
          subst (λ (o : Outcome S E B). Q (after o)) (sym (>>=-done m f s e))
            ((kf a).kept t (subst (λ (o : Outcome S E A). Q (after o)) e (km.kept s q)))
      go s q (fail x t) e =
          subst (λ (o : Outcome S E B). Q (after o)) (sym (>>=-fail m f s e))
            (subst (λ (o : Outcome S E A). Q (after o)) e (km.kept s q))

  pub Keeps-pure : {A : Type 0} (a : A) → Keeps Q (pure {E = E} a)
  Keeps-pure a = record { kept = λ s q. q }

  pub Keeps-guard : (b : Bool) (e : E) → Keeps Q (guard b e)
  Keeps-guard true e = record { kept = λ s q. q }
  Keeps-guard false e = record { kept = λ s q. q }
