-- ===== src/Base/Process.antt =====
-- Steps that read and change a state, and may fail. The state lives on when a step fails: what
-- was written before an error return stays written.
use mathlib.Core.Path.{◌≡◌, refl, sym, ◌∙◌}
use mathlib.Core.Bool.{Bool, true, false}

pub data Outcome {ℓ κ ι} (S : Type ℓ) (E : Type κ) (A : Type ι) : Type (ℓ ⊔ κ ⊔ ι) where
  done : A → S → Outcome S E A
  fail : E → S → Outcome S E A

abbrev pub Proc {ℓ κ ι} : Type ℓ → Type κ → Type ι → Type (ℓ ⊔ κ ⊔ ι)
Proc S E A = S → Outcome S E A

module _ {ℓ κ ι} {S : Type ℓ} {E : Type κ} {A : Type ι} where
  abbrev pub pure : A → Proc S E A
  pure a s = done a s

  abbrev pub throw : E → Proc S E A
  throw e s = fail e s

  -- The state that is left, whether or not the step failed.
  abbrev pub after : Outcome S E A → S
  after (done a s) = s
  after (fail e s) = s

  -- `defer`: the cleanup runs on every return, and its own outcome is ignored.
  abbrev pub finally : (S → S) → Proc S E A → Proc S E A
  finally cleanup m s = elim (m s) [ done a t ↦ done a (cleanup t) | fail e t ↦ fail e (cleanup t) ]

abbrev pub guard {ℓ κ} : {S : Type ℓ} {E : Type κ} → Bool → E → Proc S E (Unit {0})
guard true e s = done tt s
guard false e s = fail e s

infixl 5 ◌>>=◌ ◌>>◌
abbrev pub ◌>>=◌ {ℓ κ ι μ} :
    {S : Type ℓ} {E : Type κ} {A : Type ι} {B : Type μ} → Proc S E A → (A → Proc S E B) → Proc S E B
◌>>=◌ m f s = elim (m s) [ done a t ↦ f a t | fail e t ↦ fail e t ]

abbrev pub ◌>>◌ {ℓ κ μ} :
    {S : Type ℓ} {E : Type κ} {B : Type μ} → Proc S E (Unit {0}) → Proc S E B → Proc S E B
m >> k = m >>= λ _. k

-- The `(value, error)` of a call that changes no state.
pub data Result {ℓ κ} (E : Type ℓ) (A : Type κ) : Type (ℓ ⊔ κ) where
  ok : A → Result E A
  err : E → Result E A

abbrev pub lift {ℓ κ ι} : {S : Type ℓ} {E : Type κ} {A : Type ι} → Result E A → Proc S E A
lift (ok a) s = done a s
lift (err e) s = fail e s

-- One step of a chain, with what it returned.
module _ {ℓ κ ι μ} {S : Type ℓ} {E : Type κ} {A : Type ι} {B : Type μ} where
  pub >>=-done :
      (m : Proc S E A) (f : A → Proc S E B) (s : S) {a : A} {t : S}
      → m s ≡ done a t
      → (m >>= f) s ≡ f a t
  >>=-done m f s e = rw (e, ◌>>=◌)

  pub >>=-fail :
      (m : Proc S E A) (f : A → Proc S E B) (s : S) {e : E} {t : S}
      → m s ≡ fail e t
      → (m >>= f) s ≡ fail e t
  >>=-fail m f s e = rw (e, ◌>>=◌)

  -- A chain that ended well passed through its first step.
  pub >>=-eq-done :
      (m : Proc S E A) (f : A → Proc S E B) (s : S) {b : B} {u : S}
      → (m >>= f) s ≡ done b u
      → (a : A) × (t : S) × (m s ≡ done a t) × (f a t ≡ done b u)
  >>=-eq-done m f s {b} {u} h = go (m s) refl
    where
      go : (o : Outcome S E A) → m s ≡ o → (a : A) × (t : S) × (m s ≡ done a t) × (f a t ≡ done b u)
      go (done a t) e = (a, t, e, sym (>>=-done m f s e) ∙ h)
      go (fail x t) e = cc (sym (>>=-fail m f s e) ∙ h)

module _ {ℓ κ} {S : Type ℓ} {E : Type κ} where
  pub guard-eq-done :
      (b : Bool) (e : E) (s : S) {x : Unit {0}} {t : S}
      → guard b e s ≡ done x t
      → (b ≡ true) × (s ≡ t)
  guard-eq-done true e s h = (refl, cc)
  guard-eq-done false e s h = cc

module _ {ℓ κ ι} {S : Type ℓ} {E : Type κ} {A : Type ι} where
  pub finally-done :
      (cleanup : S → S) (m : Proc S E A) (s : S) {a : A} {t : S}
      → m s ≡ done a t
      → finally cleanup m s ≡ done a (cleanup t)
  finally-done cleanup m s e = rw (e, finally)

  pub finally-fail :
      (cleanup : S → S) (m : Proc S E A) (s : S) {e : E} {t : S}
      → m s ≡ fail e t
      → finally cleanup m s ≡ fail e (cleanup t)
  finally-fail cleanup m s e = rw (e, finally)
