-- ===== src/Transfer/Frame.antt =====
-- What a step leaves alone, also when it fails: rules that follow the shape of the code.
use goxfer.Base.{
  ◌≡◌, ◌≢◌, refl, sym, ap, subst, ◌∙◌, Bool, true, false, ◌∷◌, [], List, Option, none, some, Bytes,
  Text, text_eq_ne, if◌then◌else◌, Outcome, done, fail, pure, throw, after, guard, ◌>>=◌, >>=-done,
  >>=-fail, Result, ok, err, lift,
}
use goxfer.Base.Dict.{lookup, lookup-insert}
use goxfer.Transfer.World.{
  World, Transfer, TransferError, syscall, found, read_file, put_file, mkdir_all, next_fault,
}
use goxfer.Transfer.Resume.{ignore, try}

-- `Q` holds after the step if it held before.
pub record Preserves {ℓ} {A : Type 0} (Q : World → Type ℓ) (m : Transfer A) : Type ℓ where
  pub kept : (w : World) → Q w → Q (after (m w))

module _ {ℓ} (Q : World → Type ℓ) where
  pub Preserves-bind :
      {A B : Type 0} (m : Transfer A) (f : A → Transfer B)
      → Preserves Q m
      → ((a : A) → Preserves Q (f a))
      → Preserves Q (m >>= f)
  Preserves-bind {A} m f pm pf = record { kept = λ w q. go w q (m w) refl }
    where
      go :
          (w : World)
          → Q w
          → (o : Outcome World TransferError A) → m w ≡ o
          → Q (after ((m >>= f) w))
      go w q (done a t) e =
          subst (λ o. Q (after o)) (sym (>>=-done m f w e))
            ((pf a).kept t (subst (λ o. Q (after o)) e (pm.kept w q)))
      go w q (fail x t) e =
          subst (λ o. Q (after o)) (sym (>>=-fail m f w e))
            (subst (λ o. Q (after o)) e (pm.kept w q))

  pub Preserves-pure : {A : Type 0} (a : A) → Preserves Q (pure a)
  Preserves-pure a = record { kept = λ w q. q }

  pub Preserves-throw : {A : Type 0} (e : TransferError) → Preserves Q (throw {A = A} e)
  Preserves-throw e = record { kept = λ w q. q }

  pub Preserves-guard : (b : Bool) (e : TransferError) → Preserves Q (guard b e)
  Preserves-guard true e = record { kept = λ w q. q }
  Preserves-guard false e = record { kept = λ w q. q }

  pub Preserves-lift :
      {A B : Type 0} (r : Result TransferError A) (f : A → Transfer B)
      → ((a : A) → r ≡ ok a → Preserves Q (f a))
      → Preserves Q (lift r >>= f)
  Preserves-lift (ok a) f h = h a refl
  Preserves-lift (err e) f h = record { kept = λ w q. q }

  pub Preserves-found :
      {A : Type 0} (e : TransferError) (o : World → Option A) → Preserves Q (λ w. found e (o w) w)
  Preserves-found {A} e o = record { kept = λ w q. go w q (o w) }
    where
      go : (w : World) → Q w → (r : Option A) → Q (after (found e r w))
      go w q none = q
      go w q (some a) = q

  pub Preserves-if :
      {A : Type 0} (b : Bool) (m k : Transfer A)
      → Preserves Q m
      → Preserves Q k
      → Preserves Q (if b then m else k)
  Preserves-if true m k pm pk = pm
  Preserves-if false m k pm pk = pk

  pub Preserves-ignore : {A : Type 0} (m : Transfer A) → Preserves Q m → Preserves Q (ignore m)
  Preserves-ignore m pm = record { kept = λ w q. pm.kept w q }

  pub Preserves-try : {A : Type 0} (m : Transfer A) → Preserves Q m → Preserves Q (try m)
  Preserves-try {A} m pm = record { kept = λ w q. go w (m w) (pm.kept w q) }
    where
      go :
          (w : World) (o : Outcome World TransferError A)
          → Q (after o)
          → Q (
              after (elim o as (λ _. Outcome World TransferError (Option A)) [
                | done a t ↦ done (some a) t
                | fail e t ↦ done none t
              ]))
      go w (done a t) q = q
      go w (fail e t) q = q

-- The content of a file.
abbrev pub FileIs : Text → Option Bytes → World → Type 0
FileIs k v w = lookup k w.files ≡ v

-- Nothing more will fail from outside.
abbrev pub NoFaults : World → Type 0
NoFaults w = w.faults ≡ []

module _ (k : Text) (v : Option Bytes) where
  pub syscall-FileIs : (e : TransferError) → Preserves (FileIs k v) (syscall e)
  unfolding syscall
  syscall-FileIs e = record { kept = λ w q. go w w.faults q }
    where
      go : (w : World) (fs : List Bool) → FileIs k v w → FileIs k v (after (next_fault e w fs))
      go w [] q = q
      go w (false ∷ fs) q = q
      go w (true ∷ fs) q = q

  pub put_file-FileIs :
      (path : Text) (content : Bytes) → path ≢ k → Preserves (FileIs k v) (put_file path content)
  put_file-FileIs path content other = record {
    kept = λ w q.
        lookup-insert path k content w.files
        ∙ ap (λ b. if b then some content else lookup k w.files) (text_eq_ne path k other)
        ∙ q;
  }

  pub read_file-FileIs :
      (e : TransferError) (path : Text) → Preserves (FileIs k v) (read_file e path)
  unfolding read_file
  read_file-FileIs e path =
      Preserves-bind (FileIs k v) (syscall e) _ (syscall-FileIs e)
        λ _. Preserves-found (FileIs k v) e (λ w. lookup path w.files)

  pub mkdir_all-FileIs : (path : Text) → Preserves (FileIs k v) (mkdir_all path)
  unfolding mkdir_all
  mkdir_all-FileIs path =
      Preserves-bind (FileIs k v) (syscall _) _ (syscall-FileIs _) λ _. record { kept = λ w q. q }

pub syscall-NoFaults : (e : TransferError) → Preserves NoFaults (syscall e)
unfolding syscall
syscall-NoFaults e = record { kept = λ w q. ap (λ fs. (after (next_fault e w fs)).faults) q ∙ q }

-- Without faults a call goes through.
pub syscall-done : (e : TransferError) (w : World) → NoFaults w → syscall e w ≡ done tt w
unfolding syscall
syscall-done e w q = ap (next_fault e w) q
