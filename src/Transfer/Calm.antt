-- ===== src/Transfer/Calm.antt =====
-- Steps that always come to an end, and never put back a message: rules that follow the shape of
-- the code. What a loop reports when its fuel is used up, no other step reports.
pub mod Files
use goxfer.Base.{
  ℕ, suc, zero, ◌≤◌, ◌<◌, ◌≡◌, refl, sym, ap, subst, ◌∙◌, Bool, true, false, ◌++◌, ◌∷◌, [], List,
  Option, none, some, Bytes, Text, length, ℤ, pos, negsuc, if◌then◌else◌, arith, Proc, Outcome,
  done, fail, pure, throw, after, guard, finally, ◌>>=◌, ◌>>◌, >>=-done, >>=-fail, >>=-eq-done,
  Result, ok, err, lift,
}
use goxfer.Base.Dict.{lookup, insert, erase}
use goxfer.Protocol.Message.{Message, validate_message}
use goxfer.Transfer.World.{
  World, Transfer, TransferError, out_of_fuel, syscall, found, read_file, put_file, create_temp,
  create_temp_failed, unused, mkdir_all, make_dir_failed, send, send_failed, require_valid, receive,
  receive_failed, next_fault, next_message, save_failed, open_failed, seek_failed,
}
use goxfer.Transfer.Resume.{
  ignore, try, write_file, remove_file, truncate, resize, rehash_file, copy_file, ResumeState,
  save_resume_state, delete_resume_state, load_resume_state, resume_state_path, encode_state,
  decode_found,
}
use goxfer.Json.{JsonText}

abbrev pub is_fuel : TransferError → Bool
is_fuel out_of_fuel = true
is_fuel _ = false

abbrev pub stuck : {A : Type 0} → Outcome World TransferError A → Bool
stuck (done a t) = false
stuck (fail e t) = is_fuel e

-- The step has ended otherwise than by its fuel, with at most `n` messages to come.
abbrev pub Calm : {A : Type 0} → ℕ → Outcome World TransferError A → Type 0
Calm n o = (stuck o ≡ false) × (length (after o).inbox ≤ n)

pub record Steady {A : Type 0} (m : Transfer A) : Type 0 where
  pub calm : (w : World) (n : ℕ) → length w.inbox ≤ n → Calm n (m w)

-- A chain at one state, where what the first step returned may be used.
pub Calm-bind :
    {A B : Type 0} (n : ℕ) (m : Transfer A) (f : A → Transfer B) (w : World)
    → Calm n (m w)
    → ((a : A) (t : World) → m w ≡ done a t → Calm n (f a t))
    → Calm n ((m >>= f) w)
Calm-bind {A} {B} n m f w c h = go (m w) refl
  where
    go : (o : Outcome World TransferError A) → m w ≡ o → Calm n ((m >>= f) w)
    go (done a t) e = subst (Calm {A = B} n) (sym (>>=-done m f w e)) (h a t e)
    go (fail x t) e = subst (Calm {A = B} n) (sym (>>=-fail m f w e)) (
      ap stuck (sym e) ∙ c.0,
      subst (λ (o : Outcome World TransferError A). length (after o).inbox ≤ n) e c.1,
    )

pub Calm-eq-done :
    {A : Type 0} (n : ℕ) (m : Transfer A) (w : World) {a : A} {t : World}
    → Calm n (m w)
    → m w ≡ done a t
    → length t.inbox ≤ n
Calm-eq-done {A} n m w c e =
    subst (λ (o : Outcome World TransferError A). length (after o).inbox ≤ n) e c.1

pub Steady-bind :
    {A B : Type 0} (m : Transfer A) (f : A → Transfer B)
    → Steady m
    → ((a : A) → Steady (f a))
    → Steady (m >>= f)
Steady-bind m f sm sf = record {
  calm = λ w n h.
      Calm-bind n m f w (sm.calm w n h)
        λ a t e. (sf a).calm t n (Calm-eq-done n m w (sm.calm w n h) e);
}

pub Steady-pure : {A : Type 0} (a : A) → Steady (pure {E = TransferError} a)
Steady-pure a = record { calm = λ w n h. (refl, h) }

pub Steady-throw : {A : Type 0} (e : TransferError) → is_fuel e ≡ false → Steady (throw {A = A} e)
Steady-throw e other = record { calm = λ w n h. (other, h) }

pub Steady-guard : (b : Bool) (e : TransferError) → is_fuel e ≡ false → Steady (guard b e)
Steady-guard true e other = record { calm = λ w n h. (refl, h) }
Steady-guard false e other = record { calm = λ w n h. (other, h) }

pub Steady-if :
    {A : Type 0} (b : Bool) (m k : Transfer A) → Steady m → Steady k → Steady (if b then m else k)
Steady-if true m k sm sk = sm
Steady-if false m k sm sk = sk

pub Steady-found :
    {A : Type 0} (e : TransferError) (o : World → Option A)
    → is_fuel e ≡ false
    → Steady (λ w. found e (o w) w)
Steady-found {A} e o other = record { calm = λ w n h. go w n h (o w) }
  where
    go : (w : World) (n : ℕ) → length w.inbox ≤ n → (r : Option A) → Calm n (found e r w)
    go w n h none = (other, h)
    go w n h (some a) = (refl, h)

pub Steady-try : {A : Type 0} (m : Transfer A) → Steady m → Steady (try m)
Steady-try {A} m sm = record { calm = λ w n h. go n (m w) (sm.calm w n h) }
  where
    go :
        (n : ℕ) (o : Outcome World TransferError A)
        → Calm n o
        → Calm n (elim o as (λ _. Outcome World TransferError (Option A)) [
          | done a t ↦ done (some a) t
          | fail e t ↦ done none t
        ])
    go n (done a t) c = (refl, c.1)
    go n (fail e t) c = (refl, c.1)

pub Steady-ignore : {A : Type 0} (m : Transfer A) → Steady m → Steady (ignore m)
Steady-ignore m sm = record { calm = λ w n h. (refl, (sm.calm w n h).1) }

-- A cleanup that leaves the messages alone.
pub Steady-finally :
    {A : Type 0} (cleanup : World → World) (m : Transfer A)
    → ((w : World) (n : ℕ) → length w.inbox ≤ n → length (cleanup w).inbox ≤ n)
    → Steady m
    → Steady (finally cleanup m)
Steady-finally {A} cleanup m clean sm = record { calm = λ w n h. go n (m w) (sm.calm w n h) }
  where
    go :
        (n : ℕ) (o : Outcome World TransferError A)
        → Calm n o
        → Calm n (elim o as (λ _. Outcome World TransferError A) [
          | done a t ↦ done a (cleanup t)
          | fail e t ↦ fail e (cleanup t)
        ])
    go n (done a t) c = (refl, clean t n c.1)
    go n (fail e t) c = (c.0, clean t n c.1)

pub syscall-Steady : (e : TransferError) → is_fuel e ≡ false → Steady (syscall e)
unfolding syscall
syscall-Steady e other = record { calm = λ w n h. go w w.faults n h }
  where
    go : (w : World) (fs : List Bool) (n : ℕ) → length w.inbox ≤ n → Calm n (next_fault e w fs)
    go w [] n h = (refl, h)
    go w (false ∷ fs) n h = (refl, h)
    go w (true ∷ fs) n h = (other, h)

pub put_file-Steady : (path : Text) (content : Bytes) → Steady (put_file path content)
put_file-Steady path content = record { calm = λ w n h. (refl, h) }

pub read_file-Steady :
    (e : TransferError) (path : Text) → is_fuel e ≡ false → Steady (read_file e path)
unfolding read_file
read_file-Steady e path other =
    Steady-bind (syscall e) _ (syscall-Steady e other)
      λ _. Steady-found e (λ w. lookup path w.files) other

pub create_temp-Steady : Steady create_temp
unfolding create_temp
create_temp-Steady =
    Steady-bind (syscall create_temp_failed) _ (syscall-Steady create_temp_failed refl) λ _.
      Steady-bind (λ w. found create_temp_failed (unused w.files w.temps) w) _
        (Steady-found create_temp_failed (λ w. unused w.files w.temps) refl)
        λ path. Steady-bind (put_file path []) _ (put_file-Steady path []) λ _. Steady-pure path

pub mkdir_all-Steady : (path : Text) → Steady (mkdir_all path)
unfolding mkdir_all
mkdir_all-Steady path =
    Steady-bind (syscall make_dir_failed) _ (syscall-Steady make_dir_failed refl)
      λ _. record { calm = λ w n h. (refl, h) }

require_valid-Steady : (r : Result _ (Unit {0})) → Steady (require_valid r)
require_valid-Steady (ok x) = record { calm = λ w n h. (refl, h) }
require_valid-Steady (err e) = record { calm = λ w n h. (refl, h) }

pub send-Steady : (m : Message) → Steady (send m)
unfolding send
send-Steady m =
    Steady-bind (require_valid (validate_message m)) _ (require_valid-Steady (validate_message m))
      λ _.
        Steady-bind (syscall send_failed) _ (syscall-Steady send_failed refl)
          λ _. record { calm = λ w n h. (refl, h) }

pub receive-Steady : (e : TransferError) → is_fuel e ≡ false → Steady (receive e)
unfolding receive
receive-Steady e other =
    Steady-bind (syscall e) _ (syscall-Steady e other)
      λ _. record { calm = λ w n h. go w n w.inbox refl h }
  where
    go :
        (w : World) (n : ℕ) (ms : List Message)
        → w.inbox ≡ ms
        → length w.inbox ≤ n
        → Calm n (next_message e w ms)
    go w n [] i h = (other, h)
    go w n (m ∷ ms) i h = (refl, omega (arith, ap length i))

syscall-eq-done :
    (e : TransferError) (w : World) {x : Unit {0}} {t : World}
    → syscall e w ≡ done x t
    → t.inbox ≡ w.inbox
unfolding syscall
syscall-eq-done e w h = go w.faults h
  where
    go :
        (fs : List Bool) {x : Unit {0}} {t : World}
        → next_fault e w fs ≡ done x t
        → t.inbox ≡ w.inbox
    go [] h = ground arith
    go (false ∷ fs) h = ground arith
    go (true ∷ fs) h = cc

-- A message that was received was the next one.
pub receive-eq-done :
    (e : TransferError) (w : World) {m : Message} {t : World}
    → receive e w ≡ done m t
    → w.inbox ≡ m ∷ t.inbox
unfolding receive
receive-eq-done e w {m} {t} h =
    let (x, v, called, taken) = >>=-eq-done (syscall e) _ w h in
    sym (syscall-eq-done e w called) ∙ go v v.inbox refl taken
  where
    go :
        (v : World) (ms : List Message)
        → v.inbox ≡ ms
        → next_message e v ms ≡ done m t
        → v.inbox ≡ m ∷ t.inbox
    go v [] i h = cc
    go v (k ∷ ms) i h = ground arith
