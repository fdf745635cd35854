-- ===== src/Remote/Sftp/Permits/Deadlock.antt =====
-- internal/transfer/sftp.go: with too few permits the uploads can wait for each other, or for themselves, for ever.
use goxfer.Base.{
  ℕ, zero, suc, ◌+◌, ◌-◌, ◌*◌, ◌≤◌, ◌<◌, ◌≡◌, ◌≢◌, refl, sym, ap, subst, arith, Bool-cases, inl,
  inr, ◌==◌, if◌then◌else◌,
}
use goxfer.Base.Family.{set, total, total-set, total_below, total_zero}
use goxfer.Remote.Sftp.Permits.{
  Phase, waiting, running, ended, Uploads, all_waiting, Step, acquire, mismatch, finish, give_up,
  Reachable, start, next, held,
}
use goxfer.Remote.Sftp.Permits.Bound.{Reachable-Inv}

-- Every goroutine is at the head of its loop, with a round ahead.
abbrev Waits : ℕ → Phase → Type 0
Waits max_retries (waiting k) = k ≤ max_retries
Waits max_retries (running k) = ⊥
Waits max_retries ended = ⊥

set-Waits :
    (m : ℕ) (f : ℕ → Phase) (c : ℕ) (a b : Phase)
    → ((i : ℕ) → Waits m (f i))
    → Waits m b
    → (i : ℕ) → Waits m (set (set f c a) c b i)
unfolding set
set-Waits m f c a b all at_c i = elim (Bool-cases (c == i)) [
  | inl t ↦ subst (λ x. Waits m (if x then b else set f c a i)) (sym t) at_c
  | inr t ↦ subst (λ x. Waits m (if x then b else if x then a else f i)) (sym t) (all i)
]

record Queue (files max_retries max_parallel taken : ℕ) : Type 0 where
  steps : ℕ
  uploads : Uploads
  reached : Reachable files (suc max_retries) max_parallel steps uploads
  waits : (i : ℕ) → Waits max_retries (uploads.phase i)
  holds : total held files uploads.phase ≡ taken

set_at : (f : ℕ → Phase) (c : ℕ) (a : Phase) → set f c a c ≡ a
unfolding set
set_at f c a = ground arith

-- One that waits takes a permit and finds the checksums different.
another :
    (files m p q : ℕ)
    → q < p
    → q < files * m
    → (i : ℕ) (a : Phase) (w : Queue files m p q) → w.uploads.phase i ≡ a
    → i < files
    → Waits m a
    → held a < m
    → Queue files m p (suc q)
another files m p q free_yet room i (waiting j) w at lt waits below =
    let inv = Reachable-Inv files (suc m) p w.steps w.uploads w.reached in
    let s = w.uploads in
    let t : Uploads = record { free = s.free - 1; phase = set s.phase i (running (j + 1)) } in
    let u : Uploads = record t { phase = set t.phase i (waiting (j + 1)) } in
    let runs = set_at s.phase i (running (j + 1)) in
    let first : Step files (suc m) s t =
      acquire i j lt at (omega arith) (omega (arith, inv.kept, w.holds)) in
    let taken : Reachable files (suc m) p (suc w.steps) t = next w.steps s t w.reached first in
    let back : Reachable files (suc m) p (suc (suc w.steps)) u =
      next (suc w.steps) t u taken (mismatch i (j + 1) lt runs) in
    let once = total-set held files s.phase i (running (j + 1)) lt in
    let twice = total-set held files t.phase i (waiting (j + 1)) lt in
    record {
      steps = suc (suc w.steps);
      uploads = u;
      reached = back;
      waits = set-Waits m s.phase i (running (j + 1)) (waiting (j + 1)) w.waits (omega arith);
      holds = omega (arith, w.holds, once, twice, ap held at, ap held runs);
    }
another files m p q free_yet room i (running j) w at lt waits below = absurd waits
another files m p q free_yet room i ended w at lt waits below = absurd waits

queue : (files m p q : ℕ) → q ≤ p → q ≤ files * m → Queue files m p q
queue files m p zero h h' = record {
  steps = 0;
  uploads = all_waiting p;
  reached = start;
  waits = λ i. omega arith;
  holds = total_zero held files (λ _. waiting 0) (λ i. refl);
}
queue files m p (suc q) h h' =
    let w = queue files m p q (omega arith) (omega arith) in
    let room = total_below held files m w.uploads.phase (omega (arith, w.holds)) in
    another files m p q h h' room.0 (w.uploads.phase room.0) w refl room.1 (w.waits room.0) room.2

no_step :
    (files m : ℕ) (s : Uploads)
    → s.free ≡ 0
    → ((i : ℕ) → Waits m (s.phase i))
    → (t : Uploads) → ¬ Step files (suc m) s t
no_step files m s none_free waits t (acquire i k lt at below free) = omega arith
no_step files m s none_free waits t (mismatch i k lt at) = subst (Waits m) at (waits i)
no_step files m s none_free waits t (finish i k lt at) = subst (Waits m) at (waits i)
no_step files m s none_free waits t (give_up i k lt at above) =
    let few = subst (Waits m) at (waits i) in omega arith

-- If the permits are at most files * maxRetries, the uploads of that many files can come to a
-- state in which no goroutine can take a step, though none of them has ended, and each waits for
-- a permit that the others, or it itself, keep until they end.
pub uploads_blocked :
    (files max_retries max_parallel : ℕ)
    → max_parallel ≤ files * max_retries
    → (n : ℕ) × (s : Uploads) × Reachable files (suc max_retries) max_parallel n s
      × ((i : ℕ) → s.phase i ≢ ended)
      × ((t : Uploads) → ¬ Step files (suc max_retries) s t)
uploads_blocked files m p few =
    let w = queue files m p p (omega arith) few in
    let inv = Reachable-Inv files (suc m) p w.steps w.uploads w.reached in
    (
      w.steps,
      w.uploads,
      w.reached,
      (λ i at. subst (Waits m) at (w.waits i)),
      no_step files m w.uploads (omega (arith, inv.kept, w.holds)) w.waits,
    )
