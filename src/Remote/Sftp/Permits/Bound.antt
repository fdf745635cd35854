-- ===== src/Remote/Sftp/Permits/Bound.antt =====
-- internal/transfer/sftp.go: permits are never lost, and where they suffice nothing blocks.
use goxfer.Base.{
  ℕ, suc, ◌+◌, ◌-◌, ◌*◌, ◌≤◌, ◌<◌, ◌≡◌, refl, sym, ap, subst, arith, Bool-cases, ◌⊎◌, inl, inr, ltb,
  ltb→lt, ltb→le, ◌==◌, if◌then◌else◌,
}
use goxfer.Base.Family.{set, total, total-set, total_le, total_zero, total_mono, total_above}
use goxfer.Remote.Sftp.Permits.{
  Phase, waiting, running, ended, Uploads, Step, acquire, mismatch, finish, give_up, Reachable,
  start, next, held, is_running, steps_left,
}

-- What a goroutine may be at: no more rounds begun than there are.
abbrev pub Fits : ℕ → Phase → Type 0
Fits rounds (waiting k) = k ≤ rounds
Fits rounds (running k) = 0 < k × k ≤ rounds
Fits rounds ended = Unit {0}

pub record Inv (files rounds max_parallel : ℕ) (s : Uploads) : Type 0 where
  pub kept : s.free + total held files s.phase ≡ max_parallel
  pub fits : (i : ℕ) → Fits rounds (s.phase i)

pub set-Fits :
    (rounds : ℕ) (f : ℕ → Phase) (c : ℕ) (a : Phase)
    → ((i : ℕ) → Fits rounds (f i))
    → Fits rounds a
    → (i : ℕ) → Fits rounds (set f c a i)
unfolding set
set-Fits rounds f c a all at_c i = elim (Bool-cases (c == i)) [
  | inl t ↦ subst (λ b. Fits rounds (if b then a else f i)) (sym t) at_c
  | inr t ↦ subst (λ b. Fits rounds (if b then a else f i)) (sym t) (all i)
]

Step-Inv :
    (files rounds p : ℕ) (s t : Uploads)
    → Inv files rounds p s
    → Step files rounds s t
    → Inv files rounds p t
Step-Inv files rounds p s t inv (acquire i k lt at below free) =
    let moved = total-set held files s.phase i (running (k + 1)) lt in
    let weight = ap held at in
    record {
      kept = omega (arith, inv.kept, moved, weight);
      fits = set-Fits rounds s.phase i (running (k + 1)) inv.fits (omega arith, omega arith);
    }
Step-Inv files rounds p s t inv (mismatch i k lt at) =
    let moved = total-set held files s.phase i (waiting k) lt in
    let weight = ap held at in
    let here = subst (Fits rounds) at (inv.fits i) in
    record {
      kept = omega (arith, inv.kept, moved, weight);
      fits = set-Fits rounds s.phase i (waiting k) inv.fits here.1;
    }
Step-Inv files rounds p s t inv (finish i k lt at) =
    let moved = total-set held files s.phase i ended lt in
    let weight = ap held at in
    record {
      kept = omega (arith, inv.kept, moved, weight);
      fits = set-Fits rounds s.phase i ended inv.fits tt;
    }
Step-Inv files rounds p s t inv (give_up i k lt at above) =
    let moved = total-set held files s.phase i ended lt in
    let weight = ap held at in
    record {
      kept = omega (arith, inv.kept, moved, weight);
      fits = set-Fits rounds s.phase i ended inv.fits tt;
    }

pub Reachable-Inv :
    (files rounds p n : ℕ) (s : Uploads) → Reachable files rounds p n s → Inv files rounds p s
Reachable-Inv files rounds p n s start = record {
  kept = omega (arith, total_zero held files (λ _. waiting 0) (λ i. refl));
  fits = λ i. omega arith;
}
Reachable-Inv files rounds p n s (next m r t before step) =
    Step-Inv files rounds p r s (Reachable-Inv files rounds p m r before) step

running_holds : (rounds : ℕ) (a : Phase) → Fits rounds a → is_running a ≤ held a
running_holds rounds (waiting k) h = omega arith
running_holds rounds (running k) h = omega (arith, h.0)
running_holds rounds ended h = omega arith

uploads_bounded :
    (files rounds max_parallel n : ℕ) (s : Uploads)
    → Reachable files rounds max_parallel n s
    → total is_running files s.phase + s.free ≤ max_parallel
uploads_bounded files rounds p n s reached =
    let inv = Reachable-Inv files rounds p n s reached in
    let least =
      total_mono is_running held files s.phase
        (λ i. running_holds rounds (s.phase i) (inv.fits i)) in
    omega (arith, inv.kept, least)

-- Every step leaves fewer ahead.
Step-shrinks :
    (files rounds : ℕ) (s t : Uploads)
    → ((i : ℕ) → Fits rounds (s.phase i))
    → Step files rounds s t
    → total (steps_left rounds) files t.phase < total (steps_left rounds) files s.phase
Step-shrinks files rounds s t fits (acquire i k lt at below free) = omega (
  arith,
  total-set (steps_left rounds) files s.phase i (running (k + 1)) lt,
  ap (steps_left rounds) at,
)
Step-shrinks files rounds s t fits (mismatch i k lt at) =
    omega (
      arith,
      total-set (steps_left rounds) files s.phase i (waiting k) lt,
      ap (steps_left rounds) at,
    )
Step-shrinks files rounds s t fits (finish i k lt at) =
    omega (arith, total-set (steps_left rounds) files s.phase i ended lt, ap (steps_left rounds) at)
Step-shrinks files rounds s t fits (give_up i k lt at above) =
    omega (arith, total-set (steps_left rounds) files s.phase i ended lt, ap (steps_left rounds) at)

Reachable-short :
    (files rounds p n : ℕ) (s : Uploads)
    → Reachable files rounds p n s
    → n + total (steps_left rounds) files s.phase ≤ files * suc (2 * rounds)
Reachable-short files rounds p n s start = omega (
  arith,
  total_le (steps_left rounds) files (suc (2 * rounds)) (λ _. waiting 0) (λ i lt. omega arith),
)
Reachable-short files rounds p n s (next m r t before step) =
    let inv = Reachable-Inv files rounds p m r before in
    omega (
      arith,
      Reachable-short files rounds p m r before,
      Step-shrinks files rounds r s inv.fits step,
    )

-- A goroutine that has all its permits ends.
can_end :
    (files max_retries : ℕ) (s : Uploads) (i : ℕ) (a : Phase)
    → i < files
    → s.phase i ≡ a
    → Fits (suc max_retries) a
    → max_retries < held a
    → (t : Uploads) × Step files (suc max_retries) s t
can_end files m s i (waiting k) lt at fits full =
    (record { free = s.free + k; phase = set s.phase i ended }, give_up i k lt at (omega arith))
can_end files m s i (running k) lt at fits full =
    (record { free = s.free + k; phase = set s.phase i ended }, finish i k lt at)
can_end files m s i ended lt at fits full = absurd (omega arith)

-- One that has not ended can go on, or another can give permits back.
can_step :
    (files max_retries p : ℕ) (s : Uploads)
    → Inv files (suc max_retries) p s
    → files * max_retries < p
    → (i : ℕ) (a : Phase) → i < files
    → s.phase i ≡ a
    → 0 < steps_left (suc max_retries) a
    → (t : Uploads) × Step files (suc max_retries) s t
can_step files m p s inv enough i (running k) lt at open_yet =
    (record { free = s.free + k; phase = set s.phase i ended }, finish i k lt at)
can_step files m p s inv enough i (waiting k) lt at open_yet = elim (Bool-cases (ltb k (suc m))) [
  | inr t ↦ (
    record { free = s.free + k; phase = set s.phase i ended },
    give_up i k lt at (ltb→le k (suc m) t),
  )
  | inl t ↦ elim (Bool-cases (ltb 0 s.free)) [
    | inl f ↦ (
      record { free = s.free - 1; phase = set s.phase i (running (k + 1)) },
      acquire i k lt at (ltb→lt k (suc m) t) (ltb→lt 0 s.free f),
    )
    | inr f ↦
        let none_free = ltb→le 0 s.free f in
        let full = total_above held files m s.phase (omega (arith, inv.kept)) in
        can_end files m s full.0 (s.phase full.0) full.1 refl (inv.fits full.0) full.2
  ]
]
can_step files m p s inv enough i ended lt at open_yet = absurd (omega arith)

no_steps_left : (rounds : ℕ) (a : Phase) → steps_left rounds a ≡ 0 → a ≡ ended
no_steps_left rounds (waiting k) h = absurd (omega arith)
no_steps_left rounds (running k) h = absurd (omega arith)
no_steps_left rounds ended h = refl

-- If there are more permits than files * maxRetries, then in every state that the uploads can
-- reach, in any order of their steps, the running ones and the free permits together are no more
-- than maxParallel, at most files * (2 * (maxRetries + 1) + 1) steps have been taken, and either
-- all have ended or some goroutine can take a step. So every run ends, with all uploads ended.
pub uploads_end :
    (files max_retries max_parallel n : ℕ) (s : Uploads)
    → files * max_retries < max_parallel
    → Reachable files (suc max_retries) max_parallel n s
    → total is_running files s.phase + s.free ≤ max_parallel
      × n ≤ files * suc (2 * suc max_retries)
      × (((i : ℕ) → i < files → s.phase i ≡ ended)
          ⊎ ((t : Uploads) × Step files (suc max_retries) s t))
uploads_end files m p n s enough reached =
    let inv = Reachable-Inv files (suc m) p n s reached in
    let short = Reachable-short files (suc m) p n s reached in
    let left = total (steps_left (suc m)) files s.phase in
    (
      uploads_bounded files (suc m) p n s reached,
      omega (arith, short),
      elim (Bool-cases (ltb 0 left)) [
        | inl t ↦
            let some_open =
              total_above (steps_left (suc m)) files 0 s.phase (omega (arith, ltb→lt 0 left t)) in
            inr (
              can_step files m p s inv enough some_open.0 (s.phase some_open.0) some_open.1 refl
                some_open.2)
        | inr t ↦ inl (λ i lt. no_steps_left (suc m) (s.phase i) (
            omega
              (arith, ltb→le 0 left t, total-set (steps_left (suc m)) files s.phase i ended lt)))
      ],
    )
