-- ===== src/Remote/Sftp/Permits.antt =====
-- internal/transfer/sftp.go: the uploads that run side by side, and the semaphore they share.
-- Each round of an upload takes a permit, and `defer` gives all of them back only when the
-- goroutine ends.
pub mod Bound
pub mod Deadlock
use goxfer.Base.{ℕ, zero, suc, ◌+◌, ◌-◌, ◌*◌, ◌≤◌, ◌<◌, ◌≡◌}
use goxfer.Base.Family.{set}

-- At the head of the loop with this many rounds begun; in the last of them; at its end.
pub data Phase : Type 0 where
  waiting : ℕ → Phase
  running : ℕ → Phase
  ended : Phase

pub record Uploads : Type 0 where
  pub free : ℕ
  pub phase : ℕ → Phase

abbrev pub all_waiting : ℕ → Uploads
all_waiting max_parallel = record { free = max_parallel; phase = λ _. waiting 0 }

-- Steps of `files` goroutines, with `maxRetries + 1` as `rounds`, which is below 2^63. A round ends the goroutine if it
-- verified the file or failed, and leads back to the head of the loop if the checksums differ.
pub data Step (files rounds : ℕ) (s : Uploads) : Uploads → Type 0 where
  acquire :
      (i k : ℕ)
      → i < files
      → s.phase i ≡ waiting k
      → k < rounds
      → 0 < s.free
      → Step files rounds s (record { free = s.free - 1; phase = set s.phase i (running (k + 1)) })
  mismatch :
      (i k : ℕ)
      → i < files
      → s.phase i ≡ running k
      → Step files rounds s (record s { phase = set s.phase i (waiting k) })
  finish :
      (i k : ℕ)
      → i < files
      → s.phase i ≡ running k
      → Step files rounds s (record { free = s.free + k; phase = set s.phase i ended })
  give_up :
      (i k : ℕ)
      → i < files
      → s.phase i ≡ waiting k
      → rounds ≤ k
      → Step files rounds s (record { free = s.free + k; phase = set s.phase i ended })

-- What `n` steps lead to.
pub data Reachable (files rounds max_parallel : ℕ) : ℕ → Uploads → Type 0 where
  start : Reachable files rounds max_parallel 0 (all_waiting max_parallel)
  next :
      (n : ℕ) (s t : Uploads)
      → Reachable files rounds max_parallel n s
      → Step files rounds s t
      → Reachable files rounds max_parallel (suc n) t

-- The permits that a goroutine keeps.
abbrev pub held : Phase → ℕ
held (waiting k) = k
held (running k) = k
held ended = 0

abbrev pub is_running : Phase → ℕ
is_running (running k) = 1
is_running _ = 0

-- How many steps a goroutine has ahead at most.
abbrev pub steps_left : ℕ → Phase → ℕ
steps_left rounds (waiting k) = suc (2 * (rounds - k))
steps_left rounds (running k) = suc (suc (2 * (rounds - k)))
steps_left rounds ended = 0
