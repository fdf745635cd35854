-- ===== src/Remote/Tests.antt =====
-- internal/transfer over SFTP, FTPS and SCP: runs of the examples.
use goxfer.Base.{
  ℕ, ◌+◌, ◌==◌, ◌||◌, if◌then◌else◌, ◌≤◌, ◌<◌, ◌*◌, ◌≡◌, ◌≢◌, refl, arith, [], ◌∷◌, some, Bytes,
  Text, codes, pos, after, done, ◌⊎◌, text_eq, eq_ℤ, inc64, wrap64,
}
use goxfer.Base.Dict.{lookup, insert}
use goxfer.Base.Family.{total, set}
use goxfer.Hex.{hex_encode}
use goxfer.Remote.Ftps.{
  Ftp, whole, cut, transfer_file_with_retry, attempts, say, open_local, stor, file_size,
}
use goxfer.Remote.Ftps.Verified.{Reported, transfer_file_with_retry-Reported}
use goxfer.Remote.Ftps.Retries.{transfer_file_with_retry_succeeds}
use goxfer.Remote.Sftp.{
  Sftp, upload, attempt, calculate_local_checksum, calculate_remote_checksum, call, read_local,
  mkdir_all, create, keep_copy, copy_to,
}
use goxfer.Remote.Sftp.Verified.{upload-eq-done}
use goxfer.Remote.Sftp.Permits.{
  Uploads, all_waiting, Step, Reachable, start, next, acquire, ended, running, is_running,
}
use goxfer.Remote.Sftp.Permits.Bound.{uploads_end}
use goxfer.Remote.Sftp.Permits.Deadlock.{uploads_blocked}
use goxfer.Remote.Scp.Options.{Valued, o, i, p, P}

abbrev local : Text
local = codes "/a"

abbrev remote : Text
remote = codes "/srv/a"

-- A server that keeps one byte of the first store, and all of the second.
abbrev ftp : Ftp
ftp = record {
  local_files = (local, 1 ∷ 2 ∷ []) ∷ [];
  server = [];
  made = [];
  connects = [];
  stores = cut 1 ∷ whole ∷ [];
  sizes = [];
  printed = [];
}

transfer_file_with_retry-Reported_example :
    Reported local remote
      (pos 2)
      (after (transfer_file_with_retry local remote (pos 2) (pos 1) ftp))
unfolding transfer_file_with_retry attempts say open_local stor file_size lookup insert text_eq eq_ℤ
    inc64 wrap64
transfer_file_with_retry-Reported_example =
    transfer_file_with_retry-Reported local remote (pos 2) 1 ftp _ (omega arith) refl

transfer_file_with_retry_succeeds_example :
    (w' : Ftp) × (transfer_file_with_retry local remote (pos 2) (pos 1) ftp ≡ done tt w')
    × (lookup remote w'.server ≡ some (1 ∷ 2 ∷ []))
    × (w'.stores ≡ [])
unfolding lookup text_eq
transfer_file_with_retry_succeeds_example =
    transfer_file_with_retry_succeeds local remote (1 ∷ 2 ∷ []) 1 (cut 1 ∷ []) [] ftp (omega arith)
      (omega arith) (omega arith, tt) refl refl refl

-- A server that loses a byte of the first copy; the digest is the content.
abbrev sftp : Sftp
sftp = record {
  local_files = (local, 1 ∷ 2 ∷ []) ∷ [];
  server = [];
  made = [];
  faults = [];
  copies = 1 ∷ [];
  started = [];
}

abbrev flat : Bytes → Bytes
flat content = content

abbrev uploaded : Sftp
uploaded = after (upload flat 2 local remote sftp)

upload-eq-done_example :
    (source kept : Bytes) × (lookup local sftp.local_files ≡ some source)
    × (lookup remote uploaded.server ≡ some kept)
    × (hex_encode (flat source) ≡ hex_encode (flat kept))
unfolding keep_copy upload attempt calculate_local_checksum calculate_remote_checksum call
    read_local mkdir_all create copy_to lookup insert text_eq hex_encode
upload-eq-done_example = upload-eq-done flat 2 local remote sftp uploaded refl

-- Two files, one retry, three permits: the first upload has begun.
abbrev one_begun : Uploads
one_begun = record { free = 2; phase = set (λ _. (all_waiting 3).phase 0) 0 (running 1) }

uploads_end_example :
    total is_running 2 one_begun.phase + one_begun.free ≤ 3
    × 1 ≤ 2 * 5
    × (((i : ℕ) → i < 2 → one_begun.phase i ≡ ended) ⊎ ((t : Uploads) × Step 2 2 one_begun t))
uploads_end_example = uploads_end 2 1 3 1 one_begun (omega arith) (
    next 0 (all_waiting 3) one_begun start
      (acquire 0 0 (omega arith) refl (omega arith) (omega arith)))

-- Two files, with the default of three retries and five permits.
uploads_blocked_example :
    (n : ℕ) × (s : Uploads) × Reachable 2 4 5 n s
    × ((i : ℕ) → s.phase i ≢ ended)
    × ((t : Uploads) → ¬ Step 2 4 s t)
uploads_blocked_example = uploads_blocked 2 3 5 (omega arith)

abbrev valued : Valued
unfolding text_eq
valued = record {
  takes = λ program letter.
      (letter == o || letter == i)
      || (if text_eq program (codes "ssh") then letter == p else letter == P);
  ssh_p = refl;
  ssh_o = refl;
  ssh_i = refl;
  scp_P = refl;
  scp_o = refl;
  scp_i = refl;
}
