-- ===== src/Remote/Sftp.antt =====
-- internal/transfer/sftp.go, and CalculateRemoteFileChecksum of internal/utils/checksum.go.
-- The SSH and SFTP libraries and the server are a record of what the coming calls will do.
pub mod Verified
pub mod Whole
pub mod Permits
use goxfer.Base.{
  ℕ, zero, suc, ◌+◌, Bool, true, false, List, [], ◌∷◌, ◌++◌, Option, none, some, Bytes, Text, codes,
  length, take, drop, ltb, ℤ, pos, negsuc, inc64, text_eq, is_empty, has_prefix, ◌&&◌,
  if◌then◌else◌, Proc, Outcome, done, fail, pure, throw, guard, ◌>>=◌, ◌>>◌, lift, Result, ok, err,
}
use goxfer.Base.Dict.{Dict, lookup, insert}
use goxfer.Hex.{hex_encode}
use goxfer.Paths.{dir, join}
use goxfer.Remote.Walk.{Item, directory, file, unreadable, rel, remote_path, walk}

-- `faults`: whether each coming call fails from outside; `copies`: how many bytes the server keeps
-- of each coming copy (all of them when the list is used up). `started`: the uploads that run.
pub record Sftp : Type 0 where
  pub local_files : Dict Bytes
  pub server : Dict Bytes
  pub made : List Text
  pub faults : List Bool
  pub copies : List ℕ
  pub started : List (Text × Text)

-- The error lines of an upload, and the error returns of the walk.
pub data SftpError : Type 0 where
  local_checksum_failed open_failed make_dir_failed create_failed copy_failed remote_checksum_failed
        mismatch :
      SftpError
  access_failed rel_failed dial_failed client_failed : SftpError
  key_failed passphrase_failed parse_failed home_failed known_hosts_failed : SftpError

abbrev pub SftpProc : Type 0 → Type 0
SftpProc A = Proc Sftp SftpError A

abbrev pub next_call : SftpError → Sftp → List Bool → Outcome Sftp SftpError (Unit {0})
next_call e w [] = done tt w
next_call e w (false ∷ fs) = done tt (record w { faults = fs })
next_call e w (true ∷ fs) = fail e (record w { faults = fs })

unfoldable pub call : SftpError → SftpProc (Unit {0})
call e w = next_call e w w.faults

abbrev pub found : {A : Type 0} → SftpError → Option A → SftpProc A
found e none w = fail e w
found e (some a) w = done a w

unfoldable pub read_local : SftpError → Text → SftpProc Bytes
read_local e path = do call e; λ w. found e (lookup path w.local_files) w

unfoldable pub mkdir_all : Text → SftpProc (Unit {0})
mkdir_all path = do call make_dir_failed; λ w. done tt (record w { made = path ∷ w.made })

abbrev pub kept_of : List ℕ → Bytes → Bytes
kept_of [] content = content
kept_of (n ∷ ns) content = take n content

-- client.Create empties the file; io.Copy fills it.
unfoldable pub create : Text → SftpProc (Unit {0})
create path = do call create_failed; λ w. done tt (record w { server = insert path [] w.server })

-- What was copied before an error stays on the server.
unfoldable pub keep_copy : Text → Bytes → SftpProc (Unit {0})
keep_copy path content w = done tt (record w {
  server = insert path (kept_of w.copies content) w.server;
  copies = drop 1 w.copies;
})

unfoldable pub copy_to : Text → Bytes → SftpProc (Unit {0})
copy_to path content = do keep_copy path content; call copy_failed

module _ (sha256 : Bytes → Bytes) where
  abbrev checksum_text : Bytes → Text
  checksum_text content = hex_encode (sha256 content)

  unfoldable pub calculate_local_checksum : Text → SftpProc Text
  calculate_local_checksum path = do
    content ← read_local local_checksum_failed path
    pure (checksum_text content)

  unfoldable pub calculate_remote_checksum : Text → SftpProc Text
  calculate_remote_checksum path = do
    call remote_checksum_failed
    content ← λ w. found remote_checksum_failed (lookup path w.server) w
    pure (checksum_text content)

  -- One round of an upload's loop, once the permit is there.
  unfoldable pub attempt : Text → Text → SftpProc (Unit {0})
  attempt path remote = do
    local_sum ← calculate_local_checksum path
    content ← read_local open_failed path
    mkdir_all (dir remote)
    create remote
    copy_to remote content
    remote_sum ← calculate_remote_checksum remote
    guard (text_eq local_sum remote_sum) mismatch

  abbrev pub is_mismatch : SftpError → Bool
  is_mismatch mismatch = true
  is_mismatch _ = false

  abbrev pub retry_on :
      SftpProc Bool → Outcome Sftp SftpError (Unit {0}) → Outcome Sftp SftpError Bool
  retry_on rest (done x w) = done true w
  retry_on rest (fail e w) = if is_mismatch e then rest w else fail e w

  -- The rounds that are left, of which only a mismatch leads to another: whether a file was
  -- verified, or the error that the goroutine prints before it ends.
  unfoldable pub upload : ℕ → Text → Text → SftpProc Bool
  upload zero path remote w = done false w
  upload (suc left) path remote w = retry_on (upload left path remote) (attempt path remote w)

abbrev pub rounds : ℤ → ℕ
rounds (pos n) = n
rounds (negsuc n) = 0

-- The loop of an upload, `attempt <= maxRetries+1` from 1 on.
unfoldable pub upload_file : (Bytes → Bytes) → ℤ → Text → Text → SftpProc Bool
upload_file sha256 max_retries path remote = upload sha256 (rounds (inc64 max_retries)) path remote
