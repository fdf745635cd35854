-- ===== src/Remote/Ftps.antt =====
-- internal/transfer/ftps.go: uploads over FTPS, with retries.
-- The FTP library and the server are a record of what the coming calls will do. What the program
-- prints about a file is kept, the last line first, since it is all that tells success from a
-- file that could not be verified.
pub mod Verified
pub mod Retries
use goxfer.Base.{
  ℕ, zero, suc, ◌+◌, Bool, true, false, List, [], ◌∷◌, ◌++◌, Option, none, some, Bytes, Text, codes,
  length, take, ℤ, pos, negsuc, eq_ℤ, inc64, if◌then◌else◌, Proc, Outcome, done, fail, pure, throw,
  ◌>>=◌, ◌>>◌,
}
use goxfer.Base.Dict.{Dict, lookup, insert}
use goxfer.Paths.{dir}
use goxfer.Remote.Walk.{Item, directory, file, special, unreadable, rel, remote_path, walk}

-- How a Stor goes: whole; the server keeps fewer bytes and says nothing; it ends with an error.
pub data Store : Type 0 where
  whole : Store
  cut : ℕ → Store
  broken : ℕ → Store

pub data Notice : Type 0 where
  transferring : Text → Text → Notice
  store_error : Text → Notice
  unverified : Text → Notice
  size_mismatch : Text → Notice
  succeeded : Text → Notice

-- `local_files` as they are read, `sizes`: whether each coming FileSize goes through (it does when
-- the list is used up), `connects`: whether Dial and Login do.
pub record Ftp : Type 0 where
  pub local_files : Dict Bytes
  pub server : Dict Bytes
  pub made : List Text
  pub connects : List Bool
  pub stores : List Store
  pub sizes : List Bool
  pub printed : List Notice

pub data FtpError : Type 0 where
  connect_failed login_failed access_failed rel_failed open_failed store_failed size_differs :
      FtpError

abbrev pub FtpProc : Type 0 → Type 0
FtpProc A = Proc Ftp FtpError A

unfoldable pub say : Notice → FtpProc (Unit {0})
say n w = done tt (record w { printed = n ∷ w.printed })

abbrev pub found_local : Option Bytes → FtpProc Bytes
found_local none w = fail open_failed w
found_local (some content) w = done content w

unfoldable pub open_local : Text → FtpProc Bytes
open_local path w = found_local (lookup path w.local_files) w

abbrev pub next_store : List Store → Store
next_store [] = whole
next_store (s ∷ ss) = s

abbrev pub rest_of {ℓ} : {A : Type ℓ} → List A → List A
rest_of [] = []
rest_of (a ∷ more) = more

abbrev pub kept_bytes : Store → Bytes → Bytes
kept_bytes whole content = content
kept_bytes (cut n) content = take n content
kept_bytes (broken n) content = take n content

-- Whether Stor returned without an error.
abbrev pub is_stored : Store → Bool
is_stored whole = true
is_stored (cut n) = true
is_stored (broken n) = false

unfoldable pub stor : Text → Bytes → FtpProc Bool
stor path content w =
    let s = next_store w.stores in
    done (is_stored s)
      (record w { server = insert path (kept_bytes s content) w.server; stores = rest_of w.stores })

abbrev pub size_of : Option Bytes → Option ℕ
size_of none = none
size_of (some content) = some (length content)

abbrev pub size_outcome : List Bool → Text → Ftp → Option ℕ
size_outcome [] path w = size_of (lookup path w.server)
size_outcome (true ∷ bs) path w = size_of (lookup path w.server)
size_outcome (false ∷ bs) path w = none

unfoldable pub file_size : Text → FtpProc (Option ℕ)
file_size path w = done (size_outcome w.sizes path w) (record w { sizes = rest_of w.sizes })

-- `continue`, or the error of the last attempt.
abbrev pub again : ℕ → FtpProc (Unit {0}) → FtpError → FtpProc (Unit {0})
again zero rest e = throw e
again (suc left) rest e = rest

module _ (local_path remote : Text) (size : ℤ) where
  abbrev pub judge : ℕ → FtpProc (Unit {0}) → Option ℕ → FtpProc (Unit {0})
  judge left rest none = say (unverified remote)
  judge left rest (some n) =
      if eq_ℤ (pos n) size
      then say (succeeded local_path)
      else say (size_mismatch local_path) >> again left rest size_differs

  abbrev pub after_store : ℕ → FtpProc (Unit {0}) → Bool → FtpProc (Unit {0})
  after_store left rest true = file_size remote >>= judge left rest
  after_store zero rest false = throw store_failed
  after_store (suc left) rest false = say (store_error local_path) >> rest

  -- The attempts of the loop, of which this many are left.
  unfoldable pub attempts : ℕ → FtpProc (Unit {0})
  attempts zero = pure tt
  attempts (suc left) = do
    say (transferring local_path remote)
    content ← open_local local_path
    stored ← stor remote content
    after_store left (attempts left) stored

-- `attempt <= maxRetries+1` from 1 on.
abbrev pub rounds : ℤ → ℕ
rounds (pos n) = n
rounds (negsuc n) = 0

unfoldable pub transfer_file_with_retry : Text → Text → ℤ → ℤ → FtpProc (Unit {0})
transfer_file_with_retry local_path remote size max_retries =
    attempts local_path remote size (rounds (inc64 max_retries))

unfoldable pub make_dir : Text → FtpProc (Unit {0})
make_dir path w = done tt (record w { made = path ∷ w.made })

abbrev pub related : Option Text → FtpProc Text
related none w = fail rel_failed w
related (some r) w = done r w

-- What is no directory is transferred, with the size that Lstat gave.
abbrev visit_file : Text → Text → ℤ → Text → ℤ → FtpProc (Unit {0})
visit_file src_path dest_dir max_retries path size = do
  relative ← related (rel src_path path)
  let remote = remote_path src_path dest_dir relative
  make_dir (dir remote)
  transfer_file_with_retry path remote size max_retries

unfoldable pub visit : Text → Text → ℤ → Item → FtpProc (Unit {0})
visit src_path dest_dir max_retries (unreadable path) = throw access_failed
visit src_path dest_dir max_retries (directory path) = do
  relative ← related (rel src_path path)
  make_dir (remote_path src_path dest_dir relative)
visit src_path dest_dir max_retries (file path size) =
    visit_file src_path dest_dir max_retries path size
visit src_path dest_dir max_retries (special path size) =
    visit_file src_path dest_dir max_retries path size

abbrev pub connect_outcome : FtpError → Ftp → List Bool → Outcome Ftp FtpError (Unit {0})
connect_outcome e w [] = done tt w
connect_outcome e w (true ∷ bs) = done tt (record w { connects = bs })
connect_outcome e w (false ∷ bs) = fail e (record w { connects = bs })

unfoldable pub connect_call : FtpError → FtpProc (Unit {0})
connect_call e w = connect_outcome e w w.connects

-- `items` is what Walk finds.
unfoldable pub ftps_transfer : Text → Text → ℤ → List Item → FtpProc (Unit {0})
ftps_transfer src_path dest_dir max_retries items = do
  connect_call connect_failed
  connect_call login_failed
  walk (visit src_path dest_dir max_retries) items
