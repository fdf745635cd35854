-- ===== src/Transfer/World.antt =====
-- What internal/transfer/p2p.go works on: the file system, and a session that carries messages.
-- The session is its two queues of messages.
-- Printing and the progress bar are left out.
use goxfer.Base.{
  Bool, true, false, List, [], ◌∷◌, ◌++◌, Option, none, some, Bytes, Text, Proc, Outcome, done,
  fail, pure, ◌>>=◌, ◌>>◌, Result, ok, err,
}
use goxfer.Base.Dict.{Dict, lookup, insert}
use goxfer.Protocol.Message.{Message, MessageError, validate_message, delivered}

-- `faults` says of each coming call that can fail for reasons outside the program whether it does
-- (when it is used up, none does). `temps` are the names that os.CreateTemp tries,
-- and `entropy` is what crypto/rand gives.
pub record World : Type 0 where
  pub files : Dict Bytes
  pub dirs : List Text
  pub cwd : Text
  pub temps : List Text
  pub entropy : Bytes
  pub inbox : List Message
  pub outbox : List Message
  pub faults : List Bool

-- One name for each error return.
pub data TransferError : Type 0 where
  send_failed receive_failed checksum_failed open_failed seek_failed read_failed : TransferError
  random_failed archive_failed checksum_mismatch expected_file_start create_temp_failed :
      TransferError
  unexpected_file_id out_of_order chunk_write_failed expected_checksum unexpected_type :
      TransferError
  make_dir_failed save_failed abs_failed bad_archive unsafe_entry escaping_entry : TransferError
  copy_failed out_of_fuel : TransferError

abbrev pub Transfer : Type 0 → Type 0
Transfer A = Proc World TransferError A

abbrev pub next_fault : TransferError → World → List Bool → Outcome World TransferError (Unit {0})
next_fault e w [] = done tt w
next_fault e w (false ∷ fs) = done tt (record w { faults = fs })
next_fault e w (true ∷ fs) = fail e (record w { faults = fs })

-- A call that may fail from outside.
unfoldable pub syscall : TransferError → Transfer (Unit {0})
syscall e w = next_fault e w w.faults

abbrev pub found : {A : Type 0} → TransferError → Option A → Transfer A
found e none w = fail e w
found e (some a) w = done a w

-- os.Open and reading to the end
unfoldable pub read_file : TransferError → Text → Transfer Bytes
read_file e path = do syscall e; λ w. found e (lookup path w.files) w

abbrev pub put_file : Text → Bytes → Transfer (Unit {0})
put_file path content w = done tt (record w { files = insert path content w.files })

-- os.CreateTemp: the first of the names that is not taken.
abbrev pub unused : Dict Bytes → List Text → Option Text
unused files [] = none
unused files (t ∷ ts) = elim (lookup t files) [ none ↦ some t | some _ ↦ unused files ts ]

unfoldable pub create_temp : Transfer Text
create_temp = do
  syscall create_temp_failed
  path ← λ w. found create_temp_failed (unused w.files w.temps) w
  put_file path []
  pure path

unfoldable pub mkdir_all : Text → Transfer (Unit {0})
mkdir_all path = do syscall make_dir_failed; λ w. done tt (record w { dirs = path ∷ w.dirs })

abbrev pub require_valid : Result MessageError (Unit {0}) → Transfer (Unit {0})
require_valid (ok _) w = done tt w
require_valid (err _) w = fail send_failed w

-- sess.SendMessage: validation first, then encryption and writing, which may fail.
unfoldable pub send : Message → Transfer (Unit {0})
send m = do
  require_valid (validate_message m)
  syscall send_failed
  λ w. done tt (record w { outbox = w.outbox ++ (delivered m ∷ []) })

abbrev pub next_message : TransferError → World → List Message → Outcome World TransferError Message
next_message e w [] = fail e w
next_message e w (m ∷ ms) = done m (record w { inbox = ms })

-- sess.ReceiveMessage: it fails when the connection is at its end, or breaks before.
unfoldable pub receive : TransferError → Transfer Message
receive e = do syscall e; λ w. next_message e w w.inbox
