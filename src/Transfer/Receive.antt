-- ===== src/Transfer/Receive.antt =====
-- internal/transfer/p2p.go: receiveFiles and receiveOneFile.
-- The loops run on fuel, one unit for each message; each round takes a message out of the inbox.
pub mod Chunks
pub mod Complete
pub mod Loop
pub mod Acknowledge
pub mod Body
pub mod Open
pub mod OneFile
pub mod Files
pub mod Steady
pub mod Termination
pub mod Accepted
pub mod Interrupted
use goxfer.Base.{
  ℕ, zero, suc, ◌+◌, Bool, true, false, not, ◌&&◌, List, [], ◌∷◌, ◌++◌, Option, none, some, Bytes,
  Text, codes, text_eq, ℤ, pos, eq_ℤ, inc64, scale64, is_positive, length, has_suffix,
  if◌then◌else◌, Proc, Outcome, done, fail, pure, throw, guard, ◌>>=◌, ◌>>◌, finally, after,
}
use goxfer.Base.Dict.{lookup, insert, erase}
use goxfer.Hex.{hex_encode}
use goxfer.Json.{JsonText}
use goxfer.Paths.{base, join}
use goxfer.Protocol.Message.{
  Message, zero_message, file_chunk_size, type_file_start, type_file_chunk, type_file_complete,
  type_file_checksum, type_file_resume, type_ready,
}
use goxfer.Transfer.World.{
  World, Transfer, TransferError, syscall, put_file, create_temp, mkdir_all, found, send, receive,
  receive_failed, open_failed, seek_failed, checksum_mismatch, expected_file_start,
  unexpected_file_id, out_of_order, chunk_write_failed, expected_checksum, unexpected_type,
  save_failed, out_of_fuel,
}
use goxfer.Transfer.Extract.{TarItem, extract_tar_gz}
use goxfer.Transfer.Resume.{
  ResumeState, byte_offset, ignore, try, load_resume_state, save_resume_state, delete_resume_state,
  truncate, rehash_file, copy_file, remove_file,
}
use goxfer.Transfer.Send.{checksum_of, checksum_message}

-- The variables of receiveOneFile. `hashed` is what the hash has been given.
pub record Download : Type 0 where
  pub state : Option ResumeState
  pub tmp : Text
  pub hashed : Bytes
  pub next_index : ℤ

abbrev pub is_archive : Message → Bool
is_archive start = has_suffix start.name (codes ".tar.gz")

-- Whether both sides ask for resuming, and the file is no archive.
abbrev pub resumable : Bool → Message → Bool
resumable resume start = resume && start.resume && not (is_archive start)

-- (*os.File).Write at the end of the file.
unfoldable pub append_file : Text → Bytes → Transfer (Unit {0})
append_file path bytes = do
  syscall chunk_write_failed
  λ w. elim (lookup path w.files) [
    | none ↦ done tt w
    | some content ↦ done tt (record w { files = insert path (content ++ bytes) w.files })
  ]

-- os.Rename
unfoldable pub rename : Text → Text → Transfer (Unit {0})
rename src dst = do
  syscall save_failed
  content ← λ w. found save_failed (lookup src w.files) w
  λ w. done tt (record w { files = insert dst content (erase src w.files) })

abbrev pub or_else :
    Outcome World TransferError (Unit {0})
    → Transfer (Unit {0})
    → Outcome World TransferError (Unit {0})
or_else (done x t) k = done x t
or_else (fail e t) k = k t

abbrev pub dest_path : Text → Message → Text
dest_path dest_dir start = join dest_dir (base start.name)

unfoldable pub save_file : Text → Text → Transfer (Unit {0})
save_file tmp path w = or_else (rename tmp path w) (copy_file tmp path)

abbrev pub resume_message : Text → ℤ → Message
resume_message file_id offset = record zero_message {
  kind = type_file_resume;
  file_id = file_id;
  offset = offset;
}

abbrev pub ready_message : Message
ready_message = record zero_message { kind = type_ready }

unfoldable pub acknowledge : Message → Download → Transfer (Unit {0})
acknowledge start d =
    if not start.resume
    then pure tt
    else if is_positive d.next_index
    then send (resume_message start.file_id (scale64 d.next_index file_chunk_size))
    else send ready_message

abbrev pub with_next : Option ResumeState → ℤ → Option ResumeState
with_next none index = none
with_next (some s) index = some (record s { next_index = index })

abbrev pub delete_if : Text → Text → Option ResumeState → Transfer (Unit {0})
delete_if dest_dir file_id none = pure tt
delete_if dest_dir file_id (some s) = delete_resume_state dest_dir file_id

abbrev pub discard : Text → World → World
discard tmp w = after (remove_file tmp w)

-- The partial file of an earlier run, cut to whole chunks and hashed again.
unfoldable pub reopen : ResumeState → Transfer Download
reopen s = do
  syscall open_failed
  content ← λ w. found open_failed (lookup s.temp_path w.files) w
  truncate s.temp_path (byte_offset s)
  syscall seek_failed
  hashed ← rehash_file s.temp_path (byte_offset s)
  pure (record { state = some s; tmp = s.temp_path; hashed = hashed; next_index = s.next_index })

abbrev pub first_state : Message → Text → ResumeState
first_state start tmp = record {
  file_id = start.file_id;
  name = start.name;
  size = start.size;
  next_index = pos 0;
  temp_path = tmp;
}

abbrev pub reopen_if : Option ResumeState → Transfer (Option Download)
reopen_if none = pure none
reopen_if (some s) = try (reopen s)

module _ (J : JsonText) where
  abbrev pub save_if : Text → Option ResumeState → Transfer (Unit {0})
  save_if dest_dir none = pure tt
  save_if dest_dir (some s) = save_resume_state J dest_dir s

  unfoldable pub fresh : Text → Message → Bool → Transfer Download
  fresh dest_dir start resume = do
    tmp ← create_temp
    let state = if resumable resume start then some (first_state start tmp) else none
    save_if dest_dir state
    pure (record { state = state; tmp = tmp; hashed = []; next_index = pos 0 })

  abbrev pub or_fresh : Text → Message → Bool → Option Download → Transfer Download
  or_fresh dest_dir start resume (some d) = pure d
  or_fresh dest_dir start resume none = fresh dest_dir start resume

  unfoldable pub open_download : Text → Message → Bool → Transfer Download
  open_download dest_dir start resume = do
    state ← if resumable resume start then load_resume_state J dest_dir start.file_id else pure none
    reopened ← reopen_if state
    or_fresh dest_dir start resume reopened

  unfoldable pub on_chunk : Text → Message → Download → Message → Transfer Download
  on_chunk dest_dir start d msg = do
    guard (text_eq msg.file_id start.file_id) unexpected_file_id
    guard (eq_ℤ msg.index d.next_index) out_of_order
    append_file d.tmp msg.chunk
    let index = inc64 d.next_index
    let state = with_next d.state index
    save_if dest_dir state
    pure (record d { state = state; hashed = d.hashed ++ msg.chunk; next_index = index })

module _ (untar : Bytes → Option (List TarItem)) where
  -- Where the verified file goes.
  unfoldable pub store_download : Text → Message → Text → Transfer (Unit {0})
  store_download dest_dir start tmp =
      if is_archive start
      then extract_tar_gz untar tmp dest_dir
      else save_file tmp (dest_path dest_dir start)

module _ (sha256 : Bytes → Bytes) (untar : Bytes → Option (List TarItem)) where
  unfoldable pub on_complete : Text → Message → Download → Message → Transfer (Unit {0})
  on_complete dest_dir start d msg = do
    guard (text_eq msg.file_id start.file_id) unexpected_file_id
    sum ← receive receive_failed
    guard (text_eq sum.kind type_file_checksum) expected_checksum
    let local = checksum_of sha256 d.hashed
    guard (text_eq local sum.checksum) checksum_mismatch
    send (checksum_message start.file_id local)
    delete_if dest_dir start.file_id d.state
    store_download untar dest_dir start d.tmp

module _ (J : JsonText) (sha256 : Bytes → Bytes) (untar : Bytes → Option (List TarItem)) where
  -- What a message of the loop does: another round, the end, or an error.
  unfoldable pub receive_loop : ℕ → Text → Message → Download → Transfer (Unit {0})
  receive_loop zero dest_dir start d = throw out_of_fuel
  receive_loop (suc fuel) dest_dir start d = do
    msg ← receive receive_failed
    elim (text_eq msg.kind type_file_chunk) [
      | true ↦ on_chunk J dest_dir start d msg >>= receive_loop fuel dest_dir start
      | false ↦
          if text_eq msg.kind type_file_complete
          then on_complete sha256 untar dest_dir start d msg
          else throw unexpected_type
    ]

  -- With fuel for every message that can come.
  abbrev pub receive_rest : Text → Message → Download → Transfer (Unit {0})
  receive_rest dest_dir start d w = receive_loop (suc (length w.inbox)) dest_dir start d w

  -- The temporary file is removed on every return, errors included.
  unfoldable pub receive_one_file : Text → Message → Bool → Transfer (Unit {0})
  receive_one_file dest_dir start resume = do
    d ← open_download J dest_dir start resume
    finally (discard d.tmp) (do acknowledge start d; receive_rest dest_dir start d)

  unfoldable pub receive_files : ℕ → Text → Bool → Transfer (Unit {0})
  receive_files zero dest_dir resume = throw out_of_fuel
  receive_files (suc fuel) dest_dir resume = do
    next ← try (receive receive_failed)
    elim next [
      | none ↦ pure tt
      | some msg ↦ do
        guard (text_eq msg.kind type_file_start) expected_file_start
        receive_one_file dest_dir msg resume
        receive_files fuel dest_dir resume
    ]

  -- P2PReceive once its session stands.
  unfoldable pub receive_into : Text → Bool → Transfer (Unit {0})
  receive_into dest_dir resume = do
    mkdir_all dest_dir
    λ w. receive_files (suc (length w.inbox)) dest_dir resume w
