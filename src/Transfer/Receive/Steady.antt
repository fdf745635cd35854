-- ===== src/Transfer/Receive/Steady.antt =====
-- internal/transfer/p2p.go: the steps of receiveOneFile outside its loop come to an end.
use goxfer.Base.{
  ℕ, ◌≤◌, refl, Bool, not, ◌++◌, List, Option, none, some, Bytes, Text, text_eq, length, eq_ℤ,
  inc64, is_positive, if◌then◌else◌, Outcome, done, fail, pure, guard,
}
use goxfer.Base.Dict.{lookup, insert}
use goxfer.Json.{JsonText}
use goxfer.Protocol.Message.{Message, type_file_checksum}
use goxfer.Transfer.World.{
  World, TransferError, syscall, found, send, receive, create_temp, receive_failed, open_failed,
  seek_failed, checksum_mismatch, unexpected_file_id, out_of_order, chunk_write_failed,
  expected_checksum, save_failed,
}
use goxfer.Transfer.Extract.{TarItem, extract_tar_gz}
use goxfer.Transfer.Resume.{
  ResumeState, byte_offset, load_resume_state, truncate, rehash_file, copy_file,
}
use goxfer.Transfer.Send.{checksum_of, checksum_message}
use goxfer.Transfer.Calm.{
  Calm, Steady, Steady-bind, Steady-pure, Steady-guard, Steady-if, Steady-found, Steady-try,
  syscall-Steady, create_temp-Steady, send-Steady, receive-Steady,
}
use goxfer.Transfer.Calm.Files.{
  remove_file-Steady, truncate-Steady, rehash_file-Steady, copy_file-Steady,
  delete_resume_state-Steady, save_resume_state-Steady, load_resume_state-Steady,
  extract_tar_gz-Steady,
}
use goxfer.Transfer.Receive.{
  Download, append_file, rename, or_else, save_file, dest_path, acknowledge, with_next, delete_if,
  discard, reopen, reopen_if, first_state, resumable, is_archive, save_if, fresh, or_fresh,
  open_download, on_chunk, store_download, on_complete,
}

append_file-Steady : (path : Text) (bytes : Bytes) → Steady (append_file path bytes)
unfolding append_file
append_file-Steady path bytes =
    Steady-bind (syscall chunk_write_failed) _ (syscall-Steady chunk_write_failed refl)
      λ _. record { calm = λ w n h. go w n h (lookup path w.files) }
  where
    go :
        (w : World) (n : ℕ)
        → length w.inbox ≤ n
        → (o : Option Bytes)
        → Calm n (elim o as (λ _. Outcome World TransferError (Unit {0})) [
          | none ↦ done tt w
          | some content ↦ done tt (record w { files = insert path (content ++ bytes) w.files })
        ])
    go w n h none = (refl, h)
    go w n h (some content) = (refl, h)

rename-Steady : (src dst : Text) → Steady (rename src dst)
unfolding rename
rename-Steady src dst = Steady-bind (syscall save_failed) _ (syscall-Steady save_failed refl) λ _.
    Steady-bind (λ w. found save_failed (lookup src w.files) w) _
      (Steady-found save_failed (λ w. lookup src w.files) refl)
      λ content. record { calm = λ w n h. (refl, h) }

save_file-Steady : (tmp path : Text) → Steady (save_file tmp path)
unfolding save_file
save_file-Steady tmp path = record {
  calm = λ w n h. go n (rename tmp path w) ((rename-Steady tmp path).calm w n h);
}
  where
    go :
        (n : ℕ) (o : Outcome World TransferError (Unit {0}))
        → Calm n o
        → Calm n (or_else o (copy_file tmp path))
    go n (done x t) c = (refl, c.1)
    go n (fail e t) c = (copy_file-Steady tmp path).calm t n c.1

pub acknowledge-Steady : (start : Message) (d : Download) → Steady (acknowledge start d)
unfolding acknowledge
acknowledge-Steady start d =
    Steady-if (not start.resume) (pure tt) _ (Steady-pure tt)
      (Steady-if (is_positive d.next_index) (send _) (send _) (send-Steady _) (send-Steady _))

delete_if-Steady :
    (dest_dir file_id : Text) (s : Option ResumeState) → Steady (delete_if dest_dir file_id s)
delete_if-Steady dest_dir file_id none = Steady-pure tt
delete_if-Steady dest_dir file_id (some s) = delete_resume_state-Steady dest_dir file_id

reopen-Steady : (s : ResumeState) → Steady (reopen s)
unfolding reopen
reopen-Steady s = Steady-bind (syscall open_failed) _ (syscall-Steady open_failed refl) λ _.
    Steady-bind (λ w. found open_failed (lookup s.temp_path w.files) w) _
      (Steady-found open_failed (λ w. lookup s.temp_path w.files) refl)
      λ _.
        Steady-bind (truncate s.temp_path (byte_offset s)) _
          (truncate-Steady s.temp_path (byte_offset s))
          λ _. Steady-bind (syscall seek_failed) _ (syscall-Steady seek_failed refl) λ _.
            Steady-bind (rehash_file s.temp_path (byte_offset s)) _
              (rehash_file-Steady s.temp_path (byte_offset s)) λ hashed. Steady-pure _

reopen_if-Steady : (o : Option ResumeState) → Steady (reopen_if o)
reopen_if-Steady none = Steady-pure none
reopen_if-Steady (some s) = Steady-try (reopen s) (reopen-Steady s)

pub discard-calm :
    (tmp : Text) (w : World) (n : ℕ) → length w.inbox ≤ n → length (discard tmp w).inbox ≤ n
discard-calm tmp w n h = ((remove_file-Steady tmp).calm w n h).1

module _ (J : JsonText) where
  save_if-Steady : (dest_dir : Text) (s : Option ResumeState) → Steady (save_if J dest_dir s)
  save_if-Steady dest_dir none = Steady-pure tt
  save_if-Steady dest_dir (some s) = save_resume_state-Steady J dest_dir s

  fresh-Steady :
      (dest_dir : Text) (start : Message) (resume : Bool) → Steady (fresh J dest_dir start resume)
  unfolding fresh
  fresh-Steady dest_dir start resume = Steady-bind create_temp _ create_temp-Steady λ tmp.
      Steady-bind
        (save_if J dest_dir (if resumable resume start then some (first_state start tmp) else none))
        _
        (save_if-Steady dest_dir
          (if resumable resume start then some (first_state start tmp) else none))
        λ _. Steady-pure _

  or_fresh-Steady :
      (dest_dir : Text) (start : Message) (resume : Bool) (o : Option Download)
      → Steady (or_fresh J dest_dir start resume o)
  or_fresh-Steady dest_dir start resume (some d) = Steady-pure d
  or_fresh-Steady dest_dir start resume none = fresh-Steady dest_dir start resume

  pub open_download-Steady :
      (dest_dir : Text) (start : Message) (resume : Bool)
      → Steady (open_download J dest_dir start resume)
  unfolding open_download
  open_download-Steady dest_dir start resume =
      Steady-bind
        (if resumable resume start then load_resume_state J dest_dir start.file_id else pure none) _
        (Steady-if (resumable resume start) (load_resume_state J dest_dir start.file_id) (pure none)
          (load_resume_state-Steady J dest_dir start.file_id) (Steady-pure none))
        λ state.
          Steady-bind (reopen_if state) _ (reopen_if-Steady state)
            λ reopened. or_fresh-Steady dest_dir start resume reopened

  pub on_chunk-Steady :
      (dest_dir : Text) (start : Message) (d : Download) (msg : Message)
      → Steady (on_chunk J dest_dir start d msg)
  unfolding on_chunk
  on_chunk-Steady dest_dir start d msg =
      Steady-bind (guard (text_eq msg.file_id start.file_id) unexpected_file_id) _
        (Steady-guard _ unexpected_file_id refl)
        λ _.
          Steady-bind (guard (eq_ℤ msg.index d.next_index) out_of_order) _
            (Steady-guard _ out_of_order refl)
            λ _.
              Steady-bind (append_file d.tmp msg.chunk) _ (append_file-Steady d.tmp msg.chunk) λ _.
                Steady-bind (save_if J dest_dir (with_next d.state (inc64 d.next_index))) _
                  (save_if-Steady dest_dir (with_next d.state (inc64 d.next_index)))
                  λ _. Steady-pure _

module _ (sha256 : Bytes → Bytes) (untar : Bytes → Option (List TarItem)) where
  pub on_complete-Steady :
      (dest_dir : Text) (start : Message) (d : Download) (msg : Message)
      → Steady (on_complete sha256 untar dest_dir start d msg)
  unfolding on_complete store_download
  on_complete-Steady dest_dir start d msg =
      Steady-bind (guard (text_eq msg.file_id start.file_id) unexpected_file_id) _
        (Steady-guard _ unexpected_file_id refl)
        λ _. Steady-bind (receive receive_failed) _ (receive-Steady receive_failed refl) λ sum.
          Steady-bind (guard (text_eq sum.kind type_file_checksum) expected_checksum) _
            (Steady-guard _ expected_checksum refl)
            λ _.
              Steady-bind
                (guard (text_eq (checksum_of sha256 d.hashed) sum.checksum) checksum_mismatch) _
                (Steady-guard _ checksum_mismatch refl)
                λ _.
                  Steady-bind (send (checksum_message start.file_id (checksum_of sha256 d.hashed)))
                    _ (send-Steady _)
                    λ _.
                      Steady-bind (delete_if dest_dir start.file_id d.state) _
                        (delete_if-Steady dest_dir start.file_id d.state)
                        λ _.
                          Steady-if (is_archive start) (extract_tar_gz untar d.tmp dest_dir)
                            (save_file d.tmp (dest_path dest_dir start))
                            (extract_tar_gz-Steady untar d.tmp dest_dir)
                            (save_file-Steady d.tmp (dest_path dest_dir start))
