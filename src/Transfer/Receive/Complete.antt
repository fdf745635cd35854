-- ===== src/Transfer/Receive/Complete.antt =====
-- internal/transfer/p2p.go: the end of a download, from file_complete to the saved file.
use goxfer.Base.{
  ◌≡◌, ◌≢◌, refl, ap, ◌∙◌, false, ◌++◌, ◌∷◌, [], List, Option, none, some, Bytes, Text, length,
  arith, done, guard, after, >>=-done, text_eq, text_eq_self,
}
use goxfer.Base.Dict.{lookup, insert, erase, lookup-insert_self, lookup-erase_ne}
use goxfer.Hex.{length-hex_encode}
use goxfer.Protocol.Message.{Message, type_file_checksum, delivered}
use goxfer.Protocol.Message.Validation.{IsValid, checksum}
use goxfer.Transfer.World.{
  World, syscall, receive, send, receive_failed, unexpected_file_id, expected_checksum,
  checksum_mismatch, save_failed, found,
}
use goxfer.Transfer.Frame.{NoFaults, syscall-done}
use goxfer.Transfer.Extract.{TarItem}
use goxfer.Transfer.Resume.{ResumeState, resume_state_path, delete_resume_state, copy_file}
use goxfer.Transfer.Send.{complete_message, checksum_message, checksum_of}
use goxfer.Transfer.Steps.{receive_done, send_done, remove_file_done}
use goxfer.Transfer.Receive.{
  Download, or_else, on_complete, rename, save_file, store_download, delete_if, is_archive,
  dest_path,
}
use goxfer.Transfer.Receive.Chunks.{Stands}

rename_done :
    (src dst : Text) (content : Bytes) (inbox outbox : List Message) (w : World)
    → Stands src content inbox outbox w
    → rename src dst w ≡ done tt (record w { files = insert dst content (erase src w.files) })
unfolding rename
rename_done src dst content inbox outbox w s =
    >>=-done (syscall save_failed) _ w (syscall-done save_failed w s.quiet)
    ∙ >>=-done (λ v. found save_failed (lookup src v.files) v) _ w
        (ap (λ o. found save_failed o w) s.holds)

save_file_done :
    (src dst : Text) (content : Bytes) (inbox outbox : List Message) (w : World)
    → Stands src content inbox outbox w
    → save_file src dst w ≡ done tt (record w { files = insert dst content (erase src w.files) })
unfolding save_file
save_file_done src dst content inbox outbox w s =
    ap (λ o. or_else o (copy_file src dst)) (rename_done src dst content inbox outbox w s)

-- The state file that is deleted in the end, if there is one, is another file than the download.
abbrev pub Deletable : Text → Text → Text → Option ResumeState → Type 0
Deletable dest_dir tmp file_id none = Unit {0}
Deletable dest_dir tmp file_id (some s) = resume_state_path dest_dir file_id ≢ tmp

delete_if_done :
    (dest_dir tmp : Text) (content : Bytes) (inbox outbox : List Message) (file_id : Text)
    (state : Option ResumeState) (w : World)
    → Deletable dest_dir tmp file_id state
    → Stands tmp content inbox outbox w
    → (w' : World) × (delete_if dest_dir file_id state w ≡ done tt w')
      × Stands tmp content inbox outbox w'
unfolding delete_resume_state
delete_if_done dest_dir tmp content inbox outbox file_id none w apart s = (w, refl, s)
delete_if_done dest_dir tmp content inbox outbox file_id (some st) w apart s =
    let path = resume_state_path dest_dir file_id in
    (
      record w { files = erase path w.files },
      ap (λ o. done tt (after o)) (remove_file_done path w s.quiet),
      record {
        quiet = s.quiet;
        holds = lookup-erase_ne path tmp w.files apart ∙ s.holds;
        coming = s.coming;
        answered = s.answered;
      },
    )

pub delivered-checksum_message :
    (file_id sum : Text) → delivered (checksum_message file_id sum) ≡ checksum_message file_id sum
unfolding delivered text_eq
delivered-checksum_message file_id sum = refl

checksum_of-IsValid :
    (sha256 : Bytes → Bytes) (file_id : Text) (content : Bytes)
    → ((b : Bytes) → length (sha256 b) ≡ 32)
    → file_id ≢ []
    → IsValid (checksum_message file_id (checksum_of sha256 content))
checksum_of-IsValid sha256 file_id content size h =
    checksum refl h
      λ e. absurd (omega (arith, ap length e, length-hex_encode (sha256 content), size content))

-- The world after a verified download has been saved.
pub record Saved (dest : Text) (content : Bytes) (inbox outbox : List Message) (w : World)
    : Type 0 where
  pub quiet : NoFaults w
  pub saved : lookup dest w.files ≡ some content
  pub coming : w.inbox ≡ inbox
  pub answered : w.outbox ≡ outbox

module _ (sha256 : Bytes → Bytes) (untar : Bytes → Option (List TarItem)) where
  -- If the sender's checksum is that of the bytes that were hashed, the file is saved and the
  -- checksum goes back.
  pub on_complete_done :
      (dest_dir : Text) (start : Message) (d : Download) (content : Bytes)
      (rest outbox : List Message) (w : World)
      → ((b : Bytes) → length (sha256 b) ≡ 32)
      → start.file_id ≢ []
      → is_archive start ≡ false
      → Deletable dest_dir d.tmp start.file_id d.state
      → Stands d.tmp content
          (checksum_message start.file_id (checksum_of sha256 d.hashed) ∷ rest)
          outbox
          w
      → (w' : World) × (on_complete sha256 untar dest_dir start d (complete_message start.file_id) w
          ≡ done tt w')
        × Saved
            (dest_path dest_dir start)
            content
            rest
            (outbox ++ (checksum_message start.file_id (checksum_of sha256 d.hashed) ∷ []))
            w'
  unfolding on_complete store_download
  on_complete_done dest_dir start d content rest outbox w size named plain apart s =
      let sum = checksum_message start.file_id (checksum_of sha256 d.hashed) in
      let w1 : World = record w { inbox = rest } in
      let w2 : World = record w1 { outbox = w.outbox ++ (delivered sum ∷ []) } in
      let s2 : Stands d.tmp content rest (w.outbox ++ (delivered sum ∷ [])) w2 = record {
        quiet = s.quiet;
        holds = s.holds;
        coming = refl;
        answered = refl;
      } in
      let (w3, deleted, s3) =
        delete_if_done dest_dir d.tmp content rest (w.outbox ++ (delivered sum ∷ [])) start.file_id
          d.state w2 apart s2 in
      let dest = dest_path dest_dir start in
      (
        record w3 { files = insert dest content (erase d.tmp w3.files) },
        >>=-done (guard (text_eq start.file_id start.file_id) unexpected_file_id) _ w
              (ap (λ b. guard b unexpected_file_id w) (text_eq_self start.file_id))
            ∙ >>=-done (receive receive_failed) _ w
                (receive_done receive_failed sum rest w s.coming s.quiet)
            ∙ >>=-done (guard (text_eq sum.kind type_file_checksum) expected_checksum) _ w1
                (ap (λ b. guard b expected_checksum w1) (text_eq_self type_file_checksum))
            ∙ >>=-done (guard (text_eq sum.checksum sum.checksum) checksum_mismatch) _ w1
                (ap (λ b. guard b checksum_mismatch w1) (text_eq_self sum.checksum))
            ∙ >>=-done (send sum) _ w1 (
                send_done sum w1 (checksum_of-IsValid sha256 start.file_id d.hashed size named)
                  s.quiet)
            ∙ >>=-done (delete_if dest_dir start.file_id d.state) _ w2 deleted
            ∙ rw plain
                (save_file_done d.tmp dest content rest (w.outbox ++ (delivered sum ∷ [])) w3 s3),
        record {
          quiet = s3.quiet;
          saved = lookup-insert_self dest content (erase d.tmp w3.files);
          coming = s3.coming;
          answered =
              s3.answered
              ∙ ap (λ m. w.outbox ++ (m ∷ [])) (delivered-checksum_message start.file_id _)
              ∙ ap (λ o. o ++ (sum ∷ [])) s.answered;
        },
      )
