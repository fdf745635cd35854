-- ===== src/Transfer/Receive/Chunks.antt =====
-- internal/transfer/p2p.go: the receive loop over chunks that come in order.
use goxfer.Base.{
  ℕ, ◌+◌, ◌^◌, ◌<◌, ◌≡◌, ◌≢◌, refl, sym, ap, ◌∙◌, ◌++◌, [], List, Option, none, some, Bytes, Text,
  ℤ, pos, eq_ℤ, eq_ℤ_iff, inc64, inc64_lem, done, guard, after, >>=-done, text_eq, text_eq_self,
}
use goxfer.Base.Dict.{lookup, insert, lookup-insert_self, lookup-insert_ne}
use goxfer.Json.{JsonText}
use goxfer.Protocol.Message.{Message}
use goxfer.Transfer.World.{World, syscall, unexpected_file_id, out_of_order, chunk_write_failed}
use goxfer.Transfer.Frame.{NoFaults, syscall-done}
use goxfer.Transfer.Resume.{ResumeState, save_resume_state, resume_state_path, encode_state}
use goxfer.Transfer.Send.{chunk_message}
use goxfer.Transfer.Steps.{write_file_done}
use goxfer.Transfer.Receive.{Download, append_file, on_chunk, with_next, save_if}

-- Where the loop stands: the temporary file, the messages still to come, those sent so far.
pub record Stands (tmp : Text) (content : Bytes) (inbox outbox : List Message) (w : World)
    : Type 0 where
  pub quiet : NoFaults w
  pub holds : lookup tmp w.files ≡ some content
  pub coming : w.inbox ≡ inbox
  pub answered : w.outbox ≡ outbox

append_file_done :
    (tmp : Text) (content bytes : Bytes) (inbox outbox : List Message) (w : World)
    → Stands tmp content inbox outbox w
    → append_file tmp bytes w ≡ done tt (record w { files = insert tmp (content ++ bytes) w.files })
unfolding append_file
append_file_done tmp content bytes inbox outbox w s =
    >>=-done (syscall chunk_write_failed) _ w (syscall-done chunk_write_failed w s.quiet)
    ∙ rw s.holds

-- The state file of the download, if it has one, is another file.
abbrev pub Apart : Text → Text → Option ResumeState → Type 0
Apart dest_dir tmp none = Unit {0}
Apart dest_dir tmp (some s) = resume_state_path dest_dir s.file_id ≢ tmp

-- The download after a chunk.
abbrev pub advance : Download → ℕ → Bytes → Download
advance d n bytes = record {
  state = with_next d.state (pos (n + 1));
  tmp = d.tmp;
  hashed = d.hashed ++ bytes;
  next_index = pos (n + 1);
}

pub with_next-Apart :
    (dest_dir tmp : Text) (state : Option ResumeState) (z : ℤ)
    → Apart dest_dir tmp state
    → Apart dest_dir tmp (with_next state z)
with_next-Apart dest_dir tmp none z h = h
with_next-Apart dest_dir tmp (some s) z h = h

module _ (J : JsonText) where
  pub save_if_done :
      (dest_dir tmp : Text) (content : Bytes) (inbox outbox : List Message)
      (state : Option ResumeState) (w : World)
      → Apart dest_dir tmp state
      → Stands tmp content inbox outbox w
      → (w' : World) × (save_if J dest_dir state w ≡ done tt w')
        × Stands tmp content inbox outbox w'
  unfolding save_resume_state
  save_if_done dest_dir tmp content inbox outbox none w apart s = (w, refl, s)
  save_if_done dest_dir tmp content inbox outbox (some st) w apart s = (
    record w { files = insert path content' (insert path [] w.files) },
    ap (λ o. done tt (after o)) (write_file_done path content' w s.quiet),
    record {
      quiet = s.quiet;
      holds =
          lookup-insert_ne path tmp content' _ apart
          ∙ lookup-insert_ne path tmp [] w.files apart
          ∙ s.holds;
      coming = s.coming;
      answered = s.answered;
    },
  )
    where
      path : Text
      path = resume_state_path dest_dir st.file_id

      content' : Bytes
      content' = encode_state J st

  -- A chunk with the file's id and the index that is due is appended and hashed.
  pub on_chunk_done :
      (dest_dir : Text) (start : Message) (d : Download) (n : ℕ) (content bytes : Bytes)
      (inbox outbox : List Message) (w : World)
      → d.next_index ≡ pos n
      → n + 1 < 2 ^ 63
      → Apart dest_dir d.tmp d.state
      → Stands d.tmp content inbox outbox w
      → (w' : World) × (on_chunk J dest_dir start d (chunk_message start.file_id (pos n) bytes) w
          ≡ done (advance d n bytes) w')
        × Stands d.tmp (content ++ bytes) inbox outbox w'
  unfolding on_chunk
  on_chunk_done dest_dir start d n content bytes inbox outbox w index small apart s =
      let w1 : World = record w { files = insert d.tmp (content ++ bytes) w.files } in
      let stands1 : Stands d.tmp (content ++ bytes) inbox outbox w1 = record {
        quiet = s.quiet;
        holds = lookup-insert_self d.tmp (content ++ bytes) w.files;
        coming = s.coming;
        answered = s.answered;
      } in
      let state' = with_next d.state (inc64 d.next_index) in
      let due : inc64 d.next_index ≡ pos (n + 1) = ap inc64 index ∙ inc64_lem n small in
      let (w2, saved, stands2) =
        save_if_done dest_dir d.tmp (content ++ bytes) inbox outbox state' w1
          (with_next-Apart dest_dir d.tmp d.state (inc64 d.next_index) apart) stands1 in
      (
        w2,
        >>=-done (guard (text_eq start.file_id start.file_id) unexpected_file_id) _ w
              (ap (λ b. guard b unexpected_file_id w) (text_eq_self start.file_id))
            ∙ >>=-done (guard (eq_ℤ (pos n) d.next_index) out_of_order) _ w
                (ap (λ b. guard b out_of_order w) ((eq_ℤ_iff (pos n) d.next_index).1 (sym index)))
            ∙ >>=-done (append_file d.tmp bytes) _ w
                (append_file_done d.tmp content bytes inbox outbox w s)
            ∙ >>=-done (save_if J dest_dir state') _ w1 saved
            ∙ ap
                (λ z.
                  done
                    (record {
                      state = with_next d.state z;
                      tmp = d.tmp;
                      hashed = d.hashed ++ bytes;
                      next_index = z;
                    })
                    w2)
                due,
        stands2,
      )
