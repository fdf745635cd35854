-- ===== src/Transfer/Receive/Body.antt =====
-- internal/transfer/p2p.go: receiveOneFile from the acknowledgement to the last return.
use goxfer.Base.{
  ℕ, suc, ◌+◌, ◌^◌, ◌<◌, ◌≡◌, ◌≢◌, refl, sym, ap, subst, ◌∙◌, false, ◌++◌, ◌∷◌, [], append_assoc,
  List, Option, none, some, Bytes, Text, length, length-append, pos, arith, done, after, >>=-done,
  finally-done, ◌>>◌, finally,
}
use goxfer.Base.Dict.{lookup, erase, lookup-erase_self, lookup-erase_ne}
use goxfer.Json.{JsonText}
use goxfer.Protocol.Message.{Message}
use goxfer.Transfer.World.{World}
use goxfer.Transfer.Frame.{NoFaults}
use goxfer.Transfer.Extract.{TarItem}
use goxfer.Transfer.Resume.{ResumeState}
use goxfer.Transfer.Send.{complete_message, checksum_message, checksum_of}
use goxfer.Transfer.Send.Chunks.{chunk_messages, concat}
use goxfer.Transfer.Steps.{remove_file_done}
use goxfer.Transfer.Receive.{
  with_next, Download, acknowledge, receive_loop, receive_rest, discard, is_archive, dest_path,
}
use goxfer.Transfer.Receive.Chunks.{Stands, Apart, advance}
use goxfer.Transfer.Receive.Complete.{Deletable, Saved, on_complete_done}
use goxfer.Transfer.Receive.Loop.{
  advance_all, advance_all-hashed, advance_all-tmp, receive_loop_chunks, receive_loop_complete,
}
use goxfer.Transfer.Receive.Acknowledge.{answers, acknowledge_done}

pub length-chunk_messages :
    (id : Text) (n : ℕ) (cs : List Bytes) → length (chunk_messages id n cs) ≡ length cs
length-chunk_messages id n [] = refl
length-chunk_messages id n (c ∷ cs) = ap suc (length-chunk_messages id (n + 1) cs)

-- The messages of a whole file, from its `n`-th chunk on.
abbrev pub file_messages : Text → ℕ → List Bytes → Text → List Message
file_messages id n cs sum =
    chunk_messages id n cs ++ (complete_message id ∷ checksum_message id sum ∷ [])

-- What a download that ended well has done: the file is there, the temporary file is not, and
-- the messages `outbox` have been sent.
pub record Received (tmp dest : Text) (content : Bytes) (inbox outbox : List Message) (w : World)
    : Type 0 where
  pub quiet : NoFaults w
  pub saved : lookup dest w.files ≡ some content
  pub removed : lookup tmp w.files ≡ none
  pub coming : w.inbox ≡ inbox
  pub answered : w.outbox ≡ outbox

advance_all-Deletable :
    (dest_dir id : Text) (d : Download) (n : ℕ) (cs : List Bytes)
    → Deletable dest_dir d.tmp id d.state
    → Deletable dest_dir (advance_all d n cs).tmp id (advance_all d n cs).state
advance_all-Deletable dest_dir id d n [] h = h
advance_all-Deletable dest_dir id d n (c ∷ cs) h =
    advance_all-Deletable dest_dir id (advance d n c) (n + 1) cs (step d.state h)
  where
    step :
        (state : Option ResumeState)
        → Deletable dest_dir d.tmp id state
        → Deletable dest_dir d.tmp id (with_next state (pos (n + 1)))
    step none h = h
    step (some s) h = h

module _ (J : JsonText) (sha256 : Bytes → Bytes) (untar : Bytes → Option (List TarItem)) where
  receive_rest_done :
      (cs : List Bytes) (n : ℕ) (dest_dir : Text) (start : Message) (d : Download) (content : Bytes)
      (rest outbox : List Message) (w : World)
      → ((b : Bytes) → length (sha256 b) ≡ 32)
      → start.file_id ≢ []
      → is_archive start ≡ false
      → d.next_index ≡ pos n
      → d.hashed ≡ content
      → n + length cs < 2 ^ 63
      → Apart dest_dir d.tmp d.state
      → Deletable dest_dir d.tmp start.file_id d.state
      → Stands d.tmp content
          (file_messages start.file_id n cs (checksum_of sha256 (content ++ concat cs)) ++ rest)
          outbox
          w
      → (w' : World) × (receive_rest J sha256 untar dest_dir start d w ≡ done tt w')
        × Saved
            (dest_path dest_dir start)
            (content ++ concat cs)
            rest
            (outbox
              ++ (checksum_message start.file_id (checksum_of sha256 (content ++ concat cs)) ∷ []))
            w'
  receive_rest_done cs n dest_dir start d content rest outbox w size named plain index hashed small
        apart deletable s =
      let total = content ++ concat cs in
      let sum = checksum_message start.file_id (checksum_of sha256 total) in
      let tail = complete_message start.file_id ∷ sum ∷ rest in
      let chunks = chunk_messages start.file_id n cs in
      let coming : w.inbox ≡ chunks ++ tail =
        s.coming ∙ append_assoc chunks (complete_message start.file_id ∷ sum ∷ []) rest in
      let fuel : suc (length w.inbox) ≡ length cs + suc (suc (suc (length rest))) = omega (
        arith,
        ap length coming,
        length-append chunks tail,
        length-chunk_messages start.file_id n cs,
      ) in
      let s0 : Stands d.tmp content (chunks ++ tail) outbox w = record {
        quiet = s.quiet;
        holds = s.holds;
        coming = coming;
        answered = s.answered;
      } in
      let (w1, looped, s1) =
        receive_loop_chunks J sha256 untar cs (suc (suc (suc (length rest)))) n dest_dir start d
          content tail outbox w index small apart s0 in
      let d1 = advance_all d n cs in
      let hashed1 : d1.hashed ≡ total =
        advance_all-hashed d n cs ∙ ap (λ b. b ++ concat cs) hashed in
      let w2 : World = record w1 { inbox = sum ∷ rest } in
      let s2 : Stands d1.tmp total
          (checksum_message start.file_id (checksum_of sha256 d1.hashed) ∷ rest) outbox w2 =
        record {
          quiet = s1.quiet;
          holds = ap (λ t. lookup t w1.files) (advance_all-tmp d n cs) ∙ s1.holds;
          coming =
              ap (λ b. checksum_message start.file_id (checksum_of sha256 b) ∷ rest) (sym hashed1);
          answered = s1.answered;
        } in
      let (w3, completed, saved) =
        on_complete_done sha256 untar dest_dir start d1 total rest outbox w2 size named plain
          (advance_all-Deletable dest_dir start.file_id d n cs deletable) s2 in
      (
        w3,
        ap (λ f. receive_loop J sha256 untar f dest_dir start d w) fuel
            ∙ looped
            ∙ receive_loop_complete J sha256 untar (suc (suc (length rest))) dest_dir start
                (complete_message start.file_id) d1 (sum ∷ rest) w1 refl s1.coming s1.quiet
            ∙ completed,
        subst
            (λ b.
              Saved (dest_path dest_dir start) total rest
                (outbox ++ (checksum_message start.file_id (checksum_of sha256 b) ∷ [])) w3)
            hashed1 saved,
      )

  -- From the acknowledgement on, a download whose chunks come in order and whose checksum is right
  -- is saved, its temporary file is removed, and the sender is told.
  pub receive_body_done :
      (cs : List Bytes) (n : ℕ) (dest_dir : Text) (start : Message) (d : Download) (content : Bytes)
      (rest outbox : List Message) (w : World)
      → ((b : Bytes) → length (sha256 b) ≡ 32)
      → start.file_id ≢ []
      → is_archive start ≡ false
      → d.next_index ≡ pos n
      → d.hashed ≡ content
      → n + length cs < 2 ^ 48
      → d.tmp ≢ dest_path dest_dir start
      → Apart dest_dir d.tmp d.state
      → Deletable dest_dir d.tmp start.file_id d.state
      → Stands d.tmp content
          (file_messages start.file_id n cs (checksum_of sha256 (content ++ concat cs)) ++ rest)
          outbox
          w
      → (w' : World) × (finally
            (discard d.tmp)
            (acknowledge start d >> receive_rest J sha256 untar dest_dir start d)
            w
          ≡ done tt w')
        × Received d.tmp
            (dest_path dest_dir start)
            (content ++ concat cs)
            rest
            (outbox
              ++ (answers start n
                  ++ (checksum_message start.file_id (checksum_of sha256 (content ++ concat cs))
                      ∷ [])))
            w'
  receive_body_done cs n dest_dir start d content rest outbox w size named plain index hashed small
        other apart deletable s =
      let sum = checksum_message start.file_id (checksum_of sha256 (content ++ concat cs)) in
      let w1 : World = record w { outbox = w.outbox ++ answers start n } in
      let s1 : Stands d.tmp content
          (file_messages start.file_id n cs (checksum_of sha256 (content ++ concat cs)) ++ rest)
          (outbox ++ answers start n) w1 =
        record {
          quiet = s.quiet;
          holds = s.holds;
          coming = s.coming;
          answered = ap (λ o. o ++ answers start n) s.answered;
        } in
      let (w2, received, saved) =
        receive_rest_done cs n dest_dir start d content rest (outbox ++ answers start n) w1 size
          named plain index hashed (omega arith) apart deletable s1 in
      (
        record w2 { files = erase d.tmp w2.files },
        finally-done (discard d.tmp)
              (acknowledge start d >> receive_rest J sha256 untar dest_dir start d) w
              (>>=-done (acknowledge start d) _ w
                  (acknowledge_done start d n w named index (omega arith) s.quiet)
                ∙ received)
            ∙ ap (λ o. done tt (after o)) (remove_file_done d.tmp w2 saved.quiet),
        record {
          quiet = saved.quiet;
          saved = lookup-erase_ne d.tmp (dest_path dest_dir start) w2.files other ∙ saved.saved;
          removed = lookup-erase_self d.tmp w2.files;
          coming = saved.coming;
          answered = saved.answered ∙ append_assoc outbox (answers start n) (sum ∷ []);
        },
      )
