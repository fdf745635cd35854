-- ===== src/Transfer/Receive/Loop.antt =====
-- internal/transfer/p2p.go: whole downloads, from the first chunk to the answer.
use goxfer.Base.{
  ℕ, suc, ◌+◌, ◌^◌, ◌<◌, ◌≡◌, refl, sym, ap, subst, ◌∙◌, true, false, ◌++◌, ◌∷◌, [], append-nil,
  append_assoc, List, Option, Bytes, Text, length, pos, arith, done, >>=-done, text_eq,
  text_eq_self,
}
use Prim.Native.Nat.add
use goxfer.Json.{JsonText}
use goxfer.Protocol.Message.{Message, type_file_chunk, type_file_complete}
use goxfer.Transfer.World.{World, receive, receive_failed}
use goxfer.Transfer.Frame.{NoFaults}
use goxfer.Transfer.Extract.{TarItem}
use goxfer.Transfer.Send.{chunk_message}
use goxfer.Transfer.Send.Chunks.{chunk_messages, concat}
use goxfer.Transfer.Steps.{receive_done}
use goxfer.Transfer.Receive.{Download, on_chunk, on_complete, receive_loop}
use goxfer.Transfer.Receive.Chunks.{Stands, Apart, advance, with_next-Apart, on_chunk_done}

-- The download after these chunks.
abbrev pub advance_all : Download → ℕ → List Bytes → Download
advance_all d n [] = d
advance_all d n (c ∷ cs) = advance_all (advance d n c) (n + 1) cs

pub advance_all-tmp : (d : Download) (n : ℕ) (cs : List Bytes) → (advance_all d n cs).tmp ≡ d.tmp
advance_all-tmp d n [] = refl
advance_all-tmp d n (c ∷ cs) = advance_all-tmp (advance d n c) (n + 1) cs

pub advance_all-hashed :
    (d : Download) (n : ℕ) (cs : List Bytes) → (advance_all d n cs).hashed ≡ d.hashed ++ concat cs
advance_all-hashed d n [] = sym (append-nil d.hashed)
advance_all-hashed d n (c ∷ cs) =
    advance_all-hashed (advance d n c) (n + 1) cs ∙ append_assoc d.hashed c (concat cs)

module _ (J : JsonText) (sha256 : Bytes → Bytes) (untar : Bytes → Option (List TarItem)) where
  receive_loop_chunk :
      (fuel : ℕ) (dest_dir : Text) (start msg : Message) (d d' : Download) (ms : List Message)
      (w w' : World)
      → msg.kind ≡ type_file_chunk
      → w.inbox ≡ msg ∷ ms
      → NoFaults w
      → on_chunk J dest_dir start d msg (record w { inbox = ms }) ≡ done d' w'
      → receive_loop J sha256 untar (suc fuel) dest_dir start d w
        ≡ receive_loop J sha256 untar fuel dest_dir start d' w'
  unfolding receive_loop
  receive_loop_chunk fuel dest_dir start msg d d' ms w w' kind i q e =
      let test : text_eq msg.kind type_file_chunk ≡ true =
        ap (λ k. text_eq k type_file_chunk) kind ∙ text_eq_self type_file_chunk in
      >>=-done (receive receive_failed) _ w (receive_done receive_failed msg ms w i q)
      ∙ rw test (
          >>=-done (on_chunk J dest_dir start d msg)
            (receive_loop J sha256 untar fuel dest_dir start) (record w { inbox = ms }) e)

  pub receive_loop_complete :
      (fuel : ℕ) (dest_dir : Text) (start msg : Message) (d : Download) (ms : List Message)
      (w : World)
      → msg.kind ≡ type_file_complete
      → w.inbox ≡ msg ∷ ms
      → NoFaults w
      → receive_loop J sha256 untar (suc fuel) dest_dir start d w
        ≡ on_complete sha256 untar dest_dir start d msg (record w { inbox = ms })
  unfolding receive_loop text_eq
  receive_loop_complete fuel dest_dir start msg d ms w kind i q =
      let chunk : text_eq msg.kind type_file_chunk ≡ false =
        ap (λ k. text_eq k type_file_chunk) kind in
      let complete : text_eq msg.kind type_file_complete ≡ true =
        ap (λ k. text_eq k type_file_complete) kind in
      >>=-done (receive receive_failed) _ w (receive_done receive_failed msg ms w i q)
      ∙ rw (chunk, complete)

  -- The loop takes every chunk that comes in order, and stands before what follows.
  pub receive_loop_chunks :
      (cs : List Bytes) (fuel n : ℕ) (dest_dir : Text) (start : Message) (d : Download)
      (content : Bytes) (rest outbox : List Message) (w : World)
      → d.next_index ≡ pos n
      → n + length cs < 2 ^ 63
      → Apart dest_dir d.tmp d.state
      → Stands d.tmp content (chunk_messages start.file_id n cs ++ rest) outbox w
      → (w' : World) × (receive_loop J sha256 untar (length cs + fuel) dest_dir start d w
          ≡ receive_loop J sha256 untar fuel dest_dir start (advance_all d n cs) w')
        × Stands d.tmp (content ++ concat cs) rest outbox w'
  receive_loop_chunks [] fuel n dest_dir start d content rest outbox w index small apart s = (
    w,
    ap (λ f. receive_loop J sha256 untar f dest_dir start d w) (add.zero fuel),
    subst (λ c. Stands d.tmp c rest outbox w) (sym (append-nil content)) s,
  )
  receive_loop_chunks (c ∷ cs) fuel n dest_dir start d content rest outbox w index small apart s =
      let ms = chunk_messages start.file_id (n + 1) cs ++ rest in
      let s1 : Stands d.tmp content ms outbox (record w { inbox = ms }) = record {
        quiet = s.quiet;
        holds = s.holds;
        coming = refl;
        answered = s.answered;
      } in
      let (w1, step, s2) =
        on_chunk_done J dest_dir start d n content c ms outbox (record w { inbox = ms }) index
          (omega arith) apart s1 in
      let (w2, more, s3) =
        receive_loop_chunks cs fuel (n + 1) dest_dir start (advance d n c) (content ++ c) rest
          outbox w1 refl (omega arith) (with_next-Apart dest_dir d.tmp d.state (pos (n + 1)) apart)
          s2 in
      (
        w2,
        ap (λ f. receive_loop J sha256 untar f dest_dir start d w) (add.suc (length cs) fuel)
            ∙ receive_loop_chunk (length cs + fuel) dest_dir start
                (chunk_message start.file_id (pos n) c) d (advance d n c) ms w w1 refl s.coming
                s.quiet step
            ∙ more,
        subst (λ b. Stands d.tmp b rest outbox w2) (append_assoc content c (concat cs)) s3,
      )
