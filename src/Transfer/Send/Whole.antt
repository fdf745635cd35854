-- ===== src/Transfer/Send/Whole.antt =====
-- internal/transfer/p2p.go: sendSingleFile as a whole.
use goxfer.Base.{
  ℕ, suc, zero, ◌+◌, ◌*◌, ◌^◌, ◌<◌, ◌≡◌, ◌≢◌, refl, sym, ap, ◌∙◌, Bool, true, false, ◌&&◌, ◌++◌,
  ◌∷◌, [], append_assoc, List, some, Bytes, Text, length, length-drop, take, drop, ltb, lt→ltb, ℤ,
  pos, quotient, if◌then◌else◌, arith, done, guard, >>=-done, pure, text_eq, text_eq_self,
}
use goxfer.Base.Dict.{lookup}
use goxfer.Hex.{hex_encode}
use goxfer.Paths.{base}
use goxfer.Protocol.Message.{
  Message, file_chunk_size, delivered, type_file_checksum, below_minus_one,
}
use goxfer.Protocol.Message.Validation.{start, complete, checksum}
use goxfer.Transfer.World.{
  World, syscall, send, receive, receive_failed, read_file, checksum_failed, open_failed,
  seek_failed, checksum_mismatch, random_failed,
}
use goxfer.Transfer.Frame.{NoFaults, syscall-done}
use goxfer.Transfer.Resume.{deterministic_file_id, random_file_id}
use goxfer.Transfer.Send.{
  start_message, complete_message, checksum_message, checksum_of, start_offset, conclude,
  send_chunks, file_reads, send_single_file,
}
use goxfer.Transfer.Send.Chunks.{chunk_messages, pieces, send_chunks-file_reads}
use goxfer.Transfer.Steps.{send_done, receive_done, read_file_done}
use goxfer.Transfer.Receive.{resume_message, ready_message}
use goxfer.Transfer.Receive.Acknowledge.{answers}
use goxfer.Transfer.Receive.Body.{file_messages}
use goxfer.Transfer.Receive.Complete.{delivered-checksum_message}

delivered-complete_message : (id : Text) → delivered (complete_message id) ≡ complete_message id
unfolding delivered text_eq
delivered-complete_message id = refl

delivered-start_message :
    (id name : Text) (size : ℤ) (resume : Bool)
    → delivered (start_message id name size resume) ≡ start_message id name size resume
unfolding delivered text_eq
delivered-start_message id name size resume = refl

-- What a receiver that kept `n` chunks answers is read as the offset behind them.
start_offset_done :
    (resume : Bool) (id name : Text) (size : ℤ) (n : ℕ) (rest : List Message) (w : World)
    → (resume ≡ false → n ≡ 0)
    → w.inbox ≡ answers (start_message id name size resume) n ++ rest
    → NoFaults w
    → start_offset resume w ≡ done (pos (n * file_chunk_size)) (record w { inbox = rest })
unfolding start_offset text_eq
start_offset_done false id name size n rest w from coming q =
    ap (λ k. done (pos (k * file_chunk_size)) w) (sym (from refl))
    ∙ ap (λ i. done (pos (n * file_chunk_size)) (record w { inbox = i })) coming
start_offset_done true id name size zero rest w from coming q =
    >>=-done (receive receive_failed) _ w
      (receive_done receive_failed ready_message rest w coming q)
start_offset_done true id name size (suc n) rest w from coming q =
    >>=-done (receive receive_failed) _ w (
      receive_done receive_failed (resume_message id (pos (suc n * file_chunk_size))) rest w
        (coming
          ∙ ap
              (λ b.
                (if b
                  then resume_message id (pos (suc n * file_chunk_size)) ∷ []
                  else ready_message ∷ [])
                ++ rest)
              (lt→ltb 0 (suc n) (omega arith)))
        q)

seek_done :
    (late : Bool) (w : World)
    → NoFaults w
    → (if late then syscall seek_failed else pure tt) w ≡ done tt w
seek_done true w q = syscall-done seek_failed w q
seek_done false w q = refl

quotient_chunks : (n : ℕ) → quotient (pos (n * file_chunk_size)) file_chunk_size ≡ pos n
unfolding quotient
quotient_chunks n = ap pos (omega arith)

-- The end of a file is announced with its checksum, which the answer must repeat.
conclude_done :
    (id sum answer_id : Text) (rest : List Message) (w : World)
    → id ≢ []
    → sum ≢ []
    → w.inbox ≡ checksum_message answer_id sum ∷ rest
    → NoFaults w
    → conclude id sum w
      ≡ done tt (record w {
        inbox = rest;
        outbox = w.outbox ++ (complete_message id ∷ checksum_message id sum ∷ []);
      })
unfolding conclude
conclude_done id sum answer_id rest w named some_sum coming q =
    let w1 : World = record w { outbox = w.outbox ++ (complete_message id ∷ []) } in
    let w2 : World = record w {
      outbox = (w.outbox ++ (complete_message id ∷ [])) ++ (checksum_message id sum ∷ []);
    } in
    let w3 : World = record w2 { inbox = rest } in
    >>=-done (send (complete_message id)) _ w (
      send_done (complete_message id) w (complete refl named) q
      ∙ ap (λ m. done tt (record w { outbox = w.outbox ++ (m ∷ []) }))
          (delivered-complete_message id))
    ∙ >>=-done (send (checksum_message id sum)) _ w1 (
        send_done (checksum_message id sum) w1 (checksum refl named some_sum) q
        ∙ ap (λ m. done tt (record w1 { outbox = w1.outbox ++ (m ∷ []) }))
            (delivered-checksum_message id sum))
    ∙ >>=-done (receive receive_failed) _ w2
        (receive_done receive_failed (checksum_message answer_id sum) rest w2 coming q)
    ∙ ap (λ b. guard (b && text_eq sum sum) checksum_mismatch w3) (text_eq_self type_file_checksum)
    ∙ ap (λ b. guard b checksum_mismatch w3) (text_eq_self sum)
    ∙ ap (λ o. done tt (record w { inbox = rest; outbox = o }))
        (append_assoc w.outbox (complete_message id ∷ []) (checksum_message id sum ∷ []))

module _ (sha256 : Bytes → Bytes) where
  -- The name of a transfer, and the entropy that it leaves.
  abbrev pub file_id_of : Text → ℤ → Bool → World → Text
  file_id_of path size resume w =
      if resume then deterministic_file_id sha256 path size else hex_encode (take 12 w.entropy)

  abbrev pub entropy_after : Bool → World → Bytes
  entropy_after resume w = if resume then w.entropy else drop 12 w.entropy

  file_id_done :
      (path : Text) (size : ℤ) (resume : Bool) (w : World)
      → NoFaults w
      → (if resume then pure (deterministic_file_id sha256 path size) else random_file_id) w
        ≡ done (file_id_of path size resume w) (record w { entropy = entropy_after resume w })
  unfolding random_file_id
  file_id_done path size true w q = refl
  file_id_done path size false w q =
      >>=-done (syscall random_failed) _ w (syscall-done random_failed w q)

  -- What the sender puts out for a file of which the receiver has `n` chunks.
  abbrev pub sent_messages : Text → Text → ℤ → Bool → ℕ → Bytes → List Message
  sent_messages id path size resume n content =
      let rest = drop (n * file_chunk_size) content in
      start_message id (base path) size resume
      ∷ file_messages id n (pieces (length rest) rest) (checksum_of sha256 content)

  -- Where calls succeed and the file is there, a sender whose receiver answers the start with the
  -- n chunks it has (none without resuming) and the end with the checksum of the file succeeds,
  -- and has sent the start, the file behind its first n chunks in pieces with their indices, the
  -- complete message and the checksum of the whole file. The id, the base name and the checksum
  -- are not empty, the size is at least -1, and the indices stay below 2^63.
  pub send_single_file_done :
      (path : Text) (size : ℤ) (resume : Bool) (n : ℕ) (content : Bytes) (answer_id : Text)
      (rest : List Message) (w : World)
      → file_id_of path size resume w ≢ []
      → base path ≢ []
      → below_minus_one size ≡ false
      → checksum_of sha256 content ≢ []
      → (resume ≡ false → n ≡ 0)
      → n + length content < 2 ^ 63
      → lookup path w.files ≡ some content
      → w.inbox
        ≡ answers (start_message (file_id_of path size resume w) (base path) size resume) n
          ++ (checksum_message answer_id (checksum_of sha256 content) ∷ rest)
      → NoFaults w
      → send_single_file sha256 path size resume w
        ≡ done tt (record w {
          entropy = entropy_after resume w;
          inbox = rest;
          outbox =
              w.outbox ++ sent_messages (file_id_of path size resume w) path size resume n content;
        })
  unfolding send_single_file
  send_single_file_done path size resume n content answer_id rest w named based sized some_sum from
        small there coming q =
      let id = file_id_of path size resume w in
      let sum = checksum_of sha256 content in
      let opening = start_message id (base path) size resume in
      let cut = n * file_chunk_size in
      let tail = drop cut content in
      let ps = pieces (length tail) tail in
      let w1 : World = record w { entropy = entropy_after resume w } in
      let w2 : World = record w1 { outbox = w.outbox ++ (opening ∷ []) } in
      let w3 : World = record w2 { inbox = checksum_message answer_id sum ∷ rest } in
      let w4 : World = record w3 {
        outbox = (w.outbox ++ (opening ∷ [])) ++ chunk_messages id n ps;
      } in
      >>=-done (read_file checksum_failed path) _ w
        (read_file_done checksum_failed path content w there q)
      ∙ >>=-done (if resume then pure (deterministic_file_id sha256 path size) else random_file_id)
          _ w (file_id_done path size resume w q)
      ∙ >>=-done (send opening) _ w1 (
          send_done opening w1 (start refl named based sized) q
          ∙ ap (λ m. done tt (record w1 { outbox = w.outbox ++ (m ∷ []) }))
              (delivered-start_message id (base path) size resume))
      ∙ >>=-done (start_offset resume) _ w2 (
          start_offset_done resume id (base path) size n (checksum_message answer_id sum ∷ rest) w2
            from coming q)
      ∙ >>=-done (read_file open_failed path) _ w3
          (read_file_done open_failed path content w3 there q)
      ∙ >>=-done (if ltb 0 cut then syscall seek_failed else pure tt) _ w3
          (seek_done (ltb 0 cut) w3 q)
      ∙ >>=-done
          (send_chunks id (file_reads (length tail) tail) (quotient (pos cut) file_chunk_size)) _ w3
          (ap (λ z. send_chunks id (file_reads (length tail) tail) z w3) (quotient_chunks n)
            ∙ send_chunks-file_reads (length tail) id tail n w3 named
                (omega (arith, length-drop cut content)) q)
      ∙ conclude_done id sum answer_id rest w4 named some_sum refl q
      ∙ ap (λ o. done tt (record w1 { inbox = rest; outbox = o }))
          (append_assoc (w.outbox ++ (opening ∷ [])) (chunk_messages id n ps)
              (complete_message id ∷ checksum_message id sum ∷ [])
            ∙ append_assoc w.outbox (opening ∷ []) (file_messages id n ps sum))
