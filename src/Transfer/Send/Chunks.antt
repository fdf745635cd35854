-- ===== src/Transfer/Send/Chunks.antt =====
-- internal/transfer/p2p.go: sendChunks over a file.
use goxfer.Base.{
  ℕ, suc, zero, ◌+◌, ◌-◌, ◌^◌, ◌<◌, ◌≤◌, ◌≡◌, ◌≢◌, refl, sym, ap, ◌∙◌, ◌++◌, ◌∷◌, [], append-nil,
  append_assoc, List, Bytes, Text, length, length-drop, take, drop, take-append-drop, ℤ, pos, inc64,
  inc64_lem, arith, done, >>=-done, text_eq,
}
use goxfer.Protocol.Message.{Message, file_chunk_size, delivered}
use goxfer.Protocol.Message.Validation.{chunk}
use goxfer.Transfer.World.{World, send}
use goxfer.Transfer.Frame.{NoFaults}
use goxfer.Transfer.Send.{chunk_message, send_chunk, send_chunks, file_reads}
use goxfer.Transfer.Steps.{send_done}

-- The chunks of a file as they are sent, from index `n` on.
abbrev pub chunk_messages : Text → ℕ → List Bytes → List Message
chunk_messages file_id n [] = []
chunk_messages file_id n (c ∷ cs) =
    chunk_message file_id (pos n) c ∷ chunk_messages file_id (n + 1) cs

abbrev pub concat : List Bytes → Bytes
concat [] = []
concat (c ∷ cs) = c ++ concat cs

-- The pieces in which file_reads reads a file.
abbrev pub pieces : ℕ → Bytes → List Bytes
pieces zero content = []
pieces (suc fuel) [] = []
pieces (suc fuel) (b ∷ bs) =
    take file_chunk_size (b ∷ bs) ∷ pieces fuel (drop file_chunk_size (b ∷ bs))

-- As many units of fuel as there are bytes are enough to read all of them.
pub concat-pieces :
    (fuel : ℕ) (content : Bytes) → length content ≤ fuel → concat (pieces fuel content) ≡ content
concat-pieces zero [] h = refl
concat-pieces zero (b ∷ bs) h = elim h [ ]
concat-pieces (suc fuel) [] h = refl
concat-pieces (suc fuel) (b ∷ bs) h =
    ap (λ c. take file_chunk_size (b ∷ bs) ++ c)
      (concat-pieces fuel (drop file_chunk_size (b ∷ bs))
        (omega (arith, length-drop file_chunk_size (b ∷ bs))))
    ∙ take-append-drop file_chunk_size (b ∷ bs)

pub length-pieces : (fuel : ℕ) (content : Bytes) → length (pieces fuel content) ≤ fuel
length-pieces zero content = omega arith
length-pieces (suc fuel) [] = omega arith
length-pieces (suc fuel) (b ∷ bs) =
    omega (arith, length-pieces fuel (drop file_chunk_size (b ∷ bs)))

delivered-chunk_message :
    (id : Text) (z : ℤ) (b : Bytes) → delivered (chunk_message id z b) ≡ chunk_message id z b
unfolding delivered text_eq
delivered-chunk_message id z b = refl

send_chunk_done :
    (id : Text) (n b : ℕ) (bs : Bytes) (w : World)
    → id ≢ []
    → n + 1 < 2 ^ 63
    → NoFaults w
    → send_chunk id (pos n) (b ∷ bs) w
      ≡ done
          (pos (n + 1))
          (record w { outbox = w.outbox ++ (chunk_message id (pos n) (b ∷ bs) ∷ []) })
send_chunk_done id n b bs w named small q =
    >>=-done (send (chunk_message id (pos n) (b ∷ bs))) _ w
      (send_done _ w (chunk refl named refl) q)
    ∙ ap (λ m. done (inc64 (pos n)) (record w { outbox = w.outbox ++ (m ∷ []) }))
        (delivered-chunk_message id (pos n) (b ∷ bs))
    ∙ ap (λ z. done z (record w { outbox = w.outbox ++ (chunk_message id (pos n) (b ∷ bs) ∷ []) }))
        (inc64_lem n small)

-- Where calls succeed, the id is not empty and the indices stay below 2^63, a file is sent as its
-- pieces in their order, with indices that count up from the given one.
pub send_chunks-file_reads :
    (fuel : ℕ) (id : Text) (content : Bytes) (n : ℕ) (w : World)
    → id ≢ []
    → n + fuel < 2 ^ 63
    → NoFaults w
    → send_chunks id (file_reads fuel content) (pos n) w
      ≡ done tt (record w { outbox = w.outbox ++ chunk_messages id n (pieces fuel content) })
unfolding send_chunks file_reads
send_chunks-file_reads zero id content n w named small q =
    ap (λ o. done tt (record w { outbox = o })) (sym (append-nil w.outbox))
send_chunks-file_reads (suc fuel) id [] n w named small q =
    ap (λ o. done tt (record w { outbox = o })) (sym (append-nil w.outbox))
send_chunks-file_reads (suc fuel) id (b ∷ bs) n w named small q =
    let piece = take file_chunk_size (b ∷ bs) in
    let rest = drop file_chunk_size (b ∷ bs) in
    let w1 : World = record w { outbox = w.outbox ++ (chunk_message id (pos n) piece ∷ []) } in
    >>=-done (send_chunk id (pos n) piece) _ w
      (send_chunk_done id n b (take (file_chunk_size - 1) bs) w named (omega arith) q)
    ∙ send_chunks-file_reads fuel id rest (n + 1) w1 named (omega arith) q
    ∙ ap (λ o. done tt (record w { outbox = o }))
        (append_assoc w.outbox (chunk_message id (pos n) piece ∷ [])
          (chunk_messages id (n + 1) (pieces fuel rest)))
