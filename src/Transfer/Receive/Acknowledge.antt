-- ===== src/Transfer/Receive/Acknowledge.antt =====
-- internal/transfer/p2p.go: how receiveOneFile answers a file_start.
use goxfer.Base.{
  ℕ, ◌*◌, ◌^◌, ◌<◌, ◌≡◌, ◌≢◌, refl, sym, ap, ◌∙◌, Bool, true, false, not, ◌++◌, ◌∷◌, [], append-nil,
  List, Text, ltb, ℤ, pos, is_positive, scale64, scale64_lem, if◌then◌else◌, done, pure, text_eq,
}
use goxfer.Protocol.Message.{Message, delivered, file_chunk_size}
use goxfer.Protocol.Message.Validation.{IsValid, resume, ready}
use goxfer.Transfer.World.{World, send}
use goxfer.Transfer.Frame.{NoFaults}
use goxfer.Transfer.Steps.{send_done}
use goxfer.Transfer.Receive.{Download, acknowledge, resume_message, ready_message}

-- The answer to a file_start that asks for resuming: from the `n`-th chunk on, or from the start.
abbrev pub answers : Message → ℕ → List Message
answers start n =
    if not start.resume
    then []
    else if ltb 0 n
    then resume_message start.file_id (pos (n * file_chunk_size)) ∷ []
    else ready_message ∷ []

delivered-resume_message :
    (file_id : Text) (z : ℤ) → delivered (resume_message file_id z) ≡ resume_message file_id z
unfolding delivered text_eq
delivered-resume_message file_id z = refl

delivered-ready_message : delivered ready_message ≡ ready_message
unfolding delivered text_eq
delivered-ready_message = refl

-- One of two valid messages, or none.
answer_done :
    (asked late : Bool) (l r : Message) (w : World)
    → IsValid l
    → IsValid r
    → delivered l ≡ l
    → delivered r ≡ r
    → NoFaults w
    → (if not asked then pure tt else if late then send l else send r) w
      ≡ done tt (record w {
        outbox = w.outbox ++ (if not asked then [] else if late then l ∷ [] else r ∷ []);
      })
answer_done false late l r w vl vr dl dr q =
    ap (λ o. done tt (record w { outbox = o })) (sym (append-nil w.outbox))
answer_done true true l r w vl vr dl dr q =
    send_done l w vl q ∙ ap (λ m. done tt (record w { outbox = w.outbox ++ (m ∷ []) })) dl
answer_done true false l r w vl vr dl dr q =
    send_done r w vr q ∙ ap (λ m. done tt (record w { outbox = w.outbox ++ (m ∷ []) })) dr

pub acknowledge_done :
    (start : Message) (d : Download) (n : ℕ) (w : World)
    → start.file_id ≢ []
    → d.next_index ≡ pos n
    → n * file_chunk_size < 2 ^ 63
    → NoFaults w
    → acknowledge start d w ≡ done tt (record w { outbox = w.outbox ++ answers start n })
unfolding acknowledge
acknowledge_done start d n w named index small q =
    ap
      (λ z.
        (if not start.resume
            then pure tt
            else if is_positive z
            then send (resume_message start.file_id (scale64 z file_chunk_size))
            else send ready_message)
          w)
      index
    ∙ ap
        (λ z.
          (if not start.resume
              then pure tt
              else if ltb 0 n
              then send (resume_message start.file_id z)
              else send ready_message)
            w)
        (scale64_lem n file_chunk_size small)
    ∙ answer_done start.resume (ltb 0 n) (resume_message start.file_id (pos (n * file_chunk_size)))
        ready_message w (resume refl named refl) (ready refl)
        (delivered-resume_message start.file_id (pos (n * file_chunk_size))) delivered-ready_message
        q
