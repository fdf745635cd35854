-- ===== src/Transfer/Receive/Accepted.antt =====
-- internal/transfer/p2p.go: what a receiver must have been sent if its loop ended well.
use goxfer.Base.{
  ℕ, suc, zero, ◌≡◌, refl, sym, ap, subst, ◌∙◌, Bool, true, false, ◌++◌, ◌∷◌, [], List, Option,
  none, some, Bytes, Text, text_eq, text_eq_iff, ℤ, eq_ℤ, eq_ℤ_iff, inc64, if◌then◌else◌, arith,
  Outcome, done, throw, guard, after, ◌>>=◌, >>=-done, >>=-eq-done, guard-eq-done, Bool-cases, inl,
  inr,
}
use goxfer.Base.Dict.{lookup, insert}
use goxfer.Json.{JsonText}
use goxfer.Protocol.Message.{Message, type_file_chunk, type_file_complete, type_file_checksum}
use goxfer.Transfer.World.{
  World, Transfer, TransferError, syscall, put_file, next_fault, receive, receive_failed,
  checksum_mismatch, unexpected_file_id, out_of_order, chunk_write_failed, expected_checksum,
  unexpected_type, save_failed,
}
use goxfer.Transfer.Frame.{Preserves, Preserves-bind, Preserves-ignore}
use goxfer.Transfer.Extract.{TarItem}
use goxfer.Transfer.Resume.{
  ResumeState, save_resume_state, write_file, resume_state_path, encode_state,
}
use goxfer.Transfer.Send.{checksum_of}
use goxfer.Transfer.Calm.{receive-eq-done}
use goxfer.Transfer.Receive.{
  Download, append_file, with_next, save_if, on_chunk, on_complete, receive_loop,
}

-- The messages that make a whole download: chunks of this file with the indices that are due,
-- the complete message, and the checksum of all the bytes. `rest` comes after them.
pub data Accepted (sha256 : Bytes → Bytes) (file_id : Text) (rest : List Message)
    : ℤ → Bytes → List Message → Type 0 where
  chunk :
      (msg : Message) (next : ℤ) (hashed : Bytes) (ms : List Message)
      → msg.kind ≡ type_file_chunk
      → msg.file_id ≡ file_id
      → msg.index ≡ next
      → Accepted sha256 file_id rest (inc64 next) (hashed ++ msg.chunk) ms
      → Accepted sha256 file_id rest next hashed (msg ∷ ms)
  complete :
      (msg sum : Message) (next : ℤ) (hashed : Bytes)
      → msg.kind ≡ type_file_complete
      → msg.file_id ≡ file_id
      → sum.kind ≡ type_file_checksum
      → sum.checksum ≡ checksum_of sha256 hashed
      → Accepted sha256 file_id rest next hashed (msg ∷ sum ∷ rest)

abbrev InboxIs : List Message → World → Type 0
InboxIs ms w = w.inbox ≡ ms

syscall-InboxIs : (ms : List Message) (e : TransferError) → Preserves (InboxIs ms) (syscall e)
unfolding syscall
syscall-InboxIs ms e = record { kept = λ w q. go w w.faults q }
  where
    go : (w : World) (fs : List Bool) → InboxIs ms w → InboxIs ms (after (next_fault e w fs))
    go w [] q = q
    go w (false ∷ fs) q = q
    go w (true ∷ fs) q = q

append_file-InboxIs :
    (ms : List Message) (path : Text) (bytes : Bytes)
    → Preserves (InboxIs ms) (append_file path bytes)
unfolding append_file
append_file-InboxIs ms path bytes =
    Preserves-bind (InboxIs ms) (syscall chunk_write_failed) _
      (syscall-InboxIs ms chunk_write_failed)
      λ _. record { kept = λ w q. go w (lookup path w.files) q }
  where
    go :
        (w : World) (o : Option Bytes)
        → InboxIs ms w
        → InboxIs ms (
            after (elim o as (λ _. Outcome World TransferError (Unit {0})) [
              | none ↦ done tt w
              | some content ↦ done tt (record w { files = insert path (content ++ bytes) w.files })
            ]))
    go w none q = q
    go w (some content) q = q

module _ (J : JsonText) where
  save_if-InboxIs :
      (ms : List Message) (dest_dir : Text) (s : Option ResumeState)
      → Preserves (InboxIs ms) (save_if J dest_dir s)
  unfolding save_resume_state write_file
  save_if-InboxIs ms dest_dir none = record { kept = λ w q. q }
  save_if-InboxIs ms dest_dir (some s) =
      let path = resume_state_path dest_dir s.file_id in
      Preserves-ignore (InboxIs ms) (write_file path (encode_state J s)) (
        Preserves-bind (InboxIs ms) (syscall save_failed) _ (syscall-InboxIs ms save_failed) λ _.
          Preserves-bind (InboxIs ms) (put_file path []) _ (record { kept = λ w q. q })
            λ _.
              Preserves-bind (InboxIs ms) (syscall save_failed)
                (λ _. put_file path (encode_state J s)) (syscall-InboxIs ms save_failed)
                λ _. record { kept = λ w q. q })

  Inbox-eq-done :
      {A : Type 0} (m : Transfer A) (w : World) {a : A} {t : World}
      → Preserves (InboxIs w.inbox) m
      → m w ≡ done a t
      → t.inbox ≡ w.inbox
  Inbox-eq-done {A} m w p e =
      subst (λ (o : Outcome World TransferError A). InboxIs w.inbox (after o)) e (p.kept w refl)

  -- A chunk that was taken had the file's id and the index that was due.
  on_chunk-eq-done :
      (dest_dir : Text) (start : Message) (d : Download) (msg : Message) (w : World) {d' : Download}
      {w' : World}
      → on_chunk J dest_dir start d msg w ≡ done d' w'
      → (msg.file_id ≡ start.file_id)
        × (msg.index ≡ d.next_index)
        × (d'.next_index ≡ inc64 d.next_index)
        × (d'.hashed ≡ d.hashed ++ msg.chunk)
        × (w'.inbox ≡ w.inbox)
  unfolding on_chunk
  on_chunk-eq-done dest_dir start d msg w h =
      let (x1, w1, e1, h1) =
        >>=-eq-done (guard (text_eq msg.file_id start.file_id) unexpected_file_id) _ w h in
      let (named, same1) = guard-eq-done _ unexpected_file_id w e1 in
      let (x2, w2, e2, h2) =
        >>=-eq-done (guard (eq_ℤ msg.index d.next_index) out_of_order) _ w1 h1 in
      let (due, same2) = guard-eq-done _ out_of_order w1 e2 in
      let (x3, w3, e3, h3) = >>=-eq-done (append_file d.tmp msg.chunk) _ w2 h2 in
      let state' = with_next d.state (inc64 d.next_index) in
      let (x4, w4, e4, h4) = >>=-eq-done (save_if J dest_dir state') _ w3 h3 in
      let kept3 =
        Inbox-eq-done (append_file d.tmp msg.chunk) w2
          (append_file-InboxIs w2.inbox d.tmp msg.chunk) e3 in
      let kept4 =
        Inbox-eq-done (save_if J dest_dir state') w3 (save_if-InboxIs w3.inbox dest_dir state')
          e4 in
      ((text_eq_iff _ _).0 named, (eq_ℤ_iff _ _).0 due, cc h4, cc h4, ground (arith))

module _ (sha256 : Bytes → Bytes) (untar : Bytes → Option (List TarItem)) where
  -- A download that was completed well got its own checksum.
  on_complete-eq-done :
      (dest_dir : Text) (start : Message) (d : Download) (msg : Message) (w : World) {x : Unit {0}}
      {w' : World}
      → on_complete sha256 untar dest_dir start d msg w ≡ done x w'
      → (msg.file_id ≡ start.file_id)
        × ((sum : Message) × (rest : List Message) × (w.inbox ≡ sum ∷ rest)
            × (sum.kind ≡ type_file_checksum)
            × (sum.checksum ≡ checksum_of sha256 d.hashed))
  unfolding on_complete
  on_complete-eq-done dest_dir start d msg w h =
      let (x1, w1, e1, h1) =
        >>=-eq-done (guard (text_eq msg.file_id start.file_id) unexpected_file_id) _ w h in
      let (named, same1) = guard-eq-done _ unexpected_file_id w e1 in
      let (sum, w2, e2, h2) = >>=-eq-done (receive receive_failed) _ w1 h1 in
      let taken = receive-eq-done receive_failed w1 e2 in
      let (x3, w3, e3, h3) =
        >>=-eq-done (guard (text_eq sum.kind type_file_checksum) expected_checksum) _ w2 h2 in
      let (kind, same3) = guard-eq-done _ expected_checksum w2 e3 in
      let (x4, w4, e4, h4) =
        >>=-eq-done (guard (text_eq (checksum_of sha256 d.hashed) sum.checksum) checksum_mismatch) _
          w3 h3 in
      let (right, same4) = guard-eq-done _ checksum_mismatch w3 e4 in
      (
        (text_eq_iff _ _).0 named,
        (
          sum,
          w2.inbox,
          ap (λ (v : World). v.inbox) same1 ∙ taken,
          (text_eq_iff _ _).0 kind,
          sym ((text_eq_iff _ _).0 right),
        ),
      )

module _ (J : JsonText) (sha256 : Bytes → Bytes) (untar : Bytes → Option (List TarItem)) where
  receive_loop_chunk_eq :
      (fuel : ℕ) (dest_dir : Text) (start msg : Message) (d : Download) (w w1 : World)
      → text_eq msg.kind type_file_chunk ≡ true
      → receive receive_failed w ≡ done msg w1
      → receive_loop J sha256 untar (suc fuel) dest_dir start d w
        ≡ (on_chunk J dest_dir start d msg >>= receive_loop J sha256 untar fuel dest_dir start) w1
  unfolding receive_loop
  receive_loop_chunk_eq fuel dest_dir start msg d w w1 test e =
      >>=-done (receive receive_failed) _ w e ∙ rw test refl

  receive_loop_other_eq :
      (fuel : ℕ) (dest_dir : Text) (start msg : Message) (d : Download) (w w1 : World)
      → text_eq msg.kind type_file_chunk ≡ false
      → receive receive_failed w ≡ done msg w1
      → receive_loop J sha256 untar (suc fuel) dest_dir start d w
        ≡ (if text_eq msg.kind type_file_complete
              then on_complete sha256 untar dest_dir start d msg
              else throw unexpected_type)
            w1
  unfolding receive_loop
  receive_loop_other_eq fuel dest_dir start msg d w w1 test e =
      >>=-done (receive receive_failed) _ w e ∙ rw test refl

  complete-Accepted :
      (dest_dir : Text) (start : Message) (d : Download) (msg : Message) (w : World) {x : Unit {0}}
      {w' : World}
      → (if text_eq msg.kind type_file_complete
            then on_complete sha256 untar dest_dir start d msg
            else throw unexpected_type)
          w
        ≡ done x w'
      → (rest : List Message) × Accepted sha256 start.file_id rest d.next_index d.hashed
          (msg ∷ w.inbox)
  complete-Accepted dest_dir start d msg w {x} {w'} h =
      go (text_eq msg.kind type_file_complete) refl h
    where
      go :
          (b : Bool)
          → text_eq msg.kind type_file_complete ≡ b
          → (if b then on_complete sha256 untar dest_dir start d msg else throw unexpected_type) w
            ≡ done x w'
          → (rest : List Message) × Accepted sha256 start.file_id rest d.next_index d.hashed
              (msg ∷ w.inbox)
      go false e h = cc
      go true e h =
          let (named, (sum, rest, coming, kind, right)) =
            on_complete-eq-done sha256 untar dest_dir start d msg w h in
          (
            rest,
            subst (λ ms. Accepted sha256 start.file_id rest d.next_index d.hashed (msg ∷ ms))
                (sym coming)
                (complete msg sum d.next_index d.hashed ((text_eq_iff _ _).0 e) named kind right),
          )

  -- Whenever the receiver's loop ends without an error, what it was sent begins with chunks of
  -- the file, each with the index that was due, the complete message for the file, and a checksum
  -- message with the checksum of all the bytes, those hashed before and those of the chunks;
  -- whatever else fails or comes.
  pub receive_loop-Accepted :
      (fuel : ℕ) (dest_dir : Text) (start : Message) (d : Download) (w w' : World)
      → receive_loop J sha256 untar fuel dest_dir start d w ≡ done tt w'
      → (rest : List Message) × Accepted sha256 start.file_id rest d.next_index d.hashed w.inbox
  unfolding receive_loop
  receive_loop-Accepted zero dest_dir start d w w' h = cc
  receive_loop-Accepted (suc fuel) dest_dir start d w w' h =
      let (msg, w1, e1, h1) = >>=-eq-done (receive receive_failed) _ w h in
      let taken = receive-eq-done receive_failed w e1 in
      elim (Bool-cases (text_eq msg.kind type_file_chunk)) [
        | inl test ↦
            let h2 = sym (receive_loop_chunk_eq fuel dest_dir start msg d w w1 test e1) ∙ h in
            let (d', w2, e2, h3) =
              >>=-eq-done (on_chunk J dest_dir start d msg)
                (receive_loop J sha256 untar fuel dest_dir start) w1 h2 in
            let (named, due, index, hashed, same) = on_chunk-eq-done J dest_dir start d msg w1 e2 in
            let (rest, more) = receive_loop-Accepted fuel dest_dir start d' w2 w' h3 in
            (
              rest,
              subst (Accepted sha256 start.file_id rest d.next_index d.hashed) (sym taken) (
                  chunk msg d.next_index d.hashed w1.inbox ((text_eq_iff _ _).0 test) named due (
                    subst
                      (Accepted sha256 start.file_id rest (inc64 d.next_index)
                        (d.hashed ++ msg.chunk))
                      same
                      (subst
                        (λ z. Accepted sha256 start.file_id rest z (d.hashed ++ msg.chunk) w2.inbox)
                        index
                        (subst (λ b. Accepted sha256 start.file_id rest d'.next_index b w2.inbox)
                          hashed more)))),
            )
        | inr test ↦
            let (rest, accepted) =
              complete-Accepted dest_dir start d msg w1
                (sym (receive_loop_other_eq fuel dest_dir start msg d w w1 test e1) ∙ h) in
            (
              rest,
              subst (Accepted sha256 start.file_id rest d.next_index d.hashed) (sym taken) accepted,
            )
      ]
