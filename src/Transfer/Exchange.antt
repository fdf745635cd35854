-- ===== src/Transfer/Exchange.antt =====
-- internal/transfer/p2p.go: a sender and a receiver that talk to each other.
use goxfer.Base.{
  ◌^◌, ◌<◌, ◌≡◌, ◌≢◌, refl, sym, ap, ◌∙◌, Bool, true, false, ◌++◌, ◌∷◌, [], List, Option, none,
  some, Bytes, Text, length, ℤ, arith, done,
}
use goxfer.Base.Dict.{lookup}
use goxfer.Hex.{length-hex_encode}
use goxfer.Json.{JsonText}
use goxfer.Paths.{base}
use goxfer.Protocol.Message.{Message, below_minus_one}
use goxfer.Transfer.World.{World, unused}
use goxfer.Transfer.Frame.{NoFaults}
use goxfer.Transfer.Extract.{TarItem}
use goxfer.Transfer.Resume.{resume_state_path}
use goxfer.Transfer.Send.{start_message, checksum_message, checksum_of, send_single_file}
use goxfer.Transfer.Send.Chunks.{concat, pieces, concat-pieces, length-pieces}
use goxfer.Transfer.Send.Whole.{file_id_of, sent_messages, send_single_file_done}
use goxfer.Transfer.Receive.{receive_into, is_archive, dest_path, resumable}
use goxfer.Transfer.Receive.Acknowledge.{answers}
use goxfer.Transfer.Receive.Body.{file_messages}
use goxfer.Transfer.Receive.Files.{receive_into_done}

module _ (J : JsonText) (sha256 : Bytes → Bytes) (untar : Bytes → Option (List TarItem)) where
  abbrev pub opening : Text → ℤ → Bool → World → Message
  opening path size resume w =
      start_message (file_id_of sha256 path size resume w) (base path) size resume

  -- What the receiver of a whole file sends back.
  abbrev pub replies : Message → Bytes → List Message
  replies start content =
      answers start 0 ++ (checksum_message start.file_id (checksum_of sha256 content) ∷ [])

  -- What a run of both sides comes to: each is done, each has sent what the other has taken in,
  -- and the receiver has the file.
  pub record Exchanged (path dest_dir : Text) (size : ℤ) (resume resume' : Bool) (content : Bytes)
      (ws wr ws' wr' : World) : Type 0 where
    pub messages : List Message
    pub acks : List Message
    pub sender : send_single_file sha256 path size resume (record ws { inbox = acks }) ≡ done tt ws'
    pub receiver :
        receive_into J sha256 untar dest_dir resume' (record wr { inbox = messages }) ≡ done tt wr'
    pub sender_sent : ws'.outbox ≡ ws.outbox ++ messages
    pub receiver_sent : wr'.outbox ≡ wr.outbox ++ acks
    pub saved : lookup (dest_path dest_dir (opening path size resume ws)) wr'.files ≡ some content

  -- Between a sender that has the file and a receiver without a stored state for it, whose calls
  -- succeed, there is a run in which each takes in what the other sends, both end without an
  -- error, and the destination holds the bytes of the sender's file. The name is not that of an
  -- archive, the id and the base name are not empty, the size is at least -1, the file is shorter
  -- than 2^48, checksums have 32 bytes, and the temporary name is unused and differs from the
  -- destination and the state file.
  pub send_single_file-receive_into :
      (path dest_dir tmp : Text) (size : ℤ) (resume resume' : Bool) (content : Bytes)
      (ws wr : World)
      → ((b : Bytes) → length (sha256 b) ≡ 32)
      → file_id_of sha256 path size resume ws ≢ []
      → base path ≢ []
      → below_minus_one size ≡ false
      → is_archive (opening path size resume ws) ≡ false
      → length content < 2 ^ 48
      → lookup path ws.files ≡ some content
      → unused wr.files wr.temps ≡ some tmp
      → tmp ≢ dest_path dest_dir (opening path size resume ws)
      → resume_state_path dest_dir (file_id_of sha256 path size resume ws) ≢ tmp
      → (resumable resume' (opening path size resume ws) ≡ true
          → lookup (resume_state_path dest_dir (file_id_of sha256 path size resume ws)) wr.files
            ≡ none)
      → NoFaults ws
      → NoFaults wr
      → (ws' wr' : World) × Exchanged path dest_dir size resume resume' content ws wr ws' wr'
  send_single_file-receive_into path dest_dir tmp size resume resume' content ws wr digest named
        based sized plain small there u other apart missing qs qr =
      let start = opening path size resume ws in
      let acks = replies start content in
      let cs = pieces (length content) content in
      let whole : concat cs ≡ content = concat-pieces (length content) content (omega arith) in
      let messages =
        sent_messages sha256 (file_id_of sha256 path size resume ws) path size resume 0 content in
      let some_sum : checksum_of sha256 content ≢ [] = λ e.
        absurd (omega (arith, ap length e, length-hex_encode (sha256 content), digest content)) in
      let (wr', received, r) =
        receive_into_done J sha256 untar cs dest_dir start resume' tmp
          (record wr { inbox = messages }) digest refl named plain
          (omega (arith, length-pieces (length content) content)) u other apart missing qr
          (ap (λ b. start ∷ file_messages start.file_id 0 cs (checksum_of sha256 b)) (sym whole)) in
      (
        _,
        wr',
        record {
          messages = messages;
          acks = acks;
          sender =
              send_single_file_done sha256 path size resume 0 content start.file_id []
                (record ws { inbox = acks }) named based sized some_sum (λ _. refl) (omega arith)
                there refl qs;
          receiver = received;
          sender_sent = refl;
          receiver_sent = r.answered ∙ ap (λ b. wr.outbox ++ replies start b) whole;
          saved = r.saved ∙ ap some whole;
        },
      )
