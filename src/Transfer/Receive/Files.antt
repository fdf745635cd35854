-- ===== src/Transfer/Receive/Files.antt =====
-- internal/transfer/p2p.go: receiveFiles, and P2PReceive once its session stands.
use goxfer.Base.{
  ℕ, suc, ◌^◌, ◌<◌, ◌≡◌, ◌≢◌, sym, ap, ◌∙◌, Bool, true, false, ◌++◌, ◌∷◌, [], append-nil, List,
  Option, none, some, Bytes, Text, length, done, guard, >>=-done, text_eq, text_eq_self,
}
use goxfer.Base.Dict.{lookup}
use goxfer.Json.{JsonText}
use goxfer.Protocol.Message.{Message, type_file_start}
use goxfer.Transfer.World.{
  World, syscall, receive, receive_failed, mkdir_all, make_dir_failed, expected_file_start, unused,
}
use goxfer.Transfer.Frame.{NoFaults, syscall-done}
use goxfer.Transfer.Extract.{TarItem}
use goxfer.Transfer.Resume.{try, try-done, try-fail, resume_state_path}
use goxfer.Transfer.Send.{checksum_message, checksum_of}
use goxfer.Transfer.Send.Chunks.{concat}
use goxfer.Transfer.Steps.{receive_done, receive_at_end}
use goxfer.Transfer.Receive.{
  receive_one_file, receive_files, receive_into, is_archive, dest_path, resumable,
}
use goxfer.Transfer.Receive.Acknowledge.{answers}
use goxfer.Transfer.Receive.Body.{file_messages, Received}
use goxfer.Transfer.Receive.OneFile.{receive_one_file_fresh}

module _ (J : JsonText) (sha256 : Bytes → Bytes) (untar : Bytes → Option (List TarItem)) where
  -- When the messages have come to their end, the loop ends without an error.
  receive_files_at_end :
      (fuel : ℕ) (dest_dir : Text) (resume : Bool) (w : World)
      → w.inbox ≡ []
      → NoFaults w
      → receive_files J sha256 untar (suc fuel) dest_dir resume w ≡ done tt w
  unfolding receive_files
  receive_files_at_end fuel dest_dir resume w coming q =
      >>=-done (try (receive receive_failed)) _ w
        (try-fail (receive receive_failed) w (receive_at_end receive_failed w coming q))

  receive_files_step :
      (fuel : ℕ) (dest_dir : Text) (resume : Bool) (start : Message) (ms : List Message)
      (w w' : World)
      → start.kind ≡ type_file_start
      → w.inbox ≡ start ∷ ms
      → NoFaults w
      → receive_one_file J sha256 untar dest_dir start resume (record w { inbox = ms }) ≡ done tt w'
      → receive_files J sha256 untar (suc fuel) dest_dir resume w
        ≡ receive_files J sha256 untar fuel dest_dir resume w'
  unfolding receive_files
  receive_files_step fuel dest_dir resume start ms w w' kind coming q received =
      let w1 : World = record w { inbox = ms } in
      >>=-done (try (receive receive_failed)) _ w
        (try-done (receive receive_failed) w (receive_done receive_failed start ms w coming q))
      ∙ >>=-done (guard (text_eq start.kind type_file_start) expected_file_start) _ w1 (
          ap (λ k. guard (text_eq k type_file_start) expected_file_start w1) kind
          ∙ ap (λ b. guard b expected_file_start w1) (text_eq_self type_file_start))
      ∙ >>=-done (receive_one_file J sha256 untar dest_dir start resume) _ w1 received

  -- A receiver without a stored state that gets one file as a whole, and then the end of the
  -- connection, succeeds; the file is saved and every message of the sender is answered.
  pub receive_into_done :
      (cs : List Bytes) (dest_dir : Text) (start : Message) (resume : Bool) (tmp : Text) (w : World)
      → ((b : Bytes) → length (sha256 b) ≡ 32)
      → start.kind ≡ type_file_start
      → start.file_id ≢ []
      → is_archive start ≡ false
      → length cs < 2 ^ 48
      → unused w.files w.temps ≡ some tmp
      → tmp ≢ dest_path dest_dir start
      → resume_state_path dest_dir start.file_id ≢ tmp
      → (resumable resume start ≡ true
          → lookup (resume_state_path dest_dir start.file_id) w.files ≡ none)
      → NoFaults w
      → w.inbox ≡ start ∷ file_messages start.file_id 0 cs (checksum_of sha256 (concat cs))
      → (w' : World) × (receive_into J sha256 untar dest_dir resume w ≡ done tt w')
        × Received tmp
            (dest_path dest_dir start)
            (concat cs)
            []
            (w.outbox
              ++ (answers start 0
                  ++ (checksum_message start.file_id (checksum_of sha256 (concat cs)) ∷ [])))
            w'
  unfolding receive_into mkdir_all
  receive_into_done cs dest_dir start resume tmp w size kind named plain small u other apart missing
        q coming =
      let ms = file_messages start.file_id 0 cs (checksum_of sha256 (concat cs)) in
      let w1 : World = record w { dirs = dest_dir ∷ w.dirs } in
      let w2 : World = record w1 { inbox = ms } in
      let (w3, received, r) =
        receive_one_file_fresh J sha256 untar cs dest_dir start resume tmp [] w2 size named plain
          small u other apart missing q (sym (append-nil ms)) in
      (
        w3,
        >>=-done (mkdir_all dest_dir) _ w
              (>>=-done (syscall make_dir_failed) _ w (syscall-done make_dir_failed w q))
            ∙ receive_files_step (length w.inbox) dest_dir resume start ms w1 w3 kind coming q
                received
            ∙ ap (λ f. receive_files J sha256 untar f dest_dir resume w3) (ap length coming)
            ∙ receive_files_at_end (length ms) dest_dir resume w3 r.coming r.quiet,
        r,
      )
