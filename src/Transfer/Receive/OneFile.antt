-- ===== src/Transfer/Receive/OneFile.antt =====
-- internal/transfer/p2p.go: receiveOneFile as a whole.
use goxfer.Base.{
  ℕ, ◌+◌, ◌*◌, ◌^◌, ◌<◌, ◌≤◌, ◌≡◌, ◌≢◌, refl, sym, subst, ◌∙◌, Bool, true, false, ◌++◌, ◌∷◌, [],
  List, Option, none, some, Bytes, Text, length, take, pos, if◌then◌else◌, arith, done, >>=-done,
}
use goxfer.Base.Dict.{lookup}
use goxfer.Json.{JsonText}
use goxfer.Protocol.Message.{Message, file_chunk_size}
use goxfer.Transfer.World.{World, unused}
use goxfer.Transfer.Frame.{NoFaults}
use goxfer.Transfer.Extract.{TarItem}
use goxfer.Transfer.Resume.{ResumeState, resume_state_path, decode_state}
use goxfer.Transfer.Send.{checksum_message, checksum_of}
use goxfer.Transfer.Receive.{
  open_download, receive_one_file, is_archive, dest_path, resumable, first_state,
}
use goxfer.Transfer.Receive.Chunks.{Stands, Apart}
use goxfer.Transfer.Receive.Complete.{Deletable}
use goxfer.Transfer.Send.Chunks.{concat}
use goxfer.Transfer.Receive.Acknowledge.{answers}
use goxfer.Transfer.Receive.Body.{file_messages, Received, receive_body_done}
use goxfer.Transfer.Receive.Open.{
  fresh_state, fresh_download, open_download_fresh, open_download_resumed,
}

pub fresh_state-Apart :
    (dest_dir : Text) (start : Message) (resume : Bool) (tmp : Text)
    → resume_state_path dest_dir start.file_id ≢ tmp
    → Apart dest_dir tmp (fresh_state resume start tmp)
      × Deletable dest_dir tmp start.file_id (fresh_state resume start tmp)
fresh_state-Apart dest_dir start resume tmp h = go (resumable resume start)
  where
    go :
        (b : Bool)
        → Apart dest_dir tmp (if b then some (first_state start tmp) else none)
          × Deletable dest_dir tmp start.file_id (if b then some (first_state start tmp) else none)
    go true = (h, h)
    go false = (tt, tt)

plain_of_resumable :
    (resume : Bool) (start : Message) → resumable resume start ≡ true → is_archive start ≡ false
plain_of_resumable resume start h = ground arith

module _ (J : JsonText) (sha256 : Bytes → Bytes) (untar : Bytes → Option (List TarItem)) where
  -- Where calls succeed and no state is stored for the transfer, a file that is no archive, and
  -- that comes as chunks with indices from 0 on, the complete message and the checksum of the
  -- chunks, is received: its content is at the destination, the temporary file is gone, and the
  -- start and the checksum have been answered, in this order. The temporary name is unused and
  -- differs from the destination and the state file, the id is not empty, checksums have 32
  -- bytes, and there are fewer than 2^48 chunks.
  pub receive_one_file_fresh :
      (cs : List Bytes) (dest_dir : Text) (start : Message) (resume : Bool) (tmp : Text)
      (rest : List Message) (w : World)
      → ((b : Bytes) → length (sha256 b) ≡ 32)
      → start.file_id ≢ []
      → is_archive start ≡ false
      → length cs < 2 ^ 48
      → unused w.files w.temps ≡ some tmp
      → tmp ≢ dest_path dest_dir start
      → resume_state_path dest_dir start.file_id ≢ tmp
      → (resumable resume start ≡ true
          → lookup (resume_state_path dest_dir start.file_id) w.files ≡ none)
      → NoFaults w
      → w.inbox ≡ file_messages start.file_id 0 cs (checksum_of sha256 (concat cs)) ++ rest
      → (w' : World) × (receive_one_file J sha256 untar dest_dir start resume w ≡ done tt w')
        × Received tmp
            (dest_path dest_dir start)
            (concat cs)
            rest
            (w.outbox
              ++ (answers start 0
                  ++ (checksum_message start.file_id (checksum_of sha256 (concat cs)) ∷ [])))
            w'
  unfolding receive_one_file
  receive_one_file_fresh cs dest_dir start resume tmp rest w size named plain small u other apart
        missing q coming =
      let (apart', deletable) = fresh_state-Apart dest_dir start resume tmp apart in
      let (w1, opened, s1) = open_download_fresh J dest_dir start resume tmp w missing u q apart' in
      let s2 : Stands tmp []
          (file_messages start.file_id 0 cs (checksum_of sha256 (concat cs)) ++ rest) w.outbox w1 =
        record {
          quiet = s1.quiet;
          holds = s1.holds;
          coming = s1.coming ∙ coming;
          answered = s1.answered;
        } in
      let (w2, received, r) =
        receive_body_done J sha256 untar cs 0 dest_dir start (fresh_download resume start tmp) []
          rest w.outbox w1 size named plain refl refl (omega arith) other apart' deletable s2 in
      (w2, >>=-done (open_download J dest_dir start resume) _ w opened ∙ received, r)

  -- Where calls succeed and both sides ask for resuming, a stored state with next index n and a
  -- partial file of at least n chunks make the receiver ask for the file from offset n * 32768 on
  -- (or from the start if n is 0); and if chunks come with indices from n on, then the complete
  -- message and the checksum of the first n chunks of the partial file with the new ones behind
  -- them, that content is at the destination, the partial file is gone, and the checksum is
  -- answered. The partial file differs from the destination and the state file, the id is not
  -- empty and is that of the state, checksums have 32 bytes, and indices stay below 2^48.
  pub receive_one_file_resumed :
      (cs : List Bytes) (n : ℕ) (dest_dir : Text) (start : Message) (resume : Bool)
      (written content : Bytes) (s : ResumeState) (rest : List Message) (w : World)
      → ((b : Bytes) → length (sha256 b) ≡ 32)
      → start.file_id ≢ []
      → n + length cs < 2 ^ 48
      → resumable resume start ≡ true
      → lookup (resume_state_path dest_dir start.file_id) w.files ≡ some written
      → decode_state J written ≡ some s
      → s.file_id ≡ start.file_id
      → s.next_index ≡ pos n
      → n * file_chunk_size ≤ length content
      → lookup s.temp_path w.files ≡ some content
      → s.temp_path ≢ dest_path dest_dir start
      → resume_state_path dest_dir start.file_id ≢ s.temp_path
      → NoFaults w
      → w.inbox
        ≡ file_messages start.file_id n cs
            (checksum_of sha256 (take (n * file_chunk_size) content ++ concat cs))
          ++ rest
      → (w' : World) × (receive_one_file J sha256 untar dest_dir start resume w ≡ done tt w')
        × Received s.temp_path
            (dest_path dest_dir start)
            (take (n * file_chunk_size) content ++ concat cs)
            rest
            (w.outbox
              ++ (answers start n
                  ++ (checksum_message start.file_id
                        (checksum_of sha256 (take (n * file_chunk_size) content ++ concat cs))
                      ∷ [])))
            w'
  unfolding receive_one_file
  receive_one_file_resumed cs n dest_dir start resume written content s rest w size named small
        asked stored decoded same index enough there other apart q coming =
      let kept = take (n * file_chunk_size) content in
      let (w1, opened, s1) =
        open_download_resumed J dest_dir start resume n written content s w asked stored decoded
          index (omega arith) enough there q in
      let s2 : Stands s.temp_path kept
          (file_messages start.file_id n cs (checksum_of sha256 (kept ++ concat cs)) ++ rest)
          w.outbox w1 =
        record {
          quiet = s1.quiet;
          holds = s1.holds;
          coming = s1.coming ∙ coming;
          answered = s1.answered;
        } in
      let apart' : resume_state_path dest_dir s.file_id ≢ s.temp_path =
        subst (λ i. resume_state_path dest_dir i ≢ s.temp_path) (sym same) apart in
      let (w2, received, r) =
        receive_body_done J sha256 untar cs n dest_dir start
          (record { state = some s; tmp = s.temp_path; hashed = kept; next_index = s.next_index })
          kept rest w.outbox w1 size named (plain_of_resumable resume start asked) index refl small
          other apart' apart s2 in
      (w2, >>=-done (open_download J dest_dir start resume) _ w opened ∙ received, r)
