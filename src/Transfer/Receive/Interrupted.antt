-- ===== src/Transfer/Receive/Interrupted.antt =====
-- internal/transfer/p2p.go: what is left of a download whose connection breaks, and what the next
-- run makes of it.
use goxfer.Base.{
  ℕ, suc, ◌+◌, ◌^◌, ◌<◌, ◌≡◌, ◌≢◌, refl, sym, ap, ◌∙◌, Bool, true, ◌++◌, [], append-nil, List,
  Option, none, some, Bytes, Text, length, pos, if◌then◌else◌, arith, done, fail, after, >>=-done,
  >>=-fail, finally-fail, ◌>>=◌, ◌>>◌, pure,
}
use goxfer.Base.Dict.{lookup, erase, lookup-erase_self}
use goxfer.Json.{JsonText}
use goxfer.Protocol.Message.{Message}
use goxfer.Transfer.World.{
  World, TransferError, syscall, found, receive, receive_failed, open_failed, unused,
}
use goxfer.Transfer.Frame.{NoFaults, syscall-done}
use goxfer.Transfer.Extract.{TarItem}
use goxfer.Transfer.Resume.{
  ResumeState, resume_state_path, load_resume_state, decode_state, try, try-fail,
}
use goxfer.Transfer.Send.Chunks.{chunk_messages}
use goxfer.Transfer.Steps.{receive_at_end, remove_file_done}
use goxfer.Transfer.Receive.{
  Download, open_download, reopen, reopen_if, or_fresh, acknowledge, discard, receive_loop,
  receive_rest, receive_one_file, resumable,
}
use goxfer.Transfer.Receive.Chunks.{Stands, Apart}
use goxfer.Transfer.Receive.Loop.{advance_all, receive_loop_chunks}
use goxfer.Transfer.Receive.Acknowledge.{answers, acknowledge_done}
use goxfer.Transfer.Receive.Body.{length-chunk_messages}
use goxfer.Transfer.Receive.Open.{
  fresh_download, fresh_done, open_download_fresh, load_resume_state-some,
}
use goxfer.Transfer.Receive.OneFile.{fresh_state-Apart}

reopen_missing :
    (s : ResumeState) (w : World)
    → lookup s.temp_path w.files ≡ none
    → NoFaults w
    → reopen s w ≡ fail open_failed w
unfolding reopen
reopen_missing s w gone q =
    >>=-done (syscall open_failed) _ w (syscall-done open_failed w q)
    ∙ >>=-fail (λ v. found open_failed (lookup s.temp_path v.files) v) _ w
        (ap (λ o. found open_failed o w) gone)

module _ (J : JsonText) where
  -- A stored state whose partial file is gone is given up: the download begins afresh, with an
  -- empty temporary file and index 0; where both sides ask for resuming, the new temporary name
  -- is unused and is not the state file, and calls succeed.
  pub open_download_lost :
      (dest_dir : Text) (start : Message) (resume : Bool) (tmp : Text) (written : Bytes)
      (s : ResumeState) (w : World)
      → resumable resume start ≡ true
      → lookup (resume_state_path dest_dir start.file_id) w.files ≡ some written
      → decode_state J written ≡ some s
      → lookup s.temp_path w.files ≡ none
      → unused w.files w.temps ≡ some tmp
      → resume_state_path dest_dir start.file_id ≢ tmp
      → NoFaults w
      → (w' : World) × (open_download J dest_dir start resume w
          ≡ done (fresh_download resume start tmp) w')
        × Stands tmp [] w.inbox w.outbox w'
  unfolding open_download
  open_download_lost dest_dir start resume tmp written s w asked stored decoded gone u other q =
      let (w1, opened, s1) =
        fresh_done J dest_dir start resume tmp w u q
          (fresh_state-Apart dest_dir start resume tmp other).0 in
      (
        w1,
        >>=-done
              (if resumable resume start
                then load_resume_state J dest_dir start.file_id
                else pure {S = World} {E = TransferError} {A = Option ResumeState} none)
              (λ x. ◌>>=◌ {B = Download} (reopen_if x) (or_fresh J dest_dir start resume)) w
              (ap (λ b. (if b then load_resume_state J dest_dir start.file_id else pure none) w)
                  asked
                ∙ load_resume_state-some J dest_dir start.file_id written w stored q
                ∙ ap (λ o. done o w) decoded)
            ∙ >>=-done (try (reopen s)) (or_fresh J dest_dir start resume) w
                (try-fail (reopen s) w (reopen_missing s w gone q))
            ∙ opened,
        s1,
      )

module _ (J : JsonText) (sha256 : Bytes → Bytes) (untar : Bytes → Option (List TarItem)) where
  receive_loop_at_end :
      (fuel : ℕ) (dest_dir : Text) (start : Message) (d : Download) (w : World)
      → w.inbox ≡ []
      → NoFaults w
      → receive_loop J sha256 untar (suc fuel) dest_dir start d w ≡ fail receive_failed w
  unfolding receive_loop
  receive_loop_at_end fuel dest_dir start d w coming q =
      >>=-fail (receive receive_failed) _ w (receive_at_end receive_failed w coming q)

  receive_rest_interrupted :
      (cs : List Bytes) (dest_dir : Text) (start : Message) (d : Download) (outbox : List Message)
      (w : World)
      → d.next_index ≡ pos 0
      → length cs < 2 ^ 63
      → Apart dest_dir d.tmp d.state
      → Stands d.tmp [] (chunk_messages start.file_id 0 cs) outbox w
      → (w' : World) × (receive_rest J sha256 untar dest_dir start d w ≡ fail receive_failed w')
        × NoFaults w'
  receive_rest_interrupted cs dest_dir start d outbox w index small apart s =
      let chunks = chunk_messages start.file_id 0 cs in
      let fuel : suc (length w.inbox) ≡ length cs + 1 =
        omega (arith, ap length s.coming, length-chunk_messages start.file_id 0 cs) in
      let s0 : Stands d.tmp [] (chunks ++ []) outbox w = record {
        quiet = s.quiet;
        holds = s.holds;
        coming = s.coming ∙ sym (append-nil chunks);
        answered = s.answered;
      } in
      let (w1, looped, s1) =
        receive_loop_chunks J sha256 untar cs 1 0 dest_dir start d [] [] outbox w index
          (omega arith) apart s0 in
      (
        w1,
        ap (λ f. receive_loop J sha256 untar f dest_dir start d w) fuel
            ∙ looped
            ∙ receive_loop_at_end 0 dest_dir start (advance_all d 0 cs) w1 s1.coming s1.quiet,
        s1.quiet,
      )

  -- A download without a stored state whose messages end after some chunks fails with the error
  -- of receiving, and its temporary file is gone, also where both sides asked for resuming; for
  -- an id that is not empty, fewer than 2^63 chunks, an unused temporary name that is not the
  -- state file, and calls that succeed.
  pub receive_one_file_interrupted :
      (cs : List Bytes) (dest_dir : Text) (start : Message) (resume : Bool) (tmp : Text) (w : World)
      → start.file_id ≢ []
      → length cs < 2 ^ 63
      → unused w.files w.temps ≡ some tmp
      → resume_state_path dest_dir start.file_id ≢ tmp
      → (resumable resume start ≡ true
          → lookup (resume_state_path dest_dir start.file_id) w.files ≡ none)
      → NoFaults w
      → w.inbox ≡ chunk_messages start.file_id 0 cs
      → (w' : World) × (receive_one_file J sha256 untar dest_dir start resume w
          ≡ fail receive_failed w')
        × (lookup tmp w'.files ≡ none)
  unfolding receive_one_file
  receive_one_file_interrupted cs dest_dir start resume tmp w named small u other missing q coming =
      let apart = (fresh_state-Apart dest_dir start resume tmp other).0 in
      let d = fresh_download resume start tmp in
      let (w1, opened, s1) = open_download_fresh J dest_dir start resume tmp w missing u q apart in
      let w2 : World = record w1 { outbox = w1.outbox ++ answers start 0 } in
      let s2 : Stands tmp [] (chunk_messages start.file_id 0 cs) (w1.outbox ++ answers start 0) w2 =
        record {
          quiet = s1.quiet;
          holds = s1.holds;
          coming = s1.coming ∙ coming;
          answered = refl;
        } in
      let (w3, broken, quiet) =
        receive_rest_interrupted cs dest_dir start d (w1.outbox ++ answers start 0) w2 refl small
          apart s2 in
      (
        record w3 { files = erase tmp w3.files },
        >>=-done (open_download J dest_dir start resume) _ w opened
            ∙ finally-fail (discard tmp)
                (acknowledge start d >> receive_rest J sha256 untar dest_dir start d) w1
                (>>=-done (acknowledge start d) _ w1
                    (acknowledge_done start d 0 w1 named refl (omega arith) s1.quiet)
                  ∙ broken)
            ∙ ap (λ o. fail receive_failed (after o)) (remove_file_done tmp w3 quiet),
        lookup-erase_self tmp w3.files,
      )
