-- ===== src/Transfer/Receive/Open.antt =====
-- internal/transfer/p2p.go: how receiveOneFile begins, afresh or from a partial download.
use goxfer.Base.{
  ℕ, ◌-◌, ◌*◌, ◌^◌, ◌<◌, ◌≤◌, ◌≡◌, refl, ap, ◌∙◌, Bool, true, false, ◌++◌, [], append-nil, Option,
  none, some, Bytes, Text, length, length-take, take, take_all, replicate, pos, scale64,
  scale64_lem, if◌then◌else◌, arith, done, >>=-done, ◌>>=◌, pure,
}
use goxfer.Base.Dict.{lookup, insert, lookup-insert_self}
use goxfer.Json.{JsonText}
use goxfer.Protocol.Message.{Message, file_chunk_size}
use goxfer.Transfer.World.{
  World, TransferError, syscall, create_temp, create_temp_failed, unused, found, put_file,
  read_file, open_failed, seek_failed,
}
use goxfer.Transfer.Frame.{NoFaults, syscall-done}
use goxfer.Transfer.Resume.{
  ResumeState, resume_state_path, load_resume_state, decode_state, truncate, resize, rehash_file,
  byte_offset, try, try-done, try-fail,
}
use goxfer.Transfer.Steps.{read_file_done, read_file_missing}
use goxfer.Transfer.Receive.{
  Download, resumable, open_download, reopen, reopen_if, fresh, or_fresh, save_if, first_state,
}
use goxfer.Transfer.Receive.Chunks.{Stands, Apart, save_if_done}

create_temp_done :
    (tmp : Text) (w : World)
    → unused w.files w.temps ≡ some tmp
    → NoFaults w
    → create_temp w ≡ done tmp (record w { files = insert tmp [] w.files })
unfolding create_temp
create_temp_done tmp w u q =
    >>=-done (syscall create_temp_failed) _ w (syscall-done create_temp_failed w q)
    ∙ >>=-done (λ v. found create_temp_failed (unused v.files v.temps) v) _ w
        (ap (λ o. found create_temp_failed o w) u)

-- The state of a fresh download, where there is one.
abbrev pub fresh_state : Bool → Message → Text → Option ResumeState
fresh_state resume start tmp = if resumable resume start then some (first_state start tmp) else none

abbrev pub fresh_download : Bool → Message → Text → Download
fresh_download resume start tmp = record {
  state = fresh_state resume start tmp;
  tmp = tmp;
  hashed = [];
  next_index = pos 0;
}

module _ (J : JsonText) where
  pub fresh_done :
      (dest_dir : Text) (start : Message) (resume : Bool) (tmp : Text) (w : World)
      → unused w.files w.temps ≡ some tmp
      → NoFaults w
      → Apart dest_dir tmp (fresh_state resume start tmp)
      → (w' : World) × (fresh J dest_dir start resume w ≡ done (fresh_download resume start tmp) w')
        × Stands tmp [] w.inbox w.outbox w'
  unfolding fresh
  fresh_done dest_dir start resume tmp w u q apart =
      let w1 : World = record w { files = insert tmp [] w.files } in
      let s1 : Stands tmp [] w.inbox w.outbox w1 = record {
        quiet = q;
        holds = lookup-insert_self tmp [] w.files;
        coming = refl;
        answered = refl;
      } in
      let state = fresh_state resume start tmp in
      let (w2, saved, s2) = save_if_done J dest_dir tmp [] w.inbox w.outbox state w1 apart s1 in
      (
        w2,
        >>=-done create_temp _ w (create_temp_done tmp w u q)
            ∙ >>=-done (save_if J dest_dir state) _ w1 saved,
        s2,
      )

  load_resume_state-none :
      (dest_dir file_id : Text) (w : World)
      → lookup (resume_state_path dest_dir file_id) w.files ≡ none
      → NoFaults w
      → load_resume_state J dest_dir file_id w ≡ done none w
  unfolding load_resume_state
  load_resume_state-none dest_dir file_id w missing q =
      let read = read_file open_failed (resume_state_path dest_dir file_id) in
      >>=-done (try read) _ w (
        try-fail read w
          (read_file_missing open_failed (resume_state_path dest_dir file_id) w missing q))

  pub load_resume_state-some :
      (dest_dir file_id : Text) (content : Bytes) (w : World)
      → lookup (resume_state_path dest_dir file_id) w.files ≡ some content
      → NoFaults w
      → load_resume_state J dest_dir file_id w ≡ done (decode_state J content) w
  unfolding load_resume_state
  load_resume_state-some dest_dir file_id content w there q =
      let read = read_file open_failed (resume_state_path dest_dir file_id) in
      >>=-done (try read) _ w (
        try-done read w
          (read_file_done open_failed (resume_state_path dest_dir file_id) content w there q))

resize_le : (n : ℕ) (content : Bytes) → n ≤ length content → resize n content ≡ take n content
resize_le n content h =
    let none_missing : n - length content ≡ 0 = omega arith in
    ap (λ k. take n content ++ replicate k 0) none_missing ∙ append-nil (take n content)

truncate_done :
    (path : Text) (n : ℕ) (content : Bytes) (w : World)
    → n ≤ length content
    → lookup path w.files ≡ some content
    → NoFaults w
    → truncate path (pos n) w ≡ done tt (record w { files = insert path (take n content) w.files })
unfolding truncate
truncate_done path n content w h there q =
    >>=-done (syscall seek_failed) _ w (syscall-done seek_failed w q)
    ∙ >>=-done (λ v. found seek_failed (lookup path v.files) v) _ w
        (ap (λ o. found seek_failed o w) there)
    ∙ ap (λ c. put_file path c w) (resize_le n content h)

rehash_file_done :
    (path : Text) (n : ℕ) (content : Bytes) (w : World)
    → lookup path w.files ≡ some content
    → NoFaults w
    → rehash_file path (pos n) w ≡ done (take n content) w
unfolding rehash_file
rehash_file_done path n content w there q =
    >>=-done (read_file open_failed path) _ w (read_file_done open_failed path content w there q)

take-take : (n : ℕ) (content : Bytes) → take n (take n content) ≡ take n content
take-take n content = take_all n (take n content) (omega (arith, length-take n content))

-- The partial file is cut to whole chunks, and the hash has seen them all.
pub reopen_done :
    (s : ResumeState) (n : ℕ) (content : Bytes) (w : World)
    → s.next_index ≡ pos n
    → n * file_chunk_size < 2 ^ 63
    → n * file_chunk_size ≤ length content
    → lookup s.temp_path w.files ≡ some content
    → NoFaults w
    → (w' : World) × (reopen s w
        ≡ done
            (record {
              state = some s;
              tmp = s.temp_path;
              hashed = take (n * file_chunk_size) content;
              next_index = s.next_index;
            })
            w')
      × Stands s.temp_path (take (n * file_chunk_size) content) w.inbox w.outbox w'
unfolding reopen byte_offset
reopen_done s n content w index small enough there q =
    let cut = n * file_chunk_size in
    let path = s.temp_path in
    let offset : scale64 s.next_index file_chunk_size ≡ pos cut =
      ap (λ z. scale64 z file_chunk_size) index ∙ scale64_lem n file_chunk_size small in
    let w1 : World = record w { files = insert path (take cut content) w.files } in
    (
      w1,
      >>=-done (syscall open_failed) _ w (syscall-done open_failed w q)
          ∙ >>=-done (λ v. found open_failed (lookup path v.files) v) _ w
              (ap (λ o. found open_failed o w) there)
          ∙ >>=-done (truncate path (scale64 s.next_index file_chunk_size)) _ w
              (ap (λ z. truncate path z w) offset ∙ truncate_done path cut content w enough there q)
          ∙ >>=-done (syscall seek_failed) _ w1 (syscall-done seek_failed w1 q)
          ∙ >>=-done (rehash_file path (scale64 s.next_index file_chunk_size)) _ w1 (
              ap (λ z. rehash_file path z w1) offset
              ∙ rehash_file_done path cut (take cut content) w1
                  (lookup-insert_self path (take cut content) w.files) q
              ∙ ap (λ b. done b w1) (take-take cut content)),
      record {
        quiet = q;
        holds = lookup-insert_self path (take cut content) w.files;
        coming = refl;
        answered = refl;
      },
    )

module _ (J : JsonText) where
  -- Where there is no state to go on from, the download begins afresh.
  pub open_download_fresh :
      (dest_dir : Text) (start : Message) (resume : Bool) (tmp : Text) (w : World)
      → (resumable resume start ≡ true
          → lookup (resume_state_path dest_dir start.file_id) w.files ≡ none)
      → unused w.files w.temps ≡ some tmp
      → NoFaults w
      → Apart dest_dir tmp (fresh_state resume start tmp)
      → (w' : World) × (open_download J dest_dir start resume w
          ≡ done (fresh_download resume start tmp) w')
        × Stands tmp [] w.inbox w.outbox w'
  unfolding open_download
  open_download_fresh dest_dir start resume tmp w missing u q apart =
      let (w1, opened, s1) = fresh_done J dest_dir start resume tmp w u q apart in
      (
        w1,
        >>=-done
              (if resumable resume start
                then load_resume_state J dest_dir start.file_id
                else pure {S = World} {E = TransferError} {A = Option ResumeState} none)
              (λ x. ◌>>=◌ {B = Download} (reopen_if x) (or_fresh J dest_dir start resume)) w
              (none_loaded (resumable resume start) missing)
            ∙ opened,
        s1,
      )
    where
      none_loaded :
          (b : Bool)
          → (b ≡ true → lookup (resume_state_path dest_dir start.file_id) w.files ≡ none)
          → (if b then load_resume_state J dest_dir start.file_id else pure none) w ≡ done none w
      none_loaded true h = load_resume_state-none J dest_dir start.file_id w (h refl) q
      none_loaded false h = refl

  -- Where there is a state with its partial file, the download goes on from it.
  pub open_download_resumed :
      (dest_dir : Text) (start : Message) (resume : Bool) (n : ℕ) (written content : Bytes)
      (s : ResumeState) (w : World)
      → resumable resume start ≡ true
      → lookup (resume_state_path dest_dir start.file_id) w.files ≡ some written
      → decode_state J written ≡ some s
      → s.next_index ≡ pos n
      → n * file_chunk_size < 2 ^ 63
      → n * file_chunk_size ≤ length content
      → lookup s.temp_path w.files ≡ some content
      → NoFaults w
      → (w' : World) × (open_download J dest_dir start resume w
          ≡ done
              (record {
                state = some s;
                tmp = s.temp_path;
                hashed = take (n * file_chunk_size) content;
                next_index = s.next_index;
              })
              w')
        × Stands s.temp_path (take (n * file_chunk_size) content) w.inbox w.outbox w'
  unfolding open_download
  open_download_resumed dest_dir start resume n written content s w asked stored decoded index small
        enough there q =
      let (w1, opened, s1) = reopen_done s n content w index small enough there q in
      (
        w1,
        >>=-done
              (if resumable resume start
                then load_resume_state J dest_dir start.file_id
                else pure {S = World} {E = TransferError} {A = Option ResumeState} none)
              (λ x. ◌>>=◌ {B = Download} (reopen_if x) (or_fresh J dest_dir start resume)) w
              (ap (λ b. (if b then load_resume_state J dest_dir start.file_id else pure none) w)
                  asked
                ∙ load_resume_state-some J dest_dir start.file_id written w stored q
                ∙ ap (λ o. done o w) decoded)
            ∙ >>=-done (try (reopen s)) (or_fresh J dest_dir start resume) w
                (try-done (reopen s) w opened),
        s1,
      )
