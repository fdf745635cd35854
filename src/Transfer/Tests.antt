-- ===== src/Transfer/Tests.antt =====
-- internal/transfer: runs of the receiver on small inputs.
mod Loops
use goxfer.Base.{
  eq_ℤ, inc64, ◌≢◌, ℕ, ◌*◌, ◌≡◌, refl, true, List, [], ◌∷◌, ◌++◌, Option, none, Bytes, Text, codes,
  text_eq, ne_of_text_eq, ap, ◌∙◌, has_prefix, has_prefix-append, has_suffix, pos, length-replicate,
  take, replicate, arith, done, after,
}
use goxfer.Protocol.Message.{validate_message, validate_as}
use goxfer.Base.Dict.{erase, lookup}
use goxfer.Json.{names_field, set_fields}
use goxfer.Json.Plain.{plain_text}
use goxfer.Paths.{slash, is_abs, clean, join, base, elements, clean_elements, clean_onto, push}
use goxfer.Paths.Clean.{IsInside}
use goxfer.Protocol.Message.{Message, file_chunk_size}
use goxfer.Transfer.World.{World}
use goxfer.Transfer.Extract.{regular, TarItem, entry, broken, entry_target, extract_items}
use goxfer.Transfer.Extract.Containment.{entry_target-IsInside, extract_items_contained}
use goxfer.Transfer.Resume.{
  resume_state_path, ResumeState, decode_state, encode_state, marshal_state, set_state_field,
}
use goxfer.Transfer.Send.{start_message, checksum_message, checksum_of}
use goxfer.Transfer.Receive.{receive_one_file, dest_path}
use goxfer.Transfer.Send.Chunks.{concat}
use goxfer.Transfer.Receive.Acknowledge.{answers}
use goxfer.Transfer.Receive.Body.{file_messages, Received}
use goxfer.Json.Utf8.{is_utf8}
use goxfer.Transfer.World.{out_of_fuel, receive_failed, syscall, receive, send, require_valid}
use goxfer.Transfer.Frame.{NoFaults}
use goxfer.Transfer.Resume.RoundTrip.{decode_state-encode_state}
use goxfer.Transfer.Receive.{
  Download, receive_into, receive_loop, open_download, append_file, on_chunk, on_complete,
  store_download, save_file, rename,
}
use goxfer.Transfer.Receive.Chunks.{Stands}
use goxfer.Transfer.Receive.Open.{fresh_download}
use goxfer.Transfer.Receive.Accepted.{Accepted, receive_loop-Accepted}
use goxfer.Transfer.Receive.Termination.{receive_into_terminates}
use goxfer.Transfer.Receive.Interrupted.{open_download_lost, receive_one_file_interrupted}
use goxfer.Hex.{hex_encode}
use goxfer.Transfer.Resume.{deterministic_file_id}
use goxfer.Transfer.Send.{send_chunks, file_reads, send_single_file}
use goxfer.Transfer.Send.Chunks.{chunk_messages, pieces, send_chunks-file_reads}
use goxfer.Transfer.Send.Whole.{file_id_of, entropy_after, sent_messages, send_single_file_done}
use goxfer.Transfer.Exchange.{Exchanged, send_single_file-receive_into}
use goxfer.Transfer.Receive.OneFile.{receive_one_file_fresh, receive_one_file_resumed}

abbrev flat_sha256 : Bytes → Bytes
flat_sha256 content = replicate 32 7

abbrev no_archive : Bytes → Option (List TarItem)
no_archive content = none

abbrev temp : Text
temp = codes "/tmp/goxfer-recv-1"

abbrev start : Message
start = start_message (codes "id") (codes "f.txt") (pos 3) true

abbrev two_chunks : List Bytes
two_chunks = (1 ∷ 2 ∷ []) ∷ (3 ∷ []) ∷ []

abbrev fresh_world : World
fresh_world = record {
  files = [];
  dirs = [];
  cwd = codes "/home";
  temps = temp ∷ [];
  entropy = [];
  outbox = [];
  faults = [];
  inbox = file_messages start.file_id 0 two_chunks (checksum_of flat_sha256 (1 ∷ 2 ∷ 3 ∷ []));
}

receive_one_file_fresh_example :
    (w' : World) × (receive_one_file plain_text flat_sha256 no_archive
        (codes "out")
        start
        true
        fresh_world
      ≡ done tt w')
    × Received temp
        (dest_path (codes "out") start)
        (1 ∷ 2 ∷ 3 ∷ [])
        []
        (answers start 0
          ++ (checksum_message start.file_id (checksum_of flat_sha256 (1 ∷ 2 ∷ 3 ∷ [])) ∷ []))
        w'
unfolding has_suffix text_eq lookup resume_state_path join clean base elements clean_elements
    clean_onto push is_abs has_prefix
receive_one_file_fresh_example =
    receive_one_file_fresh plain_text flat_sha256 no_archive two_chunks (codes "out") start true
      temp [] fresh_world (λ b. refl) (λ e. cc) refl (omega arith) refl (ne_of_text_eq _ _ refl)
      (ne_of_text_eq _ _ refl) (λ _. refl) refl refl

-- A first run has left one whole chunk and its state.
abbrev partial : Bytes
partial = replicate file_chunk_size 5

abbrev state : ResumeState
state = record {
  file_id = codes "id";
  name = codes "f.txt";
  size = pos 32771;
  next_index = pos 1;
  temp_path = temp;
}

abbrev state_path : Text
state_path = codes "out/.goxfer-id.state"

abbrev resumed_content : Bytes
resumed_content = take (1 * file_chunk_size) partial ++ concat two_chunks

abbrev resumed_world : World
resumed_world = record fresh_world {
  files = (state_path, encode_state plain_text state) ∷ (temp, partial) ∷ [];
  inbox = file_messages start.file_id 1 two_chunks (checksum_of flat_sha256 resumed_content) ++ [];
}

receive_one_file_resumed_example :
    (w' : World) × (receive_one_file plain_text flat_sha256 no_archive
        (codes "out")
        start
        true
        resumed_world
      ≡ done tt w')
    × Received temp
        (dest_path (codes "out") start)
        resumed_content
        []
        (answers start 1
          ++ (checksum_message start.file_id (checksum_of flat_sha256 resumed_content) ∷ []))
        w'
unfolding has_suffix text_eq lookup resume_state_path join clean base elements clean_elements
    clean_onto push is_abs has_prefix decode_state encode_state marshal_state set_state_field
    set_fields names_field plain_text
receive_one_file_resumed_example =
    receive_one_file_resumed plain_text flat_sha256 no_archive two_chunks 1 (codes "out") start true
      (encode_state plain_text state) partial state [] resumed_world (λ b. refl) (λ e. cc)
      (omega arith) refl refl refl refl refl
      (omega (arith, length-replicate {A = ℕ} file_chunk_size 5)) refl (ne_of_text_eq _ _ refl)
      (ne_of_text_eq _ _ refl) refl refl

-- An archive that tries to leave its destination.
abbrev climbing : List TarItem
climbing =
    entry (record { name = codes "a/b"; type_flag = regular; body = 1 ∷ [] })
    ∷ entry (record { name = codes "../etc/passwd"; type_flag = regular; body = 2 ∷ [] })
    ∷ broken
    ∷ []

abbrev archive_world : World
archive_world = record fresh_world { files = (codes "/etc/passwd", 9 ∷ []) ∷ [] }

passwd_outside : ¬ IsInside (codes "/out") (codes "/etc/passwd")
unfolding has_prefix
passwd_outside (rest, e, _) =
    cc (ap (λ k. has_prefix k (codes "/out")) e ∙ has_prefix-append (codes "/out") (slash ∷ rest))

extract_items_contained_example :
    lookup (codes "/etc/passwd") (after (extract_items (codes "/out") climbing archive_world)).files
    ≡ lookup (codes "/etc/passwd") archive_world.files
unfolding is_abs
extract_items_contained_example =
    extract_items_contained (codes "/out") climbing archive_world (codes "/etc/passwd") refl
      passwd_outside

-- A sender's side.
abbrev source : Text
source = codes "/home/u/f.txt"

abbrev sender_world : World
sender_world = record fresh_world {
  files = (source, 1 ∷ 2 ∷ 3 ∷ []) ∷ [];
  entropy = replicate 12 171;
  inbox = [];
}

send_chunks-file_reads_example :
    send_chunks (codes "id") (file_reads 3 (1 ∷ 2 ∷ 3 ∷ [])) (pos 4) sender_world
    ≡ done tt
        (record sender_world { outbox = chunk_messages (codes "id") 4 (pieces 3 (1 ∷ 2 ∷ 3 ∷ [])) })
send_chunks-file_reads_example =
    send_chunks-file_reads 3 (codes "id") (1 ∷ 2 ∷ 3 ∷ []) 4 sender_world (λ e. cc) (omega arith)
      refl

abbrev source_id : Text
source_id = file_id_of flat_sha256 source (pos 3) true sender_world

abbrev answered_world : World
answered_world = record sender_world {
  inbox =
      answers (start_message source_id (base source) (pos 3) true) 0
      ++ (checksum_message source_id (checksum_of flat_sha256 (1 ∷ 2 ∷ 3 ∷ [])) ∷ []);
}

send_single_file_done_example :
    send_single_file flat_sha256 source (pos 3) true answered_world
    ≡ done tt (record answered_world {
      entropy = entropy_after flat_sha256 true answered_world;
      inbox = [];
      outbox = sent_messages flat_sha256 source_id source (pos 3) true 0 (1 ∷ 2 ∷ 3 ∷ []);
    })
unfolding deterministic_file_id hex_encode base elements lookup text_eq
send_single_file_done_example =
    send_single_file_done flat_sha256 source (pos 3) true 0 (1 ∷ 2 ∷ 3 ∷ []) source_id []
      answered_world (ne_of_text_eq _ _ refl) (ne_of_text_eq _ _ refl) refl (ne_of_text_eq _ _ refl)
      (λ _. refl) (omega arith) refl refl refl

send_single_file-receive_into_example :
    (ws' wr' : World) × Exchanged plain_text flat_sha256 no_archive source
      (codes "out")
      (pos 3)
      true
      true
      (1 ∷ 2 ∷ 3 ∷ [])
      sender_world
      fresh_world
      ws'
      wr'
unfolding deterministic_file_id hex_encode has_suffix text_eq lookup resume_state_path join clean
    base elements clean_elements clean_onto push is_abs has_prefix
send_single_file-receive_into_example =
    send_single_file-receive_into plain_text flat_sha256 no_archive source (codes "out") temp
      (pos 3) true true (1 ∷ 2 ∷ 3 ∷ []) sender_world fresh_world (λ b. refl)
      (ne_of_text_eq _ _ refl) (ne_of_text_eq _ _ refl) refl refl (omega arith) refl refl
      (ne_of_text_eq _ _ refl) (ne_of_text_eq _ _ refl) (λ _. refl) refl refl
