-- ===== src/Transfer/Tests/Loops.antt =====
-- internal/transfer: runs of the receiver's loop, and of broken transfers.
use goxfer.Base.{
  some, fail, false, eq_ℤ, inc64, ◌≢◌, ◌≡◌, refl, true, List, [], ◌∷◌, none, codes, text_eq,
  ne_of_text_eq, has_prefix, has_suffix, pos, arith, done, after,
}
use goxfer.Protocol.Message.{validate_message, validate_as}
use goxfer.Base.Dict.{insert, erase, lookup}
use goxfer.Json.{names_field, set_fields}
use goxfer.Json.Plain.{plain_text}
use goxfer.Paths.{is_abs, clean, join, base, elements, clean_elements, clean_onto, push}
use goxfer.Protocol.Message.{Message}
use goxfer.Transfer.World.{World}
use goxfer.Transfer.Resume.{
  resume_state_path, decode_state, encode_state, marshal_state, set_state_field,
}
use goxfer.Transfer.Receive.{receive_one_file}
use goxfer.Json.Utf8.{is_utf8}
use goxfer.Transfer.World.{out_of_fuel, receive_failed, syscall, receive, send}
use goxfer.Transfer.Resume.RoundTrip.{decode_state-encode_state}
use goxfer.Transfer.Receive.{
  Download, receive_into, receive_loop, open_download, append_file, on_chunk, on_complete,
  store_download, save_file, rename,
}
use goxfer.Transfer.Receive.Chunks.{Stands}
use goxfer.Transfer.Receive.Open.{fresh_download}
use goxfer.Transfer.Receive.Accepted.{Accepted, receive_loop-Accepted}
use goxfer.Transfer.Receive.Termination.{receive_into_terminates}
use goxfer.Transfer.Receive.Interrupted.{open_download_lost, receive_one_file_interrupted}
use goxfer.Hex.{hex_encode}
use goxfer.Transfer.Send.Chunks.{chunk_messages}
use goxfer.Transfer.Tests.{
  flat_sha256, no_archive, temp, start, two_chunks, fresh_world, state, state_path, resumed_world,
}

decode_state-encode_state_example :
    decode_state plain_text (encode_state plain_text state) ≡ some state
unfolding is_utf8 marshal_state
decode_state-encode_state_example = decode_state-encode_state plain_text state refl refl refl

receive_into_terminates_example :
    receive_into plain_text flat_sha256 no_archive (codes "out") true fresh_world
    ≢ fail out_of_fuel fresh_world
receive_into_terminates_example =
    receive_into_terminates plain_text flat_sha256 no_archive (codes "out") true fresh_world
      fresh_world

-- The loop of a receiver whose temporary file is there.
abbrev started_world : World
started_world = record fresh_world { files = (temp, []) ∷ [] }

abbrev started : Download
started = fresh_download false start temp

abbrev finished_world : World
finished_world =
    after
      (receive_loop plain_text flat_sha256 no_archive 5 (codes "out") start started started_world)

receive_loop-Accepted_example :
    (rest : List Message) × Accepted flat_sha256 start.file_id rest (pos 0) [] started_world.inbox
unfolding receive_loop on_chunk on_complete store_download save_file rename append_file receive send
    syscall validate_message validate_as text_eq eq_ℤ inc64 lookup insert erase has_suffix
    hex_encode
receive_loop-Accepted_example =
    receive_loop-Accepted plain_text flat_sha256 no_archive 5 (codes "out") start started
      started_world finished_world refl

abbrev lost_world : World
lost_world = record resumed_world { files = (state_path, encode_state plain_text state) ∷ [] }

open_download_lost_example :
    (w' : World) × (open_download plain_text (codes "out") start true lost_world
      ≡ done (fresh_download true start temp) w')
    × Stands temp [] lost_world.inbox [] w'
unfolding has_suffix text_eq lookup resume_state_path join clean base elements clean_elements
    clean_onto push is_abs has_prefix decode_state encode_state marshal_state set_state_field
    set_fields names_field plain_text
open_download_lost_example =
    open_download_lost plain_text (codes "out") start true temp (encode_state plain_text state)
      state lost_world refl refl refl refl refl (ne_of_text_eq _ _ refl) refl

abbrev broken_world : World
broken_world = record fresh_world { inbox = chunk_messages start.file_id 0 two_chunks }

receive_one_file_interrupted_example :
    (w' : World) × (receive_one_file plain_text flat_sha256 no_archive
        (codes "out")
        start
        true
        broken_world
      ≡ fail receive_failed w')
    × (lookup temp w'.files ≡ none)
unfolding has_suffix text_eq lookup resume_state_path join clean base elements clean_elements
    clean_onto push is_abs has_prefix
receive_one_file_interrupted_example =
    receive_one_file_interrupted plain_text flat_sha256 no_archive two_chunks (codes "out") start
      true temp broken_world (λ e. cc) (omega arith) refl (ne_of_text_eq _ _ refl) (λ _. refl) refl
      refl
