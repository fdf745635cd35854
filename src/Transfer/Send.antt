-- ===== src/Transfer/Send.antt =====
-- internal/transfer/p2p.go: sendSingleFile, sendDirectory and sendChunks.
pub mod Chunks
pub mod Whole
use goxfer.Base.{
  ℕ, zero, suc, ◌+◌, ◌-◌, ◌*◌, Bool, true, false, not, ◌&&◌, List, [], ◌∷◌, ◌++◌, Option, none,
  some, Bytes, Text, codes, text_eq, ℤ, pos, negsuc, inc64, quotient, is_positive, take, drop,
  length, is_empty, if◌then◌else◌, Proc, Outcome, done, fail, pure, throw, guard, ◌>>=◌, ◌>>◌,
}
use goxfer.Hex.{hex_encode}
use goxfer.Paths.{base, join}
use goxfer.Protocol.Message.{
  Message, zero_message, file_chunk_size, type_file_start, type_file_chunk, type_file_complete,
  type_file_checksum, type_file_resume,
}
use goxfer.Transfer.World.{
  World, Transfer, TransferError, syscall, read_file, send, receive, checksum_failed,
  receive_failed, open_failed, seek_failed, read_failed, checksum_mismatch,
}
use goxfer.Transfer.Resume.{deterministic_file_id, random_file_id}

-- What one Read returns besides its bytes: more to come, io.EOF, or another error.
pub data ReadStatus : Type 0 where
  more eof broken : ReadStatus

pub record Read : Type 0 where
  pub bytes : Bytes
  pub status : ReadStatus

-- The `Message{…}` literals.
abbrev pub chunk_message : Text → ℤ → Bytes → Message
chunk_message file_id index bytes = record zero_message {
  kind = type_file_chunk;
  file_id = file_id;
  index = index;
  chunk = bytes;
}

abbrev pub complete_message : Text → Message
complete_message file_id = record zero_message { kind = type_file_complete; file_id = file_id }

abbrev pub checksum_message : Text → Text → Message
checksum_message file_id checksum = record zero_message {
  kind = type_file_checksum;
  file_id = file_id;
  checksum = checksum;
}

abbrev pub start_message : Text → Text → ℤ → Bool → Message
start_message file_id name size resume = record zero_message {
  kind = type_file_start;
  file_id = file_id;
  name = name;
  size = size;
  resume = resume;
}

abbrev send_chunk : Text → ℤ → Bytes → Transfer ℤ
send_chunk file_id index [] = pure index
send_chunk file_id index (b ∷ bs) = do
  send (chunk_message file_id index (b ∷ bs))
  pure (inc64 index)

-- The loop over the reader, whose reads are given; after the last of them it is at its end.
unfoldable pub send_chunks : Text → List Read → ℤ → Transfer (Unit {0})
send_chunks file_id [] index = pure tt
send_chunks file_id (r ∷ rs) index = do
  next ← send_chunk file_id index r.bytes
  elim r.status [ more ↦ send_chunks file_id rs next | eof ↦ pure tt | broken ↦ throw read_failed ]

-- The reads of a file through a buffer of file_chunk_size bytes.
unfoldable pub file_reads : ℕ → Bytes → List Read
file_reads zero content = []
file_reads (suc fuel) [] = []
file_reads (suc fuel) (b ∷ bs) =
    record { bytes = take file_chunk_size (b ∷ bs); status = more }
    ∷ file_reads fuel (drop file_chunk_size (b ∷ bs))

-- From the given offset, which the sender seeks to.
abbrev pub from_offset : ℤ → Bytes → Bytes
from_offset (pos n) content = drop n content
from_offset (negsuc n) content = content

abbrev ack_offset : Message → ℤ
ack_offset ack = if text_eq ack.kind type_file_resume then ack.offset else pos 0

-- file_complete, file_checksum, and the receiver's answer.
unfoldable pub conclude : Text → Text → Transfer (Unit {0})
conclude file_id checksum = do
  send (complete_message file_id)
  send (checksum_message file_id checksum)
  ack ← receive receive_failed
  guard (text_eq ack.kind type_file_checksum && text_eq ack.checksum checksum) checksum_mismatch

-- The offset at which the receiver wants the file to go on.
unfoldable pub start_offset : Bool → Transfer ℤ
start_offset false = pure (pos 0)
start_offset true = do ack ← receive receive_failed; pure (ack_offset ack)

-- How sendDirectory begins: the size of the archive is not known.
unfoldable pub announce_directory : Text → Transfer Text
announce_directory src_path = do
  file_id ← random_file_id
  send (start_message file_id (base src_path ++ codes ".tar.gz") (negsuc 0) false)
  pure file_id

module _ (sha256 : Bytes → Bytes) where
  abbrev pub checksum_of : Bytes → Text
  checksum_of content = hex_encode (sha256 content)

  -- `size` is what os.Stat said of the file.
  unfoldable pub send_single_file : Text → ℤ → Bool → Transfer (Unit {0})
  send_single_file path size resume = do
    checked ← read_file checksum_failed path
    let checksum = checksum_of checked
    file_id ← if resume then pure (deterministic_file_id sha256 path size) else random_file_id
    send (start_message file_id (base path) size resume)
    offset ← start_offset resume
    content ← read_file open_failed path
    if is_positive offset then syscall seek_failed else pure tt
    let rest = from_offset offset content
    send_chunks file_id (file_reads (length rest) rest) (quotient offset file_chunk_size)
    conclude file_id checksum

  -- The bytes that were read, which the hash has seen.
  abbrev pub read_bytes : List Read → Bytes
  read_bytes [] = []
  read_bytes (r ∷ rs) = r.bytes ++ (elim r.status [ more ↦ read_bytes rs | eof ↦ [] | broken ↦ [] ])

  -- The rest of sendDirectory. `reads` is the tar.gz of the directory as it comes out of the pipe; if the walk failed, the
  -- last of them is broken.
  unfoldable pub send_directory : Text → List Read → Transfer (Unit {0})
  send_directory src_path reads = do
    file_id ← announce_directory src_path
    send_chunks file_id reads (pos 0)
    conclude file_id (checksum_of (read_bytes reads))

-- The name in the header of the entry at the path `rel` below the directory.
unfoldable pub entry_name : Text → Text → Text
entry_name src_path rel = join (base src_path) rel
