-- ===== src/Transfer/Resume.antt =====
-- internal/transfer/p2p.go: the state file of a partial download, and the names of transfers.
pub mod RoundTrip
use mathlib.Core.Option
use goxfer.Base.{
  ◌≡◌, ℕ, ◌-◌, [], ◌∷◌, ◌++◌, Option, none, some, Bytes, Text, codes, ℤ, pos, negsuc, scale64, take,
  drop, length, replicate, if◌then◌else◌, done, fail, pure, throw, ◌>>=◌, ◌>>◌, after,
}
use goxfer.Base.Dict.{lookup, erase}
use goxfer.Hex.{hex_encode, decimal}
use goxfer.Json.{
  Json, JsonObject, JsonText, text, num, names_field, read_text, read_int64, set_fields,
}
use goxfer.Paths.{join}
use goxfer.Protocol.Message.{file_chunk_size}
use goxfer.Transfer.World.{
  World, Transfer, TransferError, syscall, read_file, put_file, found, open_failed, save_failed,
  seek_failed, random_failed,
}

pub record ResumeState : Type 0 where
  pub file_id : Text
  pub name : Text
  pub size : ℤ
  pub next_index : ℤ
  pub temp_path : Text

-- `var state resumeState`
abbrev pub zero_state : ResumeState
zero_state = record { file_id = []; name = []; size = pos 0; next_index = pos 0; temp_path = [] }

unfoldable pub byte_offset : ResumeState → ℤ
byte_offset s = scale64 s.next_index file_chunk_size

unfoldable pub resume_state_path : Text → Text → Text
resume_state_path dest_dir file_id = join dest_dir (codes ".goxfer-" ++ (file_id ++ codes ".state"))

unfoldable pub marshal_state : ResumeState → JsonObject
marshal_state s =
    (codes "file_id", text s.file_id)
    ∷ (codes "name", text s.name)
    ∷ (codes "size", num s.size)
    ∷ (codes "next_index", num s.next_index)
    ∷ (codes "temp_path", text s.temp_path)
    ∷ []

unfoldable pub set_state_field : Text → Json → ResumeState → Option ResumeState
set_state_field k v s =
    if names_field k (codes "file_id")
    then Option.map (λ x. record s { file_id = x }) (read_text v s.file_id)
    else if names_field k (codes "name")
    then Option.map (λ x. record s { name = x }) (read_text v s.name)
    else if names_field k (codes "size")
    then Option.map (λ x. record s { size = x }) (read_int64 v s.size)
    else if names_field k (codes "next_index")
    then Option.map (λ x. record s { next_index = x }) (read_int64 v s.next_index)
    else if names_field k (codes "temp_path")
    then Option.map (λ x. record s { temp_path = x }) (read_text v s.temp_path)
    else some s

-- A call whose error is dropped, and one whose error is looked at.
abbrev pub ignore : {A : Type 0} → Transfer A → Transfer (Unit {0})
ignore m w = done tt (after (m w))

abbrev pub try : {A : Type 0} → Transfer A → Transfer (Option A)
try m w = elim (m w) [ done a t ↦ done (some a) t | fail e t ↦ done none t ]

pub try-done :
    {A : Type 0} (m : Transfer A) (w : World) {a : A} {t : World}
    → m w ≡ done a t
    → try m w ≡ done (some a) t
try-done m w e = rw (e, try)

pub try-fail :
    {A : Type 0} (m : Transfer A) (w : World) {e : TransferError} {t : World}
    → m w ≡ fail e t
    → try m w ≡ done none t
try-fail m w e = rw (e, try)

-- os.WriteFile: the file is emptied before it is written.
unfoldable pub write_file : Text → Bytes → Transfer (Unit {0})
write_file path content = do
  syscall save_failed
  put_file path []
  syscall save_failed
  put_file path content

-- os.Remove
unfoldable pub remove_file : Text → Transfer (Unit {0})
remove_file path = do syscall save_failed; λ w. done tt (record w { files = erase path w.files })

module _ (J : JsonText) where
  unfoldable pub decode_state : Bytes → Option ResumeState
  decode_state content = elim (J.parse content) [
    | none ↦ none
    | some o ↦ set_fields set_state_field o zero_state
  ]

  unfoldable pub encode_state : ResumeState → Bytes
  encode_state s = J.print (marshal_state s)

  abbrev pub decode_found : Option Bytes → Option ResumeState
  decode_found none = none
  decode_found (some content) = decode_state content

  unfoldable pub load_resume_state : Text → Text → Transfer (Option ResumeState)
  load_resume_state dest_dir file_id = do
    content ← try (read_file open_failed (resume_state_path dest_dir file_id))
    pure (decode_found content)

  unfoldable pub save_resume_state : Text → ResumeState → Transfer (Unit {0})
  save_resume_state dest_dir s =
      ignore (write_file (resume_state_path dest_dir s.file_id) (encode_state s))

unfoldable pub delete_resume_state : Text → Text → Transfer (Unit {0})
delete_resume_state dest_dir file_id = ignore (remove_file (resume_state_path dest_dir file_id))

-- (*os.File).Truncate
abbrev pub resize : ℕ → Bytes → Bytes
resize n content = take n content ++ replicate (n - length content) 0

unfoldable pub truncate : Text → ℤ → Transfer (Unit {0})
truncate path (negsuc n) = throw seek_failed
truncate path (pos n) = do
  syscall seek_failed
  content ← λ w. found seek_failed (lookup path w.files) w
  put_file path (resize n content)

-- The first `n` bytes of the file, which restore the state of the hash.
unfoldable pub rehash_file : Text → ℤ → Transfer Bytes
rehash_file path (negsuc n) = do content ← read_file open_failed path; pure []
rehash_file path (pos n) = do content ← read_file open_failed path; pure (take n content)

unfoldable pub copy_file : Text → Text → Transfer (Unit {0})
copy_file src dst = do content ← read_file save_failed src; write_file dst content

module _ (sha256 : Bytes → Bytes) where
  unfoldable pub deterministic_file_id : Text → ℤ → Text
  deterministic_file_id path size = take 24 (hex_encode (sha256 (path ++ (0 ∷ decimal size))))

-- Twelve bytes of crypto/rand.
unfoldable pub random_file_id : Transfer Text
random_file_id = do
  syscall random_failed
  λ w. done (hex_encode (take 12 w.entropy)) (record w { entropy = drop 12 w.entropy })
