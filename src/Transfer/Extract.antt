-- ===== src/Transfer/Extract.antt =====
-- internal/transfer/p2p.go: extractTarGz.
-- gzip and tar are the parameter `untar`: what reading an archive yields, entry by entry.
pub mod Containment
use goxfer.Base.{
  ℕ, Bool, true, false, ◌||◌, List, [], ◌∷◌, ◌++◌, Option, none, some, Bytes, Text, has_prefix,
  if◌then◌else◌, Proc, Outcome, done, fail, pure, throw, ◌>>=◌, ◌>>◌, Result, ok, err, codes, lift,
}
use goxfer.Paths.{slash, dot_dot, is_abs, clean, join, dir}
use goxfer.Transfer.World.{
  World, Transfer, TransferError, syscall, read_file, put_file, mkdir_all, found, open_failed,
  abs_failed, bad_archive, unsafe_entry, escaping_entry, copy_failed,
}

-- A tar header's type: links, devices and the rest are passed over.
pub data EntryType : Type 0 where
  directory regular special : EntryType

pub record Entry : Type 0 where
  pub name : Text
  pub type_flag : EntryType
  pub body : Bytes

-- The next item of a tar stream: an entry, or an error that ends it.
pub data TarItem : Type 0 where
  entry : Entry → TarItem
  broken : TarItem

-- filepath.Abs
unfoldable pub abs : Text → Transfer Text
abs path =
    if is_abs path
    then pure (clean path)
    else (do syscall abs_failed; λ w. done (join w.cwd path) w)

-- Where an entry goes, if the two checks let it pass.
unfoldable pub entry_target : Text → Text → Result TransferError Text
entry_target abs_dest name =
    let relative = clean name in
    let target = join abs_dest relative in
    if has_prefix relative dot_dot || is_abs relative
    then err unsafe_entry
    else if has_prefix target (abs_dest ++ codes "/")
    then ok target
    else err escaping_entry

-- os.OpenFile with O_TRUNC, and io.Copy.
unfoldable pub write_entry : Text → Bytes → Transfer (Unit {0})
write_entry target body = do
  mkdir_all (dir target)
  syscall open_failed
  put_file target []
  syscall copy_failed
  put_file target body

-- The `switch` on the entry's type.
abbrev pub extract_as : EntryType → Text → Bytes → Transfer (Unit {0})
extract_as directory target body = mkdir_all target
extract_as regular target body = write_entry target body
extract_as special target body = pure tt

unfoldable pub extract_entry : Text → Entry → Transfer (Unit {0})
extract_entry abs_dest e = do
  target ← lift (entry_target abs_dest e.name)
  extract_as e.type_flag target e.body

unfoldable pub extract_items : Text → List TarItem → Transfer (Unit {0})
extract_items abs_dest [] = pure tt
extract_items abs_dest (broken ∷ items) = throw bad_archive
extract_items abs_dest (entry e ∷ items) = do extract_entry abs_dest e; extract_items abs_dest items

module _ (untar : Bytes → Option (List TarItem)) where
  unfoldable pub extract_tar_gz : Text → Text → Transfer (Unit {0})
  extract_tar_gz src_path dest_dir = do
    content ← read_file open_failed src_path
    items ← λ w. found bad_archive (untar content) w
    abs_dest ← abs dest_dir
    extract_items abs_dest items
