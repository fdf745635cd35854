-- ===== src/Transfer/Archive.antt =====
-- internal/transfer/p2p.go: the goroutine of sendDirectory that walks the source and writes the
-- archive. gzip and tar's bytes are left to `untar` of Transfer.Extract: here are the items.
pub mod Names
pub mod Nodes
pub mod Extracted
pub mod RoundTrip
pub mod Dot
mod Tests
use goxfer.Base.{
  ℕ, Bool, true, false, List, [], ◌∷◌, ◌++◌, Option, none, some, Bytes, Text, ℤ, pos, negsuc, ltb,
  ◌==◌, length, if◌then◌else◌, Outcome, done, fail, pure, throw, ◌>>=◌, ◌>>◌,
}
use goxfer.Remote.Walk.{Item, directory, file, special, unreadable, rel}
use goxfer.Transfer.World.{World, Transfer, syscall, found, read_file, archive_failed}
use goxfer.Transfer.Send.{entry_name}
use goxfer.Transfer.Extract.{Entry, EntryType, TarItem, entry, broken}

-- filepath.Rel, and the header: tar.FileInfoHeader and WriteHeader may fail.
unfoldable pub archive_header : Text → Text → EntryType → Transfer Entry
archive_header src_path path kind = do
  relative ← λ w. found archive_failed (rel src_path path) w
  syscall archive_failed
  pure (record { name = entry_name src_path relative; type_flag = kind; body = [] })

-- How the bytes of a file compare with the size in its header.
pub data Fit : Type 0 where
  fits too_long too_short : Fit

abbrev pub fit : ℤ → ℕ → Fit
fit (pos n) k = if k == n then fits else if ltb n k then too_long else too_short
fit (negsuc n) k = too_long

-- A file that is shorter than its header says makes the next header fail; behind the last entry
-- the end of the archive is missing.
abbrev pub when_short : {A : Type 0} → List A → Transfer (List TarItem)
when_short [] = pure (broken ∷ [])
when_short (i ∷ items) = throw archive_failed

abbrev pub behind : {A : Type 0} → Fit → List A → Transfer (List TarItem) → Transfer (List TarItem)
behind fits items rest = rest
behind too_long items rest = throw archive_failed
behind too_short items rest = when_short items

unfoldable pub archive_items : Text → List Item → Transfer (List TarItem)
archive_items src_path [] = pure []
archive_items src_path (unreadable path ∷ items) = throw archive_failed
archive_items src_path (directory path ∷ items) = do
  header ← archive_header src_path path EntryType.directory
  rest ← archive_items src_path items
  pure (entry header ∷ rest)
archive_items src_path (file path size ∷ items) = do
  header ← archive_header src_path path EntryType.regular
  content ← read_file archive_failed path
  rest ← behind (fit size (length content)) items (archive_items src_path items)
  pure (entry (record header { body = content }) ∷ rest)
-- The header of a link or a device has no size: the walk goes on only if what is read through it
-- is empty.
archive_items src_path (special path size ∷ items) = do
  header ← archive_header src_path path EntryType.special
  content ← read_file archive_failed path
  rest ← behind (fit (pos 0) (length content)) items (archive_items src_path items)
  pure (entry header ∷ rest)
