-- ===== src/Remote/Walk.antt =====
-- filepath.Walk, and the remote path of each entry: internal/transfer/ftps.go and sftp.go.
use goxfer.Base.{
  Bool, false, ◌&&◌, not, List, [], ◌∷◌, Option, none, some, Text, ℤ, text_eq, if◌then◌else◌, Proc,
  pure, ◌>>◌,
}
use goxfer.Paths.{dot, dot_dot, is_abs, clean_elements, join_elements, join, base}

-- What Walk calls its function with: a path and what os.Lstat said of it, or an error. `special`:
-- a symbolic link, which Walk does not follow, or a device, with the size of itself.
pub data Item : Type 0 where
  directory : Text → Item
  file special : Text → ℤ → Item
  unreadable : Text → Item

-- What is left of two paths behind their common elements.
abbrev pub strip_common : List Text → List Text → List Text × List Text
strip_common [] ts = ([], ts)
strip_common (b ∷ bs) [] = (b ∷ bs, [])
strip_common (b ∷ bs) (t ∷ ts) =
    let rest = strip_common bs ts in if text_eq b t then rest else (b ∷ bs, t ∷ ts)

abbrev pub climb : List Text → List Text → List Text
climb [] ts = ts
climb (b ∷ bs) ts = dot_dot ∷ climb bs ts

abbrev starts_up : List Text → Bool
starts_up [] = false
starts_up (b ∷ bs) = text_eq b dot_dot

abbrev pub spelled : List Text → Text
spelled [] = dot
spelled (t ∷ ts) = join_elements (t ∷ ts)

abbrev rel_of : List Text × List Text → Option Text
rel_of (bs, ts) = if starts_up bs then none else some (spelled (climb bs ts))

-- filepath.Rel
unfoldable pub rel : Text → Text → Option Text
rel from to =
    if not (is_abs from) && is_abs to
    then none
    else if is_abs from && not (is_abs to)
    then none
    else rel_of (strip_common (clean_elements from) (clean_elements to))

-- Where an entry goes: the source itself under its own name, the others by their place below it.
unfoldable pub remote_path : Text → Text → Text → Text
remote_path src_path dest_dir relative =
    if text_eq relative dot then join dest_dir (base src_path) else join dest_dir relative

-- The walk ends at the first error of its function.
module _ {S : Type 0} {E : Type 0} where
  unfoldable pub walk : (Item → Proc S E (Unit {0})) → List Item → Proc S E (Unit {0})
  walk visit [] = pure tt
  walk visit (i ∷ items) = do visit i; walk visit items
