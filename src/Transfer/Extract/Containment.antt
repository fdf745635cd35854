-- ===== src/Transfer/Extract/Containment.antt =====
-- internal/transfer/p2p.go: extractTarGz writes below the destination and nowhere else.
use goxfer.Base.{
  ◌≡◌, refl, sym, ◌∙◌, ◌≢◌, subst, after, true, List, [], ◌∷◌, ◌++◌, Option, Bytes, Text,
  has_prefix, has_prefix→append, length, drop, codes, arith, ok, append_assoc,
}
use goxfer.Paths.{slash, is_abs, clean, join, dir}
use goxfer.Paths.Clean.{IsInside, join-spell, spell_inside}
use goxfer.Transfer.World.{
  World, syscall, put_file, mkdir_all, open_failed, copy_failed, bad_archive,
}
use goxfer.Base.Dict.{lookup}
use goxfer.Transfer.Frame.{
  Preserves, FileIs, Preserves-bind, Preserves-lift, Preserves-pure, Preserves-throw,
  syscall-FileIs, put_file-FileIs, mkdir_all-FileIs,
}
use goxfer.Transfer.Extract.{
  EntryType, directory, regular, special, TarItem, entry, broken, entry_target, extract_as,
  write_entry, extract_entry, extract_items,
}

entry_target-eq-ok :
    (d name : Text) {target : Text}
    → entry_target d name ≡ ok target
    → (target ≡ join d (clean name)) × (has_prefix target (d ++ codes "/") ≡ true)
unfolding entry_target
entry_target-eq-ok d name h = ground arith

-- For an absolute destination, the place of an entry that both checks let pass is the
-- destination, a slash, and elements that are neither empty nor dots, whatever the entry's name.
pub entry_target-IsInside :
    (d name target : Text) → is_abs d ≡ true → entry_target d name ≡ ok target → IsInside d target
entry_target-IsInside d name target a h =
    let (joined, prefixed) = entry_target-eq-ok d name h in
    let (ts, proper, spelled) = join-spell d (clean name) a in
    let rest = drop (length (d ++ codes "/")) target in
    let split : target ≡ d ++ (slash ∷ rest) =
      has_prefix→append target (d ++ codes "/") prefixed ∙ append_assoc d (codes "/") rest in
    (rest, split, spell_inside ts d rest proper (sym spelled ∙ sym joined ∙ split) a)

module _ (d : Text) (a : is_abs d ≡ true) (k : Text) (out : ¬ IsInside d k) (v : Option Bytes) where
  ne_target : (target : Text) → IsInside d target → target ≢ k
  ne_target target inside e = out (subst (IsInside d) e inside)

  write_entry-FileIs :
      (target : Text) (body : Bytes)
      → IsInside d target
      → Preserves (FileIs k v) (write_entry target body)
  unfolding write_entry
  write_entry-FileIs target body inside =
      Preserves-bind (FileIs k v) (mkdir_all (dir target)) _ (mkdir_all-FileIs k v (dir target))
        λ _.
          Preserves-bind (FileIs k v) (syscall open_failed) _ (syscall-FileIs k v open_failed) λ _.
            Preserves-bind (FileIs k v) (put_file target []) _
              (put_file-FileIs k v target [] (ne_target target inside))
              λ _.
                Preserves-bind (FileIs k v) (syscall copy_failed) _ (syscall-FileIs k v copy_failed)
                  λ _. put_file-FileIs k v target body (ne_target target inside)

  extract_as-FileIs :
      (kind : EntryType) (target : Text) (body : Bytes)
      → IsInside d target
      → Preserves (FileIs k v) (extract_as kind target body)
  extract_as-FileIs directory target body inside = mkdir_all-FileIs k v target
  extract_as-FileIs regular target body inside = write_entry-FileIs target body inside
  extract_as-FileIs special target body inside = Preserves-pure (FileIs k v) tt

  extract_items-FileIs : (items : List TarItem) → Preserves (FileIs k v) (extract_items d items)
  unfolding extract_items extract_entry
  extract_items-FileIs [] = Preserves-pure (FileIs k v) tt
  extract_items-FileIs (broken ∷ items) = Preserves-throw (FileIs k v) bad_archive
  extract_items-FileIs (entry e ∷ items) =
      Preserves-bind (FileIs k v) (extract_entry d e) _
        (Preserves-lift (FileIs k v) (entry_target d e.name) _ λ target h.
          extract_as-FileIs e.type_flag target e.body (entry_target-IsInside d e.name target a h))
        λ _. extract_items-FileIs items

-- For an absolute destination, whatever the archive holds and wherever the extraction stops,
-- every file that is not inside the destination is what it was.
pub extract_items_contained :
    (d : Text) (items : List TarItem) (w : World) (k : Text)
    → is_abs d ≡ true
    → ¬ IsInside d k
    → lookup k (after (extract_items d items w)).files ≡ lookup k w.files
extract_items_contained d items w k a out =
    (extract_items-FileIs d a k out (lookup k w.files) items).kept w refl
