-- ===== src/Transfer/Archive/Dot.antt =====
-- internal/transfer/p2p.go: the archive of the working directory itself is not extracted.
use goxfer.Base.{
  ℕ, ◌≡◌, refl, sym, ap, ◌∙◌, arith, true, false, List, [], ◌∷◌, ◌++◌, Option, none, some, Text,
  codes, has_prefix, if◌then◌else◌, Outcome, done, fail, >>=-fail, >>=-eq-done, ok, err, lift,
  text_eq,
}
use goxfer.Paths.{
  slash, dot, base, join, clean, clean_elements, clean_onto, push, elements, join_elements, is_abs,
  reverse_onto, spell,
}
use goxfer.Paths.Clean.{AllProper, AllProper-NoSlash, elements-slash, elements-join_elements}
use goxfer.Remote.Walk.{Item, directory, rel}
use goxfer.Transfer.World.{World, TransferError, syscall, found, archive_failed, escaping_entry}
use goxfer.Transfer.Send.{entry_name}
use goxfer.Transfer.Extract.{
  Entry, EntryType, TarItem, entry, entry_target, extract_entry, extract_items,
}
use goxfer.Transfer.Archive.{archive_header, archive_items}
use goxfer.Transfer.Archive.Names.{destination, join-clean, clean_onto-proper, reverse_onto_twice}

not_longer : (s : Text) (c : ℕ) → has_prefix s (s ++ (c ∷ [])) ≡ false
unfolding has_prefix
not_longer [] c = refl
not_longer (x ∷ s) c = ground (arith, not_longer s c)

-- Pushing a dot changes nothing.
ends_in_dot :
    (ts stack : List Text) → clean_onto true stack (ts ++ (dot ∷ [])) ≡ clean_onto true stack ts
unfolding clean_onto push text_eq
ends_in_dot [] stack = refl
ends_in_dot (t ∷ ts) stack = ends_in_dot ts (push true t stack)

join-dot :
    (d : Text) (ds : List Text)
    → AllProper (d ∷ ds)
    → join (destination d ds) dot ≡ destination d ds
unfolding clean clean_elements elements is_abs
join-dot d ds h =
    let parts =
      elements-slash (join_elements (d ∷ ds)) dot
      ∙ ap (λ ts. ts ++ (dot ∷ [])) (elements-join_elements d ds (AllProper-NoSlash (d ∷ ds) h)) in
    join-clean (destination d ds) dot (λ e. cc e)
    ∙ ap (λ ts. spell true (reverse_onto (clean_onto true [] ([] ∷ ts)) [])) parts
    ∙ ap (λ us. spell true (reverse_onto us []))
        (ends_in_dot ([] ∷ d ∷ ds) [] ∙ clean_onto-proper true [] (d ∷ ds) h)
    ∙ ap (spell true) (reverse_onto_twice (d ∷ ds) [])

dot_escapes :
    (d : Text) (ds : List Text)
    → AllProper (d ∷ ds)
    → entry_target (destination d ds) dot ≡ err escaping_entry
unfolding entry_target clean clean_elements clean_onto push elements is_abs text_eq has_prefix
dot_escapes d ds h =
    ap (λ t. if has_prefix t (destination d ds ++ codes "/") then ok t else err escaping_entry)
      (join-dot d ds h)
    ∙ ap (λ b. if b then ok (destination d ds) else err escaping_entry)
        (not_longer (destination d ds) slash)

found-eq-done :
    {A : Type 0} (e : TransferError) (o : Option A) (w t : World) (a : A)
    → found e o w ≡ done a t
    → o ≡ some a
found-eq-done e none w t a h = cc h
found-eq-done e (some b) w t a h = cc h

dot_name : (src_path : Text) → base src_path ≡ dot → entry_name src_path dot ≡ dot
unfolding entry_name join clean clean_elements clean_onto push elements is_abs text_eq join_elements
dot_name src_path h = ap (λ b. join b dot) h

header_named_dot :
    (src_path path : Text) (kind : EntryType) (w t : World) (e : Entry)
    → base src_path ≡ dot
    → rel src_path path ≡ some dot
    → archive_header src_path path kind w ≡ done e t
    → e.name ≡ dot
unfolding archive_header
header_named_dot src_path path kind w t e b r h =
    let (relative, w1, e1, h1) =
      >>=-eq-done (λ v. found archive_failed (rel src_path path) v) _ w h in
    let (_, w2, e2, h2) = >>=-eq-done (syscall archive_failed) _ w1 h1 in
    let same : relative ≡ dot =
      cc (found-eq-done archive_failed (rel src_path path) w w1 relative e1, r) in
    let named : entry_name src_path relative ≡ e.name = ap name_of h2 in
    sym named ∙ ap (entry_name src_path) same ∙ dot_name src_path b
  where
    name_of : Outcome World TransferError Entry → Text
    name_of (done f v) = f.name
    name_of (fail x v) = []

extract_dot :
    (d : Text) (ds : List Text) (e : Entry) (rest : List TarItem) (w : World)
    → AllProper (d ∷ ds)
    → e.name ≡ dot
    → extract_items (destination d ds) (entry e ∷ rest) w ≡ fail escaping_entry w
unfolding extract_items extract_entry
extract_dot d ds e rest w h n = >>=-fail (extract_entry (destination d ds) e) _ w (
    >>=-fail (lift (entry_target (destination d ds) e.name)) _ w
      (ap (λ r. lift r w) (ap (entry_target (destination d ds)) n ∙ dot_escapes d ds h)))

-- An archive of a source whose base name is a dot, such as the working directory, is refused at
-- its first entry, whatever is in it: the entry's place is the destination itself, which the
-- check for escaping entries does not let pass; for a destination that is absolute, cleaned and
-- not the root.
pub archive_items-extract_items-dot :
    (src_path path d : Text) (ds : List Text) (items : List Item) (entries : List TarItem)
    (ws t wr : World)
    → base src_path ≡ dot
    → rel src_path path ≡ some dot
    → AllProper (d ∷ ds)
    → archive_items src_path (directory path ∷ items) ws ≡ done entries t
    → extract_items (destination d ds) entries wr ≡ fail escaping_entry wr
unfolding archive_items
archive_items-extract_items-dot src_path path d ds items entries ws t wr b r h archived =
    let (header, w1, e1, h1) =
      >>=-eq-done (archive_header src_path path EntryType.directory) _ ws archived in
    let (more, w2, e2, h2) = >>=-eq-done (archive_items src_path items) _ w1 h1 in
    let first : entry header ∷ more ≡ entries = cc h2 in
    ap (λ es. extract_items (destination d ds) es wr) (sym first)
    ∙ extract_dot d ds header more wr h
        (header_named_dot src_path path EntryType.directory ws w1 header b r e1)
