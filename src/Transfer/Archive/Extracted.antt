-- ===== src/Transfer/Archive/Extracted.antt =====
-- internal/transfer/p2p.go: extracting the items of a directory's archive.
use goxfer.Base.{
  ◌≡◌, ◌≢◌, refl, ap, ◌∙◌, false, List, [], ◌∷◌, map, none, some, Bytes, Text, has_prefix,
  if◌then◌else◌, text_eq_self, text_eq_ne, done, >>=-done, lift,
}
use goxfer.Base.Dict.{Dict, lookup, insert, lookup-insert}
use goxfer.Paths.{dot_dot, dir, join_elements}
use goxfer.Paths.Clean.{IsProper, AllProper}
use goxfer.Transfer.World.{World, syscall, mkdir_all, open_failed, copy_failed, make_dir_failed}
use goxfer.Transfer.Frame.{NoFaults, syscall-done}
use goxfer.Transfer.Extract.{
  EntryType, entry_target, extract_as, write_entry, extract_entry, extract_items,
}
use goxfer.Transfer.Archive.Names.{destination, place, place_injective, entry_target-place}
use goxfer.Transfer.Archive.Nodes.{Node, AllProperNodes, NoFileAt, Once, AllThere, item_of}

-- A file that no later entry writes.
abbrev pub Off : (d : Text) (ds : List Text) (b : Text) → Text → List Node → Type 0
Off d ds b k [] = Unit {0}
Off d ds b k ((es, none) ∷ nodes) = Off d ds b k nodes
Off d ds b k ((es, some content) ∷ nodes) = (place d ds b es ≢ k) × Off d ds b k nodes

module _ (d : Text) (ds : List Text) (b : Text) (hd : AllProper (d ∷ ds)) (hb : IsProper b)
    (plain : has_prefix b dot_dot ≡ false) where
  NoFileAt-Off :
      (es : List Text) (nodes : List Node)
      → AllProper es
      → AllProperNodes nodes
      → NoFileAt es nodes
      → Off d ds b (place d ds b es) nodes
  NoFileAt-Off es [] p h n = tt
  NoFileAt-Off es ((fs, none) ∷ nodes) p (q, h) n = NoFileAt-Off es nodes p h n
  NoFileAt-Off es ((fs, some content) ∷ nodes) p (q, h) (ne, n) =
      ((λ e. ne (place_injective d ds b fs es (hb, q) (hb, p) e)), NoFileAt-Off es nodes p h n)

  mkdir_all_done :
      (path : Text) (w : World)
      → NoFaults w
      → mkdir_all path w ≡ done tt (record w { dirs = path ∷ w.dirs })
  unfolding mkdir_all
  mkdir_all_done path w q =
      >>=-done (syscall make_dir_failed) _ w (syscall-done make_dir_failed w q)

  abbrev written : Text → Bytes → World → World
  written target body w = record w {
    dirs = dir target ∷ w.dirs;
    files = insert target body (insert target [] w.files);
  }

  write_entry_done :
      (target : Text) (body : Bytes) (w : World)
      → NoFaults w
      → write_entry target body w ≡ done tt (written target body w)
  unfolding write_entry
  write_entry_done target body w q =
      let w1 = record w { dirs = dir target ∷ w.dirs } in
      let w2 = record w1 { files = insert target [] w.files } in
      >>=-done (mkdir_all (dir target)) _ w (mkdir_all_done (dir target) w q)
      ∙ >>=-done (syscall open_failed) _ w1 (syscall-done open_failed w1 q)
      ∙ >>=-done (syscall copy_failed) _ w2 (syscall-done copy_failed w2 q)

  extract_entry_done :
      (es : List Text) (kind : EntryType) (body : Bytes) (w t : World)
      → AllProper es
      → extract_as kind (place d ds b es) body w ≡ done tt t
      → extract_entry
          (destination d ds)
          (record { name = join_elements (b ∷ es); type_flag = kind; body = body })
          w
        ≡ done tt t
  unfolding extract_entry
  extract_entry_done es kind body w t p h =
      >>=-done (lift (entry_target (destination d ds) (join_elements (b ∷ es)))) _ w
        (ap (λ r. lift r w) (entry_target-place d ds b es hd (hb, p) plain))
      ∙ h

  written_there :
      (target : Text) (body : Bytes) (files : Dict Bytes)
      → lookup target (insert target body files) ≡ some body
  written_there target body files =
      lookup-insert target target body files
      ∙ ap (λ r. if r then some body else lookup target files) (text_eq_self target)

  written_elsewhere :
      (target k : Text) (body : Bytes) (files : Dict Bytes)
      → target ≢ k
      → lookup k (insert target body files) ≡ lookup k files
  written_elsewhere target k body files ne =
      lookup-insert target k body files
      ∙ ap (λ r. if r then some body else lookup k files) (text_eq_ne target k ne)

  -- What the extraction comes to.
  abbrev pub Extracted : List Node → World → Type 0
  Extracted nodes w =
      (t : World) × (extract_items (destination d ds) (map (item_of b) nodes) w ≡ done tt t)
      × AllThere d ds b nodes t.files
      × ((k : Text) → Off d ds b k nodes → lookup k t.files ≡ lookup k w.files)

  pub extract_items_done :
      (nodes : List Node) (w : World)
      → NoFaults w
      → AllProperNodes nodes
      → Once nodes
      → Extracted nodes w
  unfolding extract_items
  extract_items_done [] w q p o = (w, refl, tt, λ k off. refl)
  extract_items_done ((es, none) ∷ nodes) w q (p, h) o =
      let w1 = record w { dirs = place d ds b es ∷ w.dirs } in
      let (t, e, there, kept) = extract_items_done nodes w1 q h o in
      (
        t,
        >>=-done (extract_entry (destination d ds) _) _ w (
              extract_entry_done es EntryType.directory [] w w1 p
                (mkdir_all_done (place d ds b es) w q))
            ∙ e,
        there,
        kept,
      )
  extract_items_done ((es, some content) ∷ nodes) w q (p, h) (once, o) =
      let target = place d ds b es in
      let w1 = written target content w in
      let (t, e, there, kept) = extract_items_done nodes w1 q h o in
      (
        t,
        >>=-done (extract_entry (destination d ds) _) _ w (
              extract_entry_done es EntryType.regular content w w1 p
                (write_entry_done target content w q))
            ∙ e,
        (
          kept target (NoFileAt-Off es nodes p h once)
              ∙ written_there target content (insert target [] w.files),
          there,
        ),
        λ k off.
            kept k off.1
            ∙ written_elsewhere target k content (insert target [] w.files) off.0
            ∙ written_elsewhere target k [] w.files off.0,
      )
