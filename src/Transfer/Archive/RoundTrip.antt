-- ===== src/Transfer/Archive/RoundTrip.antt =====
-- internal/transfer/p2p.go: a directory that is archived is extracted with the same files.
use goxfer.Base.{
  ℕ, ◌≡◌, refl, ap, ◌∙◌, arith, false, List, [], ◌∷◌, map, some, Text, has_prefix, length, pos,
  done, >>=-done,
}
use goxfer.Paths.{dot_dot, base, join_elements}
use goxfer.Paths.Clean.{IsProper, AllProper}
use goxfer.Remote.Walk.{Item, rel, spelled}
use goxfer.Transfer.World.{World, syscall, found, read_file, archive_failed}
use goxfer.Transfer.Frame.{NoFaults, syscall-done}
use goxfer.Transfer.Steps.{read_file_done}
use goxfer.Transfer.Extract.{EntryType, TarItem, extract_items}
use goxfer.Transfer.Archive.{archive_header, archive_items, fit, fits, behind}
use goxfer.Transfer.Archive.Names.{destination, entry_name_lem}
use goxfer.Transfer.Archive.Nodes.{
  Node, AllListed, all_listed, directory_listed, file_listed, AllListed-AllProperNodes, Once,
  AllThere, item_of,
}
use goxfer.Transfer.Archive.Extracted.{extract_items_done}

module _ (src : Text) (w : World) (proper : IsProper (base src)) (calm : NoFaults w) where
  header_done :
      (path : Text) (es : List Text) (kind : EntryType)
      → rel src path ≡ some (spelled es)
      → AllProper es
      → archive_header src path kind w
        ≡ done (record { name = join_elements (base src ∷ es); type_flag = kind; body = [] }) w
  unfolding archive_header
  header_done path es kind r h =
      >>=-done (λ v. found archive_failed (rel src path) v) _ w
        (ap (λ o. found archive_failed o w) r)
      ∙ >>=-done (syscall archive_failed) _ w (syscall-done archive_failed w calm)
      ∙ ap (λ n. done (record { name = n; type_flag = kind; body = [] }) w)
          (entry_name_lem src es proper h)

  fit_self : (n : ℕ) → fit (pos n) n ≡ fits
  fit_self n = ground arith

  archive_items_done :
      (items : List Item) (nodes : List Node)
      → AllListed src w.files items nodes
      → archive_items src items w ≡ done (map (item_of (base src)) nodes) w
  unfolding archive_items
  archive_items_done items nodes all_listed = refl
  archive_items_done items nodes (directory_listed path es is ns r p h) =
      >>=-done (archive_header src path EntryType.directory) _ w
        (header_done path es EntryType.directory r p)
      ∙ >>=-done (archive_items src is) _ w (archive_items_done is ns h)
  archive_items_done items nodes (file_listed path es content is ns r p there h) =
      let rest = archive_items src is in
      >>=-done (archive_header src path EntryType.regular) _ w
        (header_done path es EntryType.regular r p)
      ∙ >>=-done (read_file archive_failed path) _ w
          (read_file_done archive_failed path content w there calm)
      ∙ >>=-done (behind (fit (pos (length content)) (length content)) is rest) _ w
          (ap (λ f. behind f is rest w) (fit_self (length content)) ∙ archive_items_done is ns h)

-- Where calls succeed, a directory that the sender's walk archives is extracted at the receiver
-- without an error, and then every file of the walk stands below the destination, under the
-- directory's name and its own elements, with its content. The directory's name is an ordinary
-- one that does not begin with two dots, the destination is absolute, cleaned and not the root,
-- each file is listed once, and its size has not changed since the walk.
pub archive_items-extract_items :
    (src d : Text) (ds : List Text) (items : List Item) (nodes : List Node) (ws wr : World)
    → AllListed src ws.files items nodes
    → Once nodes
    → IsProper (base src)
    → has_prefix (base src) dot_dot ≡ false
    → AllProper (d ∷ ds)
    → NoFaults ws
    → NoFaults wr
    → (entries : List TarItem) × (t : World) × (archive_items src items ws ≡ done entries ws)
      × (extract_items (destination d ds) entries wr ≡ done tt t)
      × AllThere d ds (base src) nodes t.files
archive_items-extract_items src d ds items nodes ws wr listed once hb plain hd cs cr =
    let (t, e, there, kept) =
      extract_items_done d ds (base src) hd hb plain nodes wr cr
        (AllListed-AllProperNodes src ws.files items nodes listed) once in
    (
      map (item_of (base src)) nodes,
      t,
      archive_items_done src ws hb cs items nodes listed,
      e,
      there,
    )
