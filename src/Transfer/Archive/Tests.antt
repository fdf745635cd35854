-- ===== src/Transfer/Archive/Tests.antt =====
-- internal/transfer/p2p.go: a small directory, sent and received; and the working directory.
use goxfer.Base.{◌≡◌, refl, List, [], ◌∷◌, none, some, codes, pos, done, fail, text_eq, has_prefix}
use goxfer.Base.Dict.{lookup}
use goxfer.Paths.{
  base, clean, join, elements, is_abs, clean_elements, clean_onto, push, join_elements,
}
use goxfer.Paths.Clean.{IsProper}
use goxfer.Remote.Walk.{Item, directory, file, rel}
use goxfer.Transfer.World.{World, escaping_entry, syscall}
use goxfer.Transfer.Extract.{EntryType, TarItem, entry, extract_items}
use goxfer.Transfer.Send.{entry_name}
use goxfer.Transfer.Archive.{archive_items, archive_header}
use goxfer.Transfer.Archive.Names.{destination}
use goxfer.Transfer.Archive.Nodes.{Node, all_listed, directory_listed, file_listed, AllThere}
use goxfer.Transfer.Archive.RoundTrip.{archive_items-extract_items}
use goxfer.Transfer.Archive.Dot.{archive_items-extract_items-dot}

abbrev calm_world : World
calm_world = record {
  files = (codes "/src/a", 1 ∷ 2 ∷ []) ∷ [];
  dirs = [];
  cwd = codes "/";
  temps = [];
  entropy = [];
  inbox = [];
  outbox = [];
  faults = [];
}

abbrev items : List Item
items = directory (codes "/src") ∷ file (codes "/src/a") (pos 2) ∷ []

abbrev nodes : List Node
nodes = ([], none) ∷ (codes "a" ∷ [], some (1 ∷ 2 ∷ [])) ∷ []

a_IsProper : IsProper (codes "a")
a_IsProper = ((λ e. cc e), (λ e. cc e), (λ e. cc e), refl)

in_IsProper : IsProper (codes "in")
in_IsProper = ((λ e. cc e), (λ e. cc e), (λ e. cc e), refl)

src_IsProper : IsProper (codes "src")
src_IsProper = ((λ e. cc e), (λ e. cc e), (λ e. cc e), refl)

archive_items-extract_items_example :
    (entries : List TarItem) × (t : World) × (archive_items (codes "/src") items calm_world
      ≡ done entries calm_world)
    × (extract_items (destination (codes "in") []) entries calm_world ≡ done tt t)
    × AllThere (codes "in") [] (base (codes "/src")) nodes t.files
unfolding base elements rel is_abs clean_elements clean_onto push text_eq lookup join_elements
    has_prefix
archive_items-extract_items_example =
    archive_items-extract_items (codes "/src") (codes "in") [] items nodes calm_world calm_world
      (directory_listed (codes "/src") [] _ _ refl tt (
        file_listed (codes "/src/a") (codes "a" ∷ []) (1 ∷ 2 ∷ []) _ _ refl (a_IsProper, tt) refl
          all_listed))
      (tt, tt) src_IsProper refl (in_IsProper, tt) refl refl

-- The archive of the working directory, with nothing in it.
abbrev dot_entries : List TarItem
dot_entries = entry (record { name = codes "."; type_flag = EntryType.directory; body = [] }) ∷ []

archive_items-extract_items-dot_example :
    extract_items (destination (codes "in") []) dot_entries calm_world
    ≡ fail escaping_entry calm_world
unfolding base elements rel is_abs clean clean_elements clean_onto push text_eq join join_elements
    archive_items archive_header entry_name syscall
archive_items-extract_items-dot_example =
    archive_items-extract_items-dot (codes ".") (codes ".") (codes "in") [] [] dot_entries
      calm_world calm_world calm_world refl refl (in_IsProper, tt) refl
