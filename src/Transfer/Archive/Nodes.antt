-- ===== src/Transfer/Archive/Nodes.antt =====
-- internal/transfer/p2p.go: what a directory's walk finds, and what is extracted of it.
use goxfer.Base.{◌≡◌, ◌≢◌, List, [], ◌∷◌, Option, none, some, Bytes, Text, length, pos}
use goxfer.Base.Dict.{Dict, lookup}
use goxfer.Paths.{join_elements}
use goxfer.Paths.Clean.{AllProper}
use goxfer.Remote.Walk.{Item, directory, file, rel, spelled}
use goxfer.Transfer.Extract.{EntryType, TarItem, entry}
use goxfer.Transfer.Archive.Names.{place}

-- A directory's entry: its elements below the directory, and the content if it is a file.
abbrev pub Node : Type 0
Node = List Text × Option Bytes

-- What the walk finds in a source, entry by entry: paths below it, and files with their sizes.
pub data AllListed (src : Text) (files : Dict Bytes) : List Item → List Node → Type 0 where
  all_listed : AllListed src files [] []
  directory_listed :
      (path : Text) (es : List Text) (items : List Item) (nodes : List Node)
      → rel src path ≡ some (spelled es)
      → AllProper es
      → AllListed src files items nodes
      → AllListed src files (directory path ∷ items) ((es, none) ∷ nodes)
  file_listed :
      (path : Text) (es : List Text) (content : Bytes) (items : List Item) (nodes : List Node)
      → rel src path ≡ some (spelled es)
      → AllProper es
      → lookup path files ≡ some content
      → AllListed src files items nodes
      → AllListed src files (file path (pos (length content)) ∷ items) ((es, some content) ∷ nodes)

abbrev pub AllProperNodes : List Node → Type 0
AllProperNodes [] = Unit {0}
AllProperNodes ((es, content) ∷ nodes) = AllProper es × AllProperNodes nodes

pub AllListed-AllProperNodes :
    (src : Text) (files : Dict Bytes) (items : List Item) (nodes : List Node)
    → AllListed src files items nodes
    → AllProperNodes nodes
AllListed-AllProperNodes src files items nodes all_listed = tt
AllListed-AllProperNodes src files items nodes (directory_listed path es is ns r p h) =
    (p, AllListed-AllProperNodes src files is ns h)
AllListed-AllProperNodes src files items nodes (file_listed path es content is ns r p there h) =
    (p, AllListed-AllProperNodes src files is ns h)

-- No file among the nodes has these elements.
abbrev pub NoFileAt : List Text → List Node → Type 0
NoFileAt es [] = Unit {0}
NoFileAt es ((fs, none) ∷ nodes) = NoFileAt es nodes
NoFileAt es ((fs, some content) ∷ nodes) = (fs ≢ es) × NoFileAt es nodes

-- Each file is listed once.
abbrev pub Once : List Node → Type 0
Once [] = Unit {0}
Once ((es, none) ∷ nodes) = Once nodes
Once ((es, some content) ∷ nodes) = NoFileAt es nodes × Once nodes

-- The files of a directory called `b` stand in the destination with their contents.
abbrev pub AllThere : (d : Text) (ds : List Text) (b : Text) → List Node → Dict Bytes → Type 0
AllThere d ds b [] files = Unit {0}
AllThere d ds b ((es, none) ∷ nodes) files = AllThere d ds b nodes files
AllThere d ds b ((es, some content) ∷ nodes) files =
    (lookup (place d ds b es) files ≡ some content) × AllThere d ds b nodes files

abbrev pub item_of : Text → Node → TarItem
item_of b (es, none) =
    entry (record { name = join_elements (b ∷ es); type_flag = EntryType.directory; body = [] })
item_of b (es, some content) =
    entry (record { name = join_elements (b ∷ es); type_flag = EntryType.regular; body = content })
