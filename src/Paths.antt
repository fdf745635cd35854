-- ===== src/Paths.antt =====
-- path/filepath on Unix, as far as the program uses it. Paths are worked on by their elements.
pub mod Clean
use goxfer.Base.{
  ℕ, Bool, true, false, not, ◌&&◌, ◌||◌, List, [], ◌∷◌, ◌++◌, Text, codes, text_eq, is_empty, ◌==◌,
  if◌then◌else◌,
}

abbrev pub slash : ℕ
slash = b'/'

abbrev pub dot : Text
dot = codes "."

abbrev pub dot_dot : Text
dot_dot = codes ".."

abbrev pub cons_first : ℕ → List Text → List Text
cons_first c [] = (c ∷ []) ∷ []
cons_first c (t ∷ ts) = (c ∷ t) ∷ ts

-- strings.Split(s, "/"): the empty text has one empty element.
unfoldable pub elements : Text → List Text
elements [] = [] ∷ []
elements (c ∷ s) = let rest = elements s in if c == slash then [] ∷ rest else cons_first c rest

-- strings.Join(ts, "/")
unfoldable pub join_elements : List Text → Text
join_elements [] = []
join_elements (t ∷ []) = t
join_elements (t ∷ u ∷ ts) = t ++ (slash ∷ join_elements (u ∷ ts))

-- filepath.IsAbs
unfoldable pub is_abs : Text → Bool
is_abs [] = false
is_abs (c ∷ s) = c == slash

-- One element of the path on the stack of those before it, the last one first: `..` takes back
-- the element before it; at the root there is none to take back.
abbrev pub pop : Bool → List Text → List Text
pop rooted [] = if rooted then [] else dot_dot ∷ []
pop rooted (t ∷ stack) = if text_eq t dot_dot then dot_dot ∷ t ∷ stack else stack

unfoldable pub push : Bool → Text → List Text → List Text
push rooted t stack =
    if is_empty t || text_eq t dot
    then stack
    else if text_eq t dot_dot
    then pop rooted stack
    else t ∷ stack

unfoldable pub clean_onto : Bool → List Text → List Text → List Text
clean_onto rooted stack [] = stack
clean_onto rooted stack (t ∷ ts) = clean_onto rooted (push rooted t stack) ts

abbrev pub reverse_onto : List Text → List Text → List Text
reverse_onto [] acc = acc
reverse_onto (t ∷ ts) acc = reverse_onto ts (t ∷ acc)

-- The elements of filepath.Clean(s), first one first.
unfoldable pub clean_elements : Text → List Text
unfolding clean_onto push elements is_abs text_eq
clean_elements s = reverse_onto (clean_onto (is_abs s) [] (elements s)) []

abbrev pub spell : Bool → List Text → Text
spell true ts = slash ∷ join_elements ts
spell false [] = dot
spell false (t ∷ ts) = join_elements (t ∷ ts)

-- filepath.Clean
unfoldable pub clean : Text → Text
unfolding clean_elements join_elements is_abs
clean s = spell (is_abs s) (clean_elements s)

-- filepath.Join of two elements
unfoldable pub join : Text → Text → Text
unfolding clean
join [] [] = []
join [] (c ∷ t) = clean (c ∷ t)
join (c ∷ s) t = clean ((c ∷ s) ++ (slash ∷ t))

-- filepath.Base: the last element that is not empty.
abbrev pub last_nonempty : Text → List Text → Text
last_nonempty found [] = found
last_nonempty found ([] ∷ ts) = last_nonempty found ts
last_nonempty found ((c ∷ t) ∷ ts) = last_nonempty (c ∷ t) ts

unfoldable pub base : Text → Text
unfolding elements
base [] = dot
base (c ∷ s) = last_nonempty (codes "/") (elements (c ∷ s))

-- All but the last of the elements, each with its slash.
abbrev pub all_but_last : List Text → Text
all_but_last [] = []
all_but_last (t ∷ []) = []
all_but_last (t ∷ u ∷ ts) = t ++ (slash ∷ all_but_last (u ∷ ts))

-- filepath.Dir
unfoldable pub dir : Text → Text
unfolding clean elements
dir s = clean (all_but_last (elements s))

-- filepath.Ext: from the last dot of the last element.
abbrev pub ext_of : Text → Text → Text
ext_of found [] = found
ext_of found (c ∷ s) = ext_of (if c == b'.' then c ∷ s else if c == slash then [] else found) s

unfoldable pub ext : Text → Text
ext s = ext_of [] s
