-- ===== src/Paths/Clean.antt =====
-- path/filepath: what a cleaned path looks like.
use goxfer.Base.{
  ℕ, ◌≡◌, refl, sym, ap, ◌∙◌, subst, ◌≢◌, Bool, true, false, ◌||◌, List, [], ◌∷◌, ◌++◌, Text,
  text_eq, text_eq_iff, is_empty, not, ◌&&◌, ◌==◌, arith, Bool-cases, inl, inr,
}
use goxfer.Paths.{
  slash, cons_first, dot, dot_dot, push, pop, clean_onto, reverse_onto, clean_elements, elements,
  join_elements, is_abs, join, spell,
}

-- An element that names something directly below the directory that it stands in.
abbrev pub no_slash : Text → Bool
no_slash [] = true
no_slash (c ∷ t) = not (c == slash) && no_slash t

abbrev pub IsProper : Text → Type 0
IsProper t = (t ≢ []) × (t ≢ dot) × (t ≢ dot_dot) × (no_slash t ≡ true)

abbrev pub AllProper : List Text → Type 0
AllProper [] = Unit
AllProper (t ∷ ts) = IsProper t × AllProper ts

abbrev pub AllNoSlash : List Text → Type 0
AllNoSlash [] = Unit
AllNoSlash (t ∷ ts) = (no_slash t ≡ true) × AllNoSlash ts

cons_first-AllNoSlash :
    (c : ℕ) (ts : List Text) → (c == slash) ≡ false → AllNoSlash ts → AllNoSlash (cons_first c ts)
cons_first-AllNoSlash c [] e h = ground arith
cons_first-AllNoSlash c (t ∷ ts) e (p, h) = (ground arith, h)

elements-AllNoSlash : (s : Text) → AllNoSlash (elements s)
unfolding elements
elements-AllNoSlash [] = (refl, tt)
elements-AllNoSlash (c ∷ s) = elim (Bool-cases (c == slash)) [
  | inl e ↦ rw e (refl, elements-AllNoSlash s)
  | inr e ↦ rw e (cons_first-AllNoSlash c (elements s) e (elements-AllNoSlash s))
]

pop-AllProper : (stack : List Text) → AllProper stack → AllProper (pop true stack)
pop-AllProper [] h = h
pop-AllProper (t ∷ stack) (p, h) = elim (Bool-cases (text_eq t dot_dot)) [
  | inl up ↦ absurd (p.2 ((text_eq_iff t dot_dot).0 up))
  | inr named ↦ rw named h
]

IsProper-of_tests :
    (t : Text)
    → (is_empty t || text_eq t dot) ≡ false
    → text_eq t dot_dot ≡ false
    → no_slash t ≡ true
    → IsProper t
IsProper-of_tests [] keep named free = cc
IsProper-of_tests (c ∷ t) keep named free = (
  λ e. cc,
  λ e. cc ((text_eq_iff (c ∷ t) dot).1 e),
  λ e. cc ((text_eq_iff (c ∷ t) dot_dot).1 e),
  free,
)

push-AllProper :
    (t : Text) (stack : List Text)
    → no_slash t ≡ true
    → AllProper stack
    → AllProper (push true t stack)
unfolding push
push-AllProper t stack free h = elim (Bool-cases (is_empty t || text_eq t dot)) [
  | inl skip ↦ rw skip h
  | inr keep ↦ elim (Bool-cases (text_eq t dot_dot)) [
    | inl up ↦ rw (keep, up) (pop-AllProper stack h)
    | inr named ↦ rw (keep, named) (IsProper-of_tests t keep named free, h)
  ]
]

clean_onto-AllProper :
    (ts stack : List Text) → AllNoSlash ts → AllProper stack → AllProper (clean_onto true stack ts)
unfolding clean_onto
clean_onto-AllProper [] stack _ h = h
clean_onto-AllProper (t ∷ ts) stack (free, more) h =
    clean_onto-AllProper ts (push true t stack) more (push-AllProper t stack free h)

reverse_onto-AllProper :
    (ts acc : List Text) → AllProper ts → AllProper acc → AllProper (reverse_onto ts acc)
reverse_onto-AllProper [] acc h k = k
reverse_onto-AllProper (t ∷ ts) acc (p, h) k = reverse_onto-AllProper ts (t ∷ acc) h (p, k)

-- A cleaned absolute path never leads upwards.
pub clean_elements-AllProper : (s : Text) → is_abs s ≡ true → AllProper (clean_elements s)
unfolding clean_elements
clean_elements-AllProper s h =
    subst (λ r. AllProper (reverse_onto (clean_onto r [] (elements s)) [])) (sym h)
      (reverse_onto-AllProper (clean_onto true [] (elements s)) []
        (clean_onto-AllProper (elements s) [] (elements-AllNoSlash s) tt) tt)

first_ne_nil : (c : ℕ) (ts : List Text) → cons_first c ts ≢ []
first_ne_nil c [] = λ e. cc
first_ne_nil c (t ∷ ts) = λ e. cc

elements-ne-nil : (s : Text) → elements s ≢ []
unfolding elements
elements-ne-nil [] = λ e. cc
elements-ne-nil (c ∷ s) = λ e. first_ne_nil c (elements s) (ground arith)

cons_first-append :
    (c : ℕ) (ts us : List Text) → ts ≢ [] → cons_first c (ts ++ us) ≡ cons_first c ts ++ us
cons_first-append c [] us h = absurd (h refl)
cons_first-append c (t ∷ ts) us h = refl

pub elements-no_slash : (t : Text) → no_slash t ≡ true → elements t ≡ t ∷ []
unfolding elements
elements-no_slash [] h = refl
elements-no_slash (c ∷ t) h = ground (arith, elements-no_slash t)

-- The elements of a path and of its spelling.
pub elements-slash : (a b : Text) → elements (a ++ (slash ∷ b)) ≡ elements a ++ elements b
unfolding elements
elements-slash [] b = refl
elements-slash (c ∷ a) b = elim (Bool-cases (c == slash)) [
  | inl e ↦ rw (e, elements-slash a b)
  | inr e ↦
      rw (e, elements-slash a b) (cons_first-append c (elements a) (elements b) (elements-ne-nil a))
]

pub elements-join_elements :
    (t : Text) (ts : List Text) → AllNoSlash (t ∷ ts) → elements (join_elements (t ∷ ts)) ≡ t ∷ ts
unfolding join_elements
elements-join_elements t [] (free, _) = elements-no_slash t free
elements-join_elements t (u ∷ ts) (free, more) =
    elements-slash t (join_elements (u ∷ ts))
    ∙ rw (elements-no_slash t free, elements-join_elements u ts more)

-- `k` names something below the directory `d`, without ever leading upwards.
abbrev pub IsInside : Text → Text → Type 0
IsInside d k = (rest : Text) × (k ≡ d ++ (slash ∷ rest)) × AllProper (elements rest)

pub AllProper-NoSlash : (ts : List Text) → AllProper ts → AllNoSlash ts
AllProper-NoSlash [] h = tt
AllProper-NoSlash (t ∷ ts) (p, h) = (p.3, AllProper-NoSlash ts h)

AllProper-suffix : (ts us : List Text) → AllProper (ts ++ us) → AllProper us
AllProper-suffix [] us h = h
AllProper-suffix (t ∷ ts) us (_, h) = AllProper-suffix ts us h

join_inside :
    (ts : List Text) (d rest : Text)
    → AllProper ts
    → join_elements ts ≡ d ++ (slash ∷ rest)
    → AllProper (elements rest)
unfolding join_elements
join_inside [] [] rest h e = cc
join_inside [] (c ∷ d) rest h e = cc
join_inside (t ∷ ts) d rest h e =
    let same =
      sym (elements-join_elements t ts (AllProper-NoSlash (t ∷ ts) h))
      ∙ ap elements e
      ∙ elements-slash d rest in
    AllProper-suffix (elements d) (elements rest) (subst AllProper same h)

-- An absolute cleaned path that begins with a directory and a slash lies inside it.
pub spell_inside :
    (ts : List Text) (d rest : Text)
    → AllProper ts
    → spell true ts ≡ d ++ (slash ∷ rest)
    → is_abs d ≡ true
    → AllProper (elements rest)
unfolding is_abs
spell_inside ts [] rest h e a = cc
spell_inside ts (c ∷ d) rest h e a = join_inside ts d rest h (ground arith)

-- Joining to an absolute path gives a cleaned absolute path.
pub join-spell :
    (d t : Text) → is_abs d ≡ true → (ts : List Text) × AllProper ts × (join d t ≡ spell true ts)
unfolding join is_abs
join-spell [] t a = cc
join-spell (c ∷ d) t a = (
  clean_elements path,
  clean_elements-AllProper path a,
  ap (λ r. spell r (clean_elements path)) a,
)
  where
    path : Text
    path = (c ∷ d) ++ (slash ∷ t)
