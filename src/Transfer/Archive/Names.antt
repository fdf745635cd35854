-- ===== src/Transfer/Archive/Names.antt =====
-- internal/transfer/p2p.go: where the entries of a directory's archive go when they are extracted.
use goxfer.Base.{
  ◌≡◌, ◌≢◌, refl, sym, ap, ◌∙◌, arith, Bool, true, false, List, [], ◌∷◌, ◌++◌, append-nil,
  append_assoc, Text, codes, text_eq, drop, has_prefix, has_prefix-append, text_eq_ne, ok,
}
use goxfer.Paths.{
  slash, dot, dot_dot, is_abs, elements, join_elements, clean, clean_elements, clean_onto, push,
  reverse_onto, join, spell, base,
}
use goxfer.Paths.Clean.{
  IsProper, AllProper, AllProper-NoSlash, elements-slash, elements-no_slash, elements-join_elements,
}
use goxfer.Remote.Walk.{spelled}
use goxfer.Transfer.Send.{entry_name}
use goxfer.Transfer.Extract.{entry_target}

pub push-proper :
    (rooted : Bool) (t : Text) (stack : List Text) → IsProper t → push rooted t stack ≡ t ∷ stack
unfolding push
push-proper rooted [] stack p = absurd (p.0 refl)
push-proper rooted (c ∷ t) stack p = rw (text_eq_ne (c ∷ t) dot p.1, text_eq_ne (c ∷ t) dot_dot p.2)

pub clean_onto-proper :
    (rooted : Bool) (stack ts : List Text)
    → AllProper ts
    → clean_onto rooted stack ts ≡ reverse_onto ts stack
unfolding clean_onto
clean_onto-proper rooted stack [] h = refl
clean_onto-proper rooted stack (t ∷ ts) (p, h) =
    ap (λ s. clean_onto rooted s ts) (push-proper rooted t stack p)
    ∙ clean_onto-proper rooted (t ∷ stack) ts h

pub reverse_onto_twice :
    (ts acc : List Text) → reverse_onto (reverse_onto ts acc) [] ≡ reverse_onto acc ts
reverse_onto_twice [] acc = refl
reverse_onto_twice (t ∷ ts) acc = reverse_onto_twice ts (t ∷ acc)

-- A path of proper elements is clean.
clean_relative :
    (s : Text) (t : Text) (ts : List Text)
    → is_abs s ≡ false
    → elements s ≡ t ∷ ts
    → AllProper (t ∷ ts)
    → clean s ≡ join_elements (t ∷ ts)
unfolding clean clean_elements
clean_relative s t ts a e h =
    ap (λ r. spell r (reverse_onto (clean_onto r [] (elements s)) [])) a
    ∙ ap (λ us. spell false (reverse_onto us []))
        (ap (clean_onto false []) e ∙ clean_onto-proper false [] (t ∷ ts) h)
    ∙ ap (spell false) (reverse_onto_twice (t ∷ ts) [])

pub clean_absolute :
    (s : Text) (ts : List Text)
    → is_abs s ≡ true
    → elements s ≡ [] ∷ ts
    → AllProper ts
    → clean s ≡ slash ∷ join_elements ts
unfolding clean clean_elements clean_onto push
clean_absolute s ts a e h =
    ap (λ r. spell r (reverse_onto (clean_onto r [] (elements s)) [])) a
    ∙ ap (λ us. spell true (reverse_onto us []))
        (ap (clean_onto true []) e ∙ clean_onto-proper true [] ts h)
    ∙ ap (spell true) (reverse_onto_twice ts [])

not_abs : (b s : Text) → IsProper b → is_abs (b ++ s) ≡ false
unfolding is_abs
not_abs [] s p = absurd (p.0 refl)
not_abs (c ∷ b) s p = ground (arith, p.3)

pub join-clean : (b s : Text) → b ≢ [] → join b s ≡ clean (b ++ (slash ∷ s))
unfolding join
join-clean [] s h = absurd (h refl)
join-clean (c ∷ b) s h = refl

-- The directory itself is named by its base name alone.
clean-dot : (b : Text) → IsProper b → clean (b ++ (slash ∷ dot)) ≡ b
unfolding clean clean_elements clean_onto push elements text_eq join_elements
clean-dot b p =
    let s = b ++ (slash ∷ dot) in
    let parts = elements-slash b dot ∙ ap (λ ts. ts ++ (dot ∷ [])) (elements-no_slash b p.3) in
    ap (λ r. spell r (reverse_onto (clean_onto r [] (elements s)) [])) (not_abs b (slash ∷ dot) p)
    ∙ ap (λ ts. spell false (reverse_onto (clean_onto false [] ts) [])) parts
    ∙ ap (λ ts. spell false (reverse_onto (clean_onto false ts (dot ∷ [])) []))
        (push-proper false b [] p)

pub entry_name_lem :
    (src_path : Text) (es : List Text)
    → IsProper (base src_path)
    → AllProper es
    → entry_name src_path (spelled es) ≡ join_elements (base src_path ∷ es)
unfolding entry_name join_elements
entry_name_lem src_path [] p h = join-clean (base src_path) dot p.0 ∙ clean-dot (base src_path) p
entry_name_lem src_path (e ∷ es) p h =
    let b = base src_path in
    let r = join_elements (e ∷ es) in
    let parts =
      elements-slash b r
      ∙ ap (λ ts. ts ++ elements r) (elements-no_slash b p.3)
      ∙ ap (λ ts. b ∷ ts) (elements-join_elements e es (AllProper-NoSlash (e ∷ es) h)) in
    join-clean b r p.0
    ∙ clean_relative (b ++ (slash ∷ r)) b (e ∷ es) (not_abs b (slash ∷ r) p) parts (p, h)

-- What an entry's name begins with is what the directory's name begins with.
join_elements_first :
    (b : Text) (es : List Text)
    → (s : Text) × (join_elements (b ∷ es) ≡ b ++ s) × (has_prefix s (codes ".") ≡ false)
unfolding join_elements has_prefix
join_elements_first b [] = ([], sym (append-nil b), refl)
join_elements_first b (e ∷ es) = (slash ∷ join_elements (e ∷ es), refl, refl)

starts_plainly :
    (b s : Text)
    → IsProper b
    → has_prefix b dot_dot ≡ false
    → has_prefix s (codes ".") ≡ false
    → has_prefix (b ++ s) dot_dot ≡ false
unfolding has_prefix
starts_plainly [] s p h k = absurd (p.0 refl)
starts_plainly (c ∷ []) s p h k = ground (arith, k)
starts_plainly (c ∷ d ∷ b) s p h k = ground (arith, h)

join_elements-append :
    (d : Text) (ds : List Text) (u : Text) (us : List Text)
    → join_elements (d ∷ ds ++ u ∷ us) ≡ join_elements (d ∷ ds) ++ (slash ∷ join_elements (u ∷ us))
unfolding join_elements
join_elements-append d [] u us = refl
join_elements-append d (e ∷ ds) u us =
    ap (λ s. d ++ (slash ∷ s)) (join_elements-append e ds u us)
    ∙ sym (append_assoc d (slash ∷ join_elements (e ∷ ds)) (slash ∷ join_elements (u ∷ us)))

AllProper-append : (ts us : List Text) → AllProper ts → AllProper us → AllProper (ts ++ us)
AllProper-append [] us h k = k
AllProper-append (t ∷ ts) us (p, h) k = (p, AllProper-append ts us h k)

-- The destination's path, by its elements.
abbrev pub destination : Text → List Text → Text
destination d ds = slash ∷ join_elements (d ∷ ds)

-- Where the entry with these elements goes.
abbrev pub place : Text → List Text → Text → List Text → Text
place d ds b es = destination d ds ++ (slash ∷ join_elements (b ∷ es))

pub entry_target-place :
    (d : Text) (ds : List Text) (b : Text) (es : List Text)
    → AllProper (d ∷ ds)
    → AllProper (b ∷ es)
    → has_prefix b dot_dot ≡ false
    → entry_target (destination d ds) (join_elements (b ∷ es)) ≡ ok (place d ds b es)
unfolding entry_target is_abs elements
entry_target-place d ds b es hd hb plain =
    let name = join_elements (b ∷ es) in
    let (s, split, follows) = join_elements_first b es in
    let relative : is_abs name ≡ false = ap is_abs split ∙ not_abs b s hb.0 in
    let cleaned : clean name ≡ name =
      clean_relative name b es relative
        (elements-join_elements b es (AllProper-NoSlash (b ∷ es) hb)) hb in
    let plainly : has_prefix name dot_dot ≡ false =
      ap (λ t. has_prefix t dot_dot) split ∙ starts_plainly b s hb.0 plain follows in
    let joined : join (destination d ds) name ≡ place d ds b es = joined_place in
    let inside : has_prefix (place d ds b es) (destination d ds ++ codes "/") ≡ true =
      ap (λ t. has_prefix t (destination d ds ++ codes "/"))
        (sym (append_assoc (destination d ds) (codes "/") name))
      ∙ has_prefix-append (destination d ds ++ codes "/") name in
    rw (cleaned, plainly, relative, joined, inside)
  where
    joined_place : join (destination d ds) (join_elements (b ∷ es)) ≡ place d ds b es
    joined_place =
        let name = join_elements (b ∷ es) in
        let body =
          elements-slash (join_elements (d ∷ ds)) name
          ∙ ap (λ ts. ts ++ elements name)
              (elements-join_elements d ds (AllProper-NoSlash (d ∷ ds) hd))
          ∙ ap (λ ts. (d ∷ ds) ++ ts)
              (elements-join_elements b es (AllProper-NoSlash (b ∷ es) hb)) in
        join-clean (destination d ds) name (λ e. cc e)
        ∙ clean_absolute (destination d ds ++ (slash ∷ name)) (d ∷ ds ++ b ∷ es) refl
            (ap (λ ts. [] ∷ ts) body) (AllProper-append (d ∷ ds) (b ∷ es) hd hb)
        ∙ ap (λ t. slash ∷ t) (join_elements-append d ds b es)

append_cancel : (xs ys zs : Text) → xs ++ ys ≡ xs ++ zs → ys ≡ zs
append_cancel [] ys zs h = h
append_cancel (x ∷ xs) ys zs h = append_cancel xs ys zs (ap (drop 1) h)

-- Different entries go to different places.
pub place_injective :
    (d : Text) (ds : List Text) (b : Text) (es fs : List Text)
    → AllProper (b ∷ es)
    → AllProper (b ∷ fs)
    → place d ds b es ≡ place d ds b fs
    → es ≡ fs
place_injective d ds b es fs he hf h =
    let same =
      append_cancel (destination d ds) (slash ∷ join_elements (b ∷ es))
        (slash ∷ join_elements (b ∷ fs)) h in
    let parts =
      sym (elements-join_elements b es (AllProper-NoSlash (b ∷ es) he))
      ∙ ap (λ t. elements (drop 1 t)) same
      ∙ elements-join_elements b fs (AllProper-NoSlash (b ∷ fs) hf) in
    ap (drop 1) parts
