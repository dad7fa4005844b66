-- ===== src/Source/Paths.antt =====
-- safePath of internal/source/extract.go, with strings.Split, filepath.Clean and filepath.Join of the
-- standard library on a Unix, written out.
pub mod Elements
pub mod Lands
use deployer.Base.{
  Text, List, Bool, Option, some, none, true, false, [], ◌∷◌, ◌++◌, is_nil, any, if◌then◌else◌, not,
  ◌&&◌, ◌||◌, ◌==◌, text_eq, codes, ℕ,
}

-- One more byte in front of the parts.
abbrev pub glue : ℕ → List Text → List Text
glue c [] = if c == b'/' then [] ∷ ([] ∷ []) else (c ∷ []) ∷ []
glue c (part ∷ parts) = if c == b'/' then [] ∷ (part ∷ parts) else (c ∷ part) ∷ parts

-- strings.Split(s, "/").
unfoldable pub split_slash : Text → List Text
split_slash [] = [] ∷ []
split_slash (c ∷ cs) = glue c (split_slash cs)

unfoldable pub join_slash : List Text → Text
join_slash [] = []
join_slash (p ∷ []) = p
join_slash (p ∷ (q ∷ ps)) = p ++ (b'/' ∷ join_slash (q ∷ ps))

abbrev pub dot : Text
dot = codes "."

abbrev pub dotdot : Text
dotdot = codes ".."

abbrev pub is_abs : Text → Bool
is_abs [] = false
is_abs (c ∷ cs) = c == b'/'

-- Back over the last element, of a rooted path or not.
abbrev pub backtrack : Bool → List Text → List Text
backtrack rooted [] = if rooted then [] else dotdot ∷ []
backtrack rooted (p ∷ stack) = if text_eq p dotdot then dotdot ∷ (p ∷ stack) else stack

-- The loop of Clean, on the elements read so far, the last one first.
unfoldable pub clean_onto : Bool → List Text → List Text → List Text
clean_onto rooted stack [] = stack
clean_onto rooted stack (p ∷ ps) =
    clean_onto rooted
      (if is_nil p || text_eq p dot
        then stack
        else if text_eq p dotdot
        then backtrack rooted stack
        else p ∷ stack)
      ps

abbrev pub rev_onto : List Text → List Text → List Text
rev_onto acc [] = acc
rev_onto acc (p ∷ ps) = rev_onto (p ∷ acc) ps

abbrev pub render : Bool → List Text → Text
render rooted parts =
    if rooted then b'/' ∷ join_slash parts else if is_nil parts then dot else join_slash parts

-- filepath.Clean.
unfoldable pub clean : Text → Text
unfolding split_slash join_slash clean_onto
clean path =
    if is_nil path
    then dot
    else render (is_abs path) (rev_onto [] (clean_onto (is_abs path) [] (split_slash path)))

-- filepath.Join(root, name), for a root that is not empty.
unfoldable pub join : Text → Text → Text
unfolding clean
join root name = clean (root ++ (b'/' ∷ name))

abbrev pub has_prefix : Text → Text → Bool
has_prefix [] s = true
has_prefix (c ∷ p) [] = false
has_prefix (c ∷ p) (d ∷ s) = c == d && has_prefix p s

abbrev pub unusable : Text → Bool
unusable name = any (λ c. c == b'\\' || c == b':') name

unfoldable pub climbs : Text → Bool
unfolding split_slash
climbs name = any (λ p. text_eq p dotdot) (split_slash name)

-- The check after the join; `none` for ErrRejected.
unfoldable pub checked : Text → Text → Option Text
checked root target =
    if not (text_eq target root) && not (has_prefix (root ++ (b'/' ∷ [])) target)
    then none
    else some target

unfoldable pub safe_path : Text → Text → Option Text
unfolding climbs join clean checked
safe_path root name =
    if is_nil name || is_abs name
    then none
    else if unusable name
    then none
    else if climbs name
    then none
    else checked root (join root (clean name))
