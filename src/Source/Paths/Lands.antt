-- ===== src/Source/Paths/Lands.antt =====
-- Where an accepted name lands: at its own elements under the root.
use mathlib.Core.List.{append_assoc}
use deployer.Base.{
  Text, List, Bool, some, none, true, false, [], ◌∷◌, ◌++◌, is_nil, if◌then◌else◌, not, ◌&&◌, ◌||◌,
  ◌≡◌, refl, ap, ◌∙◌, text_eq, arith, Bool-cases, inl, inr, text_eq_refl,
}
use deployer.Source.Paths.{
  split_slash, join_slash, is_abs, render, clean, join, has_prefix, unusable, climbs, checked,
  safe_path,
}
use deployer.Source.Paths.Elements.{
  append-nil, skipped, kept, Plain, NoSlash, path_of, split-append, split-join_slash, split-NoSlash,
  kept-NoSlash, has_dotdot, clean-kept,
}

-- The name's path, relative to wherever it is unpacked.
abbrev pub inside : Text → List Text
inside name = kept (split_slash name)

pub clean-relative :
    (name : Text)
    → is_nil name ≡ false
    → is_abs name ≡ false
    → climbs name ≡ false
    → clean name ≡ render false (inside name)
unfolding climbs
clean-relative name named rel h = clean-kept name named h ∙ rw rel refl

split-render :
    (ps : List Text) → NoSlash ps → kept ps ≡ ps → kept (split_slash (render false ps)) ≡ ps
unfolding split_slash
split-render [] h k = refl
split-render (p ∷ ps) h k = rw (split-join_slash p ps h) k

kept-kept : (ps : List Text) → kept (kept ps) ≡ kept ps
kept-kept [] = refl
kept-kept (p ∷ ps) = elim (Bool-cases (skipped p)) [
  | inl gone ↦ rw gone (kept-kept ps)
  | inr stays ↦ rw (stays, stays, kept-kept ps) refl
]

kept-append : (ps qs : List Text) → kept (ps ++ qs) ≡ kept ps ++ kept qs
kept-append [] qs = refl
kept-append (p ∷ ps) qs = elim (Bool-cases (skipped p)) [
  | inl gone ↦ rw (gone, kept-append ps qs) refl
  | inr stays ↦ rw (stays, kept-append ps qs) refl
]

kept-Plain : (ps : List Text) → Plain ps → kept ps ≡ ps
kept-Plain [] h = refl
kept-Plain (p ∷ ps) h =
    let stays : skipped p ≡ false = ground arith in rw (stays, kept-Plain ps h.1) refl

pub Plain-NoSlash : (ps : List Text) → Plain ps → NoSlash ps
Plain-NoSlash [] h = tt
Plain-NoSlash (p ∷ ps) h = (ground arith, Plain-NoSlash ps h.1)

Plain-climbless : (ps : List Text) → Plain ps → has_dotdot ps ≡ false
Plain-climbless [] h = refl
Plain-climbless (p ∷ ps) h = ground (arith, Plain-climbless ps h.1)

dotdot-append : (ps qs : List Text) → has_dotdot (ps ++ qs) ≡ (has_dotdot ps || has_dotdot qs)
dotdot-append [] qs = refl
dotdot-append (p ∷ ps) qs = ground (arith, dotdot-append ps qs)

pub kept-climbless : (ps : List Text) → has_dotdot ps ≡ false → has_dotdot (kept ps) ≡ false
kept-climbless [] h = refl
kept-climbless (p ∷ ps) h = ground (arith, kept-climbless ps)

render-climbless :
    (ps : List Text)
    → NoSlash ps
    → has_dotdot ps ≡ false
    → has_dotdot (split_slash (render false ps)) ≡ false
unfolding split_slash
render-climbless [] h c = refl
render-climbless (p ∷ ps) h c = rw (split-join_slash p ps h) c

pub split-path_of :
    (p : Text) (ps : List Text) → NoSlash (p ∷ ps) → split_slash (path_of (p ∷ ps)) ≡ [] ∷ (p ∷ ps)
unfolding split_slash
split-path_of p ps h =
    split-append [] (join_slash (p ∷ ps)) ∙ ap (λ t. [] ∷ t) (split-join_slash p ps h)

-- The cleaned name under a root whose elements are plain.
join-lands :
    (q : Text) (qs : List Text) (name : Text)
    → Plain (q ∷ qs)
    → climbs name ≡ false
    → join (path_of (q ∷ qs)) (render false (inside name)) ≡ path_of ((q ∷ qs) ++ inside name)
unfolding join climbs
join-lands q qs name h still =
    let rest = render false (inside name) in
    let below = kept-NoSlash (split_slash name) (split-NoSlash name) in
    let parts : split_slash (path_of (q ∷ qs) ++ (b'/' ∷ rest))
        ≡ ([] ∷ (q ∷ qs)) ++ split_slash rest =
      split-append (path_of (q ∷ qs)) rest
      ∙ ap (λ t. t ++ split_slash rest) (split-path_of q qs (Plain-NoSlash (q ∷ qs) h)) in
    let flat : has_dotdot (([] ∷ (q ∷ qs)) ++ split_slash rest) ≡ false =
      dotdot-append ([] ∷ (q ∷ qs)) (split_slash rest)
      ∙ rw
          (
            Plain-climbless (q ∷ qs) h,
            render-climbless (inside name) below (kept-climbless (split_slash name) still),
          )
          refl in
    let all_kept : kept (([] ∷ (q ∷ qs)) ++ split_slash rest) ≡ (q ∷ qs) ++ inside name =
      kept-append ([] ∷ (q ∷ qs)) (split_slash rest)
      ∙ rw (kept-Plain (q ∷ qs) h, split-render (inside name) below (kept-kept (split_slash name)))
          refl in
    clean-kept (path_of (q ∷ qs) ++ (b'/' ∷ rest)) refl (ap has_dotdot parts ∙ flat)
    ∙ ap path_of (ap kept parts ∙ all_kept)

join_slash-append :
    (q : Text) (qs : List Text) (k : Text) (ks : List Text)
    → join_slash ((q ∷ qs) ++ (k ∷ ks)) ≡ join_slash (q ∷ qs) ++ (b'/' ∷ join_slash (k ∷ ks))
unfolding join_slash
join_slash-append q [] k ks = refl
join_slash-append q (r ∷ qs) k ks =
    rw
      (
        join_slash-append r qs k ks,
        append_assoc q (b'/' ∷ join_slash (r ∷ qs)) (b'/' ∷ join_slash (k ∷ ks)),
      )
      refl

has_prefix-append : (s t : Text) → has_prefix (s ++ (b'/' ∷ [])) (s ++ (b'/' ∷ t)) ≡ true
has_prefix-append [] t = refl
has_prefix-append (c ∷ s) t = rw (has_prefix-append s t) (ground arith)

-- The last check of safePath never fires.
passes_check :
    (q : Text) (qs ks : List Text)
    → (not (text_eq (path_of ((q ∷ qs) ++ ks)) (path_of (q ∷ qs)))
        && not (has_prefix (path_of (q ∷ qs) ++ (b'/' ∷ [])) (path_of ((q ∷ qs) ++ ks))))
      ≡ false
passes_check q qs [] =
    let same : (q ∷ qs) ++ [] ≡ q ∷ qs = append-nil (q ∷ qs) in
    rw (same, text_eq_refl (path_of (q ∷ qs))) refl
passes_check q qs (k ∷ ks) =
    rw (join_slash-append q qs k ks, has_prefix-append (path_of (q ∷ qs)) (join_slash (k ∷ ks)))
      (ground arith)

checked-lands :
    (q : Text) (qs ks : List Text)
    → checked (path_of (q ∷ qs)) (path_of ((q ∷ qs) ++ ks)) ≡ some (path_of ((q ∷ qs) ++ ks))
unfolding checked
checked-lands q qs ks = rw (passes_check q qs ks) refl

abbrev pub refused : Text → Bool
refused name = is_nil name || is_abs name || (unusable name || climbs name)

-- Under a root that is not `/`, as filepath.Abs leaves it, a name is refused exactly if it is empty,
-- absolute, holds a backslash or a colon, or has an element `..`; any other name lands at the root's
-- elements followed by its own, without the empty ones and the dots. So the last check of safePath
-- never fires.
pub safe_path-lands :
    (q : Text) (qs : List Text) (name : Text)
    → Plain (q ∷ qs)
    → safe_path (path_of (q ∷ qs)) name
      ≡ (if refused name then none else some (path_of ((q ∷ qs) ++ inside name)))
unfolding safe_path
safe_path-lands q qs name h = elim (Bool-cases (is_nil name || is_abs name)) [
  | inl bad ↦ rw bad refl
  | inr ok ↦ elim (Bool-cases (unusable name)) [
    | inl bad ↦ rw (ok, bad) refl
    | inr usable ↦ elim (Bool-cases (climbs name)) [
      | inl bad ↦ rw (ok, usable, bad) refl
      | inr still ↦
          let relative = clean-relative name (ground arith) (ground arith) still in
          let root = path_of (q ∷ qs) in
          rw (ok, usable, still)
            (ap (λ t. checked root (join root t)) relative
              ∙ ap (checked root) (join-lands q qs name h still)
              ∙ checked-lands q qs (inside name))
    ]
  ]
]
