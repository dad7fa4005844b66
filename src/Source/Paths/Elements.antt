-- ===== src/Source/Paths/Elements.antt =====
-- The elements of a text, and what Clean makes of a path that does not climb.
use deployer.Base.{
  Text, List, Bool, true, false, [], ◌∷◌, ◌++◌, is_nil, any, All, if◌then◌else◌, not, ◌&&◌, ◌||◌,
  ◌==◌, ◌≡◌, refl, ◌∙◌, text_eq, ℕ, arith, Bool-cases, inl, inr,
}
use deployer.Source.Paths.{
  split_slash, join_slash, dot, dotdot, is_abs, clean_onto, rev_onto, render, clean, glue,
}

-- The elements that Clean drops, and those that stay.
abbrev pub skipped : Text → Bool
skipped p = is_nil p || text_eq p dot

abbrev pub kept : List Text → List Text
kept [] = []
kept (p ∷ ps) = let rest = kept ps in if skipped p then rest else p ∷ rest

abbrev pub no_slash : Text → Bool
no_slash p = not (any (λ c. c == b'/') p)

-- An element as filepath.Abs leaves it.
abbrev pub plain : Text → Bool
plain p = not (skipped p) && (not (text_eq p dotdot) && no_slash p)

abbrev pub Plain : List Text → Type 0
Plain ps = All (λ p. plain p ≡ true) ps

abbrev pub NoSlash : List Text → Type 0
NoSlash ps = All (λ p. no_slash p ≡ true) ps

-- The path of these elements from the top.
abbrev pub path_of : List Text → Text
path_of ps = b'/' ∷ join_slash ps

glue_is_cons : (c : ℕ) (s : List Text) → (p : Text) × (ps : List Text) × (glue c s ≡ p ∷ ps)
glue_is_cons c [] = elim (Bool-cases (c == b'/')) [
  | inl slash ↦ ([], [] ∷ [], rw slash refl)
  | inr other ↦ (c ∷ [], [], rw other refl)
]
glue_is_cons c (p ∷ ps) = elim (Bool-cases (c == b'/')) [
  | inl slash ↦ ([], p ∷ ps, rw slash refl)
  | inr other ↦ (c ∷ p, ps, rw other refl)
]

split_is_cons : (s : Text) → (p : Text) × (ps : List Text) × (split_slash s ≡ p ∷ ps)
unfolding split_slash
split_is_cons [] = ([], [], refl)
split_is_cons (c ∷ cs) = glue_is_cons c (split_slash cs)

glue-append :
    (c : ℕ) (p : Text) (ps ys : List Text) → glue c ((p ∷ ps) ++ ys) ≡ glue c (p ∷ ps) ++ ys
glue-append c p ps ys = elim (Bool-cases (c == b'/')) [
  | inl slash ↦ rw slash refl
  | inr other ↦ rw other refl
]

pub split-append : (s t : Text) → split_slash (s ++ (b'/' ∷ t)) ≡ split_slash s ++ split_slash t
unfolding split_slash
split-append [] t = let (p, ps, e) = split_is_cons t in rw e refl
split-append (c ∷ s) t =
    let (p, ps, e) = split_is_cons s in
    rw (split-append s t, e) (glue-append c p ps (split_slash t))

pub split-no_slash : (p : Text) → no_slash p ≡ true → split_slash p ≡ p ∷ []
unfolding split_slash
split-no_slash [] h = refl
split-no_slash (c ∷ cs) h =
    let here : (c == b'/') ≡ false = ground arith in
    rw (split-no_slash cs (ground arith), here) refl

pub split-join_slash :
    (p : Text) (ps : List Text) → NoSlash (p ∷ ps) → split_slash (join_slash (p ∷ ps)) ≡ p ∷ ps
unfolding join_slash
split-join_slash p [] h = split-no_slash p h.0
split-join_slash p (q ∷ ps) h =
    split-append p (join_slash (q ∷ ps)) ∙ rw (split-no_slash p h.0, split-join_slash q ps h.1) refl

glue-NoSlash : (c : ℕ) (s : List Text) → NoSlash s → NoSlash (glue c s)
glue-NoSlash c [] h = elim (Bool-cases (c == b'/')) [
  | inl slash ↦ rw slash (refl, (refl, tt))
  | inr other ↦ rw (other, other) (refl, tt)
]
glue-NoSlash c (p ∷ ps) h = elim (Bool-cases (c == b'/')) [
  | inl slash ↦ rw slash (refl, h)
  | inr other ↦ rw other (rw other h.0, h.1)
]

pub split-NoSlash : (s : Text) → NoSlash (split_slash s)
unfolding split_slash
split-NoSlash [] = (refl, tt)
split-NoSlash (c ∷ cs) = glue-NoSlash c (split_slash cs) (split-NoSlash cs)

pub kept-NoSlash : (ps : List Text) → NoSlash ps → NoSlash (kept ps)
kept-NoSlash [] h = tt
kept-NoSlash (p ∷ ps) h = elim (Bool-cases (skipped p)) [
  | inl gone ↦ rw gone (kept-NoSlash ps h.1)
  | inr stays ↦ rw stays (h.0, kept-NoSlash ps h.1)
]

abbrev pub has_dotdot : List Text → Bool
has_dotdot ps = any (λ p. text_eq p dotdot) ps

clean_onto-kept :
    (rooted : Bool) (stack ps : List Text)
    → has_dotdot ps ≡ false
    → clean_onto rooted stack ps ≡ rev_onto stack (kept ps)
unfolding clean_onto
clean_onto-kept rooted stack [] h = refl
clean_onto-kept rooted stack (p ∷ ps) h =
    let here : text_eq p dotdot ≡ false = ground arith in
    let later : has_dotdot ps ≡ false = ground arith in
    elim (Bool-cases (skipped p)) [
      | inl gone ↦ rw (gone, clean_onto-kept rooted stack ps later) refl
      | inr stays ↦ rw (stays, here, clean_onto-kept rooted (p ∷ stack) ps later) refl
    ]

rev-rev : (acc s xs : List Text) → rev_onto acc (rev_onto s xs) ≡ rev_onto (xs ++ acc) s
rev-rev acc s [] = refl
rev-rev acc s (x ∷ xs) = rev-rev acc (x ∷ s) xs

pub append-nil : (xs : List Text) → xs ++ [] ≡ xs
append-nil [] = refl
append-nil (x ∷ xs) = rw (append-nil xs) refl

pub clean-kept :
    (path : Text)
    → is_nil path ≡ false
    → has_dotdot (split_slash path) ≡ false
    → clean path ≡ render (is_abs path) (kept (split_slash path))
unfolding clean
clean-kept path named h =
    rw
      (
        named,
        clean_onto-kept (is_abs path) [] (split_slash path) h,
        rev-rev [] [] (kept (split_slash path)),
        append-nil (kept (split_slash path)),
      )
      refl
