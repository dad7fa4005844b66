-- ===== src/Domain/Image.antt =====
-- internal/domain/image.go: whether an image's declared user is root. A user is its runes.
use deployer.Base.{
  Bool, Option, Text, [], arith, codes, if◌then◌else◌, leb, none, refl, some, text_eq, true, ℕ,
  ◌&&◌, ◌==◌, ◌||◌, ◌∷◌, ◌≡◌, Bool-cases, false, inl, inr, is_nil, ◌⊎◌, ap, sym, ◌∙◌, text_eq_sound,
  All,
}

-- unicode.IsSpace.
unfoldable pub is_space : ℕ → Bool
is_space r =
    (leb 9 r && leb r 13)
    || r == 32
    || r == 0x85
    || r == 0xA0
    || r == 0x1680
    || (leb 0x2000 r && leb r 0x200a)
    || r == 0x2028
    || r == 0x2029
    || r == 0x202f
    || r == 0x205f
    || r == 0x3000

trim_front : Text → Text
trim_front [] = []
trim_front (r ∷ rs) = let rest = trim_front rs in if is_space r then rest else r ∷ rs

trim_back : Text → Text
trim_back [] = []
trim_back (r ∷ rs) = let rest = trim_back rs in if is_space r && is_nil rest then [] else r ∷ rest

-- strings.TrimSpace.
unfoldable pub trim_space : Text → Text
unfolding trim_front trim_back
trim_space s = trim_back (trim_front s)

-- strings.Cut at the first colon: what stands before it, or none if there is no colon.
unfoldable pub before_colon? : Text → Option Text
before_colon? [] = none
before_colon? (r ∷ rs) = elim (before_colon? rs) [
  | some name ↦ if r == b':' then some [] else some (r ∷ name)
  | none ↦ if r == b':' then some [] else none
]

unfoldable pub names_root : Text → Bool
names_root user = text_eq user [] || text_eq user (codes "0") || text_eq user (codes "root")

user_half : Text → Text
unfolding trim_space before_colon?
user_half user = elim (before_colon? user) [ some name ↦ trim_space name | none ↦ user ]

unfoldable pub runs_as_root : Text → Bool
unfolding names_root user_half trim_space
runs_as_root declared =
    let user = trim_space declared in if text_eq user [] then true else names_root (user_half user)

-- The user half of a declaration, described at once: all before the first colon, trimmed.
abbrev pub before_colon : Text → Text
before_colon [] = []
before_colon (r ∷ rs) = if r == b':' then [] else r ∷ before_colon rs

unfoldable pub declared_user : Text → Text
declared_user declared = trim_space (before_colon declared)

before-front : (s : Text) → before_colon (trim_front s) ≡ trim_front (before_colon s)
unfolding trim_front is_space
before-front [] = refl
before-front (r ∷ rs) = ground (arith, before-front rs)

colon_no_space : is_space b':' ≡ false
unfolding is_space
colon_no_space = refl

back-cons :
    (r : ℕ) (rs : Text)
    → ((is_space r ≡ true) × (trim_back rs ≡ []) × (trim_back (r ∷ rs) ≡ []))
      ⊎ (trim_back (r ∷ rs) ≡ r ∷ trim_back rs)
unfolding trim_back
back-cons r rs = ground arith

back_cong : (r : ℕ) (s t : Text) → trim_back s ≡ trim_back t → trim_back (r ∷ s) ≡ trim_back (r ∷ t)
unfolding trim_back
back_cong r s t e = rw e refl

back_space : (r : ℕ) (s : Text) → is_space r ≡ true → trim_back s ≡ [] → trim_back (r ∷ s) ≡ []
unfolding trim_back
back_space r s h e = rw (e, h) refl

back_nil : trim_back [] ≡ []
unfolding trim_back
back_nil = refl

before_back-cons :
    (r : ℕ) (rs : Text)
    → trim_back (before_colon (trim_back rs)) ≡ trim_back (before_colon rs)
    → trim_back (before_colon (trim_back (r ∷ rs))) ≡ trim_back (before_colon (r ∷ rs))
before_back-cons r rs ih = elim (Bool-cases (r == b':')) [
  | inl colon ↦ ground (arith, back-cons r rs, colon_no_space)
  | inr other ↦ ground (
    arith,
    back-cons r rs,
    back_nil,
    back_space r (before_colon rs),
    back_cong r (before_colon (trim_back rs)) (before_colon rs) ih,
  )
]

before_back : (s : Text) → trim_back (before_colon (trim_back s)) ≡ trim_back (before_colon s)
before_back [] = rw back_nil back_nil
before_back (r ∷ rs) = before_back-cons r rs (before_back rs)

colon_cases :
    (s : Text)
    → ((before_colon? s ≡ none) × (before_colon s ≡ s)) ⊎ (before_colon? s ≡ some (before_colon s))
unfolding before_colon?
colon_cases [] = inl (refl, refl)
colon_cases (r ∷ rs) = ground (arith, colon_cases rs)

front_back : (s : Text) → trim_front (trim_back s) ≡ trim_back (trim_front s)
unfolding trim_front trim_back
front_back [] = refl
front_back (r ∷ rs) = ground (arith, front_back rs)

front_front : (s : Text) → trim_front (trim_front s) ≡ trim_front s
unfolding trim_front
front_front [] = refl
front_front (r ∷ rs) = ground (arith, front_front rs)

back_back : (s : Text) → trim_back (trim_back s) ≡ trim_back s
unfolding trim_back
back_back [] = refl
back_back (r ∷ rs) = ground (arith, back_back rs)

-- The declared user in terms of the trimmed declaration, as the code computes it.
declared_user-trim : (s : Text) → declared_user s ≡ trim_back (before_colon (trim_space s))
unfolding declared_user trim_space
declared_user-trim s = ap trim_back (sym (before-front s)) ∙ sym (before_back (trim_front s))

user_half-declared : (s : Text) → user_half (trim_space s) ≡ declared_user s
unfolding user_half trim_space
user_half-declared s = ground (
  arith,
  colon_cases (trim_space s),
  declared_user-trim s,
  back_back (trim_front s),
  before-front (trim_space s),
  front_back (trim_front s),
  front_front s,
)

bare_user : (s : Text) → trim_space s ≡ [] → names_root (declared_user s) ≡ true
unfolding names_root
bare_user s e = rw (declared_user-trim s, e, back_nil) refl

as_declared : (s : Text) → runs_as_root s ≡ names_root (declared_user s)
unfolding runs_as_root names_root
as_declared s = elim (Bool-cases (text_eq (trim_space s) [])) [
  | inl bare ↦ rw bare (sym (bare_user s (text_eq_sound (trim_space s) [] bare)))
  | inr named ↦ rw named (ap names_root (user_half-declared s))
]

-- The users that are root: none given, the number 0, and the name.
pub data IsRoot (user : Text) : Type 0 where
  unnamed : user ≡ [] → IsRoot user
  numbered : user ≡ b'0' ∷ [] → IsRoot user
  named : user ≡ b'r' ∷ b'o' ∷ b'o' ∷ b't' ∷ [] → IsRoot user

names_root-IsRoot : (user : Text) → names_root user ≡ true → IsRoot user
unfolding names_root
names_root-IsRoot user h = elim (Bool-cases (text_eq user [])) [
  | inl empty ↦ unnamed (text_eq_sound user [] empty)
  | inr given ↦ elim (Bool-cases (text_eq user (codes "0"))) [
    | inl zero_ ↦ numbered (text_eq_sound user (codes "0") zero_)
    | inr other ↦ named (text_eq_sound user (codes "root") (ground arith))
  ]
]

IsRoot-names_root : (user : Text) → IsRoot user → names_root user ≡ true
unfolding names_root
IsRoot-names_root user (unnamed e) = rw e refl
IsRoot-names_root user (numbered e) = rw e refl
IsRoot-names_root user (named e) = rw e refl

-- An image counts as root exactly when its user half, all before the first colon without the white
-- space around it, is empty, `0` or `root`.
pub runs_as_root-declared_user :
    (s : Text)
    → (runs_as_root s ≡ true → IsRoot (declared_user s))
      × (IsRoot (declared_user s) → runs_as_root s ≡ true)
runs_as_root-declared_user s = (
  λ h. names_root-IsRoot (declared_user s) (sym (as_declared s) ∙ h),
  λ r. as_declared s ∙ IsRoot-names_root (declared_user s) r,
)

-- A text without white space is trimmed of nothing.
back-clean : (s : Text) → All (λ r. is_space r ≡ false) s → trim_back s ≡ s
unfolding trim_back
back-clean [] h = refl
back-clean (r ∷ rs) h = rw (h.0, back-clean rs h.1) refl

pub trim_space-clean : (s : Text) → All (λ r. is_space r ≡ false) s → trim_space s ≡ s
unfolding trim_space trim_front
trim_space-clean [] h = refl
trim_space-clean (r ∷ rs) h = rw (h.0) (back-clean (r ∷ rs) h)
