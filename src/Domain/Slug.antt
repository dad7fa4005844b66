-- ===== src/Domain/Slug.antt =====
-- internal/domain/slug.go and reserved.go: hostname slugs. A name is the list of its runes; every
-- rune that `DeriveBase` writes is ASCII, so the built text is the list of its bytes as well.
-- `strings.ToLower` is a parameter: its table is Unicode's. Randomness is the list of bytes read.
pub mod Label
pub mod Words
pub mod Stable
pub mod Suffix
use deployer.Base.{
  ℕ, Text, List, Bool, codes, ◌∷◌, if◌then◌else◌, [], ◌++◌, map, leb, ◌&&◌, not, ◌==◌, ltb, false,
  suc, ◌%◌, any, ◌||◌, length, text_eq, take, zero,
}

-- 'a' to 'z' and '0' to '9'.
unfoldable pub alnum : ℕ → Bool
alnum r = (leb b'a' r && leb r b'z') || (leb b'0' r && leb r b'9')

abbrev pub slug_base_max_len : ℕ
slug_base_max_len = 40

abbrev pub slug_suffix_len : ℕ
slug_suffix_len = 6

abbrev pub suffix_alphabet : Text
suffix_alphabet = codes "23456789bcdfghjkmnpqrstvwxz"

-- The alphanumeric case of the switch: the pending dash is written first, but never in front.
unfoldable pub write : Text → Bool → ℕ → Text
write b dash_pending r = (if dash_pending && ltb 0 (length b) then b ++ b'-' ∷ [] else b) ++ r ∷ []

-- The loop of `DeriveBase` over the runes, with the builder and `dashPending`.
unfoldable pub scan : Text → Bool → Text → Text
unfolding write alnum
scan b dash_pending [] = b
scan b dash_pending (r ∷ rs) =
    scan (if alnum r then write b dash_pending r else b) (not (alnum r)) rs

-- strings.TrimRight with the one cut character `-`.
unfoldable pub trim_right : Text → Text
trim_right [] = []
trim_right (c ∷ cs) =
    let rest = trim_right cs in if c == b'-' && length rest == 0 then [] else c ∷ rest

unfoldable pub cut : Text → Text
unfolding trim_right
cut base =
    if ltb slug_base_max_len (length base) then trim_right (take slug_base_max_len base) else base

unfoldable pub or_app : Text → Text
or_app [] = codes "app"
or_app (c ∷ cs) = c ∷ cs

module _ (to_lower : Text → Text) where
  unfoldable pub derive_base : Text → Text
  unfolding scan cut or_app
  derive_base name = or_app (cut (scan [] false (to_lower name)))

  unfoldable pub derive_slug_with_suffix : Text → Text → Text
  derive_slug_with_suffix name suffix = derive_base name ++ b'-' ∷ suffix

-- `suffixAlphabet[i]`, where `i` is in range.
nth : Text → ℕ → ℕ
nth [] i = 0
nth (c ∷ cs) zero = c
nth (c ∷ cs) (suc i) = nth cs i

-- One character for each byte read from crypto/rand; the source reads `slug_suffix_len` of them.
unfoldable pub random_suffix : Text → Text
unfolding nth
random_suffix raw = map (λ b. nth suffix_alphabet (b % length suffix_alphabet)) raw

-- `DeriveSlug`, with the random bytes as an argument.
unfoldable pub derive_slug : (Text → Text) → Text → Text → Text
derive_slug to_lower name raw = derive_slug_with_suffix to_lower name (random_suffix raw)

abbrev pub reserved_labels : List Text
reserved_labels =
    codes "admin"
    ∷ codes "api"
    ∷ codes "app"
    ∷ codes "console"
    ∷ codes "deployer"
    ∷ codes "mcp"
    ∷ codes "registry"
    ∷ codes "www"
    ∷ []

unfoldable pub reserved_label : (Text → Text) → Text → Bool
reserved_label to_lower name = any (λ l. text_eq l (derive_base to_lower name)) reserved_labels
