-- ===== src/Domain/Config.antt =====
-- internal/domain/configkey.go and config.go: what configuration an app may carry. Texts are bytes:
-- a key that holds a rune above ASCII is refused at its first byte.
pub mod Keys
pub mod Merge
pub mod Accept
use deployer.Domain.Reason.{
  Reason, config_key_invalid, config_key_reserved, config_flag_missing, config_too_many_keys,
  config_too_large,
}
use deployer.Base.{
  Bool, List, Option, Text, [], any, codes, false, if◌then◌else◌, is_some, leb, length, ltb, none,
  not, some, text_eq, true, ℕ, ◌&&◌, ◌+◌, ◌==◌, ◌||◌, ◌∷◌,
}

abbrev pub max_config_keys : ℕ
max_config_keys = 64

-- 4 << 10
abbrev pub max_config_value_bytes : ℕ
max_config_value_bytes = 4096

-- 32 << 10
abbrev pub max_config_total_bytes : ℕ
max_config_total_bytes = 32768

abbrev pub reserved_key_port : Text
reserved_key_port = codes "PORT"

abbrev pub reserved_key_app_url : Text
reserved_key_app_url = codes "APP_URL"

-- The loop of `ValidConfigKey` over the runes `r` at the indices `i`.
unfoldable pub valid_from : ℕ → Text → Bool
valid_from i [] = true
valid_from i (r ∷ rs) =
    ((leb b'A' r && leb r b'Z') || r == b'_' || (leb b'0' r && leb r b'9' && ltb 0 i))
    && valid_from (i + 1) rs

unfoldable pub valid_config_key : Text → Bool
unfolding valid_from
valid_config_key key = if text_eq key [] then false else valid_from 0 key

pub record ConfigValue : Type 0 where
  pub value : Text
  pub secret : Bool

pub record ConfigWrite : Type 0 where
  pub key : Text
  pub value : Text
  pub secret : Option Bool

-- A Go map as an association list; it is only looked up, counted and summed.
abbrev pub Table : Type 0
Table = List (Text × Text)

unfoldable pub lookup : Text → Table → Option Text
lookup k [] = none
lookup k ((j, v) ∷ m) = if text_eq j k then some v else lookup k m

-- m[k] = v
unfoldable pub put : Text → Text → Table → Table
put k v [] = (k, v) ∷ []
put k v ((j, w) ∷ m) = if text_eq j k then (j, v) ∷ m else (j, w) ∷ put k v m

-- The first loop: every write on its own, and no key twice.
unfoldable pub check_writes : List Text → List ConfigWrite → Option Reason
check_writes seen [] = none
check_writes seen (w ∷ ws) =
    if not (valid_config_key w.key)
    then some config_key_invalid
    else if text_eq w.key reserved_key_port || text_eq w.key reserved_key_app_url
    then some config_key_reserved
    else if not (is_some w.secret)
    then some config_flag_missing
    else if any (λ k. text_eq k w.key) seen
    then some config_key_invalid
    else if ltb max_config_value_bytes (length w.value)
    then some config_too_large
    else check_writes (w.key ∷ seen) ws

unfoldable pub merge : Table → List ConfigWrite → Table
merge m [] = m
merge m (w ∷ ws) = merge (put w.key w.value m) ws

unfoldable pub total_bytes : Table → ℕ
total_bytes [] = 0
total_bytes ((k, v) ∷ m) = length k + length v + total_bytes m

-- The bounds on the merged result.
unfoldable pub check_merged : Table → Option Reason
check_merged merged =
    if ltb max_config_keys (length merged)
    then some config_too_many_keys
    else if ltb max_config_total_bytes (total_bytes merged)
    then some config_too_large
    else none

unfoldable pub validate_config : List ConfigWrite → Table → Option Reason
unfolding check_merged
validate_config [] existing = some config_key_invalid
validate_config (w ∷ ws) existing = elim (check_writes [] (w ∷ ws)) [
  | some r ↦ some r
  | none ↦ check_merged (merge existing (w ∷ ws))
]

check_keys : List Text → Option Reason
check_keys [] = none
check_keys (k ∷ ks) = if not (valid_config_key k) then some config_key_invalid else check_keys ks

unfoldable pub validate_unset : List Text → Option Reason
unfolding check_keys
validate_unset [] = some config_key_invalid
validate_unset (k ∷ ks) = check_keys (k ∷ ks)
