-- ===== src/Domain/Config/Keys.antt =====
-- The shape of a configuration key: [A-Z_][A-Z0-9_]*.
use deployer.Base.{All, Text, [], arith, refl, suc, true, ℕ, ◌↔◌, ◌∷◌, ◌≡◌, ◌≤◌, ◌⊎◌}
use deployer.Domain.Config.{valid_config_key, valid_from}

abbrev pub IsUpper : ℕ → Type 0
IsUpper r = ((b'A' ≤ r) × (r ≤ b'Z')) ⊎ (r ≡ b'_')

abbrev pub IsKeyByte : ℕ → Type 0
IsKeyByte r = IsUpper r ⊎ ((b'0' ≤ r) × (r ≤ b'9'))

-- The documented pattern.
abbrev pub IsConfigKey : Text → Type 0
IsConfigKey [] = ⊥
IsConfigKey (r ∷ rs) = IsUpper r × All IsKeyByte rs

tail_sound : (i : ℕ) (rs : Text) → valid_from (suc i) rs ≡ true → All IsKeyByte rs
unfolding valid_from
tail_sound i [] h = tt
tail_sound i (r ∷ rs) h = (ground arith, tail_sound (suc i) rs (ground arith))

tail_complete : (i : ℕ) (rs : Text) → All IsKeyByte rs → valid_from (suc i) rs ≡ true
unfolding valid_from
tail_complete i [] h = refl
tail_complete i (r ∷ rs) h = ground (arith, tail_complete (suc i) rs h.1)

-- `ValidConfigKey` accepts exactly the texts that the documented pattern describes.
pub valid_config_key_iff : (key : Text) → (valid_config_key key ≡ true) ↔ IsConfigKey key
unfolding valid_config_key
valid_config_key_iff [] = (λ h. cc, λ h. absurd h)
valid_config_key_iff (r ∷ rs) = (
  λ h. (ground arith, tail_sound 0 rs (ground arith)),
  λ h. ground (arith, tail_complete 0 rs h.1),
)
