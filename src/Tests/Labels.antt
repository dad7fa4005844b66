-- ===== src/Tests/Labels.antt =====
-- Slugs, states and image users, at concrete inputs.
use deployer.Base.{
  Text, codes, map, Bool, List, [], arith, if◌then◌else◌, leb, not, refl, true, ℕ, ◌&&◌, ◌+◌, ◌==◌,
  ◌||◌, ◌∷◌, ◌≡◌, ◌≢◌,
}
use deployer.Domain.Slug.{alnum, derive_base, scan, cut, or_app, write, trim_right}
use deployer.Domain.Slug.Label.{label_from}
use deployer.Domain.State.{
  valid, can_transition, State, queued, deploying, failed, building, healthy, pushing,
}
use deployer.Domain.State.Moves.{History}
use deployer.Domain.Image.{runs_as_root, declared_user, runs_as_root-declared_user, IsRoot}

lower_rune : ℕ → ℕ
lower_rune r = if leb b'A' r && leb r b'Z' then r + 32 else r

-- The ASCII part of strings.ToLower.
lower : Text → Text
unfolding lower_rune
lower s = map lower_rune s

lower-cons : (c : ℕ) (s : Text) → lower (c ∷ s) ≡ lower_rune c ∷ lower s
unfolding lower
lower-cons c s = refl

lower_alnum : (c : ℕ) → (alnum c || c == b'-') ≡ true → lower_rune c ≡ c
unfolding lower_rune alnum
lower_alnum c h = ground arith

lower-labels : (p : Bool) (s : Text) → label_from p s ≡ true → lower s ≡ s
unfolding lower
lower-labels p [] h = refl
lower-labels p (c ∷ cs) h =
    ground (arith, lower_alnum c, lower-labels (not (alnum c)) cs, lower-cons c cs)

abbrev my_shop : Text
my_shop = codes "  My Shop!! 2"

my_shop_slug : derive_base lower my_shop ≡ codes "my-shop-2"
unfolding derive_base scan cut or_app write alnum trim_right lower lower_rune
my_shop_slug = refl

failed-valid : valid failed ≡ true
unfolding valid
failed-valid = refl

abbrev a_build : List State
a_build = building ∷ pushing ∷ deploying ∷ healthy ∷ []

a_build-History : History queued a_build
unfolding can_transition
a_build-History = (refl, (refl, (refl, (refl, tt))))

queued-ne-healthy : queued ≢ healthy
queued-ne-healthy h = cc

runs_as_root-declared_user_example :
    (runs_as_root (codes " root : wheel") ≡ true → IsRoot (declared_user (codes " root : wheel")))
    × (IsRoot (declared_user (codes " root : wheel")) → runs_as_root (codes " root : wheel") ≡ true)
runs_as_root-declared_user_example = runs_as_root-declared_user (codes " root : wheel")
