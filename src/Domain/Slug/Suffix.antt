-- ===== src/Domain/Slug/Suffix.antt =====
-- The random suffix, and the slug as a whole.
use deployer.Base.{
  All, Bool, Text, [], any, ap, arith, check_below_sound, false, length, length-append, not, refl,
  suc, text_eq, true, ℕ, ◌%◌, ◌++◌, ◌<◌, ◌==◌, ◌∷◌, ◌≡◌, ◌≤◌, List, text_eq_sound,
}
use deployer.Domain.Slug.{
  alnum, random_suffix, reserved_labels, derive_slug, nth, derive_slug_with_suffix, suffix_alphabet,
  slug_suffix_len, derive_base,
}
use deployer.Domain.Slug.Label.{label_from, IsLabel, derive_base-IsLabel}

nth-alnum : (i : ℕ) → i < 27 → alnum (nth suffix_alphabet i) ≡ true
unfolding nth alnum
nth-alnum i h = check_below_sound (λ j. alnum (nth suffix_alphabet j)) 27 i refl h

-- Letters and digits only.
abbrev AllAlnum : Text → Type 0
AllAlnum s = All (λ c. alnum c ≡ true) s

random_suffix-AllAlnum : (raw : Text) → AllAlnum (random_suffix raw)
unfolding random_suffix
random_suffix-AllAlnum [] = tt
random_suffix-AllAlnum (b ∷ raw) = (nth-alnum (b % 27) (omega arith), random_suffix-AllAlnum raw)

length-random_suffix : (raw : Text) → length (random_suffix raw) ≡ length raw
unfolding random_suffix
length-random_suffix [] = refl
length-random_suffix (b ∷ raw) = ap suc (length-random_suffix raw)

alnum-label : (s : Text) → AllAlnum s → label_from false s ≡ true
alnum-label [] h = refl
alnum-label (c ∷ cs) h = ground (arith, alnum-label cs h.1)

label-join :
    (p : Bool) (s : Text) (c : ℕ) (t : Text)
    → AllAlnum (c ∷ t)
    → label_from p s ≡ true
    → label_from p (s ++ b'-' ∷ c ∷ t) ≡ true
unfolding alnum
label-join p [] c t a h = ground (arith, alnum-label t a.1)
label-join p (d ∷ s) c t a h = ground (arith, label-join (not (alnum d)) s c t a)

-- Whether a text holds a dash.
has_dash : Text → Bool
has_dash s = any (λ c. c == b'-') s

has_dash-append : (s t : Text) → has_dash (s ++ b'-' ∷ t) ≡ true
unfolding has_dash
has_dash-append [] t = refl
has_dash-append (c ∷ s) t = ground (arith, has_dash-append s t)

not_among :
    (ls : List Text) (s : Text)
    → has_dash s ≡ true
    → any has_dash ls ≡ false
    → any (λ l. text_eq l s) ls ≡ false
not_among [] s h n = refl
not_among (l ∷ ls) s h n = ground (arith, text_eq_sound l s, not_among ls s h)

-- A slug is a hostname label of at most 47 characters, whatever the six random bytes are.
pub derive_slug-IsLabel :
    (to_lower : Text → Text) (name : Text) (raw : Text)
    → length raw ≡ slug_suffix_len
    → IsLabel (derive_slug to_lower name raw) × (length (derive_slug to_lower name raw) ≤ 47)
unfolding derive_slug derive_slug_with_suffix random_suffix
derive_slug-IsLabel to_lower name [] n = absurd (omega arith)
derive_slug-IsLabel to_lower name (b ∷ raw) n =
    let (ok, small) = derive_base-IsLabel to_lower name in
    (
      label-join true (derive_base to_lower name) _ (random_suffix raw)
          (random_suffix-AllAlnum (b ∷ raw)) ok,
      omega (
        arith,
        length-append (derive_base to_lower name) (b'-' ∷ random_suffix (b ∷ raw)),
        length-random_suffix raw,
      ),
    )

-- No slug is literally one of the reserved labels, whatever the name and the suffix.
pub derive_slug_not_reserved :
    (to_lower : Text → Text) (name suffix : Text)
    → any (λ l. text_eq l (derive_slug_with_suffix to_lower name suffix)) reserved_labels ≡ false
unfolding derive_slug_with_suffix
derive_slug_not_reserved to_lower name suffix =
    not_among reserved_labels _ (has_dash-append (derive_base to_lower name) suffix)
      (unfold has_dash in refl)
