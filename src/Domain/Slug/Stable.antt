-- ===== src/Domain/Slug/Stable.antt =====
-- Deriving a base from a derived base changes nothing.
use deployer.Domain.Slug.Words.{write-pending}
use mathlib.Core.List.{append-nil, append_assoc}
use deployer.Base.{
  Bool, Bool-cases, Text, [], arith, false, inl, inr, sym, true, ℕ, ◌++◌, ◌∙◌, ◌∷◌, ◌≡◌, ap, length,
  refl, ◌≤◌,
}
use deployer.Domain.Slug.{scan, alnum, cut, or_app, derive_base, reserved_label, slug_base_max_len}
use deployer.Domain.Slug.Label.{label_from, IsLabel, derive_base-IsLabel}

-- What the loop still owes: the pending dash and the rest of the text.
owed : Bool → Text → Text
owed true s = b'-' ∷ s
owed false s = s

dash_of : (r : ℕ) (s : Text) → label_from false (r ∷ s) ≡ true → alnum r ≡ false → b'-' ≡ r
dash_of r s h n = ground arith

scan-label :
    (b : Text) (c : ℕ) (p : Bool) (s : Text)
    → label_from p s ≡ true
    → scan (b ++ c ∷ []) p s ≡ (b ++ c ∷ []) ++ owed p s
unfolding scan owed
scan-label b c true [] h = cc
scan-label b c false [] h = sym (append-nil (b ++ c ∷ []))
scan-label b c true (r ∷ s) h = elim (Bool-cases (alnum r)) [
  | inl a ↦
      rw (a, scan, write-pending b c r)
        (scan-label ((b ++ c ∷ []) ++ b'-' ∷ []) r false s (ground arith)
          ∙ append_assoc ((b ++ c ∷ []) ++ b'-' ∷ []) (r ∷ []) s
          ∙ append_assoc (b ++ c ∷ []) (b'-' ∷ []) (r ∷ s))
  | inr n ↦ absurd (ground arith)
]
scan-label b c false (r ∷ s) h = elim (Bool-cases (alnum r)) [
  | inl a ↦
      rw (a, scan)
        (scan-label (b ++ c ∷ []) r false s (ground arith) ∙ append_assoc (b ++ c ∷ []) (r ∷ []) s)
  | inr n ↦
      rw (n, scan)
        (scan-label b c true s (ground arith) ∙ ap (λ d. (b ++ c ∷ []) ++ d ∷ s) (dash_of r s h n))
]

scan_own : (s : Text) → IsLabel s → scan [] false s ≡ s
unfolding scan owed
scan_own [] h = cc
scan_own (c ∷ cs) h = elim (Bool-cases (alnum c)) [
  | inl a ↦ rw (a, scan) (scan-label [] c false cs (ground arith))
  | inr n ↦ absurd (ground arith)
]

cut_own : (s : Text) → length s ≤ slug_base_max_len → cut s ≡ s
unfolding cut
cut_own s h = ground arith

or_app_own : (s : Text) → IsLabel s → or_app s ≡ s
unfolding or_app
or_app_own [] h = cc
or_app_own (c ∷ cs) h = refl

-- A label of at most 40 characters that the case mapping leaves alone is its own base.
derive_base_own :
    (to_lower : Text → Text) (s : Text)
    → to_lower s ≡ s
    → IsLabel s
    → length s ≤ slug_base_max_len
    → derive_base to_lower s ≡ s
unfolding derive_base
derive_base_own to_lower s low h small = rw (low, scan_own s h, cut_own s small) (or_app_own s h)

-- Deriving twice is deriving once, where the case mapping leaves lower case labels alone.
pub derive_base_idem :
    (to_lower : Text → Text)
    → ((s : Text) → IsLabel s → to_lower s ≡ s)
    → (name : Text) → derive_base to_lower (derive_base to_lower name) ≡ derive_base to_lower name
derive_base_idem to_lower lower_labels name =
    let (ok, small) = derive_base-IsLabel to_lower name in
    derive_base_own to_lower (derive_base to_lower name) (lower_labels _ ok) ok small

-- Where the case mapping leaves lower case labels alone, a derived base counts as reserved exactly
-- when the name that it was derived from does.
pub reserved_label-derive_base :
    (to_lower : Text → Text)
    → ((s : Text) → IsLabel s → to_lower s ≡ s)
    → (name : Text)
    → reserved_label to_lower (derive_base to_lower name) ≡ reserved_label to_lower name
unfolding reserved_label
reserved_label-derive_base to_lower lower_labels name =
    rw (derive_base_idem to_lower lower_labels name) refl
