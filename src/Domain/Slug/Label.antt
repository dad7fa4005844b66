-- ===== src/Domain/Slug/Label.antt =====
-- What `DeriveBase` returns is always a hostname label, whatever the name and the case mapping.
use deployer.Base.{
  Bool, Text, not, true, ◌≡◌, ℕ, ◌∷◌, take, ◌++◌, arith, suc, [], ◌||◌, ◌==◌, ◌&&◌, refl, zero,
  Bool-cases, false, if◌then◌else◌, inl, inr, length, length-take, ltb, ◌≢◌, ◌≤◌, ◌⊎◌, lt→ltb,
}
use deployer.Domain.Slug.{
  alnum, write, scan, trim_right, cut, or_app, derive_base, slug_base_max_len,
}

-- Reads a label from the left: letters, digits and single dashes. The flag says that a dash, or the
-- beginning, stands just before, where neither another dash nor the end may follow.
abbrev pub label_from : Bool → Text → Bool
label_from after_dash [] = not after_dash
label_from after_dash (c ∷ cs) =
    (alnum c || (c == b'-' && not after_dash)) && label_from (not (alnum c)) cs

-- Letters, digits and dashes; it begins and ends with no dash, and has no two in a row.
abbrev pub IsLabel : Text → Type 0
IsLabel s = label_from true s ≡ true

-- The same with any end.
abbrev prefix_from : Bool → Text → Bool
prefix_from after_dash [] = true
prefix_from after_dash (c ∷ cs) =
    (alnum c || (c == b'-' && not after_dash)) && prefix_from (not (alnum c)) cs

prefix_of_label : (p : Bool) (s : Text) → label_from p s ≡ true → prefix_from p s ≡ true
prefix_of_label p [] h = refl
prefix_of_label p (c ∷ cs) h = ground (arith, prefix_of_label (not (alnum c)) cs)

prefix-take :
    (p : Bool) (n : ℕ) (s : Text) → prefix_from p s ≡ true → prefix_from p (take n s) ≡ true
prefix-take p zero s h = refl
prefix-take p (suc n) [] h = refl
prefix-take p (suc n) (c ∷ cs) h = ground (arith, prefix-take (not (alnum c)) n cs)

-- A letter after a label, with or without a dash between them, is a label.
label-snoc :
    (p : Bool) (s : Text) (r : ℕ)
    → label_from p s ≡ true
    → alnum r ≡ true
    → (label_from p (s ++ r ∷ []) ≡ true) × (label_from p ((s ++ b'-' ∷ []) ++ r ∷ []) ≡ true)
unfolding alnum
label-snoc p [] r h a = ground arith
label-snoc p (c ∷ cs) r h a = ground (arith, label-snoc (not (alnum c)) cs r)

-- What the builder holds: nothing yet, or a label.
abbrev Built : Text → Type 0
Built b = (b ≡ []) ⊎ IsLabel b

write-Built : (b : Text) (p : Bool) (r : ℕ) → Built b → alnum r ≡ true → IsLabel (write b p r)
unfolding write alnum
write-Built [] p r (inl e) a = ground arith
write-Built [] p r (inr h) a = ground arith
write-Built (c ∷ cs) p r (inl e) a = absurd (cc)
write-Built (c ∷ cs) true r (inr h) a =
    rw (lt→ltb 0 (suc (length cs)) (omega arith)) (label-snoc true (c ∷ cs) r h a).1
write-Built (c ∷ cs) false r (inr h) a = (label-snoc true (c ∷ cs) r h a).0

step-Built : (b : Text) (p : Bool) (r : ℕ) → Built b → Built (if alnum r then write b p r else b)
step-Built b p r h = elim (Bool-cases (alnum r)) [
  | inl a ↦ rw a (inr (write-Built b p r h a))
  | inr n ↦ rw n h
]

scan-Built : (b : Text) (p : Bool) (s : Text) → Built b → Built (scan b p s)
unfolding scan
scan-Built b p [] h = h
scan-Built b p (r ∷ rs) h =
    scan-Built (if alnum r then write b p r else b) (not (alnum r)) rs (step-Built b p r h)

trim-label :
    (p : Bool) (s : Text)
    → prefix_from p s ≡ true
    → (trim_right s ≡ []) ⊎ (label_from p (trim_right s) ≡ true)
unfolding trim_right alnum
trim-label p [] h = inl refl
trim-label p (c ∷ cs) h = ground (arith, trim-label (not (alnum c)) cs)

take-ne-nil : (n : ℕ) (c : ℕ) (cs : Text) → take (suc n) (c ∷ cs) ≡ c ∷ take n cs
take-ne-nil n c cs = refl

-- The first character of a label is no dash, so trimming keeps it.
trim-ne-nil : (c : ℕ) (cs : Text) → alnum c ≡ true → trim_right (c ∷ cs) ≢ []
unfolding trim_right alnum
trim-ne-nil c cs a = ground arith

cut-Built : (s : Text) → Built s → Built (cut s)
unfolding cut
cut-Built s (inl e) = inl (rw e refl)
cut-Built s (inr h) = elim (Bool-cases (ltb slug_base_max_len (length s))) [
  | inl long ↦ rw long (
      trim-label true (take slug_base_max_len s)
        (prefix-take true slug_base_max_len s (prefix_of_label true s h)))
  | inr short ↦ rw short (inr h)
]

or_app-IsLabel : (s : Text) → Built s → IsLabel (or_app s)
unfolding or_app alnum
or_app-IsLabel [] h = refl
or_app-IsLabel (c ∷ cs) (inl e) = absurd (cc)
or_app-IsLabel (c ∷ cs) (inr h) = h

length-trim_le : (s : Text) → length (trim_right s) ≤ length s
unfolding trim_right
length-trim_le [] = omega arith
length-trim_le (c ∷ cs) = ground (arith, length-trim_le cs)

length-cut_le : (s : Text) → length (cut s) ≤ slug_base_max_len
unfolding cut
length-cut_le s =
    ground (arith, length-trim_le (take slug_base_max_len s), length-take slug_base_max_len s)

length-or_app_le : (s : Text) → length s ≤ slug_base_max_len → length (or_app s) ≤ slug_base_max_len
unfolding or_app
length-or_app_le [] h = omega arith
length-or_app_le (c ∷ cs) h = h

pub derive_base-IsLabel :
    (to_lower : Text → Text) (name : Text)
    → IsLabel (derive_base to_lower name) × (length (derive_base to_lower name) ≤ slug_base_max_len)
unfolding derive_base
derive_base-IsLabel to_lower name =
    let b = scan [] false (to_lower name) in
    (
      or_app-IsLabel (cut b) (cut-Built b (scan-Built [] false (to_lower name) (inl refl))),
      length-or_app_le (cut b) (length-cut_le b),
    )
