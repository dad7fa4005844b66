-- ===== src/Store/Distinct.antt =====
-- UNIQUE over the rows of a table, and a test on some row, as inserts and updates change them.
use deployer.Base.{
  Text, text_eq, text_eq_sound, All, ◌∙◌, List, Bool, [], ◌∷◌, any, true, false, ◌≡◌, if◌then◌else◌,
  refl, arith, none, some, Bool-cases, inl, inr, ◌||◌,
}
use deployer.Store.Table.{update_by, find_by}

module _ {ℓ} {A : Type ℓ} where
  -- No row agrees with an older one.
  abbrev pub Distinct : (A → A → Bool) → List A → Type 0
  Distinct same [] = Unit
  Distinct same (a ∷ l) = (any (same a) l ≡ false) × Distinct same l

  -- The row as an UPDATE leaves it.
  abbrev pub updated : (A → Bool) → (A → A) → A → A
  updated p f a = if p a then f a else a

  still_apart :
      (same : A → A → Bool) (p : A → Bool) (f : A → A) (a : A) (l : List A)
      → ((b : A) → same a b ≡ false → same (updated p f a) (updated p f b) ≡ false)
      → any (same a) l ≡ false
      → any (same (updated p f a)) (update_by p f l) ≡ false
  unfolding update_by
  still_apart same p f a [] keep h = refl
  still_apart same p f a (b ∷ l) keep h = ground (arith, keep b, still_apart same p f a l keep)

  pub Distinct-update :
      (same : A → A → Bool) (p : A → Bool) (f : A → A) (l : List A)
      → ((a b : A) → same a b ≡ false → same (updated p f a) (updated p f b) ≡ false)
      → Distinct same l
      → Distinct same (update_by p f l)
  unfolding update_by
  Distinct-update same p f [] keep d = tt
  Distinct-update same p f (a ∷ l) keep d =
      (still_apart same p f a l (keep a) d.0, Distinct-update same p f l keep d.1)

  -- A test that the update turns on for no row.
  pub none-update :
      (q p : A → Bool) (f : A → A) (l : List A)
      → ((a : A) → q a ≡ false → q (updated p f a) ≡ false)
      → any q l ≡ false
      → any q (update_by p f l) ≡ false
  unfolding update_by
  none-update q p f [] keep h = refl
  none-update q p f (a ∷ l) keep h = ground (arith, keep a, none-update q p f l keep)

  -- A test that the update turns off for no row.
  pub some-update :
      (q p : A → Bool) (f : A → A) (l : List A)
      → ((a : A) → q a ≡ true → q (updated p f a) ≡ true)
      → any q l ≡ true
      → any q (update_by p f l) ≡ true
  unfolding update_by
  some-update q p f [] keep h = h
  some-update q p f (a ∷ l) keep h = ground (arith, keep a, some-update q p f l keep)

  -- An update that turns the test off wherever it stands.
  pub all-update :
      (q p : A → Bool) (f : A → A) (l : List A)
      → ((a : A) → q (updated p f a) ≡ false)
      → any q (update_by p f l) ≡ false
  unfolding update_by
  all-update q p f [] keep = refl
  all-update q p f (a ∷ l) keep = ground (arith, keep a, all-update q p f l keep)

  pub any-weaken :
      (p q : A → Bool) (l : List A)
      → ((a : A) → q a ≡ true → p a ≡ true)
      → any p l ≡ false
      → any q l ≡ false
  any-weaken p q [] le h = refl
  any-weaken p q (a ∷ l) le h = ground (arith, le a, any-weaken p q l le)

  pub any_mono :
      (p q : A → Bool) (l : List A)
      → ((a : A) → q a ≡ true → p a ≡ true)
      → any q l ≡ true
      → any p l ≡ true
  any_mono p q [] le h = h
  any_mono p q (a ∷ l) le h = ground (arith, le a, any_mono p q l le)

  -- What no row meets is not found.
  pub not_found-any : (p : A → Bool) (l : List A) → any p l ≡ false → find_by p l ≡ none
  unfolding find_by
  not_found-any p [] h = refl
  not_found-any p (a ∷ l) h = ground (arith, not_found-any p l)

  pub found-any : (p : A → Bool) (l : List A) (a : A) → find_by p l ≡ some a → any p l ≡ true
  unfolding find_by
  found-any p [] a h = cc
  found-any p (b ∷ l) a h = ground (arith, found-any p l a)

  none-All :
      (is : A → Bool) (P : A → Type ℓ) (l : List A)
      → any is l ≡ false
      → All (λ x. is x ≡ true → P x) l
  none-All is P [] h = tt
  none-All is P (x ∷ l) h =
      (λ e. absurd (clash (is x) (any is l) e h), none-All is P l (rest (is x) _ h))
    where
      clash : (b c : Bool) → b ≡ true → (b || c) ≡ false → ⊥
      clash b c e h = ground arith

      rest : (b c : Bool) → (b || c) ≡ false → c ≡ false
      rest b c h = ground arith

  -- Where a key is UNIQUE, the row that a SELECT finds by it is the only one that has it.
  pub sole :
      (same : A → A → Bool) (is q : A → Bool) (l : List A) (s : A)
      → ((x y : A) → is x ≡ true → same x y ≡ is y)
      → ((x : A) → q x ≡ true → is x ≡ true)
      → Distinct same l
      → find_by q l ≡ some s
      → All (λ x. is x ≡ true → x ≡ s) l
  unfolding find_by
  sole same is q [] s agrees below d found = tt
  sole same is q (x ∷ l) s agrees below d found = elim (Bool-cases (q x)) [
    | inl hit ↦
        let here : some x ≡ some s = rw hit at found in
        (
          λ e. cc here,
          none-All is (λ y. y ≡ s) l
              (any-weaken (same x) is l (λ y e. agrees x y (below x hit) ∙ e) d.0),
        )
    | inr miss ↦
        let there : find_by q l ≡ some s = rw miss at found in
        (
          λ e.
              let none_is : any is l ≡ false =
                any-weaken (same x) is l (λ y k. agrees x y e ∙ k) d.0 in
              let none_q : any q l ≡ false = any-weaken is q l below none_is in
              let some_q = found-any q l s there in cc (none_q, some_q),
          sole same is q l s agrees below d.1 there,
        )
  ]

  -- A key that a row has and a key that no row has.
  pub key_differs :
      (key : A → Text) (h k : Text) (l : List A)
      → any (λ (a : A). text_eq h (key a)) l ≡ true
      → any (λ (a : A). text_eq k (key a)) l ≡ false
      → text_eq h k ≡ false
  key_differs key h k l there free = elim (Bool-cases (text_eq h k)) [
    | inr differ ↦ differ
    | inl same ↦ let e = text_eq_sound h k same in let again = rw e at there in cc (again, free)
  ]

  -- A UNIQUE key.
  pub key_agrees :
      (key : A → Text) (h : Text) (x y : A)
      → text_eq h (key x) ≡ true
      → text_eq (key x) (key y) ≡ text_eq h (key y)
  key_agrees key h x y e = let k = text_eq_sound h (key x) e in rw k refl
