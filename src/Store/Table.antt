-- ===== src/Store/Table.antt =====
-- One row of a table: WHERE with at most one answer, and an UPDATE of the rows that a test selects.
use mathlib.Core.Path.{subst}
use deployer.Base.{
  All, Bool, Bool-cases, List, Option, [], arith, if◌then◌else◌, inl, inr, none, some, true, ◌∷◌,
  ◌≡◌,
}

module _ {ℓ} {A : Type ℓ} where
  unfoldable pub find_by : (A → Bool) → List A → Option A
  find_by p [] = none
  find_by p (a ∷ l) = if p a then some a else find_by p l

  unfoldable pub update_by : (A → Bool) → (A → A) → List A → List A
  update_by p f [] = []
  update_by p f (a ∷ l) = (if p a then f a else a) ∷ update_by p f l

  pub find_by_sound : (p : A → Bool) (l : List A) (a : A) → find_by p l ≡ some a → p a ≡ true
  unfolding find_by
  find_by_sound p [] a h = cc
  find_by_sound p (x ∷ l) a h = ground (arith, find_by_sound p l a)

  -- A property of every row that the update keeps.
  pub All-update {κ} :
      (P : A → Type κ) (p : A → Bool) (f : A → A) (l : List A)
      → ((a : A) → P a → P (f a))
      → All P l
      → All P (update_by p f l)
  unfolding update_by
  All-update P p f [] keep h = tt
  All-update P p f (a ∷ l) keep h = elim (Bool-cases (p a)) [
    | inl yes_it_is ↦ rw yes_it_is (keep a h.0, All-update P p f l keep h.1)
    | inr not_so ↦ rw not_so (h.0, All-update P p f l keep h.1)
  ]

  pub All-find {κ} :
      (P : A → Type κ) (p : A → Bool) (l : List A) (a : A) → All P l → find_by p l ≡ some a → P a
  unfolding find_by
  All-find P p [] a h e = cc
  All-find P p (x ∷ l) a h e = elim (Bool-cases (p x)) [
    | inl hit ↦ let q : some x ≡ some a = rw hit at e in let r : x ≡ a = cc q in subst P r h.0
    | inr miss ↦ All-find P p l a h.1 (rw miss at e)
  ]
