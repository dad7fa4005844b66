-- ===== src/Invites/Rows.antt =====
-- Lookups by primary key after an update by primary key.
use deployer.Base.{
  List, Bool, Option, some, none, false, [], ◌∷◌, is_some, if◌then◌else◌, ◌==◌, ◌≡◌, ℕ, refl, arith,
  Bool-cases, Option-cases, inl, inr, Text,
}
use deployer.Store.Table.{find_by}
use deployer.Invites.{Invite, update_row, used_code}

abbrev pub has_id : ℕ → Invite → Bool
has_id k i = i.id == k

abbrev pub at : ℕ → List Invite → Option Invite
at k l = find_by (has_id k) l

abbrev pub test? : (Invite → Bool) → Option Invite → Bool
test? t none = false
test? t (some i) = t i

abbrev pub change? : (Invite → Invite) → Option Invite → Option Invite
change? f none = none
change? f (some i) = some (f i)

pub update-touches :
    (k : ℕ) (t : Invite → Bool) (f : Invite → Invite) (l : List Invite)
    → is_some (update_row k t f l) ≡ test? t (at k l)
unfolding update_row find_by
update-touches k t f [] = refl
update-touches k t f (i ∷ l) = ground (arith, update-touches k t f l)

pub at-update :
    (k j : ℕ) (t : Invite → Bool) (f : Invite → Invite) (l l' : List Invite)
    → ((i : Invite) → (f i).id ≡ i.id)
    → update_row k t f l ≡ some l'
    → at j l' ≡ (if k == j then change? f (at k l) else at j l)
unfolding update_row find_by
at-update k j t f [] l' keep h = absurd (cc)
at-update k j t f (i ∷ l) l' keep h = elim (Bool-cases (i.id == k)) [
  | inl here ↦ ground (arith, h, keep i, here)
  | inr other ↦ elim (Option-cases (update_row k t f l)) [
    | inl missed ↦ absurd (ground (arith, h, other, missed))
    | inr (l'', done) ↦
        let shown : i ∷ l'' ≡ l' = ground (arith, h, other, done) in
        rw⁻¹ shown (ground (arith, other, at-update k j t f l l'' keep done))
  ]
]

pub same_codes :
    (k : ℕ) (t : Invite → Bool) (f : Invite → Invite) (h : Text) (l l' : List Invite)
    → ((i : Invite) → (f i).code_hash ≡ i.code_hash)
    → update_row k t f l ≡ some l'
    → used_code h l' ≡ used_code h l
unfolding update_row
same_codes k t f h [] l' keep e = absurd (cc)
same_codes k t f h (i ∷ l) l' keep e = elim (Bool-cases (i.id == k)) [
  | inl here ↦ ground (arith, e, keep i, here)
  | inr other ↦ elim (Option-cases (update_row k t f l)) [
    | inl missed ↦ absurd (ground (arith, e, other, missed))
    | inr (l'', done) ↦
        let shown : i ∷ l'' ≡ l' = ground (arith, e, other, done) in
        rw⁻¹ shown (ground (arith, same_codes k t f h l l'' keep done))
  ]
]
