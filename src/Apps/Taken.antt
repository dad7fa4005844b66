-- ===== src/Apps/Taken.antt =====
-- Which names and slugs are free for a new app, and what its creation answers.
use deployer.Base.{
  List, Bool, Bool-cases, inl, inr, true, false, ◌∷◌, ◌≡◌, ◌≤◌, ◌+◌, arith, refl, ℕ, leb, suc, zero,
  ◌||◌, ◌<◌,
}
use deployer.Domain.Slug.{reserved_label}
use deployer.Apps.{
  account_missing, account_exists, deployment_in_flight, not_found, App, Answer, Call, created,
  refused, app_name_reserved, app_limit, app_name_taken, slug_taken, attempt, create_app,
  count_live_apps_by_account, name_taken, slug_exists, app_row, slug_of, slug_attempts, violates,
}

-- The slugs of the attempts from number i on, n of them, all exist.
abbrev pub Exhausted : Call → List App → ℕ → ℕ → Type 0
Exhausted c apps zero i = Unit
Exhausted c apps (suc n) i = (slug_exists (slug_of c i) apps ≡ true) × Exhausted c apps n (i + 1)

-- The new row is that of one of the attempts below number n, its slug was free and so was its name.
abbrev pub IsFresh : Call → List App → ℕ → App → Type 0
IsFresh c apps n a =
    ((i : ℕ) × (a ≡ app_row c i) × (i < n))
    × (slug_exists a.slug apps ≡ false)
    × (name_taken c.account_id c.name apps ≡ false)

abbrev pub Attempted : Call → List App → ℕ → ℕ → Answer × List App → Type 0
Attempted c apps n i (created a, after) =
    IsFresh c apps (i + n) a × (account_exists c ≡ true) × (after ≡ a ∷ apps)
Attempted c apps n i (refused account_missing, after) = (account_exists c ≡ false) × (after ≡ apps)
Attempted c apps n i (refused slug_taken, after) = Exhausted c apps n i × (after ≡ apps)
Attempted c apps n i (refused app_name_taken, after) =
    (name_taken c.account_id c.name apps ≡ true) × (after ≡ apps)
Attempted c apps n i (refused _, after) = ⊥

later :
    (c : Call) (apps : List App) (n i : ℕ) (r : Answer × List App)
    → slug_exists (slug_of c i) apps ≡ true
    → Attempted c apps n (i + 1) r
    → Attempted c apps (suc n) i r
later c apps n i (created a, after) used h =
    (((h.0.0.0, h.0.0.1, omega (arith, h.0.0.2)), h.0.1, h.0.2), h.1, h.2)
later c apps n i (refused account_missing, after) used h = h
later c apps n i (refused slug_taken, after) used h = ((used, h.0), h.1)
later c apps n i (refused app_name_taken, after) used h = h
later c apps n i (refused app_name_reserved, after) used h = h
later c apps n i (refused app_limit, after) used h = h
later c apps n i (refused deployment_in_flight, after) used h = h
later c apps n i (refused not_found, after) used h = h

-- A violation that is not the name's is the slug's.
slug_stands : (slug name : Bool) → (slug || name) ≡ true → name ≡ false → slug ≡ true
slug_stands true name v free = refl
slug_stands false name v free = cc

no_violation : (slug name : Bool) → (slug || name) ≡ false → (slug ≡ false) × (name ≡ false)
no_violation true name v = cc
no_violation false name v = (refl, v)

attempt-Attempted :
    (c : Call) (apps : List App) (n i : ℕ) → Attempted c apps n i (attempt c apps n i)
unfolding attempt
attempt-Attempted c apps zero i = (tt, refl)
attempt-Attempted c apps (suc n) i = elim (Bool-cases (violates (app_row c i) apps)) [
  | inr free ↦
      let both = no_violation _ _ free in
      elim (Bool-cases (account_exists c)) [
        | inl there ↦ simp (free, there) (((i, refl, omega arith), both.0, both.1), refl, refl)
        | inr missing ↦ simp (free, missing) (refl, refl)
      ]
  | inl clash ↦ elim (Bool-cases (name_taken c.account_id c.name apps)) [
    | inl taken ↦ rw (clash, taken) (taken, refl)
    | inr open_name ↦
        rw (clash, open_name)
          (later c apps n i _ (slug_stands _ _ clash open_name)
            (attempt-Attempted c apps n (i + 1)))
  ]
]

-- What the creation answers, with the facts that it stands for.
abbrev pub Created : Call → List App → Answer × List App → Type 0
Created c apps (created a, after) =
    (reserved_label c.to_lower c.name ≡ false)
    × (count_live_apps_by_account c.account_id after ≤ c.limit)
    × IsFresh c apps slug_attempts a
    × (account_exists c ≡ true)
    × (after ≡ a ∷ apps)
Created c apps (refused account_missing, after) = (account_exists c ≡ false) × (after ≡ apps)
Created c apps (refused app_name_reserved, after) =
    (reserved_label c.to_lower c.name ≡ true) × (after ≡ apps)
Created c apps (refused app_limit, after) =
    (c.limit ≤ count_live_apps_by_account c.account_id apps) × (after ≡ apps)
Created c apps (refused app_name_taken, after) =
    (name_taken c.account_id c.name apps ≡ true) × (after ≡ apps)
Created c apps (refused slug_taken, after) = Exhausted c apps slug_attempts 0 × (after ≡ apps)
Created c apps (refused _, after) = ⊥

one_more_app :
    (c : Call) (apps : List App) (i : ℕ)
    → count_live_apps_by_account c.account_id (app_row c i ∷ apps)
      ≡ suc (count_live_apps_by_account c.account_id apps)
unfolding count_live_apps_by_account
one_more_app c apps i = ground arith

within :
    (c : Call) (apps after : List App) (a : App)
    → leb c.limit (count_live_apps_by_account c.account_id apps) ≡ false
    → IsFresh c apps slug_attempts a
    → after ≡ a ∷ apps
    → count_live_apps_by_account c.account_id after ≤ c.limit
within c apps after a room ((i, row, _), free, open_name) e =
    rw (e, row, one_more_app c apps i) (ground arith)

conclude :
    (c : Call) (apps : List App) (r : Answer × List App)
    → reserved_label c.to_lower c.name ≡ false
    → leb c.limit (count_live_apps_by_account c.account_id apps) ≡ false
    → Attempted c apps slug_attempts 0 r
    → Created c apps r
conclude c apps (created a, after) allowed room h =
    (allowed, within c apps after a room h.0 h.2, h.0, h.1, h.2)
conclude c apps (refused account_missing, after) allowed room h = h
conclude c apps (refused slug_taken, after) allowed room h = h
conclude c apps (refused app_name_taken, after) allowed room h = h
conclude c apps (refused app_name_reserved, after) allowed room h = absurd h
conclude c apps (refused app_limit, after) allowed room h = absurd h
conclude c apps (refused deployment_in_flight, after) allowed room h = absurd h
conclude c apps (refused not_found, after) allowed room h = absurd h

-- An app is created only under a name that is not reserved and that no live app of the account has, with
-- the slug of one of the five attempts, which no row has, deleted or not, and for an account that has a row;
-- the account is then within the limit. Each refusal leaves the table as it was and is true: the name is
-- reserved, the limit is reached, the name is taken, the slugs of all five attempts exist, or the account
-- has no row. No other error is answered.
pub create_app-Created : (c : Call) (apps : List App) → Created c apps (create_app c apps)
unfolding create_app
create_app-Created c apps = elim (Bool-cases (reserved_label c.to_lower c.name)) [
  | inl reserved ↦ rw reserved (reserved, refl)
  | inr allowed ↦ elim (Bool-cases (leb c.limit (count_live_apps_by_account c.account_id apps))) [
    | inl full ↦ rw (allowed, full) (ground arith, refl)
    | inr room ↦
        rw (allowed, room)
          (conclude c apps _ allowed room (attempt-Attempted c apps slug_attempts 0))
  ]
]
