-- ===== src/Apps/Unique.antt =====
-- What holds of the table of apps between two calls: no slug occurs twice, and no live name of an account.
use deployer.Base.{
  ltb, leb, ◌∙◌, Text, List, Bool, Bool-cases, inl, inr, true, false, [], ◌∷◌, any, ◌≡◌, ◌+◌, ◌&&◌,
  ◌||◌, arith, refl, ℕ, if◌then◌else◌, suc, zero,
}
use deployer.Domain.Slug.{reserved_label}
use deployer.Store.{Deployment}
use deployer.Store.Table.{update_by}
use deployer.Apps.{
  account_missing, account_exists, Answer, created, refused, app_name_reserved, app_limit,
  app_name_taken, slug_taken, deployment_in_flight, not_found, count_live_apps_by_account,
  count_in_flight_deployments_for_app, App, Call, attempt, create_app, app_row, is_live, has_slug,
  live_app, violates, slug_exists, name_taken, live_id, retired, soft_delete_app, slug_attempts,
}
use deployer.Apps.Taken.{Created, create_app-Created}

abbrev pub clashes : App → App → Bool
clashes a b = has_slug a.slug b || (is_live a && live_app a.account_id a.name b)

abbrev pub IsUnique : List App → Type 0
IsUnique [] = Unit
IsUnique (a ∷ l) = (any (clashes a) l ≡ false) × IsUnique l

apart :
    (c : Call) (i : ℕ) (l : List App)
    → violates (app_row c i) l ≡ false
    → any (clashes (app_row c i)) l ≡ false
unfolding slug_exists name_taken
apart c i [] free = refl
apart c i (b ∷ l) free = ground (arith, apart c i l)

-- A row that the update may have retired.
abbrev pub maybe_retired : ℕ → ℕ → App → App
maybe_retired now id a = if live_id id a then retired now a else a

less_clashes :
    (now id : ℕ) (a b : App)
    → clashes a b ≡ false
    → clashes (maybe_retired now id a) (maybe_retired now id b) ≡ false
less_clashes now id a b free = ground arith

still_apart :
    (now id : ℕ) (a : App) (l : List App)
    → any (clashes a) l ≡ false
    → any (clashes (maybe_retired now id a)) (update_by (live_id id) (retired now) l) ≡ false
unfolding update_by
still_apart now id a [] free = refl
still_apart now id a (b ∷ l) free = ground (arith, less_clashes now id a b, still_apart now id a l)

update-IsUnique :
    (now id : ℕ) (l : List App) → IsUnique l → IsUnique (update_by (live_id id) (retired now) l)
unfolding update_by
update-IsUnique now id [] u = tt
update-IsUnique now id (a ∷ l) u = (still_apart now id a l u.0, update-IsUnique now id l u.1)

attempt-IsUnique :
    (c : Call) (apps : List App) (n i : ℕ) → IsUnique apps → IsUnique (attempt c apps n i).1
unfolding attempt
attempt-IsUnique c apps zero i u = u
attempt-IsUnique c apps (suc n) i u = elim (Bool-cases (violates (app_row c i) apps)) [
  | inr free ↦ elim (Bool-cases (account_exists c)) [
    | inl there ↦ simp (free, there) (apart c i apps free, u)
    | inr missing ↦ simp (free, missing) u
  ]
  | inl clash ↦ elim (Bool-cases (name_taken c.account_id c.name apps)) [
    | inl taken ↦ rw (clash, taken) u
    | inr open_name ↦ rw (clash, open_name) (attempt-IsUnique c apps n (i + 1) u)
  ]
]

create_app-IsUnique : (c : Call) (apps : List App) → IsUnique apps → IsUnique (create_app c apps).1
unfolding create_app
create_app-IsUnique c apps u = elim (Bool-cases (reserved_label c.to_lower c.name)) [
  | inl reserved ↦ rw reserved u
  | inr allowed ↦ elim (Bool-cases (leb c.limit (count_live_apps_by_account c.account_id apps))) [
    | inl full ↦ rw (allowed, full) u
    | inr room ↦ rw (allowed, room) (attempt-IsUnique c apps slug_attempts 0 u)
  ]
]

soft_delete_app-IsUnique :
    (now id : ℕ) (deployments : List Deployment) (apps : List App)
    → IsUnique apps
    → IsUnique (soft_delete_app now id deployments apps).1
unfolding soft_delete_app
soft_delete_app-IsUnique now id deployments apps u =
    elim (Bool-cases (ltb 0 (count_in_flight_deployments_for_app id deployments))) [
      | inl busy ↦ rw busy u
      | inr idle ↦ elim (Bool-cases (any (live_id id) apps)) [
        | inl there ↦ rw (idle, there) (update-IsUnique now id apps u)
        | inr gone ↦ rw (idle, gone) u
      ]
    ]

-- A creation, or a deletion with its time, its app and the deployments at that time.
pub data Op : Type 0 where
  creation : Call → Op
  deletion : ℕ → ℕ → List Deployment → Op

abbrev pub act : Op → List App → List App
act (creation c) apps = (create_app c apps).1
act (deletion now id deployments) apps = (soft_delete_app now id deployments apps).1

abbrev pub act_all : List Op → List App → List App
act_all [] apps = apps
act_all (o ∷ ops) apps = act_all ops (act o apps)

act-IsUnique : (o : Op) (apps : List App) → IsUnique apps → IsUnique (act o apps)
act-IsUnique (creation c) apps u = create_app-IsUnique c apps u
act-IsUnique (deletion now id deployments) apps u =
    soft_delete_app-IsUnique now id deployments apps u

-- However apps are created and deleted, no slug occurs twice in the table, among the deleted rows too, and
-- no two live apps of an account have one name, if so it was before.
pub act_all-IsUnique :
    (ops : List Op) (apps : List App) → IsUnique apps → IsUnique (act_all ops apps)
act_all-IsUnique [] apps u = u
act_all-IsUnique (o ∷ ops) apps u = act_all-IsUnique ops (act o apps) (act-IsUnique o apps u)

any_after :
    (slug : Text) (now id : ℕ) (l : List App)
    → any (has_slug slug) (update_by (live_id id) (retired now) l) ≡ any (has_slug slug) l
unfolding update_by
any_after slug now id [] = refl
any_after slug now id (a ∷ l) = ground (arith, any_after slug now id l)

kept_by_creation :
    (slug : Text) (c : Call) (apps : List App) (r : Answer × List App)
    → Created c apps r
    → slug_exists slug apps ≡ true
    → slug_exists slug r.1 ≡ true
unfolding slug_exists
kept_by_creation slug c apps (created a, after) h there = rw h.4 (ground arith)
kept_by_creation slug c apps (refused app_name_reserved, after) h there = rw h.1 there
kept_by_creation slug c apps (refused account_missing, after) h there = rw h.1 there
kept_by_creation slug c apps (refused app_limit, after) h there = rw h.1 there
kept_by_creation slug c apps (refused app_name_taken, after) h there = rw h.1 there
kept_by_creation slug c apps (refused slug_taken, after) h there = rw h.1 there
kept_by_creation slug c apps (refused deployment_in_flight, after) h there = absurd h
kept_by_creation slug c apps (refused not_found, after) h there = absurd h

kept_by_deletion :
    (slug : Text) (now id : ℕ) (deployments : List Deployment) (apps : List App)
    → slug_exists slug apps ≡ true
    → slug_exists slug (soft_delete_app now id deployments apps).1 ≡ true
unfolding slug_exists soft_delete_app
kept_by_deletion slug now id deployments apps there =
    elim (Bool-cases (ltb 0 (count_in_flight_deployments_for_app id deployments))) [
      | inl busy ↦ rw busy there
      | inr idle ↦ elim (Bool-cases (any (live_id id) apps)) [
        | inl here ↦ rw (idle, here) (any_after slug now id apps ∙ there)
        | inr gone ↦ rw (idle, gone) there
      ]
    ]

slug_stays :
    (slug : Text) (ops : List Op) (apps : List App)
    → slug_exists slug apps ≡ true
    → slug_exists slug (act_all ops apps) ≡ true
slug_stays slug [] apps there = there
slug_stays slug (creation c ∷ ops) apps there =
    slug_stays slug ops _ (kept_by_creation slug c apps _ (create_app-Created c apps) there)
slug_stays slug (deletion now id deployments ∷ ops) apps there =
    slug_stays slug ops _ (kept_by_deletion slug now id deployments apps there)

free_before :
    (c : Call) (apps after : List App) (a : App)
    → create_app c apps ≡ (created a, after)
    → slug_exists a.slug apps ≡ false
free_before c apps after a e =
    let given = create_app-Created c apps in
    let h : Created c apps (created a, after) = rw e at given in h.2.1

-- A slug that a row once had is never the slug of an app created later, whatever is created and deleted in
-- between, the app of that row too.
pub slug-never_reused :
    (slug : Text) (ops : List Op) (apps : List App) (c : Call) (a : App) (after : List App)
    → slug_exists slug apps ≡ true
    → create_app c (act_all ops apps) ≡ (created a, after)
    → ¬ (a.slug ≡ slug)
slug-never_reused slug ops apps c a after there e same =
    let given = free_before c (act_all ops apps) after a e in
    let free : slug_exists slug (act_all ops apps) ≡ false = rw same at given in
    let stays = slug_stays slug ops apps there in cc (free, stays)
