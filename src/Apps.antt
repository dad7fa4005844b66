-- ===== src/Apps.antt =====
-- CreateApp and SoftDeleteApp of internal/store/apps.go, with the statements of
-- internal/store/sqlcgen/apps.sql.go. The table holds the newest row first; the list that a function
-- returns is what its transaction leaves. Ids and stamps are as in Store.
pub mod Taken
pub mod Unique
use deployer.Base.{
  Text, List, Bool, Option, none, some, [], ◌∷◌, is_some, any, if◌then◌else◌, not, ◌&&◌, ◌||◌, ◌==◌,
  leb, ltb, ◌+◌, text_eq, ℕ, suc, zero,
}
use deployer.Store.{Deployment}
use deployer.Store.Queries.{in_flight}
use deployer.Store.Table.{update_by}
use deployer.Domain.Slug.{derive_slug_with_suffix, reserved_label}

pub record App : Type 0 where
  pub id : ℕ
  pub account_id : ℕ
  pub name : Text
  pub slug : Text
  pub current_release_id : Option ℕ
  pub deleted_at : Option ℕ
  pub created_at : ℕ
  pub updated_at : ℕ

pub data Refusal : Type 0 where
  app_name_reserved app_limit app_name_taken slug_taken deployment_in_flight not_found : Refusal
  -- The error of the REFERENCES of account_id, wrapped.
  account_missing : Refusal

pub data Answer : Type 0 where
  created : App → Answer
  refused : Refusal → Answer

-- What a call is given: its time, the next ULID, the account, the name and the limit. `suffix i` is the
-- suffix of the attempt numbered i, and `to_lower` is strings.ToLower. `accounts` are the ids of the rows of
-- the table accounts at that time.
pub record Call : Type 0 where
  pub to_lower : Text → Text
  pub suffix : ℕ → Text
  pub now : ℕ
  pub next_id : ℕ
  pub accounts : List ℕ
  pub account_id : ℕ
  pub name : Text
  pub limit : ℕ

abbrev pub is_live : App → Bool
is_live a = not (is_some a.deleted_at)

abbrev pub count_if {ℓ} : {A : Type ℓ} → (A → Bool) → List A → ℕ
count_if p [] = 0
count_if p (a ∷ l) = (if p a then 1 else 0) + count_if p l

abbrev pub live_of : ℕ → App → Bool
live_of account a = a.account_id == account && is_live a

unfoldable pub count_live_apps_by_account : ℕ → List App → ℕ
count_live_apps_by_account account apps = count_if (live_of account) apps

abbrev pub live_app : ℕ → Text → App → Bool
live_app account name a = a.account_id == account && text_eq name a.name && is_live a

abbrev pub has_slug : Text → App → Bool
has_slug slug a = text_eq slug a.slug

-- A live app of the account has the name.
unfoldable pub name_taken : ℕ → Text → List App → Bool
name_taken account name apps = any (live_app account name) apps

-- A row, deleted or not, has the slug.
unfoldable pub slug_exists : Text → List App → Bool
slug_exists slug apps = any (has_slug slug) apps

-- The UNIQUE of slug, and the unique index of the live names.
abbrev pub violates : App → List App → Bool
violates a apps = slug_exists a.slug apps || name_taken a.account_id a.name apps

abbrev pub slug_of : Call → ℕ → Text
slug_of c i = derive_slug_with_suffix c.to_lower c.name (c.suffix i)

abbrev pub app_row : Call → ℕ → App
app_row c i = record {
  id = c.next_id + i;
  account_id = c.account_id;
  name = c.name;
  slug = slug_of c i;
  current_release_id = none;
  deleted_at = none;
  created_at = c.now;
  updated_at = c.now;
}

-- The REFERENCES of account_id, which is met after the unique indexes.
abbrev pub account_exists : Call → Bool
account_exists c = any (λ i. i == c.account_id) c.accounts

-- The attempts from number i on, n of them.
unfoldable pub attempt : Call → List App → ℕ → ℕ → Answer × List App
attempt c apps zero i = (refused slug_taken, apps)
attempt c apps (suc n) i =
    let rest = attempt c apps n (i + 1) in
    if violates (app_row c i) apps
    then if name_taken c.account_id c.name apps then (refused app_name_taken, apps) else rest
    else if account_exists c
    then (created (app_row c i), app_row c i ∷ apps)
    else (refused account_missing, apps)

abbrev pub slug_attempts : ℕ
slug_attempts = 5

unfoldable pub create_app : Call → List App → Answer × List App
unfolding attempt
create_app c apps =
    if reserved_label c.to_lower c.name
    then (refused app_name_reserved, apps)
    else if leb c.limit (count_live_apps_by_account c.account_id apps)
    then (refused app_limit, apps)
    else attempt c apps slug_attempts 0

unfoldable pub count_in_flight_deployments_for_app : ℕ → List Deployment → ℕ
count_in_flight_deployments_for_app app_id l =
    count_if (λ (d : Deployment). d.app_id == app_id && in_flight d) l

abbrev pub live_id : ℕ → App → Bool
live_id id a = a.id == id && is_live a

abbrev pub retired : ℕ → App → App
retired now a = record a { deleted_at = some now; updated_at = now }

-- `none` for no error.
unfoldable pub soft_delete_app : ℕ → ℕ → List Deployment → List App → Option Refusal × List App
unfolding update_by count_in_flight_deployments_for_app
soft_delete_app now id deployments apps =
    if ltb 0 (count_in_flight_deployments_for_app id deployments)
    then (some deployment_in_flight, apps)
    else if any (live_id id) apps
    then (none, update_by (live_id id) (retired now) apps)
    else (some not_found, apps)
