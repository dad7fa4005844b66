-- ===== src/Store/Queries.antt =====
-- The SQL statements behind a deployment: internal/store/queries/deployments.sql and apps.sql, as
-- internal/store/sqlcgen runs them.
use deployer.Domain.State.{State, queued, building, eq_state, terminal}
use deployer.Domain.Reason.{Reason}
use deployer.Store.{Deployment, DeploymentEvent, Release, App, ConfigRow, Db}
use deployer.Store.Tx.{Tx, ok, err, no_rows, constraint, broken_reference, failed_check}
use deployer.Store.Table.{find_by, update_by}
use deployer.Base.{
  Bool, List, Option, Text, [], any, false, if◌then◌else◌, is_some, ltb, max, none, not, some,
  text_eq, true, ℕ, ◌&&◌, ◌+◌, ◌==◌, ◌∷◌, leb, ◌||◌,
}

-- state NOT IN ('healthy', 'failed', 'cancelled')
unfoldable pub in_flight : Deployment → Bool
in_flight d = not (terminal d.state)

-- COALESCE(a, b)
abbrev pub coalesce {ℓ} : {A : Type ℓ} → Option A → Option A → Option A
coalesce none b = b
coalesce (some a) b = some a

unfoldable pub get_app : ℕ → Db → Option App
get_app id db = find_by (λ (a : App). a.id == id && not (is_some a.deleted_at)) db.apps

unfoldable pub get_deployment : ℕ → Db → Option Deployment
get_deployment id db = find_by (λ (d : Deployment). d.id == id) db.deployments

unfoldable pub get_in_flight_deployment_for_app : ℕ → Db → Option Deployment
unfolding in_flight
get_in_flight_deployment_for_app app_id db =
    find_by (λ (d : Deployment). d.app_id == app_id && in_flight d) db.deployments

unfoldable pub get_release : ℕ → Db → Option Release
get_release id db = find_by (λ (r : Release). r.id == id) db.releases

pub record UpdateDeploymentStateParams : Type 0 where
  pub state : State
  pub failure_reason : Option Reason
  pub started_at : Option ℕ
  pub finished_at : Option ℕ
  pub now : ℕ
  pub id : ℕ

-- The SET clause of UpdateDeploymentState.
unfoldable pub moved : UpdateDeploymentStateParams → Deployment → Deployment
moved p d = record d {
  state = p.state;
  failure_reason = coalesce p.failure_reason d.failure_reason;
  started_at = coalesce d.started_at p.started_at;
  finished_at = coalesce d.finished_at p.finished_at;
  updated_at = p.now;
}

unfoldable pub update_deployment_state : UpdateDeploymentStateParams → Tx Deployment
update_deployment_state p db = elim (get_deployment p.id db) [
  | none ↦ err no_rows
  | some d ↦ ok (
    moved p d,
    record db {
      deployments = update_by (λ (r : Deployment). r.id == p.id) (λ r. moved p r) db.deployments;
    },
  )
]

-- Whether the upload is there, if one is named.
upload_there : Option ℕ → List ℕ → Bool
upload_there none ids = true
upload_there (some id) ids = any (λ i. i == id) ids

-- The REFERENCES of account_id and upload_id. Those of app_id and source_release_id hold, since the
-- transaction has read these rows.
unfoldable pub refers : ℕ → Option ℕ → Db → Bool
unfolding upload_there
refers account_id upload_id db =
    any (λ i. i == account_id) db.account_ids && upload_there upload_id db.upload_ids

-- The INSERT, the partial unique index on the rows in flight, and the foreign keys.
unfoldable pub create_deployment_row : Deployment → Tx Deployment
unfolding refers
create_deployment_row d db =
    if is_some (get_in_flight_deployment_for_app d.app_id db)
    then err constraint
    else if refers d.account_id d.upload_id db
    then ok (d, record db { deployments = d ∷ db.deployments })
    else err broken_reference

unfoldable pub insert_deployment_event : DeploymentEvent → Tx (Unit {0})
insert_deployment_event e db = ok (tt, record db { events = e ∷ db.events })

-- ids.New: distinct, and later ids are larger.
unfoldable pub new_id : Tx ℕ
new_id db = ok (db.next_id, record db { next_id = db.next_id + 1 })

unfoldable pub max_number : ℕ → List Release → ℕ
max_number app_id [] = 0
max_number app_id (r ∷ l) =
    let rest = max_number app_id l in if r.app_id == app_id then max r.release_number rest else rest

-- COALESCE(MAX(release_number), 0) + 1
unfoldable pub next_release_number : ℕ → Db → ℕ
unfolding max_number
next_release_number app_id db = max_number app_id db.releases + 1

-- The INSERT, and the two unique constraints of the table.
unfoldable pub insert_release : Release → Tx Release
insert_release r db =
    if any (λ (s : Release). s.deployment_id == r.deployment_id) db.releases
    then err constraint
    else if any (λ (s : Release). s.app_id == r.app_id && s.release_number == r.release_number)
        db.releases
    then err constraint
    else ok (r, record db { releases = r ∷ db.releases })

unfoldable pub set_app_current_release : ℕ → ℕ → ℕ → Tx (Unit {0})
set_app_current_release release_id now id db = ok (
  tt,
  record db {
    apps =
        update_by (λ (a : App). a.id == id)
          (λ (a : App). record a { current_release_id = some release_id; updated_at = now })
          db.apps;
  },
)

remove_config : ℕ → List ConfigRow → List ConfigRow
remove_config app_id [] = []
remove_config app_id (c ∷ l) =
    let rest = remove_config app_id l in if c.app_id == app_id then rest else c ∷ rest

unfoldable pub clear_config : ℕ → Tx (Unit {0})
unfolding remove_config
clear_config app_id db = ok (tt, record db { app_config = remove_config app_id db.app_config })

-- INSERT ... ON CONFLICT (app_id, key) DO UPDATE
upsert_config : ConfigRow → List ConfigRow → List ConfigRow
upsert_config c [] = c ∷ []
upsert_config c (d ∷ l) =
    if d.app_id == c.app_id && text_eq d.key c.key then c ∷ l else d ∷ upsert_config c l

-- [A-Z_]
key_start : ℕ → Bool
key_start r = (leb b'A' r && leb r b'Z') || r == b'_'

-- CHECK (key GLOB '[A-Z_][A-Z0-9_]*'), where `*` is any text.
unfoldable pub glob_key : Text → Bool
unfolding key_start
glob_key (a ∷ b ∷ rest) = key_start a && (key_start b || (leb b'0' b && leb b b'9'))
glob_key _ = false

unfoldable pub set_config : ConfigRow → Tx (Unit {0})
unfolding upsert_config glob_key
set_config c db =
    if glob_key c.key
    then ok (tt, record db { app_config = upsert_config c db.app_config })
    else err failed_check

pub record RecordBuildResultParams : Type 0 where
  pub build_path : Option Text
  pub build_job_name : Option Text
  pub image_repo : Option Text
  pub image_digest : Option Text
  pub now : ℕ
  pub id : ℕ

unfoldable pub built : RecordBuildResultParams → Deployment → Deployment
built p d = record d {
  build_path = coalesce p.build_path d.build_path;
  build_job_name = coalesce p.build_job_name d.build_job_name;
  image_repo = coalesce p.image_repo d.image_repo;
  image_digest = coalesce p.image_digest d.image_digest;
  updated_at = p.now;
}

-- Whether a row has that id, which is the count of rows changed.
unfoldable pub record_build_result_row : RecordBuildResultParams → Tx Bool
record_build_result_row p db = ok (
  is_some (get_deployment p.id db),
  record db {
    deployments = update_by (λ (r : Deployment). r.id == p.id) (λ r. built p r) db.deployments;
  },
)

unfoldable pub claimable : Deployment → Bool
unfolding in_flight
claimable d = in_flight d && not (is_some d.claimed_at)

-- ORDER BY state != 'queued', id: whether `a` comes before `b`.
unfoldable pub before : Deployment → Deployment → Bool
before a b =
    let qa = eq_state a.state queued in
    let qb = eq_state b.state queued in
    if qa && not qb then true else if qb && not qa then false else ltb a.id b.id

unfoldable pub first_of_two : Deployment → Option Deployment → Deployment
unfolding before
first_of_two d none = d
first_of_two d (some e) = if before d e then d else e

-- The inner SELECT of ClaimNextDeployment, over the table.
unfoldable pub next_claimable : List Deployment → Option Deployment
unfolding claimable first_of_two
next_claimable [] = none
next_claimable (d ∷ l) =
    let rest = next_claimable l in if claimable d then some (first_of_two d rest) else rest

unfoldable pub claimed : ℕ → Text → Deployment → Deployment
claimed now claimed_by d = record d {
  claimed_at = some now;
  claimed_by = some claimed_by;
  updated_at = now;
}

unfoldable pub claim_next_deployment : ℕ → Text → Tx Deployment
claim_next_deployment now claimed_by db = elim (next_claimable db.deployments) [
  | none ↦ err no_rows
  | some d ↦ ok (
    claimed now claimed_by d,
    record db {
      deployments =
          update_by (λ (r : Deployment). r.id == d.id && not (is_some r.claimed_at))
            (λ r. claimed now claimed_by r) db.deployments;
    },
  )
]

-- The number of rows changed is the number that the WHERE selects.
unfoldable pub release_building_claim_row : ℕ → ℕ → Tx Bool
release_building_claim_row now id db = ok (
  is_some (find_by (λ (r : Deployment). r.id == id && eq_state r.state building) db.deployments),
  record db {
    deployments =
        update_by (λ (r : Deployment). r.id == id && eq_state r.state building)
          (λ (r : Deployment). record r { claimed_at = none; claimed_by = none; updated_at = now })
          db.deployments;
  },
)

-- ORDER BY id: the table has the newest id first.
live_oldest_first : List Deployment → List Deployment → List Deployment
unfolding in_flight
live_oldest_first out [] = out
live_oldest_first out (d ∷ l) = live_oldest_first (if in_flight d then d ∷ out else out) l

unfoldable pub list_non_terminal_deployments : Db → List Deployment
unfolding live_oldest_first
list_non_terminal_deployments db = live_oldest_first [] db.deployments
