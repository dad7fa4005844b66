-- ===== src/Store/Deployments.antt =====
-- internal/store/deployments.go: the methods that move a deployment. `now` is the instant that the
-- method reads at its start. The empty Go string is `none`, or `[]` for a digest.
pub mod WellFormed
pub mod Supersede
pub mod Create
pub mod Move
pub mod Restore
pub mod Mint
pub mod Claims
pub mod Healthy
pub mod Writes
use Prim.Native.String.{String}
use deployer.Domain.State.{
  State, queued, healthy, failed, cancelled, terminal, can_transition, eq_state,
}
use deployer.Domain.Reason.{Reason, superseded}
use deployer.Domain.Config.{ConfigValue}
use deployer.Store.{Deployment, DeploymentEvent, Release, App, ConfigRow, Config, Db}
use deployer.Store.Tx.{
  Tx, Result, ok, err, not_found, app_deleted, source_ambiguous, illegal_transition, no_digest,
  release_exists, constraint, no_rows, ◌>>=◌, ◌>>◌, pure, throw, guard, gets, or_throw, in_tx,
}
use deployer.Store.Tx
use deployer.Store.Queries.{
  coalesce, get_app, get_deployment, get_in_flight_deployment_for_app, get_release,
  update_deployment_state, create_deployment_row, insert_deployment_event, new_id,
  next_release_number, insert_release, set_app_current_release, clear_config, set_config,
  record_build_result_row, claim_next_deployment, release_building_claim_row,
  list_non_terminal_deployments, UpdateDeploymentStateParams,
}
use deployer.Base.{
  Bool, Option, Text, [], if◌then◌else◌, is_nil, is_some, none, not, some, ℕ, ◌==◌, ◌∷◌, false,
  true,
}

pub record CreateDeploymentInput : Type 0 where
  pub app_id : ℕ
  pub account_id : ℕ
  pub upload_id : Option ℕ
  pub source_release_id : Option ℕ

-- The digest of the source release, which must be one of the app's own.
unfoldable pub source_digest : CreateDeploymentInput → Tx (Option Text)
source_digest input db = elim input.source_release_id [
  | none ↦ ok (none, db)
  | some rid ↦ elim (get_release rid db) [
    | none ↦ err not_found
    | some rel ↦
        if not (rel.app_id == input.app_id) then err not_found else ok (some rel.image_digest, db)
  ]
]

unfoldable pub cancel_params : ℕ → ℕ → UpdateDeploymentStateParams
cancel_params now id = record {
  state = cancelled;
  failure_reason = some superseded;
  started_at = none;
  finished_at = some now;
  now = now;
  id = id;
}

unfoldable pub cancel_event : ℕ → Deployment → ℕ → DeploymentEvent
cancel_event now d event_id = record {
  id = event_id;
  deployment_id = d.id;
  from_state = some d.state;
  to_state = cancelled;
  reason = some superseded;
  detail = none;
  occurred_at = now;
}

unfoldable pub cancel_superseded : ℕ → Deployment → Tx (Option ℕ)
unfolding cancel_params cancel_event
cancel_superseded now d = do
  update_deployment_state (cancel_params now d.id)
  event_id ← new_id
  insert_deployment_event (cancel_event now d event_id)
  pure (some d.id)

-- Cancels what is in flight for the app, and returns its id.
unfoldable pub supersede : ℕ → ℕ → Tx (Option ℕ)
unfolding cancel_superseded
supersede app_id now db = elim (get_in_flight_deployment_for_app app_id db) [
  | none ↦ ok (none, db)
  | some d ↦ cancel_superseded now d db
]

unfoldable pub new_row : CreateDeploymentInput → Option Text → ℕ → ℕ → Deployment
new_row input digest now id = record {
  id = id;
  app_id = input.app_id;
  account_id = input.account_id;
  upload_id = input.upload_id;
  source_release_id = input.source_release_id;
  state = queued;
  build_path = none;
  build_job_name = none;
  image_repo = none;
  image_digest = digest;
  failure_reason = none;
  claimed_at = none;
  claimed_by = none;
  started_at = none;
  finished_at = none;
  created_at = now;
  updated_at = now;
}

unfoldable pub birth_event : ℕ → ℕ → ℕ → DeploymentEvent
birth_event now id event_id = record {
  id = event_id;
  deployment_id = id;
  from_state = none;
  to_state = queued;
  reason = none;
  detail = none;
  occurred_at = now;
}

-- The INSERT of the new row, and its birth event.
unfoldable pub insert_new : CreateDeploymentInput → Option Text → ℕ → Tx Deployment
unfolding new_row birth_event
insert_new input digest now = do
  id ← new_id
  out ← create_deployment_row (new_row input digest now id)
  event_id ← new_id
  insert_deployment_event (birth_event now id event_id)
  pure out

unfoldable pub create_tx : CreateDeploymentInput → ℕ → Tx (Deployment × Option ℕ)
create_tx input now = do
  app ← gets (get_app input.app_id)
  or_throw app app_deleted
  digest ← source_digest input
  superseded_id ← supersede input.app_id now
  out ← insert_new input digest now
  pure (out, superseded_id)

-- (a == nil) == (b == nil)
unfoldable pub same_presence : Option ℕ → Option ℕ → Bool
same_presence none none = true
same_presence (some a) (some b) = true
same_presence _ _ = false

unfoldable pub create_deployment :
    CreateDeploymentInput → ℕ → Db → Result (Deployment × Option ℕ) × Db
unfolding same_presence create_tx source_digest supersede insert_new in_tx
create_deployment input now db =
    if same_presence input.upload_id input.source_release_id
    then (err source_ambiguous, db)
    else in_tx (create_tx input now) db

unfoldable pub move_params : Deployment → State → Option Reason → ℕ → UpdateDeploymentStateParams
move_params dep to reason now = record {
  state = to;
  failure_reason = if eq_state to failed then reason else none;
  started_at = if eq_state dep.state queued then some now else none;
  finished_at = if terminal to then some now else none;
  now = now;
  id = dep.id;
}

unfoldable pub move_event :
    Deployment → State → Option Reason → Option String → ℕ → ℕ → DeploymentEvent
move_event dep to reason detail now event_id = record {
  id = event_id;
  deployment_id = dep.id;
  from_state = some dep.state;
  to_state = to;
  reason = reason;
  detail = detail;
  occurred_at = now;
}

-- The row update of a checked move, and its event.
unfoldable pub apply_transition :
    Deployment → State → Option Reason → Option String → ℕ → Tx Deployment
unfolding move_params move_event
apply_transition dep to reason detail now = do
  updated ← update_deployment_state (move_params dep to reason now)
  event_id ← new_id
  insert_deployment_event (move_event dep to reason detail now event_id)
  pure updated

-- The row to move, and the two refusals.
unfoldable pub checked : ℕ → State → Tx Deployment
checked id to = do
  found ← gets (get_deployment id)
  dep ← or_throw found not_found
  guard (not (terminal dep.state)) Tx.terminal
  guard (can_transition dep.state to) illegal_transition
  pure dep

unfoldable pub transition_tx : ℕ → State → Option Reason → Option String → ℕ → Tx Deployment
transition_tx id to reason detail now = do
  dep ← checked id to
  apply_transition dep to reason detail now

unfoldable pub transition :
    ℕ → State → Option Reason → Option String → ℕ → Db → Result Deployment × Db
unfolding transition_tx checked apply_transition in_tx
transition id to reason detail now db =
    if eq_state to healthy
    then (err illegal_transition, db)
    else in_tx (transition_tx id to reason detail now) db

pub record BuildResult : Type 0 where
  pub build_path : Text
  pub build_job_name : Text
  pub image_repo : Text
  pub image_digest : Text

-- A field that the caller left empty is not set.
given : Text → Option Text
given [] = none
given (c ∷ cs) = some (c ∷ cs)

-- One statement outside a transaction.
unfoldable pub record_build_result : ℕ → BuildResult → ℕ → Db → Result (Unit {0}) × Db
unfolding given record_build_result_row
record_build_result id r now db =
    in_tx
      (do
        changed ← record_build_result_row (record {
          build_path = given r.build_path;
          build_job_name = given r.build_job_name;
          image_repo = given r.image_repo;
          image_digest = given r.image_digest;
          now = now;
          id = id;
        })
        guard changed not_found)
      db

unfoldable pub deref : Option Text → Text
deref none = []
deref (some t) = t

unfoldable pub set_all : ℕ → Config → ℕ → Tx (Unit {0})
set_all app_id [] now = pure tt
set_all app_id ((k, v) ∷ rest) now = do
  set_config (record { app_id = app_id; key = k; value = v; updated_at = now })
  set_all app_id rest now

unfoldable pub replace_config : ℕ → Config → ℕ → Tx (Unit {0})
unfolding set_all
replace_config app_id config now = do clear_config app_id; set_all app_id config now

-- A unique violation means that the deployment has its release already.
unfoldable pub or_exists : {A : Type 0} → Tx A → Tx A
or_exists m db = elim (m db) [ ok r ↦ ok r | err constraint ↦ err release_exists | err e ↦ err e ]

unfoldable pub mint_release : Deployment → Config → ℕ → Tx Release
unfolding or_exists deref
mint_release current config now = do
  number ← gets (next_release_number current.app_id)
  rid ← new_id
  rel ← or_exists (
      insert_release (record {
        id = rid;
        app_id = current.app_id;
        deployment_id = current.id;
        release_number = number;
        image_digest = deref current.image_digest;
        config_snapshot = config;
        created_at = now;
      }))
  set_app_current_release rel.id now current.app_id
  pure rel

unfoldable pub restore_config : Deployment → Config → ℕ → Tx (Unit {0})
unfolding replace_config
restore_config current config now =
    if is_some current.source_release_id then replace_config current.app_id config now else pure tt

unfoldable pub healthy_tx : ℕ → Config → ℕ → Tx (Deployment × Release)
unfolding deref
healthy_tx id config now = do
  current ← checked id healthy
  guard (not (is_nil (deref current.image_digest))) no_digest
  dep ← apply_transition current healthy none none now
  rel ← mint_release current config now
  restore_config current config now
  pure (dep, rel)

unfoldable pub mark_healthy : ℕ → Config → ℕ → Db → Result (Deployment × Release) × Db
unfolding healthy_tx checked apply_transition mint_release restore_config in_tx
mark_healthy id config now db = in_tx (healthy_tx id config now) db

-- sql.ErrNoRows of the claim is ErrNotFound.
unfoldable pub or_not_found : {A : Type 0} → Result A → Result A
or_not_found (ok a) = ok a
or_not_found (err no_rows) = err not_found
or_not_found (err e) = err e

unfoldable pub claim_next : Text → ℕ → Db → Result Deployment × Db
unfolding or_not_found in_tx
claim_next claimed_by now db =
    let (r, db') = in_tx (claim_next_deployment now claimed_by) db in (or_not_found r, db')

unfoldable pub release_building_claim : ℕ → ℕ → Db → Result Bool × Db
unfolding in_tx
release_building_claim id now db = in_tx (release_building_claim_row now id) db
