-- ===== src/Tests/Deploys.antt =====
-- The store, at concrete tables: one app, with nothing in flight, with one deployment that waits,
-- and with one that is coming up.
use deployer.Base.{
  Text, codes, List, Option, [], arith, false, is_nil, none, refl, some, true, ℕ, ◌∷◌, ◌≡◌,
}
use deployer.Domain.State.{
  terminal, State, queued, deploying, healthy, failed, can_transition, eq_state, terminal,
}
use deployer.Store.{App, Deployment, DeploymentEvent, Db, Config}
use deployer.Store.Deployments.WellFormed.{IsWellFormed, born, step}
use deployer.Store.Deployments.{
  CreateDeploymentInput, same_presence, source_digest, deref, create_deployment, mark_healthy,
  new_row, move_params,
}
use deployer.Store.Queries.{
  get_app, get_in_flight_deployment_for_app, get_deployment, claimed, in_flight, moved, refers,
}
use deployer.Store.Deployments.Move.{Outcome, Checks, transition-Outcome}
use deployer.Store.Table.{find_by}
use deployer.Store.Tx.{ok}
use deployer.Domain.Reason.{timeout}
use deployer.Store.Deployments.Create.{create_deployment_succeeds}
use deployer.Store.Deployments.Supersede.{in_flight_id}
use deployer.Store.Deployments.Mint.{
  the_release, risen, after_mint, mark_healthy_succeeds, IsNextNumber,
}
use deployer.Store.Deployments.Writes.{
  Write, after_writes, claims, after_writes-IsWellFormed, rises, moves, creates, lets_go,
}

abbrev shop : App
shop = record {
  id = 1;
  account_id = 2;
  slug = codes "my-shop-2-bcd234";
  current_release_id = none;
  deleted_at = none;
  updated_at = 5;
}

abbrev row : State → Option Text → Deployment
row state digest = record {
  id = 10;
  app_id = 1;
  account_id = 2;
  upload_id = some 7;
  source_release_id = none;
  state = state;
  build_path = none;
  build_job_name = none;
  image_repo = none;
  image_digest = digest;
  failure_reason = none;
  claimed_at = none;
  claimed_by = none;
  started_at = none;
  finished_at = none;
  created_at = 6;
  updated_at = 6;
}

abbrev event : ℕ → Option State → State → DeploymentEvent
event id from to = record {
  id = id;
  deployment_id = 10;
  from_state = from;
  to_state = to;
  reason = none;
  detail = none;
  occurred_at = 6;
}

abbrev tables : List Deployment → List DeploymentEvent → Db
tables ds es = record {
  deployments = ds;
  events = es;
  releases = [];
  apps = shop ∷ [];
  app_config = [];
  account_ids = 2 ∷ [];
  upload_ids = 8 ∷ 7 ∷ [];
  next_id = 20;
}

abbrev idle : Db
idle = tables [] []

abbrev waiting : Db
waiting = tables (row queued none ∷ []) (event 11 none queued ∷ [])

abbrev coming_up : Db
coming_up =
    tables (row deploying (some (codes "sha256:ab")) ∷ [])
      (event 12 (some queued) deploying ∷ event 11 none queued ∷ [])

waiting-IsWellFormed : IsWellFormed waiting
waiting-IsWellFormed = record {
  ids = (omega arith, tt);
  flight = (tt, tt);
  logged = (born refl refl refl refl tt, tt);
  known = (omega arith, tt);
}

queued_to_deploying : can_transition queued deploying ≡ true
unfolding can_transition
queued_to_deploying = refl

coming_up-IsWellFormed : IsWellFormed coming_up
coming_up-IsWellFormed = record {
  ids = (omega arith, tt);
  flight = (tt, tt);
  logged = (step refl refl refl queued_to_deploying (born refl refl refl refl tt), tt);
  known = (omega arith, (omega arith, tt));
}

abbrev upload : CreateDeploymentInput
upload = record { app_id = 1; account_id = 2; upload_id = some 8; source_release_id = none }

one_source : same_presence upload.upload_id upload.source_release_id ≡ false
unfolding same_presence
one_source = refl

app_found : get_app 1 waiting ≡ some shop
unfolding get_app find_by
app_found = refl

no_digest_yet : source_digest upload waiting ≡ ok (none, waiting)
unfolding source_digest
no_digest_yet = refl

both_there : refers upload.account_id upload.upload_id waiting ≡ true
unfolding refers
both_there = refl

create_deployment_succeeds_example :
    (db' : Db) × (id : ℕ) × (create_deployment upload 30 waiting ≡ (
      ok (new_row upload none 30 id, in_flight_id (get_in_flight_deployment_for_app 1 waiting)),
      db',
    ))
    × (get_in_flight_deployment_for_app 1 db' ≡ some (new_row upload none 30 id))
    × IsWellFormed db'
create_deployment_succeeds_example =
    create_deployment_succeeds upload 30 waiting shop none waiting-IsWellFormed one_source app_found
      no_digest_yet both_there

supersedes : in_flight_id (get_in_flight_deployment_for_app 1 waiting) ≡ some 10
unfolding get_in_flight_deployment_for_app find_by in_flight terminal
supersedes = refl

not_healthy : eq_state failed healthy ≡ false
unfolding eq_state
not_healthy = refl

transition-Outcome_example : Outcome 10 failed (some timeout) none 40 waiting
transition-Outcome_example = transition-Outcome 10 failed (some timeout) none 40 waiting not_healthy

abbrev risen_row : Deployment
risen_row = row deploying (some (codes "sha256:ab"))

it_is_there : get_deployment 10 coming_up ≡ some risen_row
unfolding get_deployment find_by
it_is_there = refl

it_may_rise : Checks 10 healthy coming_up risen_row
unfolding terminal can_transition
it_may_rise = record { found = it_is_there; live = refl; legal = refl }

has_digest : is_nil (deref risen_row.image_digest) ≡ false
unfolding deref
has_digest = refl

abbrev one_key : Config
one_key = (codes "LANG", record { value = codes "C"; secret = false }) ∷ []

mark_healthy_succeeds_example :
    (db' : Db) × (mark_healthy 10 one_key 50 coming_up ≡ (
      ok (
        moved (move_params risen_row healthy none 50) risen_row,
        the_release risen_row one_key 50 (risen risen_row 50 coming_up),
      ),
      db',
    ))
    × (db'.deployments ≡ (risen risen_row 50 coming_up).deployments)
    × (db'.releases ≡ the_release risen_row one_key 50 (risen risen_row 50 coming_up) ∷ [])
    × IsNextNumber risen_row.app_id
        (the_release risen_row one_key 50 (risen risen_row 50 coming_up)).release_number
        []
    × (db'.apps ≡ (after_mint risen_row one_key 50 (risen risen_row 50 coming_up)).apps)
    × IsWellFormed db'
mark_healthy_succeeds_example =
    mark_healthy_succeeds 10 one_key 50 coming_up risen_row coming_up-IsWellFormed it_may_rise
      has_digest refl refl

abbrev pod : Text
pod = codes "deployer-0"

abbrev waiting_row : Deployment
waiting_row = claimed 60 pod (row queued none)

abbrev an_evening : List Write
an_evening =
    claims pod 41
    ∷ rises 10 one_key 42
    ∷ moves 10 failed (some timeout) none 43
    ∷ creates upload 44
    ∷ lets_go 10 45
    ∷ []

after_writes-IsWellFormed_example : IsWellFormed (after_writes an_evening coming_up)
after_writes-IsWellFormed_example =
    after_writes-IsWellFormed an_evening coming_up coming_up-IsWellFormed
