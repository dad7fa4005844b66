-- ===== src/Reconcile/World.antt =====
-- internal/reconcile/reconcile.go: what a drive asks of the store, the cluster, the registry and the
-- clock. A drive keeps the list of its calls with their answers, the newest first, and every answer
-- is any function of that list: it may fail, change or come late at any point. The Kubernetes objects
-- are left out; a call names the one that it is about.
use deployer.Base.{Text, Option, Bool, List, false, is_nil, none, not, some, true, ℕ, ◌∷◌}
use deployer.Domain.State.{State}
use deployer.Domain.Reason.{Reason, internal}
use deployer.Store.{Config}

pub record Deployment : Type 0 where
  pub id : Text
  pub app_id : Text
  pub upload_id : Text
  pub state : State
  pub image_repo : Text
  pub image_digest : Text
  -- `none` is the zero time.
  pub created_at : Option ℕ
  pub build_job_name : Text
  pub build_path : Text
  pub source_release_id : Text

unfoldable pub rollback : Deployment → Bool
rollback d = not (is_nil d.source_release_id)

pub record App : Type 0 where
  pub id : Text
  pub slug : Text
  pub account_suspended : Bool

pub record Upload : Type 0 where
  pub id : Text
  pub path : Text

pub record Options : Type 0 where
  pub build_namespace : Text
  pub buildkit_namespace : Text
  pub registry_host : Text
  pub deploy_timeout : ℕ

pub data JobState : Type 0 where
  job_running job_succeeded job_failed job_gone : JobState

-- What HasRootDockerfile of internal/source answers.
pub data Archive : Type 0 where
  dockerfile_found nothing_found rejected unreadable : Archive

-- A write of the store: done, refused with ErrNotInFlight, or failed in another way.
pub data Write : Type 0 where
  written not_in_flight faulted : Write

-- ClaimNext: a row, ErrNoWork, or another error.
pub data Claim : Type 0 where
  claimed : Deployment → Claim
  no_work claim_failed : Claim

pub data Secret : Type 0 where
  build_credential pull_secret configuration : Secret

-- The calls, each with its answer. `false` and `none` are errors.
pub data Event : Type 0 where
  read_app : Option App → Event
  read_upload : Option Upload → Event
  budget_spent : Bool → Event
  opened_archive : Bool → Event
  read_archive : Archive → Event
  minted_token : Bool → Event
  created_job : Text → Text → Bool → Event
  polled_job : Text → Text → Option JobState → Event
  deleted_job : Text → Text → Bool → Event
  composed_secret : Secret → Bool → Event
  applied_secret : Secret → Bool → Event
  recorded_build : Text → Text → Text → Text → Bool → Event
  resolved_digest : Text → Option Text → Event
  read_image_user : Text → Option Text → Event
  read_snapshot : Text → Option Config → Event
  read_config : Option Config → Event
  prepared_namespace : Bool → Event
  applied_policies : Bool → Event
  applied_workload : Text → Bool → Event
  polled_ready : Bool → Event
  -- The tick came before the end of the phase.
  slept : Bool → Event
  moved_to : Text → State → Option Reason → Write → Event
  marked_healthy : Config → Write → Event
  removed_upload : Text → Event
  -- The calls of the loop around the drives.
  asked_stop : Bool → Event
  listed_rows : Bool → Event
  released_claim : Text → Option Bool → Event
  claimed_row : Claim → Event
  listed_namespaces : Bool → Event
  policed : Text → Bool → Event
  deleted_namespace : Text → Event

abbrev pub Trace : Type 0
Trace = List Event

pub record World : Type 0 where
  pub get_app : Trace → Text → Option App
  pub get_upload : Trace → Text → Option Upload
  pub open_upload : Trace → Text → Bool
  pub has_root_dockerfile : Trace → Text → Archive
  pub mint_fetch_token : Trace → Text → Bool
  pub create_job : Trace → Text → Bool
  pub job_state : Trace → Text → Option JobState
  pub delete_job : Trace → Text → Bool
  pub compose_secret : Trace → Secret → Bool
  pub apply_secret : Trace → Secret → Bool
  pub record_build : Trace → Bool
  pub digest : Trace → Text → Option Text
  pub image_user : Trace → Text → Option Text
  pub release_snapshot : Trace → Text → Option Config
  pub config_for_deploy : Trace → Text → Option Config
  pub ensure_namespace : Trace → Bool
  pub apply_network_policies : Trace → Bool
  pub apply_workload : Trace → Text → Bool
  pub workload_ready : Trace → Bool
  pub tick : Trace → Bool
  pub transition : Trace → Text → State → Write
  pub mark_healthy : Trace → Write
  pub spent : Trace → Bool
  pub now : Trace → ℕ

-- `failure`, with whether its error wraps ErrNotInFlight, which only the two writes of a state
-- return.
pub record Failure : Type 0 where
  pub reason : Reason
  pub ended_elsewhere : Bool

pub data Outcome {ℓ} (A : Type ℓ) : Type ℓ where
  done : A → Outcome A
  failed_with : Failure → Outcome A
  out_of_fuel : Outcome A

-- A drive in progress: its row in memory, and what it has called.
pub record Run : Type 0 where
  pub dep : Deployment
  pub trace : Trace

abbrev pub Drive : Type 0 → Type 0
Drive A = Run → Outcome A × Run

abbrev pub and_then : {A B : Type 0} → Outcome A × Run → (A → Drive B) → Outcome B × Run
and_then (done a, r) f = f a r
and_then (failed_with e, r) f = (failed_with e, r)
and_then (out_of_fuel, r) f = (out_of_fuel, r)

infixl 5 ◌>>=◌ ◌>>◌
abbrev pub ◌>>=◌ : {A B : Type 0} → Drive A → (A → Drive B) → Drive B
◌>>=◌ m f r = and_then (m r) f

abbrev pub ◌>>◌ : {A B : Type 0} → Drive A → Drive B → Drive B
m >> k = m >>= λ _. k

abbrev pub pure : {A : Type 0} → A → Drive A
pure a r = (done a, r)

abbrev pub fail_with : {A : Type 0} → Reason → Drive A
fail_with reason r = (failed_with (record { reason = reason; ended_elsewhere = false }), r)

-- One call: the answer is computed from the calls before it, and recorded.
abbrev pub ask : {A : Type 0} → (Trace → A) → (A → Event) → Drive A
ask answer event r =
    (done (answer r.trace), record { dep = r.dep; trace = event (answer r.trace) ∷ r.trace })

abbrev pub must : Bool → Reason → Drive (Unit {0})
must true reason = pure tt
must false reason = fail_with reason

abbrev pub need : {A : Type 0} → Option A → Reason → Drive A
need none reason = fail_with reason
need (some a) reason = pure a

abbrev pub accepted : Write → Drive (Unit {0})
accepted written r = (done tt, r)
accepted not_in_flight r = (failed_with (record { reason = internal; ended_elsewhere = true }), r)
accepted faulted r = (failed_with (record { reason = internal; ended_elsewhere = false }), r)

abbrev pub the_dep : Drive Deployment
the_dep r = (done r.dep, r)

abbrev pub set_dep : (Deployment → Deployment) → Drive (Unit {0})
set_dep f r = (done tt, record { dep = f r.dep; trace = r.trace })
