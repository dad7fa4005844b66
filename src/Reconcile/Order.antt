-- ===== src/Reconcile/Order.antt =====
-- In which order a drive makes its calls: what the order is, and how it is carried along.
pub mod Steps
pub mod Loops
pub mod Whole
use deployer.Reconcile.World.{
  job_succeeded, job_failed, job_gone, job_running, out_of_fuel, done, failed_with, pull_secret,
  configuration, read_app, read_image_user, moved_to, written, created_job, applied_workload,
  applied_policies, applied_secret, marked_healthy, polled_ready, Trace, Event, Secret, Run,
  pull_secret, Outcome, configuration, done, World, failed_with, Options, rollback, Drive, and_then,
  App, Upload, JobState, polled_job, Deployment, ◌>>◌, need, Failure,
}
use deployer.Domain.State.{pushing, State, building, deploying, eq_state, queued}
use deployer.Base.{
  Bool, Text, [], any, arith, false, none, not, some, true, ◌&&◌, ◌||◌, ◌∷◌, ◌≡◌, refl, suc, zero,
  ℕ, Option, Bool-cases, if◌then◌else◌, inl, inr, is_nil,
}
use deployer.Reconcile.Phases.{
  apply_objects, apply, blocked, wait, move, start_build, resolve_image, over_budget, detect_path,
  save_build, deadline, create, await_build, judge, unless_ready, await_ready, finish, namespace_of,
  deploy_config, deploy_app, job_name, image_of, in_phase,
}
use deployer.Domain.Image.{runs_as_root}
use deployer.Domain.Reason.{Reason, app_never_ready, build_failed, internal, upload_invalid}
use deployer.Store.{Config}
use deployer.Reconcile.Drive.{
  first_step, walk, run, expire, give_up, settle, read_source, remove_source, drive,
  delete_build_job, overdue, fail,
}

-- The last reading of the app found its account not suspended.
abbrev pub account_open : Trace → Bool
account_open [] = false
account_open (read_app (some app) ∷ tr) = not app.account_suspended
account_open (read_app none ∷ tr) = false
account_open (e ∷ tr) = account_open tr

-- The last image user that was read is not root.
abbrev pub user_checked : Trace → Bool
user_checked [] = false
user_checked (read_image_user d (some user) ∷ tr) = not (runs_as_root user)
user_checked (read_image_user d none ∷ tr) = false
user_checked (e ∷ tr) = user_checked tr

abbrev pub is_move : State → Event → Bool
is_move s (moved_to id t reason written) = eq_state t s
is_move s e = false

abbrev pub is_fence : Event → Bool
is_fence (applied_policies ok) = ok
is_fence e = false

abbrev pub is_secret : Secret → Event → Bool
is_secret configuration (applied_secret configuration ok) = ok
is_secret pull_secret (applied_secret pull_secret ok) = ok
is_secret s e = false

abbrev pub is_workload : Event → Bool
is_workload (applied_workload image ok) = ok
is_workload e = false

abbrev pub ready_now : Trace → Bool
ready_now (polled_ready ok ∷ tr) = ok
ready_now tr = false

-- Whether a drive, of a rollback or not, may make that call after those.
abbrev pub may : Bool → Event → Trace → Bool
may rb (created_job namespace name ok) tr = not rb && any (is_move building) tr
may rb (moved_to id deploying none answer) tr = rb || user_checked tr
may rb (applied_workload image ok) tr =
    account_open tr
    && any is_fence tr
    && any (is_secret pull_secret) tr
    && any (is_secret configuration) tr
may rb (marked_healthy config answer) tr = ready_now tr && any is_workload tr
may rb e tr = true

abbrev pub in_order : Bool → Trace → Bool
in_order rb [] = true
in_order rb (e ∷ tr) = may rb e tr && in_order rb tr

-- What holds of an outcome: `q` if it is a result, and the order of the calls in any case.
abbrev pub after : Bool → (Run → Bool) → {A : Type 0} → Outcome A × Run → Bool
after rb q (done a, r) = in_order rb r.trace && q r
after rb q (failed_with f, r) = in_order rb r.trace
after rb q (out_of_fuel, r) = in_order rb r.trace

abbrev pub agree : Bool → Bool → Bool
agree true b = b
agree false b = not b

abbrev pub kind : Bool → Run → Bool
kind rb r = agree rb (rollback r.dep)

abbrev pub open_kind : Bool → Run → Bool
open_kind rb r = kind rb r && account_open r.trace

pub and_then-after :
    {A B : Type 0} (rb : Bool) (q p : Run → Bool) (x : Outcome A × Run) (f : A → Drive B)
    → after rb q x ≡ true
    → ((a : A) (s : Run) → in_order rb s.trace ≡ true → q s ≡ true → after rb p (f a s) ≡ true)
    → after rb p (and_then x f) ≡ true
and_then-after rb q p (done a, r) f h k = k a r (ground arith) (ground arith)
and_then-after rb q p (failed_with e, r) f h k = h
and_then-after rb q p (out_of_fuel, r) f h k = h

-- A drive that keeps the order from wherever it starts in order.
abbrev pub Orderly : (rb : Bool) (q p : Run → Bool) → Drive (Unit {0}) → Type 0
Orderly rb q p m = (r : Run) → in_order rb r.trace ≡ true → q r ≡ true → after rb p (m r) ≡ true

pub then-Orderly :
    (rb : Bool) (q p : Run → Bool) (m n : Drive (Unit {0}))
    → Orderly rb (kind rb) q m
    → Orderly rb q p n
    → Orderly rb (kind rb) p (m >> n)
then-Orderly rb q p m n f g r h k = and_then-after rb q p (m r) (λ _. n) (f r h k) (λ _. g)

pub need-after :
    {A B : Type 0} (rb : Bool) (p : Run → Bool) (found : Option A) (reason : Reason) (r : Run)
    (f : A → Drive B)
    → in_order rb r.trace ≡ true
    → ((a : A) → after rb p (f a r) ≡ true)
    → after rb p (and_then (need found reason r) f) ≡ true
need-after rb p none reason r f h g = h
need-after rb p (some a) reason r f h g = g a

pub agree_self : (b : Bool) → agree b b ≡ true
agree_self true = refl
agree_self false = refl

pub after-in_order :
    {A : Type 0} (rb : Bool) (x : Outcome A × Run)
    → after rb (λ _. true) x ≡ true
    → in_order rb x.1.trace ≡ true
after-in_order rb (done a, r) h = ground arith
after-in_order rb (failed_with f, r) h = h
after-in_order rb (out_of_fuel, r) h = h
