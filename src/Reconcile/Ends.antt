-- ===== src/Reconcile/Ends.antt =====
-- Every drive ends, and how: the steps and the two waiting loops.
pub mod Whole
use deployer.Reconcile.World.{
  claimed_row, asked_stop, job_succeeded, job_failed, job_gone, job_running, done, failed_with,
  out_of_fuel, moved_to, marked_healthy, written, not_in_flight, slept, ◌>>◌, Event, Run, Trace,
  World, Outcome, Drive, Options, and_then, App, Deployment, Upload, polled_ready, JobState,
}
use deployer.Domain.State.{failed, State, pushing}
use deployer.Domain.Reason.{Reason, app_never_ready, build_failed}
use deployer.Base.{
  Bool, Text, [], any, arith, false, if◌then◌else◌, ltb, none, some, true, ℕ, ◌&&◌, ◌+◌, ◌==◌, ◌∷◌,
  ◌≡◌, ◌≤◌, Option, refl, suc, zero, ◌-◌, ◌<◌, ◌||◌,
}
use deployer.Reconcile.Phases.{
  blocked, wait, move, start_build, resolve_image, deploy_config, apply_objects, finish,
  over_budget, detect_path, save_build, apply, deadline, create, judge, await_build, unless_ready,
  await_ready,
}
use deployer.Store.{Config}
use deployer.Reconcile.Order.Loops.{answer_of, polled}

-- The calls that end a deployment: it was marked healthy, the failure was handed to the store, or a
-- write answered that something else has ended it.
abbrev pub is_end : Event → Bool
is_end (marked_healthy config written) = true
is_end (marked_healthy config not_in_flight) = true
is_end (moved_to id failed (some reason) answer) = true
is_end (moved_to id s none not_in_flight) = true
is_end e = false

-- Such a call since the row was picked up, by a claim or in a sweep.
abbrev pub ended_since : Trace → Bool
ended_since [] = false
ended_since (claimed_row c ∷ tr) = false
ended_since (asked_stop b ∷ tr) = false
ended_since (e ∷ tr) = is_end e || ended_since tr

abbrev pub ended : Run → Bool
ended r = ended_since r.trace

-- An outcome that is one: a result of which `q` holds, or a failure, which tells of an end elsewhere
-- only if a write has said so.
abbrev pub closed : (Run → Bool) → {A : Type 0} → Outcome A × Run → Bool
closed q (done a, r) = q r
closed q (failed_with f, r) = if f.ended_elsewhere then ended r else true
closed q (out_of_fuel, r) = false

abbrev pub anything : Run → Bool
anything r = true

-- The sleeps since the deployment that is driven was picked up.
abbrev pub sleeps : Trace → ℕ
sleeps [] = 0
sleeps (claimed_row c ∷ tr) = 0
sleeps (asked_stop b ∷ tr) = 0
sleeps (slept true ∷ tr) = sleeps tr + 1
sleeps (e ∷ tr) = sleeps tr

-- The phases' deadlines pass within `n` ticks of each drive.
abbrev pub Passes : ℕ → World → Type 0
Passes n w = (tr : Trace) → n ≤ sleeps tr → w.tick tr ≡ false

pub and_then-closed :
    {A B : Type 0} (q p : Run → Bool) (x : Outcome A × Run) (f : A → Drive B)
    → closed q x ≡ true
    → ((a : A) (s : Run) → q s ≡ true → closed p (f a s) ≡ true)
    → closed p (and_then x f) ≡ true
and_then-closed q p (done a, r) f h k = k a r h
and_then-closed q p (failed_with e, r) f h k = h
and_then-closed q p (out_of_fuel, r) f h k = cc

abbrev pub Sound : (q : Run → Bool) → {A : Type 0} → Drive A → Type 0
Sound q m = (r : Run) → closed q (m r) ≡ true

pub then-Sound :
    {A B : Type 0} (p : Run → Bool) (m : Drive A) (n : Drive B)
    → Sound anything m
    → Sound p n
    → Sound p (m >> n)
then-Sound p m n f g r = and_then-closed anything p (m r) (λ _. n) (f r) (λ _ s _. g s)

pub blocked-Sound : (w : World) (o : Options) (app_id : Text) → Sound anything (blocked w o app_id)
unfolding blocked over_budget
blocked-Sound w o app_id r = ground arith

-- One sleep more than before, and not the last.
abbrev pub rested : ℕ → Run → Run → Bool
rested n r s = sleeps s.trace == sleeps r.trace + 1 && ltb (sleeps r.trace) n

-- A wait that lets the phase go on has slept.
wait-closed :
    (w : World) (o : Options) (n : ℕ) (app_id : Text) (reason : Reason) (r : Run)
    → Passes n w
    → closed (rested n r) (wait w o app_id reason r) ≡ true
unfolding wait blocked over_budget deadline
wait-closed w o n app_id reason r t = ground (arith, t r.trace)

pub move-Sound : (w : World) (o : Options) (to : State) → Sound anything (move w o to)
unfolding move
move-Sound w o to r = ground arith

pub start_build-Sound :
    (w : World) (o : Options) (app : App) (upload : Upload)
    → Sound anything (start_build w o app upload)
unfolding start_build move detect_path create apply save_build
start_build-Sound w o app upload r = ground arith

pub resolve_image-Sound :
    (w : World) (o : Options) (app : App) → Sound anything (resolve_image w o app)
unfolding resolve_image move save_build
resolve_image-Sound w o app r = ground arith

pub deploy_config-Sound :
    (w : World) (o : Options) (dep : Deployment) (app : App)
    → Sound anything (deploy_config w o dep app)
unfolding deploy_config
deploy_config-Sound w o dep app r = ground arith

pub apply_objects-Sound :
    (w : World) (o : Options) (image : Text) → Sound anything (apply_objects w o image)
unfolding apply_objects apply
apply_objects-Sound w o image r = ground arith

pub finish-Sound : (w : World) (o : Options) (config : Config) → Sound ended (finish w o config)
unfolding finish
finish-Sound w o config r = ground arith

judge-closed :
    (w : World) (o : Options) (n : ℕ) (app_id : Text) (again : Drive (Unit {0}))
    (answer : Option JobState) (r : Run)
    → Passes n w
    → ((s : Run) → rested n r s ≡ true → closed anything (again s) ≡ true)
    → closed anything (judge w o app_id again answer r) ≡ true
unfolding judge
judge-closed w o n app_id again (some job_succeeded) r t g = move-Sound w o pushing r
judge-closed w o n app_id again (some job_failed) r t g = refl
judge-closed w o n app_id again (some job_gone) r t g = refl
judge-closed w o n app_id again (some job_running) r t g =
    and_then-closed (rested n r) anything (wait w o app_id build_failed r) (λ _. again)
      (wait-closed w o n app_id build_failed r t) (λ _. g)
judge-closed w o n app_id again none r t g =
    and_then-closed (rested n r) anything (wait w o app_id build_failed r) (λ _. again)
      (wait-closed w o n app_id build_failed r t) (λ _. g)

pub await_build-closed :
    (w : World) (o : Options) (n fuel : ℕ) (r : Run)
    → Passes n w
    → n - sleeps r.trace < fuel
    → closed anything (await_build w o fuel r) ≡ true
unfolding await_build
await_build-closed w o n zero r t h = absurd (omega arith)
await_build-closed w o n (suc fuel) r t h =
    judge-closed w o n r.dep.app_id (await_build w o fuel) (answer_of w o r) (polled w o r) t
      (λ s q. await_build-closed w o n fuel s t (ground arith))

unless_ready-closed :
    (w : World) (o : Options) (n : ℕ) (app_id : Text) (again : Drive (Unit {0})) (answer : Bool)
    (r : Run)
    → Passes n w
    → ((s : Run) → rested n r s ≡ true → closed anything (again s) ≡ true)
    → closed anything (unless_ready w o app_id again answer r) ≡ true
unfolding unless_ready
unless_ready-closed w o n app_id again true r t g = refl
unless_ready-closed w o n app_id again false r t g =
    and_then-closed (rested n r) anything (wait w o app_id app_never_ready r) (λ _. again)
      (wait-closed w o n app_id app_never_ready r t) (λ _. g)

-- After one question whether the workload is ready.
abbrev asked : World → Run → Run
asked w r = record { dep = r.dep; trace = polled_ready (w.workload_ready r.trace) ∷ r.trace }

pub await_ready-closed :
    (w : World) (o : Options) (n fuel : ℕ) (app : App) (r : Run)
    → Passes n w
    → n - sleeps r.trace < fuel
    → closed anything (await_ready w o fuel app r) ≡ true
unfolding await_ready
await_ready-closed w o n zero app r t h = absurd (omega arith)
await_ready-closed w o n (suc fuel) app r t h =
    unless_ready-closed w o n app.id (await_ready w o fuel app) (w.workload_ready r.trace)
      (asked w r) t (λ s q. await_ready-closed w o n fuel app s t (ground arith))
