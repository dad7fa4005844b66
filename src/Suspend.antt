-- ===== src/Suspend.antt =====
-- internal/suspend/suspend.go: Suspend, Restore and SweepSuspended. What the store and the cluster
-- answer is any function of the calls before; the last call stands first.
pub mod Held
pub mod Told
use deployer.Base.{
  Text, List, Bool, Option, some, none, true, false, [], ◌∷◌, if◌then◌else◌, not, ℕ,
}

pub record App : Type 0 where
  pub id : Text
  pub slug : Text

pub record SuspendedApp : Type 0 where
  pub app : App
  pub account_id : Text

-- The calls; an audit row is written for its target, allowed or not.
pub data Event : Type 0 where
  set_disabled : Text → Bool → Bool → Event
  recorded : Text → Bool → Event
  listed : Bool → Event
  scaled : Text → ℕ → Bool → Event
  reread : Text → Option Bool → Event

abbrev pub Trace : Type 0
Trace = List Event

pub record World : Type 0 where
  -- New was given a cluster.
  pub has_cluster : Bool
  pub lock : Trace → Bool
  pub deployed_apps : Trace → Option (List App)
  pub suspended_apps : Trace → Option (List SuspendedApp)
  pub account_suspended : Trace → Text → Option Bool
  pub scale_workload : Trace → Text → ℕ → Bool

-- deploy.ServingReplicas
abbrev pub serving_replicas : ℕ
serving_replicas = 1

pub data Result : Type 0 where
  stopped_but : List Text → Result
  not_locked apps_unlisted : Result

module _ (w : World) where
  unfoldable pub scale : Text → ℕ → Trace → Bool × Trace
  scale slug replicas tr = if not w.has_cluster then (true, tr) else (
    w.scale_workload tr slug replicas,
    scaled slug replicas (w.scale_workload tr slug replicas) ∷ tr,
  )

  -- The loop of `set`: the slugs that were refused, and the calls.
  unfoldable pub scale_all : ℕ → List App → Trace → List Text × Trace
  unfolding scale
  scale_all replicas [] tr = ([], tr)
  scale_all replicas (app ∷ apps) tr =
      let (ok, tr1) = scale app.slug replicas tr in
      let (rest, tr2) = scale_all replicas apps (recorded app.id ok ∷ tr1) in
      ((if ok then rest else app.slug ∷ rest), tr2)

  unfoldable pub scale_listed : ℕ → Option (List App) → Trace → Result × Trace
  unfolding scale_all
  scale_listed replicas none tr = (apps_unlisted, listed false ∷ tr)
  scale_listed replicas (some apps) tr =
      let (refused, tr1) = scale_all replicas apps (listed true ∷ tr) in (stopped_but refused, tr1)

  abbrev pub replicas_for : Bool → ℕ
  replicas_for suspended = if suspended then 0 else serving_replicas

  -- After the lockout has landed.
  abbrev pub stop_apps : Text → Bool → Trace → Result × Trace
  stop_apps account suspended tr = scale_listed (replicas_for suspended) (w.deployed_apps tr) tr

  unfoldable pub set : Text → Bool → Trace → Result × Trace
  unfolding scale_listed
  set account suspended tr =
      if w.lock tr
      then stop_apps account suspended
          (recorded account true ∷ (set_disabled account suspended true ∷ tr))
      else (not_locked, set_disabled account suspended false ∷ tr)

  abbrev pub hold : SuspendedApp → Option Bool → Trace → Trace
  hold a none tr = tr
  hold a (some still) tr = if still then (scale a.app.slug 0 tr).1 else tr

  unfoldable pub sweep_apps : List SuspendedApp → Trace → Trace
  unfolding scale
  sweep_apps [] tr = tr
  sweep_apps (a ∷ rest) tr =
      let answer = w.account_suspended tr a.account_id in
      sweep_apps rest (hold a answer (reread a.account_id answer ∷ tr))

  unfoldable pub sweep_listed : Option (List SuspendedApp) → Trace → Trace
  unfolding sweep_apps
  sweep_listed none tr = listed false ∷ tr
  sweep_listed (some apps) tr = sweep_apps apps (listed true ∷ tr)

  unfoldable pub sweep_suspended : Trace → Trace
  unfolding sweep_listed
  sweep_suspended tr = if not w.has_cluster then tr else sweep_listed (w.suspended_apps tr) tr
