-- ===== src/Reconcile/Loop.antt =====
-- internal/reconcile/reconcile.go: Run, Tick, Sweep, recoverStranded and expireOverdue, and
-- policysweep.go. A pass over rows drives one after the other on the same list of calls.
pub mod Evidence
pub mod Progress
use deployer.Base.{
  Text, Option, List, map, Bool, [], false, if◌then◌else◌, is_nil, none, not, some, true, ℕ, ◌&&◌,
  ◌++◌, ◌∷◌,
}
use deployer.Domain.State.{building, eq_state}
use deployer.Domain.Reason.{build_failed}
use deployer.Reconcile.World.{
  ◌>>=◌, pure, done, failed_with, out_of_fuel, job_succeeded, job_failed, job_gone, job_running,
  claimed, no_work, claim_failed, Trace, World, Deployment, Options, Claim, Drive, listed_rows,
  Outcome, asked_stop, listed_namespaces, deleted_namespace, JobState, the_dep, claimed_row,
  policed, ask, released_claim, polled_job,
}
use deployer.Reconcile.Drive.{fail, overdue, drive, expire}
use deployer.Reconcile.Phases.{namespace_of}
use deployer.Reconcile.Reaper.{reap}

-- What the loop asks for between the drives.
pub record Host : Type 0 where
  pub list_non_terminal : Trace → Option (List Deployment)
  pub claim_next : Trace → Claim
  pub release_claim : Trace → Text → Option Bool
  -- ctx.Err() of the loop's own context.
  pub stopped : Trace → Bool
  pub app_namespaces : Trace → Option (List Text)
  pub police : Trace → Text → Bool
  pub live_app_slugs : Trace → Option (List Text)
  pub old_namespaces : Trace → Option (List Text)

-- What fires in Run's select.
pub data Signal : Type 0 where
  ticker reaper : Signal

-- On with the next thing, unless the fuel is spent.
abbrev pub continue :
    Outcome (Unit {0}) × Trace → (Trace → Outcome (Unit {0}) × Trace) → Outcome (Unit {0}) × Trace
continue (done u, tr) f = f tr
continue (failed_with e, tr) f = f tr
continue (out_of_fuel, tr) f = (out_of_fuel, tr)

module _ (w : World) (o : Options) (h : Host) where
  -- The switch on what the Job of a stranded row did.
  unfoldable pub judge_stranded : Option JobState → Drive (Unit {0})
  unfolding fail
  judge_stranded none = pure tt
  judge_stranded (some job_failed) = fail w o build_failed
  judge_stranded (some job_gone) = fail w o build_failed
  judge_stranded (some job_running) = pure tt
  judge_stranded (some job_succeeded) = do
    dep ← the_dep
    released ← ask (λ tr. h.release_claim tr dep.id) (released_claim dep.id)
    pure tt

  abbrev pub stranded : Deployment → Bool
  stranded dep = eq_state dep.state building && not (is_nil dep.build_job_name)

  unfoldable pub recover : Drive (Unit {0})
  unfolding judge_stranded namespace_of
  recover = do
    dep ← the_dep
    (if stranded dep
        then (ask (λ tr. w.job_state tr (namespace_of w o dep.build_path))
              (polled_job (namespace_of w o dep.build_path) dep.build_job_name)
            >>= judge_stranded)
        else pure tt)

  unfoldable pub expire_if_overdue : Drive (Unit {0})
  unfolding overdue expire
  expire_if_overdue r = if overdue w o r.dep (w.now r.trace) then expire w o r else (done tt, r)

  -- `for _, dep := range deps`, with the check of ctx at the top. Neither body waits.
  unfoldable pub for_each : Drive (Unit {0}) → List Deployment → Trace → Trace
  for_each body [] tr = tr
  for_each body (dep ∷ deps) tr =
      let asked = asked_stop (h.stopped tr) ∷ tr in
      let rest = for_each body deps (body (record { dep = dep; trace = asked })).1.trace in
      if h.stopped tr then asked else rest

  unfoldable pub recover_stranded : List Deployment → Trace → Trace
  unfolding for_each recover
  recover_stranded deps tr = for_each recover deps tr

  unfoldable pub expire_overdue : List Deployment → Trace → Trace
  unfolding for_each expire_if_overdue
  expire_overdue deps tr = for_each expire_if_overdue deps tr

  unfoldable pub both_passes : Option (List Deployment) → Trace → Trace
  unfolding recover_stranded expire_overdue
  both_passes none tr = listed_rows false ∷ tr
  both_passes (some deps) tr = expire_overdue deps (recover_stranded deps (listed_rows true ∷ tr))

  unfoldable pub drive_claim : ℕ → Claim → Trace → Outcome (Unit {0}) × Trace
  unfolding drive
  drive_claim fuel no_work tr = (done tt, tr)
  drive_claim fuel claim_failed tr = (done tt, tr)
  drive_claim fuel (claimed dep) tr =
      let (x, r) = drive w o fuel (record { dep = dep; trace = tr }) in (x, r.trace)

  unfoldable pub tick : ℕ → Trace → Outcome (Unit {0}) × Trace
  unfolding both_passes drive_claim
  tick fuel tr =
      let tr1 = both_passes (h.list_non_terminal tr) tr in
      drive_claim fuel (h.claim_next tr1) (claimed_row (h.claim_next tr1) ∷ tr1)

  unfoldable pub sweep_each : ℕ → List Deployment → Trace → Outcome (Unit {0}) × Trace
  unfolding drive_claim
  sweep_each fuel [] tr = (done tt, tr)
  sweep_each fuel (dep ∷ deps) tr =
      let asked = asked_stop (h.stopped tr) ∷ tr in
      let rest = continue (drive_claim fuel (claimed dep) asked) (sweep_each fuel deps) in
      if h.stopped tr then (done tt, asked) else rest

  unfoldable pub sweep_rows : ℕ → Option (List Deployment) → Trace → Outcome (Unit {0}) × Trace
  unfolding sweep_each
  sweep_rows fuel none tr = (done tt, listed_rows false ∷ tr)
  sweep_rows fuel (some deps) tr = sweep_each fuel deps (listed_rows true ∷ tr)

  unfoldable pub sweep : ℕ → Trace → Outcome (Unit {0}) × Trace
  unfolding sweep_rows
  sweep fuel tr = sweep_rows fuel (h.list_non_terminal tr) tr

  unfoldable pub police_each : List Text → Trace → Trace
  police_each [] tr = tr
  police_each (slug ∷ slugs) tr =
      let asked = asked_stop (h.stopped tr) ∷ tr in
      let rest = police_each slugs (policed slug (h.police asked slug) ∷ asked) in
      if h.stopped tr then asked else rest

  unfoldable pub policy_sweep : Trace → Trace
  unfolding police_each
  policy_sweep tr = elim (h.app_namespaces tr) [
    | none ↦ listed_namespaces false ∷ tr
    | some slugs ↦ police_each slugs (listed_namespaces true ∷ tr)
  ]

  unfoldable pub onto : List Text → Trace → Trace
  onto [] tr = tr
  onto (slug ∷ slugs) tr = onto slugs (deleted_namespace slug ∷ tr)

  unfoldable pub reap_pass : Trace → Trace
  unfolding onto reap
  reap_pass tr =
      onto
        (reap (h.live_app_slugs tr) (h.old_namespaces tr)
          (λ tried. h.stopped (map deleted_namespace tried ++ tr)))
        tr

  -- The select of Run, for the signals that fire before its context is done.
  unfoldable pub serve : ℕ → List Signal → Trace → Outcome (Unit {0}) × Trace
  unfolding tick reap_pass
  serve fuel [] tr = (done tt, tr)
  serve fuel (ticker ∷ signals) tr = continue (tick fuel tr) (serve fuel signals)
  serve fuel (reaper ∷ signals) tr = serve fuel signals (reap_pass tr)

  -- The fence first, then what a restart left, then the reaper, then the loop.
  unfoldable pub boot : ℕ → List Signal → Trace → Outcome (Unit {0}) × Trace
  unfolding policy_sweep sweep reap_pass serve
  boot fuel signals tr =
      continue (sweep fuel (policy_sweep tr)) (λ tr'. serve fuel signals (reap_pass tr'))
