-- ===== src/Reconcile/Drive.antt =====
-- internal/reconcile/reconcile.go: `run`, `Drive`, `expire` and `fail`.
use deployer.Reconcile.World.{
  out_of_fuel, done, failed_with, ◌>>=◌, ◌>>◌, pure, Upload, World, Options, Drive, Failure,
  Outcome, rollback, Deployment, the_dep, ask, Run, and_then, deleted_job, read_upload,
  budget_spent, removed_upload, App, moved_to, read_app, need,
}
use deployer.Base.{
  Bool, Option, Text, [], false, if◌then◌else◌, is_nil, leb, none, some, true, ℕ, ◌+◌, ◌==◌,
}
use deployer.Domain.Reason.{Reason, timeout, account_suspended, upload_invalid, internal}
use deployer.Reconcile.Phases.{
  blocked, namespace_of, move, await_build, start_build, resolve_image, deploy_app, in_phase,
}
use deployer.Domain.State.{queued, building, pushing, deploying, failed}

abbrev pub no_upload : Upload
no_upload = record { id = []; path = [] }

abbrev pub path_or_empty : Option Upload → Text
path_or_empty none = []
path_or_empty (some upload) = upload.path

-- The two reasons with which the build goes as well.
abbrev pub is_stop : Reason → Bool
is_stop timeout = true
is_stop account_suspended = true
is_stop _ = false

module _ (w : World) (o : Options) where
  unfoldable pub first_step : App → Upload → Drive (Unit {0})
  unfolding blocked move start_build rollback
  first_step app upload = do
    dep ← the_dep
    blocked w o dep.app_id
    (if rollback dep then move w o deploying else start_build w o app upload)

  -- The phases, from the one that the row's state says is next.
  unfoldable pub walk : ℕ → Text → App → Upload → Drive (Unit {0})
  unfolding first_step blocked await_build resolve_image deploy_app
  walk fuel app_id app upload = do
    in_phase queued (first_step app upload)
    in_phase building (blocked w o app_id >> await_build w o fuel)
    in_phase pushing (blocked w o app_id >> resolve_image w o app)
    blocked w o app_id
    deploy_app w o fuel app

  unfoldable pub run : ℕ → Option Upload → Drive (Unit {0})
  unfolding walk
  run fuel upload = do
    dep ← the_dep
    found ← ask (λ tr. w.get_app tr dep.app_id) read_app
    app ← need found internal
    given ← need upload upload_invalid
    walk fuel dep.app_id app given

  unfoldable pub delete_build_job : Drive (Unit {0})
  unfolding namespace_of
  delete_build_job = do
    dep ← the_dep
    (if is_nil dep.build_job_name
        then pure tt
        else (ask (λ tr. w.delete_job tr dep.build_job_name)
              (deleted_job (namespace_of w o dep.build_path) dep.build_job_name)
            >> pure tt))

  -- `fail`: whatever the write answers is only logged.
  unfoldable pub fail : Reason → Drive (Unit {0})
  fail reason = do
    dep ← the_dep
    ask (λ tr. w.transition tr dep.id failed) (moved_to dep.id failed (some reason))
    pure tt

  unfoldable pub expire : Drive (Unit {0})
  unfolding delete_build_job fail
  expire = do
    delete_build_job
    fail timeout
    dep ← the_dep
    found ← ask (λ tr. w.get_upload tr dep.upload_id) read_upload
    elim found [
      | none ↦ pure tt
      | some upload ↦ ask (λ _. tt) (λ _. removed_upload upload.path) >> pure tt
    ]

  -- The `default` branch: a spent budget is the reason, whichever step noticed it.
  unfoldable pub give_up : Failure → Drive (Unit {0})
  unfolding delete_build_job fail
  give_up f = do
    over ← ask w.spent budget_spent
    let reason = if over then timeout else f.reason
    (if is_stop reason then delete_build_job >> fail reason else fail reason)

  unfoldable pub settle : Outcome (Unit {0}) × Run → Outcome (Unit {0}) × Run
  unfolding give_up
  settle (done u, r) = (done u, r)
  settle (failed_with f, r) = if f.ended_elsewhere then (done tt, r) else give_up f r
  settle (out_of_fuel, r) = (out_of_fuel, r)

  unfoldable pub read_source : Drive (Option Upload)
  unfolding rollback
  read_source = do
    dep ← the_dep
    (if rollback dep
        then pure (some no_upload)
        else ask (λ tr. w.get_upload tr dep.upload_id) read_upload)

  unfoldable pub remove_source : Option Upload → Drive (Unit {0})
  unfolding rollback
  remove_source upload = do
    dep ← the_dep
    (if rollback dep
        then pure tt
        else (ask (λ _. tt) (λ _. removed_upload (path_or_empty upload)) >> pure tt))

  unfoldable pub overdue : Deployment → ℕ → Bool
  overdue dep now = elim dep.created_at [
    | none ↦ o.deploy_timeout == 0
    | some created ↦ leb (created + o.deploy_timeout) now
  ]

  unfoldable pub drive : ℕ → Drive (Unit {0})
  unfolding overdue expire read_source run settle remove_source
  drive fuel r =
      if overdue r.dep (w.now r.trace)
      then expire r
      else (read_source >>= λ upload s.
            and_then (settle (run fuel upload s)) (λ _. remove_source upload))
          r
