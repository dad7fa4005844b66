-- ===== src/Reconcile/Phases.antt =====
-- internal/reconcile/reconcile.go: the phases of a drive, from `overBudget` to `move`. The two waiting
-- loops take fuel, one unit for each round.
use deployer.Base.{
  Text, codes, [], false, if◌then◌else◌, is_nil, leb, map, none, not, some, suc, text_eq, true,
  zero, ℕ, ◌&&◌, ◌++◌, ◌+◌, ◌==◌, ◌∷◌, Bool, Option,
}
use deployer.Reconcile.World.{
  job_succeeded, job_failed, job_gone, job_running, dockerfile_found, nothing_found, rejected,
  unreadable, out_of_fuel, ◌>>=◌, ◌>>◌, pure, Archive, World, Drive, Options, fail_with, ask,
  Upload, Secret, App, rollback, done, budget_spent, read_app, slept, moved_to, opened_archive,
  composed_secret, created_job, recorded_build, the_dep, Deployment, polled_ready,
  prepared_namespace, marked_healthy, must, need, accepted, set_dep, polled_job, resolved_digest,
  read_snapshot, read_archive, applied_secret, build_credential, minted_token, read_config,
  applied_policies, read_image_user, pull_secret, configuration, applied_workload, JobState,
}
use deployer.Domain.State.{State, eq_state, building, pushing, healthy, deploying}
use deployer.Domain.Reason.{
  Reason, source_rejected, internal, timeout, app_never_ready, account_suspended, build_no_digest,
  build_failed, image_runs_as_root,
}
use deployer.Store.{Config}
use deployer.Domain.Image.{runs_as_root}

-- JobName of internal/build/job.go: `_` becomes `-`, and capitals become small.
name_byte : ℕ → ℕ
name_byte c = if c == b'_' then b'-' else if leb b'A' c && leb c b'Z' then c + 32 else c

unfoldable pub job_name : Text → Text
unfolding name_byte
job_name id = codes "build-" ++ map name_byte id

-- ImageRepo of internal/build/credential.go.
unfoldable pub image_repo : Text → Text → Text
image_repo registry_host slug = registry_host ++ codes "/apps/" ++ slug

abbrev pub path_dockerfile : Text
path_dockerfile = codes "dockerfile"

abbrev pub path_buildpacks : Text
path_buildpacks = codes "buildpacks"

abbrev pub in_phase : State → Drive (Unit {0}) → Drive (Unit {0})
in_phase s m r = if eq_state r.dep.state s then m r else (done tt, r)

abbrev pub no_fuel : Drive (Unit {0})
no_fuel r = (out_of_fuel, r)

-- The engine, from what the archive holds.
abbrev pub path_of : Archive → Drive Text
path_of dockerfile_found = pure path_dockerfile
path_of nothing_found = pure path_buildpacks
path_of rejected = fail_with source_rejected
path_of unreadable = fail_with internal

module _ (w : World) (o : Options) where
  unfoldable pub namespace_of : Text → Text
  namespace_of build_path =
      if text_eq build_path path_dockerfile then o.buildkit_namespace else o.build_namespace

  unfoldable pub over_budget : Drive (Unit {0})
  over_budget = do over ← ask w.spent budget_spent; must (not over) timeout

  unfoldable pub blocked : Text → Drive (Unit {0})
  unfolding over_budget
  blocked app_id = do
    over_budget
    found ← ask (λ tr. w.get_app tr app_id) read_app
    app ← need found internal
    must (not app.account_suspended) account_suspended

  unfoldable pub deadline : Reason → Drive (Unit {0})
  deadline on_phase_deadline = do
    over ← ask w.spent budget_spent
    fail_with (if over then timeout else on_phase_deadline)

  unfoldable pub wait : Text → Reason → Drive (Unit {0})
  unfolding blocked deadline
  wait app_id on_phase_deadline = do
    ticked ← ask w.tick slept
    (if ticked then blocked app_id else deadline on_phase_deadline)

  unfoldable pub move : State → Drive (Unit {0})
  move to = do
    dep ← the_dep
    answer ← ask (λ tr. w.transition tr dep.id to) (moved_to dep.id to none)
    accepted answer
    set_dep (λ d. record d { state = to })

  unfoldable pub detect_path : Upload → Drive Text
  detect_path upload = do
    opened ← ask (λ tr. w.open_upload tr upload.path) opened_archive
    must opened internal
    found ← ask (λ tr. w.has_root_dockerfile tr upload.path) read_archive
    path_of found

  unfoldable pub apply : Secret → Drive (Unit {0})
  apply secret = do
    composed ← ask (λ tr. w.compose_secret tr secret) (composed_secret secret)
    must composed internal
    applied ← ask (λ tr. w.apply_secret tr secret) (applied_secret secret)
    must applied internal

  unfoldable pub create : Text → Text → Drive (Unit {0})
  unfolding apply
  create namespace name = do
    created ← ask (λ tr. w.create_job tr namespace) (created_job namespace name)
    must created internal
    apply build_credential

  unfoldable pub save_build : Text → Text → Text → Text → Drive (Unit {0})
  save_build path name repo image_digest = do
    saved ← ask w.record_build (recorded_build path name repo image_digest)
    must saved internal

  unfoldable pub start_build : App → Upload → Drive (Unit {0})
  unfolding move detect_path namespace_of create job_name image_repo save_build
  start_build app upload = do
    move building
    path ← detect_path upload
    set_dep (λ d. record d { build_path = path })
    dep ← the_dep
    minted ← ask (λ tr. w.mint_fetch_token tr upload.id) minted_token
    must minted internal
    create (namespace_of path) (job_name dep.id)
    set_dep (λ d. record d {
      image_repo = image_repo o.registry_host app.slug;
      build_job_name = job_name dep.id;
    })
    save_build path (job_name dep.id) (image_repo o.registry_host app.slug) []

  -- What the loop does with an answer: an error is polled through.
  unfoldable pub judge : Text → Drive (Unit {0}) → Option JobState → Drive (Unit {0})
  unfolding move wait
  judge app_id again (some job_succeeded) = move pushing
  judge app_id again (some job_failed) = fail_with build_failed
  judge app_id again (some job_gone) = fail_with build_failed
  judge app_id again (some job_running) = wait app_id build_failed >> again
  judge app_id again none = wait app_id build_failed >> again

  unfoldable pub await_build : ℕ → Drive (Unit {0})
  unfolding judge namespace_of job_name
  await_build zero = no_fuel
  await_build (suc fuel) = do
    dep ← the_dep
    state ←
        ask (λ tr. w.job_state tr (namespace_of dep.build_path))
          (polled_job (namespace_of dep.build_path) (job_name dep.id))
    judge dep.app_id (await_build fuel) state

  unfoldable pub resolve_image : App → Drive (Unit {0})
  unfolding move image_repo job_name save_build
  resolve_image app = do
    dep ← the_dep
    found ← ask (λ tr. w.digest tr dep.id) (resolved_digest (image_repo o.registry_host app.slug))
    image_digest ← need found build_no_digest
    declared ← ask (λ tr. w.image_user tr image_digest) (read_image_user image_digest)
    user ← need declared internal
    must (not (runs_as_root user)) image_runs_as_root
    set_dep (λ d. record d {
      image_repo = image_repo o.registry_host app.slug;
      image_digest = image_digest;
    })
    save_build [] (job_name dep.id) (image_repo o.registry_host app.slug) image_digest
    move deploying

  unfoldable pub deploy_config : Deployment → App → Drive Config
  unfolding rollback
  deploy_config dep app =
      if rollback dep
      then (ask (λ tr. w.release_snapshot tr dep.source_release_id)
            (read_snapshot dep.source_release_id)
          >>= λ found. need found internal)
      else (ask (λ tr. w.config_for_deploy tr app.id) read_config >>= λ found. need found internal)

  unfoldable pub unless_ready : Text → Drive (Unit {0}) → Bool → Drive (Unit {0})
  unfolding wait
  unless_ready app_id again true = pure tt
  unless_ready app_id again false = wait app_id app_never_ready >> again

  unfoldable pub await_ready : ℕ → App → Drive (Unit {0})
  unfolding unless_ready
  await_ready zero app = no_fuel
  await_ready (suc fuel) app = do
    ready ← ask w.workload_ready polled_ready
    unless_ready app.id (await_ready fuel app) ready

  -- `repo@digest`; a rollback's row holds no repository.
  unfoldable pub image_of : Deployment → App → Text
  unfolding rollback image_repo
  image_of dep app =
      (if rollback dep then image_repo o.registry_host app.slug else dep.image_repo)
      ++ b'@' ∷ dep.image_digest

  -- From the namespace to the workload.
  unfoldable pub apply_objects : Text → Drive (Unit {0})
  unfolding apply
  apply_objects image = do
    prepared ← ask w.ensure_namespace prepared_namespace
    must prepared internal
    fenced ← ask w.apply_network_policies applied_policies
    must fenced internal
    apply pull_secret
    written_config ← ask (λ tr. w.apply_secret tr configuration) (applied_secret configuration)
    must written_config internal
    applied ← ask (λ tr. w.apply_workload tr image) (applied_workload image)
    must applied internal

  unfoldable pub finish : Config → Drive (Unit {0})
  finish config = do
    answer ← ask w.mark_healthy (marked_healthy config)
    accepted answer
    set_dep (λ d. record d { state = healthy })

  unfoldable pub deploy_app : ℕ → App → Drive (Unit {0})
  unfolding deploy_config image_of apply_objects await_ready finish
  deploy_app fuel app = do
    dep ← the_dep
    must (not (is_nil dep.image_digest)) build_no_digest
    config ← deploy_config dep app
    apply_objects (image_of dep app)
    await_ready fuel app
    finish config
