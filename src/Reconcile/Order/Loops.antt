-- ===== src/Reconcile/Order/Loops.antt =====
-- The two waiting loops, and the deploy, keep the order of the calls.
use deployer.Reconcile.World.{
  job_succeeded, job_failed, job_gone, job_running, Run, World, Options, Drive, App, JobState,
  polled_job, ◌>>◌,
}
use deployer.Base.{
  Bool, Text, any, arith, false, none, some, true, ◌&&◌, ◌∷◌, suc, zero, ℕ, Option, Bool-cases, inl,
  inr, is_nil,
}
use deployer.Reconcile.Phases.{
  apply_objects, blocked, wait, await_build, judge, unless_ready, await_ready, namespace_of,
  deploy_config, deploy_app, job_name, image_of,
}
use deployer.Domain.Reason.{app_never_ready, build_failed}
use deployer.Reconcile.Order.{
  Orderly, agree, kind, ready_now, account_open, is_workload, and_then-after, open_kind,
}
use deployer.Reconcile.Order.Steps.{
  applied, move_pushing-order, came_up, wait-order, wait_ready-order, deploy_config-order,
  apply_objects-order, blocked-order, finish-Orderly,
}

judge-Orderly :
    (w : World) (o : Options) (rb : Bool) (app_id : Text) (again : Drive (Unit {0}))
    (answer : Option JobState)
    → Orderly rb (kind rb) (kind rb) again
    → Orderly rb (kind rb) (kind rb) (judge w o app_id again answer)
unfolding judge
judge-Orderly w o rb app_id again (some job_succeeded) g r h k = move_pushing-order w o rb r h k
judge-Orderly w o rb app_id again (some job_failed) g r h k = h
judge-Orderly w o rb app_id again (some job_gone) g r h k = h
judge-Orderly w o rb app_id again (some job_running) g r h k =
    and_then-after rb (kind rb) (kind rb) (wait w o app_id build_failed r) (λ _. again)
      (wait-order w o rb app_id build_failed r h k) (λ _. g)
judge-Orderly w o rb app_id again none g r h k =
    and_then-after rb (kind rb) (kind rb) (wait w o app_id build_failed r) (λ _. again)
      (wait-order w o rb app_id build_failed r h k) (λ _. g)

-- After one poll of the Job.
abbrev pub answer_of : World → Options → Run → Option JobState
answer_of w o r = w.job_state r.trace (namespace_of w o r.dep.build_path)

abbrev pub polled : World → Options → Run → Run
polled w o r = record {
  dep = r.dep;
  trace =
      polled_job (namespace_of w o r.dep.build_path) (job_name r.dep.id) (answer_of w o r)
      ∷ r.trace;
}

pub await_build-Orderly :
    (w : World) (o : Options) (rb : Bool) (fuel : ℕ)
    → Orderly rb (kind rb) (kind rb) (await_build w o fuel)
unfolding await_build
await_build-Orderly w o rb zero r h k = h
await_build-Orderly w o rb (suc fuel) r h k =
    judge-Orderly w o rb r.dep.app_id (await_build w o fuel) (answer_of w o r)
      (await_build-Orderly w o rb fuel) (polled w o r) h k

abbrev pub is_ready : Bool → Run → Bool
is_ready b r = agree b (ready_now r.trace) && any is_workload r.trace

unless_ready-Orderly :
    (w : World) (o : Options) (rb : Bool) (app_id : Text) (again : Drive (Unit {0})) (answer : Bool)
    → Orderly rb applied came_up again
    → Orderly rb (is_ready answer) came_up (unless_ready w o app_id again answer)
unfolding unless_ready
unless_ready-Orderly w o rb app_id again true g r h k = ground arith
unless_ready-Orderly w o rb app_id again false g r h k =
    and_then-after rb applied came_up (wait w o app_id app_never_ready r) (λ _. again)
      (wait_ready-order w o rb app_id app_never_ready r h (ground arith)) (λ _. g)

await_ready-Orderly :
    (w : World) (o : Options) (rb : Bool) (fuel : ℕ) (app : App)
    → Orderly rb applied came_up (await_ready w o fuel app)
unfolding await_ready
await_ready-Orderly w o rb zero app r h k = h
await_ready-Orderly w o rb (suc fuel) app r h k =
    unless_ready-Orderly w o rb app.id (await_ready w o fuel app) (w.workload_ready r.trace)
      (await_ready-Orderly w o rb fuel app) _ h (ground arith)

deploy_app-Orderly :
    (w : World) (o : Options) (rb : Bool) (fuel : ℕ) (app : App)
    → Orderly rb (λ s. account_open s.trace) (λ _. true) (deploy_app w o fuel app)
unfolding deploy_app
deploy_app-Orderly w o rb fuel app r h k = elim (Bool-cases (is_nil r.dep.image_digest)) [
  | inl none_there ↦ rw none_there h
  | inr there ↦ rw there (
      and_then-after rb (λ s. account_open s.trace) (λ _. true) (deploy_config w o r.dep app r) _
        (deploy_config-order w o rb r.dep app r h k)
        (λ config s hs ks.
          and_then-after rb applied (λ _. true) (apply_objects w o (image_of w o r.dep app) s) _
            (apply_objects-order w o rb (image_of w o r.dep app) s hs ks)
            (λ _ t ht kt.
              and_then-after rb came_up (λ _. true) (await_ready w o fuel app t) _
                (await_ready-Orderly w o rb fuel app t ht kt) (λ _. finish-Orderly w o rb config))))
]

-- The last check, and the deploy.
pub roll_out-Orderly :
    (w : World) (o : Options) (rb : Bool) (fuel : ℕ) (app_id : Text) (app : App)
    → Orderly rb (kind rb) (λ _. true) (blocked w o app_id >> deploy_app w o fuel app)
roll_out-Orderly w o rb fuel app_id app r h k =
    and_then-after rb (open_kind rb) (λ _. true) (blocked w o app_id r)
      (λ _. deploy_app w o fuel app) (blocked-order w o rb app_id r h k)
      (λ _ s hs ks. deploy_app-Orderly w o rb fuel app s hs (ground arith))
