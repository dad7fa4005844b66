-- ===== src/Reconcile/Order/Whole.antt =====
-- A whole drive keeps the order of its calls.
use deployer.Reconcile.World.{
  out_of_fuel, done, failed_with, read_app, Run, Outcome, done, World, failed_with, Options,
  rollback, Drive, App, Upload, Deployment, ◌>>◌, Failure,
}
use deployer.Domain.State.{pushing, State, building, eq_state, queued}
use deployer.Base.{Bool, Text, [], arith, true, ◌∷◌, ◌≡◌, refl, ℕ, Option, Bool-cases, inl, inr}
use deployer.Reconcile.Phases.{blocked, resolve_image, await_build, in_phase}
use deployer.Domain.Reason.{internal, upload_invalid}
use deployer.Reconcile.Drive.{
  first_step, walk, run, expire, give_up, settle, read_source, remove_source, drive,
  delete_build_job, overdue, fail,
}
use deployer.Reconcile.Order.{
  Orderly, in_order, after, kind, after-in_order, then-Orderly, need-after, and_then-after,
  agree_self,
}
use deployer.Reconcile.Order.Steps.{first_step-Orderly, after_blocked, resolve_image-order}
use deployer.Reconcile.Order.Loops.{await_build-Orderly, roll_out-Orderly}

in_phase-Orderly :
    (rb : Bool) (s : State) (m : Drive (Unit {0}))
    → Orderly rb (kind rb) (kind rb) m
    → Orderly rb (kind rb) (kind rb) (in_phase s m)
in_phase-Orderly rb s m g r h k = elim (Bool-cases (eq_state r.dep.state s)) [
  | inl now ↦ rw now (g r h k)
  | inr later ↦ rw later (ground arith)
]

walk-Orderly :
    (w : World) (o : Options) (rb : Bool) (fuel : ℕ) (app_id : Text) (app : App) (upload : Upload)
    → Orderly rb (kind rb) (λ _. true) (walk w o fuel app_id app upload)
unfolding walk
walk-Orderly w o rb fuel app_id app upload =
    then-Orderly rb (kind rb) (λ _. true) (in_phase queued (first_step w o app upload)) _
      (in_phase-Orderly rb queued _ (first_step-Orderly w o rb app upload))
      (then-Orderly rb (kind rb) (λ _. true)
        (in_phase building (blocked w o app_id >> await_build w o fuel)) _
        (in_phase-Orderly rb building _
          (after_blocked w o rb app_id (kind rb) _ (await_build-Orderly w o rb fuel)))
        (then-Orderly rb (kind rb) (λ _. true)
          (in_phase pushing (blocked w o app_id >> resolve_image w o app)) _
          (in_phase-Orderly rb pushing _
            (after_blocked w o rb app_id (kind rb) _ (resolve_image-order w o rb app)))
          (roll_out-Orderly w o rb fuel app_id app)))

-- The drive after its reading of the app.
abbrev app_read : World → Run → Run
app_read w r = record { dep = r.dep; trace = read_app (w.get_app r.trace r.dep.app_id) ∷ r.trace }

run-Orderly :
    (w : World) (o : Options) (rb : Bool) (fuel : ℕ) (upload : Option Upload)
    → Orderly rb (kind rb) (λ _. true) (run w o fuel upload)
unfolding run
run-Orderly w o rb fuel upload r h k =
    need-after rb (λ _. true) (w.get_app r.trace r.dep.app_id) internal (app_read w r) _ h
      (λ app.
        need-after rb (λ _. true) upload upload_invalid (app_read w r) _ h
          (λ given. walk-Orderly w o rb fuel r.dep.app_id app given (app_read w r) h k))

expire-order :
    (w : World) (o : Options) (rb : Bool) (r : Run)
    → in_order rb r.trace ≡ true
    → after rb (λ _. true) (expire w o r) ≡ true
unfolding expire delete_build_job fail
expire-order w o rb r h = ground arith

give_up-order :
    (w : World) (o : Options) (rb : Bool) (f : Failure) (r : Run)
    → in_order rb r.trace ≡ true
    → after rb (λ _. true) (give_up w o f r) ≡ true
unfolding give_up delete_build_job fail
give_up-order w o rb f r h = ground arith

settle-order :
    (w : World) (o : Options) (rb : Bool) (x : Outcome (Unit {0}) × Run)
    → after rb (λ _. true) x ≡ true
    → after rb (λ _. true) (settle w o x) ≡ true
unfolding settle
settle-order w o rb (done u, r) h = h
settle-order w o rb (out_of_fuel, r) h = h
settle-order w o rb (failed_with f, r) h = elim (Bool-cases f.ended_elsewhere) [
  | inl elsewhere ↦ rw elsewhere (ground arith)
  | inr here ↦ rw here (give_up-order w o rb f r h)
]

read_source-order :
    (w : World) (o : Options) (rb : Bool) (r : Run)
    → in_order rb r.trace ≡ true
    → kind rb r ≡ true
    → after rb (kind rb) (read_source w o r) ≡ true
unfolding read_source
read_source-order w o rb r h k = ground arith

remove_source-order :
    (w : World) (o : Options) (rb : Bool) (upload : Option Upload) (r : Run)
    → in_order rb r.trace ≡ true
    → after rb (λ _. true) (remove_source w o upload r) ≡ true
unfolding remove_source
remove_source-order w o rb upload r h = ground arith

drive-order :
    (w : World) (o : Options) (rb : Bool) (fuel : ℕ) (r : Run)
    → in_order rb r.trace ≡ true
    → kind rb r ≡ true
    → after rb (λ _. true) (drive w o fuel r) ≡ true
unfolding drive
drive-order w o rb fuel r h k = elim (Bool-cases (overdue w o r.dep (w.now r.trace))) [
  | inl late ↦ rw late (expire-order w o rb r h)
  | inr early ↦ rw early (
      and_then-after rb (kind rb) (λ _. true) (read_source w o r) _ (read_source-order w o rb r h k)
        (λ upload s hs ks.
          and_then-after rb (λ _. true) (λ _. true) (settle w o (run w o fuel upload s)) _
            (settle-order w o rb (run w o fuel upload s) (run-Orderly w o rb fuel upload s hs ks))
            (λ _ t ht _. remove_source-order w o rb upload t ht)))
]

-- Whatever the store, the cluster, the registry and the clock answer, and with any fuel, a drive
-- makes its calls in order: a build Job is created only for a deployment that is no rollback and was
-- moved to building before; a build is moved to deploying only if the image user read last is not
-- root; a workload is applied only after the network policies, the pull secret and the configuration
-- were, and with the account not suspended at the last reading; a deployment is marked healthy only
-- right after the workload, which was applied, reported ready.
pub drive-in_order :
    (w : World) (o : Options) (fuel : ℕ) (dep : Deployment)
    → in_order (rollback dep) (drive w o fuel (record { dep = dep; trace = [] })).1.trace ≡ true
drive-in_order w o fuel dep =
    after-in_order (rollback dep) (drive w o fuel (record { dep = dep; trace = [] })) (
      drive-order w o (rollback dep) fuel (record { dep = dep; trace = [] }) refl
        (agree_self (rollback dep)))
