-- ===== src/Reconcile/Ends/Whole.antt =====
-- A whole drive ends.
use deployer.Reconcile.World.{
  ◌>>◌, done, failed_with, out_of_fuel, Run, Drive, World, Outcome, Options, Upload, and_then,
  read_app, Failure, need, rollback,
}
use deployer.Domain.State.{queued, building, pushing, deploying, State, eq_state}
use deployer.Domain.Reason.{internal, upload_invalid, Reason}
use deployer.Base.{
  Bool, Bool-cases, Option, Text, arith, false, if◌then◌else◌, inl, inr, is_nil, none, refl, some,
  true, ℕ, ◌<◌, ◌∷◌, ◌≡◌,
}
use deployer.Reconcile.Drive.{
  expire, give_up, settle, remove_source, read_source, drive, delete_build_job, fail, first_step,
  walk, run, overdue,
}
use deployer.Reconcile.Ends.{
  finish-Sound, Sound, ended, closed, anything, Passes, App, and_then-closed, then-Sound,
  deploy_config-Sound, blocked-Sound, await_build-closed, apply_objects-Sound, move-Sound,
  resolve_image-Sound, start_build-Sound, await_ready-closed, finish-Sound,
}
use deployer.Reconcile.Phases.{
  in_phase, deploy_app, deploy_config, blocked, await_build, apply_objects, move, image_of,
  start_build, resolve_image, await_ready,
}

need-closed :
    {A B : Type 0} (p : Run → Bool) (found : Option A) (reason : Reason) (r : Run) (f : A → Drive B)
    → ((a : A) → closed p (f a r) ≡ true)
    → closed p (and_then (need found reason r) f) ≡ true
need-closed p none reason r f g = refl
need-closed p (some a) reason r f g = g a

in_phase-Sound :
    (s : State) (m : Drive (Unit {0})) → Sound anything m → Sound anything (in_phase s m)
in_phase-Sound s m g r = elim (Bool-cases (eq_state r.dep.state s)) [
  | inl now ↦ rw now (g r)
  | inr later ↦ rw later refl
]

if-Sound :
    (b : Bool) (m n : Drive (Unit {0}))
    → Sound anything m
    → Sound anything n
    → Sound anything (if b then m else n)
if-Sound true m n f g = f
if-Sound false m n f g = g

-- The world's deadlines pass, and the fuel outlasts them.
module _ (w : World) (o : Options) (n fuel : ℕ) (t : Passes n w) (enough : n < fuel) where
  deploy_app-Sound : (app : App) → Sound ended (deploy_app w o fuel app)
  unfolding deploy_app
  deploy_app-Sound app r = elim (Bool-cases (is_nil r.dep.image_digest)) [
    | inl none_there ↦ rw none_there refl
    | inr there ↦ rw there (
        and_then-closed anything ended (deploy_config w o r.dep app r) _
          (deploy_config-Sound w o r.dep app r)
          (λ config s _.
            and_then-closed anything ended (apply_objects w o (image_of w o r.dep app) s) _
              (apply_objects-Sound w o (image_of w o r.dep app) s)
              (λ _ u _.
                and_then-closed anything ended (await_ready w o fuel app u) _
                  (await_ready-closed w o n fuel app u t (omega arith))
                  (λ _ v _. finish-Sound w o config v))))
  ]

  first_step-Sound : (app : App) (upload : Upload) → Sound anything (first_step w o app upload)
  unfolding first_step
  first_step-Sound app upload r =
      then-Sound anything (blocked w o r.dep.app_id) _ (blocked-Sound w o r.dep.app_id)
        (if-Sound (rollback r.dep) (move w o deploying) (start_build w o app upload)
          (move-Sound w o deploying) (start_build-Sound w o app upload))
        r

  walk-Sound :
      (app_id : Text) (app : App) (upload : Upload) → Sound ended (walk w o fuel app_id app upload)
  unfolding walk
  walk-Sound app_id app upload =
      then-Sound ended (in_phase queued (first_step w o app upload)) _
        (in_phase-Sound queued _ (first_step-Sound app upload))
        (then-Sound ended (in_phase building (blocked w o app_id >> await_build w o fuel)) _
          (in_phase-Sound building _ (
            then-Sound anything (blocked w o app_id) _ (blocked-Sound w o app_id)
              (λ r. await_build-closed w o n fuel r t (omega arith))))
          (then-Sound ended (in_phase pushing (blocked w o app_id >> resolve_image w o app)) _
            (in_phase-Sound pushing _ (
              then-Sound anything (blocked w o app_id) _ (blocked-Sound w o app_id)
                (resolve_image-Sound w o app)))
            (then-Sound ended (blocked w o app_id) _ (blocked-Sound w o app_id)
              (deploy_app-Sound app))))

  -- The drive after its reading of the app.
  abbrev app_read : Run → Run
  app_read r = record { dep = r.dep; trace = read_app (w.get_app r.trace r.dep.app_id) ∷ r.trace }

  run-Sound : (upload : Option Upload) → Sound ended (run w o fuel upload)
  unfolding run
  run-Sound upload r =
      need-closed ended (w.get_app r.trace r.dep.app_id) internal (app_read r) _ (λ app.
        need-closed ended upload upload_invalid (app_read r) _
          (λ given. walk-Sound r.dep.app_id app given (app_read r)))

-- A result, after a call that ends the deployment.
abbrev pub finished : Outcome (Unit {0}) × Run → Bool
finished (done u, r) = ended r
finished (failed_with f, r) = false
finished (out_of_fuel, r) = false

expire-finished : (w : World) (o : Options) (r : Run) → finished (expire w o r) ≡ true
unfolding expire delete_build_job fail
expire-finished w o r = ground arith

give_up-finished :
    (w : World) (o : Options) (f : Failure) (r : Run) → finished (give_up w o f r) ≡ true
unfolding give_up delete_build_job fail
give_up-finished w o f r = ground arith

settle-finished :
    (w : World) (o : Options) (x : Outcome (Unit {0}) × Run)
    → closed ended x ≡ true
    → finished (settle w o x) ≡ true
unfolding settle
settle-finished w o (done u, r) h = h
settle-finished w o (out_of_fuel, r) h = cc
settle-finished w o (failed_with f, r) h = elim (Bool-cases f.ended_elsewhere) [
  | inl elsewhere ↦ rw elsewhere (rw elsewhere at h)
  | inr here ↦ rw here (give_up-finished w o f r)
]

remove-finished :
    (w : World) (o : Options) (upload : Option Upload) (x : Outcome (Unit {0}) × Run)
    → finished x ≡ true
    → finished (and_then x (λ _. remove_source w o upload)) ≡ true
unfolding remove_source
remove-finished w o upload (done u, r) h = ground arith
remove-finished w o upload (out_of_fuel, r) h = cc
remove-finished w o upload (failed_with f, r) h = cc

read_source-finished :
    (w : World) (o : Options) (r : Run) (f : Option Upload → Drive (Unit {0}))
    → ((upload : Option Upload) (s : Run) → finished (f upload s) ≡ true)
    → finished (and_then (read_source w o r) f) ≡ true
unfolding read_source
read_source-finished w o r f g = elim (Bool-cases (rollback r.dep)) [
  | inl back ↦ rw back (g _ _)
  | inr forth ↦ rw forth (g _ _)
]

-- If the deadlines of the phases pass within `n` ticks, any fuel above `n` is enough, and whatever
-- else the world answers the drive returns, after a call that ends the deployment: it was marked
-- healthy, its failure was handed to the store, or a write answered that something else ended it.
pub drive-finished :
    (w : World) (o : Options) (n fuel : ℕ) (r : Run)
    → Passes n w
    → n < fuel
    → finished (drive w o fuel r) ≡ true
unfolding drive
drive-finished w o n fuel r t enough = elim (Bool-cases (overdue w o r.dep (w.now r.trace))) [
  | inl late ↦ rw late (expire-finished w o r)
  | inr early ↦ rw early (
      read_source-finished w o r _ (λ upload s.
        remove-finished w o upload (settle w o (run w o fuel upload s))
          (settle-finished w o (run w o fuel upload s) (run-Sound w o n fuel t enough upload s))))
]
