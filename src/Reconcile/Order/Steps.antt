-- ===== src/Reconcile/Order/Steps.antt =====
-- The steps of a drive keep the order of its calls.
use deployer.Reconcile.World.{Run, World, Options, rollback, Drive, App, Upload, Deployment, ◌>>◌}
use deployer.Domain.State.{pushing, building, deploying, eq_state}
use deployer.Base.{Bool, Text, any, arith, false, true, ◌&&◌, ◌≡◌, refl, if◌then◌else◌}
use deployer.Reconcile.Phases.{
  apply_objects, apply, blocked, wait, move, start_build, resolve_image, over_budget, detect_path,
  save_build, deadline, create, finish, deploy_config,
}
use deployer.Domain.Reason.{Reason}
use deployer.Store.{Config}
use deployer.Reconcile.Drive.{first_step}
use deployer.Reconcile.Order.{
  in_order, is_workload, ready_now, Orderly, agree, account_open, kind, after, open_kind,
  and_then-after,
}

pub apply_objects-order :
    (w : World) (o : Options) (rb : Bool) (image : Text) (r : Run)
    → in_order rb r.trace ≡ true
    → account_open r.trace ≡ true
    → after rb (λ s. any is_workload s.trace) (apply_objects w o image r) ≡ true
unfolding apply_objects apply
apply_objects-order w o rb image r h q = ground arith

pub blocked-order :
    (w : World) (o : Options) (rb : Bool) (app_id : Text) (r : Run)
    → in_order rb r.trace ≡ true
    → kind rb r ≡ true
    → after rb (open_kind rb) (blocked w o app_id r) ≡ true
unfolding blocked over_budget
blocked-order w o rb app_id r h k = ground arith

pub wait-order :
    (w : World) (o : Options) (rb : Bool) (app_id : Text) (reason : Reason) (r : Run)
    → in_order rb r.trace ≡ true
    → kind rb r ≡ true
    → after rb (kind rb) (wait w o app_id reason r) ≡ true
unfolding wait blocked over_budget deadline
wait-order w o rb app_id reason r h k = ground arith

pub move_pushing-order :
    (w : World) (o : Options) (rb : Bool) (r : Run)
    → in_order rb r.trace ≡ true
    → kind rb r ≡ true
    → after rb (kind rb) (move w o pushing r) ≡ true
unfolding move rollback
move_pushing-order w o rb r h k = ground arith

building_self : eq_state building building ≡ true
unfolding eq_state
building_self = refl

start_build-order :
    (w : World) (o : Options) (app : App) (upload : Upload) (r : Run)
    → in_order false r.trace ≡ true
    → kind false r ≡ true
    → after false (kind false) (start_build w o app upload r) ≡ true
unfolding start_build move detect_path create apply save_build rollback
start_build-order w o app upload r h k = ground (arith, building_self)

pub resolve_image-order :
    (w : World) (o : Options) (rb : Bool) (app : App) (r : Run)
    → in_order rb r.trace ≡ true
    → kind rb r ≡ true
    → after rb (kind rb) (resolve_image w o app r) ≡ true
unfolding resolve_image move save_build rollback
resolve_image-order w o rb app r h k = ground arith

-- Once the workload is applied.
abbrev pub applied : Run → Bool
applied r = any is_workload r.trace

abbrev pub came_up : Run → Bool
came_up r = ready_now r.trace && any is_workload r.trace

pub wait_ready-order :
    (w : World) (o : Options) (rb : Bool) (app_id : Text) (reason : Reason) (r : Run)
    → in_order rb r.trace ≡ true
    → applied r ≡ true
    → after rb applied (wait w o app_id reason r) ≡ true
unfolding wait blocked over_budget deadline
wait_ready-order w o rb app_id reason r h k = ground arith

pub finish-Orderly :
    (w : World) (o : Options) (rb : Bool) (config : Config)
    → Orderly rb came_up (λ _. true) (finish w o config)
unfolding finish
finish-Orderly w o rb config r h k = ground arith

pub deploy_config-order :
    (w : World) (o : Options) (rb : Bool) (dep : Deployment) (app : App) (r : Run)
    → in_order rb r.trace ≡ true
    → account_open r.trace ≡ true
    → after rb (λ s. account_open s.trace) (deploy_config w o dep app r) ≡ true
unfolding deploy_config
deploy_config-order w o rb dep app r h k = ground arith

move_deploying-order :
    (w : World) (o : Options) → Orderly true (kind true) (kind true) (move w o deploying)
unfolding move rollback
move_deploying-order w o r h k = ground arith

-- The first phase, of a rollback and of a build.
start-Orderly :
    (w : World) (o : Options) (rb : Bool) (app : App) (upload : Upload) (flag : Bool)
    → agree rb flag ≡ true
    → Orderly rb
        (kind rb)
        (kind rb)
        (if flag then move w o deploying else start_build w o app upload)
start-Orderly w o true app upload true e = move_deploying-order w o
start-Orderly w o false app upload false e = start_build-order w o app upload
start-Orderly w o true app upload false e = cc
start-Orderly w o false app upload true e = cc

pub after_blocked :
    (w : World) (o : Options) (rb : Bool) (app_id : Text) (q : Run → Bool) (m : Drive (Unit {0}))
    → Orderly rb (kind rb) q m
    → Orderly rb (kind rb) q (blocked w o app_id >> m)
after_blocked w o rb app_id q m g r h k =
    and_then-after rb (open_kind rb) q (blocked w o app_id r) (λ _. m)
      (blocked-order w o rb app_id r h k) (λ _ s hs ks. g s hs (ground arith))

pub first_step-Orderly :
    (w : World) (o : Options) (rb : Bool) (app : App) (upload : Upload)
    → Orderly rb (kind rb) (kind rb) (first_step w o app upload)
unfolding first_step
first_step-Orderly w o rb app upload r h k =
    after_blocked w o rb r.dep.app_id (kind rb) _
      (start-Orderly w o rb app upload (rollback r.dep) k) r h k
