-- ===== src/Tests/Drives.antt =====
-- Whole drives, in a cluster where every call succeeds.
use deployer.Base.{Text, codes, [], any, false, refl, some, true, ◌≡◌, arith, ltb}
use deployer.Domain.Image.{runs_as_root, is_space}
use deployer.Domain.State.{eq_state, queued, healthy}
use deployer.Reconcile.World.{
  Run, written, dockerfile_found, job_succeeded, Deployment, App, Options, World, rollback,
}
use deployer.Reconcile.Drive.{drive}
use deployer.Reconcile.Order.{in_order, is_workload}
use deployer.Reconcile.Order.Whole.{drive-in_order}
use deployer.Reconcile.Ends.{sleeps, Passes}
use deployer.Reconcile.Ends.Whole.{finished, drive-finished}

abbrev pub options : Options
options = record {
  build_namespace = codes "builds";
  buildkit_namespace = codes "buildkit";
  registry_host = codes "reg";
  deploy_timeout = 600;
}

abbrev the_app : App
the_app = record { id = codes "app_1"; slug = codes "shop"; account_suspended = false }

-- The image user is the one thing that is given.
abbrev pub sunny : Text → World
sunny user = record {
  get_app = λ tr id. some the_app;
  get_upload = λ tr id. some (record { id = id; path = codes "up" });
  open_upload = λ tr p. true;
  has_root_dockerfile = λ tr p. dockerfile_found;
  mint_fetch_token = λ tr id. true;
  create_job = λ tr ns. true;
  job_state = λ tr ns. some job_succeeded;
  delete_job = λ tr n. true;
  compose_secret = λ tr s. true;
  apply_secret = λ tr s. true;
  record_build = λ tr. true;
  digest = λ tr tag. some (codes "sha256:ab");
  image_user = λ tr d. some user;
  release_snapshot = λ tr id. some [];
  config_for_deploy = λ tr id. some [];
  ensure_namespace = λ tr. true;
  apply_network_policies = λ tr. true;
  apply_workload = λ tr image. true;
  workload_ready = λ tr. true;
  tick = λ tr. ltb (sleeps tr) 3;
  transition = λ tr id s. written;
  mark_healthy = λ tr. written;
  spent = λ tr. false;
  now = λ tr. 100;
}

abbrev pub fresh_dep : Deployment
fresh_dep = record {
  id = codes "dep_1";
  app_id = codes "app_1";
  upload_id = codes "upl_1";
  state = queued;
  image_repo = [];
  image_digest = [];
  created_at = some 50;
  build_job_name = [];
  build_path = [];
  source_release_id = [];
}

abbrev begin : Run
begin = record { dep = fresh_dep; trace = [] }

comes_up : (drive (sunny (codes "1000")) options 5 begin).1.dep.state ≡ healthy
unfolding drive eq_state runs_as_root is_space
comes_up = refl

-- A root image ends at its check, in pushing, and the failure is written.
root_image : any (is_workload) (drive (sunny (codes "root")) options 5 begin).1.trace ≡ false
unfolding drive eq_state runs_as_root is_space
root_image = refl

drive-in_order_example :
    in_order
      (rollback fresh_dep)
      (drive (sunny (codes "1000")) options 5 (record { dep = fresh_dep; trace = [] })).1.trace
    ≡ true
drive-in_order_example = drive-in_order (sunny (codes "1000")) options 5 fresh_dep

pub three_ticks : Passes 3 (sunny (codes "1000"))
three_ticks tr h = ground arith

drive-finished_example : finished (drive (sunny (codes "1000")) options 4 begin) ≡ true
drive-finished_example =
    drive-finished (sunny (codes "1000")) options 3 4 begin three_ticks (omega arith)
