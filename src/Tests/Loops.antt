-- ===== src/Tests/Loops.antt =====
-- The loop with a host that knows one deployment, in the cluster of Tests/Drives.
use deployer.Base.{codes, [], false, some, true, ◌≡◌, ◌∷◌, arith}
use deployer.Domain.State.{building}
use deployer.Reconcile.World.{Deployment, claimed, Trace}
use deployer.Reconcile.Loop.{
  Host, boot, tick, recover_stranded, ticker, reaper, policy_sweep, serve, reap_pass,
}
use deployer.Reconcile.Loop.Evidence.{all_evident, recover_stranded-all_evident}
use deployer.Reconcile.Loop.Progress.{settled, returned, tick-settled, boot-returned, SweptRows}
use deployer.Tests.Drives.{options, sunny, fresh_dep, three_ticks}

abbrev stuck_dep : Deployment
stuck_dep = record {
  id = codes "dep_0";
  app_id = codes "app_1";
  upload_id = codes "upl_0";
  state = building;
  image_repo = [];
  image_digest = [];
  created_at = some 50;
  build_job_name = codes "build-0";
  build_path = [];
  source_release_id = [];
}

abbrev host : Host
host = record {
  list_non_terminal = λ tr. some (stuck_dep ∷ []);
  claim_next = λ tr. claimed fresh_dep;
  release_claim = λ tr id. some true;
  stopped = λ tr. false;
  app_namespaces = λ tr. some (codes "shop" ∷ []);
  police = λ tr slug. true;
  live_app_slugs = λ tr. some (codes "shop" ∷ []);
  old_namespaces = λ tr. some (codes "gone" ∷ []);
}

recover_stranded-all_evident_example :
    all_evident
      (sunny (codes "1000"))
      options
      host
      (stuck_dep ∷ [])
      (recover_stranded (sunny (codes "1000")) options host (stuck_dep ∷ []) [])
    ≡ true
recover_stranded-all_evident_example =
    recover_stranded-all_evident (sunny (codes "1000")) options host (stuck_dep ∷ [])

tick-settled_example : settled (tick (sunny (codes "1000")) options host 4 []) ≡ true
tick-settled_example =
    tick-settled (sunny (codes "1000")) options host 3 4 three_ticks (omega arith) []

boot-returned_example :
    (swept : Trace) × SweptRows
      (sunny (codes "1000"))
      options
      host
      3
      4
      three_ticks
      (omega arith)
      (host.list_non_terminal (policy_sweep (sunny (codes "1000")) options host []))
      (policy_sweep (sunny (codes "1000")) options host [])
      swept
    × (boot (sunny (codes "1000")) options host 4 (ticker ∷ reaper ∷ []) []
        ≡ serve
            (sunny (codes "1000"))
            options
            host
            4
            (ticker ∷ reaper ∷ [])
            (reap_pass (sunny (codes "1000")) options host swept))
    × (returned (boot (sunny (codes "1000")) options host 4 (ticker ∷ reaper ∷ []) []) ≡ true)
boot-returned_example =
    boot-returned (sunny (codes "1000")) options host 3 4 three_ticks (omega arith)
      (ticker ∷ reaper ∷ []) []
