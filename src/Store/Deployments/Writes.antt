-- ===== src/Store/Deployments/Writes.antt =====
-- The methods that write deployments, as calls in any order; several writers are one sequence, since
-- each call is one transaction.
use deployer.Base.{List, Option, Text, [], ℕ, ◌∷◌}
use deployer.Store.Deployments.{
  CreateDeploymentInput, create_deployment, transition, record_build_result, BuildResult,
  mark_healthy, claim_next, release_building_claim,
}
use deployer.Store.{Db, String, Config}
use deployer.Domain.State.{State}
use deployer.Store.Deployments.WellFormed.{IsWellFormed}
use deployer.Domain.Reason.{Reason}
use deployer.Store.Deployments.Create.{create_deployment-IsWellFormed}
use deployer.Store.Deployments.Move.{transition-IsWellFormed}
use deployer.Store.Deployments.Claims.{
  record_build_result-IsWellFormed, claim_next-IsWellFormed, release_building_claim-IsWellFormed,
}
use deployer.Store.Deployments.Healthy.{mark_healthy-IsWellFormed}

pub data Write : Type 0 where
  creates : CreateDeploymentInput → ℕ → Write
  moves : ℕ → State → Option Reason → Option String → ℕ → Write
  builds : ℕ → BuildResult → ℕ → Write
  rises : ℕ → Config → ℕ → Write
  claims : Text → ℕ → Write
  lets_go : ℕ → ℕ → Write

-- The tables after a call, whatever it returned.
unfoldable pub after_write : Write → Db → Db
after_write (creates input now) db = (create_deployment input now db).1
after_write (moves id to reason detail now) db = (transition id to reason detail now db).1
after_write (builds id result now) db = (record_build_result id result now db).1
after_write (rises id config now) db = (mark_healthy id config now db).1
after_write (claims by now) db = (claim_next by now db).1
after_write (lets_go id now) db = (release_building_claim id now db).1

unfoldable pub after_writes : List Write → Db → Db
after_writes [] db = db
after_writes (c ∷ cs) db = after_writes cs (after_write c db)

after_write-IsWellFormed : (c : Write) (db : Db) → IsWellFormed db → IsWellFormed (after_write c db)
unfolding after_write
after_write-IsWellFormed (creates input now) db v = create_deployment-IsWellFormed input now db v
after_write-IsWellFormed (moves id to reason detail now) db v =
    transition-IsWellFormed id to reason detail now db v
after_write-IsWellFormed (builds id result now) db v =
    record_build_result-IsWellFormed id result now db v
after_write-IsWellFormed (rises id config now) db v = mark_healthy-IsWellFormed id config now db v
after_write-IsWellFormed (claims by now) db v = claim_next-IsWellFormed by now db v
after_write-IsWellFormed (lets_go id now) db v = release_building_claim-IsWellFormed id now db v

-- Whatever calls are made on well formed tables, in whatever order and with whatever result, creation,
-- moves, the record of a build, becoming healthy, claims and their release, the tables stay well
-- formed: at most one deployment of an app is in flight, and the events of every deployment are a
-- legal history from queued to its present state.
pub after_writes-IsWellFormed :
    (cs : List Write) (db : Db) → IsWellFormed db → IsWellFormed (after_writes cs db)
unfolding after_writes
after_writes-IsWellFormed [] db v = v
after_writes-IsWellFormed (c ∷ cs) db v =
    after_writes-IsWellFormed cs (after_write c db) (after_write-IsWellFormed c db v)
