-- ===== src/Store/Deployments/Claims.antt =====
-- `ClaimNext`, `ReleaseBuildingClaim` and `RecordBuildResult`, which move no deployment.
use deployer.Store.{Deployment, Db}
use deployer.Store.Tx.{in_tx}
use deployer.Store.Queries.{
  in_flight, claimable, before, next_claimable, claimed, claim_next_deployment,
  release_building_claim_row, built, get_deployment,
}
use deployer.Store.Table.{update_by, All-update}
use deployer.Store.Deployments.WellFormed.{
  OneInFlight-update, Below-update, Tame, Logged, IsWellFormed,
}
use deployer.Store.Deployments.{
  claim_next, release_building_claim, record_build_result, BuildResult,
}
use deployer.Base.{
  All, List, [], false, true, ◌∷◌, ◌≡◌, Bool, Bool-cases, Option-cases, Text, inl, inr, ℕ, ◌&&◌,
  is_some, refl, not, ◌==◌, ◌⊎◌,
}

-- The table has that row.
abbrev pub Has : Deployment → List Deployment → Type 0
Has d [] = ⊥
Has d (e ∷ l) = (e ≡ d) ⊎ Has d l

-- Which row of the table a claim takes, of all rows.
pub record IsNext (d : Deployment) (l : List Deployment) : Type 0 where
  pub there : Has d l
  pub free : claimable d ≡ true
  pub first : All (λ (e : Deployment). claimable e ≡ true → before e d ≡ false) l

-- The row of the table that the claim writes.
abbrev pub is_taken : Deployment → Deployment → Bool
is_taken c r = r.id == c.id && not (is_some r.claimed_at)

All-Tame :
    (p : Deployment → Bool) (f : Deployment → Deployment) (l : List Deployment)
    → ((a : Deployment) → (f a).app_id ≡ a.app_id)
    → ((a : Deployment) → (f a).state ≡ a.state)
    → All (Tame p f) l
unfolding in_flight
All-Tame p f [] fapp fst = tt
All-Tame p f (a ∷ l) fapp fst = (λ _. (fapp a, λ h. rw (fst a) at h), All-Tame p f l fapp fst)

-- An update that leaves ids, apps and states alone.
IsWellFormed-update :
    (p : Deployment → Bool) (f : Deployment → Deployment) (db : Db)
    → ((a : Deployment) → (f a).id ≡ a.id)
    → ((a : Deployment) → (f a).app_id ≡ a.app_id)
    → ((a : Deployment) → (f a).state ≡ a.state)
    → IsWellFormed db
    → IsWellFormed (record db { deployments = update_by p f db.deployments })
IsWellFormed-update p f db fid fapp fst v = record {
  ids = Below-update p f db.next_id db.deployments fid v.ids;
  flight = OneInFlight-update p f db.deployments (All-Tame p f db.deployments fapp fst) v.flight;
  logged =
      All-update (λ a. Logged a.id db.events a.state) p f db.deployments
        (λ a h. rw (fid a, fst a) h) v.logged;
  known = v.known;
}

-- `ClaimNext` keeps well formed tables well formed, whether or not it finds a row.
pub claim_next-IsWellFormed :
    (claimed_by : Text) (now : ℕ) (db : Db)
    → IsWellFormed db
    → IsWellFormed (claim_next claimed_by now db).1
unfolding claim_next claim_next_deployment claimed
claim_next-IsWellFormed claimed_by now db v = elim (Option-cases (next_claimable db.deployments)) [
  | inl nothing ↦ rw (nothing, claim_next_deployment, in_tx) v
  | inr (c, best) ↦
      rw (best, claim_next_deployment, in_tx)
        (IsWellFormed-update _ _ db (λ a. refl) (λ a. refl) (λ a. refl) v)
]

-- `ReleaseBuildingClaim` keeps well formed tables well formed, whatever row it is given.
pub release_building_claim-IsWellFormed :
    (id now : ℕ) (db : Db) → IsWellFormed db → IsWellFormed (release_building_claim id now db).1
unfolding release_building_claim release_building_claim_row
release_building_claim-IsWellFormed id now db v =
    IsWellFormed-update _ _ db (λ a. refl) (λ a. refl) (λ a. refl) v

-- `RecordBuildResult` keeps well formed tables well formed, also for a row that is not there.
pub record_build_result-IsWellFormed :
    (id : ℕ) (r : BuildResult) (now : ℕ) (db : Db)
    → IsWellFormed db
    → IsWellFormed (record_build_result id r now db).1
unfolding record_build_result built in_tx
record_build_result-IsWellFormed id r now db v =
    elim (Bool-cases (is_some (get_deployment id db))) [
      | inl there ↦
          rw (there, in_tx) (IsWellFormed-update _ _ db (λ a. refl) (λ a. refl) (λ a. refl) v)
      | inr gone ↦ rw (gone, in_tx) v
    ]
