-- ===== src/Store/Deployments/Healthy.antt =====
-- Every ending of `MarkHealthy`.
use deployer.Domain.State.{healthy}
use mathlib.Core.Path.{subst}
use deployer.Base.{
  Bool-cases, any, false, inl, inr, is_nil, none, refl, sym, true, ℕ, ◌+◌, ◌==◌, ◌≡◌,
}
use deployer.Store.Deployments.{
  mark_healthy, or_exists, mint_release, healthy_tx, checked, constraint, Result, deref,
  apply_transition, restore_config,
}
use deployer.Store.{Config, Db, Release, Deployment}
use deployer.Store.Queries.{insert_release, new_id}
use deployer.Store.Tx.{
  Tx, Error, err, in_tx-throw, release_exists, bind-err, bind-ok, no_digest, failed_check,
}
use deployer.Store.Deployments.WellFormed.{IsWellFormed, after_step}
use deployer.Store.Deployments.Move.{
  Checks, verdict, missing, Checks-checked, ended, apply_transition_lem, found_self, refused,
  passed,
}
use deployer.Store.Deployments.Mint.{
  the_release, risen, mark_healthy_succeeds, Unreleased, mint_lem, after_mint,
}
use deployer.Store.Deployments.Restore.{restore_config-refused, storable}

-- What a refusal of the transaction does: its error comes back, and the tables are as before.
rolled_back :
    (id : ℕ) (config : Config) (now : ℕ) (db : Db) {e : Error}
    → healthy_tx id config now db ≡ err e
    → mark_healthy id config now db ≡ (err e, db)
unfolding mark_healthy
rolled_back id config now db h = in_tx-throw (healthy_tx id config now) db h

unchecked :
    (id : ℕ) (config : Config) (now : ℕ) (db : Db) {e : Error}
    → checked id healthy db ≡ err e
    → mark_healthy id config now db ≡ (err e, db)
unchecked id config now db h =
    rolled_back id config now db (unfold healthy_tx in bind-err (checked id healthy) _ db h)

insert_release-taken :
    (r : Release) (db : Db)
    → any (λ (s : Release). s.deployment_id == r.deployment_id) db.releases ≡ true
    → insert_release r db ≡ err constraint
unfolding insert_release
insert_release-taken r db h = rw h refl

or_exists-taken :
    (m : Tx Release) (db : Db) → m db ≡ err constraint → or_exists m db ≡ err release_exists
unfolding or_exists
or_exists-taken m db h = rw (h, or_exists) refl

mint-taken :
    (dep : Deployment) (config : Config) (now : ℕ) (db : Db)
    → any (λ (s : Release). s.deployment_id == dep.id) db.releases ≡ true
    → mint_release dep config now db ≡ err release_exists
unfolding mint_release new_id the_release
mint-taken dep config now db h =
    let db1 : Db = record db { next_id = db.next_id + 1 } in
    let r : Release = the_release dep config now db in
    bind-err (or_exists (insert_release r)) _ db1
      (or_exists-taken (insert_release r) db1 (insert_release-taken r db1 h))

undigested :
    (id : ℕ) (config : Config) (now : ℕ) (db : Db) (dep : Deployment)
    → Checks id healthy db dep
    → is_nil (deref dep.image_digest) ≡ true
    → mark_healthy id config now db ≡ (err no_digest, db)
unfolding healthy_tx
undigested id config now db dep c digest =
    rolled_back id config now db
      (bind-ok (checked id healthy) _ db (Checks-checked id healthy db dep c) (rw digest refl))

taken :
    (id : ℕ) (config : Config) (now : ℕ) (db : Db) (dep : Deployment)
    → Checks id healthy db dep
    → is_nil (deref dep.image_digest) ≡ false
    → any (λ (s : Release). s.deployment_id == dep.id) db.releases ≡ true
    → mark_healthy id config now db ≡ (err release_exists, db)
unfolding healthy_tx
taken id config now db dep c digest used = rolled_back id config now db (
    bind-ok (checked id healthy) _ db (Checks-checked id healthy db dep c) (
      rw digest (
        bind-ok (apply_transition dep healthy none none now) _ db
          (apply_transition_lem dep healthy none none now db (found_self id db dep c.found))
          (bind-err (mint_release dep config now) _ (risen dep now db)
            (mint-taken dep config now (risen dep now db) (unfold after_step in used))))))

unstorable :
    (id : ℕ) (config : Config) (now : ℕ) (db : Db) (dep : Deployment)
    → Checks id healthy db dep
    → is_nil (deref dep.image_digest) ≡ false
    → Unreleased dep.id db
    → storable dep config ≡ false
    → mark_healthy id config now db ≡ (err failed_check, db)
unfolding healthy_tx
unstorable id config now db dep c digest fresh bad = rolled_back id config now db (
    bind-ok (checked id healthy) _ db (Checks-checked id healthy db dep c) (
      rw digest (
        bind-ok (apply_transition dep healthy none none now) _ db
          (apply_transition_lem dep healthy none none now db (found_self id db dep c.found))
          (bind-ok (mint_release dep config now) _ (risen dep now db)
            (mint_lem dep config now (risen dep now db) (unfold after_step in fresh))
            (bind-err (restore_config dep config now) _
              (after_mint dep config now (risen dep now db))
              (restore_config-refused dep config now _ bad))))))

-- A call that is known to end with well formed tables.
pub ends-IsWellFormed :
    {A : Type 0} {r : Result A × Db} {x : Result A} {db : Db}
    → r ≡ (x, db)
    → IsWellFormed db
    → IsWellFormed r.1
ends-IsWellFormed ran v = subst (λ r. IsWellFormed r.1) (sym ran) v

-- `MarkHealthy` keeps the tables well formed, whatever it is asked for and however it ends.
pub mark_healthy-IsWellFormed :
    (id : ℕ) (config : Config) (now : ℕ) (db : Db)
    → IsWellFormed db
    → IsWellFormed (mark_healthy id config now db).1
mark_healthy-IsWellFormed id config now db v = elim (verdict id healthy db) [
  | missing g e ↦ ends-IsWellFormed (unchecked id config now db e) v
  | ended dep g t e ↦ ends-IsWellFormed (unchecked id config now db e) v
  | refused dep g t c e ↦ ends-IsWellFormed (unchecked id config now db e) v
  | passed dep c e ↦ elim (Bool-cases (is_nil (deref dep.image_digest))) [
    | inl empty ↦ ends-IsWellFormed (undigested id config now db dep c empty) v
    | inr digest ↦
        elim (Bool-cases (any (λ (s : Release). s.deployment_id == dep.id) db.releases)) [
          | inl used ↦ ends-IsWellFormed (taken id config now db dep c digest used) v
          | inr fresh ↦ elim (Bool-cases (storable dep config)) [
            | inl good ↦
                let (db', ran, _, _, _, _, well) =
                  mark_healthy_succeeds id config now db dep v c digest fresh good in
                ends-IsWellFormed ran well
            | inr bad ↦ ends-IsWellFormed (unstorable id config now db dep c digest fresh bad) v
          ]
        ]
  ]
]
