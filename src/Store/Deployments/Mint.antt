-- ===== src/Store/Deployments/Mint.antt =====
-- `MarkHealthy`: the transition, the release and the pointer to it, in one transaction.
use deployer.Domain.State.{healthy}
use deployer.Store.{Deployment, Release, App, Config, Db}
use deployer.Store.Tx.{Tx, ok, in_tx-ok, bind-ok}
use deployer.Store.Queries.{
  moved, max_number, next_release_number, insert_release, new_id, set_app_current_release,
}
use deployer.Store.Table.{update_by}
use deployer.Store.Deployments.WellFormed.{IsWellFormed, after_step, Below-mono, grow-known}
use deployer.Store.Deployments.Move.{
  Checks-checked, Checks, apply_transition_lem, found_self, move-IsWellFormed,
}
use deployer.Store.Deployments.{
  move_params, move_event, apply_transition, checked, deref, mint_release, or_exists,
  restore_config, healthy_tx, mark_healthy,
}
use deployer.Base.{
  List, [], any, arith, false, refl, some, ℕ, ◌&&◌, ◌+◌, ◌<◌, ◌==◌, ◌∷◌, ◌≡◌, inl, inr, is_nil,
  none, All, true, ◌⊎◌,
}
use deployer.Store.Deployments.Restore.{storable, restore_runs}

fresh_number :
    (app_id k : ℕ) (l : List Release)
    → max_number app_id l < k
    → any (λ (s : Release). s.app_id == app_id && s.release_number == k) l ≡ false
unfolding max_number
fresh_number app_id k [] h = refl
fresh_number app_id k (r ∷ l) h = ground (arith, fresh_number app_id k l)

-- No release of that deployment exists.
abbrev pub Unreleased : ℕ → Db → Type 0
Unreleased id db = any (λ (s : Release). s.deployment_id == id) db.releases ≡ false

unfoldable pub the_release : Deployment → Config → ℕ → Db → Release
the_release dep config now db = record {
  id = db.next_id;
  app_id = dep.app_id;
  deployment_id = dep.id;
  release_number = next_release_number dep.app_id db;
  image_digest = deref dep.image_digest;
  config_snapshot = config;
  created_at = now;
}

unfoldable pub after_mint : Deployment → Config → ℕ → Db → Db
unfolding the_release
after_mint dep config now db = record db {
  releases = the_release dep config now db ∷ db.releases;
  apps =
      update_by (λ (a : App). a.id == dep.app_id)
        (λ (a : App). record a { current_release_id = some db.next_id; updated_at = now }) db.apps;
  next_id = db.next_id + 1;
}

insert_release_lem :
    (r : Release) (db : Db)
    → Unreleased r.deployment_id db
    → max_number r.app_id db.releases < r.release_number
    → insert_release r db ≡ ok (r, record db { releases = r ∷ db.releases })
unfolding insert_release
insert_release_lem r db fresh above =
    rw fresh (rw (fresh_number r.app_id r.release_number db.releases above) refl)

or_exists-ok :
    (m : Tx Release) (db : Db) {r : Release} {db' : Db}
    → m db ≡ ok (r, db')
    → or_exists m db ≡ ok (r, db')
unfolding or_exists
or_exists-ok m db h = rw (h, or_exists) refl

pub mint_lem :
    (dep : Deployment) (config : Config) (now : ℕ) (db : Db)
    → Unreleased dep.id db
    → mint_release dep config now db
      ≡ ok (the_release dep config now db, after_mint dep config now db)
unfolding mint_release new_id set_app_current_release after_mint next_release_number the_release
mint_lem dep config now db h =
    let db1 : Db = record db { next_id = db.next_id + 1 } in
    bind-ok (or_exists (insert_release (the_release dep config now db))) _ db1
      (or_exists-ok (insert_release (the_release dep config now db)) db1
        (insert_release_lem (the_release dep config now db) db1 h (omega arith)))
      refl

-- Tables that agree on deployments and events, with one id more used up.
IsWellFormed-after :
    (db db' : Db)
    → db'.deployments ≡ db.deployments
    → db'.events ≡ db.events
    → db'.next_id ≡ db.next_id + 1
    → IsWellFormed db
    → IsWellFormed db'
IsWellFormed-after db db' qd qe qn v = record {
  ids = rw (qd, qn) (Below-mono db.next_id (db.next_id + 1) db.deployments (omega arith) v.ids);
  flight = rw qd v.flight;
  logged = rw (qd, qe) v.logged;
  known = rw (qe, qn) (grow-known db.next_id (db.next_id + 1) db.events (omega arith) v.known);
}

-- The tables once the transition is written, before the release is.
abbrev pub risen : Deployment → ℕ → Db → Db
risen dep now db =
    after_step (move_params dep healthy none now) (move_event dep healthy none none now db.next_id)
      db

-- Above the number of every release of the app, and no further: the first is 1.
abbrev pub IsNextNumber : ℕ → ℕ → List Release → Type 0
IsNextNumber app_id n l =
    All (λ (r : Release). r.app_id ≡ app_id → r.release_number < n) l
    × ((n ≡ 1) ⊎ (any (λ (r : Release). r.app_id == app_id && r.release_number + 1 == n) l ≡ true))

under :
    (app_id n : ℕ) (l : List Release)
    → max_number app_id l < n
    → All (λ (r : Release). r.app_id ≡ app_id → r.release_number < n) l
unfolding max_number
under app_id n [] h = tt
under app_id n (r ∷ l) h = (λ q. ground arith, under app_id n l (ground arith))

reached :
    (app_id : ℕ) (l : List Release)
    → (max_number app_id l ≡ 0)
      ⊎ (any
            (λ (r : Release). r.app_id == app_id && r.release_number + 1 == max_number app_id l + 1)
            l
          ≡ true)
unfolding max_number
reached app_id [] = inl refl
reached app_id (r ∷ l) = ground (arith, reached app_id l)

next_release_number-IsNextNumber :
    (app_id : ℕ) (db : Db) → IsNextNumber app_id (next_release_number app_id db) db.releases
unfolding next_release_number
next_release_number-IsNextNumber app_id db = (
  under app_id (max_number app_id db.releases + 1) db.releases (omega arith),
  elim (reached app_id db.releases) [ inl none_yet ↦ inl (omega arith) | inr there ↦ inr there ],
)

-- On well formed tables a deploying deployment with a digest and no release becomes healthy, if the keys
-- of a configuration that is to be written back pass the CHECK of the table. In the same transaction it
-- gets a release, which is the only one added: of its app, under the number that follows the largest of the
-- app's releases, or 1, with its own digest and the configuration it was given as snapshot; and the app
-- points at that release.
pub mark_healthy_succeeds :
    (id : ℕ) (config : Config) (now : ℕ) (db : Db) (dep : Deployment)
    → IsWellFormed db
    → Checks id healthy db dep
    → is_nil (deref dep.image_digest) ≡ false
    → Unreleased dep.id db
    → storable dep config ≡ true
    → (db' : Db) × (mark_healthy id config now db ≡ (
      ok (
        moved (move_params dep healthy none now) dep,
        the_release dep config now (risen dep now db),
      ),
      db',
    ))
      × (db'.deployments ≡ (risen dep now db).deployments)
      × (db'.releases ≡ the_release dep config now (risen dep now db) ∷ db.releases)
      × IsNextNumber dep.app_id
          (the_release dep config now (risen dep now db)).release_number
          db.releases
      × (db'.apps ≡ (after_mint dep config now (risen dep now db)).apps)
      × IsWellFormed db'
unfolding mark_healthy healthy_tx
mark_healthy_succeeds id config now db dep v c digest fresh stores =
    let db2 : Db = after_mint dep config now (risen dep now db) in
    let (db', ran, same) = restore_runs dep config now db2 stores in
    (
      db',
      in_tx-ok (healthy_tx id config now) db (
          bind-ok (checked id healthy) _ db (Checks-checked id healthy db dep c) (
            rw digest (
              bind-ok (apply_transition dep healthy none none now) _ db
                (apply_transition_lem dep healthy none none now db (found_self id db dep c.found))
                (bind-ok (mint_release dep config now) _ (risen dep now db)
                  (mint_lem dep config now (risen dep now db) (unfold after_step in fresh))
                  (bind-ok (restore_config dep config now) _ db2 ran refl))))),
      unfold after_mint in same.0,
      unfold after_mint after_step in same.2,
      unfold the_release after_step in
          next_release_number-IsNextNumber dep.app_id (risen dep now db),
      same.3,
      IsWellFormed-after (risen dep now db) db' (unfold after_mint in same.0)
          (unfold after_mint in same.1) (unfold after_mint in same.4)
          (move-IsWellFormed id healthy none none now db dep c v),
    )
