-- ===== src/Store/Deployments/Restore.antt =====
-- The configuration that a rollback writes back, in `MarkHealthy`: when it is written, and when refused.
use deployer.Base.{
  Bool, Bool-cases, [], arith, false, if◌then◌else◌, inl, inr, is_some, refl, true, ℕ, ◌&&◌, ◌∙◌,
  ◌∷◌, ◌≡◌,
}
use deployer.Store.{Db, Config, Deployment, ConfigRow}
use deployer.Store.Queries.{set_config, glob_key, clear_config}
use deployer.Store.Deployments.{set_all, restore_config, replace_config}
use deployer.Store.Tx.{ok, err, failed_check, bind-ok, bind-err}

-- What restoring the configuration leaves alone.
abbrev SameRows : Db → Db → Type 0
SameRows db db' =
    (db'.deployments ≡ db.deployments)
    × (db'.events ≡ db.events)
    × (db'.releases ≡ db.releases)
    × (db'.apps ≡ db.apps)
    × (db'.next_id ≡ db.next_id)

-- The keys that the CHECK of the table lets in.
abbrev pub all_keys : Config → Bool
all_keys [] = true
all_keys ((k, v) ∷ rest) = glob_key k && all_keys rest

-- A rollback writes its configuration back, so its keys have to pass.
abbrev pub storable : Deployment → Config → Bool
storable dep config = if is_some dep.source_release_id then all_keys config else true

set_config-kept :
    (c : ConfigRow) (db : Db)
    → glob_key c.key ≡ true
    → (db' : Db) × (set_config c db ≡ ok (tt, db')) × SameRows db db'
unfolding set_config
set_config-kept c db h = rw h (_, refl, (refl, refl, refl, refl, refl))

set_config-refused :
    (c : ConfigRow) (db : Db) → glob_key c.key ≡ false → set_config c db ≡ err failed_check
unfolding set_config
set_config-refused c db h = rw h refl

set_all_runs :
    (app_id : ℕ) (config : Config) (now : ℕ) (db : Db)
    → all_keys config ≡ true
    → (db' : Db) × (set_all app_id config now db ≡ ok (tt, db')) × SameRows db db'
unfolding set_all
set_all_runs app_id [] now db h = (db, refl, (refl, refl, refl, refl, refl))
set_all_runs app_id ((k, v) ∷ rest) now db h =
    let c : ConfigRow = record { app_id = app_id; key = k; value = v; updated_at = now } in
    let (db1, ran, same) = set_config-kept c db (ground arith) in
    let (db2, went, still) = set_all_runs app_id rest now db1 (ground arith) in
    (
      db2,
      bind-ok (set_config c) (λ _. set_all app_id rest now) db ran went,
      (still.0 ∙ same.0, still.1 ∙ same.1, still.2 ∙ same.2, still.3 ∙ same.3, still.4 ∙ same.4),
    )

set_all-refused :
    (app_id : ℕ) (config : Config) (now : ℕ) (db : Db)
    → all_keys config ≡ false
    → set_all app_id config now db ≡ err failed_check
unfolding set_all
set_all-refused app_id [] now db h = cc
set_all-refused app_id ((k, v) ∷ rest) now db h =
    let c : ConfigRow = record { app_id = app_id; key = k; value = v; updated_at = now } in
    elim (Bool-cases (glob_key k)) [
      | inl good ↦
          let bad : all_keys rest ≡ false = rw good at h in
          let (db1, ran, _) = set_config-kept c db good in
          bind-ok (set_config c) (λ _. set_all app_id rest now) db ran
            (set_all-refused app_id rest now db1 bad)
      | inr bad ↦
          bind-err (set_config c) (λ _. set_all app_id rest now) db (set_config-refused c db bad)
    ]

pub restore_config-refused :
    (dep : Deployment) (config : Config) (now : ℕ) (db : Db)
    → storable dep config ≡ false
    → restore_config dep config now db ≡ err failed_check
unfolding restore_config replace_config clear_config
restore_config-refused dep config now db h = elim (Bool-cases (is_some dep.source_release_id)) [
  | inl rollback ↦
      let bad : all_keys config ≡ false = rw rollback at h in
      rw rollback (set_all-refused dep.app_id config now _ bad)
  | inr build ↦ let no : true ≡ false = rw build at h in cc no
]

pub restore_runs :
    (dep : Deployment) (config : Config) (now : ℕ) (db : Db)
    → storable dep config ≡ true
    → (db' : Db) × (restore_config dep config now db ≡ ok (tt, db')) × SameRows db db'
unfolding restore_config replace_config clear_config
restore_runs dep config now db h = elim (Bool-cases (is_some dep.source_release_id)) [
  | inl rollback ↦
      let good : all_keys config ≡ true = rw rollback at h in
      rw rollback (set_all_runs dep.app_id config now _ good)
  | inr build ↦ rw build (db, refl, (refl, refl, refl, refl, refl))
]
