-- ===== src/Store/Deployments/Create.antt =====
-- `CreateDeployment`: what is in flight is superseded, and the new row is born queued.
use mathlib.Core.Path.{subst}
use deployer.Domain.State.{terminal}
use deployer.Store.Tx.{
  ok, Error, err, not_found, in_tx-ok, in_tx-throw, bind-ok, bind-err, app_deleted,
  broken_reference,
}
use deployer.Store.Queries.{
  in_flight, get_in_flight_deployment_for_app, new_id, insert_deployment_event,
  create_deployment_row, get_release, get_app, refers,
}
use deployer.Store.Table.{find_by}
use deployer.Store.Deployments.WellFormed.{
  Apart, Logged, born, skip, IsWellFormed, NoEvents, Below-All,
}
use deployer.Store.Deployments.{
  supersede, CreateDeploymentInput, insert_new, new_row, source_digest, create_deployment,
  birth_event, create_tx, same_presence,
}
use deployer.Base.{
  All, Bool-cases, List, [], arith, false, inl, inr, none, refl, some, true, ℕ, ◌<◌, ◌==◌, ◌∷◌, ◌≡◌,
  Option, Option-cases, ◌∙◌, Text, ◌+◌, sym,
}
use deployer.Store.{Deployment, Db, DeploymentEvent, App}
use deployer.Store.Deployments.Supersede.{wanted-none-All, in_flight_id, supersede-Cleared}

unfoldable pub after_birth : CreateDeploymentInput → Option Text → ℕ → Db → Db
after_birth input digest now db = record db {
  deployments = new_row input digest now db.next_id ∷ db.deployments;
  events = birth_event now db.next_id (db.next_id + 1) ∷ db.events;
  next_id = db.next_id + 1 + 1;
}

insert_new_lem :
    (input : CreateDeploymentInput) (digest : Option Text) (now : ℕ) (db : Db)
    → get_in_flight_deployment_for_app input.app_id db ≡ none
    → refers input.account_id input.upload_id db ≡ true
    → insert_new input digest now db
      ≡ ok (new_row input digest now db.next_id, after_birth input digest now db)
unfolding insert_new create_deployment_row new_row new_id insert_deployment_event after_birth
    get_in_flight_deployment_for_app
insert_new_lem input digest now db h r = ground arith

insert_new-dangling :
    (input : CreateDeploymentInput) (digest : Option Text) (now : ℕ) (db : Db)
    → get_in_flight_deployment_for_app input.app_id db ≡ none
    → refers input.account_id input.upload_id db ≡ false
    → insert_new input digest now db ≡ err broken_reference
unfolding insert_new create_deployment_row new_row new_id get_in_flight_deployment_for_app
insert_new-dangling input digest now db h r = ground arith

no_events :
    (n : ℕ) (es : List DeploymentEvent)
    → All (λ (e : DeploymentEvent). e.deployment_id < n) es
    → NoEvents n es
no_events n [] h = tt
no_events n (e ∷ es) h = (λ q. omega arith, no_events n es h.1)

skip-All :
    (e : DeploymentEvent) (es : List DeploymentEvent) (l : List Deployment)
    → All (λ (a : Deployment). a.id < e.deployment_id) l
    → All (λ (a : Deployment). Logged a.id es a.state) l
    → All (λ (a : Deployment). Logged a.id (e ∷ es) a.state) l
skip-All e es [] b h = tt
skip-All e es (a ∷ l) b h = (skip (λ q. omega arith) h.0, skip-All e es l b.1 h.1)

grow :
    (n : ℕ) (es : List DeploymentEvent)
    → All (λ (e : DeploymentEvent). e.deployment_id < n) es
    → All (λ (e : DeploymentEvent). e.deployment_id < n + 1 + 1) es
grow n [] h = tt
grow n (e ∷ es) h = (omega arith, grow n es h.1)

flip-Apart :
    (app_id : ℕ) (d : Deployment) (l : List Deployment)
    → d.app_id ≡ app_id
    → All (λ (e : Deployment). e.app_id ≡ app_id → in_flight e ≡ true → ⊥) l
    → Apart d l
flip-Apart app_id d [] q h = tt
flip-Apart app_id d (e ∷ l) q h = (λ same _ live. h.0 (same ∙ q) live, flip-Apart app_id d l q h.1)

birth-IsWellFormed :
    (input : CreateDeploymentInput) (digest : Option Text) (now : ℕ) (db : Db)
    → IsWellFormed db
    → get_in_flight_deployment_for_app input.app_id db ≡ none
    → IsWellFormed (after_birth input digest now db)
unfolding after_birth new_row birth_event get_in_flight_deployment_for_app
birth-IsWellFormed input digest now db v h = record {
  ids = (omega arith, v.ids);
  flight = (
    flip-Apart input.app_id (new_row input digest now db.next_id) db.deployments refl
        (wanted-none-All input.app_id db.deployments h),
    v.flight,
  );
  logged = (
    born refl refl refl refl (no_events db.next_id db.events v.known),
    skip-All (birth_event now db.next_id (db.next_id + 1)) db.events db.deployments
        (Below-All db.next_id db.deployments v.ids) v.logged,
  );
  known = (omega arith, grow db.next_id db.events v.known);
}

newborn_in_flight :
    (input : CreateDeploymentInput) (digest : Option Text) (now : ℕ) (db : Db)
    → get_in_flight_deployment_for_app input.app_id (after_birth input digest now db)
      ≡ some (new_row input digest now db.next_id)
unfolding after_birth new_row get_in_flight_deployment_for_app find_by in_flight terminal
newborn_in_flight input digest now db = ground arith

-- The source release's digest is a read.
data Source (input : CreateDeploymentInput) (db : Db) : Type 0 where
  refused : (e : Error) → source_digest input db ≡ err e → Source input db
  read : (digest : Option Text) → source_digest input db ≡ ok (digest, db) → Source input db

Source-release :
    (input : CreateDeploymentInput) (db : Db) (o : Option ℕ)
    → input.source_release_id ≡ o
    → Source input db
unfolding source_digest
Source-release input db none e = read none (rw (e, source_digest) refl)
Source-release input db (some rid) e = elim (Option-cases (get_release rid db)) [
  | inl gone ↦ refused not_found (rw (e, source_digest) (rw gone refl))
  | inr (rel, there) ↦ elim (Bool-cases (rel.app_id == input.app_id)) [
    | inl own ↦ read (some rel.image_digest) (rw (e, source_digest) (rw (there, own) refl))
    | inr foreign ↦ refused not_found (rw (e, source_digest) (rw (there, foreign) refl))
  ]
]

source : (input : CreateDeploymentInput) (db : Db) → Source input db
source input db = Source-release input db input.source_release_id refl

-- On well formed tables a call that names a live app, one readable source, and an account and an upload
-- that are there (an upload only if the source is one) always succeeds: the new row is queued and is what the app has in flight, what was in flight before is reported as
-- superseded, and the tables stay well formed. The unique index refuses nothing.
pub create_deployment_succeeds :
    (input : CreateDeploymentInput) (now : ℕ) (db : Db) (app : App) (digest : Option Text)
    → IsWellFormed db
    → same_presence input.upload_id input.source_release_id ≡ false
    → get_app input.app_id db ≡ some app
    → source_digest input db ≡ ok (digest, db)
    → refers input.account_id input.upload_id db ≡ true
    → (db' : Db) × (id : ℕ) × (create_deployment input now db ≡ (
      ok (
        new_row input digest now id,
        in_flight_id (get_in_flight_deployment_for_app input.app_id db),
      ),
      db',
    ))
      × (get_in_flight_deployment_for_app input.app_id db' ≡ some (new_row input digest now id))
      × IsWellFormed db'
unfolding create_deployment create_tx
create_deployment_succeeds input now db app digest v one live src held =
    let (db1, c) = supersede-Cleared input.app_id now db v in
    (
      after_birth input digest now db1,
      db1.next_id,
      rw one (
          in_tx-ok (create_tx input now) db (
            rw live (
              bind-ok (source_digest input) _ db src (
                bind-ok (supersede input.app_id now) _ db c.ran (
                  bind-ok (insert_new input digest now) _ db1
                    (insert_new_lem input digest now db1 c.empty
                      (c.references input.account_id input.upload_id ∙ held))
                    refl))))),
      newborn_in_flight input digest now db1,
      birth-IsWellFormed input digest now db1 c.well c.empty,
    )

-- An account or an upload that is not there: the superseding is undone too.
create_deployment-dangling :
    (input : CreateDeploymentInput) (now : ℕ) (db : Db) (app : App) (digest : Option Text)
    → IsWellFormed db
    → same_presence input.upload_id input.source_release_id ≡ false
    → get_app input.app_id db ≡ some app
    → source_digest input db ≡ ok (digest, db)
    → refers input.account_id input.upload_id db ≡ false
    → create_deployment input now db ≡ (err broken_reference, db)
unfolding create_deployment create_tx
create_deployment-dangling input now db app digest v one live src lost =
    let (db1, c) = supersede-Cleared input.app_id now db v in
    rw one (
      in_tx-throw (create_tx input now) db (
        rw live (
          bind-ok (source_digest input) _ db src (
            bind-ok (supersede input.app_id now) _ db c.ran (
              bind-err (insert_new input digest now) _ db1 (
                insert_new-dangling input digest now db1 c.empty
                  (c.references input.account_id input.upload_id ∙ lost)))))))

-- Whatever it is asked for, `CreateDeployment` keeps the tables well formed.
pub create_deployment-IsWellFormed :
    (input : CreateDeploymentInput) (now : ℕ) (db : Db)
    → IsWellFormed db
    → IsWellFormed (create_deployment input now db).1
unfolding create_deployment create_tx
create_deployment-IsWellFormed input now db v =
    elim (Bool-cases (same_presence input.upload_id input.source_release_id)) [
      | inl ambiguous ↦ rw ambiguous v
      | inr one ↦ elim (Option-cases (get_app input.app_id db)) [
        | inl gone ↦ rw one (
            subst (λ r. IsWellFormed r.1)
              (sym (in_tx-throw (create_tx input now) db {e = app_deleted} (rw gone refl))) v)
        | inr (app, live) ↦ elim (source input db) [
          | refused e src ↦ rw one (
              subst (λ r. IsWellFormed r.1)
                (sym (
                  in_tx-throw (create_tx input now) db {e = e}
                    (rw live (bind-err (source_digest input) _ db src))))
                v)
          | read digest src ↦ elim (Bool-cases (refers input.account_id input.upload_id db)) [
            | inl held ↦
                let (db', id, ran, _, well) =
                  create_deployment_succeeds input now db app digest v one live src held in
                subst (λ r. IsWellFormed r.1) (sym ran) well
            | inr lost ↦
                subst (λ r. IsWellFormed r.1)
                  (sym (create_deployment-dangling input now db app digest v one live src lost)) v
          ]
        ]
      ]
    ]
