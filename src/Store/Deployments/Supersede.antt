-- ===== src/Store/Deployments/Supersede.antt =====
-- `CreateDeployment`, its first half: what the app has in flight is cancelled as superseded.
use deployer.Domain.State.{State, cancelled, terminal, can_transition}
use deployer.Store.Tx.{ok}
use deployer.Store.Queries.{
  in_flight, moved, get_deployment, get_in_flight_deployment_for_app, update_deployment_state,
  new_id, insert_deployment_event, UpdateDeploymentStateParams, refers,
}
use deployer.Store.Table.{find_by, update_by, find_by_sound, All-find}
use deployer.Store.Deployments.WellFormed.{
  Below, Apart, OneInFlight, Logged, born, skip, IsWellFormed, after_step, after_step-IsWellFormed,
  step,
}
use deployer.Store.Deployments.{cancel_params, cancel_event, cancel_superseded, supersede}
use deployer.Base.{
  All, Bool, Bool-cases, List, [], arith, false, inl, inr, none, refl, some, true, ℕ, ◌&&◌, ◌<◌,
  ◌==◌, ◌∷◌, ◌≡◌, Option, Option-cases, ◌∙◌,
}
use deployer.Store.{Deployment, Db, DeploymentEvent}

found-Below :
    (p : Deployment → Bool) (n : ℕ) (l : List Deployment) (d : Deployment)
    → Below n l
    → find_by p l ≡ some d
    → d.id < n
unfolding find_by
found-Below p n [] d b h = cc
found-Below p n (a ∷ l) d b h = ground (arith, found-Below p a.id l d b.1)

-- What any query finds, the query by id finds.
found_by_id :
    (p : Deployment → Bool) (n : ℕ) (l : List Deployment) (d : Deployment)
    → Below n l
    → find_by p l ≡ some d
    → find_by (λ (a : Deployment). a.id == d.id) l ≡ some d
unfolding find_by
found_by_id p n [] d b h = cc
found_by_id p n (a ∷ l) d b h =
    ground (arith, found_by_id p a.id l d b.1, found-Below p a.id l d b.1)

-- The query for what an app has in flight.
abbrev wanted : ℕ → Deployment → Bool
wanted app_id d = d.app_id == app_id && in_flight d

moved_not_wanted :
    (app_id : ℕ) (p : UpdateDeploymentStateParams) (a : Deployment)
    → terminal p.state ≡ true
    → wanted app_id (moved p a) ≡ false
unfolding in_flight moved
moved_not_wanted app_id p a t = ground arith

rest_not_wanted :
    (app_id : ℕ) (p : UpdateDeploymentStateParams) (l : List Deployment)
    → terminal p.state ≡ true
    → All (λ (e : Deployment). e.app_id ≡ app_id → in_flight e ≡ true → ⊥) l
    → find_by (wanted app_id) (update_by (λ (r : Deployment). r.id == p.id) (λ r. moved p r) l)
      ≡ none
unfolding find_by update_by
rest_not_wanted app_id p [] t h = refl
rest_not_wanted app_id p (a ∷ l) t h =
    ground (arith, moved_not_wanted app_id p a t, rest_not_wanted app_id p l t h.1, h.0)

Apart-wanted :
    (app_id : ℕ) (a : Deployment) (l : List Deployment)
    → wanted app_id a ≡ true
    → Apart a l
    → All (λ (e : Deployment). e.app_id ≡ app_id → in_flight e ≡ true → ⊥) l
Apart-wanted app_id a [] h o = tt
Apart-wanted app_id a (e ∷ l) h o =
    (λ q live. o.0 (ground arith) (ground arith) live, Apart-wanted app_id a l h o.1)

-- After the supersession nothing of the app is in flight.
none-wanted :
    (app_id : ℕ) (p : UpdateDeploymentStateParams) (n : ℕ) (l : List Deployment) (d : Deployment)
    → terminal p.state ≡ true
    → p.id ≡ d.id
    → Below n l
    → OneInFlight l
    → find_by (wanted app_id) l ≡ some d
    → find_by (wanted app_id) (update_by (λ (r : Deployment). r.id == p.id) (λ r. moved p r) l)
      ≡ none
unfolding find_by update_by
none-wanted app_id p n [] d t i b o h = refl
none-wanted app_id p n (a ∷ l) d t i b o h = elim (Bool-cases (wanted app_id a)) [
  | inl hit ↦ ground (
    arith,
    moved_not_wanted app_id p a t,
    rest_not_wanted app_id p l t (Apart-wanted app_id a l hit o.0),
  )
  | inr miss ↦
      ground (arith, moved_not_wanted app_id p a t, none-wanted app_id p a.id l d t i b.1 o.1)
]

pub wanted-none-All :
    (app_id : ℕ) (l : List Deployment)
    → find_by (wanted app_id) l ≡ none
    → All (λ (e : Deployment). e.app_id ≡ app_id → in_flight e ≡ true → ⊥) l
unfolding find_by
wanted-none-All app_id [] h = tt
wanted-none-All app_id (a ∷ l) h = (λ q live. ground arith, wanted-none-All app_id l (ground arith))

-- The tables after the supersession: unchanged, or one row cancelled.
pub record Cleared (app_id : ℕ) (now : ℕ) (db db' : Db) (out : Option ℕ) : Type 0 where
  pub ran : supersede app_id now db ≡ ok (out, db')
  pub well : IsWellFormed db'
  pub apps : db'.apps ≡ db.apps
  pub references :
      (account : ℕ) (upload : Option ℕ) → refers account upload db' ≡ refers account upload db
  pub empty : get_in_flight_deployment_for_app app_id db' ≡ none

cancel_lem :
    (now : ℕ) (db : Db) (d : Deployment)
    → get_deployment d.id db ≡ some d
    → cancel_superseded now d db
      ≡ ok (some d.id, after_step (cancel_params now d.id) (cancel_event now d db.next_id) db)
unfolding cancel_superseded update_deployment_state cancel_params new_id insert_deployment_event
    after_step
cancel_lem now db d h = ground arith

Logged-cancels :
    {id : ℕ} {es : List DeploymentEvent} {s : State}
    → Logged id es s
    → terminal s ≡ false
    → can_transition s cancelled ≡ true
unfolding terminal can_transition
Logged-cancels (born a b c d e) t = ground arith
Logged-cancels {s = s} (step {f = f} a b c d e) t = ground arith
Logged-cancels (skip a b) t = Logged-cancels b t

in_flight-live : (d : Deployment) → in_flight d ≡ true → terminal d.state ≡ false
unfolding in_flight
in_flight-live d h = ground arith

wanted_live : (app_id : ℕ) (d : Deployment) → wanted app_id d ≡ true → terminal d.state ≡ false
wanted_live app_id d h = in_flight-live d (ground arith)

cancelled_terminal : terminal cancelled ≡ true
unfolding terminal
cancelled_terminal = refl

supersede-some :
    (app_id now : ℕ) (db : Db) (d : Deployment)
    → get_in_flight_deployment_for_app app_id db ≡ some d
    → supersede app_id now db ≡ cancel_superseded now d db
unfolding supersede
supersede-some app_id now db d h = rw (h, supersede) refl

supersede-none :
    (app_id now : ℕ) (db : Db)
    → get_in_flight_deployment_for_app app_id db ≡ none
    → supersede app_id now db ≡ ok (none, db)
unfolding supersede
supersede-none app_id now db h = rw (h, supersede) refl

cancelled_Cleared :
    (app_id now : ℕ) (db : Db) (d : Deployment)
    → IsWellFormed db
    → get_in_flight_deployment_for_app app_id db ≡ some d
    → Cleared app_id now db
        (after_step (cancel_params now d.id) (cancel_event now d db.next_id) db)
        (some d.id)
unfolding get_in_flight_deployment_for_app get_deployment cancel_params cancel_event after_step
    refers
cancelled_Cleared app_id now db d v h =
    let by_id : get_deployment d.id db ≡ some d =
      found_by_id (wanted app_id) db.next_id db.deployments d v.ids h in
    let live : terminal d.state ≡ false =
      wanted_live app_id d (find_by_sound (wanted app_id) db.deployments d h) in
    let log : Logged d.id db.events d.state =
      All-find (λ a. Logged a.id db.events a.state) (wanted app_id) db.deployments d v.logged h in
    record {
      ran = supersede-some app_id now db d h ∙ cancel_lem now db d by_id;
      well =
          after_step-IsWellFormed (cancel_params now d.id) (cancel_event now d db.next_id) db d
            by_id live (Logged-cancels log live) refl refl refl v;
      apps = refl;
      references = λ account upload. refl;
      empty =
          none-wanted app_id (cancel_params now d.id) db.next_id db.deployments d cancelled_terminal
            refl v.ids v.flight h;
    }

abbrev pub in_flight_id : Option Deployment → Option ℕ
in_flight_id none = none
in_flight_id (some d) = some d.id

-- The supersession always succeeds on well formed tables, and frees the app.
pub supersede-Cleared :
    (app_id now : ℕ) (db : Db)
    → IsWellFormed db
    → (db' : Db) × Cleared app_id now db db'
        (in_flight_id (get_in_flight_deployment_for_app app_id db))
supersede-Cleared app_id now db v =
    elim (Option-cases (get_in_flight_deployment_for_app app_id db)) [
      | inl idle ↦ (
        db,
        record {
          ran = rw idle (supersede-none app_id now db idle);
          well = v;
          apps = refl;
          references = λ account upload. refl;
          empty = idle;
        },
      )
      | inr (d, busy) ↦ (
        after_step (cancel_params now d.id) (cancel_event now d db.next_id) db,
        rw busy (cancelled_Cleared app_id now db d v busy),
      )
    ]
