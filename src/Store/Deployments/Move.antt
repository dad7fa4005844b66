-- ===== src/Store/Deployments/Move.antt =====
-- `Transition`: what a move writes, and when it is refused.
use Prim.Native.String.{String}
use mathlib.Core.Path.{subst}
use deployer.Domain.State.{eq_state, healthy, State, terminal, can_transition, healthy}
use deployer.Store.Tx.{
  Tx, Result, ok, err, not_found, illegal_transition, in_tx, in_tx-ok, Error, bind-ok, in_tx-throw,
  bind-err,
}
use deployer.Store.Tx
use deployer.Base.{
  Bool-cases, Option, Option-cases, false, inl, inr, none, refl, some, true, ℕ, ◌==◌, ◌≡◌, arith,
  ==_iff, sym,
}
use deployer.Store.{Deployment, Db, Reason}
use deployer.Store.Deployments.{
  move_params, move_event, apply_transition, checked, transition_tx, transition,
}
use deployer.Store.Queries.{
  moved, get_deployment, update_deployment_state, new_id, insert_deployment_event,
}
use deployer.Store.Table.{find_by_sound}
use deployer.Store.Deployments.WellFormed.{IsWellFormed, after_step, after_step-IsWellFormed}

pub apply_transition_lem :
    (dep : Deployment) (to : State) (reason : Option Reason) (detail : Option String) (now : ℕ)
    (db : Db)
    → get_deployment dep.id db ≡ some dep
    → apply_transition dep to reason detail now db
      ≡ ok (
        moved (move_params dep to reason now) dep,
        after_step
            (move_params dep to reason now)
            (move_event dep to reason detail now db.next_id)
            db,
      )
unfolding apply_transition update_deployment_state new_id insert_deployment_event after_step
    move_params
apply_transition_lem dep to reason detail now db h = ground arith

-- What `checked` has found of the row that it returns.
pub record Checks (id : ℕ) (to : State) (db : Db) (dep : Deployment) : Type 0 where
  pub found : get_deployment id db ≡ some dep
  pub live : terminal dep.state ≡ false
  pub legal : can_transition dep.state to ≡ true

pub Checks-checked :
    (id : ℕ) (to : State) (db : Db) (dep : Deployment)
    → Checks id to db dep
    → checked id to db ≡ ok (dep, db)
unfolding checked
Checks-checked id to db dep c = rw (c.found, c.live, c.legal) refl

-- The four outcomes of the check.
pub data Verdict (id : ℕ) (to : State) (db : Db) : Type 0 where
  missing : get_deployment id db ≡ none → checked id to db ≡ err not_found → Verdict id to db
  ended :
      (dep : Deployment)
      → get_deployment id db ≡ some dep
      → terminal dep.state ≡ true
      → checked id to db ≡ err Tx.terminal
      → Verdict id to db
  refused :
      (dep : Deployment)
      → get_deployment id db ≡ some dep
      → terminal dep.state ≡ false
      → can_transition dep.state to ≡ false
      → checked id to db ≡ err illegal_transition
      → Verdict id to db
  passed :
      (dep : Deployment) → Checks id to db dep → checked id to db ≡ ok (dep, db) → Verdict id to db

pub verdict : (id : ℕ) (to : State) (db : Db) → Verdict id to db
unfolding checked
verdict id to db = elim (Option-cases (get_deployment id db)) [
  | inl none_there ↦ missing none_there (rw none_there refl)
  | inr (dep, there) ↦ elim (Bool-cases (terminal dep.state)) [
    | inl done ↦ ended dep there done (rw (there, done) refl)
    | inr live ↦ elim (Bool-cases (can_transition dep.state to)) [
      | inl legal ↦
          passed dep (record { found = there; live = live; legal = legal })
            (rw (there, live, legal) refl)
      | inr illegal ↦ refused dep there live illegal (rw (there, live, illegal) refl)
    ]
  ]
]

found_id : (id : ℕ) (db : Db) (dep : Deployment) → get_deployment id db ≡ some dep → dep.id ≡ id
unfolding get_deployment
found_id id db dep h =
    (==_iff dep.id id).0 (find_by_sound (λ (r : Deployment). r.id == id) db.deployments dep h)

pub found_self :
    (id : ℕ) (db : Db) (dep : Deployment)
    → get_deployment id db ≡ some dep
    → get_deployment dep.id db ≡ some dep
found_self id db dep h = subst (λ k. get_deployment k db ≡ some dep) (sym (found_id id db dep h)) h

pub move-IsWellFormed :
    (id : ℕ) (to : State) (reason : Option Reason) (detail : Option String) (now : ℕ) (db : Db)
    (dep : Deployment)
    → Checks id to db dep
    → IsWellFormed db
    → IsWellFormed (
        after_step
          (move_params dep to reason now)
          (move_event dep to reason detail now db.next_id)
          db)
unfolding move_params move_event
move-IsWellFormed id to reason detail now db dep c v =
    after_step-IsWellFormed _ _ db dep (found_self id db dep c.found) c.live c.legal refl refl refl
      v

-- The tables after a call of `Transition`, on each verdict.
transition_tx-passed :
    (id : ℕ) (to : State) (reason : Option Reason) (detail : Option String) (now : ℕ) (db : Db)
    (dep : Deployment)
    → Checks id to db dep
    → checked id to db ≡ ok (dep, db)
    → in_tx (transition_tx id to reason detail now) db ≡ (
      ok (moved (move_params dep to reason now) dep),
      after_step
          (move_params dep to reason now)
          (move_event dep to reason detail now db.next_id)
          db,
    )
unfolding transition_tx
transition_tx-passed id to reason detail now db dep c e =
    in_tx-ok (transition_tx id to reason detail now) db (
      bind-ok (checked id to) (λ d. apply_transition d to reason detail now) db e
        (apply_transition_lem dep to reason detail now db (found_self id db dep c.found)))

refused_tx :
    (id : ℕ) (to : State) (reason : Option Reason) (detail : Option String) (now : ℕ) (db : Db)
    {x : Error}
    → checked id to db ≡ err x
    → in_tx (transition_tx id to reason detail now) db ≡ (err x, db)
unfolding transition_tx
refused_tx id to reason detail now db e =
    in_tx-throw (transition_tx id to reason detail now) db
      (bind-err (checked id to) (λ d. apply_transition d to reason detail now) db e)

-- What `Transition` does, on every branch: a missing row, an ended row and an illegal move are
-- refused, each with its error, and write nothing; otherwise the row moves and one event is added.
pub data Outcome (id : ℕ) (to : State) (reason : Option Reason) (detail : Option String) (now : ℕ)
    (db : Db) : Type 0 where
  lost :
      get_deployment id db ≡ none
      → transition id to reason detail now db ≡ (err not_found, db)
      → Outcome id to reason detail now db
  over :
      (dep : Deployment)
      → get_deployment id db ≡ some dep
      → terminal dep.state ≡ true
      → transition id to reason detail now db ≡ (err Tx.terminal, db)
      → Outcome id to reason detail now db
  illegal :
      (dep : Deployment)
      → get_deployment id db ≡ some dep
      → terminal dep.state ≡ false
      → can_transition dep.state to ≡ false
      → transition id to reason detail now db ≡ (err illegal_transition, db)
      → Outcome id to reason detail now db
  done :
      (dep : Deployment)
      → Checks id to db dep
      → transition id to reason detail now db ≡ (
        ok (moved (move_params dep to reason now) dep),
        after_step
            (move_params dep to reason now)
            (move_event dep to reason detail now db.next_id)
            db,
      )
      → Outcome id to reason detail now db

Outcome-of_Verdict :
    (id : ℕ) (to : State) (reason : Option Reason) (detail : Option String) (now : ℕ) (db : Db)
    → eq_state to healthy ≡ false
    → Verdict id to db
    → Outcome id to reason detail now db
unfolding transition
Outcome-of_Verdict id to reason detail now db n (missing g e) =
    lost g (rw n (refused_tx id to reason detail now db e))
Outcome-of_Verdict id to reason detail now db n (ended dep g t e) =
    over dep g t (rw n (refused_tx id to reason detail now db e))
Outcome-of_Verdict id to reason detail now db n (refused dep g t c e) =
    illegal dep g t c (rw n (refused_tx id to reason detail now db e))
Outcome-of_Verdict id to reason detail now db n (passed dep c e) =
    done dep c (rw n (transition_tx-passed id to reason detail now db dep c e))

-- Every call of `Transition` but one to healthy ends in one of four ways: ErrNotFound for a missing
-- row, ErrTerminal for a row that has ended, ErrIllegalTransition for a move that the diagram lacks,
-- each with nothing written, or else the moved row and its one event, both written.
pub transition-Outcome :
    (id : ℕ) (to : State) (reason : Option Reason) (detail : Option String) (now : ℕ) (db : Db)
    → eq_state to healthy ≡ false
    → Outcome id to reason detail now db
transition-Outcome id to reason detail now db n =
    Outcome-of_Verdict id to reason detail now db n (verdict id to db)

-- A transition to healthy is refused and writes nothing.
transition_healthy :
    (id : ℕ) (to : State) (reason : Option Reason) (detail : Option String) (now : ℕ) (db : Db)
    → eq_state to healthy ≡ true
    → transition id to reason detail now db ≡ (err illegal_transition, db)
unfolding transition
transition_healthy id to reason detail now db h = rw h refl

Outcome-IsWellFormed :
    (id : ℕ) (to : State) (reason : Option Reason) (detail : Option String) (now : ℕ) (db : Db)
    → Outcome id to reason detail now db
    → IsWellFormed db
    → IsWellFormed (transition id to reason detail now db).1
Outcome-IsWellFormed id to reason detail now db (lost g e) v = rw e v
Outcome-IsWellFormed id to reason detail now db (over dep g t e) v = rw e v
Outcome-IsWellFormed id to reason detail now db (illegal dep g t c e) v = rw e v
Outcome-IsWellFormed id to reason detail now db (done dep c e) v =
    rw e (move-IsWellFormed id to reason detail now db dep c v)

-- `Transition` keeps the tables well formed, whatever it is asked for: at most one deployment in
-- flight for an app, and for every deployment an event log that is a legal history to its state.
pub transition-IsWellFormed :
    (id : ℕ) (to : State) (reason : Option Reason) (detail : Option String) (now : ℕ) (db : Db)
    → IsWellFormed db
    → IsWellFormed (transition id to reason detail now db).1
transition-IsWellFormed id to reason detail now db v = elim (Bool-cases (eq_state to healthy)) [
  | inl h ↦ rw (transition_healthy id to reason detail now db h) v
  | inr n ↦
      Outcome-IsWellFormed id to reason detail now db
        (transition-Outcome id to reason detail now db n) v
]
