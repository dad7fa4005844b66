-- ===== src/Store/Deployments/WellFormed.antt =====
-- What holds of the tables between two calls, and what keeps it.
use deployer.Domain.State.{State, queued, can_transition, terminal}
use deployer.Store.{Deployment, DeploymentEvent, Db}
use deployer.Store.Queries.{in_flight, UpdateDeploymentStateParams, moved, get_deployment}
use deployer.Store.Table.{find_by, update_by}
use mathlib.Core.Path.{subst}
use deployer.Base.{
  ==_iff, All, Bool, Bool-cases, List, [], arith, inl, inr, none, refl, some, sym, true, ℕ, ◌<◌,
  ◌==◌, ◌∙◌, ◌∷◌, ◌≡◌, ◌≢◌, ◌≤◌, false, ◌+◌,
}

-- Ids fall along the table, and stay under the bound.
abbrev pub Below : ℕ → List Deployment → Type 0
Below n [] = Unit
Below n (d ∷ l) = (d.id < n) × Below d.id l

-- No other row of the same app is in flight beside `d`.
abbrev pub Apart : Deployment → List Deployment → Type 0
Apart d l =
    All (λ (e : Deployment). e.app_id ≡ d.app_id → in_flight d ≡ true → in_flight e ≡ true → ⊥) l

-- At most one deployment in flight for an app.
abbrev pub OneInFlight : List Deployment → Type 0
OneInFlight [] = Unit
OneInFlight (d ∷ l) = Apart d l × OneInFlight l

abbrev pub NoEvents : ℕ → List DeploymentEvent → Type 0
NoEvents id es = All (λ (e : DeploymentEvent). e.deployment_id ≢ id) es

-- The event log, newest first, tells how the deployment came to its state: it was born queued, and
-- every later event starts where the one before it ended and is a legal move.
pub data Logged (id : ℕ) : List DeploymentEvent → State → Type 0 where
  born :
      {e : DeploymentEvent} {es : List DeploymentEvent} {s : State}
      → e.deployment_id ≡ id
      → e.from_state ≡ none
      → e.to_state ≡ s
      → s ≡ queued
      → NoEvents id es
      → Logged id (e ∷ es) s
  step :
      {e : DeploymentEvent} {es : List DeploymentEvent} {f s : State}
      → e.deployment_id ≡ id
      → e.from_state ≡ some f
      → e.to_state ≡ s
      → can_transition f s ≡ true
      → Logged id es f
      → Logged id (e ∷ es) s
  skip :
      {e : DeploymentEvent} {es : List DeploymentEvent} {s : State}
      → e.deployment_id ≢ id
      → Logged id es s
      → Logged id (e ∷ es) s

pub record IsWellFormed (db : Db) : Type 0 where
  pub ids : Below db.next_id db.deployments
  pub flight : OneInFlight db.deployments
  pub logged : All (λ (d : Deployment). Logged d.id db.events d.state) db.deployments
  pub known : All (λ (e : DeploymentEvent). e.deployment_id < db.next_id) db.events

pub Below-mono : (m n : ℕ) (l : List Deployment) → m ≤ n → Below m l → Below n l
Below-mono m n [] h b = tt
Below-mono m n (d ∷ l) h b = (omega arith, b.1)

pub Below-All : (n : ℕ) (l : List Deployment) → Below n l → All (λ (d : Deployment). d.id < n) l
Below-All n [] b = tt
Below-All n (d ∷ l) b = (b.0, Below-All n l (Below-mono d.id n l (omega arith) b.1))

-- The only row with that id is `d`.
abbrev pub Only : ℕ → Deployment → List Deployment → Type 0
Only id d l = All (λ (a : Deployment). a.id ≡ id → a ≡ d) l

none_above :
    (id : ℕ) (d : Deployment) (l : List Deployment)
    → All (λ (a : Deployment). a.id < id) l
    → Only id d l
none_above id d [] h = tt
none_above id d (a ∷ l) h = (λ e. absurd (omega arith), none_above id d l h.1)

pub find-Only :
    (id n : ℕ) (l : List Deployment) (d : Deployment)
    → Below n l
    → find_by (λ (a : Deployment). a.id == id) l ≡ some d
    → Only id d l
unfolding find_by
find-Only id n [] d b h = tt
find-Only id n (a ∷ l) d b h = elim (Bool-cases (a.id == id)) [
  | inl hit ↦
      (λ e. ground arith, none_above id d l (rw ((==_iff a.id id).0 hit) at (Below-All a.id l b.1)))
  | inr miss ↦ (λ e. absurd (ground arith), find-Only id a.id l d b.1 (ground arith))
]

-- What an update may do to a row without putting a second one in flight.
abbrev pub Tame : (Deployment → Bool) → (Deployment → Deployment) → Deployment → Type 0
Tame p f a = p a ≡ true → ((f a).app_id ≡ a.app_id) × (in_flight (f a) ≡ true → in_flight a ≡ true)

Apart-update :
    (p : Deployment → Bool) (f : Deployment → Deployment) (d e : Deployment) (l : List Deployment)
    → e.app_id ≡ d.app_id
    → (in_flight e ≡ true → in_flight d ≡ true)
    → All (Tame p f) l
    → Apart d l
    → Apart e (update_by p f l)
unfolding update_by
Apart-update p f d e [] same_app live t h = tt
Apart-update p f d e (a ∷ l) same_app live t h = elim (Bool-cases (p a)) [
  | inl hit ↦ rw hit (
    λ q le lf. h.0 (sym (t.0 hit).0 ∙ q ∙ same_app) (live le) ((t.0 hit).1 lf),
    Apart-update p f d e l same_app live t.1 h.1,
  )
  | inr miss ↦
      rw miss
        (λ q le lf. h.0 (q ∙ same_app) (live le) lf, Apart-update p f d e l same_app live t.1 h.1)
]

pub OneInFlight-update :
    (p : Deployment → Bool) (f : Deployment → Deployment) (l : List Deployment)
    → All (Tame p f) l
    → OneInFlight l
    → OneInFlight (update_by p f l)
unfolding update_by
OneInFlight-update p f [] t h = tt
OneInFlight-update p f (a ∷ l) t h = elim (Bool-cases (p a)) [
  | inl hit ↦
      rw hit (
        Apart-update p f a (f a) l (t.0 hit).0 (t.0 hit).1 t.1 h.0,
        OneInFlight-update p f l t.1 h.1,
      )
  | inr miss ↦
      rw miss (Apart-update p f a a l refl (λ x. x) t.1 h.0, OneInFlight-update p f l t.1 h.1)
]

-- An update that keeps the ids keeps their order.
pub Below-update :
    (p : Deployment → Bool) (f : Deployment → Deployment) (n : ℕ) (l : List Deployment)
    → ((a : Deployment) → (f a).id ≡ a.id)
    → Below n l
    → Below n (update_by p f l)
unfolding update_by
Below-update p f n [] keep b = tt
Below-update p f n (a ∷ l) keep b = elim (Bool-cases (p a)) [
  | inl hit ↦ rw hit (rw (keep a) (b.0, Below-update p f a.id l keep b.1))
  | inr miss ↦ rw miss (b.0, Below-update p f a.id l keep b.1)
]

-- One event more of the rows that a move selects, and of no other.
Logged-update :
    (k : ℕ) (f to : State) (e : DeploymentEvent) (es : List DeploymentEvent)
    (g : Deployment → Deployment) (l : List Deployment)
    → e.deployment_id ≡ k
    → e.from_state ≡ some f
    → e.to_state ≡ to
    → can_transition f to ≡ true
    → ((a : Deployment) → (g a).id ≡ a.id)
    → ((a : Deployment) → (g a).state ≡ to)
    → All (λ (a : Deployment). a.id ≡ k → a.state ≡ f) l
    → All (λ (a : Deployment). Logged a.id es a.state) l
    → All
        (λ (a : Deployment). Logged a.id (e ∷ es) a.state)
        (update_by (λ (r : Deployment). r.id == k) g l)
unfolding update_by
Logged-update k f to e es g [] ed ef et legal gid gst at_f h = tt
Logged-update k f to e es g (a ∷ l) ed ef et legal gid gst at_f h =
    let rest = Logged-update k f to e es g l ed ef et legal gid gst at_f.1 h.1 in
    elim (Bool-cases (a.id == k)) [
      | inl hit ↦
          let is_k : a.id ≡ k = (==_iff a.id k).0 hit in
          rw (hit, gid a, gst a) (step (ed ∙ sym is_k) ef et legal (rw (at_f.0 is_k) at h.0), rest)
      | inr miss ↦ rw miss (skip (λ q. ground arith) h.0, rest)
    ]

unfoldable pub after_step : UpdateDeploymentStateParams → DeploymentEvent → Db → Db
after_step p e db = record db {
  deployments = update_by (λ (r : Deployment). r.id == p.id) (λ r. moved p r) db.deployments;
  events = e ∷ db.events;
  next_id = db.next_id + 1;
}

Only-All :
    (P : Deployment → Type 0) (id : ℕ) (d : Deployment) (l : List Deployment)
    → Only id d l
    → P d
    → All (λ (a : Deployment). a.id ≡ id → P a) l
Only-All P id d [] o h = tt
Only-All P id d (a ∷ l) o h = (λ e. subst P (sym (o.0 e)) h, Only-All P id d l o.1 h)

Tame-moved :
    (p : UpdateDeploymentStateParams) (l : List Deployment)
    → All (λ (a : Deployment). a.id ≡ p.id → in_flight a ≡ true) l
    → All (Tame (λ (r : Deployment). r.id == p.id) (λ r. moved p r)) l
unfolding moved
Tame-moved p [] h = tt
Tame-moved p (a ∷ l) h = (λ hit. (refl, λ _. h.0 ((==_iff a.id p.id).0 hit)), Tame-moved p l h.1)

pub grow-known :
    (n m : ℕ) (es : List DeploymentEvent)
    → n ≤ m
    → All (λ (e : DeploymentEvent). e.deployment_id < n) es
    → All (λ (e : DeploymentEvent). e.deployment_id < m) es
grow-known n m [] h k = tt
grow-known n m (e ∷ es) h k = (omega arith, grow-known n m es h k.1)

find-lt :
    (n id : ℕ) (l : List Deployment) (d : Deployment)
    → Below n l
    → find_by (λ (a : Deployment). a.id == id) l ≡ some d
    → id < n
unfolding find_by
find-lt n id [] d b h = cc
find-lt n id (a ∷ l) d b h = ground (arith, find-lt a.id id l d b.1)

lt-suc : (a b : ℕ) → a < b → a < b + 1
lt-suc a b h = omega arith

-- A legal move of a row in flight, with its event, keeps the tables well formed.
pub after_step-IsWellFormed :
    (p : UpdateDeploymentStateParams) (e : DeploymentEvent) (db : Db) (dep : Deployment)
    → get_deployment p.id db ≡ some dep
    → terminal dep.state ≡ false
    → can_transition dep.state p.state ≡ true
    → e.deployment_id ≡ p.id
    → e.from_state ≡ some dep.state
    → e.to_state ≡ p.state
    → IsWellFormed db
    → IsWellFormed (after_step p e db)
unfolding after_step get_deployment moved in_flight
after_step-IsWellFormed p e db dep found live legal ed ef et v =
    let only = find-Only p.id db.next_id db.deployments dep v.ids found in
    record {
      ids =
          Below-update _ _ _ _ (λ a. refl)
            (Below-mono db.next_id _ db.deployments (omega arith) v.ids);
      flight =
          OneInFlight-update _ _ _
            (Tame-moved p db.deployments
              (Only-All (λ a. in_flight a ≡ true) p.id dep db.deployments only (rw live refl)))
            v.flight;
      logged =
          Logged-update p.id dep.state p.state e db.events (λ r. moved p r) db.deployments ed ef et
            legal (λ a. refl) (λ a. refl)
            (Only-All (λ a. a.state ≡ dep.state) p.id dep db.deployments only refl) v.logged;
      known = (
        rw ed (lt-suc p.id db.next_id (find-lt db.next_id p.id db.deployments dep v.ids found)),
        grow-known db.next_id (db.next_id + 1) db.events (omega arith) v.known,
      );
    }
