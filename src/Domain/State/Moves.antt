-- ===== src/Domain/State/Moves.antt =====
-- What the transition table allows: the diagram as a relation, and the chains of moves through it.
use deployer.Base.{
  ◌≡◌, refl, ◌↔◌, true, arith, ℕ, ◌<◌, ◌≤◌, List, false, ◌∷◌, ◌+◌, length, ◌≢◌, Bool-cases, ◌++◌,
  inl, [], inr, ap,
}
use deployer.Domain.State.{
  State, queued, building, pushing, deploying, healthy, failed, cancelled, can_transition, valid,
  terminal,
}

pub data IsLive : State → Type 0 where
  queued_live : IsLive queued
  building_live : IsLive building
  pushing_live : IsLive pushing
  deploying_live : IsLive deploying

infix 40 ◌⟶◌
-- The diagram of the specification: forwards a phase at a time, the shortcut of a rollback, and the
-- two ways out of every state that is still in flight.
pub data ◌⟶◌ : State → State → Type 0 where
  build : queued ⟶ building
  promote : queued ⟶ deploying
  push : building ⟶ pushing
  roll_out : pushing ⟶ deploying
  come_up : deploying ⟶ healthy
  fail : {s : State} → IsLive s → s ⟶ failed
  cancel : {s : State} → IsLive s → s ⟶ cancelled

ruleset edges = (
  build, promote, push, roll_out, come_up, fail, cancel, queued_live, building_live, pushing_live,
  deploying_live,
)

can_transition_sound : (a b : State) → can_transition a b ≡ true → a ⟶ b
unfolding can_transition
can_transition_sound a b h = grind (arith, edges)

can_transition_complete : (a b : State) → a ⟶ b → can_transition a b ≡ true
unfolding can_transition
can_transition_complete a b build = refl
can_transition_complete a b promote = refl
can_transition_complete a b push = refl
can_transition_complete a b roll_out = refl
can_transition_complete a b come_up = refl
can_transition_complete a b (fail queued_live) = refl
can_transition_complete a b (fail building_live) = refl
can_transition_complete a b (fail pushing_live) = refl
can_transition_complete a b (fail deploying_live) = refl
can_transition_complete a b (cancel queued_live) = refl
can_transition_complete a b (cancel building_live) = refl
can_transition_complete a b (cancel pushing_live) = refl
can_transition_complete a b (cancel deploying_live) = refl

-- `CanTransition` answers true exactly at the edges of the diagram `◌⟶◌`.
pub can_transition_iff : (a b : State) → (can_transition a b ≡ true) ↔ (a ⟶ b)
can_transition_iff a b = (can_transition_sound a b, can_transition_complete a b)

not_terminal_moves :
    (s : State) → valid s ≡ true → terminal s ≡ false → can_transition s failed ≡ true
unfolding valid terminal can_transition
not_terminal_moves s v t = ground arith

terminal_stays : (s t : State) → terminal s ≡ true → can_transition s t ≡ false
unfolding terminal can_transition
terminal_stays s t h = ground arith

terminal_of_no_moves :
    (s : State) → valid s ≡ true → ((t : State) → can_transition s t ≡ false) → terminal s ≡ true
terminal_of_no_moves s v h = elim (Bool-cases (terminal s)) [
  | inl yes_it_is ↦ yes_it_is
  | inr not_so ↦ ground (arith, not_terminal_moves s v not_so, h failed)
]

-- One of the seven states is terminal exactly when no move leaves it.
pub terminal_iff :
    (s : State) → valid s ≡ true → (terminal s ≡ true) ↔ ((t : State) → can_transition s t ≡ false)
terminal_iff s v = (λ h t. terminal_stays s t h, terminal_of_no_moves s v)

-- How far along the diagram a state stands.
rank : State → ℕ
rank queued = 0
rank building = 1
rank pushing = 2
rank deploying = 3
rank _ = 4

⟶-rank : {a b : State} → a ⟶ b → rank a < rank b
unfolding rank
⟶-rank build = omega arith
⟶-rank promote = omega arith
⟶-rank push = omega arith
⟶-rank roll_out = omega arith
⟶-rank come_up = omega arith
⟶-rank (fail queued_live) = omega arith
⟶-rank (fail building_live) = omega arith
⟶-rank (fail pushing_live) = omega arith
⟶-rank (fail deploying_live) = omega arith
⟶-rank (cancel queued_live) = omega arith
⟶-rank (cancel building_live) = omega arith
⟶-rank (cancel pushing_live) = omega arith
⟶-rank (cancel deploying_live) = omega arith

rank_le : (s : State) → rank s ≤ 4
unfolding rank
rank_le queued = omega arith
rank_le building = omega arith
rank_le pushing = omega arith
rank_le deploying = omega arith
rank_le _ = omega arith

-- A history: each state of the list is entered by a legal move from the one before it.
abbrev pub History : State → List State → Type 0
History from [] = Unit
History from (s ∷ rest) = (can_transition from s ≡ true) × History s rest

abbrev pub last : State → List State → State
last s [] = s
last s (t ∷ rest) = last t rest

History-rank :
    (from : State) (l : List State) → History from l → rank from + length l ≤ rank (last from l)
History-rank from [] h = omega arith
History-rank from (s ∷ rest) h =
    omega (arith, ⟶-rank (can_transition_sound from s h.0), History-rank s rest h.1)

-- No deployment moves more than four times, from whichever state it starts.
pub length-History_le : (from : State) (l : List State) → History from l → length l ≤ 4
length-History_le from l h = omega (arith, History-rank from l h, rank_le (last from l))

only_from_deploying : (s : State) → can_transition s healthy ≡ true → s ≡ deploying
unfolding can_transition
only_from_deploying s h = ground arith

mover-ne-healthy : (s t : State) → can_transition s t ≡ true → s ≢ healthy
unfolding can_transition
mover-ne-healthy s t h = ground arith

-- A history that ends healthy has passed through `deploying` right before its end.
pub healthy_after_deploying :
    (from : State) (l : List State)
    → History from l
    → last from l ≡ healthy
    → from ≢ healthy
    → (before : List State) × (l ≡ before ++ healthy ∷ []) × (last from before ≡ deploying)
healthy_after_deploying from [] h e n = absurd (n e)
healthy_after_deploying from (s ∷ []) h e n =
    ([], ground arith, only_from_deploying from (rw e at h.0))
healthy_after_deploying from (s ∷ t ∷ rest) h e n =
    let (before, split, dep) =
      healthy_after_deploying s (t ∷ rest) h.1 e (mover-ne-healthy s t h.1.0) in
    (s ∷ before, ap (λ r. s ∷ r) split, dep)
