-- ===== src/Domain/State.antt =====
-- internal/domain/state.go: the seven deployment states and the moves between them.
pub mod Moves
use deployer.Base.{
  ℕ, Bool, true, false, not, ◌&&◌, ◌||◌, Option, none, some, List, [], ◌∷◌, Text, ℕ_discrete,
  is_some, any, ◌==◌, text_eq, if◌then◌else◌,
}

-- `unknown s` is any other value of the Go string type.
pub data State : Type 0 where
  queued building pushing deploying healthy failed cancelled : State
  unknown : Text → State

pub State-discrete : Discrete State
State-discrete = hlevel ℕ_discrete

-- `==` on the Go strings.
tag : State → ℕ
tag queued = 0
tag building = 1
tag pushing = 2
tag deploying = 3
tag healthy = 4
tag failed = 5
tag cancelled = 6
tag (unknown s) = 7

unfoldable pub eq_state : State → State → Bool
unfolding tag
eq_state (unknown s) (unknown t) = text_eq s t
eq_state a b = tag a == tag b

-- The transition table. Terminal states have no entry.
unfoldable pub allowed : State → Option (List State)
allowed queued = some (building ∷ deploying ∷ failed ∷ cancelled ∷ [])
allowed building = some (pushing ∷ failed ∷ cancelled ∷ [])
allowed pushing = some (deploying ∷ failed ∷ cancelled ∷ [])
allowed deploying = some (healthy ∷ failed ∷ cancelled ∷ [])
allowed _ = none

unfoldable pub terminal : State → Bool
unfolding eq_state
terminal s = eq_state s healthy || eq_state s failed || eq_state s cancelled

unfoldable pub valid : State → Bool
unfolding eq_state allowed
valid s =
    if eq_state s healthy || eq_state s failed || eq_state s cancelled
    then true
    else is_some (allowed s)

-- A missing key of the Go map reads as the nil slice.
targets : State → List State
unfolding allowed
targets s = elim (allowed s) [ none ↦ [] | some l ↦ l ]

unfoldable pub can_transition : State → State → Bool
unfolding valid targets eq_state
can_transition from to =
    if not (valid from) || not (valid to) then false else any (λ s. eq_state s to) (targets from)
