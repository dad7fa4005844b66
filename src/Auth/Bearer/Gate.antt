-- ===== src/Auth/Bearer/Gate.antt =====
-- Who passes, on both routes, and what a refusal costs.
use deployer.Auth.{account_suspended, too_many_attempts, fault}
use deployer.Base.{
  Text, ℕ, Bool, Option, some, none, true, false, is_nil, not, ◌||◌, ◌≡◌, refl, arith, Bool-cases,
  inl, inr, sym, ◌&&◌, ◌∙◌, if◌then◌else◌, ◌⊎◌,
}
use deployer.Identity.Limiter.{Limiter, Settings, succeeded}
use deployer.Auth.{AuthError, usable, token_invalid, Account, Token}
use deployer.Auth.Bearer.{
  Resolved, resolved, unknown, faulty, Verifier, is_locked, count_failure, clear, fail, judge_token,
  authenticate, judge_session, authenticate_session, failed,
}

-- The address is outside its penalty, and a credential was sent.
abbrev pub IsHeard : Bool → Text → Type 0
IsHeard locked raw = (locked ≡ false) × (is_nil raw ≡ false)

-- A credential that is not valid: it names nothing, or an account that is not suspended but has not
-- confirmed its address.
abbrev pub IsInvalid : Resolved → Type 0
IsInvalid unknown = Unit
IsInvalid faulty = ⊥
IsInvalid (resolved a t) = (a.disabled ≡ false) × (a.verified ≡ false) × (is_nil a.email ≡ false)

-- A change of the lockout, which needs one and an address.
abbrev pub at_address :
    {T : Type 0} → Text → (Limiter T → Limiter T) → Option (Limiter T) → Option (Limiter T)
at_address client f none = none
at_address client f (some l) = some (if is_nil client then l else f l)

-- When an answer is given, and what it does to the lockout: `locked` is whether the address is in its
-- penalty, `x` what the store says of the credential, `after` the lockout that is left.
abbrev pub Judged :
    {T : Type 0}
    → Settings
    → Text
    → Text
    → ℕ
    → Bool
    → Resolved
    → Option (Limiter T)
    → Option AuthError
    → Option (Limiter T)
    → Type 0
Judged s raw client now locked x l none after =
    IsHeard locked raw
    × ((a : Account) × (t : Token) × (x ≡ resolved a t)
        × (a.disabled ≡ false)
        × ((is_nil a.email || a.verified) ≡ true))
    × (after ≡ at_address client (succeeded client) l)
Judged s raw client now locked x l (some token_invalid) after =
    (locked ≡ false)
    × ((is_nil raw ≡ true) ⊎ IsInvalid x)
    × (after ≡ at_address client (failed s client now) l)
Judged s raw client now locked x l (some account_suspended) after =
    IsHeard locked raw
    × ((a : Account) × (t : Token) × (x ≡ resolved a t) × (a.disabled ≡ true))
    × (after ≡ l)
Judged s raw client now locked x l (some fault) after =
    IsHeard locked raw × (x ≡ faulty) × (after ≡ l)
Judged s raw client now locked x l (some too_many_attempts) after = (locked ≡ true) × (after ≡ l)
Judged s raw client now locked x l (some _) after = ⊥

count_failure-at :
    {T : Type 0} (s : Settings) (client : Text) (now : ℕ) (l : Option (Limiter T))
    → count_failure s client now l ≡ at_address client (failed s client now) l
count_failure-at s client now none = refl
count_failure-at s client now (some l) = elim (Bool-cases (is_nil client)) [
  | inl nameless ↦ rw nameless refl
  | inr named ↦ rw named refl
]

clear-at :
    {T : Type 0} (client : Text) (l : Option (Limiter T))
    → clear client l ≡ at_address client (succeeded client) l
clear-at client none = refl
clear-at client (some l) = elim (Bool-cases (is_nil client)) [
  | inl nameless ↦ rw nameless refl
  | inr named ↦ rw named refl
]

judge-Judged :
    {T : Type 0} (s : Settings) (v : Verifier) (raw client : Text) (now : ℕ) (locked : Bool)
    (x : Resolved) (l : Option (Limiter T))
    → IsHeard locked raw
    → Judged s raw client now locked x l
        (judge_token s v client now x l).error
        (judge_token s v client now x l).lockout
unfolding judge_token fail usable
judge-Judged s v raw client now locked unknown l heard =
    (heard.0, inr tt, count_failure-at s client now l)
judge-Judged s v raw client now locked faulty l heard = (heard, refl, refl)
judge-Judged s v raw client now locked (resolved a t) l heard = elim (Bool-cases a.disabled) [
  | inl off ↦ simp off (heard, (a, t, refl, off), refl)
  | inr on ↦ elim (Bool-cases (is_nil a.email || a.verified)) [
    | inl open_ ↦ simp (on, open_) (heard, (a, t, refl, on, open_), clear-at client l)
    | inr shut ↦
        simp (on, shut)
          (heard.0, inr (refl, ground arith, ground arith), count_failure-at s client now l)
  ]
]

-- Every answer has one cause and its cost. An address in its penalty is told so, whatever it sends.
-- Otherwise no credential, an unknown one, or one of an account that has not confirmed its address is
-- invalid, and counts once as a failure of the address; a suspended account and a fault of the store are
-- told as such and count nothing; and a credential of an account that is not suspended and has confirmed
-- its address, or has none, passes and clears the failures. No other error is answered.
pub authenticate-penalty :
    {T : Type 0} (s : Settings) (v : Verifier) (raw client : Text) (asked now : ℕ)
    (l : Option (Limiter T))
    → Judged s raw client now
        (is_locked l client asked)
        (v.resolve_token (v.hash raw))
        l
        (authenticate s v raw client asked now l).error
        (authenticate s v raw client asked now l).lockout
unfolding authenticate fail
authenticate-penalty s v raw client asked now l = elim (Bool-cases (is_locked l client asked)) [
  | inl shut ↦ rw shut (refl, refl)
  | inr free ↦ elim (Bool-cases (is_nil raw)) [
    | inl bare ↦ rw (free, bare) (refl, inl bare, count_failure-at s client now l)
    | inr sent ↦
        rw (free, sent)
          (judge-Judged s v raw client now false (v.resolve_token (v.hash raw)) l (refl, sent))
  ]
]

-- The credential belongs to an account that may authenticate.
abbrev pub passes : Resolved → Bool
passes (resolved a t) = usable a
passes unknown = false
passes faulty = false

abbrev pub is_accepted : Option AuthError → Bool
is_accepted none = true
is_accepted (some e) = false

token_gate :
    {T : Type 0} (s : Settings) (v : Verifier) (client : Text) (now : ℕ) (x : Resolved)
    (l : Option (Limiter T))
    → is_accepted (judge_token s v client now x l).error ≡ passes x
unfolding judge_token fail usable
token_gate s v client now unknown l = refl
token_gate s v client now faulty l = refl
token_gate s v client now (resolved a t) l = ground arith

session_gate : (x : Resolved) → is_accepted (judge_session x).1.0 ≡ passes x
unfolding judge_session usable
session_gate unknown = refl
session_gate faulty = refl
session_gate (resolved a t) = ground arith

-- A bearer token passes exactly if its address is outside its penalty and the token is not empty and
-- belongs to an account that is not disabled and has confirmed its address, or has none.
pub authenticate-passes :
    {T : Type 0} (s : Settings) (v : Verifier) (raw client : Text) (asked now : ℕ)
    (l : Option (Limiter T))
    → is_accepted (authenticate s v raw client asked now l).error
      ≡ (not (is_locked l client asked || is_nil raw) && passes (v.resolve_token (v.hash raw)))
unfolding authenticate fail
authenticate-passes s v raw client asked now l =
    ground (arith, token_gate s v client now (v.resolve_token (v.hash raw)) l)

-- The two routes apply one gate: where the store resolves a session and a token to the same answer, and
-- neither is empty, the session is accepted exactly if the token would be from an address with no
-- penalty.
pub authenticate_session-authenticate :
    {T : Type 0} (s : Settings) (v : Verifier) (raw sent client : Text) (asked now : ℕ)
    (l : Option (Limiter T))
    → is_nil raw ≡ false
    → is_nil sent ≡ false
    → is_locked l client asked ≡ false
    → v.resolve_session (v.hash sent) ≡ v.resolve_token (v.hash raw)
    → is_accepted (authenticate_session v true sent).1.0
      ≡ is_accepted (authenticate s v raw client asked now l).error
unfolding authenticate authenticate_session
authenticate_session-authenticate s v raw sent client asked now l h k free e =
    rw (h, k, free, e)
      (session_gate (v.resolve_token (v.hash raw))
        ∙ sym (token_gate s v client now (v.resolve_token (v.hash raw)) l))
