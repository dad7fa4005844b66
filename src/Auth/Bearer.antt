-- ===== src/Auth/Bearer.antt =====
-- internal/auth/authenticate.go, Authenticate, and session.go, AuthenticateSession. The lockout is the
-- limiter of internal/identity, as in the running program.
pub mod Gate
pub mod Flood
use deployer.Base.{
  Text, Bool, Option, ℕ, some, none, true, false, is_nil, if◌then◌else◌, not, ◌&&◌, is_some, ◌||◌,
}
use deployer.Identity.Limiter.{Limiter, Settings, locked_out, failed, succeeded}
use deployer.Auth.{
  Account, Token, AuthError, nobody, usable, token_invalid, account_suspended, too_many_attempts,
  session_invalid, email_unverified, fault,
}

-- What ResolveToken, and ResolveSession, answers: the credential's account, that it is not valid, or
-- an error of the store.
pub data Resolved : Type 0 where
  resolved : Account → Token → Resolved
  unknown faulty : Resolved

pub record Verifier : Type 0 where
  -- HashToken, the digest of SHA-256.
  pub hash : Text → Text
  pub resolve_token : Text → Resolved
  pub resolve_session : Text → Resolved

-- What is returned, the lockout afterwards, and the id whose use is recorded; the toucher is set, as in
-- the running program.
pub record Reply (T : Type 0) : Type 0 where
  pub account : Account
  pub error : Option AuthError
  pub lockout : Option (Limiter T)
  pub touched : Option Text

-- a.lockout is nil in a build with no public deploy path.
abbrev pub penalised : {T : Type 0} → Option (Limiter T) → Text → Bool
penalised lockout client = is_some lockout && not (is_nil client)

abbrev pub is_locked : {T : Type 0} → Option (Limiter T) → Text → ℕ → Bool
is_locked none client now = false
is_locked (some l) client now = not (is_nil client) && (locked_out client now l).1

-- Failed and Succeeded, on an address that can be penalised.
abbrev pub count_failure :
    {T : Type 0} → Settings → Text → ℕ → Option (Limiter T) → Option (Limiter T)
count_failure s client now none = none
count_failure s client now (some l) = if is_nil client then some l else some (failed s client now l)

abbrev pub clear : {T : Type 0} → Text → Option (Limiter T) → Option (Limiter T)
clear client none = none
clear client (some l) = if is_nil client then some l else some (succeeded client l)

module _ {T : Type 0} (s : Settings) (v : Verifier) where
  abbrev pub refuse : Account → AuthError → Option (Limiter T) → Reply T
  refuse a e lockout = record { account = a; error = some e; lockout = lockout; touched = none }

  -- The closure `fail`.
  unfoldable pub fail : Text → ℕ → AuthError → Option (Limiter T) → Reply T
  fail client now e lockout = refuse nobody e (count_failure s client now lockout)

  -- After the store's answer. `now` is the time at which the limiter counts.
  unfoldable pub judge_token : Text → ℕ → Resolved → Option (Limiter T) → Reply T
  unfolding fail usable
  judge_token client now unknown lockout = fail client now token_invalid lockout
  judge_token client now faulty lockout = refuse nobody fault lockout
  judge_token client now (resolved account token) lockout =
      if account.disabled
      then refuse account account_suspended lockout
      else if not (usable account)
      then fail client now token_invalid lockout
      else (record {
        account = account;
        error = none;
        lockout = clear client lockout;
        touched = some token.id;
      })

  -- `asked` is the time at which the limiter is asked.
  unfoldable pub authenticate : Text → Text → ℕ → ℕ → Option (Limiter T) → Reply T
  unfolding fail judge_token
  authenticate raw client asked now lockout =
      if is_locked lockout client asked
      then refuse nobody too_many_attempts lockout
      else if is_nil raw
      then fail client now token_invalid lockout
      else judge_token client now (v.resolve_token (v.hash raw)) lockout

-- Account, error and the session's id whose use is recorded.
abbrev pub Sighting : Type 0
Sighting = Account × (Option AuthError × Option Text)

unfoldable pub judge_session : Resolved → Sighting
unfolding usable
judge_session unknown = (nobody, (some session_invalid, none))
judge_session faulty = (nobody, (some fault, none))
judge_session (resolved account session) =
    if account.disabled
    then (nobody, (some session_invalid, none))
    else if not (usable account)
    then (nobody, (some email_unverified, none))
    else (account, (none, some session.id))

-- `has_sessions`: WithSessions was called.
unfoldable pub authenticate_session : Verifier → Bool → Text → Sighting
unfolding judge_session
authenticate_session v has_sessions raw =
    if is_nil raw || not has_sessions
    then (nobody, (some session_invalid, none))
    else judge_session (v.resolve_session (v.hash raw))
