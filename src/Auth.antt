-- ===== src/Auth.antt =====
-- internal/auth: who a request speaks for. The store and SHA-256 are parameters, and so is the clock,
-- whose readings are arguments.
pub mod Bearer
pub mod Address
pub mod Header
use deployer.Base.{Text, Bool, Option, true, false, is_nil, ◌||◌, if◌then◌else◌, []}

pub record Account : Type 0 where
  pub id : Text
  pub name : Text
  pub email : Text
  pub verified : Bool
  pub disabled : Bool
  pub is_admin : Bool
  pub connected : Bool

-- Account{}
abbrev pub nobody : Account
nobody = record {
  id = [];
  name = [];
  email = [];
  verified = false;
  disabled = false;
  is_admin = false;
  connected = false;
}

pub record Token : Type 0 where
  pub id : Text
  pub account_id : Text

pub data AuthError : Type 0 where
  token_invalid account_suspended too_many_attempts session_invalid email_unverified : AuthError
  -- A fault of the platform, wrapped.
  fault : AuthError

-- The verified gate.
unfoldable pub usable : Account → Bool
usable a = if a.disabled then false else is_nil a.email || a.verified
