-- ===== src/Accounts/Service.antt =====
-- The sign-in service: internal/identity/session.go, and of internal/identity/service.go the methods
-- Verify and Resend with issueLink and send. The store is that of Accounts, the lockout the limiter.
pub mod SignedIn
pub mod Takeover
pub mod Quiet
use deployer.Base.{
  Text, List, Bool, Option, none, some, false, [], ◌∷◌, is_nil, is_some, if◌then◌else◌, not, ◌||◌,
  ltb, ◌+◌, ◌*◌, text_eq, length, ℕ,
}
use deployer.Identity.Limiter.{Limiter, second, sign_in_settings, locked_out, failed, succeeded}
use deployer.Accounts.{
  Account, Db, Error, Purpose, EmailToken, verify_email, password_reset, get_account_by_email,
  create_session, revoke_session, create_email_token, consume_email_token, mark_email_verified,
  set_password,
}

-- The refusals of these methods; `internal` is any error that is not a refusal.
pub data Code : Type 0 where
  email_invalid password_too_short credentials_invalid email_unverified : Code
  link_invalid rate_limited mail_unavailable internal : Code

-- What the standard library and x/crypto answer: strings.ToLower and TrimSpace, the Address that
-- mail.ParseAddress finds, SHA-256 in HashSecret, whether argon2id on the parameters and the salt of an
-- encoded hash gives its digest, and a password's encoded hash, if a salt could be drawn.
pub record Crypto : Type 0 where
  pub to_lower : Text → Text
  pub trim_space : Text → Text
  pub parse_address : Text → Option Text
  pub hash_secret : Text → Text
  pub matches : Text → Text → Bool
  pub hash_password : Text → Option Text

abbrev pub min_password_len : ℕ
min_password_len = 12

abbrev pub max_password_len : ℕ
max_password_len = 1024

abbrev pub max_email_len : ℕ
max_email_len = 254

abbrev pub day : ℕ
day = 24 * (3600 * second)

abbrev pub session_lifetime : ℕ
session_lifetime = 30 * day

abbrev pub link_lifetime : ℕ
link_lifetime = day

-- NULL is read as the empty string.
abbrev pub deref : Option Text → Text
deref none = []
deref (some t) = t

-- A message with a link to an address: its purpose and its secret.
pub record Message : Type 0 where
  pub to : Text
  pub purpose : Purpose
  pub secret : Text

pub data SignIn : Type 0 where
  signed_in : Text → Account → SignIn
  refused : Code → SignIn

-- `derived` counts the passwords that were hashed.
pub record Attempt (T : Type 0) : Type 0 where
  pub answer : SignIn
  pub db : Db
  pub limits : Limiter T
  pub derived : ℕ

abbrev pub password_short : Text → Bool
password_short raw = ltb (length raw) min_password_len || ltb max_password_len (length raw)

abbrev pub is_found : Text → Option Text → Bool
is_found email none = false
is_found email (some address) = text_eq address email

-- The answer of a call that mails, what it sends, and the tables.
abbrev pub Mailed : Type 0
Mailed = Option Code × List Message × Db

-- Revoking a session that is gone is no error.
unfoldable pub logout : ℕ → ℕ → Db → Db
unfolding revoke_session
logout now id db = (revoke_session now id db).1

abbrev pub issued : Text → Text → Purpose → Db → Option Error × Db → Mailed
issued raw to purpose before (some e, db) = (some internal, [], before)
issued raw to purpose before (none, db) =
    (none, record { to = to; purpose = purpose; secret = raw } ∷ [], db)

abbrev pub confirmed : ℕ → Option EmailToken × Db → Option Code × Db
confirmed now (none, db) = (some link_invalid, db)
confirmed now (some t, db) = (none, (mark_email_verified now t.account_id db).1)

abbrev pub written : Option Error × Db → Option Code × Db
written (none, db) = (none, db)
written (some e, db) = (some internal, db)

abbrev pub reset_by : ℕ → Text → Option EmailToken × Db → Option Code × Db
reset_by now hash (none, db) = (some link_invalid, db)
reset_by now hash (some t, db) = written (set_password now t.account_id hash db)

module _ {T : Type 0} where
  abbrev pub opened : Text → Account → Text → Db → Limiter T → Option Error × Db → Attempt T
  opened email a raw before limits (some e, db) = record {
    answer = refused internal;
    db = before;
    limits = limits;
    derived = 1;
  }
  opened email a raw before limits (none, db) = record {
    answer = signed_in raw a;
    db = db;
    limits = succeeded email limits;
    derived = 1;
  }

  abbrev pub turned_away : ℕ → Text → Db → Limiter T → Attempt T
  turned_away now email db limits = record {
    answer = refused credentials_invalid;
    db = db;
    limits = failed sign_in_settings email now limits;
    derived = 1;
  }

module _ (c : Crypto) where
  abbrev pub normalize_email : Text → Text
  normalize_email raw = c.to_lower (c.trim_space raw)

  unfoldable pub check_email : Text → Option Text
  check_email raw =
      let email = normalize_email raw in
      if is_nil email || ltb max_email_len (length email)
      then none
      else if not (is_found email (c.parse_address email))
      then none
      else some email

  -- Hasher.Verify.
  abbrev pub verify_password : Text → Text → Bool
  verify_password password encoded = if is_nil encoded then false else c.matches password encoded

  -- issueLink, and the message with it. `secret` is what NewSecret draws, if it can.
  abbrev pub issue_link : ℕ → Option Text → ℕ → Text → Purpose → Db → Mailed
  issue_link now none account to purpose db = (some internal, [], db)
  issue_link now (some raw) account to purpose db =
      issued raw to purpose db
        (create_email_token now account purpose (c.hash_secret raw) (now + link_lifetime) db)

  module _ {T : Type 0} where
    abbrev pub open_with : ℕ → Text → Account → Option Text → Db → Limiter T → Attempt T
    open_with now email a none db limits = record {
      answer = refused internal;
      db = db;
      limits = limits;
      derived = 1;
    }
    open_with now email a (some raw) db limits =
        opened email a raw db limits
          (create_session now a.id (c.hash_secret raw) (now + session_lifetime) db)

    -- After AccountByEmail.
    abbrev pub judge : ℕ → Text → Text → Option Text → Db → Limiter T → Option Account → Attempt T
    judge now email password secret db limits none = turned_away now email db limits
    judge now email password secret db limits (some a) =
        if not (verify_password password (deref a.password_hash)) || is_some a.disabled_at
        then turned_away now email db limits
        else if is_nil (deref a.email)
        then turned_away now email db limits
        else if not (is_some a.email_verified_at)
        then record { answer = refused email_unverified; db = db; limits = limits; derived = 1 }
        else open_with now email a secret db limits

    -- `asked` is the time at which the lockout is asked, `now` that of all else.
    unfoldable pub login : ℕ → ℕ → Text → Text → Option Text → Db → Limiter T → Attempt T
    login asked now raw_email password secret db limits =
        let email = normalize_email raw_email in
        if (locked_out email asked limits).1
        then record { answer = refused rate_limited; db = db; limits = limits; derived = 0 }
        else judge now email password secret db limits (get_account_by_email email db)

  abbrev pub forget : ℕ → Text → Option Text → Db → Option Account → Mailed
  forget now email secret db none = (none, [], db)
  forget now email secret db (some a) =
      if is_some a.disabled_at || is_nil (deref a.email)
      then (none, [], db)
      else issue_link now secret a.id email password_reset db

  -- `has_mailer`: a mailer is configured.
  unfoldable pub forgot : ℕ → Bool → Text → Option Text → Db → Mailed
  forgot now has_mailer raw_email secret db =
      if not has_mailer
      then (some mail_unavailable, [], db)
      else forget now (normalize_email raw_email) secret db
          (get_account_by_email (normalize_email raw_email) db)

  abbrev pub send_again : ℕ → Text → Option Text → Db → Option Account → Mailed
  send_again now email secret db none = (none, [], db)
  send_again now email secret db (some a) =
      if is_some a.email_verified_at || is_some a.disabled_at
      then (none, [], db)
      else issue_link now secret a.id email verify_email db

  abbrev pub resend_to : ℕ → Option Text → Db → Option Text → Mailed
  resend_to now secret db none = (some email_invalid, [], db)
  resend_to now secret db (some email) =
      send_again now email secret db (get_account_by_email email db)

  unfoldable pub resend : ℕ → Bool → Text → Option Text → Db → Mailed
  unfolding check_email
  resend now has_mailer raw_email secret db =
      if not has_mailer
      then (some mail_unavailable, [], db)
      else resend_to now secret db (check_email raw_email)

  -- An address that is verified already is no error.
  unfoldable pub verify_link : ℕ → Text → Db → Option Code × Db
  verify_link now raw db =
      confirmed now (consume_email_token now (c.hash_secret raw) verify_email db)

  abbrev pub reset_with : ℕ → Text → Option Text → Db → Option Code × Db
  reset_with now raw none db = (some internal, db)
  reset_with now raw (some hash) db =
      reset_by now hash (consume_email_token now (c.hash_secret raw) password_reset db)

  unfoldable pub reset : ℕ → Text → Text → Db → Option Code × Db
  reset now raw password db =
      if password_short password
      then (some password_too_short, db)
      else reset_with now raw (c.hash_password password) db
