-- ===== src/Accounts.antt =====
-- The people of internal/store/identity.go, their sessions and their mailed links, with the statements of
-- internal/store/sqlcgen/identity.sql.go. Ids, stamps and tables are as in Store; a transaction is one
-- function, which answers with the tables as they were where it is rolled back.
pub mod Steps
pub mod WellFormed
pub mod Ended
pub mod Links
pub mod Service
use deployer.Base.{
  Text, List, Bool, Option, none, some, true, false, ◌∷◌, is_some, any, if◌then◌else◌, not, ◌&&◌,
  ◌||◌, ◌==◌, ltb, ◌+◌, text_eq, ℕ,
}
use deployer.Store.Table.{find_by, update_by}

pub record Account : Type 0 where
  pub id : ℕ
  pub email : Option Text
  pub password_hash : Option Text
  pub display_name : Option Text
  pub is_admin : Bool
  pub email_verified_at : Option ℕ
  pub disabled_at : Option ℕ
  pub connected_at : Option ℕ
  pub created_at : ℕ
  pub updated_at : ℕ

pub record Session : Type 0 where
  pub id : ℕ
  pub account_id : ℕ
  pub token_hash : Text
  pub expires_at : ℕ
  pub last_used_at : Option ℕ
  pub revoked_at : Option ℕ
  pub created_at : ℕ
  pub updated_at : ℕ

pub data Purpose : Type 0 where
  verify_email password_reset : Purpose

pub record EmailToken : Type 0 where
  pub id : ℕ
  pub account_id : ℕ
  pub purpose : Purpose
  pub token_hash : Text
  pub expires_at : ℕ
  pub consumed_at : Option ℕ
  pub created_at : ℕ

pub record Db : Type 0 where
  pub accounts : List Account
  pub sessions : List Session
  pub links : List EmailToken
  pub next_id : ℕ

-- `constraint` is any other UNIQUE or REFERENCES that refuses a row.
pub data Error : Type 0 where
  email_taken not_found link_invalid session_invalid constraint : Error

abbrev pub same_purpose : Purpose → Purpose → Bool
same_purpose verify_email verify_email = true
same_purpose password_reset password_reset = true
same_purpose _ _ = false

abbrev pub has_id : ℕ → Account → Bool
has_id id a = a.id == id

abbrev pub is_address : Text → Option Text → Bool
is_address email none = false
is_address email (some e) = text_eq email e

abbrev pub has_email : Text → Account → Bool
has_email email a = is_address email a.email

abbrev pub is_live : Session → Bool
is_live s = not (is_some s.revoked_at)

abbrev pub is_session : Text → Session → Bool
is_session h s = text_eq h s.token_hash

abbrev pub is_link : Text → EmailToken → Bool
is_link h t = text_eq h t.token_hash

abbrev pub unspent : EmailToken → Bool
unspent t = not (is_some t.consumed_at)

-- The account's live link for the purpose.
abbrev pub live_link : ℕ → Purpose → EmailToken → Bool
live_link account purpose t = t.account_id == account && same_purpose purpose t.purpose && unspent t

-- `name` is the id. The first address makes an administrator.
abbrev pub person : ℕ → ℕ → Text → Text → Text → List Account → Account
person id now email hash name accounts = record {
  id = id;
  email = some email;
  password_hash = some hash;
  display_name = some name;
  is_admin = not (any (λ (a : Account). is_some a.email) accounts);
  email_verified_at = none;
  disabled_at = none;
  connected_at = none;
  created_at = now;
  updated_at = now;
}

unfoldable pub create_identity_account : ℕ → Text → Text → Text → Db → Option Error × Db
create_identity_account now email hash name db =
    if any (has_email email) db.accounts then (some email_taken, db) else (
      none,
      record db {
        accounts = person db.next_id now email hash name db.accounts ∷ db.accounts;
        next_id = db.next_id + 1;
      },
    )

unfoldable pub get_account_by_email : Text → Db → Option Account
unfolding find_by
get_account_by_email email db = find_by (has_email email) db.accounts

-- The SET clauses.
abbrev pub verified : ℕ → Account → Account
verified now a = record a { email_verified_at = some now; updated_at = now }

abbrev pub connected : ℕ → Account → Account
connected now a = record a { connected_at = some now; updated_at = now }

abbrev pub rehashed : ℕ → Text → Account → Account
rehashed now hash a = record a { password_hash = some hash; updated_at = now }

abbrev pub stamp_if : Bool → ℕ → Option ℕ
stamp_if b now = if b then some now else none

abbrev pub stamped : ℕ → Bool → Account → Account
stamped now disabled a = record a { disabled_at = stamp_if disabled now; updated_at = now }

abbrev pub used_again : ℕ → ℕ → Session → Session
used_again now expires s = record s {
  last_used_at = some now;
  expires_at = expires;
  updated_at = now;
}

-- An UPDATE of accounts, and ErrNotFound where it meets no row.
abbrev pub update_accounts : (Account → Bool) → (Account → Account) → Db → Option Error × Db
update_accounts p f db =
    if any p db.accounts
    then (none, record db { accounts = update_by p f db.accounts })
    else (some not_found, db)

abbrev pub unverified : ℕ → Account → Bool
unverified id a = has_id id a && not (is_some a.email_verified_at)

unfoldable pub mark_email_verified : ℕ → ℕ → Db → Option Error × Db
unfolding update_by
mark_email_verified now id db = update_accounts (unverified id) (verified now) db

abbrev pub unconnected : ℕ → Account → Bool
unconnected id a = has_id id a && not (is_some a.connected_at)

-- Whether this call wrote the stamp.
unfoldable pub mark_account_connected : ℕ → ℕ → Db → Bool × Db
unfolding update_by
mark_account_connected now id db = (
  any (unconnected id) db.accounts,
  record db { accounts = update_by (unconnected id) (connected now) db.accounts },
)

abbrev pub live_session_of : ℕ → Session → Bool
live_session_of account s = s.account_id == account && is_live s

abbrev pub revoked : ℕ → Session → Session
revoked now s = record s { revoked_at = some now; updated_at = now }

abbrev pub consumed : ℕ → EmailToken → EmailToken
consumed now t = record t { consumed_at = some now }

abbrev pub unspent_of : ℕ → EmailToken → Bool
unspent_of account t = t.account_id == account && unspent t

-- RevokeAccountSessions and RevokeAccountEmailTokens.
abbrev pub shut_out : ℕ → ℕ → Db → Db
shut_out now id db = record db {
  sessions = update_by (live_session_of id) (revoked now) db.sessions;
  links = update_by (unspent_of id) (consumed now) db.links;
}

-- The accounts as the first statement leaves them.
abbrev pub with_accounts : List Account → Db → Db
with_accounts accounts db = record db { accounts = accounts }

unfoldable pub set_password : ℕ → ℕ → Text → Db → Option Error × Db
unfolding update_by
set_password now id hash db =
    if any (has_id id) db.accounts
    then (
      none,
      shut_out now id (with_accounts (update_by (has_id id) (rehashed now hash) db.accounts) db),
    )
    else (some not_found, db)

unfoldable pub set_account_disabled : ℕ → ℕ → Bool → Db → Option Error × Db
unfolding update_by
set_account_disabled now id disabled db =
    let written = with_accounts (update_by (has_id id) (stamped now disabled) db.accounts) db in
    if any (has_id id) db.accounts
    then (none, if disabled then shut_out now id written else written)
    else (some not_found, db)

abbrev pub session_row : ℕ → ℕ → ℕ → Text → ℕ → Session
session_row id now account h expires = record {
  id = id;
  account_id = account;
  token_hash = h;
  expires_at = expires;
  last_used_at = none;
  revoked_at = none;
  created_at = now;
  updated_at = now;
}

unfoldable pub create_session : ℕ → ℕ → Text → ℕ → Db → Option Error × Db
create_session now account h expires db =
    if any (is_session h) db.sessions || not (any (has_id account) db.accounts)
    then (some constraint, db)
    else (
      none,
      record db {
        sessions = session_row db.next_id now account h expires ∷ db.sessions;
        next_id = db.next_id + 1;
      },
    )

-- The JOIN, with the tests on either row.
abbrev pub account_of : ℕ → Db → Option Account
account_of id db = find_by (has_id id) db.accounts

abbrev pub enabled_account : Option Account → Bool
enabled_account none = false
enabled_account (some a) = not (is_some a.disabled_at)

abbrev pub resolves : ℕ → Text → Db → Session → Bool
resolves now h db s =
    is_session h s
    && is_live s
    && ltb now s.expires_at
    && enabled_account (account_of s.account_id db)

-- `none` for ErrSessionInvalid. The account is that of the session, `account_of s.account_id`.
unfoldable pub resolve_session : ℕ → Text → Db → Option Session
unfolding find_by
resolve_session now h db = find_by (resolves now h db) db.sessions

abbrev pub with_id : ℕ → Session → Bool
with_id id s = s.id == id

unfoldable pub touch_session : ℕ → ℕ → ℕ → Db → Db
unfolding update_by
touch_session now id expires db = record db {
  sessions = update_by (with_id id) (used_again now expires) db.sessions;
}

abbrev pub live_id : ℕ → Session → Bool
live_id id s = s.id == id && is_live s

unfoldable pub revoke_session : ℕ → ℕ → Db → Option Error × Db
unfolding update_by
revoke_session now id db =
    if any (live_id id) db.sessions
    then (none, record db { sessions = update_by (live_id id) (revoked now) db.sessions })
    else (some not_found, db)

abbrev pub link_row : ℕ → ℕ → ℕ → Purpose → Text → ℕ → EmailToken
link_row id now account purpose h expires = record {
  id = id;
  account_id = account;
  purpose = purpose;
  token_hash = h;
  expires_at = expires;
  consumed_at = none;
  created_at = now;
}

-- ConsumeLiveEmailTokens.
abbrev pub superseded : ℕ → ℕ → Purpose → List EmailToken → List EmailToken
superseded now account purpose links = update_by (live_link account purpose) (consumed now) links

-- The UNIQUE of token_hash, the index of the live links, and the account's REFERENCES.
abbrev pub refuses_link : ℕ → Purpose → Text → List EmailToken → List Account → Bool
refuses_link account purpose h links accounts =
    any (λ (t : EmailToken). is_link h t || live_link account purpose t) links
    || not (any (has_id account) accounts)

unfoldable pub create_email_token : ℕ → ℕ → Purpose → Text → ℕ → Db → Option Error × Db
unfolding update_by
create_email_token now account purpose h expires db =
    let links = superseded now account purpose db.links in
    if refuses_link account purpose h links db.accounts then (some constraint, db) else (
      none,
      record db {
        links = link_row db.next_id now account purpose h expires ∷ links;
        next_id = db.next_id + 1;
      },
    )

abbrev pub spendable : ℕ → Text → Purpose → EmailToken → Bool
spendable now h purpose t =
    is_link h t && same_purpose purpose t.purpose && unspent t && ltb now t.expires_at

-- `none` for ErrLinkInvalid, and else the row that was spent.
unfoldable pub consume_email_token : ℕ → Text → Purpose → Db → Option EmailToken × Db
unfolding find_by update_by
consume_email_token now h purpose db = (
  find_by (spendable now h purpose) db.links,
  record db { links = update_by (spendable now h purpose) (consumed now) db.links },
)
