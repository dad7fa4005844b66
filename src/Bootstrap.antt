-- ===== src/Bootstrap.antt =====
-- Bootstrap of internal/auth/auth.go over the accounts and the tokens of internal/store/accounts.go and
-- authadapter.go, with the statements of internal/store/sqlcgen/accounts.sql.go. Ids, stamps and tables
-- are as in Store; each statement is a transaction of its own.
pub mod Rotation
use deployer.Base.{
  Text, List, Bool, Option, codes, some, none, true, false, [], ◌∷◌, is_nil, is_some, any,
  if◌then◌else◌, not, ◌&&◌, ◌||◌, ◌==◌, ltb, ◌+◌, text_eq, take, ℕ,
}
use deployer.Store.Table.{find_by, update_by}

pub record Account : Type 0 where
  pub id : ℕ
  pub name : Text
  pub email : Option Text
  pub email_verified_at : Option ℕ
  pub disabled_at : Option ℕ
  pub created_at : ℕ

pub record ApiToken : Type 0 where
  pub id : ℕ
  pub account_id : ℕ
  pub name : Text
  pub token_hash : Text
  pub token_prefix : Text
  pub expires_at : Option ℕ
  pub revoked_at : Option ℕ
  pub created_at : ℕ
  pub oauth_client_id : Option ℕ

pub record Db : Type 0 where
  pub accounts : List Account
  pub tokens : List ApiToken
  pub next_id : ℕ

abbrev pub has_name : Text → Account → Bool
has_name name a = text_eq name a.name

unfoldable pub get_account_by_name : Text → Db → Option Account
unfolding find_by
get_account_by_name name db = find_by (has_name name) db.accounts

abbrev pub account_row : ℕ → ℕ → Text → Account
account_row id now name = record {
  id = id;
  name = name;
  email = none;
  email_verified_at = none;
  disabled_at = none;
  created_at = now;
}

-- `none` for the UNIQUE of name.
unfoldable pub create_account : ℕ → Text → Db → Option (Account × Db)
create_account now name db =
    if any (has_name name) db.accounts
    then none
    else some (
      account_row db.next_id now name,
      record db {
        accounts = account_row db.next_id now name ∷ db.accounts;
        next_id = db.next_id + 1;
      },
    )

abbrev pub has_hash : Text → ApiToken → Bool
has_hash h t = text_eq h t.token_hash

-- A name is reserved while its token is live.
abbrev pub live_named : ℕ → Text → ApiToken → Bool
live_named account name t =
    t.account_id == account && text_eq name t.name && not (is_some t.revoked_at)

abbrev pub in_time : ℕ → Option ℕ → Bool
in_time now none = true
in_time now (some e) = ltb now e

abbrev pub resolves : ℕ → Text → ApiToken → Bool
resolves now h t = has_hash h t && not (is_some t.revoked_at) && in_time now t.expires_at

abbrev pub join_account : Db → Option ApiToken → Option (Account × ApiToken)
join_account db none = none
join_account db (some t) = elim (find_by (λ (a : Account). a.id == t.account_id) db.accounts) [
  | none ↦ none
  | some a ↦ some (a, t)
]

-- `none` for ErrTokenInvalid.
unfoldable pub resolve_token : ℕ → Text → Db → Option (Account × ApiToken)
unfolding find_by
resolve_token now h db = join_account db (find_by (resolves now h) db.tokens)

unfoldable pub revoke_tokens_named : ℕ → ℕ → Text → Db → Db
unfolding update_by
revoke_tokens_named now account name db = record db {
  tokens =
      update_by (live_named account name) (λ (t : ApiToken). record t { revoked_at = some now })
        db.tokens;
}

abbrev pub token_row : ℕ → ℕ → ℕ → Text → Text → Text → ApiToken
token_row id now account name h head = record {
  id = id;
  account_id = account;
  name = name;
  token_hash = h;
  token_prefix = head;
  expires_at = none;
  revoked_at = none;
  created_at = now;
  oauth_client_id = none;
}

-- `none` for the UNIQUE of token_hash and the index of live names.
unfoldable pub create_api_token : ℕ → ℕ → Text → Text → Text → Db → Option Db
create_api_token now account name h head db =
    if any (λ (t : ApiToken). has_hash h t || live_named account name t) db.tokens
    then none
    else some (record db {
      tokens = token_row db.next_id now account name h head ∷ db.tokens;
      next_id = db.next_id + 1;
    })

abbrev pub bootstrap_name : Text
bootstrap_name = codes "bootstrap"

-- TokenPrefix.
abbrev pub token_prefix_of : Text → Text
token_prefix_of raw = take 8 raw

-- A nil error, or one.
pub data Outcome : Type 0 where
  done failed : Outcome

abbrev pub minted : Db → Option Db → Outcome × Db
minted before none = (failed, before)
minted before (some db) = (done, db)

-- Once the account is there; `h` is the hash of `raw`.
abbrev pub seed : ℕ → Text → Text → Account → Db → Option (Account × ApiToken) → Outcome × Db
seed now raw h account db (some found) = (done, db)
seed now raw h account db none =
    let cleared = revoke_tokens_named now account.id bootstrap_name db in
    minted cleared (create_api_token now account.id bootstrap_name h (token_prefix_of raw) cleared)

-- AccountByName, and CreateAccount where there is none.
abbrev pub ensured : ℕ → Db → Option Account → Option (Account × Db)
ensured now db (some a) = some (a, db)
ensured now db none = create_account now bootstrap_name db

abbrev pub seed_ensured : ℕ → Text → Text → Db → Option (Account × Db) → Outcome × Db
seed_ensured now raw h before none = (failed, before)
seed_ensured now raw h before (some (account, db)) =
    seed now raw h account db (resolve_token now h db)

-- `hash` is HashToken, the digest of SHA-256.
unfoldable pub bootstrap : (Text → Text) → ℕ → Text → Db → Outcome × Db
unfolding get_account_by_name create_account resolve_token revoke_tokens_named create_api_token
bootstrap hash now raw db =
    if is_nil raw
    then (done, db)
    else seed_ensured now raw (hash raw) db (ensured now db (get_account_by_name bootstrap_name db))
