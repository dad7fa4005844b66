-- ===== src/OAuth.antt =====
-- The authorization codes of internal/store/oauth.go, the clients that they are for and the tokens that they
-- are exchanged for, with the statements of internal/store/sqlcgen/oauth.sql.go. The tokens are those of
-- Bootstrap, the accounts those of Accounts; ids, stamps and tables are as in Store. The foreign keys of the
-- codes are in the inserts and in the sweep; those of a token hold with those of its code.
pub mod Grant
pub mod WellFormed
pub mod Redirect
use deployer.Base.{
  Text, List, Bool, Option, none, some, false, [], ◌∷◌, is_some, any, if◌then◌else◌, not, ◌&&◌,
  ◌||◌, ◌==◌, ltb, ◌+◌, text_eq, ℕ,
}
use deployer.Store.Table.{find_by, update_by}
use deployer.Accounts.{Account}
use deployer.Bootstrap.{ApiToken, has_hash, live_named}

pub record OAuthClient : Type 0 where
  pub id : ℕ
  pub name : Text
  pub redirect_uris : List Text
  pub created_at : ℕ
  pub approved_at : Option ℕ

pub record OAuthCode : Type 0 where
  pub code_hash : Text
  pub client_id : ℕ
  pub account_id : ℕ
  pub redirect_uri : Text
  pub code_challenge : Text
  pub resource : Text
  pub token_id : Option ℕ
  pub expires_at : ℕ
  pub consumed_at : Option ℕ
  pub created_at : ℕ

pub record Db : Type 0 where
  pub accounts : List Account
  pub clients : List OAuthClient
  pub codes : List OAuthCode
  pub tokens : List ApiToken
  pub next_id : ℕ

pub record NewOAuthCode : Type 0 where
  pub code_hash : Text
  pub client_id : ℕ
  pub account_id : ℕ
  pub redirect_uri : Text
  pub code_challenge : Text
  pub resource : Text
  pub expires_at : ℕ

pub record ClientGrant : Type 0 where
  pub code_hash : Text
  pub account_id : ℕ
  pub client_id : ℕ
  pub name : Text
  pub token_hash : Text
  pub token_prefix : Text

-- `duplicate` is a UNIQUE, and `constraint` a REFERENCES.
pub data Error : Type 0 where
  token_invalid not_found duplicate constraint : Error

abbrev pub is_client : ℕ → OAuthClient → Bool
is_client id c = c.id == id

abbrev pub is_account : ℕ → Account → Bool
is_account id a = a.id == id

abbrev pub has_code : Text → OAuthCode → Bool
has_code h c = text_eq h c.code_hash

abbrev pub client_row : ℕ → ℕ → Text → List Text → OAuthClient
client_row id now name uris = record {
  id = id;
  name = name;
  redirect_uris = uris;
  created_at = now;
  approved_at = none;
}

unfoldable pub create_oauth_client : ℕ → Text → List Text → Db → OAuthClient × Db
create_oauth_client now name uris db = (
  client_row db.next_id now name uris,
  record db {
    clients = client_row db.next_id now name uris ∷ db.clients;
    next_id = db.next_id + 1;
  },
)

unfoldable pub oauth_client : ℕ → Db → Option OAuthClient
unfolding find_by
oauth_client id db = find_by (is_client id) db.clients

unfoldable pub oauth_code : Text → Db → Option OAuthCode
unfolding find_by
oauth_code h db = find_by (has_code h) db.codes

unfoldable pub get_account : ℕ → Db → Option Account
unfolding find_by
get_account id db = find_by (is_account id) db.accounts

abbrev pub unapproved : OAuthClient → Bool
unapproved c = not (is_some c.approved_at)

abbrev pub to_approve : ℕ → OAuthClient → Bool
to_approve id c = is_client id c && unapproved c

abbrev pub approved : ℕ → OAuthClient → OAuthClient
approved now c = record c { approved_at = some now }

abbrev pub code_row : ℕ → NewOAuthCode → OAuthCode
code_row now n = record {
  code_hash = n.code_hash;
  client_id = n.client_id;
  account_id = n.account_id;
  redirect_uri = n.redirect_uri;
  code_challenge = n.code_challenge;
  resource = n.resource;
  token_id = none;
  expires_at = n.expires_at;
  consumed_at = none;
  created_at = now;
}

-- The PRIMARY KEY of the hash, and the references to the client and the account.
abbrev pub refuses_code : NewOAuthCode → Db → Bool
refuses_code n db =
    any (has_code n.code_hash) db.codes
    || not (any (is_client n.client_id) db.clients)
    || not (any (is_account n.account_id) db.accounts)

unfoldable pub approve_and_create_code : ℕ → NewOAuthCode → Db → Option Error × Db
unfolding update_by
approve_and_create_code now n db = if refuses_code n db then (some constraint, db) else (
  none,
  record db {
    clients = update_by (to_approve n.client_id) (approved now) db.clients;
    codes = code_row now n ∷ db.codes;
  },
)

abbrev pub keep_if {ℓ} : {A : Type ℓ} → (A → Bool) → List A → List A
keep_if p [] = []
keep_if p (a ∷ l) = let rest = keep_if p l in if p a then a ∷ rest else rest

abbrev pub stale : ℕ → OAuthClient → Bool
stale cutoff c = unapproved c && ltb c.created_at cutoff

-- The client of the row is not among those that are deleted.
abbrev pub spared : ℕ → List OAuthClient → OAuthCode → Bool
spared cutoff clients c =
    not (any (λ (k : OAuthClient). is_client c.client_id k && stale cutoff k) clients)

-- ON DELETE CASCADE takes the codes of a client with it.
unfoldable pub sweep_unapproved : ℕ → Db → Db
sweep_unapproved cutoff db = record db {
  clients = keep_if (λ (c : OAuthClient). not (stale cutoff c)) db.clients;
  codes = keep_if (spared cutoff db.clients) db.codes;
}

abbrev pub usable : ℕ → Text → OAuthCode → Bool
usable now h c = has_code h c && not (is_some c.consumed_at) && ltb now c.expires_at

abbrev pub spent : ℕ → OAuthCode → OAuthCode
spent now c = record c { consumed_at = some now }

abbrev pub is_of : ℕ → Option ℕ → Bool
is_of client none = false
is_of client (some c) = c == client

-- The live token that the account holds by the client.
abbrev pub live_client : ℕ → ℕ → ApiToken → Bool
live_client account client t =
    t.account_id == account && is_of client t.oauth_client_id && not (is_some t.revoked_at)

abbrev pub token_revoked : ℕ → ApiToken → ApiToken
token_revoked now t = record t { revoked_at = some now }

abbrev pub granted_row : ℕ → ℕ → ClientGrant → ApiToken
granted_row id now g = record {
  id = id;
  account_id = g.account_id;
  name = g.name;
  token_hash = g.token_hash;
  token_prefix = g.token_prefix;
  expires_at = none;
  revoked_at = none;
  created_at = now;
  oauth_client_id = some g.client_id;
}

-- The UNIQUE of token_hash, and the indexes of the live names and of the live clients.
abbrev pub repeats : ClientGrant → ApiToken → Bool
repeats g t =
    has_hash g.token_hash t
    || live_named g.account_id g.name t
    || live_client g.account_id g.client_id t

abbrev pub with_token : Text → ℕ → List OAuthCode → List OAuthCode
with_token h id codes =
    update_by (has_code h) (λ (c : OAuthCode). record c { token_id = some id }) codes

-- The answer of GrantClientToken.
pub data Granted : Type 0 where
  granted : ApiToken → Granted
  failed : Error → Granted

unfoldable pub grant_client_token : ℕ → ClientGrant → Db → Granted × Db
unfolding update_by
grant_client_token now g db =
    let tokens = update_by (live_client g.account_id g.client_id) (token_revoked now) db.tokens in
    if not (any (usable now g.code_hash) db.codes)
    then (failed token_invalid, db)
    else if any (repeats g) tokens
    then (failed duplicate, db)
    else (
      granted (granted_row db.next_id now g),
      record db {
        tokens = granted_row db.next_id now g ∷ tokens;
        codes =
            with_token g.code_hash db.next_id
              (update_by (usable now g.code_hash) (spent now) db.codes);
        next_id = db.next_id + 1;
      },
    )

abbrev pub live_token : ℕ → ApiToken → Bool
live_token id t = t.id == id && not (is_some t.revoked_at)

-- RevokeAPIToken.
unfoldable pub revoke_token : ℕ → ℕ → Db → Option Error × Db
unfolding update_by
revoke_token now id db =
    if any (live_token id) db.tokens
    then (none, record db { tokens = update_by (live_token id) (token_revoked now) db.tokens })
    else (some not_found, db)
