-- ===== src/Tests/Connectors.antt =====
-- One client that is approved, exchanges its code, and whose code is presented again. A digest is the text
-- itself here, and so is a challenge.
use deployer.Base.{
  ◌≤◌, List, codes, some, none, false, [], ◌∷◌, refl, ◌≡◌, ◌+◌, ◌==◌, ltb, any, arith, Option, Text,
  true,
}
use deployer.Bootstrap.{ApiToken}
use deployer.Tests.People.{ada}
use deployer.OAuth.{
  Db, OAuthClient, OAuthCode, oauth_code, oauth_client, get_account, grant_client_token, live_token,
  create_oauth_client,
}
use deployer.OAuth.WellFormed.{IsWellFormed, exchanges-IsWellFormed}
use deployer.OAuth.Grant.{
  clean_client_name, Library, GrantRequest, minted, grant_invalid, grant, verify_pkce,
  connector_token_name,
}
use deployer.OAuth.Redirect.{
  Url, register_client, registered, match_redirect_uri, max_redirect_uris,
}
use deployer.OAuth.Redirect.Registered.{Among, IsSafe, register-match}
use deployer.OAuth.Grant.Steps.{Op, register, exchange, revoke, sweep, act_all}
use deployer.OAuth.Grant.Once.{is_minted, grant-once}
use deployer.OAuth.Grant.Permits.{Told, grant-Told}
use deployer.OAuth.Grant.Replay.{replay-revokes}

abbrev simple : Library
simple = record {
  hash_secret = λ s. s;
  s256_challenge = λ s. s;
  is_control = λ r. ltb r 32;
  is_space = λ r. r == 32;
  decimal = λ n. (48 + n) ∷ [];
  date_only = λ n. codes "today";
}

abbrev editor : OAuthClient
editor = record {
  id = 5;
  name = codes " My  editor";
  redirect_uris = codes "http://localhost/cb" ∷ [];
  created_at = 2;
  approved_at = some 9;
}

abbrev a_code : OAuthCode
a_code = record {
  code_hash = codes "code";
  client_id = 5;
  account_id = 1;
  redirect_uri = codes "http://localhost/cb";
  code_challenge = codes "verifier";
  resource = codes "deploy";
  token_id = none;
  expires_at = 69;
  consumed_at = none;
  created_at = 9;
}

abbrev linked : Db
linked = record {
  accounts = ada ∷ [];
  clients = editor ∷ [];
  codes = a_code ∷ [];
  tokens = [];
  next_id = 20;
}

abbrev request : GrantRequest
request = record {
  client_id = 5;
  code = codes "code";
  redirect_uri = codes "http://localhost/cb";
  verifier = codes "verifier";
  resource = [];
}

abbrev stolen : GrantRequest
stolen = record request { verifier = codes "guess" }

abbrev the_token : ApiToken
the_token = record {
  id = 20;
  account_id = 1;
  name = codes "My editor today";
  token_hash = codes "dpl_secret";
  token_prefix = codes "dpl_secr";
  expires_at = none;
  revoked_at = none;
  created_at = 30;
  oauth_client_id = some 5;
}

is_exchanged :
    (grant simple 30 request (some (codes "secret")) linked).0
    ≡ minted (codes "dpl_secret") the_token
unfolding grant oauth_code oauth_client get_account grant_client_token connector_token_name
is_exchanged = refl

grant-Told_example :
    Told simple 30 request linked (grant simple 30 request (some (codes "secret")) linked)
grant-Told_example = grant-Told simple 30 request (some (codes "secret")) linked

abbrev between : List Op
between = revoke 31 20 ∷ sweep 32 ∷ register 33 (codes "another") [] ∷ []

grant-once_example :
    is_minted simple
      (grant simple 40 request
        (some (codes "other"))
        (act_all simple between (grant simple 30 request (some (codes "secret")) linked).1)).0
    ≡ false
grant-once_example =
    grant-once simple 30 40 request request (some (codes "secret")) (some (codes "other")) between
      linked (codes "dpl_secret") the_token is_exchanged refl (tt, (tt, (tt, tt))) (omega arith)

code_there : oauth_code (codes "code") linked ≡ some a_code
unfolding oauth_code
code_there = refl

no_proof : verify_pkce simple (codes "verifier") (codes "guess") ≡ false
unfolding verify_pkce
no_proof = refl

replay-revokes_example :
    ((grant simple 40 stolen none (grant simple 30 request (some (codes "secret")) linked).1).0
      ≡ grant_invalid)
    × (any
          (live_token 20)
          (grant simple 40 stolen none
            (grant simple 30 request (some (codes "secret")) linked).1).1.tokens
        ≡ false)
replay-revokes_example =
    replay-revokes simple 30 40 request stolen (some (codes "secret")) none linked a_code
      (codes "dpl_secret") the_token code_there is_exchanged refl no_proof

linked-IsWellFormed : IsWellFormed linked
linked-IsWellFormed = record {
  hashes = tt;
  names = tt;
  one_each = tt;
  codes = (refl, tt);
  clients = (refl, tt);
}

exchanges-IsWellFormed_example :
    IsWellFormed (act_all simple (exchange 30 request (some (codes "secret")) ∷ between) linked)
exchanges-IsWellFormed_example =
    exchanges-IsWellFormed simple (exchange 30 request (some (codes "secret")) ∷ between) linked
      linked-IsWellFormed

abbrev local_url : Url
local_url = record {
  is_abs = true;
  scheme = codes "http";
  opaque = [];
  user = none;
  host = codes "localhost:80";
  hostname = codes "localhost";
  path = codes "/cb";
  raw_path = [];
  force_query = false;
  raw_query = [];
  fragment = [];
}

-- An address on the machine of the browser, whatever the port.
abbrev parse_url : Text → Option Url
parse_url raw = some local_url

abbrev registered_editor : OAuthClient
registered_editor = record {
  id = 20;
  name = codes "My editor";
  redirect_uris = codes "http://localhost/cb" ∷ [];
  created_at = 30;
  approved_at = none;
}

abbrev registered_db : Db
registered_db = record linked { clients = registered_editor ∷ editor ∷ []; next_id = 21 }

is_registered :
    register_client parse_url simple 30
      (codes " My  editor")
      (codes "http://localhost/cb" ∷ [])
      linked
    ≡ (registered registered_editor, registered_db)
unfolding register_client clean_client_name create_oauth_client
is_registered = refl

other_port :
    match_redirect_uri parse_url registered_editor.redirect_uris (codes "http://localhost:9/cb")
    ≡ some (codes "http://localhost:9/cb")
unfolding match_redirect_uri
other_port = refl

register-match_example :
    (codes "http://localhost:9/cb" ≡ codes "http://localhost:9/cb")
    × (1 ≤ 1)
    × (1 ≤ max_redirect_uris)
    × Among parse_url (codes "http://localhost/cb" ∷ []) (codes "http://localhost:9/cb")
    × IsSafe (some local_url)
register-match_example =
    register-match parse_url simple 30 (codes " My  editor") (codes "http://localhost/cb" ∷ [])
      linked registered_db registered_editor (codes "http://localhost:9/cb")
      (codes "http://localhost:9/cb") is_registered other_port
