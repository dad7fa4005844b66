-- ===== src/OAuth/Grant.antt =====
-- internal/identity/oauthgrant.go: ApproveClient, SweepClients and Grant, with prepareMint of tokens.go and
-- VerifyPKCE and CleanClientName of oauth.go. A text is the list of its runes here.
pub mod Steps
pub mod Once
pub mod Permits
pub mod Replay
use deployer.Base.{
  Text, List, Bool, Option, codes, some, none, false, [], ◌∷◌, ◌++◌, is_nil, is_some, if◌then◌else◌,
  not, ◌&&◌, ◌||◌, ◌==◌, ltb, ◌+◌, ◌-◌, ◌*◌, text_eq, take, reverse, ℕ, zero, suc, length,
}
use deployer.Identity.Limiter.{second}
use deployer.Accounts.{Account}
use deployer.Accounts.Service.{deref}
use deployer.Bootstrap.{ApiToken}
use deployer.OAuth.{
  Db, OAuthClient, OAuthCode, ClientGrant, Error, Granted, granted, failed, token_invalid,
  duplicate, oauth_code, oauth_client, get_account, grant_client_token, revoke_token,
  approve_and_create_code, sweep_unapproved,
}

-- What the standard library answers: HashSecret is SHA-256 and S256Challenge its base64url; the tests on
-- runes of unicode; strconv, and a time's date.
pub record Library : Type 0 where
  pub hash_secret : Text → Text
  pub s256_challenge : Text → Text
  pub is_control : ℕ → Bool
  pub is_space : ℕ → Bool
  pub decimal : ℕ → Text
  pub date_only : ℕ → Text

pub record GrantRequest : Type 0 where
  pub client_id : ℕ
  pub code : Text
  pub redirect_uri : Text
  pub verifier : Text
  pub resource : Text

-- `internal` is any error that is not a refusal.
pub data Answer : Type 0 where
  minted : Text → ApiToken → Answer
  grant_invalid email_unverified internal : Answer

abbrev pub code_lifetime : ℕ
code_lifetime = 60 * second

abbrev pub client_retention : ℕ
client_retention = 7 * (24 * (3600 * second))

abbrev pub max_client_name_len : ℕ
max_client_name_len = 64

abbrev pub grant_name_attempts : ℕ
grant_name_attempts = 50

abbrev pub api_token_prefix : Text
api_token_prefix = codes "dpl_"

abbrev pub space : ℕ
space = b' '

abbrev pub flush : Text → List Text → List Text
flush word rest = if is_nil word then rest else reverse word ∷ rest

abbrev pub join_space : List Text → Text
join_space [] = []
join_space (w ∷ []) = w
join_space (w ∷ v ∷ ws) = w ++ (space ∷ join_space (v ∷ ws))

module _ (lib : Library) where
  -- The switch on one rune.
  abbrev pub clean_rune : ℕ → Text
  clean_rune r =
      if r == 9 || r == 10 || r == 13 then space ∷ [] else if lib.is_control r then [] else r ∷ []

  abbrev pub clean_runes : Text → Text
  clean_runes [] = []
  clean_runes (r ∷ rs) = clean_rune r ++ clean_runes rs

  -- strings.Fields; `word` is the word so far, its last rune first.
  abbrev pub fields_from : Text → Text → List Text
  fields_from word [] = flush word []
  fields_from word (r ∷ rs) =
      let next = fields_from [] rs in
      let more = fields_from (r ∷ word) rs in if lib.is_space r then flush word next else more

  abbrev pub drop_space : Text → Text
  drop_space [] = []
  drop_space (r ∷ rs) = let rest = drop_space rs in if lib.is_space r then rest else r ∷ rs

  -- strings.TrimSpace.
  abbrev pub trim_runes : Text → Text
  trim_runes s = reverse (drop_space (reverse (drop_space s)))

  abbrev pub too_long : Text → Bool
  too_long cleaned = ltb max_client_name_len (length cleaned)

  unfoldable pub clean_client_name : Text → Text
  clean_client_name name =
      let cleaned = join_space (fields_from [] (clean_runes name)) in
      if too_long cleaned then trim_runes (take max_client_name_len cleaned) else cleaned

  abbrev pub label_or : Text → Text
  label_or label = if is_nil label then codes "Connector" else label

  unfoldable pub connector_token_name : Text → ℕ → Text
  unfolding clean_client_name
  connector_token_name client_name now =
      label_or (clean_client_name client_name) ++ (space ∷ lib.date_only now)

  unfoldable pub verify_pkce : Text → Text → Bool
  verify_pkce challenge verifier =
      if is_nil challenge || is_nil verifier
      then false
      else text_eq challenge (lib.s256_challenge verifier)

  -- The name of the attempt numbered i.
  abbrev pub attempt_name : Text → ℕ → Text
  attempt_name base i =
      if i == 0 then base else base ++ (codes " (" ++ (lib.decimal (i + 1) ++ codes ")"))

  abbrev pub api_token : Text → Text
  api_token secret = api_token_prefix ++ secret

  abbrev pub client_grant : Text → Account → OAuthClient → Text → Text → ClientGrant
  client_grant h a client raw name = record {
    code_hash = h;
    account_id = a.id;
    client_id = client.id;
    name = name;
    token_hash = lib.hash_secret raw;
    token_prefix = take 8 raw;
  }

  -- The switch on what the store answers; `rest` is the next attempt.
  abbrev pub settled : Text → Db → Answer × Db → Granted × Db → Answer × Db
  settled raw before rest (granted t, db) = (minted raw t, db)
  settled raw before rest (failed duplicate, db) = rest
  settled raw before rest (failed token_invalid, db) = (grant_invalid, before)
  settled raw before rest (failed _, db) = (internal, before)

  -- The attempts from number i on, n of them.
  unfoldable pub attempts : ℕ → Text → Account → OAuthClient → Text → Db → ℕ → ℕ → Answer × Db
  attempts now h a client raw db zero i = (internal, db)
  attempts now h a client raw db (suc n) i =
      let rest = attempts now h a client raw db n (i + 1) in
      let name = attempt_name (connector_token_name client.name now) i in
      settled raw db rest (grant_client_token now (client_grant h a client raw name) db)

  -- prepareMint, and the attempts. `secret` is what NewSecret draws, if it can.
  abbrev pub mint : ℕ → Text → Account → OAuthClient → Option Text → Db → Answer × Db
  mint now h a client none db = (internal, db)
  mint now h a client (some secret) db =
      attempts now h a client (api_token secret) db grant_name_attempts 0

  abbrev pub prepare_mint : ℕ → Text → Account → OAuthClient → Option Text → Db → Answer × Db
  prepare_mint now h a client secret db =
      if not (is_nil (deref a.email)) && not (is_some a.email_verified_at)
      then (email_unverified, db)
      else mint now h a client secret db

  -- AccountByID, and then OAuthClient.
  abbrev pub with_rows :
      ℕ → Text → Option Text → Db → Option Account → Option OAuthClient → Answer × Db
  with_rows now h secret db none client = (internal, db)
  with_rows now h secret db (some a) none = (internal, db)
  with_rows now h secret db (some a) (some client) = prepare_mint now h a client secret db

  abbrev pub revoke_replayed : ℕ → Option ℕ → Db → Db
  revoke_replayed now none db = db
  revoke_replayed now (some id) db = (revoke_token now id db).1

  -- The checks of the row against the request.
  abbrev pub mismatched : ℕ → GrantRequest → OAuthCode → Bool
  mismatched now req c =
      not (c.client_id == req.client_id)
      || not (text_eq c.redirect_uri req.redirect_uri)
      || not (ltb now c.expires_at)
      || (not (is_nil req.resource) && not (text_eq req.resource c.resource))
      || not (verify_pkce c.code_challenge req.verifier)

  abbrev pub judge : ℕ → Text → GrantRequest → Option Text → Db → Option OAuthCode → Answer × Db
  judge now h req secret db none = (grant_invalid, db)
  judge now h req secret db (some c) =
      if is_some c.consumed_at
      then (
        grant_invalid,
        if verify_pkce c.code_challenge req.verifier then db else revoke_replayed now c.token_id db,
      )
      else if mismatched now req c
      then (grant_invalid, db)
      else with_rows now h secret db (get_account c.account_id db) (oauth_client c.client_id db)

  unfoldable pub grant : ℕ → GrantRequest → Option Text → Db → Answer × Db
  unfolding attempts verify_pkce
  grant now req secret db =
      let h = lib.hash_secret req.code in judge now h req secret db (oauth_code h db)

  -- The raw code, if it could be drawn and written.
  abbrev pub approved_with : Text → Db → Option Error × Db → Option Text × Db
  approved_with raw before (none, db) = (some raw, db)
  approved_with raw before (some e, db) = (none, before)

  -- ApproveClient.
  unfoldable pub approve_client :
      ℕ → ℕ → ℕ → Text → Text → Text → Option Text → Db → Option Text × Db
  approve_client now client account redirect_uri challenge resource none db = (none, db)
  approve_client now client account redirect_uri challenge resource (some raw) db =
      approved_with raw db (
        approve_and_create_code now
          (record {
            code_hash = lib.hash_secret raw;
            client_id = client;
            account_id = account;
            redirect_uri = redirect_uri;
            code_challenge = challenge;
            resource = resource;
            expires_at = now + code_lifetime;
          })
          db)

-- SweepClients.
abbrev pub sweep_clients : ℕ → Db → Db
sweep_clients now db = sweep_unapproved (now - client_retention) db
