-- ===== src/OAuth/Grant/Permits.antt =====
-- What a code is exchanged against, and what a refusal leaves.
use deployer.Base.{
  Text, Bool, Bool-cases, inl, inr, Option, none, some, true, false, [], ◌∷◌, ◌+◌, ◌≡◌, ◌<◌, ◌==◌,
  ◌⊎◌, ℕ, zero, suc, is_some, is_nil, not, ◌&&◌, ◌||◌, any, text_eq, text_eq_sound, text_eq_refl,
  ltb, arith, refl,
}
use deployer.Store.Table.{find_by, update_by}
use deployer.Accounts.{Account}
use deployer.Bootstrap.{has_hash}
use deployer.OAuth.{
  Db, OAuthClient, OAuthCode, ClientGrant, Granted, granted, failed, token_invalid, not_found,
  duplicate, constraint, grant_client_token, usable, live_client, repeats, token_revoked,
  oauth_code, get_account, oauth_client,
}
use deployer.OAuth.Grant.{
  Library, GrantRequest, Answer, minted, grant_invalid, email_unverified, internal, settled,
  attempts, mint, mismatched, client_grant, attempt_name, connector_token_name, api_token,
  grant_name_attempts, verify_pkce, deref, grant, judge, revoke_replayed, with_rows,
}

-- The row stands for what the request says, in time, and the request has the proof of who asked for it.
pub record Permits (lib : Library) (now : ℕ) (req : GrantRequest) (c : OAuthCode) : Type 0 where
  pub unspent : c.consumed_at ≡ none
  pub client : c.client_id ≡ req.client_id
  pub redirect : c.redirect_uri ≡ req.redirect_uri
  pub in_time : now < c.expires_at
  pub resource : (req.resource ≡ []) ⊎ (req.resource ≡ c.resource)
  pub proof : c.code_challenge ≡ lib.s256_challenge req.verifier

-- The five tests, one by one.
five :
    (p q r s t : Bool)
    → (not p || not q || not r || s || not t) ≡ false
    → (p ≡ true) × (q ≡ true) × (r ≡ true) × (s ≡ false) × (t ≡ true)
five p q r s t h = ground arith

in_resource : (r s : Text) → (not (is_nil r) && not (text_eq r s)) ≡ false → (r ≡ []) ⊎ (r ≡ s)
in_resource [] s h = inl refl
in_resource (x ∷ r) s h = inr (text_eq_sound (x ∷ r) s (ground arith))

pkce_sound :
    (lib : Library) (challenge verifier : Text)
    → verify_pkce lib challenge verifier ≡ true
    → challenge ≡ lib.s256_challenge verifier
unfolding verify_pkce
pkce_sound lib challenge verifier h = elim (Bool-cases (is_nil challenge || is_nil verifier)) [
  | inl empty ↦ let no : false ≡ true = rw empty at h in cc no
  | inr given ↦
      let e : text_eq challenge (lib.s256_challenge verifier) ≡ true = rw given at h in
      text_eq_sound challenge (lib.s256_challenge verifier) e
]

no_stamp : (o : Option ℕ) → is_some o ≡ false → o ≡ none
no_stamp none h = refl
no_stamp (some x) h = cc

permitted :
    (lib : Library) (now : ℕ) (req : GrantRequest) (c : OAuthCode)
    → is_some c.consumed_at ≡ false
    → mismatched lib now req c ≡ false
    → Permits lib now req c
permitted lib now req c there h =
    let all =
      five (c.client_id == req.client_id) (text_eq c.redirect_uri req.redirect_uri)
        (ltb now c.expires_at) (not (is_nil req.resource) && not (text_eq req.resource c.resource))
        (verify_pkce lib c.code_challenge req.verifier) h in
    record {
      unspent = no_stamp c.consumed_at there;
      client = ground (arith, all.0);
      redirect = text_eq_sound c.redirect_uri req.redirect_uri all.1;
      in_time = ground (arith, all.2);
      resource = in_resource req.resource c.resource all.3;
      proof = pkce_sound lib c.code_challenge req.verifier all.4;
    }

-- A token that is minted is the account's, by the client, under the hash of the value that is handed out, and
-- resolves by it; nothing is written otherwise.
abbrev pub Minted : Library → Account → OAuthClient → Db → Answer × Db → Type 0
Minted lib a client db (minted out t, after) =
    (t.account_id ≡ a.id)
    × (t.oauth_client_id ≡ some client.id)
    × (t.token_hash ≡ lib.hash_secret out)
    × (t.revoked_at ≡ none)
    × (find_by (has_hash (lib.hash_secret out)) after.tokens ≡ some t)
Minted lib a client db (grant_invalid, after) = after ≡ db
Minted lib a client db (email_unverified, after) = after ≡ db
Minted lib a client db (internal, after) = after ≡ db

-- What the store's grant answers.
abbrev pub Written : ClientGrant → Db → Granted × Db → Type 0
Written g db (granted t, after) =
    (t.account_id ≡ g.account_id)
    × (t.oauth_client_id ≡ some g.client_id)
    × (t.token_hash ≡ g.token_hash)
    × (t.revoked_at ≡ none)
    × (find_by (has_hash g.token_hash) after.tokens ≡ some t)
Written g db (failed e, after) = after ≡ db

grant_client_token-Written :
    (now : ℕ) (g : ClientGrant) (db : Db) → Written g db (grant_client_token now g db)
unfolding grant_client_token find_by
grant_client_token-Written now g db = elim (Bool-cases (any (usable now g.code_hash) db.codes)) [
  | inr none_left ↦ rw none_left refl
  | inl there ↦
      elim (Bool-cases (
        any (repeats g)
          (update_by (live_client g.account_id g.client_id) (token_revoked now) db.tokens))) [
            | inl taken ↦ rw (there, taken) refl
            | inr free ↦
                rw (there, free) (refl, refl, refl, refl, rw (text_eq_refl g.token_hash) refl)
          ]
]

module _ (lib : Library) where
  settled-Minted :
      (a : Account) (client : OAuthClient) (h raw name : Text) (db : Db) (rest : Answer × Db)
      (r : Granted × Db)
      → Written (client_grant lib h a client raw name) db r
      → Minted lib a client db rest
      → Minted lib a client db (settled lib raw db rest r)
  settled-Minted a client h raw name db rest (granted t, after) w ih = w
  settled-Minted a client h raw name db rest (failed duplicate, after) w ih = ih
  settled-Minted a client h raw name db rest (failed token_invalid, after) w ih = refl
  settled-Minted a client h raw name db rest (failed not_found, after) w ih = refl
  settled-Minted a client h raw name db rest (failed constraint, after) w ih = refl

  attempts-Minted :
      (now : ℕ) (h : Text) (a : Account) (client : OAuthClient) (raw : Text) (db : Db) (n i : ℕ)
      → Minted lib a client db (attempts lib now h a client raw db n i)
  unfolding attempts
  attempts-Minted now h a client raw db zero i = refl
  attempts-Minted now h a client raw db (suc n) i =
      let name = attempt_name lib (connector_token_name lib client.name now) i in
      settled-Minted a client h raw name db (attempts lib now h a client raw db n (i + 1)) _
        (grant_client_token-Written now (client_grant lib h a client raw name) db)
        (attempts-Minted now h a client raw db n (i + 1))

  mint-Minted :
      (now : ℕ) (h : Text) (a : Account) (client : OAuthClient) (secret : Option Text) (db : Db)
      → Minted lib a client db (mint lib now h a client secret db)
  mint-Minted now h a client none db = refl
  mint-Minted now h a client (some secret) db =
      attempts-Minted now h a client (api_token lib secret) db grant_name_attempts 0

  -- The account has no address, or a confirmed one.
  abbrev pub IsConfirmed : Account → Type 0
  IsConfirmed a = (is_nil (deref a.email) ≡ true) ⊎ (is_some a.email_verified_at ≡ true)

  confirmed : (p q : Bool) → (not p && not q) ≡ false → (p ≡ true) ⊎ (q ≡ true)
  confirmed true q h = inl refl
  confirmed false true h = inr refl
  confirmed false false h = cc

  -- What each answer stands for.
  abbrev pub Told : ℕ → GrantRequest → Db → Answer × Db → Type 0
  Told now req db (minted out t, after) =
      (c : OAuthCode) × (a : Account) × (client : OAuthClient) × (oauth_code
          (lib.hash_secret req.code) db
        ≡ some c)
      × Permits lib now req c
      × (get_account c.account_id db ≡ some a)
      × (oauth_client c.client_id db ≡ some client)
      × IsConfirmed a
      × Minted lib a client db (minted out t, after)
  Told now req db (grant_invalid, after) =
      (after ≡ db)
      ⊎ ((c : OAuthCode) × (oauth_code (lib.hash_secret req.code) db ≡ some c)
          × (is_some c.consumed_at ≡ true)
          × (verify_pkce lib c.code_challenge req.verifier ≡ false)
          × (after ≡ revoke_replayed lib now c.token_id db))
  Told now req db (email_unverified, after) = after ≡ db
  Told now req db (internal, after) = after ≡ db

  told :
      (now : ℕ) (req : GrantRequest) (db : Db) (c : OAuthCode) (a : Account) (client : OAuthClient)
      (r : Answer × Db)
      → oauth_code (lib.hash_secret req.code) db ≡ some c
      → Permits lib now req c
      → get_account c.account_id db ≡ some a
      → oauth_client c.client_id db ≡ some client
      → IsConfirmed a
      → Minted lib a client db r
      → Told now req db r
  told now req db c a client (minted out t, after) found p person is_client fine m =
      (c, a, client, found, p, person, is_client, fine, m)
  told now req db c a client (grant_invalid, after) found p person is_client fine m = inl m
  told now req db c a client (email_unverified, after) found p person is_client fine m = m
  told now req db c a client (internal, after) found p person is_client fine m = m

  with_rows-Told :
      (now : ℕ) (req : GrantRequest) (secret : Option Text) (db : Db) (c : OAuthCode)
      (a : Option Account) (client : Option OAuthClient)
      → oauth_code (lib.hash_secret req.code) db ≡ some c
      → Permits lib now req c
      → get_account c.account_id db ≡ a
      → oauth_client c.client_id db ≡ client
      → Told now req db (with_rows lib now (lib.hash_secret req.code) secret db a client)
  with_rows-Told now req secret db c none client found p person is_client = refl
  with_rows-Told now req secret db c (some a) none found p person is_client = refl
  with_rows-Told now req secret db c (some a) (some client) found p person is_client =
      elim (Bool-cases (not (is_nil (deref a.email)) && not (is_some a.email_verified_at))) [
        | inl unverified ↦ rw unverified refl
        | inr fine ↦ rw fine (
            told now req db c a client _ found p person is_client
              (confirmed (is_nil (deref a.email)) (is_some a.email_verified_at) fine)
              (mint-Minted now (lib.hash_secret req.code) a client secret db))
      ]

  judge-Told :
      (now : ℕ) (req : GrantRequest) (secret : Option Text) (db : Db) (o : Option OAuthCode)
      → oauth_code (lib.hash_secret req.code) db ≡ o
      → Told now req db (judge lib now (lib.hash_secret req.code) req secret db o)
  judge-Told now req secret db none found = inl refl
  judge-Told now req secret db (some c) found = elim (Bool-cases (is_some c.consumed_at)) [
    | inl gone ↦ elim (Bool-cases (verify_pkce lib c.code_challenge req.verifier)) [
      | inl proved ↦ rw (gone, proved) (inl refl)
      | inr not_so ↦ rw (gone, not_so) (inr (c, found, gone, not_so, refl))
    ]
    | inr there ↦ elim (Bool-cases (mismatched lib now req c)) [
      | inl wrong ↦ rw (there, wrong) (inl refl)
      | inr right ↦
          rw (there, right)
            (with_rows-Told now req secret db c _ _ found (permitted lib now req c there right) refl
              refl)
    ]
  ]

-- A token is minted only from a code that is there, is not spent and not past its time, for the client, the
-- redirect address and, if one is named, the resource of the request, whose verifier gives the challenge of
-- the code; it is a live token of the account of the code, which is confirmed or has no address, by the
-- client of the code, and it is the token found by the hash of the value that is handed out. A refusal and a
-- fault change nothing, but for a spent code that comes back without the verifier: that revokes the token
-- that the code was exchanged for, if it records one.
pub grant-Told :
    (lib : Library) (now : ℕ) (req : GrantRequest) (secret : Option Text) (db : Db)
    → Told lib now req db (grant lib now req secret db)
unfolding grant
grant-Told lib now req secret db = judge-Told lib now req secret db _ refl
