-- ===== src/OAuth/Grant/Once.antt =====
-- A code that was exchanged is never exchanged again.
use deployer.Base.{
  List, Text, Bool, Bool-cases, inl, inr, some, false, [], ◌∷◌, ◌+◌, ◌≡◌, ℕ, zero, suc, All, any,
  text_eq, arith, refl, Option, is_nil, is_some, none, not, true, ◌&&◌, ◌≤◌,
}
use deployer.Store.Table.{update_by}
use deployer.Store.Distinct.{none-update, all-update, any-weaken}
use deployer.Accounts.{Account}
use deployer.OAuth.{
  Db, OAuthClient, OAuthCode, ClientGrant, NewOAuthCode, Granted, granted, failed, token_invalid,
  not_found, duplicate, constraint, grant_client_token, revoke_token, approve_and_create_code,
  sweep_unapproved, create_oauth_client, usable, spent, with_token, has_code, keep_if, spared,
  refuses_code, live_client, repeats, token_revoked, oauth_code, get_account, oauth_client,
}
use deployer.Bootstrap.{ApiToken}
use deployer.OAuth.Grant.{
  Library, Answer, minted, settled, attempts, client_grant, attempt_name, connector_token_name,
  mint, with_rows, GrantRequest, grant, api_token, deref, judge, grant_name_attempts,
  email_unverified, grant_invalid, mismatched,
}
use deployer.OAuth.Grant.Steps.{Op, act_all, approve, act_all-keeps}

-- From that time on no row answers to the hash.
abbrev pub IsDead : ℕ → Text → Db → Type 0
IsDead now h db = any (usable now h) db.codes ≡ false

with_token-IsDead :
    (now : ℕ) (h k : Text) (id : ℕ) (l : List OAuthCode)
    → any (usable now h) l ≡ false
    → any (usable now h) (with_token k id l) ≡ false
with_token-IsDead now h k id l d =
    none-update (usable now h) (has_code k) (λ (c : OAuthCode). record c { token_id = some id }) l
      (λ c e. ground arith) d

grant_client_token-IsDead :
    (then_ : ℕ) (h : Text) (now : ℕ) (g : ClientGrant) (db : Db)
    → IsDead then_ h db
    → IsDead then_ h (grant_client_token now g db).1
unfolding grant_client_token
grant_client_token-IsDead then_ h now g db d =
    elim (Bool-cases (any (usable now g.code_hash) db.codes)) [
      | inr none_left ↦ rw none_left d
      | inl there ↦
          elim (Bool-cases (
            any (repeats g)
              (update_by (live_client g.account_id g.client_id) (token_revoked now) db.tokens))) [
                | inl taken ↦ rw (there, taken) d
                | inr free ↦
                    rw (there, free)
                      (with_token-IsDead then_ h g.code_hash db.next_id
                        (update_by (usable now g.code_hash) (spent now) db.codes)
                        (none-update (usable then_ h) (usable now g.code_hash) (spent now) db.codes
                          (λ c e. ground arith) d))
              ]
    ]

-- A grant that succeeds leaves its code dead.
granted-IsDead :
    (now : ℕ) (g : ClientGrant) (db : Db) (t : ApiToken)
    → (grant_client_token now g db).0 ≡ granted t
    → IsDead now g.code_hash (grant_client_token now g db).1
unfolding grant_client_token
granted-IsDead now g db t e = elim (Bool-cases (any (usable now g.code_hash) db.codes)) [
  | inr none_left ↦ let no : failed token_invalid ≡ granted t = rw none_left at e in cc no
  | inl there ↦
      elim (Bool-cases (
        any (repeats g)
          (update_by (live_client g.account_id g.client_id) (token_revoked now) db.tokens))) [
            | inl taken ↦ let no : failed duplicate ≡ granted t = rw (there, taken) at e in cc no
            | inr free ↦
                rw (there, free)
                  (with_token-IsDead now g.code_hash g.code_hash db.next_id
                    (update_by (usable now g.code_hash) (spent now) db.codes)
                    (all-update (usable now g.code_hash) (usable now g.code_hash) (spent now)
                      db.codes (λ c. ground arith)))
          ]
]

-- The operation gives no code this hash.
abbrev pub Spares : Text → Op → Type 0
Spares h (approve now n) = text_eq h n.code_hash ≡ false
Spares h _ = Unit

keep_if-IsDead :
    (now : ℕ) (h : Text) (p : OAuthCode → Bool) (l : List OAuthCode)
    → any (usable now h) l ≡ false
    → any (usable now h) (keep_if p l) ≡ false
keep_if-IsDead now h p [] d = refl
keep_if-IsDead now h p (c ∷ l) d = ground (arith, keep_if-IsDead now h p l)

approve-IsDead :
    (then_ : ℕ) (h : Text) (now : ℕ) (n : NewOAuthCode) (db : Db)
    → text_eq h n.code_hash ≡ false
    → IsDead then_ h db
    → IsDead then_ h (approve_and_create_code now n db).1
unfolding approve_and_create_code
approve-IsDead then_ h now n db other d = elim (Bool-cases (refuses_code n db)) [
  | inl refused ↦ rw refused d
  | inr fine ↦ rw fine (ground (arith, other, d))
]

act_all-IsDead :
    (lib : Library) (then_ : ℕ) (h : Text) (ops : List Op) (db : Db)
    → All (Spares h) ops
    → IsDead then_ h db
    → IsDead then_ h (act_all lib ops db)
unfolding revoke_token create_oauth_client sweep_unapproved
act_all-IsDead lib then_ h ops db spares d =
    act_all-keeps lib (IsDead then_ h) (grant_client_token-IsDead then_ h)
      (λ now id b e. ground (arith, e)) (Spares h)
      (λ now n b f e. approve-IsDead then_ h now n b f e) (λ now name uris b e. e)
      (λ cutoff b e. keep_if-IsDead then_ h (spared cutoff b.clients) b.codes e) ops db spares d

module _ (lib : Library) where
  settled-IsDead :
      (now : ℕ) (raw : Text) (g : ClientGrant) (db : Db) (rest : Answer × Db) (r : Granted × Db)
      (out : Text) (t : ApiToken)
      → grant_client_token now g db ≡ r
      → (rest.0 ≡ minted out t → IsDead now g.code_hash rest.1)
      → (settled lib raw db rest r).0 ≡ minted out t
      → IsDead now g.code_hash (settled lib raw db rest r).1
  settled-IsDead now raw g db rest (granted u, after) out t e ih h =
      let d = granted-IsDead now g db u (rw e refl) in rw e at d
  settled-IsDead now raw g db rest (failed duplicate, after) out t e ih h = ih h
  settled-IsDead now raw g db rest (failed token_invalid, after) out t e ih h = cc h
  settled-IsDead now raw g db rest (failed not_found, after) out t e ih h = cc h
  settled-IsDead now raw g db rest (failed constraint, after) out t e ih h = cc h

  attempts-IsDead :
      (now : ℕ) (k : Text) (a : Account) (client : OAuthClient) (raw : Text) (db : Db) (n i : ℕ)
      (out : Text) (t : ApiToken)
      → (attempts lib now k a client raw db n i).0 ≡ minted out t
      → IsDead now k (attempts lib now k a client raw db n i).1
  unfolding attempts
  attempts-IsDead now k a client raw db zero i out t h = cc h
  attempts-IsDead now k a client raw db (suc n) i out t h =
      settled-IsDead now raw
        (client_grant lib k a client raw
          (attempt_name lib (connector_token_name lib client.name now) i))
        db (attempts lib now k a client raw db n (i + 1)) _ out t refl
        (attempts-IsDead now k a client raw db n (i + 1) out t) h

  mint-IsDead :
      (now : ℕ) (k : Text) (a : Account) (client : OAuthClient) (secret : Option Text) (db : Db)
      (out : Text) (t : ApiToken)
      → (mint lib now k a client secret db).0 ≡ minted out t
      → IsDead now k (mint lib now k a client secret db).1
  mint-IsDead now k a client none db out t h = cc h
  mint-IsDead now k a client (some secret) db out t h =
      attempts-IsDead now k a client (api_token lib secret) db grant_name_attempts 0 out t h

  with_rows-IsDead :
      (now : ℕ) (k : Text) (secret : Option Text) (db : Db) (a : Option Account)
      (client : Option OAuthClient) (out : Text) (t : ApiToken)
      → (with_rows lib now k secret db a client).0 ≡ minted out t
      → IsDead now k (with_rows lib now k secret db a client).1
  with_rows-IsDead now k secret db none client out t h = cc h
  with_rows-IsDead now k secret db (some a) none out t h = cc h
  with_rows-IsDead now k secret db (some a) (some client) out t h =
      elim (Bool-cases (not (is_nil (deref a.email)) && not (is_some a.email_verified_at))) [
        | inl unverified ↦ let no : email_unverified ≡ minted out t = rw unverified at h in cc no
        | inr fine ↦
            let found : (mint lib now k a client secret db).0 ≡ minted out t = rw fine at h in
            rw fine (mint-IsDead now k a client secret db out t found)
      ]

  judge-IsDead :
      (now : ℕ) (k : Text) (req : GrantRequest) (secret : Option Text) (db : Db)
      (o : Option OAuthCode) (out : Text) (t : ApiToken)
      → (judge lib now k req secret db o).0 ≡ minted out t
      → IsDead now k (judge lib now k req secret db o).1
  judge-IsDead now k req secret db none out t h = cc h
  judge-IsDead now k req secret db (some c) out t h = elim (Bool-cases (is_some c.consumed_at)) [
    | inl gone ↦ let no : grant_invalid ≡ minted out t = rw gone at h in cc no
    | inr there ↦ elim (Bool-cases (mismatched lib now req c)) [
      | inl wrong ↦ let no : grant_invalid ≡ minted out t = rw (there, wrong) at h in cc no
      | inr right ↦
          let found : (with_rows lib now k secret db (get_account c.account_id db)
                (oauth_client c.client_id db)).0
              ≡ minted out t =
            rw (there, right) at h in
          rw (there, right)
            (with_rows-IsDead now k secret db (get_account c.account_id db)
              (oauth_client c.client_id db) out t found)
    ]
  ]

  abbrev pub is_minted : Answer → Bool
  is_minted (minted raw t) = true
  is_minted _ = false

  -- Where the hash is dead, the store refuses the code.
  IsDead-refuses :
      (now : ℕ) (g : ClientGrant) (db : Db)
      → IsDead now g.code_hash db
      → grant_client_token now g db ≡ (failed token_invalid, db)
  unfolding grant_client_token
  IsDead-refuses now g db d = rw d refl

  attempts-refused :
      (now : ℕ) (k : Text) (a : Account) (client : OAuthClient) (raw : Text) (db : Db) (n i : ℕ)
      → IsDead now k db
      → is_minted (attempts lib now k a client raw db n i).0 ≡ false
  unfolding attempts
  attempts-refused now k a client raw db zero i d = refl
  attempts-refused now k a client raw db (suc n) i d =
      rw
        (IsDead-refuses now
          (client_grant lib k a client raw
            (attempt_name lib (connector_token_name lib client.name now) i))
          db d)
        refl

  mint-refused :
      (now : ℕ) (k : Text) (a : Account) (client : OAuthClient) (secret : Option Text) (db : Db)
      → IsDead now k db
      → is_minted (mint lib now k a client secret db).0 ≡ false
  mint-refused now k a client none db d = refl
  mint-refused now k a client (some secret) db d =
      attempts-refused now k a client (api_token lib secret) db grant_name_attempts 0 d

  with_rows-refused :
      (now : ℕ) (k : Text) (secret : Option Text) (db : Db) (a : Option Account)
      (client : Option OAuthClient)
      → IsDead now k db
      → is_minted (with_rows lib now k secret db a client).0 ≡ false
  with_rows-refused now k secret db none client d = refl
  with_rows-refused now k secret db (some a) none d = refl
  with_rows-refused now k secret db (some a) (some client) d =
      elim (Bool-cases (not (is_nil (deref a.email)) && not (is_some a.email_verified_at))) [
        | inl unverified ↦ rw unverified refl
        | inr fine ↦ rw fine (mint-refused now k a client secret db d)
      ]

  judge-refused :
      (now : ℕ) (k : Text) (req : GrantRequest) (secret : Option Text) (db : Db)
      (o : Option OAuthCode)
      → IsDead now k db
      → is_minted (judge lib now k req secret db o).0 ≡ false
  judge-refused now k req secret db none d = refl
  judge-refused now k req secret db (some c) d = elim (Bool-cases (is_some c.consumed_at)) [
    | inl gone ↦ rw gone refl
    | inr there ↦ elim (Bool-cases (mismatched lib now req c)) [
      | inl wrong ↦ rw (there, wrong) refl
      | inr right ↦ rw (there, right) (with_rows-refused now k secret db _ _ d)
    ]
  ]

-- A code that was exchanged for a token is exchanged for none from then on, by whatever request, unless an
-- approval in between draws a code with the same hash.
pub grant-once :
    (lib : Library) (now later : ℕ) (req again : GrantRequest) (secret other : Option Text)
    (ops : List Op) (db : Db) (raw : Text) (t : ApiToken)
    → (grant lib now req secret db).0 ≡ minted raw t
    → again.code ≡ req.code
    → All (Spares (lib.hash_secret req.code)) ops
    → now ≤ later
    → is_minted lib
        (grant lib later again other (act_all lib ops (grant lib now req secret db).1)).0
      ≡ false
unfolding grant
grant-once lib now later req again secret other ops db raw t e same spares le =
    let k = lib.hash_secret req.code in
    let after = (judge lib now k req secret db (oauth_code k db)).1 in
    let d = judge-IsDead lib now k req secret db (oauth_code k db) raw t e in
    let still = act_all-IsDead lib now k ops after spares d in
    let later_dead =
      any-weaken (usable now k) (usable later k) (act_all lib ops after).codes (λ c u. ground arith)
        still in
    rw same (judge-refused lib later k again other (act_all lib ops after) _ later_dead)
