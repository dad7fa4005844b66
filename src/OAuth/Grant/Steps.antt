-- ===== src/OAuth/Grant/Steps.antt =====
-- Exchanges, approvals, registrations, revocations and sweeps, in any order, and what all of them keep.
use deployer.Base.{
  List, Text, Bool-cases, inl, inr, Option, none, some, [], ◌∷◌, ◌+◌, ℕ, zero, suc, is_some, is_nil,
  not, ◌&&◌, All,
}
use deployer.Accounts.{Account}
use deployer.Accounts.Service.{deref}
use deployer.OAuth.{
  Db, OAuthClient, OAuthCode, ClientGrant, NewOAuthCode, Granted, granted, failed, token_invalid,
  not_found, duplicate, constraint, grant_client_token, revoke_token, approve_and_create_code,
  sweep_unapproved, create_oauth_client,
}
use deployer.OAuth.Grant.{
  Library, GrantRequest, Answer, settled, attempts, mint, with_rows, revoke_replayed, mismatched,
  judge, grant, api_token, grant_name_attempts, verify_pkce,
}

pub data Op : Type 0 where
  register : ℕ → Text → List Text → Op
  approve : ℕ → NewOAuthCode → Op
  exchange : ℕ → GrantRequest → Option Text → Op
  revoke : ℕ → ℕ → Op
  sweep : ℕ → Op

abbrev pub act : Library → Op → Db → Db
act lib (register now name uris) db = (create_oauth_client now name uris db).1
act lib (approve now n) db = (approve_and_create_code now n db).1
act lib (exchange now req secret) db = (grant lib now req secret db).1
act lib (revoke now id) db = (revoke_token now id db).1
act lib (sweep cutoff) db = sweep_unapproved cutoff db

abbrev pub act_all : Library → List Op → Db → Db
act_all lib [] db = db
act_all lib (o ∷ ops) db = act_all lib ops (act lib o db)

module _ {κ} (lib : Library) (P : Db → Type κ)
    (keep_grant : (now : ℕ) (g : ClientGrant) (db : Db) → P db → P (grant_client_token now g db).1)
    (keep_revoke : (now id : ℕ) (db : Db) → P db → P (revoke_token now id db).1) where
  settled-keeps :
      (raw : Text) (before : Db) (rest : Answer × Db) (r : Granted × Db)
      → P before
      → P rest.1
      → P r.1
      → P (settled lib raw before rest r).1
  settled-keeps raw before rest (granted t, db) p q w = w
  settled-keeps raw before rest (failed duplicate, db) p q w = q
  settled-keeps raw before rest (failed token_invalid, db) p q w = p
  settled-keeps raw before rest (failed not_found, db) p q w = p
  settled-keeps raw before rest (failed constraint, db) p q w = p

  attempts-keeps :
      (now : ℕ) (h : Text) (a : Account) (client : OAuthClient) (raw : Text) (db : Db) (n i : ℕ)
      → P db
      → P (attempts lib now h a client raw db n i).1
  unfolding attempts
  attempts-keeps now h a client raw db zero i p = p
  attempts-keeps now h a client raw db (suc n) i p =
      settled-keeps raw db (attempts lib now h a client raw db n (i + 1)) _ p
        (attempts-keeps now h a client raw db n (i + 1) p) (keep_grant now _ db p)

  mint-keeps :
      (now : ℕ) (h : Text) (a : Account) (client : OAuthClient) (secret : Option Text) (db : Db)
      → P db
      → P (mint lib now h a client secret db).1
  mint-keeps now h a client none db p = p
  mint-keeps now h a client (some secret) db p =
      attempts-keeps now h a client (api_token lib secret) db grant_name_attempts 0 p

  with_rows-keeps :
      (now : ℕ) (h : Text) (secret : Option Text) (db : Db) (a : Option Account)
      (k : Option OAuthClient)
      → P db
      → P (with_rows lib now h secret db a k).1
  with_rows-keeps now h secret db none k p = p
  with_rows-keeps now h secret db (some a) none p = p
  with_rows-keeps now h secret db (some a) (some client) p =
      elim (Bool-cases (not (is_nil (deref a.email)) && not (is_some a.email_verified_at))) [
        | inl unverified ↦ rw unverified p
        | inr fine ↦ rw fine (mint-keeps now h a client secret db p)
      ]

  revoke_replayed-keeps :
      (now : ℕ) (id : Option ℕ) (db : Db) → P db → P (revoke_replayed lib now id db)
  revoke_replayed-keeps now none db p = p
  revoke_replayed-keeps now (some id) db p = keep_revoke now id db p

  judge-keeps :
      (now : ℕ) (h : Text) (req : GrantRequest) (secret : Option Text) (db : Db)
      (o : Option OAuthCode)
      → P db
      → P (judge lib now h req secret db o).1
  judge-keeps now h req secret db none p = p
  judge-keeps now h req secret db (some c) p = elim (Bool-cases (is_some c.consumed_at)) [
    | inl gone ↦ elim (Bool-cases (verify_pkce lib c.code_challenge req.verifier)) [
      | inl proved ↦ rw (gone, proved) p
      | inr not_so ↦ rw (gone, not_so) (revoke_replayed-keeps now c.token_id db p)
    ]
    | inr there ↦ elim (Bool-cases (mismatched lib now req c)) [
      | inl wrong ↦ rw (there, wrong) p
      | inr right ↦ rw (there, right) (with_rows-keeps now h secret db _ _ p)
    ]
  ]

  pub grant-keeps :
      (now : ℕ) (req : GrantRequest) (secret : Option Text) (db : Db)
      → P db
      → P (grant lib now req secret db).1
  unfolding grant
  grant-keeps now req secret db p = judge-keeps now (lib.hash_secret req.code) req secret db _ p

  module _ (Fits : Op → Type κ)
      (keep_approve : (now : ℕ) (n : NewOAuthCode) (db : Db)
        → Fits (approve now n)
        → P db
        → P (approve_and_create_code now n db).1)
      (keep_register : (now : ℕ) (name : Text) (uris : List Text) (db : Db)
        → P db
        → P (create_oauth_client now name uris db).1)
      (keep_sweep : (cutoff : ℕ) (db : Db) → P db → P (sweep_unapproved cutoff db)) where
    pub act-keeps : (o : Op) (db : Db) → Fits o → P db → P (act lib o db)
    act-keeps (register now name uris) db f p = keep_register now name uris db p
    act-keeps (approve now n) db f p = keep_approve now n db f p
    act-keeps (exchange now req secret) db f p = grant-keeps now req secret db p
    act-keeps (revoke now id) db f p = keep_revoke now id db p
    act-keeps (sweep cutoff) db f p = keep_sweep cutoff db p

    pub act_all-keeps : (ops : List Op) (db : Db) → All Fits ops → P db → P (act_all lib ops db)
    act_all-keeps [] db f p = p
    act_all-keeps (o ∷ ops) db f p = act_all-keeps ops (act lib o db) f.1 (act-keeps o db f.0 p)
