-- ===== src/OAuth/Grant/Replay.antt =====
-- A spent code that comes back without its verifier costs the token that it was exchanged for.
use deployer.Base.{
  List, Text, Bool, Bool-cases, inl, inr, some, true, false, [], ◌∷◌, ◌+◌, ◌≡◌, ℕ, zero, suc,
  is_some, any, arith, refl, ◌∙◌, ap, Option, is_nil, ltb, none, not, ◌&&◌, ◌||◌,
}
use deployer.Store.Table.{find_by, update_by, find_by_sound}
use deployer.Store.Distinct.{updated, all-update}
use deployer.Accounts.{Account}
use deployer.Bootstrap.{ApiToken}
use deployer.OAuth.{
  Db, OAuthClient, OAuthCode, ClientGrant, Granted, granted, failed, token_invalid, not_found,
  duplicate, constraint, oauth_code, grant_client_token, usable, spent, has_code, live_client,
  repeats, token_revoked, granted_row, revoke_token, live_token, get_account, oauth_client,
}
use deployer.OAuth.Grant.{
  Library, Answer, minted, settled, attempts, client_grant, attempt_name, connector_token_name,
  with_rows, GrantRequest, grant, deref, judge, verify_pkce, email_unverified, grant_invalid,
  internal, mismatched, mint, api_token, grant_name_attempts,
}

-- The row that a SELECT finds, after an UPDATE that keeps what it is found by.
find-update :
    (q p : OAuthCode → Bool) (f : OAuthCode → OAuthCode) (l : List OAuthCode) (c : OAuthCode)
    → ((x : OAuthCode) → q (updated p f x) ≡ q x)
    → find_by q l ≡ some c
    → find_by q (update_by p f l) ≡ some (updated p f c)
unfolding find_by update_by
find-update q p f [] c keep h = cc
find-update q p f (x ∷ l) c keep h = elim (Bool-cases (q x)) [
  | inl hit ↦
      let here : some x ≡ some c = rw hit at h in
      let same : x ≡ c = cc here in
      let met : q (updated p f x) ≡ true = keep x ∙ hit in rw (met, same) refl
  | inr miss ↦
      let there : find_by q l ≡ some c = rw miss at h in
      let unmet : q (updated p f x) ≡ false = keep x ∙ miss in
      rw unmet (find-update q p f l c keep there)
]

-- The code is recorded as exchanged for the token.
abbrev pub Recorded : Text → OAuthCode → ApiToken → Db → Type 0
Recorded h c t db =
    (d : OAuthCode) × (oauth_code h db ≡ some d)
    × (is_some d.consumed_at ≡ true)
    × (d.token_id ≡ some t.id)
    × (d.code_challenge ≡ c.code_challenge)

exchanged : ℕ → Text → ℕ → OAuthCode → OAuthCode
exchanged now h id c =
    updated (has_code h) (λ (x : OAuthCode). record x { token_id = some id })
      (updated (usable now h) (spent now) c)

exchanged-fields :
    (now : ℕ) (h : Text) (id : ℕ) (c : OAuthCode)
    → usable now h c ≡ true
    → (is_some (exchanged now h id c).consumed_at ≡ true)
      × ((exchanged now h id c).token_id ≡ some id)
      × ((exchanged now h id c).code_challenge ≡ c.code_challenge)
unfolding exchanged
exchanged-fields now h id c u = ground arith

grant_client_token-Recorded :
    (now : ℕ) (g : ClientGrant) (db : Db) (c : OAuthCode) (t : ApiToken)
    → oauth_code g.code_hash db ≡ some c
    → usable now g.code_hash c ≡ true
    → (grant_client_token now g db).0 ≡ granted t
    → Recorded g.code_hash c t (grant_client_token now g db).1
unfolding grant_client_token oauth_code exchanged
grant_client_token-Recorded now g db c t found u e =
    elim (Bool-cases (any (usable now g.code_hash) db.codes)) [
      | inr none_left ↦ let no : failed token_invalid ≡ granted t = rw none_left at e in cc no
      | inl there ↦
          elim (Bool-cases (
            any (repeats g)
              (update_by (live_client g.account_id g.client_id) (token_revoked now) db.tokens))) [
                | inl taken ↦
                    let no : failed duplicate ≡ granted t = rw (there, taken) at e in cc no
                | inr free ↦
                    let is : granted (granted_row db.next_id now g) ≡ granted t =
                      rw (there, free) at e in
                    let row : granted_row db.next_id now g ≡ t = cc is in
                    let id : some db.next_id ≡ some t.id = ap (λ (x : ApiToken). some x.id) row in
                    let fields = exchanged-fields now g.code_hash db.next_id c u in
                    rw (there, free)
                      (
                        exchanged now g.code_hash db.next_id c,
                        find-update (has_code g.code_hash) (has_code g.code_hash)
                            (λ (x : OAuthCode). record x { token_id = some db.next_id })
                            (update_by (usable now g.code_hash) (spent now) db.codes)
                            (updated (usable now g.code_hash) (spent now) c) (λ x. ground arith)
                            (find-update (has_code g.code_hash) (usable now g.code_hash) (spent now)
                              db.codes c (λ x. ground arith) found),
                        fields.0,
                        fields.1 ∙ id,
                        fields.2,
                      )
              ]
    ]

module _ (lib : Library) where
  settled-Recorded :
      (raw : Text) (h : Text) (c : OAuthCode) (db : Db) (rest : Answer × Db) (r : Granted × Db)
      (out : Text) (t : ApiToken)
      → ((u : ApiToken) → r.0 ≡ granted u → Recorded h c u r.1)
      → (rest.0 ≡ minted out t → Recorded h c t rest.1)
      → (settled lib raw db rest r).0 ≡ minted out t
      → Recorded h c t (settled lib raw db rest r).1
  settled-Recorded raw h c db rest (granted u, after) out t w ih e =
      let same : u ≡ t = cc e in w t (ap granted same)
  settled-Recorded raw h c db rest (failed duplicate, after) out t w ih e = ih e
  settled-Recorded raw h c db rest (failed token_invalid, after) out t w ih e = cc e
  settled-Recorded raw h c db rest (failed not_found, after) out t w ih e = cc e
  settled-Recorded raw h c db rest (failed constraint, after) out t w ih e = cc e

  attempts-Recorded :
      (now : ℕ) (h : Text) (c : OAuthCode) (a : Account) (client : OAuthClient) (raw : Text)
      (db : Db) (n i : ℕ) (out : Text) (t : ApiToken)
      → oauth_code h db ≡ some c
      → usable now h c ≡ true
      → (attempts lib now h a client raw db n i).0 ≡ minted out t
      → Recorded h c t (attempts lib now h a client raw db n i).1
  unfolding attempts
  attempts-Recorded now h c a client raw db zero i out t found u e = cc e
  attempts-Recorded now h c a client raw db (suc n) i out t found u e =
      let name = attempt_name lib (connector_token_name lib client.name now) i in
      settled-Recorded raw h c db (attempts lib now h a client raw db n (i + 1)) _ out t
        (λ v k.
          grant_client_token-Recorded now (client_grant lib h a client raw name) db c v found u k)
        (attempts-Recorded now h c a client raw db n (i + 1) out t found u) e

  with_rows-Recorded :
      (now : ℕ) (h : Text) (c : OAuthCode) (secret : Option Text) (db : Db) (a : Option Account)
      (client : Option OAuthClient) (out : Text) (t : ApiToken)
      → oauth_code h db ≡ some c
      → usable now h c ≡ true
      → (with_rows lib now h secret db a client).0 ≡ minted out t
      → Recorded h c t (with_rows lib now h secret db a client).1
  with_rows-Recorded now h c secret db none client out t found u e = cc e
  with_rows-Recorded now h c secret db (some a) none out t found u e = cc e
  with_rows-Recorded now h c none db (some a) (some client) out t found u e =
      elim (Bool-cases (not (is_nil (deref a.email)) && not (is_some a.email_verified_at))) [
        | inl unverified ↦ let no : email_unverified ≡ minted out t = rw unverified at e in cc no
        | inr fine ↦ let no : internal ≡ minted out t = rw fine at e in cc no
      ]
  with_rows-Recorded now h c (some secret) db (some a) (some client) out t found u e =
      elim (Bool-cases (not (is_nil (deref a.email)) && not (is_some a.email_verified_at))) [
        | inl unverified ↦ let no : email_unverified ≡ minted out t = rw unverified at e in cc no
        | inr fine ↦
            let got : (mint lib now h a client (some secret) db).0 ≡ minted out t = rw fine at e in
            rw fine (
              attempts-Recorded now h c a client (api_token lib secret) db grant_name_attempts 0 out
                t found u got)
      ]

  timely : (p q r s t : Bool) → (not p || not q || not r || s || not t) ≡ false → r ≡ true
  timely p q r s t h = ground arith

  judge-Recorded :
      (now : ℕ) (req : GrantRequest) (secret : Option Text) (db : Db) (c : OAuthCode) (out : Text)
      (t : ApiToken)
      → oauth_code (lib.hash_secret req.code) db ≡ some c
      → (judge lib now (lib.hash_secret req.code) req secret db (some c)).0 ≡ minted out t
      → Recorded
          (lib.hash_secret req.code)
          c
          t
          (judge lib now (lib.hash_secret req.code) req secret db (some c)).1
  unfolding oauth_code
  judge-Recorded now req secret db c out t found e = elim (Bool-cases (is_some c.consumed_at)) [
    | inl gone ↦ let no : grant_invalid ≡ minted out t = rw gone at e in cc no
    | inr there ↦ elim (Bool-cases (mismatched lib now req c)) [
      | inl wrong ↦ let no : grant_invalid ≡ minted out t = rw (there, wrong) at e in cc no
      | inr right ↦
          let h = lib.hash_secret req.code in
          let has = find_by_sound (has_code h) db.codes c found in
          let soon = timely _ _ (ltb now c.expires_at) _ _ right in
          let u : usable now h c ≡ true = rw (has, there, soon) refl in
          let got : (with_rows lib now h secret db (get_account c.account_id db)
                (oauth_client c.client_id db)).0
              ≡ minted out t =
            rw (there, right) at e in
          rw (there, right)
            (with_rows-Recorded now h c secret db (get_account c.account_id db)
              (oauth_client c.client_id db) out t found u got)
    ]
  ]

grant-Recorded :
    (lib : Library) (now : ℕ) (req : GrantRequest) (secret : Option Text) (db : Db) (c : OAuthCode)
    (out : Text) (t : ApiToken)
    → oauth_code (lib.hash_secret req.code) db ≡ some c
    → (grant lib now req secret db).0 ≡ minted out t
    → Recorded (lib.hash_secret req.code) c t (grant lib now req secret db).1
unfolding grant
grant-Recorded lib now req secret db c out t found e =
    let got : (judge lib now (lib.hash_secret req.code) req secret db (some c)).0 ≡ minted out t =
      rw found at e in
    rw found (judge-Recorded lib now req secret db c out t found got)

-- No token of that id is live after its revocation.
revoked-gone :
    (now id : ℕ) (db : Db) → any (live_token id) (revoke_token now id db).1.tokens ≡ false
unfolding revoke_token
revoked-gone now id db = elim (Bool-cases (any (live_token id) db.tokens)) [
  | inr gone ↦ rw gone gone
  | inl there ↦
      rw there (
        all-update (live_token id) (live_token id) (token_revoked now) db.tokens
          (λ t. ground arith))
]

replayed-gone :
    (lib : Library) (later : ℕ) (again : GrantRequest) (other : Option Text) (c : OAuthCode)
    (t : ApiToken) (after : Db)
    → Recorded (lib.hash_secret again.code) c t after
    → verify_pkce lib c.code_challenge again.verifier ≡ false
    → ((grant lib later again other after).0 ≡ grant_invalid)
      × (any (live_token t.id) (grant lib later again other after).1.tokens ≡ false)
unfolding grant
replayed-gone lib later again other c t after (d, found, gone, id, challenge) wrong =
    let unproved : verify_pkce lib d.code_challenge again.verifier ≡ false = rw challenge wrong in
    rw (found, gone, unproved, id) (refl, revoked-gone later t.id after)

-- Where a code was exchanged for a token and is presented again by a request whose verifier does not give the
-- code's challenge, the exchange is refused and the token is no longer live.
pub replay-revokes :
    (lib : Library) (now later : ℕ) (req again : GrantRequest) (secret other : Option Text)
    (db : Db) (c : OAuthCode) (raw : Text) (t : ApiToken)
    → oauth_code (lib.hash_secret req.code) db ≡ some c
    → (grant lib now req secret db).0 ≡ minted raw t
    → again.code ≡ req.code
    → verify_pkce lib c.code_challenge again.verifier ≡ false
    → ((grant lib later again other (grant lib now req secret db).1).0 ≡ grant_invalid)
      × (any
            (live_token t.id)
            (grant lib later again other (grant lib now req secret db).1).1.tokens
          ≡ false)
replay-revokes lib now later req again secret other db c raw t found e same wrong =
    replayed-gone lib later again other c t (grant lib now req secret db).1
      (rw same (grant-Recorded lib now req secret db c raw t found e)) wrong
