-- ===== src/OAuth/WellFormed.antt =====
-- What holds of the codes and the tokens between two statements.
use deployer.Base.{
  List, Text, Bool, Bool-cases, inl, inr, Option, none, some, true, false, [], ◌∷◌, ◌≡◌, ◌&&◌, ℕ,
  is_some, not, All, any, arith, refl,
}
use deployer.Store.Table.{update_by, All-update}
use deployer.Store.Distinct.{Distinct, Distinct-update, any-weaken, some-update}
use deployer.Bootstrap.{ApiToken, has_hash, live_named}
use deployer.OAuth.{
  Db, OAuthClient, OAuthCode, ClientGrant, NewOAuthCode, has_code, live_client, repeats,
  token_revoked, is_client, grant_client_token, revoke_token, approve_and_create_code,
  create_oauth_client, sweep_unapproved, usable, spent, with_token, refuses_code, to_approve,
  approved, keep_if, stale, spared, live_token,
}
use deployer.OAuth.Grant.{Library}
use deployer.OAuth.Grant.Steps.{Op, act_all, act_all-keeps}

abbrev pub same_hash : ApiToken → ApiToken → Bool
same_hash s t = has_hash s.token_hash t

abbrev pub alive : ApiToken → Bool
alive t = not (is_some t.revoked_at)

-- Two live tokens of an account with one name.
abbrev pub same_name : ApiToken → ApiToken → Bool
same_name s t = alive s && live_named s.account_id s.name t

abbrev pub by_client : Option ℕ → ℕ → ApiToken → Bool
by_client none account t = false
by_client (some client) account t = live_client account client t

-- Two live tokens of an account by one client.
abbrev pub same_client : ApiToken → ApiToken → Bool
same_client s t = alive s && by_client s.oauth_client_id s.account_id t

abbrev pub same_code : OAuthCode → OAuthCode → Bool
same_code c d = has_code c.code_hash d

abbrev pub is_approved : ℕ → OAuthClient → Bool
is_approved id k = is_client id k && is_some k.approved_at

abbrev pub AreApproved : List OAuthClient → List OAuthCode → Type 0
AreApproved clients codes =
    All (λ (c : OAuthCode). any (is_approved c.client_id) clients ≡ true) codes

pub record IsWellFormed (db : Db) : Type 0 where
  pub hashes : Distinct same_hash db.tokens
  pub names : Distinct same_name db.tokens
  pub one_each : Distinct same_client db.tokens
  pub codes : Distinct same_code db.codes
  pub clients : AreApproved db.clients db.codes

module _ (p : ApiToken → Bool) (now : ℕ) (l : List ApiToken) where
  hashes_kept : Distinct same_hash l → Distinct same_hash (update_by p (token_revoked now) l)
  hashes_kept = Distinct-update same_hash p (token_revoked now) l (λ s t h. ground arith)

  names_kept : Distinct same_name l → Distinct same_name (update_by p (token_revoked now) l)
  names_kept = Distinct-update same_name p (token_revoked now) l (λ s t h. ground arith)

  clients_kept : Distinct same_client l → Distinct same_client (update_by p (token_revoked now) l)
  clients_kept = Distinct-update same_client p (token_revoked now) l (λ s t h. ground arith)

-- The codes as a grant leaves them.
spent_codes :
    (p : OAuthCode → Bool) (now : ℕ) (h : Text) (id : ℕ) (l : List OAuthCode)
    → Distinct same_code l
    → Distinct same_code (with_token h id (update_by p (spent now) l))
spent_codes p now h id l d =
    Distinct-update same_code (has_code h) (λ (c : OAuthCode). record c { token_id = some id })
      (update_by p (spent now) l) (λ c e k. ground arith)
      (Distinct-update same_code p (spent now) l (λ c e k. ground arith) d)

spent_clients :
    (clients : List OAuthClient) (p : OAuthCode → Bool) (now : ℕ) (h : Text) (id : ℕ)
    (l : List OAuthCode)
    → AreApproved clients l
    → AreApproved clients (with_token h id (update_by p (spent now) l))
spent_clients clients p now h id l a =
    All-update (λ (c : OAuthCode). any (is_approved c.client_id) clients ≡ true) (has_code h)
      (λ (c : OAuthCode). record c { token_id = some id }) (update_by p (spent now) l) (λ c k. k)
      (All-update (λ (c : OAuthCode). any (is_approved c.client_id) clients ≡ true) p (spent now) l
        (λ c k. k) a)

grant_client_token-IsWellFormed :
    (now : ℕ) (g : ClientGrant) (db : Db)
    → IsWellFormed db
    → IsWellFormed (grant_client_token now g db).1
unfolding grant_client_token
grant_client_token-IsWellFormed now g db w =
    let p = live_client g.account_id g.client_id in
    let tokens = update_by p (token_revoked now) db.tokens in
    elim (Bool-cases (any (usable now g.code_hash) db.codes)) [
      | inr none_left ↦ rw none_left w
      | inl there ↦ elim (Bool-cases (any (repeats g) tokens)) [
        | inl taken ↦ rw (there, taken) w
        | inr free ↦
            rw (there, free)
              (record {
                hashes = (
                  any-weaken (repeats g) (has_hash g.token_hash) tokens (λ t h. ground arith) free,
                  hashes_kept p now db.tokens w.hashes,
                );
                names = (
                  any-weaken (repeats g) (live_named g.account_id g.name) tokens
                      (λ t h. ground arith) free,
                  names_kept p now db.tokens w.names,
                );
                one_each = (
                  any-weaken (repeats g) p tokens (λ t h. ground arith) free,
                  clients_kept p now db.tokens w.one_each,
                );
                codes =
                    spent_codes (usable now g.code_hash) now g.code_hash db.next_id db.codes
                      w.codes;
                clients =
                    spent_clients db.clients (usable now g.code_hash) now g.code_hash db.next_id
                      db.codes w.clients;
              })
      ]
    ]

revoke_token-IsWellFormed :
    (now id : ℕ) (db : Db) → IsWellFormed db → IsWellFormed (revoke_token now id db).1
unfolding revoke_token
revoke_token-IsWellFormed now id db w = elim (Bool-cases (any (live_token id) db.tokens)) [
  | inr gone ↦ rw gone w
  | inl there ↦ rw there (record {
    hashes = hashes_kept (live_token id) now db.tokens w.hashes;
    names = names_kept (live_token id) now db.tokens w.names;
    one_each = clients_kept (live_token id) now db.tokens w.one_each;
    codes = w.codes;
    clients = w.clients;
  })
]

All-mono :
    (P Q : OAuthCode → Type 0) (l : List OAuthCode)
    → ((c : OAuthCode) → P c → Q c)
    → All P l
    → All Q l
All-mono P Q [] f a = tt
All-mono P Q (c ∷ l) f a = (f c a.0, All-mono P Q l f a.1)

approved_after :
    (now id : ℕ) (l : List OAuthClient)
    → any (is_client id) l ≡ true
    → any (is_approved id) (update_by (to_approve id) (approved now) l) ≡ true
unfolding update_by
approved_after now id [] h = h
approved_after now id (k ∷ l) h = ground (arith, approved_after now id l)

client_known :
    (n : NewOAuthCode) (db : Db)
    → refuses_code n db ≡ false
    → (any (has_code n.code_hash) db.codes ≡ false)
      × (any (is_client n.client_id) db.clients ≡ true)
client_known n db h = ground arith

approve-IsWellFormed :
    (now : ℕ) (n : NewOAuthCode) (db : Db)
    → IsWellFormed db
    → IsWellFormed (approve_and_create_code now n db).1
unfolding approve_and_create_code
approve-IsWellFormed now n db w = elim (Bool-cases (refuses_code n db)) [
  | inl refused ↦ rw refused w
  | inr fine ↦
      let known = client_known n db fine in
      rw fine (record {
        hashes = w.hashes;
        names = w.names;
        one_each = w.one_each;
        codes = (known.0, w.codes);
        clients = (
          approved_after now n.client_id db.clients known.1,
          All-mono _ _ db.codes
              (λ c k.
                some-update (is_approved c.client_id) (to_approve n.client_id) (approved now)
                  db.clients (λ m e. ground arith) k)
              w.clients,
        );
      })
]

-- Filtering.
keep_if-any {ℓ} :
    {A : Type ℓ} (q p : A → Bool) (l : List A) → any q l ≡ false → any q (keep_if p l) ≡ false
keep_if-any q p [] h = refl
keep_if-any q p (a ∷ l) h = ground (arith, keep_if-any q p l)

Distinct-keep :
    (p : OAuthCode → Bool) (l : List OAuthCode)
    → Distinct same_code l
    → Distinct same_code (keep_if p l)
Distinct-keep p [] d = tt
Distinct-keep p (c ∷ l) d = elim (Bool-cases (p c)) [
  | inl kept ↦ rw kept (keep_if-any (same_code c) p l d.0, Distinct-keep p l d.1)
  | inr gone ↦ rw gone (Distinct-keep p l d.1)
]

All-keep :
    (P : OAuthCode → Type 0) (p : OAuthCode → Bool) (l : List OAuthCode)
    → All P l
    → All P (keep_if p l)
All-keep P p [] a = tt
All-keep P p (c ∷ l) a = elim (Bool-cases (p c)) [
  | inl kept ↦ rw kept (a.0, All-keep P p l a.1)
  | inr gone ↦ rw gone (All-keep P p l a.1)
]

approved_stays :
    (cutoff id : ℕ) (l : List OAuthClient)
    → any (is_approved id) l ≡ true
    → any (is_approved id) (keep_if (λ (k : OAuthClient). not (stale cutoff k)) l) ≡ true
approved_stays cutoff id [] h = h
approved_stays cutoff id (k ∷ l) h = ground (arith, approved_stays cutoff id l)

sweep-IsWellFormed :
    (cutoff : ℕ) (db : Db) → IsWellFormed db → IsWellFormed (sweep_unapproved cutoff db)
unfolding sweep_unapproved
sweep-IsWellFormed cutoff db w = record {
  hashes = w.hashes;
  names = w.names;
  one_each = w.one_each;
  codes = Distinct-keep (spared cutoff db.clients) db.codes w.codes;
  clients =
      All-keep _ (spared cutoff db.clients) db.codes
        (All-mono _ _ db.codes (λ c k. approved_stays cutoff c.client_id db.clients k) w.clients);
}

register-IsWellFormed :
    (now : ℕ) (name : Text) (uris : List Text) (db : Db)
    → IsWellFormed db
    → IsWellFormed (create_oauth_client now name uris db).1
unfolding create_oauth_client
register-IsWellFormed now name uris db w = record {
  hashes = w.hashes;
  names = w.names;
  one_each = w.one_each;
  codes = w.codes;
  clients = All-mono _ _ db.codes (λ c k. ground (arith, k)) w.clients;
}

all_units : (ops : List Op) → All (λ (o : Op). Unit {0}) ops
all_units [] = tt
all_units (o ∷ ops) = (tt, all_units ops)

-- After any sequence of registrations, approvals, exchanges, revocations and sweeps: no two tokens have one
-- hash, no account has two live tokens of one name nor two by one client, no two codes have one hash, and the
-- client of every code is there and approved, if all that held before.
pub exchanges-IsWellFormed :
    (lib : Library) (ops : List Op) (db : Db) → IsWellFormed db → IsWellFormed (act_all lib ops db)
exchanges-IsWellFormed lib ops db w =
    act_all-keeps lib IsWellFormed grant_client_token-IsWellFormed revoke_token-IsWellFormed
      (λ (o : Op). Unit {0}) (λ now n b f u. approve-IsWellFormed now n b u) register-IsWellFormed
      sweep-IsWellFormed ops db (all_units ops) w
