-- ===== src/Accounts/Service/SignedIn.antt =====
-- What Login answers, and what it writes.
use deployer.Base.{
  ap, sym, ◌∙◌, text_eq, text_eq_refl, Text, Bool, Bool-cases, inl, inr, Option, none, some, true,
  false, ◌≡◌, ◌+◌, is_nil, is_some, not, ◌&&◌, ℕ, refl, arith, ◌<◌,
}
use deployer.Identity.Limiter.{Limiter, sign_in_settings, locked_out, failed, succeeded}
use deployer.Accounts.{
  Account, Db, Error, get_account_by_email, create_session, resolve_session, account_of,
  session_row,
}
use deployer.Accounts.Service.{
  Crypto, SignIn, Attempt, signed_in, refused, rate_limited, credentials_invalid, email_unverified,
  internal, normalize_email, verify_password, deref, session_lifetime, login, judge, open_with,
  opened,
}
use deployer.Store.Table.{find_by}

-- The password is that of the account, which is neither suspended nor without an address.
abbrev pub belongs : Crypto → Text → Option Account → Bool
belongs c password none = false
belongs c password (some a) =
    verify_password c password (deref a.password_hash)
    && not (is_some a.disabled_at)
    && not (is_nil (deref a.email))

enabled_of :
    (c : Crypto) (password : Text) (a : Account)
    → belongs c password (some a) ≡ true
    → is_some a.disabled_at ≡ false
enabled_of c password a h = ground arith

-- No secret can be drawn, or the INSERT of the session fails.
abbrev pub Unopened : Crypto → ℕ → Account → Option Text → Db → Type 0
Unopened c now a none db = Unit
Unopened c now a (some raw) db =
    (x : Error) × (create_session now a.id (c.hash_secret raw) (now + session_lifetime) db).0
      ≡ some x

module _ (c : Crypto) {T : Type 0} where
  -- What each answer stands for: the account that was found, the tables, the lockout and the hashes spent.
  abbrev pub Judged :
      ℕ → Text → Text → Option Text → Db → Limiter T → SignIn → Db → Limiter T → ℕ → Type 0
  Judged now email password secret db limits (signed_in raw a) after limits' derived =
      (get_account_by_email email db ≡ some a)
      × (belongs c password (some a) ≡ true)
      × (is_some a.email_verified_at ≡ true)
      × (secret ≡ some raw)
      × (create_session now a.id (c.hash_secret raw) (now + session_lifetime) db ≡ (none, after))
      × (limits' ≡ succeeded email limits)
      × (derived ≡ 1)
  Judged now email password secret db limits (refused credentials_invalid) after limits' derived =
      (belongs c password (get_account_by_email email db) ≡ false)
      × (after ≡ db)
      × (limits' ≡ failed sign_in_settings email now limits)
      × (derived ≡ 1)
  Judged now email password secret db limits (refused email_unverified) after limits' derived =
      (belongs c password (get_account_by_email email db) ≡ true)
      × (after ≡ db)
      × (limits' ≡ limits)
      × (derived ≡ 1)
  Judged now email password secret db limits (refused internal) after limits' derived =
      ((a : Account) × (get_account_by_email email db ≡ some a)
        × (belongs c password (some a) ≡ true)
        × (is_some a.email_verified_at ≡ true)
        × Unopened c now a secret db)
      × (after ≡ db)
      × (limits' ≡ limits)
      × (derived ≡ 1)
  Judged now email password secret db limits (refused _) after limits' derived = ⊥

  abbrev pub JudgedAttempt : ℕ → Text → Text → Option Text → Db → Limiter T → Attempt T → Type 0
  JudgedAttempt now email password secret db limits r =
      Judged now email password secret db limits r.answer r.db r.limits r.derived

  opened-Judged :
      (now : ℕ) (email password raw : Text) (a : Account) (db : Db) (limits : Limiter T)
      (r : Option Error × Db)
      → get_account_by_email email db ≡ some a
      → belongs c password (some a) ≡ true
      → is_some a.email_verified_at ≡ true
      → create_session now a.id (c.hash_secret raw) (now + session_lifetime) db ≡ r
      → JudgedAttempt now email password (some raw) db limits (opened email a raw db limits r)
  opened-Judged now email password raw a db limits (none, after) found ours confirmed e =
      (found, ours, confirmed, refl, e, refl, refl)
  opened-Judged now email password raw a db limits (some x, after) found ours confirmed e =
      ((a, found, ours, confirmed, (x, ap (λ (q : Option Error × Db). q.0) e)), refl, refl, refl)

  open_with-Judged :
      (now : ℕ) (email password : Text) (a : Account) (secret : Option Text) (db : Db)
      (limits : Limiter T)
      → get_account_by_email email db ≡ some a
      → belongs c password (some a) ≡ true
      → is_some a.email_verified_at ≡ true
      → JudgedAttempt now email password secret db limits (open_with c now email a secret db limits)
  open_with-Judged now email password a none db limits found ours confirmed =
      ((a, found, ours, confirmed, tt), refl, refl, refl)
  open_with-Judged now email password a (some raw) db limits found ours confirmed =
      opened-Judged now email password raw a db limits _ found ours confirmed refl

  judge-Judged :
      (now : ℕ) (email password : Text) (secret : Option Text) (db : Db) (limits : Limiter T)
      (o : Option Account)
      → get_account_by_email email db ≡ o
      → JudgedAttempt now email password secret db limits
          (judge c now email password secret db limits o)
  judge-Judged now email password secret db limits none found = (rw found refl, refl, refl, refl)
  judge-Judged now email password secret db limits (some a) found =
      elim (Bool-cases (verify_password c password (deref a.password_hash))) [
        | inr wrong ↦ rw wrong (rw (found, wrong) refl, refl, refl, refl)
        | inl right ↦ elim (Bool-cases (is_some a.disabled_at)) [
          | inl off ↦ rw (right, off) (rw (found, right, off) refl, refl, refl, refl)
          | inr on ↦ elim (Bool-cases (is_nil (deref a.email))) [
            | inl no_address ↦
                rw (right, on, no_address)
                  (rw (found, right, on, no_address) refl, refl, refl, refl)
            | inr address ↦
                let ours : belongs c password (some a) ≡ true = rw (right, on, address) refl in
                elim (Bool-cases (is_some a.email_verified_at)) [
                  | inr unconfirmed ↦
                      rw (right, on, address, unconfirmed) (rw found ours, refl, refl, refl)
                  | inl confirmed ↦
                      rw (right, on, address, confirmed)
                        (open_with-Judged now email password a secret db limits found ours
                          confirmed)
                ]
          ]
        ]
      ]

  abbrev pub LoginJudged :
      Bool → ℕ → Text → Text → Option Text → Db → Limiter T → Attempt T → Type 0
  LoginJudged true now email password secret db limits r =
      r ≡ record { answer = refused rate_limited; db = db; limits = limits; derived = 0 }
  LoginJudged false now email password secret db limits r =
      JudgedAttempt now email password secret db limits r

  -- A sign-in at a locked address is refused and changes nothing; no password is hashed. At any other
  -- address exactly one is hashed, whatever the answer. Then a session is opened, for the account of the
  -- address, only if the password is its own and it is not suspended and confirmed, and the failures are
  -- cleared; a wrong password, an unknown address and a suspended account have one answer, and each counts
  -- as a failure; an account that is not confirmed is told so and no failure is counted. An internal error is
  -- answered only where a session was due and its secret could not be drawn or its row not be written.
  -- Nothing is written to the tables but by a sign-in that succeeds.
  pub login-Judged :
      (asked now : ℕ) (raw_email password : Text) (secret : Option Text) (db : Db)
      (limits : Limiter T)
      → LoginJudged
          (locked_out (normalize_email c raw_email) asked limits).1
          now
          (normalize_email c raw_email)
          password
          secret
          db
          limits
          (login c asked now raw_email password secret db limits)
  unfolding login
  login-Judged asked now raw_email password secret db limits =
      elim (Bool-cases (locked_out (normalize_email c raw_email) asked limits).1) [
        | inl locked ↦ rw locked refl
        | inr open_ ↦
            rw open_
              (judge-Judged now (normalize_email c raw_email) password secret db limits _ refl)
      ]

  signed-Judged :
      (now : ℕ) (email password : Text) (secret : Option Text) (db : Db) (limits : Limiter T)
      (answer : SignIn) (after : Db) (limits' : Limiter T) (derived : ℕ) (raw : Text) (a : Account)
      → answer ≡ signed_in raw a
      → Judged now email password secret db limits answer after limits' derived
      → Judged now email password secret db limits (signed_in raw a) after limits' derived
  signed-Judged now email password secret db limits answer after limits' derived raw a e h =
      rw e at h

  login-signed :
      (asked now : ℕ) (raw_email password : Text) (secret : Option Text) (db : Db)
      (limits : Limiter T) (locked : Bool) (r : Attempt T) (raw : Text) (a : Account)
      → LoginJudged locked now (normalize_email c raw_email) password secret db limits r
      → r.answer ≡ signed_in raw a
      → Judged now
          (normalize_email c raw_email)
          password
          secret
          db
          limits
          (signed_in raw a)
          r.db
          r.limits
          r.derived
  login-signed asked now raw_email password secret db limits true r raw a h e =
      let no : refused rate_limited ≡ signed_in raw a =
        ap (λ (x : Attempt T). x.answer) (sym h) ∙ e in
      cc no
  login-signed asked now raw_email password secret db limits false r raw a h e =
      signed-Judged now (normalize_email c raw_email) password secret db limits r.answer r.db
        r.limits r.derived raw a e h

created-resolves :
    (now t : ℕ) (a : Account) (h : Text) (expires : ℕ) (db after : Db)
    → create_session now a.id h expires db ≡ (none, after)
    → account_of a.id db ≡ some a
    → is_some a.disabled_at ≡ false
    → t < expires
    → text_eq h h ≡ true
    → resolve_session t h after ≡ some (session_row db.next_id now a.id h expires)
unfolding create_session resolve_session find_by
created-resolves now t a h expires db after e there on soon same = ground arith

-- The session that a sign-in opens resolves until its lifetime is over, to a row of the account that signed
-- in, if the id of the account names it.
pub login-resolves :
    (c : Crypto) {T : Type 0} (asked now t : ℕ) (raw_email password : Text) (secret : Option Text)
    (db : Db) (limits : Limiter T) (raw : Text) (a : Account)
    → (login c asked now raw_email password secret db limits).answer ≡ signed_in raw a
    → account_of a.id db ≡ some a
    → t < now + session_lifetime
    → resolve_session t
        (c.hash_secret raw)
        (login c asked now raw_email password secret db limits).db
      ≡ some (session_row db.next_id now a.id (c.hash_secret raw) (now + session_lifetime))
login-resolves c asked now t raw_email password secret db limits raw a e there soon =
    let r = login c asked now raw_email password secret db limits in
    let judged =
      login-signed c asked now raw_email password secret db limits _ r raw a
        (login-Judged c asked now raw_email password secret db limits) e in
    created-resolves now t a (c.hash_secret raw) (now + session_lifetime) db r.db judged.4 there
      (enabled_of c password a judged.1) soon (text_eq_refl (c.hash_secret raw))
