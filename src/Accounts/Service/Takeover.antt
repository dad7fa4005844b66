-- ===== src/Accounts/Service/Takeover.antt =====
-- Reset shuts out whoever was signed in to the account.
use deployer.Base.{Text, List, none, some, true, false, any, ◌≡◌, ℕ, refl, ◌∙◌, sym}
use deployer.Store.Table.{find_by}
use deployer.Accounts.{
  Db, Session, EmailToken, password_reset, spendable, consume_email_token, set_password,
  resolve_session, has_id,
}
use deployer.Accounts.Steps.{Op, spend_link, change_password, act, act_all}
use deployer.Accounts.WellFormed.{IsWellFormed, act-IsWellFormed}
use deployer.Accounts.Ended.{session-Ends}
use deployer.Accounts.Service.{Crypto, password_short, reset}

module _ (c : Crypto) (now : ℕ) (raw password hash : Text) (db : Db) (t : EmailToken) where
  -- The link is spent, and the password written after it.
  reset-acts :
      password_short password ≡ false
      → c.hash_password password ≡ some hash
      → find_by (spendable now (c.hash_secret raw) password_reset) db.links ≡ some t
      → any (has_id t.account_id) db.accounts ≡ true
      → reset c now raw password db ≡ (
        none,
        act
            (change_password now t.account_id hash)
            (act (spend_link now (c.hash_secret raw) password_reset) db),
      )
  unfolding reset consume_email_token set_password
  reset-acts long hashed found there = rw (long, hashed, found, there) refl

-- The spending of a link changes no session.
same_sessions :
    (now : ℕ) (k : Text) (before : ℕ) (h : Text) (db : Db)
    → resolve_session before h (act (spend_link now k password_reset) db)
      ≡ resolve_session before h db
unfolding consume_email_token resolve_session
same_sessions now k before h db = refl

-- A reset with a live reset link, a password that is long enough and a salt succeeds, and whoever was
-- signed in to the link's account before it is signed out for good: the hash of such a session resolves to
-- nobody at any time, whatever follows.
pub reset-ends :
    (c : Crypto) (now : ℕ) (raw password hash : Text) (db : Db) (t : EmailToken) (h : Text)
    (before later : ℕ) (s : Session) (ops : List Op)
    → IsWellFormed db
    → password_short password ≡ false
    → c.hash_password password ≡ some hash
    → find_by (spendable now (c.hash_secret raw) password_reset) db.links ≡ some t
    → any (has_id t.account_id) db.accounts ≡ true
    → resolve_session before h db ≡ some s
    → s.account_id ≡ t.account_id
    → ((reset c now raw password db).0 ≡ none)
      × (resolve_session later h (act_all ops (reset c now raw password db).1) ≡ none)
reset-ends c now raw password hash db t h before later s ops w long hashed found there signed same =
    let spend = spend_link now (c.hash_secret raw) password_reset in
    rw (reset-acts c now raw password hash db t long hashed found there) (
      refl,
      session-Ends h before later (act spend db) s (change_password now t.account_id hash) ops
          (act-IsWellFormed spend db w) (same_sessions now (c.hash_secret raw) before h db ∙ signed)
          (sym same),
    )
