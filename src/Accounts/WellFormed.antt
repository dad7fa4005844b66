-- ===== src/Accounts/WellFormed.antt =====
-- What holds of the tables of people between two statements.
use deployer.Base.{
  List, Text, Bool, Option, none, some, ◌≡◌, ◌&&◌, false, arith, ℕ, Bool-cases, [], any, inl, inr,
  refl, ◌||◌, ◌∷◌,
}
use deployer.Store.Table.{update_by}
use deployer.Store.Distinct.{Distinct, Distinct-update, any-weaken}
use deployer.Accounts.{
  verified, connected, rehashed, stamped, used_again, unverified, unconnected, with_id, live_id,
  spendable, not_found, has_id, shut_out, live_session_of, Db, Account, Session, EmailToken,
  has_email, is_session, is_link, unspent, live_link, consumed, create_identity_account, revoked,
  mark_email_verified, set_password, set_account_disabled, create_session, revoke_session, Purpose,
  create_email_token, mark_account_connected, unspent_of, link_row, superseded, touch_session,
  consume_email_token, spendable,
}
use deployer.Accounts.Steps.{
  guarded, either, Op, act_all, act, register, verify, connect, change_password, disable,
  open_session, touch, revoke, mail_link, spend_link,
}

abbrev pub named : Option Text → Account → Bool
named none b = false
named (some e) b = has_email e b

abbrev pub same_email : Account → Account → Bool
same_email a b = named a.email b

abbrev pub same_session : Session → Session → Bool
same_session a b = is_session a.token_hash b

abbrev pub same_link : EmailToken → EmailToken → Bool
same_link a b = is_link a.token_hash b

-- Both live, of one account and for one purpose.
abbrev pub both_live : EmailToken → EmailToken → Bool
both_live a b = unspent a && live_link a.account_id a.purpose b

pub record IsWellFormed (db : Db) : Type 0 where
  pub emails : Distinct same_email db.accounts
  pub sessions : Distinct same_session db.sessions
  pub hashes : Distinct same_link db.links
  pub one_live : Distinct both_live db.links

module _ (p : Account → Bool) (f : Account → Account) (l : List Account) where
  -- An update that keeps the addresses.
  emails_kept :
      ((a : Account) → (f a).email ≡ a.email)
      → Distinct same_email l
      → Distinct same_email (update_by p f l)
  emails_kept keep = Distinct-update same_email p f l (λ a b h. ground (arith, keep a, keep b))

module _ (p : Session → Bool) (f : Session → Session) (l : List Session) where
  sessions_kept :
      ((a : Session) → (f a).token_hash ≡ a.token_hash)
      → Distinct same_session l
      → Distinct same_session (update_by p f l)
  sessions_kept keep = Distinct-update same_session p f l (λ a b h. ground (arith, keep a, keep b))

module _ (p : EmailToken → Bool) (now : ℕ) (l : List EmailToken) where
  hashes_kept : Distinct same_link l → Distinct same_link (update_by p (consumed now) l)
  hashes_kept = Distinct-update same_link p (consumed now) l (λ a b h. ground arith)

  live_kept : Distinct both_live l → Distinct both_live (update_by p (consumed now) l)
  live_kept = Distinct-update both_live p (consumed now) l (λ a b h. ground arith)

create_identity_account-IsWellFormed :
    (now : ℕ) (email hash name : Text) (db : Db)
    → IsWellFormed db
    → IsWellFormed (create_identity_account now email hash name db).1
unfolding create_identity_account
create_identity_account-IsWellFormed now email hash name db w =
    elim (Bool-cases (any (has_email email) db.accounts)) [
      | inl taken ↦ rw taken w
      | inr free ↦ rw free (record {
        emails = (free, w.emails);
        sessions = w.sessions;
        hashes = w.hashes;
        one_live = w.one_live;
      })
    ]

-- The accounts change and their addresses do not.
update_accounts-IsWellFormed :
    (p : Account → Bool) (f : Account → Account) (db : Db)
    → ((a : Account) → (f a).email ≡ a.email)
    → IsWellFormed db
    → IsWellFormed (record db { accounts = update_by p f db.accounts })
update_accounts-IsWellFormed p f db keep w = record {
  emails = emails_kept p f db.accounts keep w.emails;
  sessions = w.sessions;
  hashes = w.hashes;
  one_live = w.one_live;
}

shut_out-IsWellFormed : (now id : ℕ) (db : Db) → IsWellFormed db → IsWellFormed (shut_out now id db)
shut_out-IsWellFormed now id db w = record {
  emails = w.emails;
  sessions = sessions_kept (live_session_of id) (revoked now) db.sessions (λ a. refl) w.sessions;
  hashes = hashes_kept (unspent_of id) now db.links w.hashes;
  one_live = live_kept (unspent_of id) now db.links w.one_live;
}

mark_email_verified-IsWellFormed :
    (now id : ℕ) (db : Db) → IsWellFormed db → IsWellFormed (mark_email_verified now id db).1
unfolding mark_email_verified
mark_email_verified-IsWellFormed now id db w =
    guarded IsWellFormed _ not_found db _ w
      (update_accounts-IsWellFormed (unverified id) (verified now) db (λ a. refl) w)

set_password-IsWellFormed :
    (now id : ℕ) (hash : Text) (db : Db)
    → IsWellFormed db
    → IsWellFormed (set_password now id hash db).1
unfolding set_password
set_password-IsWellFormed now id hash db w = guarded IsWellFormed _ not_found db _ w (
    shut_out-IsWellFormed now id _
      (update_accounts-IsWellFormed (has_id id) (rehashed now hash) db (λ a. refl) w))

set_account_disabled-IsWellFormed :
    (now id : ℕ) (b : Bool) (db : Db)
    → IsWellFormed db
    → IsWellFormed (set_account_disabled now id b db).1
unfolding set_account_disabled
set_account_disabled-IsWellFormed now id b db w =
    let written = update_accounts-IsWellFormed (has_id id) (stamped now b) db (λ a. refl) w in
    guarded IsWellFormed _ not_found db _ w
      (either IsWellFormed b _ _ (shut_out-IsWellFormed now id _ written) written)

create_session-IsWellFormed :
    (now account : ℕ) (h : Text) (expires : ℕ) (db : Db)
    → IsWellFormed db
    → IsWellFormed (create_session now account h expires db).1
unfolding create_session
create_session-IsWellFormed now account h expires db w =
    elim (Bool-cases (any (is_session h) db.sessions)) [
      | inl taken ↦ rw taken w
      | inr free ↦ elim (Bool-cases (any (has_id account) db.accounts)) [
        | inr nobody ↦ rw (free, nobody) w
        | inl there ↦
            rw (free, there)
              (record {
                emails = w.emails;
                sessions = (free, w.sessions);
                hashes = w.hashes;
                one_live = w.one_live;
              })
      ]
    ]

update_sessions-IsWellFormed :
    (p : Session → Bool) (f : Session → Session) (db : Db)
    → ((a : Session) → (f a).token_hash ≡ a.token_hash)
    → IsWellFormed db
    → IsWellFormed (record db { sessions = update_by p f db.sessions })
update_sessions-IsWellFormed p f db keep w = record {
  emails = w.emails;
  sessions = sessions_kept p f db.sessions keep w.sessions;
  hashes = w.hashes;
  one_live = w.one_live;
}

revoke_session-IsWellFormed :
    (now id : ℕ) (db : Db) → IsWellFormed db → IsWellFormed (revoke_session now id db).1
unfolding revoke_session
revoke_session-IsWellFormed now id db w =
    guarded IsWellFormed _ not_found db _ w
      (update_sessions-IsWellFormed (live_id id) (revoked now) db (λ a. refl) w)

-- The row of a link that is let in agrees with none that stands.
link_let_in :
    (id now account : ℕ) (purpose : Purpose) (h : Text) (expires : ℕ) (links : List EmailToken)
    → any (λ (t : EmailToken). is_link h t || live_link account purpose t) links ≡ false
    → Distinct same_link links
    → Distinct both_live links
    → Distinct same_link (link_row id now account purpose h expires ∷ links)
      × Distinct both_live (link_row id now account purpose h expires ∷ links)
link_let_in id now account purpose h expires links free u v = (
  (any-weaken _ (is_link h) links (λ t e. ground arith) free, u),
  (any-weaken _ (live_link account purpose) links (λ t e. ground arith) free, v),
)

create_email_token-IsWellFormed :
    (now account : ℕ) (purpose : Purpose) (h : Text) (expires : ℕ) (db : Db)
    → IsWellFormed db
    → IsWellFormed (create_email_token now account purpose h expires db).1
unfolding create_email_token
create_email_token-IsWellFormed now account purpose h expires db w =
    let links = superseded now account purpose db.links in
    let u = hashes_kept (live_link account purpose) now db.links w.hashes in
    let v = live_kept (live_link account purpose) now db.links w.one_live in
    elim (Bool-cases (any (λ (t : EmailToken). is_link h t || live_link account purpose t) links)) [
      | inl taken ↦ rw taken w
      | inr free ↦ elim (Bool-cases (any (has_id account) db.accounts)) [
        | inr nobody ↦ rw (free, nobody) w
        | inl there ↦
            let both = link_let_in db.next_id now account purpose h expires links free u v in
            rw (free, there)
              (record {
                emails = w.emails;
                sessions = w.sessions;
                hashes = both.0;
                one_live = both.1;
              })
      ]
    ]

pub act-IsWellFormed : (o : Op) (db : Db) → IsWellFormed db → IsWellFormed (act o db)
unfolding mark_account_connected touch_session consume_email_token
act-IsWellFormed (register now email hash name) db w =
    create_identity_account-IsWellFormed now email hash name db w
act-IsWellFormed (verify now id) db w = mark_email_verified-IsWellFormed now id db w
act-IsWellFormed (connect now id) db w =
    update_accounts-IsWellFormed (unconnected id) (connected now) db (λ a. refl) w
act-IsWellFormed (change_password now id hash) db w = set_password-IsWellFormed now id hash db w
act-IsWellFormed (disable now id b) db w = set_account_disabled-IsWellFormed now id b db w
act-IsWellFormed (open_session now account h expires) db w =
    create_session-IsWellFormed now account h expires db w
act-IsWellFormed (touch now id expires) db w =
    update_sessions-IsWellFormed (with_id id) (used_again now expires) db (λ a. refl) w
act-IsWellFormed (revoke now id) db w = revoke_session-IsWellFormed now id db w
act-IsWellFormed (mail_link now account purpose h expires) db w =
    create_email_token-IsWellFormed now account purpose h expires db w
act-IsWellFormed (spend_link now h purpose) db w = record {
  emails = w.emails;
  sessions = w.sessions;
  hashes = hashes_kept (spendable now h purpose) now db.links w.hashes;
  one_live = live_kept (spendable now h purpose) now db.links w.one_live;
}

-- After any sequence of registrations, sign-ins, sign-outs, links mailed and spent, password changes and
-- suspensions: no address has two accounts, no two sessions and no two links have one hash, and no account
-- has two live links for one purpose, if all that held before.
pub act_all-IsWellFormed :
    (ops : List Op) (db : Db) → IsWellFormed db → IsWellFormed (act_all ops db)
act_all-IsWellFormed [] db w = w
act_all-IsWellFormed (o ∷ ops) db w = act_all-IsWellFormed ops (act o db) (act-IsWellFormed o db w)
