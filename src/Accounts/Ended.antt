-- ===== src/Accounts/Ended.antt =====
-- A session that a password change or a suspension revoked stays revoked.
use deployer.Base.{
  ltb, All, List, Text, Bool, none, some, [], ◌∷◌, ◌≡◌, ◌&&◌, true, false, any, arith, ℕ,
  Bool-cases, inl, inr, refl, ap,
}
use deployer.Store.Table.{find_by_sound, update_by, find_by}
use deployer.Store.Distinct.{
  key_differs, key_agrees, any_mono, any-weaken, none-update, some-update, sole, found-any,
  not_found-any,
}
use deployer.Accounts.{
  enabled_account, Db, Account, Session, is_session, is_live, create_identity_account,
  mark_email_verified, mark_account_connected, set_password, set_account_disabled, create_session,
  touch_session, revoke_session, create_email_token, consume_email_token, revoked, shut_out,
  live_session_of, live_id, with_id, used_again, session_row, resolve_session, resolves, has_id,
  not_found, constraint, email_taken,
}
use deployer.Accounts.Steps.{
  passed, Op, register, verify, connect, change_password, disable, open_session, touch, revoke,
  mail_link, spend_link, act, act_all, guarded, refused_by, either,
}
use deployer.Accounts.WellFormed.{IsWellFormed, same_session}

abbrev pub is_open : Text → Session → Bool
is_open h s = is_session h s && is_live s

-- A session had the hash, and none that has it is live.
abbrev pub HasEnded : Text → List Session → Type 0
HasEnded h l = (any (is_session h) l ≡ true) × (any (is_open h) l ≡ false)

update-HasEnded :
    (h : Text) (p : Session → Bool) (f : Session → Session) (l : List Session)
    → ((s : Session) → (f s).token_hash ≡ s.token_hash)
    → ((s : Session) → is_live s ≡ false → is_live (f s) ≡ false)
    → HasEnded h l
    → HasEnded h (update_by p f l)
update-HasEnded h p f l keep never e = (
  some-update (is_session h) p f l (λ s k. ground (arith, keep s)) e.0,
  none-update (is_open h) p f l (λ s k. ground (arith, keep s, never s)) e.1,
)

opened-HasEnded :
    (h : Text) (id now account : ℕ) (k : Text) (expires : ℕ) (l : List Session)
    → any (is_session k) l ≡ false
    → HasEnded h l
    → HasEnded h (session_row id now account k expires ∷ l)
opened-HasEnded h id now account k expires l free e =
    ground (arith, key_differs (λ (t : Session). t.token_hash) h k l e.0 free, e.0, e.1)

create_session-HasEnded :
    (h : Text) (now account : ℕ) (k : Text) (expires : ℕ) (db : Db)
    → HasEnded h db.sessions
    → HasEnded h (create_session now account k expires db).1.sessions
unfolding create_session
create_session-HasEnded h now account k expires db e =
    elim (Bool-cases (any (is_session k) db.sessions)) [
      | inl taken ↦ rw taken e
      | inr free ↦ elim (Bool-cases (any (has_id account) db.accounts)) [
        | inr nobody ↦ rw (free, nobody) e
        | inl there ↦
            rw (free, there) (opened-HasEnded h db.next_id now account k expires db.sessions free e)
      ]
    ]

shut_out-HasEnded :
    (h : Text) (now id : ℕ) (db : Db)
    → HasEnded h db.sessions
    → HasEnded h (shut_out now id db).sessions
shut_out-HasEnded h now id db e =
    update-HasEnded h (live_session_of id) (revoked now) db.sessions (λ s. refl) (λ s k. refl) e

act-HasEnded :
    (h : Text) (o : Op) (db : Db) → HasEnded h db.sessions → HasEnded h (act o db).sessions
unfolding create_identity_account mark_email_verified mark_account_connected set_password
    set_account_disabled touch_session revoke_session create_email_token consume_email_token
act-HasEnded h (register now email hash name) db e =
    refused_by (λ d. HasEnded h d.sessions) _ email_taken db _ e (λ _. e)
act-HasEnded h (verify now id) db e = guarded (λ d. HasEnded h d.sessions) _ not_found db _ e e
act-HasEnded h (connect now id) db e = e
act-HasEnded h (change_password now id hash) db e =
    guarded (λ d. HasEnded h d.sessions) _ not_found db _ e (shut_out-HasEnded h now id db e)
act-HasEnded h (disable now id b) db e =
    guarded (λ d. HasEnded h d.sessions) _ not_found db _ e
      (either (λ d. HasEnded h d.sessions) b _ _ (shut_out-HasEnded h now id db e) e)
act-HasEnded h (open_session now account k expires) db e =
    create_session-HasEnded h now account k expires db e
act-HasEnded h (touch now id expires) db e =
    update-HasEnded h (with_id id) (used_again now expires) db.sessions (λ s. refl) (λ s k. k) e
act-HasEnded h (revoke now id) db e =
    guarded (λ d. HasEnded h d.sessions) _ not_found db _ e
      (update-HasEnded h (live_id id) (revoked now) db.sessions (λ s. refl) (λ s k. refl) e)
act-HasEnded h (mail_link now account purpose k expires) db e =
    refused_by (λ d. HasEnded h d.sessions) _ constraint db _ e (λ _. e)
act-HasEnded h (spend_link now k purpose) db e = e

act_all-HasEnded :
    (h : Text) (ops : List Op) (db : Db)
    → HasEnded h db.sessions
    → HasEnded h (act_all ops db).sessions
act_all-HasEnded h [] db e = e
act_all-HasEnded h (o ∷ ops) db e = act_all-HasEnded h ops (act o db) (act-HasEnded h o db e)

-- What has ended resolves to nobody.
HasEnded-resolves :
    (now : ℕ) (h : Text) (db : Db) → HasEnded h db.sessions → resolve_session now h db ≡ none
unfolding resolve_session
HasEnded-resolves now h db e =
    not_found-any (resolves now h db) db.sessions
      (any-weaken (is_open h) (resolves now h db) db.sessions (λ s k. ground arith) e.1)

revoked_all :
    (h : Text) (now : ℕ) (s : Session) (l : List Session)
    → All (λ (x : Session). is_session h x ≡ true → x ≡ s) l
    → any (is_open h) (update_by (live_session_of s.account_id) (revoked now) l) ≡ false
unfolding update_by
revoked_all h now s [] all = refl
revoked_all h now s (x ∷ l) all = elim (Bool-cases (is_session h x)) [
  | inl has ↦
      let same : x.account_id ≡ s.account_id = ap (λ (y : Session). y.account_id) (all.0 has) in
      ground (arith, revoked_all h now s l all.1)
  | inr not_so ↦ ground (arith, revoked_all h now s l all.1)
]

-- Revoking what the account of a session holds ends that session.
shut_out-ends :
    (h : Text) (before now : ℕ) (db : Db) (s : Session)
    → IsWellFormed db
    → resolve_session before h db ≡ some s
    → HasEnded h (update_by (live_session_of s.account_id) (revoked now) db.sessions)
unfolding resolve_session
shut_out-ends h before now db s w found = (
  some-update (is_session h) (live_session_of s.account_id) (revoked now) db.sessions
      (λ x k. ground arith)
      (any_mono (is_session h) (resolves before h db) db.sessions (λ x k. ground arith)
        (found-any (resolves before h db) db.sessions s found)),
  revoked_all h now s db.sessions (
      sole same_session (is_session h) (resolves before h db) db.sessions s
        (key_agrees (λ (t : Session). t.token_hash) h) (λ x k. ground arith) w.sessions found),
)

of_enabled :
    (id : ℕ) (l : List Account)
    → enabled_account (find_by (has_id id) l) ≡ true
    → any (has_id id) l ≡ true
unfolding find_by
of_enabled id [] h = cc
of_enabled id (a ∷ l) h = ground (arith, of_enabled id l)

last_of : (b c d e : Bool) → (b && c && d && e) ≡ true → e ≡ true
last_of b c d e h = ground arith

-- The account of a session that resolves is there.
account_there :
    (h : Text) (before : ℕ) (db : Db) (s : Session)
    → resolve_session before h db ≡ some s
    → any (has_id s.account_id) db.accounts ≡ true
unfolding resolve_session
account_there h before db s found =
    let sound = find_by_sound (resolves before h db) db.sessions s found in
    of_enabled s.account_id db.accounts
      (last_of (is_session h s) (is_live s) (ltb before s.expires_at) _ sound)

-- An operation that is to end every session of the account.
abbrev pub Ends : ℕ → Op → Type 0
Ends id (change_password now account hash) = account ≡ id
Ends id (disable now account b) = (account ≡ id) × (b ≡ true)
Ends id _ = ⊥

ended_by :
    (h : Text) (before : ℕ) (db : Db) (s : Session) (o : Op)
    → IsWellFormed db
    → resolve_session before h db ≡ some s
    → Ends s.account_id o
    → HasEnded h (act o db).sessions
unfolding set_password set_account_disabled
ended_by h before db s (change_password now account hash) w found e = rw e (
    passed (λ d. HasEnded h d.sessions) (any (has_id s.account_id) db.accounts) not_found db _
      (account_there h before db s found) (shut_out-ends h before now db s w found))
ended_by h before db s (disable now account b) w found e =
    rw (e.0, e.1)
      (passed (λ d. HasEnded h d.sessions) (any (has_id s.account_id) db.accounts) not_found db _
        (account_there h before db s found) (shut_out-ends h before now db s w found))
ended_by h before db s (register now email hash name) w found e = absurd e
ended_by h before db s (verify now id) w found e = absurd e
ended_by h before db s (connect now id) w found e = absurd e
ended_by h before db s (open_session now account k expires) w found e = absurd e
ended_by h before db s (touch now id expires) w found e = absurd e
ended_by h before db s (revoke now id) w found e = absurd e
ended_by h before db s (mail_link now account purpose k expires) w found e = absurd e
ended_by h before db s (spend_link now k purpose) w found e = absurd e

-- A session that resolves to an account is ended by a change of the account's password, and by its
-- suspension: whatever follows, the suspension being lifted included, its hash resolves to nobody at any
-- time.
pub session-Ends :
    (h : Text) (before later : ℕ) (db : Db) (s : Session) (o : Op) (ops : List Op)
    → IsWellFormed db
    → resolve_session before h db ≡ some s
    → Ends s.account_id o
    → resolve_session later h (act_all ops (act o db)) ≡ none
session-Ends h before later db s o ops w found e =
    HasEnded-resolves later h (act_all ops (act o db))
      (act_all-HasEnded h ops (act o db) (ended_by h before db s o w found e))
