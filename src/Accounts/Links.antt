-- ===== src/Accounts/Links.antt =====
-- A mailed link that was spent, superseded or revoked stays so.
use deployer.Base.{
  All, List, Text, Bool, none, some, [], ◌∷◌, ◌≡◌, ◌&&◌, ◌||◌, true, false, any, arith, ℕ,
  Bool-cases, inl, inr, refl, ap, Option, if◌then◌else◌,
}
use deployer.Store.Table.{update_by, find_by, find_by_sound}
use deployer.Store.Distinct.{
  key_differs, key_agrees, any-weaken, none-update, some-update, sole, found-any, not_found-any,
}
use deployer.Accounts.{
  verify_email, password_reset, constraint, Db, EmailToken, Purpose, is_link, unspent,
  create_identity_account, mark_email_verified, mark_account_connected, set_password,
  set_account_disabled, create_session, touch_session, revoke_session, create_email_token,
  consume_email_token, consumed, shut_out, unspent_of, live_link, superseded, spendable, link_row,
  has_id, not_found, constraint, email_taken, same_purpose, Error,
}
use deployer.Accounts.Steps.{
  Op, register, verify, connect, change_password, disable, open_session, touch, revoke, mail_link,
  spend_link, act, act_all, guarded, refused_by, either, passed,
}
use deployer.Accounts.WellFormed.{IsWellFormed, same_link}

abbrev pub is_unspent : Text → EmailToken → Bool
is_unspent h t = is_link h t && unspent t

-- A link had the hash, and none that has it is unspent.
abbrev pub IsSpent : Text → List EmailToken → Type 0
IsSpent h l = (any (is_link h) l ≡ true) × (any (is_unspent h) l ≡ false)

update-IsSpent :
    (h : Text) (p : EmailToken → Bool) (now : ℕ) (l : List EmailToken)
    → IsSpent h l
    → IsSpent h (update_by p (consumed now) l)
update-IsSpent h p now l e = (
  some-update (is_link h) p (consumed now) l (λ t k. ground arith) e.0,
  none-update (is_unspent h) p (consumed now) l (λ t k. ground arith) e.1,
)

mailed-IsSpent :
    (h : Text) (id now account : ℕ) (purpose : Purpose) (k : Text) (expires : ℕ)
    (l : List EmailToken)
    → any (λ (t : EmailToken). is_link k t || live_link account purpose t) l ≡ false
    → IsSpent h l
    → IsSpent h (link_row id now account purpose k expires ∷ l)
mailed-IsSpent h id now account purpose k expires l free e =
    let new_hash =
      any-weaken (λ (t : EmailToken). is_link k t || live_link account purpose t) (is_link k) l
        (λ t m. ground arith) free in
    ground (arith, key_differs (λ (t : EmailToken). t.token_hash) h k l e.0 new_hash, e.0, e.1)

shut_out-IsSpent :
    (h : Text) (now id : ℕ) (db : Db) → IsSpent h db.links → IsSpent h (shut_out now id db).links
shut_out-IsSpent h now id db e = update-IsSpent h (unspent_of id) now db.links e

-- Whatever the links before the new one are, the refusals keep those of the tables.
create_email_token-IsSpent :
    (h : Text) (now account : ℕ) (purpose : Purpose) (k : Text) (expires : ℕ) (db : Db)
    → IsSpent h db.links
    → IsSpent h (create_email_token now account purpose k expires db).1.links
unfolding create_email_token
create_email_token-IsSpent h now account purpose k expires db e =
    let links = superseded now account purpose db.links in
    let before = update-IsSpent h (live_link account purpose) now db.links e in
    elim (Bool-cases (any (λ (t : EmailToken). is_link k t || live_link account purpose t) links)) [
      | inl taken ↦ rw taken e
      | inr free ↦ elim (Bool-cases (any (has_id account) db.accounts)) [
        | inr nobody ↦ rw (free, nobody) e
        | inl there ↦
            rw (free, there)
              (mailed-IsSpent h db.next_id now account purpose k expires links free before)
      ]
    ]

act-IsSpent : (h : Text) (o : Op) (db : Db) → IsSpent h db.links → IsSpent h (act o db).links
unfolding create_identity_account mark_email_verified mark_account_connected set_password
    set_account_disabled create_session touch_session revoke_session consume_email_token
act-IsSpent h (register now email hash name) db e =
    refused_by (λ d. IsSpent h d.links) _ email_taken db _ e (λ _. e)
act-IsSpent h (verify now id) db e = guarded (λ d. IsSpent h d.links) _ not_found db _ e e
act-IsSpent h (connect now id) db e = e
act-IsSpent h (change_password now id hash) db e =
    guarded (λ d. IsSpent h d.links) _ not_found db _ e (shut_out-IsSpent h now id db e)
act-IsSpent h (disable now id b) db e =
    guarded (λ d. IsSpent h d.links) _ not_found db _ e
      (either (λ d. IsSpent h d.links) b _ _ (shut_out-IsSpent h now id db e) e)
act-IsSpent h (open_session now account k expires) db e =
    refused_by (λ d. IsSpent h d.links) _ constraint db _ e (λ _. e)
act-IsSpent h (touch now id expires) db e = e
act-IsSpent h (revoke now id) db e = guarded (λ d. IsSpent h d.links) _ not_found db _ e e
act-IsSpent h (mail_link now account purpose k expires) db e =
    create_email_token-IsSpent h now account purpose k expires db e
act-IsSpent h (spend_link now k purpose) db e =
    update-IsSpent h (spendable now k purpose) now db.links e

act_all-IsSpent :
    (h : Text) (ops : List Op) (db : Db) → IsSpent h db.links → IsSpent h (act_all ops db).links
act_all-IsSpent h [] db e = e
act_all-IsSpent h (o ∷ ops) db e = act_all-IsSpent h ops (act o db) (act-IsSpent h o db e)

IsSpent-refused :
    (now : ℕ) (h : Text) (purpose : Purpose) (db : Db)
    → IsSpent h db.links
    → (consume_email_token now h purpose db).0 ≡ none
unfolding consume_email_token
IsSpent-refused now h purpose db e =
    not_found-any (spendable now h purpose) db.links
      (any-weaken (is_unspent h) (spendable now h purpose) db.links (λ t k. ground arith) e.1)

-- An update that spends the link, where it is the only one of its hash.
spent_all :
    (h : Text) (now : ℕ) (t : EmailToken) (p : EmailToken → Bool) (l : List EmailToken)
    → (unspent t ≡ true → p t ≡ true)
    → All (λ (x : EmailToken). is_link h x ≡ true → x ≡ t) l
    → any (is_unspent h) (update_by p (consumed now) l) ≡ false
unfolding update_by
spent_all h now t p [] meets all = refl
spent_all h now t p (x ∷ l) meets all = elim (Bool-cases (is_link h x)) [
  | inr not_so ↦ ground (arith, spent_all h now t p l meets all.1)
  | inl has ↦
      let live : unspent x ≡ unspent t = ap unspent (all.0 has) in
      let met : p x ≡ p t = ap p (all.0 has) in
      ground (arith, meets, live, met, spent_all h now t p l meets all.1)
]

update-spends :
    (h : Text) (now : ℕ) (t : EmailToken) (p : EmailToken → Bool) (db : Db)
    → IsWellFormed db
    → find_by (is_link h) db.links ≡ some t
    → (unspent t ≡ true → p t ≡ true)
    → IsSpent h (update_by p (consumed now) db.links)
update-spends h now t p db w found meets = (
  some-update (is_link h) p (consumed now) db.links (λ x k. ground arith)
      (found-any (is_link h) db.links t found),
  spent_all h now t p db.links meets (
      sole same_link (is_link h) (is_link h) db.links t
        (key_agrees (λ (t : EmailToken). t.token_hash) h) (λ x k. k) w.hashes found),
)

same_purpose_refl : (purpose : Purpose) → same_purpose purpose purpose ≡ true
same_purpose_refl verify_email = refl
same_purpose_refl password_reset = refl

-- What ends a link: spending it, changing the password of its account or suspending it, and mailing the
-- account another link for the purpose.
abbrev pub Kills : EmailToken → Op → Db → Type 0
Kills t (spend_link now k purpose) db = (consume_email_token now k purpose db).0 ≡ some t
Kills t (change_password now account hash) db =
    (account ≡ t.account_id) × ((set_password now account hash db).0 ≡ none)
Kills t (disable now account b) db =
    (account ≡ t.account_id) × (b ≡ true) × ((set_account_disabled now account b db).0 ≡ none)
Kills t (mail_link now account purpose k expires) db =
    (account ≡ t.account_id)
    × (purpose ≡ t.purpose)
    × ((create_email_token now account purpose k expires db).0 ≡ none)
Kills t _ db = ⊥

-- The test of a transaction that returned no error.
was_there :
    (b : Bool) (e : Error) (db after : Db)
    → (if◌then◌else◌ {A = Option Error × Db} b (none, after) (some e, db)).0 ≡ none
    → b ≡ true
was_there true e db after h = refl
was_there false e db after h = cc

of_account : (t : EmailToken) → unspent t ≡ true → unspent_of t.account_id t ≡ true
of_account t live = ground arith

mailed-kills :
    (h : Text) (t : EmailToken) (now : ℕ) (k : Text) (expires : ℕ) (db : Db)
    → IsSpent h (superseded now t.account_id t.purpose db.links)
    → (create_email_token now t.account_id t.purpose k expires db).0 ≡ none
    → IsSpent h (create_email_token now t.account_id t.purpose k expires db).1.links
unfolding create_email_token
mailed-kills h t now k expires db spent ok_ =
    let links = superseded now t.account_id t.purpose db.links in
    let test = λ (x : EmailToken). is_link k x || live_link t.account_id t.purpose x in
    elim (Bool-cases (any test links)) [
      | inl taken ↦
          let no : ◌≡◌ {A = Option Error} (some constraint) none = rw taken at ok_ in cc no
      | inr free ↦ elim (Bool-cases (any (has_id t.account_id) db.accounts)) [
        | inr nobody ↦
            let no : ◌≡◌ {A = Option Error} (some constraint) none = rw (free, nobody) at ok_ in
            cc no
        | inl there ↦
            rw (free, there)
              (mailed-IsSpent h db.next_id now t.account_id t.purpose k expires links free spent)
      ]
    ]

killed-IsSpent :
    (h : Text) (t : EmailToken) (o : Op) (db : Db)
    → IsWellFormed db
    → find_by (is_link h) db.links ≡ some t
    → Kills t o db
    → IsSpent h (act o db).links
unfolding set_password set_account_disabled consume_email_token
killed-IsSpent h t (spend_link now k purpose) db w found e =
    update-spends h now t (spendable now k purpose) db w found
      (λ _. find_by_sound (spendable now k purpose) db.links t e)
killed-IsSpent h t (change_password now account hash) db w found e =
    passed (λ d. IsSpent h d.links) (any (has_id account) db.accounts) not_found db _
      (was_there _ not_found db _ e.1)
      (rw e.0 (update-spends h now t (unspent_of t.account_id) db w found (of_account t)))
killed-IsSpent h t (disable now account b) db w found e =
    passed (λ d. IsSpent h d.links) (any (has_id account) db.accounts) not_found db _
      (was_there _ not_found db _ e.2)
      (rw (e.0, e.1) (update-spends h now t (unspent_of t.account_id) db w found (of_account t)))
killed-IsSpent h t (mail_link now account purpose k expires) db w found e =
    let ok_ = rw (e.0, e.1) at e.2 in
    rw (e.0, e.1)
      (mailed-kills h t now k expires db
        (update-spends h now t (live_link t.account_id t.purpose) db w found
          (λ live. ground (arith, same_purpose_refl t.purpose)))
        ok_)
killed-IsSpent h t (register now email hash name) db w found e = absurd e
killed-IsSpent h t (verify now id) db w found e = absurd e
killed-IsSpent h t (connect now id) db w found e = absurd e
killed-IsSpent h t (open_session now account k expires) db w found e = absurd e
killed-IsSpent h t (touch now id expires) db w found e = absurd e
killed-IsSpent h t (revoke now id) db w found e = absurd e

-- A mailed link works once, and not at all once its account's password was changed, its account was
-- suspended, or the account was mailed another link for the purpose: whatever follows, at any time and for
-- either purpose, its hash is refused as invalid.
pub link-spent :
    (h : Text) (t : EmailToken) (o : Op) (ops : List Op) (db : Db) (later : ℕ) (purpose : Purpose)
    → IsWellFormed db
    → find_by (is_link h) db.links ≡ some t
    → Kills t o db
    → (consume_email_token later h purpose (act_all ops (act o db))).0 ≡ none
link-spent h t o ops db later purpose w found e =
    IsSpent-refused later h purpose (act_all ops (act o db))
      (act_all-IsSpent h ops (act o db) (killed-IsSpent h t o db w found e))
