-- ===== src/Accounts/Service/Quiet.antt =====
-- Forgot and Resend tell no caller whether an address has an account.
use deployer.Base.{
  Text, List, Bool, Bool-cases, inl, inr, Option, none, some, true, false, [], ◌∷◌, any, ◌≡◌, ◌+◌,
  ◌||◌, ℕ, refl, arith, if◌then◌else◌, is_some, is_nil,
}
use deployer.Store.Table.{find_by}
use deployer.Store.Distinct.{none-update, all-update}
use deployer.Accounts.{
  Account, Db, Error, Purpose, verify_email, password_reset, is_link, live_link, consumed,
  superseded, has_id, has_email, create_email_token, get_account_by_email,
}
use deployer.Accounts.Service.{
  Crypto, email_invalid, normalize_email, check_email, deref, link_lifetime, forgot, forget, resend,
  resend_to, send_again, issue_link, issued,
}

-- A row that a SELECT finds, by a test that it meets.
met-any :
    (p q : Account → Bool) (l : List Account) (a : Account)
    → find_by p l ≡ some a
    → q a ≡ true
    → any q l ≡ true
unfolding find_by
met-any p q [] a h m = cc
met-any p q (b ∷ l) a h m = ground (arith, met-any p q l a)

either_none :
    {A : Type 0} (p q : A → Bool) (l : List A)
    → any p l ≡ false
    → any q l ≡ false
    → any (λ (a : A). p a || q a) l ≡ false
either_none p q [] h k = refl
either_none p q (a ∷ l) h k = ground (arith, either_none p q l)

-- A link with a new hash, for an account that is there, is let in.
create_email_token_succeeds :
    (now account : ℕ) (purpose : Purpose) (k : Text) (expires : ℕ) (db : Db)
    → any (is_link k) db.links ≡ false
    → any (has_id account) db.accounts ≡ true
    → (create_email_token now account purpose k expires db).0 ≡ none
unfolding create_email_token
create_email_token_succeeds now account purpose k expires db free there =
    let open_ =
      either_none (is_link k) (live_link account purpose) (superseded now account purpose db.links)
        (none-update (is_link k) (live_link account purpose) (consumed now) db.links
          (λ t e. ground arith) free)
        (all-update (live_link account purpose) (live_link account purpose) (consumed now) db.links
          (λ t. ground arith)) in
    rw (open_, there) refl

module _ (c : Crypto) (now : ℕ) (secret : Text) (db : Db)
    (fresh : any (is_link (c.hash_secret secret)) db.links ≡ false) where
  issued-none :
      (to : Text) (purpose : Purpose) (r : Option Error × Db)
      → r.0 ≡ none
      → (issued secret to purpose db r).0 ≡ none
  issued-none to purpose (none, after) e = refl
  issued-none to purpose (some x, after) e = cc

  issue_link-none :
      (account : ℕ) (to : Text) (purpose : Purpose)
      → any (has_id account) db.accounts ≡ true
      → (issue_link c now (some secret) account to purpose db).0 ≡ none
  issue_link-none account to purpose there = issued-none to purpose _ (
      create_email_token_succeeds now account purpose (c.hash_secret secret) (now + link_lifetime)
        db fresh there)

  forget-none :
      (email : Text) (o : Option Account)
      → get_account_by_email email db ≡ o
      → (forget c now email (some secret) db o).0 ≡ none
  unfolding get_account_by_email
  forget-none email none found = refl
  forget-none email (some a) found =
      elim (Bool-cases (is_some a.disabled_at || is_nil (deref a.email))) [
        | inl silent ↦ rw silent refl
        | inr known ↦ rw known (
            issue_link-none a.id email password_reset
              (met-any (has_email email) (has_id a.id) db.accounts a found (ground arith)))
      ]

  send_again-none :
      (email : Text) (o : Option Account)
      → get_account_by_email email db ≡ o
      → (send_again c now email (some secret) db o).0 ≡ none
  unfolding get_account_by_email
  send_again-none email none found = refl
  send_again-none email (some a) found =
      elim (Bool-cases (is_some a.email_verified_at || is_some a.disabled_at)) [
        | inl silent ↦ rw silent refl
        | inr known ↦ rw known (
            issue_link-none a.id email verify_email
              (met-any (has_email email) (has_id a.id) db.accounts a found (ground arith)))
      ]

  resend_to-none :
      (o : Option Text)
      → (resend_to c now (some secret) db o).0 ≡ (if is_some o then none else some email_invalid)
  resend_to-none none = refl
  resend_to-none (some email) = send_again-none email _ refl

-- With a mailer, and a secret whose hash no link has: Forgot answers success for every address, and Resend
-- answers by the form of the address alone. So neither answer depends on the accounts.
pub forgot-none :
    (c : Crypto) (now : ℕ) (raw_email secret : Text) (db : Db)
    → any (is_link (c.hash_secret secret)) db.links ≡ false
    → ((forgot c now true raw_email (some secret) db).0 ≡ none)
      × ((resend c now true raw_email (some secret) db).0
          ≡ (if is_some (check_email c raw_email) then none else some email_invalid))
unfolding forgot resend
forgot-none c now raw_email secret db fresh = (
  forget-none c now secret db fresh (normalize_email c raw_email) _ refl,
  resend_to-none c now secret db fresh (check_email c raw_email),
)
