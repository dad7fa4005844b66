-- ===== src/Tests/People.antt =====
-- One person: signed in, mailed a link, and with a password that is reset. The digest of a text is the text
-- itself here, and a password is stored as it is.
use deployer.Base.{
  List, codes, some, none, true, false, [], ◌∷◌, refl, ◌≡◌, ℕ, text_eq, if◌then◌else◌, is_some,
}
use deployer.Store.Table.{find_by}
use deployer.Identity.Limiter.{Limiter, locked_out, new_limiter, left_of}
use deployer.Accounts.{
  get_account_by_email, create_session, Account, Session, EmailToken, Db, verify_email,
  password_reset, resolve_session, consume_email_token, is_link, session_row, link_row, spendable,
  account_of,
}
use deployer.Accounts.Steps.{
  Op, act, act_all, register, open_session, mail_link, spend_link, change_password, disable,
}
use deployer.Accounts.WellFormed.{IsWellFormed}
use deployer.Accounts.Ended.{session-Ends}
use deployer.Accounts.Links.{link-spent}
use deployer.Accounts.Service.{
  Crypto, login, forgot, resend, reset, check_email, signed_in, email_invalid, normalize_email,
  credentials_invalid, refused,
}
use deployer.Accounts.Service.SignedIn.{LoginJudged, login-Judged}
use deployer.Accounts.Service.Takeover.{reset-ends}
use deployer.Accounts.Service.Quiet.{forgot-none}

abbrev pub ada : Account
ada = record {
  id = 1;
  email = some (codes "ada@home");
  password_hash = some (codes "correct horse");
  display_name = some (codes "ada");
  is_admin = true;
  email_verified_at = some 5;
  disabled_at = none;
  connected_at = none;
  created_at = 1;
  updated_at = 5;
}

abbrev a_session : Session
a_session = session_row 2 10 1 (codes "cookie") 100

abbrev a_link : EmailToken
a_link = link_row 3 20 1 password_reset (codes "link") 80

abbrev home : Db
home = record { accounts = ada ∷ []; sessions = a_session ∷ []; links = a_link ∷ []; next_id = 4 }

home-IsWellFormed : IsWellFormed home
home-IsWellFormed = record {
  emails = (refl, tt);
  sessions = (refl, tt);
  hashes = (refl, tt);
  one_live = (refl, tt);
}

abbrev plain : Crypto
plain = record {
  to_lower = λ s. s;
  trim_space = λ s. s;
  parse_address = λ s. some s;
  hash_secret = λ s. s;
  matches = text_eq;
  hash_password = λ s. some s;
}

resolves_before : resolve_session 30 (codes "cookie") home ≡ some a_session
unfolding resolve_session
resolves_before = refl

abbrev lifted : List Op
lifted = disable 60 1 false ∷ open_session 61 1 (codes "cookie") 200 ∷ []

session-Ends_example :
    resolve_session 70 (codes "cookie") (act_all lifted (act (disable 50 1 true) home)) ≡ none
session-Ends_example =
    session-Ends (codes "cookie") 30 70 home a_session (disable 50 1 true) lifted home-IsWellFormed
      resolves_before (refl, refl)

link_is_there : find_by (is_link (codes "link")) home.links ≡ some a_link
unfolding find_by
link_is_there = refl

link_is_spent : (consume_email_token 40 (codes "link") password_reset home).0 ≡ some a_link
unfolding consume_email_token
link_is_spent = refl

abbrev nothing_then : List Op
nothing_then = []

link-spent_example :
    (consume_email_token 41
      (codes "link")
      password_reset
      (act_all nothing_then (act (spend_link 40 (codes "link") password_reset) home))).0
    ≡ none
link-spent_example =
    link-spent (codes "link") a_link (spend_link 40 (codes "link") password_reset) nothing_then home
      41 password_reset home-IsWellFormed link_is_there link_is_spent

-- Minted to verify an address, a link resets no password.
other_purpose : (consume_email_token 40 (codes "link") verify_email home).0 ≡ none
unfolding consume_email_token
other_purpose = refl

abbrev a_day : List Op
a_day =
    register 11 (codes "bob@home") (codes "battery staple") (codes "bob")
    ∷ mail_link 12 1 password_reset (codes "another") 90
    ∷ open_session 13 1 (codes "second") 100
    ∷ change_password 14 1 (codes "new")
    ∷ []

abbrev calm : Limiter ℕ
calm = new_limiter

signs_in :
    (login plain 30 31
      (codes "ada@home")
      (codes "correct horse")
      (some (codes "raw"))
      home
      calm).answer
    ≡ signed_in (codes "raw") ada
unfolding login locked_out left_of get_account_by_email create_session
signs_in = refl

wrong_password :
    (login plain 30 31 (codes "ada@home") (codes "wrong") (some (codes "raw")) home calm).answer
    ≡ refused credentials_invalid
unfolding login locked_out left_of get_account_by_email
wrong_password = refl

login-Judged_example :
    LoginJudged plain
      (locked_out (normalize_email plain (codes "ada@home")) 30 calm).1
      31
      (normalize_email plain (codes "ada@home"))
      (codes "correct horse")
      (some (codes "raw"))
      home
      calm
      (login plain 30 31 (codes "ada@home") (codes "correct horse") (some (codes "raw")) home calm)
login-Judged_example =
    login-Judged plain 30 31 (codes "ada@home") (codes "correct horse") (some (codes "raw")) home
      calm

ada_is_one : account_of 1 home ≡ some ada
unfolding find_by
ada_is_one = refl

spends_reset : find_by (spendable 40 (codes "link") password_reset) home.links ≡ some a_link
unfolding find_by
spends_reset = refl

reset-ends_example :
    ((reset plain 40 (codes "link") (codes "a longer password") home).0 ≡ none)
    × (resolve_session 70
          (codes "cookie")
          (act_all lifted (reset plain 40 (codes "link") (codes "a longer password") home).1)
        ≡ none)
reset-ends_example =
    reset-ends plain 40 (codes "link") (codes "a longer password") (codes "a longer password") home
      a_link (codes "cookie") 30 70 a_session lifted home-IsWellFormed refl refl spends_reset refl
      resolves_before refl

forgot-none_example :
    ((forgot plain 40 true (codes "eve@home") (some (codes "fresh")) home).0 ≡ none)
    × ((resend plain 40 true (codes "eve@home") (some (codes "fresh")) home).0
        ≡ (if is_some (check_email plain (codes "eve@home")) then none else some email_invalid))
forgot-none_example = forgot-none plain 40 (codes "eve@home") (codes "fresh") home refl
