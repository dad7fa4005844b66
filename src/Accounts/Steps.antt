-- ===== src/Accounts/Steps.antt =====
-- The statements and transactions on the people as steps, and any sequence of them.
use deployer.Base.{
  Option, none, some, true, false, if◌then◌else◌, ◌≡◌, refl, List, Text, Bool, [], ◌∷◌, ℕ,
}
use deployer.Accounts.{
  Error, Db, Purpose, create_identity_account, mark_email_verified, mark_account_connected,
  set_password, set_account_disabled, create_session, touch_session, revoke_session,
  create_email_token, consume_email_token,
}

-- Each with its time first, but for a registration at the time given.
pub data Op : Type 0 where
  register : ℕ → Text → Text → Text → Op
  verify connect : ℕ → ℕ → Op
  change_password : ℕ → ℕ → Text → Op
  disable : ℕ → ℕ → Bool → Op
  open_session : ℕ → ℕ → Text → ℕ → Op
  touch : ℕ → ℕ → ℕ → Op
  revoke : ℕ → ℕ → Op
  mail_link : ℕ → ℕ → Purpose → Text → ℕ → Op
  spend_link : ℕ → Text → Purpose → Op

abbrev pub act : Op → Db → Db
act (register now email hash name) db = (create_identity_account now email hash name db).1
act (verify now id) db = (mark_email_verified now id db).1
act (connect now id) db = (mark_account_connected now id db).1
act (change_password now id hash) db = (set_password now id hash db).1
act (disable now id disabled) db = (set_account_disabled now id disabled db).1
act (open_session now account h expires) db = (create_session now account h expires db).1
act (touch now id expires) db = touch_session now id expires db
act (revoke now id) db = (revoke_session now id db).1
act (mail_link now account purpose h expires) db =
    (create_email_token now account purpose h expires db).1
act (spend_link now h purpose) db = (consume_email_token now h purpose db).1

abbrev pub act_all : List Op → Db → Db
act_all [] db = db
act_all (o ∷ ops) db = act_all ops (act o db)

module _ {κ} (P : Db → Type κ) where
  -- A transaction that writes where a test holds.
  pub guarded :
      (b : Bool) (e : Error) (db after : Db)
      → P db
      → P after
      → P (if◌then◌else◌ {A = Option Error × Db} b (none, after) (some e, db)).1
  guarded true e db after w v = v
  guarded false e db after w v = w

  -- The same, with the test that it fails by.
  pub refused_by :
      (b : Bool) (e : Error) (db after : Db)
      → P db
      → (b ≡ false → P after)
      → P (if◌then◌else◌ {A = Option Error × Db} b (some e, db) (none, after)).1
  refused_by true e db after w v = w
  refused_by false e db after w v = v refl

  pub either : (b : Bool) (x y : Db) → P x → P y → P (if b then x else y)
  either true x y w v = w
  either false x y w v = v

  pub passed :
      (b : Bool) (e : Error) (db after : Db)
      → b ≡ true
      → P after
      → P (if◌then◌else◌ {A = Option Error × Db} b (none, after) (some e, db)).1
  passed true e db after yes_it_is v = v
  passed false e db after yes_it_is v = cc
