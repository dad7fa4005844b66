-- ===== src/Invites.antt =====
-- internal/store/invites.go with the statements of internal/store/sqlcgen/invites.sql.go, and the
-- state that internal/identity/invites.go shows. Ids, stamps and tables are as in Store.
pub mod Spec
pub mod Refines
pub mod Rows
pub mod Lookup
pub mod Once
use deployer.Base.{
  Text, List, Bool, Option, some, none, true, false, [], ◌∷◌, is_nil, is_some, any, if◌then◌else◌,
  not, ◌&&◌, ◌||◌, ◌==◌, ltb, ◌+◌, text_eq, ℕ,
}
use deployer.Store.Table.{find_by}

pub record Invite : Type 0 where
  pub id : ℕ
  pub code_hash : Text
  pub note : Option Text
  pub email : Option Text
  pub created_by : Option ℕ
  pub expires_at : ℕ
  pub consumed_at : Option ℕ
  pub consumed_by : Option ℕ
  pub revoked_at : Option ℕ
  pub created_at : ℕ

-- A row of accounts, of which only registration writes here.
pub record Person : Type 0 where
  pub id : ℕ
  pub email : Option Text
  pub password_hash : Text
  pub display_name : Text
  pub is_admin : Bool
  pub created_at : ℕ

pub record Spend : Type 0 where
  pub id : ℕ
  pub account_id : ℕ
  pub invite_id : ℕ
  pub occurred_at : ℕ

pub record Db : Type 0 where
  pub invites : List Invite
  pub people : List Person
  pub audit : List Spend
  pub next_id : ℕ

pub data Refusal : Type 0 where
  address_registered invite_invalid email_taken not_found : Refusal
  -- The UNIQUE of code_hash.
  constraint : Refusal

pub data Answer : Type 0 where
  minted : Invite → Answer
  pulled_back : Answer
  joined : Person → Answer
  refused : Refusal → Answer

abbrev pub same_text : Text → Option Text → Bool
same_text s none = false
same_text s (some t) = text_eq s t

-- consumed_at IS NULL AND revoked_at IS NULL AND expires_at > now
abbrev pub live : ℕ → Invite → Bool
live now i = not (is_some i.consumed_at) && not (is_some i.revoked_at) && ltb now i.expires_at

abbrev pub account_exists_by_email : Text → List Person → Bool
account_exists_by_email email people = any (λ (p : Person). same_text email p.email) people

abbrev pub any_account_has_email : List Person → Bool
any_account_has_email people = any (λ (p : Person). is_some p.email) people

-- An UPDATE of the row with this primary key, if it passes the rest of the WHERE; `none` if no row
-- was touched.
abbrev pub in_front : Invite → Option (List Invite) → Option (List Invite)
in_front i none = none
in_front i (some l) = some (i ∷ l)

unfoldable pub update_row :
    ℕ → (Invite → Bool) → (Invite → Invite) → List Invite → Option (List Invite)
update_row id test f [] = none
update_row id test f (i ∷ l) =
    let rest = in_front i (update_row id test f l) in
    if i.id == id then (if test i then some (f i ∷ l) else none) else rest

-- `optional`.
abbrev pub optional : Text → Option Text
optional v = if is_nil v then none else some v

pub record NewInvite : Type 0 where
  pub code_hash : Text
  pub note : Text
  pub email : Text
  pub created_by : Option ℕ
  pub expires_at : ℕ

abbrev pub used_code : Text → List Invite → Bool
used_code h l = any (λ (i : Invite). text_eq h i.code_hash) l

abbrev pub invite_of : ℕ → ℕ → NewInvite → Invite
invite_of id now n = record {
  id = id;
  code_hash = n.code_hash;
  note = optional n.note;
  email = optional n.email;
  created_by = n.created_by;
  expires_at = n.expires_at;
  consumed_at = none;
  consumed_by = none;
  revoked_at = none;
  created_at = now;
}

-- Each of the next three is one transaction: what is refused leaves the tables as they were.
unfoldable pub create_invite : ℕ → NewInvite → Db → Answer × Db
create_invite now n db =
    if not (is_nil n.email) && account_exists_by_email n.email db.people
    then (refused address_registered, db)
    else if used_code n.code_hash db.invites
    then (refused constraint, db)
    else (
      minted (invite_of db.next_id now n),
      record db { invites = invite_of db.next_id now n ∷ db.invites; next_id = db.next_id + 1 },
    )

-- The statement, before its error is told apart.
abbrev pub revoked_row : ℕ → ℕ → Db → Option (List Invite)
revoked_row now id db =
    update_row id (live now) (λ i. record i { revoked_at = some now }) db.invites

abbrev pub pull_back : Db → Option (List Invite) → Answer × Db
pull_back db none = (refused not_found, db)
pull_back db (some l) = (pulled_back, record db { invites = l })

unfoldable pub revoke_invite : ℕ → ℕ → Db → Answer × Db
unfolding update_row
revoke_invite now id db = pull_back db (revoked_row now id db)

pub record NewAccount : Type 0 where
  pub email : Text
  pub password_hash : Text
  pub display_name : Text

abbrev pub spent_row : ℕ → ℕ → ℕ → Db → Option (List Invite)
spent_row now account_id id db =
    update_row id (live now)
      (λ i. record i { consumed_at = some now; consumed_by = some account_id }) db.invites

-- The primary key, the UNIQUE of name, which is the id, and the index of addresses.
abbrev pub violates : ℕ → Text → List Person → Bool
violates account_id email people =
    any (λ (p : Person). p.id == account_id || same_text email p.email) people

-- CreateIdentityAccount: the first account with an address is the admin.
abbrev pub person_of : ℕ → ℕ → NewAccount → List Person → Person
person_of now account_id n people = record {
  id = account_id;
  email = some n.email;
  password_hash = n.password_hash;
  display_name = n.display_name;
  is_admin = not (any_account_has_email people);
  created_at = now;
}

-- What follows the spend, on the tables as it left them; a refusal rolls back to `before`.
abbrev pub create_spender : ℕ → ℕ → ℕ → NewAccount → Db → Option (List Invite) → Answer × Db
create_spender now id account_id n before none = (refused invite_invalid, before)
create_spender now id account_id n before (some invites) =
    if violates account_id n.email before.people then (refused email_taken, before) else (
      joined (person_of now account_id n before.people),
      record {
        invites = invites;
        people = person_of now account_id n before.people ∷ before.people;
        audit =
            record {
              id = before.next_id;
              account_id = account_id;
              invite_id = id;
              occurred_at = now;
            }
            ∷ before.audit;
        next_id = before.next_id + 1;
      },
    )

unfoldable pub spend_invite_and_create_account : ℕ → ℕ → ℕ → NewAccount → Db → Answer × Db
unfolding update_row
spend_invite_and_create_account now id account_id n db =
    create_spender now id account_id n db (spent_row now account_id id db)

-- The lookup before a registration.
unfoldable pub live_invite : ℕ → Text → Text → Db → Option Invite
unfolding find_by
live_invite now code_hash candidate db =
    find_by
      (λ (i : Invite).
        text_eq code_hash i.code_hash
        && (not (is_some i.email) || same_text candidate i.email)
        && live now i)
      db.invites

-- InviteStateOf. A stamp that the platform wrote can be read back.
pub data InviteState : Type 0 where
  state_live state_spent state_revoked state_expired : InviteState

unfoldable pub invite_state_of : ℕ → Invite → InviteState
invite_state_of now i =
    if is_some i.consumed_at
    then state_spent
    else if is_some i.revoked_at
    then state_revoked
    else if not (ltb now i.expires_at)
    then state_expired
    else state_live
