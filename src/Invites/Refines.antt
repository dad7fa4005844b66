-- ===== src/Invites/Refines.antt =====
-- The tables keep what the specification promises.
use deployer.Base.{
  Text, List, Bool, Option, some, none, true, false, [], ◌∷◌, is_nil, is_some, any, if◌then◌else◌,
  not, ◌&&◌, ◌||◌, ◌==◌, ◌+◌, ◌≡◌, text_eq, ℕ, refl, sym, ap, ◌∙◌, arith, Bool-cases, inl, inr,
}
use deployer.Invites.Rows.{same_codes, at, test?, change?, update-touches, at-update}
use deployer.Invites.{
  pull_back, create_spender, spent_row, revoked_row, spend_invite_and_create_account, revoke_invite,
  Invite, Person, Db, Answer, NewInvite, NewAccount, minted, pulled_back, joined, refused, live,
  account_exists_by_email, used_code, update_row, revoked_row, spent_row, create_spender, violates,
  invite_of, create_invite, revoke_invite, spend_invite_and_create_account,
}
use deployer.Invites.Spec.{
  revoke, spend, Status, live_until, spent_by, withdrawn, Book, Op, create, revoke, spend, Verdict,
  minted_id, was_revoked, joined_id, no_to, is_open, put, obey,
}
use deployer.Store.Table.{find_by}

-- What a row stands for.
abbrev pub account_in : Option ℕ → ℕ
account_in none = 0
account_in (some a) = a

abbrev pub row_status : Invite → Status
row_status i =
    if is_some i.consumed_at
    then spent_by (account_in i.consumed_by)
    else if is_some i.revoked_at
    then withdrawn
    else live_until i.expires_at

abbrev pub status? : Option Invite → Option Status
status? none = none
status? (some i) = some (row_status i)

pub record Keeps (db : Db) (b : Book) : Type 0 where
  pub statuses : (j : ℕ) → status? (at j db.invites) ≡ b.status j
  pub codes_used : (h : Text) → used_code h db.invites ≡ b.used h
  pub addresses : (e : Text) → account_exists_by_email e db.people ≡ b.has_address e
  pub accounts : (a : ℕ) → any (λ (p : Person). p.id == a) db.people ≡ b.has_account a
  pub counter : db.next_id ≡ b.next

abbrev pub verdict_of : Answer → Verdict
verdict_of (minted i) = minted_id i.id
verdict_of pulled_back = was_revoked
verdict_of (joined p) = joined_id p.id
verdict_of (refused e) = no_to e

unfoldable pub run : Op → Db → Answer × Db
unfolding create_invite revoke_invite spend_invite_and_create_account
run (create now n) db = create_invite now n db
run (revoke now id) db = revoke_invite now id db
run (spend now id account n) db = spend_invite_and_create_account now id account n db

open_live : (now : ℕ) (o : Option Invite) → is_open now (status? o) ≡ test? (live now) o
open_live now none = refl
open_live now (some i) = ground arith

violates_split :
    (a : ℕ) (e : Text) (l : List Person)
    → violates a e l ≡ (any (λ (p : Person). p.id == a) l || account_exists_by_email e l)
violates_split a e [] = refl
violates_split a e (p ∷ l) = ground (arith, violates_split a e l)

minted-Keeps :
    (now : ℕ) (n : NewInvite) (db : Db) (b : Book)
    → Keeps db b
    → Keeps
        (record db { invites = invite_of db.next_id now n ∷ db.invites; next_id = db.next_id + 1 })
        (record b {
          status = put b.next (some (live_until n.expires_at)) b.status;
          used = λ h. text_eq h n.code_hash || b.used h;
          next = b.next + 1;
        })
unfolding find_by
minted-Keeps now n db b h = record {
  statuses = λ j. ground (arith, h.statuses j, h.counter);
  codes_used = λ c. ap (λ u. text_eq c n.code_hash || u) (h.codes_used c);
  addresses = h.addresses;
  accounts = h.accounts;
  counter = ap (λ k. k + 1) h.counter;
}

-- What is kept by an answer and the tables after it.
abbrev pub Meets : Answer × Db → Verdict × Book → Type 0
Meets (x, db) (v, b) = (verdict_of x ≡ v) × Keeps db b

create-Meets :
    (now : ℕ) (n : NewInvite) (db : Db) (b : Book)
    → Keeps db b
    → Meets (create_invite now n db) (obey (create now n) b)
unfolding create_invite
create-Meets now n db b h = elim (Bool-cases (not (is_nil n.email) && b.has_address n.email)) [
  | inl taken ↦ rw (h.addresses n.email, taken) (refl, h)
  | inr free ↦ elim (Bool-cases (b.used n.code_hash)) [
    | inl clash ↦ rw (h.addresses n.email, free, h.codes_used n.code_hash, clash) (refl, h)
    | inr fresh ↦
        rw (h.addresses n.email, free, h.codes_used n.code_hash, fresh)
          (ap minted_id h.counter, minted-Keeps now n db b h)
  ]
]

changed :
    (t : Invite → Bool) (f : Invite → Invite) (s : Status) (o : Option Invite)
    → test? t o ≡ true
    → ((i : Invite) → t i ≡ true → row_status (f i) ≡ s)
    → status? (change? f o) ≡ some s
changed t f s none h k = cc
changed t f s (some i) h k = ap some (k i h)

-- A row that was updated takes its new status, and no other does.
updated_statuses :
    (id : ℕ) (t : Invite → Bool) (f : Invite → Invite) (s : Status) (db : Db) (b : Book)
    (l : List Invite)
    → Keeps db b
    → ((i : Invite) → (f i).id ≡ i.id)
    → ((i : Invite) → t i ≡ true → row_status (f i) ≡ s)
    → update_row id t f db.invites ≡ some l
    → (j : ℕ) → status? (at j l) ≡ put id (some s) b.status j
updated_statuses id t f s db b l h keep new e j =
    let hit : test? t (at id db.invites) ≡ true =
      sym (update-touches id t f db.invites) ∙ ap is_some e in
    let becomes = changed t f s (at id db.invites) hit new in
    ground (arith, at-update id j t f db.invites l keep e, becomes, h.statuses j)

touched :
    (now id : ℕ) (f : Invite → Invite) (db : Db) (b : Book)
    → Keeps db b
    → is_some (update_row id (live now) f db.invites) ≡ is_open now (b.status id)
touched now id f db b h =
    update-touches id (live now) f db.invites
    ∙ sym (open_live now (at id db.invites))
    ∙ ap (is_open now) (h.statuses id)

pull_back-Meets :
    (now id : ℕ) (db : Db) (b : Book) (o : Option (List Invite))
    → Keeps db b
    → revoked_row now id db ≡ o
    → Meets (pull_back db o) (obey (revoke now id) b)
pull_back-Meets now id db b none h e =
    let shut =
      sym (touched now id (λ i. record i { revoked_at = some now }) db b h) ∙ ap is_some e in
    rw shut (refl, h)
pull_back-Meets now id db b (some l) h e =
    let f : Invite → Invite = λ i. record i { revoked_at = some now } in
    let hit = sym (touched now id f db b h) ∙ ap is_some e in
    rw hit (
      refl,
      record {
        statuses =
            updated_statuses id (live now) f withdrawn db b l h (λ i. refl)
              (λ i open_now. ground arith) e;
        codes_used = λ c. same_codes id (live now) f c db.invites l (λ i. refl) e ∙ h.codes_used c;
        addresses = h.addresses;
        accounts = h.accounts;
        counter = h.counter;
      },
    )

joined-Keeps :
    (now id account : ℕ) (n : NewAccount) (db : Db) (b : Book) (l : List Invite)
    → Keeps db b
    → is_open now (b.status id) ≡ true
    → (b.has_account account || b.has_address n.email) ≡ false
    → spent_row now account id db ≡ some l
    → Meets (create_spender now id account n db (some l)) (obey (spend now id account n) b)
joined-Keeps now id account n db b l h hit free e =
    let f : Invite → Invite =
      λ i. record i { consumed_at = some now; consumed_by = some account } in
    let unused : violates account n.email db.people ≡ false =
      violates_split account n.email db.people
      ∙ rw (h.accounts account, h.addresses n.email) free in
    rw (hit, free, unused)
      (
        refl,
        record {
          statuses =
              updated_statuses id (live now) f (spent_by account) db b l h (λ i. refl) (λ i o. refl)
                e;
          codes_used =
              λ c. same_codes id (live now) f c db.invites l (λ i. refl) e ∙ h.codes_used c;
          addresses = λ c. ap (λ u. text_eq c n.email || u) (h.addresses c);
          accounts = λ a. ap (λ u. account == a || u) (h.accounts a);
          counter = ap (λ k. k + 1) h.counter;
        },
      )

create_spender-Meets :
    (now id account : ℕ) (n : NewAccount) (db : Db) (b : Book) (o : Option (List Invite))
    → Keeps db b
    → spent_row now account id db ≡ o
    → Meets (create_spender now id account n db o) (obey (spend now id account n) b)
create_spender-Meets now id account n db b none h e =
    let shut =
      sym (
        touched now id (λ i. record i { consumed_at = some now; consumed_by = some account }) db b
          h)
      ∙ ap is_some e in
    rw shut (refl, h)
create_spender-Meets now id account n db b (some l) h e =
    let hit =
      sym (
        touched now id (λ i. record i { consumed_at = some now; consumed_by = some account }) db b
          h)
      ∙ ap is_some e in
    elim (Bool-cases (b.has_account account || b.has_address n.email)) [
      | inl taken ↦
          let clash : violates account n.email db.people ≡ true =
            violates_split account n.email db.people
            ∙ rw (h.accounts account, h.addresses n.email) taken in
          rw (hit, taken, clash) (refl, h)
      | inr free ↦ joined-Keeps now id account n db b l h hit free e
    ]

-- Every operation on the tables answers as the specification does and keeps its promise: the tables
-- and the book agree on the status of every invite, on the codes that are used, and on the addresses
-- and ids that have an account. A refused operation changes nothing of this.
pub run-Meets : (op : Op) (db : Db) (b : Book) → Keeps db b → Meets (run op db) (obey op b)
unfolding run revoke_invite spend_invite_and_create_account
run-Meets (create now n) db b h = create-Meets now n db b h
run-Meets (revoke now id) db b h = pull_back-Meets now id db b (revoked_row now id db) h refl
run-Meets (spend now id account n) db b h =
    create_spender-Meets now id account n db b (spent_row now account id db) h refl
