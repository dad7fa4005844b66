-- ===== src/Invites/Once.antt =====
-- An invite makes one account, whoever races for it.
use deployer.Base.{
  List, some, [], ◌∷◌, any, ◌==◌, ◌<◌, ◌≡◌, ℕ, refl, arith, Bool-cases, Option, ap, false, inl, inr,
  none, sym, ◌∙◌,
}
use deployer.Invites.{
  pulled_back, joined, refused, minted, Person, Db, account_exists_by_email, used_code,
  create_invite, Invite, NewAccount, revoke_invite, Answer, NewInvite, Refusal,
  spend_invite_and_create_account, refused, joined, pull_back, create_spender, revoked_row,
  invite_invalid, violates, spent_row, minted,
}
use deployer.Invites.Spec.{
  spent_by, Book, Op, create, revoke, spend, obey, joined_id, no_to, is_open,
}
use deployer.Invites.Rows.{at}
use deployer.Invites.Refines.{Keeps, run, status?, run-Meets, verdict_of}

abbrev pub run_all : List Op → Db → Db
run_all [] db = db
run_all (op ∷ ops) db = run_all ops (run op db).1

-- The book of these tables.
abbrev pub book_of : Db → Book
book_of db = record {
  status = λ j. status? (at j db.invites);
  used = λ h. used_code h db.invites;
  has_address = λ e. account_exists_by_email e db.people;
  has_account = λ a. any (λ (p : Person). p.id == a) db.people;
  next = db.next_id;
}

pub own_book : (db : Db) → Keeps db (book_of db)
own_book db = record {
  statuses = λ j. refl;
  codes_used = λ h. refl;
  addresses = λ e. refl;
  accounts = λ a. refl;
  counter = refl;
}

-- Spent for good, by this account.
abbrev pub Gone : ℕ → ℕ → Book → Type 0
Gone id account b = (b.status id ≡ some (spent_by account)) × (id < b.next)

obey-Gone :
    (id account : ℕ) (op : Op) (b : Book) → Gone id account b → Gone id account (obey op b).1
obey-Gone id account (create now n) b h = ground (arith, h.0, h.1)
obey-Gone id account (revoke now k) b h = ground (arith, h.0, h.1)
obey-Gone id account (spend now k other n) b h = ground (arith, h.0, h.1)

run_all-Gone :
    (id account : ℕ) (ops : List Op) (db : Db) (b : Book)
    → Keeps db b
    → Gone id account b
    → (c : Book) × Keeps (run_all ops db) c × Gone id account c
run_all-Gone id account [] db b k h = (b, k, h)
run_all-Gone id account (op ∷ ops) db b k h =
    run_all-Gone id account ops (run op db).1 (obey op b).1 (run-Meets op db b k).1
      (obey-Gone id account op b h)

create-refused :
    (now : ℕ) (n : NewInvite) (db : Db) {e : Refusal}
    → (create_invite now n db).0 ≡ refused e
    → (create_invite now n db).1 ≡ db
unfolding create_invite
create-refused now n db h = ground arith

pull_back-refused :
    (db : Db) (o : Option (List Invite)) {e : Refusal}
    → (pull_back db o).0 ≡ refused e
    → (pull_back db o).1 ≡ db
pull_back-refused db none h = refl
pull_back-refused db (some l) h = cc

create_spender-refused :
    (now id account : ℕ) (n : NewAccount) (db : Db) (o : Option (List Invite)) {e : Refusal}
    → (create_spender now id account n db o).0 ≡ refused e
    → (create_spender now id account n db o).1 ≡ db
create_spender-refused now id account n db none h = refl
create_spender-refused now id account n db (some l) h =
    elim (Bool-cases (violates account n.email db.people)) [
      | inl clash ↦ rw clash refl
      | inr free ↦ let wrong = rw free at h in absurd (cc)
    ]

-- An operation that is refused leaves every table as it was; so an address that is taken leaves the
-- invite live.
pub run-refused : (op : Op) (db : Db) {e : Refusal} → (run op db).0 ≡ refused e → (run op db).1 ≡ db
unfolding run revoke_invite spend_invite_and_create_account
run-refused (create now n) db h = create-refused now n db h
run-refused (revoke now id) db h = pull_back-refused db (revoked_row now id db) h
run-refused (spend now id account n) db h =
    create_spender-refused now id account n db (spent_row now account id db) h

refusal_of : (x : Answer) (e : Refusal) → verdict_of x ≡ no_to e → x ≡ refused e
refusal_of (minted i) e h = cc
refusal_of pulled_back e h = cc
refusal_of (joined p) e h = cc
refusal_of (refused d) e h = ground (arith, h)

spent_now :
    (now id account : ℕ) (n : NewAccount) (b : Book) (k : ℕ)
    → id < b.next
    → (obey (spend now id account n) b).0 ≡ joined_id k
    → Gone id account (obey (spend now id account n) b).1
spent_now now id account n b k small h = ground (arith, h, small)

no_second :
    (later id account other : ℕ) (m : NewAccount) (db : Db) (b : Book)
    → Keeps db b
    → Gone id account b
    → (run (spend later id other m) db).0 ≡ refused invite_invalid
no_second later id account other m db b k gone =
    let shut : is_open later (b.status id) ≡ false = rw gone.0 refl in
    let answered : (obey (spend later id other m) b).0 ≡ no_to invite_invalid = rw shut refl in
    refusal_of (run (spend later id other m) db).0 invite_invalid
      ((run-Meets (spend later id other m) db b k).0 ∙ answered)

-- Once an invite has made an account, then whatever mints, revocations and registrations follow, each
-- further registration with it is refused, at any time, and changes no table: two registrations that
-- race on one invite end with one account.
pub spend-once :
    (now id account : ℕ) (n : NewAccount) (db : Db) (p : Person) (ops : List Op) (later other : ℕ)
    (m : NewAccount)
    → id < db.next_id
    → (run (spend now id account n) db).0 ≡ joined p
    → run (spend later id other m) (run_all ops (run (spend now id account n) db).1)
      ≡ (refused invite_invalid, run_all ops (run (spend now id account n) db).1)
spend-once now id account n db p ops later other m small h =
    let b = book_of db in
    let met = run-Meets (spend now id account n) db b (own_book db) in
    let joined_it : (obey (spend now id account n) b).0 ≡ joined_id p.id =
      sym met.0 ∙ ap verdict_of h in
    let gone = spent_now now id account n b p.id small joined_it in
    let (c, k, still) =
      run_all-Gone id account ops (run (spend now id account n) db).1
        (obey (spend now id account n) b).1 met.1 gone in
    let after = run_all ops (run (spend now id account n) db).1 in
    let said = no_second later id account other m after c k still in
    λ i. (said i, run-refused (spend later id other m) after said i)
