-- ===== src/Tests/Invitations.antt =====
-- One invite and two who want it.
use deployer.Base.{List, codes, some, none, true, [], ◌∷◌, refl, ◌≡◌, arith}
use deployer.Store.Table.{find_by}
use deployer.Invites.{
  Db, NewInvite, NewAccount, joined, refused, invite_invalid, email_taken, live_invite, invite_of,
  person_of, update_row,
}
use deployer.Invites.Spec.{Op, create, revoke, spend, obey}
use deployer.Invites.Refines.{run, run-Meets, Meets}
use deployer.Invites.Once.{run_all, spend-once, book_of, own_book}

abbrev an_invite : NewInvite
an_invite = record {
  code_hash = codes "h1";
  note = [];
  email = codes "a@b.c";
  created_by = none;
  expires_at = 100;
}

abbrev empty : Db
empty = record { invites = []; people = []; audit = []; next_id = 7 }

abbrev db : Db
db = record { invites = invite_of 7 10 an_invite ∷ []; people = []; audit = []; next_id = 8 }

abbrev ann : NewAccount
ann = record { email = codes "a@b.c"; password_hash = codes "p"; display_name = codes "Ann" }

abbrev bob : NewAccount
bob = record { email = codes "b@b.c"; password_hash = codes "q"; display_name = codes "Bob" }

minted_so : (run (create 10 an_invite) empty).1 ≡ db
unfolding run
minted_so = refl

ann_joins : (run (spend 20 7 50 ann) db).0 ≡ joined (person_of 20 50 ann [])
unfolding run update_row
ann_joins = refl

-- The first person of all is the admin.
ann_rules : (person_of 20 50 ann []).is_admin ≡ true
ann_rules = refl

-- Expired at its very second.
too_late : (run (spend 100 7 50 ann) db).0 ≡ refused invite_invalid
unfolding run update_row
too_late = refl

abbrev meanwhile : List Op
meanwhile = revoke 21 7 ∷ create 22 (record an_invite { code_hash = codes "h2"; email = [] }) ∷ []

spend-once_example :
    run (spend 23 7 51 bob) (run_all meanwhile (run (spend 20 7 50 ann) db).1)
    ≡ (refused invite_invalid, run_all meanwhile (run (spend 20 7 50 ann) db).1)
spend-once_example =
    spend-once 20 7 50 ann db (person_of 20 50 ann []) meanwhile 23 51 bob (omega arith) ann_joins

run-Meets_example : Meets (run (spend 20 7 50 ann) db) (obey (spend 20 7 50 ann) (book_of db))
run-Meets_example = run-Meets (spend 20 7 50 ann) db (book_of db) (own_book db)

abbrev with_ann : Db
with_ann = record db { people = person_of 5 50 ann [] ∷ [] }

taken : (run (spend 20 7 51 ann) with_ann).0 ≡ refused email_taken
unfolding run update_row
taken = refl

looked_up : live_invite 20 (codes "h1") (codes "a@b.c") db ≡ some (invite_of 7 10 an_invite)
unfolding live_invite find_by
looked_up = refl

other_address : live_invite 20 (codes "h1") (codes "b@b.c") db ≡ none
unfolding live_invite find_by
other_address = refl
