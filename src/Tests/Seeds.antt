-- ===== src/Tests/Seeds.antt =====
-- The bootstrap token, rotated and rotated back. The digest is the text itself here.
use deployer.Base.{Text, codes, some, none, [], ◌∷◌, refl, ◌≡◌}
use deployer.Store.Table.{find_by}
use deployer.Bootstrap.{
  Db, done, failed, bootstrap, bootstrap_name, account_row, get_account_by_name, resolve_token,
}
use deployer.Bootstrap.Rotation.{Rotated, used, fresh_row, live_ones, bootstrap-Rotated}

abbrev empty_db : Db
empty_db = record { accounts = []; tokens = []; next_id = 1 }

abbrev plain_hash : Text → Text
plain_hash raw = raw

abbrev with_a : Db
with_a = record {
  accounts = account_row 1 10 bootstrap_name ∷ [];
  tokens =
      fresh_row 10 (codes "aaaaaaaaa") (codes "aaaaaaaaa") (account_row 1 10 bootstrap_name)
        (record { accounts = []; tokens = []; next_id = 2 })
      ∷ [];
  next_id = 3;
}

-- The first boot makes the account and the token.
first_boot : bootstrap plain_hash 10 (codes "aaaaaaaaa") empty_db ≡ (done, with_a)
unfolding bootstrap
first_boot = refl

second_boot : bootstrap plain_hash 20 (codes "aaaaaaaaa") with_a ≡ (done, with_a)
unfolding bootstrap
second_boot = refl

there_already : get_account_by_name bootstrap_name with_a ≡ some (account_row 1 10 bootstrap_name)
unfolding get_account_by_name find_by
there_already = refl

unknown_yet : resolve_token 30 (codes "bbbbbbbbb") with_a ≡ none
unfolding resolve_token find_by
unknown_yet = refl

bootstrap-Rotated_example :
    Rotated
      (used (codes "bbbbbbbbb") with_a)
      (account_row 1 10 bootstrap_name)
      (fresh_row 30
        (codes "bbbbbbbbb")
        (codes "bbbbbbbbb")
        (account_row 1 10 bootstrap_name)
        with_a)
      (bootstrap plain_hash 30 (codes "bbbbbbbbb") with_a)
bootstrap-Rotated_example =
    bootstrap-Rotated plain_hash 30 (codes "bbbbbbbbb") with_a (account_row 1 10 bootstrap_name)
      refl there_already unknown_yet

abbrev after_b : Db
unfolding bootstrap
after_b = (bootstrap plain_hash 30 (codes "bbbbbbbbb") with_a).1

-- Back to the first token: it fails, and neither token is live any more.
rotated_back : (bootstrap plain_hash 40 (codes "aaaaaaaaa") after_b).0 ≡ failed
unfolding bootstrap
rotated_back = refl

none_left :
    live_ones 1 bootstrap_name (bootstrap plain_hash 40 (codes "aaaaaaaaa") after_b).1.tokens ≡ []
unfolding bootstrap
none_left = refl
