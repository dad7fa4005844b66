-- ===== src/Uploads/Tokens.antt =====
-- A fetch token works once, and the cap holds.
use deployer.Base.{
  Text, List, Bool, true, [], ◌∷◌, any, not, ◌≤◌, ◌<◌, ◌≡◌, text_eq, ℕ, refl, arith, All, ap, false,
  none, Option, some,
}
use deployer.Store.Table.{update_by, find_by}
use deployer.Uploads.{
  why_not, Upload, NewUpload, got, count_unclaimed_uploads, create_upload, usable, spent,
  redeem_upload, set_upload_fetch_token, delete_upload, refused, has_id, has_hash, minted,
  redeem_row,
}

-- An upload that is recorded under a limit does not take the account past it.
pub create_upload_capped :
    (now limit : ℕ) (n : NewUpload) (l : List Upload) {u : Upload}
    → (create_upload now limit n l).0 ≡ got u
    → 0 < limit
    → count_unclaimed_uploads now n.account_id (create_upload now limit n l).1 ≤ limit
unfolding create_upload count_unclaimed_uploads
create_upload_capped now limit n l h some_limit = ground (arith, h, some_limit)

-- No row answers to the hash at that time.
abbrev pub dead : ℕ → Text → List Upload → Bool
dead now h l = not (any (usable now h) l)

redeemed-dead :
    (now : ℕ) (h : Text) (l : List Upload)
    → dead now h (update_by (usable now h) (spent now) l) ≡ true
unfolding update_by
redeemed-dead now h [] = refl
redeemed-dead now h (u ∷ l) = ground (arith, redeemed-dead now h l)

-- What can happen to the uploads between two redemptions.
pub data Op : Type 0 where
  create : ℕ → ℕ → NewUpload → Op
  redeem : ℕ → Text → Op
  mint : ℕ → Text → Text → Op
  delete : Text → Op

abbrev pub run : Op → List Upload → List Upload
run (create now limit n) l = (create_upload now limit n l).1
run (redeem now h) l = (redeem_upload now h l).1
run (mint now id h) l = (set_upload_fetch_token now id h l).1
run (delete id) l = delete_upload id l

abbrev pub run_all : List Op → List Upload → List Upload
run_all [] l = l
run_all (op ∷ ops) l = run_all ops (run op l)

-- The operation gives nobody this hash.
abbrev pub spares : Text → Op → Bool
spares h (create now limit n) = not (text_eq h n.fetch_token_hash)
spares h (redeem now k) = true
spares h (mint now id k) = not (text_eq h k)
spares h (delete id) = true

update-dead :
    (now : ℕ) (h : Text) (p : Upload → Bool) (f : Upload → Upload) (l : List Upload)
    → ((u : Upload) → usable now h (f u) ≡ false)
    → dead now h l ≡ true
    → dead now h (update_by p f l) ≡ true
unfolding update_by
update-dead now h p f [] never d = refl
update-dead now h p f (u ∷ l) never d = ground (arith, never u, update-dead now h p f l never)

delete-dead :
    (now : ℕ) (h id : Text) (l : List Upload)
    → dead now h l ≡ true
    → dead now h (delete_upload id l) ≡ true
unfolding delete_upload
delete-dead now h id [] d = refl
delete-dead now h id (u ∷ l) d = ground (arith, delete-dead now h id l)

later-dead :
    (now later : ℕ) (h : Text) (l : List Upload)
    → now ≤ later
    → dead now h l ≡ true
    → dead later h l ≡ true
later-dead now later h [] le d = refl
later-dead now later h (u ∷ l) le d = ground (arith, later-dead now later h l le)

redeem_row-dead :
    (now : ℕ) (h : Text) (t : ℕ) (k : Text) (l : List Upload) (o : Option Upload)
    → dead now h l ≡ true
    → dead now h (redeem_row t k l o).1 ≡ true
redeem_row-dead now h t k l none d = d
redeem_row-dead now h t k l (some u) d =
    update-dead now h (usable t k) (spent t) l (λ v. ground arith) d

run-dead :
    (now : ℕ) (h : Text) (op : Op) (l : List Upload)
    → spares h op ≡ true
    → dead now h l ≡ true
    → dead now h (run op l) ≡ true
unfolding create_upload redeem_upload set_upload_fetch_token
run-dead now h (create t limit n) l other d = ground (arith, other, d)
run-dead now h (redeem t k) l other d = redeem_row-dead now h t k l (find_by (usable t k) l) d
run-dead now h (mint t id k) l other d =
    ground (arith, d, update-dead now h (has_id id) (minted t k) l (λ v. ground (arith, other)) d)
run-dead now h (delete id) l other d = delete-dead now h id l d

run_all-dead :
    (now : ℕ) (h : Text) (ops : List Op) (l : List Upload)
    → All (λ op. spares h op ≡ true) ops
    → dead now h l ≡ true
    → dead now h (run_all ops l) ≡ true
run_all-dead now h [] l other d = d
run_all-dead now h (op ∷ ops) l other d =
    run_all-dead now h ops (run op l) other.1 (run-dead now h op l other.0 d)

row-got :
    (now : ℕ) (h : Text) (l : List Upload) (o : Option Upload) {u : Upload}
    → (redeem_row now h l o).0 ≡ got u
    → dead now h (redeem_row now h l o).1 ≡ true
row-got now h l none e = cc
row-got now h l (some v) e = redeemed-dead now h l

got-dead :
    (now : ℕ) (h : Text) (l : List Upload) {u : Upload}
    → (redeem_upload now h l).0 ≡ got u
    → dead now h (redeem_upload now h l).1 ≡ true
unfolding redeem_upload
got-dead now h l e = row-got now h l (find_by (usable now h) l) e

dead-finds :
    (now : ℕ) (h : Text) (l : List Upload) → dead now h l ≡ true → find_by (usable now h) l ≡ none
unfolding find_by
dead-finds now h [] d = refl
dead-finds now h (u ∷ l) d = ground (arith, dead-finds now h l)

-- Once a fetch token has been redeemed, then whatever uploads are recorded, redeemed, given a new token
-- or deleted after it, redeeming the same token at any later time is refused and changes nothing, as
-- long as nobody is given the same hash again.
pub redeem-once :
    (now later : ℕ) (h : Text) (l : List Upload) {u : Upload} (ops : List Op)
    → now ≤ later
    → (redeem_upload now h l).0 ≡ got u
    → All (λ op. spares h op ≡ true) ops
    → redeem_upload later h (run_all ops (redeem_upload now h l).1) ≡ (
      refused (why_not (find_by (has_hash h) (run_all ops (redeem_upload now h l).1))),
      run_all ops (redeem_upload now h l).1,
    )
unfolding redeem_upload
redeem-once now later h l ops le e other =
    let after = run_all ops (redeem_upload now h l).1 in
    let gone =
      later-dead now later h after le
        (run_all-dead now h ops (redeem_upload now h l).1 other (got-dead now h l e)) in
    ap (redeem_row later h after) (dead-finds later h after gone)
