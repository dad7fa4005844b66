-- ===== src/Uploads.antt =====
-- internal/store/uploads.go with the statements of internal/store/sqlcgen/uploads.sql.go, but for the
-- retention sweep. Ids, stamps and tables are as in Store.
pub mod Tokens
pub mod Accept
pub mod Landed
use deployer.Base.{
  Text, List, Bool, Option, some, none, true, false, [], ◌∷◌, is_some, any, if◌then◌else◌, not,
  ◌&&◌, ◌||◌, ◌==◌, ltb, leb, ◌+◌, text_eq, ℕ,
}
use deployer.Store.Table.{find_by, update_by}

pub record Upload : Type 0 where
  pub id : Text
  pub account_id : ℕ
  pub path : Text
  pub size_bytes : ℕ
  pub sha256 : Text
  pub fetch_token_hash : Text
  pub redeemed_at : Option ℕ
  pub expires_at : ℕ
  pub created_at : ℕ
  pub updated_at : ℕ

pub data Refusal : Type 0 where
  upload_limit not_found upload_redeemed upload_expired : Refusal
  -- The primary key, or the UNIQUE of fetch_token_hash.
  constraint : Refusal

pub data Answer : Type 0 where
  got : Upload → Answer
  set_so : Answer
  refused : Refusal → Answer

pub record NewUpload : Type 0 where
  pub id : Text
  pub account_id : ℕ
  pub path : Text
  pub size_bytes : ℕ
  pub sha256 : Text
  pub fetch_token_hash : Text
  pub expires_at : ℕ

abbrev pub unclaimed : ℕ → ℕ → Upload → Bool
unclaimed now account u =
    u.account_id == account && not (is_some u.redeemed_at) && ltb now u.expires_at

abbrev pub count_by : (Upload → Bool) → List Upload → ℕ
count_by p [] = 0
count_by p (u ∷ l) = (if p u then 1 else 0) + count_by p l

unfoldable pub count_unclaimed_uploads : ℕ → ℕ → List Upload → ℕ
count_unclaimed_uploads now account l = count_by (unclaimed now account) l

abbrev pub row_of : ℕ → NewUpload → Upload
row_of now n = record {
  id = n.id;
  account_id = n.account_id;
  path = n.path;
  size_bytes = n.size_bytes;
  sha256 = n.sha256;
  fetch_token_hash = n.fetch_token_hash;
  redeemed_at = none;
  expires_at = n.expires_at;
  created_at = now;
  updated_at = now;
}

abbrev pub has_hash : Text → Upload → Bool
has_hash h u = text_eq h u.fetch_token_hash

-- One transaction. The caller gives the id; a limit of 0 stands for none.
unfoldable pub create_upload : ℕ → ℕ → NewUpload → List Upload → Answer × List Upload
unfolding count_unclaimed_uploads
create_upload now limit n l =
    if ltb 0 limit && leb limit (count_unclaimed_uploads now n.account_id l)
    then (refused upload_limit, l)
    else if any (λ (u : Upload). text_eq n.id u.id || has_hash n.fetch_token_hash u) l
    then (refused constraint, l)
    else (got (row_of now n), row_of now n ∷ l)

-- The WHERE of the redemption.
abbrev pub usable : ℕ → Text → Upload → Bool
usable now h u = has_hash h u && not (is_some u.redeemed_at) && ltb now u.expires_at

abbrev pub spent : ℕ → Upload → Upload
spent now u = record u { redeemed_at = some now; updated_at = now }

-- What is read once more to tell the caller why no row was touched.
abbrev pub why_not : Option Upload → Refusal
why_not none = not_found
why_not (some u) = if is_some u.redeemed_at then upload_redeemed else upload_expired

abbrev pub redeem_row : ℕ → Text → List Upload → Option Upload → Answer × List Upload
redeem_row now h l none = (refused (why_not (find_by (has_hash h) l)), l)
redeem_row now h l (some u) = (got (spent now u), update_by (usable now h) (spent now) l)

unfoldable pub redeem_upload : ℕ → Text → List Upload → Answer × List Upload
unfolding find_by update_by
redeem_upload now h l = redeem_row now h l (find_by (usable now h) l)

abbrev pub has_id : Text → Upload → Bool
has_id id u = text_eq id u.id

abbrev pub minted : ℕ → Text → Upload → Upload
minted now h u = record u { fetch_token_hash = h; redeemed_at = none; updated_at = now }

-- Another row with the hash is a fault of the statement.
unfoldable pub set_upload_fetch_token : ℕ → Text → Text → List Upload → Answer × List Upload
unfolding update_by
set_upload_fetch_token now id h l =
    if not (any (has_id id) l)
    then (refused not_found, l)
    else if any (λ (u : Upload). not (has_id id u) && has_hash h u) l
    then (refused constraint, l)
    else (set_so, update_by (has_id id) (minted now h) l)

unfoldable pub delete_upload : Text → List Upload → List Upload
delete_upload id [] = []
delete_upload id (u ∷ l) = let rest = delete_upload id l in if has_id id u then rest else u ∷ rest

-- Without the order, which is that of expiry. `named` are the uploads that deployments name.
unfoldable pub list_sweepable_uploads : ℕ → List Text → List Upload → List Upload
list_sweepable_uploads now named [] = []
list_sweepable_uploads now named (u ∷ l) =
    let rest = list_sweepable_uploads now named l in
    if ltb u.expires_at now && not (any (text_eq u.id) named) then u ∷ rest else rest
