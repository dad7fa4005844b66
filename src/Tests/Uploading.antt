-- ===== src/Tests/Uploading.antt =====
-- Uploads at concrete values. The digest is the body itself here.
use deployer.Base.{Text, List, codes, none, true, [], ◌∷◌, refl, ◌≡◌, arith}
use deployer.Store.Table.{find_by}
use deployer.Uploads.{
  Upload, NewUpload, got, refused, upload_limit, upload_expired, row_of, create_upload,
  redeem_upload, set_upload_fetch_token, why_not, has_hash, spent, list_sweepable_uploads,
}
use deployer.Uploads.Tokens.{Op, create, redeem, mint, delete, run_all, redeem-once}
use deployer.Uploads.Accept.{Files, Volume, Call, turned_away, too_large, not_gzip, accept}
use deployer.Uploads.Landed.{Clean, accept-Clean}

abbrev volume : Volume
volume = record {
  makes_dir = true;
  opens = true;
  breaks_after = none;
  reads_back = true;
  removes = true;
  has_random = true;
  digest = λ body. body;
  placeholder = codes "seed";
}

abbrev call : Call
call = record {
  account_id = 1;
  id = codes "up_2";
  path = codes "d/up_2";
  max_bytes = 4;
  max_unclaimed = 1;
}

abbrev gz : Text
gz = 0x1f ∷ 0x8b ∷ 7 ∷ 9 ∷ []

abbrev no_files : Files
no_files = λ p. none

abbrev an_upload : NewUpload
an_upload = record {
  id = codes "up_1";
  account_id = 1;
  path = codes "d/up_1";
  size_bytes = 4;
  sha256 = gz;
  fetch_token_hash = codes "h1";
  expires_at = 100;
}

abbrev rows : List Upload
rows = row_of 10 an_upload ∷ []

over_by_one :
    (accept volume call 5 5 6 (0x1f ∷ 0x8b ∷ 7 ∷ 9 ∷ 9 ∷ []) [] no_files []).0
    ≡ turned_away too_large
unfolding accept
over_by_one = refl

no_archive : (accept volume call 5 5 6 (codes "hi") [] no_files []).0 ≡ turned_away not_gzip
unfolding accept
no_archive = refl

accept-Clean_example :
    Clean volume call gz no_files rows (accept volume call 5 5 6 gz [] no_files rows)
accept-Clean_example = accept-Clean volume call 5 5 6 gz [] no_files rows refl refl

second_refused :
    (create_upload 20 1
      (record an_upload { id = codes "up_3"; fetch_token_hash = codes "h3" })
      rows).0
    ≡ refused upload_limit
unfolding create_upload
second_refused = refl

first_taken : (create_upload 10 1 an_upload []).0 ≡ got (row_of 10 an_upload)
unfolding create_upload
first_taken = refl

redeemed : (redeem_upload 20 (codes "h1") rows).0 ≡ got (spent 20 (row_of 10 an_upload))
unfolding redeem_upload
redeemed = refl

abbrev meanwhile : List Op
meanwhile =
    create 21 0 (record an_upload { id = codes "up_4"; fetch_token_hash = codes "h4" })
    ∷ mint 22 (codes "up_1") (codes "h5")
    ∷ redeem 23 (codes "h5")
    ∷ delete (codes "up_4")
    ∷ []

redeem-once_example :
    redeem_upload 30 (codes "h1") (run_all meanwhile (redeem_upload 20 (codes "h1") rows).1) ≡ (
      refused (
          why_not (
            find_by
              (has_hash (codes "h1"))
              (run_all meanwhile (redeem_upload 20 (codes "h1") rows).1))),
      run_all meanwhile (redeem_upload 20 (codes "h1") rows).1,
    )
redeem-once_example =
    redeem-once 20 30 (codes "h1") rows meanwhile (omega arith) redeemed
      (refl, (refl, (refl, (refl, tt))))

-- A token that is minted after the upload has expired cannot be redeemed.
minted_too_late :
    (redeem_upload 201
      (codes "h2")
      (set_upload_fetch_token 200 (codes "up_1") (codes "h2") rows).1).0
    ≡ refused upload_expired
unfolding redeem_upload set_upload_fetch_token
minted_too_late = refl

-- What a deployment names is not swept.
named_stays : list_sweepable_uploads 200 (codes "up_1" ∷ []) rows ≡ []
unfolding list_sweepable_uploads
named_stays = refl
