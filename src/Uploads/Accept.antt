-- ===== src/Uploads/Accept.antt =====
-- internal/uploads/uploads.go: Accept, write, checkGzip and discard. The volume is a map from paths to
-- contents; SHA-256 is a parameter, and so are the faults of the volume.
use deployer.Base.{
  Text, List, Bool, Option, some, none, false, [], ◌∷◌, is_some, if◌then◌else◌, not, ◌&&◌, ◌||◌,
  ◌==◌, ltb, leb, ◌+◌, text_eq, ℕ, length, take,
}
use deployer.Uploads.{
  Upload, Refusal, Answer, got, set_so, refused, upload_limit, count_unclaimed_uploads,
  create_upload,
}

-- time.Hour, in seconds.
abbrev pub window : ℕ
window = 3600

abbrev pub Files : Type 0
Files = Text → Option Text

-- What the volume and the random source do in the course of one call.
pub record Volume : Type 0 where
  pub makes_dir : Bool
  pub opens : Bool
  -- An error of the copy, after so many bytes.
  pub breaks_after : Option ℕ
  pub reads_back : Bool
  pub removes : Bool
  pub has_random : Bool
  -- sha256.Sum256, and the hash of the placeholder.
  pub digest : Text → Text
  pub placeholder : Text

pub data UploadError : Type 0 where
  too_large not_gzip too_many_unclaimed fault : UploadError

pub data Landing : Type 0 where
  landed : ℕ → Text → Landing
  failed : UploadError → Landing

abbrev pub set_file : Text → Option Text → Files → Files
set_file p o files q = if text_eq p q then o else files q

abbrev pub is_magic : Text → Bool
is_magic [] = false
is_magic (a ∷ []) = false
is_magic (a ∷ (b ∷ rest)) = a == 0x1f && b == 0x8b

unfoldable pub check_gzip : Volume → Text → Landing
check_gzip v content =
    if not v.reads_back
    then failed fault
    else if is_magic content
    then landed (length content) (v.digest content)
    else failed not_gzip

-- The tests after the copy, of what was written.
unfoldable pub measured : Volume → ℕ → Text → Landing
unfolding check_gzip
measured v max_bytes content =
    if ltb max_bytes (length content)
    then failed too_large
    else if ltb (length content) 2
    then failed not_gzip
    else check_gzip v content

abbrev pub copy_body : Volume → ℕ → Text → Text → Files → Option ℕ → Landing × Files
copy_body v max_bytes path body files none = (
  measured v max_bytes (take (max_bytes + 1) body),
  set_file path (some (take (max_bytes + 1) body)) files,
)
copy_body v max_bytes path body files (some n) =
    (failed fault, set_file path (some (take n (take (max_bytes + 1) body))) files)

unfoldable pub write : Volume → ℕ → Text → Text → Files → Landing × Files
unfolding measured
write v max_bytes path body files =
    if is_some (files path) || not v.opens
    then (failed fault, files)
    else copy_body v max_bytes path body files v.breaks_after

unfoldable pub discard : Volume → Text → Files → Files
discard v path files = if v.removes then set_file path none files else files

-- The account, the id and its path, and the limits: `maxBytes` and `maxUnclaimed`.
pub record Call : Type 0 where
  pub account_id : ℕ
  pub id : Text
  pub path : Text
  pub max_bytes : ℕ
  pub max_unclaimed : ℕ

pub data Reply : Type 0 where
  accepted : Upload → Reply
  turned_away : UploadError → Reply

abbrev pub Store : Type 0
Store = Files × List Upload

abbrev pub error_of : Refusal → UploadError
error_of upload_limit = too_many_unclaimed
error_of e = fault

abbrev pub keep_or_discard : Volume → Text → Files → Answer × List Upload → Reply × Store
keep_or_discard v path files (got u, rows) = (accepted u, (files, rows))
keep_or_discard v path files (set_so, rows) = (turned_away fault, (discard v path files, rows))
keep_or_discard v path files (refused e, rows) =
    (turned_away (error_of e), (discard v path files, rows))

-- After the write. `now` is when the id was drawn, `then_` when the row is inserted.
unfoldable pub record_landing :
    Volume → Call → ℕ → ℕ → List Upload → Landing × Files → Reply × Store
unfolding discard create_upload
record_landing v c now then_ rows (failed e, files) =
    (turned_away e, (discard v c.path files, rows))
record_landing v c now then_ rows (landed size sum, files) =
    if not v.has_random
    then (turned_away fault, (discard v c.path files, rows))
    else keep_or_discard v c.path files (
        create_upload then_ c.max_unclaimed
          (record {
            id = c.id;
            account_id = c.account_id;
            path = c.path;
            size_bytes = size;
            sha256 = sum;
            fetch_token_hash = v.placeholder;
            expires_at = now + window;
          })
          rows)

-- `seen` are the rows at the first count, `rows` those that the insertion finds.
unfoldable pub accept :
    Volume → Call → ℕ → ℕ → ℕ → Text → List Upload → Files → List Upload → Reply × Store
unfolding write record_landing count_unclaimed_uploads
accept v c asked now then_ body seen files rows =
    if ltb 0 c.max_unclaimed
      && leb c.max_unclaimed (count_unclaimed_uploads asked c.account_id seen)
    then (turned_away too_many_unclaimed, (files, rows))
    else if not v.makes_dir
    then (turned_away fault, (files, rows))
    else record_landing v c now then_ rows (write v c.max_bytes c.path body files)
