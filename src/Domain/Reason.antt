-- ===== src/Domain/Reason.antt =====
-- internal/domain/reason.go: the closed set of reasons, and the one line that each carries.
-- The Go type is a string: `other` is any value outside the set. The empty Reason, by which a check
-- says that it refuses nothing, is `none` of `Option Reason` in this development.
use Prim.Native.String.{String}
use deployer.Base.{Bool, Option, is_some, none, some}

pub data Reason : Type 0 where
  upload_invalid : Reason
  upload_expired : Reason
  source_rejected : Reason
  build_failed : Reason
  build_no_digest : Reason
  image_runs_as_root : Reason
  app_never_ready : Reason
  timeout : Reason
  internal : Reason
  deployment_unknown : Reason
  app_unknown : Reason
  superseded : Reason
  release_unknown : Reason
  deployment_in_flight : Reason
  app_limit_reached : Reason
  account_suspended : Reason
  app_name_reserved : Reason
  upload_too_large : Reason
  upload_not_gzip : Reason
  upload_limit_reached : Reason
  too_many_attempts : Reason
  config_key_invalid : Reason
  config_key_reserved : Reason
  config_key_unknown : Reason
  config_flag_missing : Reason
  config_too_many_keys : Reason
  config_too_large : Reason
  other : String → Reason

-- The Go string.
unfoldable pub text : Reason → String
text upload_invalid = "upload_invalid"
text upload_expired = "upload_expired"
text source_rejected = "source_rejected"
text build_failed = "build_failed"
text build_no_digest = "build_no_digest"
text image_runs_as_root = "image_runs_as_root"
text app_never_ready = "app_never_ready"
text timeout = "timeout"
text internal = "internal"
text deployment_unknown = "deployment_unknown"
text app_unknown = "app_unknown"
text superseded = "superseded"
text release_unknown = "release_unknown"
text deployment_in_flight = "deployment_in_flight"
text app_limit_reached = "app_limit_reached"
text account_suspended = "account_suspended"
text app_name_reserved = "app_name_reserved"
text upload_too_large = "upload_too_large"
text upload_not_gzip = "upload_not_gzip"
text upload_limit_reached = "upload_limit_reached"
text too_many_attempts = "too_many_attempts"
text config_key_invalid = "config_key_invalid"
text config_key_reserved = "config_key_reserved"
text config_key_unknown = "config_key_unknown"
text config_flag_missing = "config_flag_missing"
text config_too_many_keys = "config_too_many_keys"
text config_too_large = "config_too_large"
text (other s) = s

-- The `messages` table.
messages : Reason → Option String
messages upload_invalid =
    some "the upload id is unknown, already used, or belongs to another account"
messages upload_expired = some "the upload expired, so upload the source again and retry"
messages source_rejected =
    some
      "the source archive was refused: it is too large, holds too many files, or contains an unsafe entry"
messages build_failed =
    some
      "the build did not complete, so check that the app builds with the engine that ran, which deployment_status reports as build_path"
messages build_no_digest = some "the build reported success but pushed no image"
messages image_runs_as_root = some "the built image runs as root, so add a non root USER to the app"
messages app_never_ready = some "the app never accepted a connection on the port given in PORT"
messages timeout = some "the deploy ran out of time"
messages internal = some "the platform failed to complete the deploy"
messages deployment_unknown = some "no deployment matches that id or name"
messages app_unknown = some "no app matches that name"
messages superseded = some "a later deploy of the eq_state app replaced this one"
messages release_unknown =
    some
      "that app has no release with that number, so call list_releases to see which numbers exist"
messages deployment_in_flight =
    some "that app has a deploy or rollback still running, so wait for it to finish and try again"
messages app_limit_reached =
    some "this account is at its limit for apps, so delete one you no longer need"
messages account_suspended =
    some
      "this account is suspended, so its apps are stopped and nothing it asks for will run until an administrator restores it"
messages app_name_reserved = some "that name is reserved by the platform, so pick another one"
messages upload_too_large =
    some
      "the source archive is larger than this platform accepts, so leave out build output, dependencies and version control directories"
messages upload_not_gzip = some "the body must be a gzipped tar archive"
messages upload_limit_reached =
    some
      "this account is holding as many unused uploads as it may, so deploy one of them or wait for them to expire"
messages too_many_attempts = some "too many calls from this address, so wait a little and try again"
messages config_key_invalid =
    some
      "a configuration key must be upper case letters, digits, and underscores, not start with a digit, and appear once per call"
messages config_key_reserved =
    some "PORT and APP_URL are set by the platform and cannot be configured"
messages config_key_unknown =
    some "one of those keys is not set on this app, so nothing was removed"
messages config_flag_missing =
    some "every key needs its secret flag, so send secret true or false with each one"
messages config_too_many_keys = some "that would take the app past 64 configuration keys"
messages config_too_large =
    some "a value may be at most 4 KB and an app's whole configuration at most 32 KB"
messages (other s) = none

unfoldable pub valid : Reason → Bool
unfolding messages
valid r = is_some (messages r)

-- A missing key of the Go map reads as the empty string.
or_empty : Option String → String
or_empty none = ""
or_empty (some m) = m

-- An unknown code reads as internal.
unfoldable pub message : Reason → String
unfolding messages or_empty
message r = elim (messages r) [ some m ↦ m | none ↦ or_empty (messages internal) ]
