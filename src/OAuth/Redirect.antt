-- ===== src/OAuth/Redirect.antt =====
-- The redirect addresses of internal/identity/oauth.go, and RegisterClient of oauthgrant.go. What net/url
-- makes of an address is an argument.
pub mod Registered
use deployer.Base.{
  Text, List, Bool, Option, codes, some, none, true, false, [], ◌∷◌, is_nil, if◌then◌else◌, not,
  ◌&&◌, ◌||◌, ◌==◌, ltb, text_eq, any, length, ℕ,
}
use deployer.OAuth.{Db, OAuthClient, create_oauth_client}
use deployer.OAuth.Grant.{Library, clean_client_name, max_client_name_len}

pub record Url : Type 0 where
  pub is_abs : Bool
  pub scheme : Text
  pub opaque : Text
  -- The user and the password before an `@`, if there are any.
  pub user : Option Text
  pub host : Text
  pub hostname : Text
  pub path : Text
  pub raw_path : Text
  pub force_query : Bool
  pub raw_query : Text
  pub fragment : Text

abbrev pub https : Text
https = codes "https"

abbrev pub http : Text
http = codes "http"

abbrev pub max_redirect_uris : ℕ
max_redirect_uris = 10

abbrev pub is_loopback_host : Text → Bool
is_loopback_host host =
    text_eq host (codes "localhost")
    || text_eq host (codes "127.0.0.1")
    || text_eq host (codes "::1")

abbrev pub has_hash_sign : Text → Bool
has_hash_sign raw = any (λ c. c == b'#') raw

-- The switch on the scheme.
abbrev pub good_scheme : Url → Bool
good_scheme u =
    if text_eq u.scheme https
    then not (is_nil u.host)
    else if text_eq u.scheme http
    then is_loopback_host u.hostname
    else false

abbrev pub checks_out : Text → Option Url → Bool
checks_out raw none = false
checks_out raw (some u) =
    if not u.is_abs || not (is_nil u.fragment) || has_hash_sign raw then false else good_scheme u

abbrev pub is_loopback_uri : Option Url → Bool
is_loopback_uri none = false
is_loopback_uri (some u) = text_eq u.scheme http && is_loopback_host u.hostname

-- What the match compares. The user, the port and the spelling of the path are not compared.
abbrev pub same_address : Url → Option Url → Bool
same_address reg none = false
same_address reg (some req) =
    text_eq req.scheme reg.scheme
    && text_eq req.hostname reg.hostname
    && text_eq req.path reg.path
    && text_eq req.raw_query reg.raw_query
    && is_nil req.fragment
    && is_nil reg.fragment

abbrev pub loopback_pair : Option Url → Option Url → Bool
loopback_pair none req = false
loopback_pair (some reg) req = is_loopback_uri (some reg) && same_address reg req

pub data Registration : Type 0 where
  registered : OAuthClient → Registration
  client_metadata_invalid redirect_uri_invalid : Registration

module _ (parse : Text → Option Url) where
  unfoldable pub check_redirect_uri : Text → Bool
  check_redirect_uri raw = checks_out raw (parse raw)

  abbrev pub loopback_match : Text → Text → Bool
  loopback_match reg req = loopback_pair (parse reg) (parse req)

  unfoldable pub match_redirect_uri : List Text → Text → Option Text
  match_redirect_uri [] requested = none
  match_redirect_uri (candidate ∷ rest) requested =
      if text_eq candidate requested || loopback_match candidate requested
      then some requested
      else match_redirect_uri rest requested

  abbrev pub all_uris : List Text → Bool
  all_uris [] = true
  all_uris (raw ∷ rest) = is_loopback_uri (parse raw) && all_uris rest

  unfoldable pub all_loopback : List Text → Bool
  all_loopback [] = false
  all_loopback (raw ∷ rest) = all_uris (raw ∷ rest)

  abbrev pub recorded : OAuthClient × Db → Registration × Db
  recorded (client, db) = (registered client, db)

  unfoldable pub register_client : Library → ℕ → Text → List Text → Db → Registration × Db
  unfolding check_redirect_uri
  register_client lib now name uris db =
      if ltb max_client_name_len (length name)
      then (client_metadata_invalid, db)
      else if ltb (length uris) 1
      then (client_metadata_invalid, db)
      else if ltb max_redirect_uris (length uris)
      then (redirect_uri_invalid, db)
      else if any (λ (uri : Text). not (check_redirect_uri uri)) uris
      then (redirect_uri_invalid, db)
      else recorded (create_oauth_client now (clean_client_name lib name) uris db)
