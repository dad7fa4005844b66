-- ===== src/OAuth/Redirect/Registered.antt =====
-- Where a code can be sent.
use deployer.Base.{
  ap, ◌≤◌, Text, List, Bool, Bool-cases, inl, inr, Option, some, none, true, false, [], ◌∷◌, ◌≡◌,
  ◌⊎◌, is_nil, not, ◌&&◌, text_eq, text_eq_sound, any, arith, ◌∙◌, sym, length, ltb, ℕ,
}
use deployer.OAuth.Redirect.{
  Url, https, http, is_loopback_host, good_scheme, checks_out, is_loopback_uri, same_address,
  loopback_pair, check_redirect_uri, loopback_match, match_redirect_uri, Registration,
  register_client, registered, max_redirect_uris, client_metadata_invalid, redirect_uri_invalid,
}
use deployer.OAuth.{OAuthClient, create_oauth_client, Db}
use deployer.OAuth.Grant.{Library, max_client_name_len}

-- Over https to some host, or over http to the machine of the browser.
abbrev pub IsSafe : Option Url → Type 0
IsSafe none = ⊥
IsSafe (some u) =
    ((u.scheme ≡ https) × (is_nil u.host ≡ false))
    ⊎ ((u.scheme ≡ http) × (is_loopback_host u.hostname ≡ true))

-- Over http on the machine of the browser, with the same host name, path and query.
abbrev pub AgreesOnHost : Option Url → Option Url → Type 0
AgreesOnHost (some u) (some v) =
    (is_loopback_host u.hostname ≡ true)
    × (u.scheme ≡ http)
    × (v.scheme ≡ u.scheme)
    × (v.hostname ≡ u.hostname)
    × (v.path ≡ u.path)
    × (v.raw_query ≡ u.raw_query)
AgreesOnHost _ _ = ⊥

IsSafe-scheme : (u : Url) → good_scheme u ≡ true → IsSafe (some u)
IsSafe-scheme u h = elim (Bool-cases (text_eq u.scheme https)) [
  | inl is_https ↦
      let given : not (is_nil u.host) ≡ true = rw is_https at h in
      inl (text_eq_sound u.scheme https is_https, ground arith)
  | inr not_https ↦ elim (Bool-cases (text_eq u.scheme http)) [
    | inl is_http ↦
        let local : is_loopback_host u.hostname ≡ true = rw (not_https, is_http) at h in
        inr (text_eq_sound u.scheme http is_http, local)
    | inr neither ↦ let no : false ≡ true = rw (not_https, neither) at h in cc no
  ]
]

checked-IsSafe : (raw : Text) (o : Option Url) → checks_out raw o ≡ true → IsSafe o
checked-IsSafe raw none h = cc
checked-IsSafe raw (some u) h = IsSafe-scheme u (ground arith)

both : (p q : Bool) → (p && q) ≡ true → (p ≡ true) × (q ≡ true)
both p q h = ground arith

four :
    (p q r s t u : Bool)
    → (p && q && r && s && t && u) ≡ true
    → (p ≡ true) × (q ≡ true) × (r ≡ true) × (s ≡ true)
four p q r s t u h = ground arith

pair-AgreesOnHost : (u v : Option Url) → loopback_pair u v ≡ true → AgreesOnHost u v
pair-AgreesOnHost none v h = cc
pair-AgreesOnHost (some u) none h = ground arith
pair-AgreesOnHost (some u) (some v) h =
    let parts = both (is_loopback_uri (some u)) (same_address u (some v)) h in
    let local = both (text_eq u.scheme http) (is_loopback_host u.hostname) parts.0 in
    let same =
      four (text_eq v.scheme u.scheme) (text_eq v.hostname u.hostname) (text_eq v.path u.path)
        (text_eq v.raw_query u.raw_query) (is_nil v.fragment) (is_nil u.fragment) parts.1 in
    (
      local.1,
      text_eq_sound u.scheme http local.0,
      text_eq_sound v.scheme u.scheme same.0,
      text_eq_sound v.hostname u.hostname same.1,
      text_eq_sound v.path u.path same.2,
      text_eq_sound v.raw_query u.raw_query same.3,
    )

agrees-IsSafe : (u v : Option Url) → AgreesOnHost u v → IsSafe v
agrees-IsSafe none v d = absurd d
agrees-IsSafe (some u) none d = absurd d
agrees-IsSafe (some u) (some v) d = inr (d.2 ∙ d.1, rw d.3 d.0)

uris_in : Registration → List Text
uris_in (registered client) = client.redirect_uris
uris_in _ = []

module _ (parse : Text → Option Url) where
  -- One of the addresses is the requested one, or agrees with it on the machine of the browser.
  abbrev pub Among : List Text → Text → Type 0
  Among [] requested = ⊥
  Among (r ∷ rest) requested =
      (r ≡ requested) ⊎ (AgreesOnHost (parse r) (parse requested) ⊎ Among rest requested)

  matched :
      (uris : List Text) (requested out : Text)
      → any (λ (uri : Text). not (check_redirect_uri parse uri)) uris ≡ false
      → match_redirect_uri parse uris requested ≡ some out
      → (out ≡ requested) × Among uris requested × IsSafe (parse requested)
  unfolding match_redirect_uri check_redirect_uri
  matched [] requested out good h = cc
  matched (r ∷ rest) requested out good h = elim (Bool-cases (text_eq r requested)) [
    | inl same ↦
        let e = text_eq_sound r requested same in
        let here : some requested ≡ some out = rw same at h in
        (cc here, inl e, checked-IsSafe requested (parse requested) (rw (sym e) (ground arith)))
    | inr other ↦ elim (Bool-cases (loopback_match parse r requested)) [
      | inl local ↦
          let here : some requested ≡ some out = rw (other, local) at h in
          let d = pair-AgreesOnHost (parse r) (parse requested) local in
          (cc here, inr (inl d), agrees-IsSafe (parse r) (parse requested) d)
      | inr neither ↦
          let there : match_redirect_uri parse rest requested ≡ some out =
            rw (other, neither) at h in
          let ih = matched rest requested out (ground arith) there in (ih.0, inr (inr ih.1), ih.2)
    ]
  ]

  -- A registration that is written: between one and ten addresses, all of which check out.
  Registered : List Text → OAuthClient → Type 0
  Registered uris client =
      (client.redirect_uris ≡ uris)
      × (1 ≤ length uris)
      × (length uris ≤ max_redirect_uris)
      × (any (λ (uri : Text). not (check_redirect_uri parse uri)) uris ≡ false)

  register_client-Registered :
      (lib : Library) (now : ℕ) (name : Text) (uris : List Text) (db after : Db)
      (client : OAuthClient)
      → register_client parse lib now name uris db ≡ (registered client, after)
      → Registered uris client
  unfolding register_client create_oauth_client Registered uris_in
  register_client-Registered lib now name uris db after client h =
      elim (Bool-cases (ltb max_client_name_len (length name))) [
        | inl long ↦
            let no : client_metadata_invalid ≡ registered client =
              ap (λ (r : Registration × Db). r.0) (rw long at h) in
            cc no
        | inr short ↦ elim (Bool-cases (ltb (length uris) 1)) [
          | inl empty ↦
              let no : client_metadata_invalid ≡ registered client =
                ap (λ (r : Registration × Db). r.0) (rw (short, empty) at h) in
              cc no
          | inr some_uris ↦ elim (Bool-cases (ltb max_redirect_uris (length uris))) [
            | inl many ↦
                let no : redirect_uri_invalid ≡ registered client =
                  ap (λ (r : Registration × Db). r.0) (rw (short, some_uris, many) at h) in
                cc no
            | inr few ↦
                elim (Bool-cases (any (λ (uri : Text). not (check_redirect_uri parse uri)) uris)) [
                  | inl bad ↦
                      let no : redirect_uri_invalid ≡ registered client =
                        ap (λ (r : Registration × Db). r.0)
                          (rw (short, some_uris, few, bad) at h) in
                      cc no
                  | inr good ↦
                      let e =
                        ap (λ (r : Registration × Db). r.0)
                          (rw (short, some_uris, few, good) at h) in
                      (ap uris_in (sym e), ground arith, ground arith, good)
                ]
          ]
        ]
      ]

-- The address that a code is sent to, at a client that was registered, is the requested one. It is one of
-- the addresses that were registered, of which there are one to ten, or it has the scheme http, the host
-- name, the path and the query of one of these, the host name being one of the browser's own machine (its
-- port, and a user before the host, may be others); and it is reached over https, or on that machine.
pub register-match :
    (parse : Text → Option Url) (lib : Library) (now : ℕ) (name : Text) (uris : List Text)
    (db after : Db) (client : OAuthClient) (requested out : Text)
    → register_client parse lib now name uris db ≡ (registered client, after)
    → match_redirect_uri parse client.redirect_uris requested ≡ some out
    → (out ≡ requested)
      × (1 ≤ length uris)
      × (length uris ≤ max_redirect_uris)
      × Among parse uris requested
      × IsSafe (parse requested)
unfolding Registered
register-match parse lib now name uris db after client requested out h found =
    let r = register_client-Registered parse lib now name uris db after client h in
    let e = r.0 in
    let at_uris : match_redirect_uri parse uris requested ≡ some out = rw e at found in
    let m = matched parse uris requested out r.3 at_uris in (m.0, r.1, r.2, m.1, m.2)
