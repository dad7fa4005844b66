-- ===== src/Auth/Address.antt =====
-- internal/auth/clientaddr.go: the address that a request is counted under. Text is read as its runes.
use deployer.Base.{
  Text, List, Bool, Option, some, none, false, [], ◌∷◌, ◌++◌, is_nil, any, if◌then◌else◌, not, ◌&&◌,
  ◌==◌, text_eq, refl, ◌≡◌, arith,
}
use deployer.Domain.Image.{trim_space, before_colon?}

-- The parts of http.Request that are read. A header is the list of its values.
pub record Request : Type 0 where
  pub host : Text
  pub remote_addr : Text
  pub connecting_ip : List Text
  pub forwarded_for : List Text

-- Header.Get: the first value, or the empty text.
abbrev pub get : List Text → Text
get [] = []
get (v ∷ vs) = v

abbrev pub contains_comma : Text → Bool
contains_comma s = any (λ r. r == b',') s

-- The last part of strings.Split at the commas; `none` if there is no comma.
unfoldable pub after_comma? : Text → Option Text
after_comma? [] = none
after_comma? (r ∷ rs) = elim (after_comma? rs) [
  | some hop ↦ some hop
  | none ↦ if r == b',' then some rs else none
]

unfoldable pub last_hop : Text → Text
unfolding after_comma?
last_hop fwd = elim (after_comma? fwd) [ some hop ↦ hop | none ↦ fwd ]

-- Up to the last closing bracket, which it keeps; `none` if there is none.
unfoldable pub up_to_bracket? : Text → Option Text
up_to_bracket? [] = none
up_to_bracket? (r ∷ rs) = elim (up_to_bracket? rs) [
  | some host ↦ some (r ∷ host)
  | none ↦ if r == b']' then some (r ∷ []) else none
]

-- strings.Cut at a colon, or the whole text.
unfoldable pub cut_colon : Text → Text
unfolding before_colon?
cut_colon s = elim (before_colon? s) [ some h ↦ h | none ↦ s ]

unfoldable pub request_host : Text → Text
unfolding up_to_bracket? cut_colon
request_host host = elim (up_to_bracket? host) [ some h ↦ h | none ↦ cut_colon host ]

unfoldable pub trusted : Text → List Text → Bool
trusted host hosts =
    if is_nil host then false else any (λ h. not (is_nil h) && text_eq h host) hosts

-- The one value of CF-Connecting-IP, if it is one address.
unfoldable pub connecting_addr : List Text → Option Text
unfolding trim_space
connecting_addr (value ∷ []) =
    let addr = trim_space value in
    if not (is_nil addr) && not (contains_comma addr) then some addr else none
connecting_addr values = none

-- The derivation away from the public hostnames.
unfoldable pub derived_addr : Request → Text
unfolding last_hop trim_space cut_colon
derived_addr r =
    if not (is_nil (get r.forwarded_for))
    then trim_space (last_hop (get r.forwarded_for))
    else cut_colon r.remote_addr

unfoldable pub client_address : Request → List Text → Text
unfolding trusted request_host connecting_addr derived_addr
client_address r hosts =
    if trusted (request_host r.host) hosts
    then elim (connecting_addr r.connecting_ip) [ some addr ↦ addr | none ↦ derived_addr r ]
    else derived_addr r

no_comma-after : (hop : Text) → contains_comma hop ≡ false → after_comma? hop ≡ none
unfolding after_comma?
no_comma-after [] h = refl
no_comma-after (r ∷ rs) h = ground (arith, no_comma-after rs)

after_comma-append :
    (p hop : Text) → contains_comma hop ≡ false → after_comma? (p ++ (b',' ∷ hop)) ≡ some hop
unfolding after_comma?
after_comma-append [] hop h = rw (no_comma-after hop h) refl
after_comma-append (r ∷ p) hop h = rw (after_comma-append p hop h) refl

appended : (sent hop : Text) → is_nil (sent ++ (b',' ∷ hop)) ≡ false
appended [] hop = refl
appended (r ∷ sent) hop = refl

last_hop-append : (p hop : Text) → contains_comma hop ≡ false → last_hop (p ++ (b',' ∷ hop)) ≡ hop
unfolding last_hop
last_hop-append p hop h = rw (after_comma-append p hop h, last_hop) refl

-- On a hostname that is not one of the platform's public ones, a visitor cannot choose its address:
-- whatever stands in CF-Connecting-IP, and whatever X-Forwarded-For held before the proxy appended
-- the hop that it saw, the address is that hop.
pub client_address-last_hop :
    (r : Request) (hosts : List Text) (sent hop : Text) (more : List Text)
    → trusted (request_host r.host) hosts ≡ false
    → contains_comma hop ≡ false
    → client_address (record r { forwarded_for = (sent ++ (b',' ∷ hop)) ∷ more }) hosts
      ≡ trim_space hop
unfolding client_address derived_addr
client_address-last_hop r hosts sent hop more far h =
    rw (far, appended sent hop, last_hop-append sent hop h) refl
