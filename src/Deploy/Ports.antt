-- ===== src/Deploy/Ports.antt =====
-- internal/deploy/portrange.go: the TCP ports that an app may reach, as the complement of a list.
use deployer.Base.{
  List, Bool, ℕ, All, [], any, arith, false, if◌then◌else◌, leb, ltb, not, refl, ◌&&◌, ◌+◌, ◌-◌,
  ◌<◌, ◌==◌, ◌||◌, ◌∷◌, ◌≡◌, ◌≤◌,
}

abbrev pub first_port : ℕ
first_port = 1

abbrev pub last_port : ℕ
last_port = 65535

pub record PortRange : Type 0 where
  pub port : ℕ
  pub end_port : ℕ

-- The loop, with `next`, and what follows it.
unfoldable pub ranges_from : ℕ → List ℕ → List PortRange
ranges_from next [] =
    if leb next last_port then record { port = next; end_port = last_port } ∷ [] else []
ranges_from next (port ∷ blocked) =
    let skipped = ranges_from next blocked in
    let rest = ranges_from (port + 1) blocked in
    if ltb port next || ltb last_port port
    then skipped
    else if ltb next port
    then record { port = next; end_port = port - 1 } ∷ rest
    else rest

unfoldable pub allowed_port_ranges : List ℕ → List PortRange
unfolding ranges_from
allowed_port_ranges blocked = ranges_from first_port blocked

abbrev pub in_range : ℕ → PortRange → Bool
in_range q r = leb r.port q && leb q r.end_port

-- Whether some range of a policy permits the port.
abbrev pub permits : List PortRange → ℕ → Bool
permits rs q = any (in_range q) rs

abbrev pub listed : List ℕ → ℕ → Bool
listed blocked q = any (λ p. p == q) blocked

abbrev pub Ascending : List ℕ → Type 0
Ascending [] = Unit
Ascending (p ∷ ps) = All (λ r. p ≤ r) ps × Ascending ps

not_below : (p q : ℕ) (ps : List ℕ) → All (λ r. p ≤ r) ps → q < p → listed ps q ≡ false
not_below p q [] h lt = refl
not_below p q (r ∷ ps) h lt = ground (arith, not_below p q ps h.1, h.0)

ranges_from-permits :
    (next q : ℕ) (blocked : List ℕ)
    → Ascending blocked
    → permits (ranges_from next blocked) q
      ≡ (leb next q && leb q last_port && not (listed blocked q))
unfolding ranges_from
ranges_from-permits next q [] h = ground arith
ranges_from-permits next q (p ∷ ps) h = ground (
  arith,
  ranges_from-permits next q ps h.1,
  ranges_from-permits (p + 1) q ps h.1,
  not_below p q ps h.0,
)

-- For a list in ascending order, repeats and numbers outside the port space included, the ranges
-- permit exactly the ports from 1 to 65535 that the list does not hold.
pub allowed_port_ranges-permits :
    (blocked : List ℕ) (q : ℕ)
    → Ascending blocked
    → permits (allowed_port_ranges blocked) q
      ≡ (leb first_port q && leb q last_port && not (listed blocked q))
unfolding allowed_port_ranges
allowed_port_ranges-permits blocked q h = ranges_from-permits first_port q blocked h
