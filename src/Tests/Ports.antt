-- ===== src/Tests/Ports.antt =====
-- The ports that a policy permits, at concrete lists.
use deployer.Base.{[], false, refl, true, ◌∷◌, ◌≡◌}
use deployer.Deploy.Ports.{allowed_port_ranges, permits}

mail_closed : permits (allowed_port_ranges (25 ∷ 465 ∷ [])) 25 ≡ false
unfolding allowed_port_ranges
mail_closed = refl

web_open : permits (allowed_port_ranges (25 ∷ 465 ∷ [])) 443 ≡ true
unfolding allowed_port_ranges
web_open = refl

-- Out of order, an entry that comes after a larger one stays open.
out_of_order : permits (allowed_port_ranges (10 ∷ 5 ∷ [])) 5 ≡ true
unfolding allowed_port_ranges
out_of_order = refl
