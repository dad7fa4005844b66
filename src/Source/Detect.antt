-- ===== src/Source/Detect.antt =====
-- internal/source/detect.go: whether an archive unpacks to a Dockerfile at the root.
pub mod Agrees
pub mod Root
use deployer.Base.{
  Text, List, Bool, Option, some, none, true, false, [], ◌∷◌, if◌then◌else◌, not, ◌&&◌, ◌||◌, ltb,
  leb, ◌+◌, ◌-◌, min, text_eq, codes, ℕ,
}
use deployer.Source.Paths.{clean}
use deployer.Source.Extract.{Kind, dir, reg, other, Entry, Archive, Limits}

abbrev pub root_dockerfile : Text
root_dockerfile = codes "Dockerfile"

-- boundedReader.Read into `len` bytes with `left` to come, where the reader below yields `n` bytes at
-- most: the bytes read and what is left, or the refusal.
unfoldable pub bounded_read : ℕ → ℕ → ℕ → Option (ℕ × ℕ)
bounded_read left len n =
    if leb left 0 then none else some (min n (min len left), left - min n (min len left))

abbrev pub is_reg : Kind → Bool
is_reg reg = true
is_reg dir = false
is_reg (other flag) = false

abbrev pub is_root_dockerfile : Entry → Bool
is_root_dockerfile e = is_reg e.kind && text_eq (clean e.name) root_dockerfile

-- The loop. `over files` tells whether the bounded reader refuses before the next header.
unfoldable pub detect : (ℕ → Bool) → Limits → Bool → ℕ → Bool → List Entry → Option Bool
unfolding clean
detect over lim ends files found [] = if over files || not ends then none else some found
detect over lim ends files found (e ∷ es) =
    let rest = detect over lim ends (files + 1) (found || is_root_dockerfile e) es in
    if over files then none else if ltb lim.max_files (files + 1) then none else rest

-- `none` for an error.
unfoldable pub has_root_dockerfile : (ℕ → Bool) → Limits → Archive → Option Bool
unfolding detect
has_root_dockerfile over lim a =
    if not a.is_gzip then none else detect over lim a.ends 0 false a.entries
