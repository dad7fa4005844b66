-- ===== src/Tests/Reaps.antt =====
-- A pass of the reaper.
use deployer.Base.{Text, codes, All, List, [], length, ltb, refl, some, ◌∷◌, ◌≡◌}
use deployer.Reconcile.Reaper.{IsOrphan, reap, reap-IsOrphan}

abbrev live_slugs : List Text
live_slugs = codes "a" ∷ codes "b" ∷ []

abbrev found_slugs : List Text
found_slugs = codes "b" ∷ codes "c" ∷ codes "d" ∷ []

-- Stopped after one delete.
reap-IsOrphan_example :
    All
      (IsOrphan (some live_slugs))
      (reap (some live_slugs) (some found_slugs) (λ tried. ltb 0 (length tried)))
reap-IsOrphan_example =
    reap-IsOrphan (some live_slugs) (some found_slugs) (λ tried. ltb 0 (length tried))

reaped : reap (some live_slugs) (some found_slugs) (λ tried. ltb 0 (length tried)) ≡ codes "c" ∷ []
unfolding reap
reaped = refl
