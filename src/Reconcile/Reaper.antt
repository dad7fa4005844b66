-- ===== src/Reconcile/Reaper.antt =====
-- internal/reconcile/reaper.go: which app namespaces a pass of ReapOrphanNamespaces tries to delete.
-- A read answers `none` when it fails; `stop` is ctx.Err, asked with what was tried so far. A delete
-- that fails is only logged, so its answer changes nothing.
use mathlib.Core.Path.{subst}
use deployer.Base.{
  Text, Option, List, All, Bool, Bool-cases, [], any, arith, false, if◌then◌else◌, inl, inr, none,
  some, text_eq, text_eq_sound, true, ◌∷◌, ◌≡◌, sym,
}

abbrev pub owned : List Text → Text → Bool
owned live slug = any (λ l. text_eq l slug) live

-- The loop over the candidates; `tried` has the newest first.
unfoldable pub reap_each : List Text → (List Text → Bool) → List Text → List Text → List Text
reap_each live stop tried [] = []
reap_each live stop tried (slug ∷ rest) =
    let next = reap_each live stop tried rest in
    let after = reap_each live stop (slug ∷ tried) rest in
    if stop tried then [] else if owned live slug then next else slug ∷ after

unfoldable pub reap : Option (List Text) → Option (List Text) → (List Text → Bool) → List Text
unfolding reap_each
reap none candidates stop = []
reap (some live) none stop = []
reap (some live) (some candidates) stop = reap_each live stop [] candidates

reap_each-All :
    (live : List Text) (stop : List Text → Bool) (tried candidates : List Text)
    → All (λ s. owned live s ≡ false) (reap_each live stop tried candidates)
unfolding reap_each
reap_each-All live stop tried [] = tt
reap_each-All live stop tried (slug ∷ rest) = elim (Bool-cases (stop tried)) [
  | inl stopped ↦ rw stopped tt
  | inr goes_on ↦ elim (Bool-cases (owned live slug)) [
    | inl mine ↦ rw (goes_on, mine) (reap_each-All live stop tried rest)
    | inr orphan ↦ rw (goes_on, orphan) (orphan, reap_each-All live stop (slug ∷ tried) rest)
  ]
]

-- A slug that a read found to be owned by no live app.
abbrev pub IsOrphan : Option (List Text) → Text → Type 0
IsOrphan none s = ⊥
IsOrphan (some live) s = owned live s ≡ false

-- Whatever the two reads answer and whenever the pass is stopped, it tries to delete only namespaces
-- whose slug the read of the live apps, which has succeeded, does not hold.
pub reap-IsOrphan :
    (live candidates : Option (List Text)) (stop : List Text → Bool)
    → All (IsOrphan live) (reap live candidates stop)
unfolding reap
reap-IsOrphan none candidates stop = tt
reap-IsOrphan (some live) none stop = tt
reap-IsOrphan (some live) (some candidates) stop = reap_each-All live stop [] candidates

orphan-owned :
    (live : List Text) (slug s : Text)
    → text_eq slug s ≡ true
    → owned live s ≡ false
    → owned live slug ≡ false
orphan-owned live slug s e h = subst (λ x. owned live x ≡ false) (sym (text_eq_sound slug s e)) h

reap_each-owned :
    (live tried candidates : List Text) (s : Text)
    → owned candidates s ≡ true
    → owned live s ≡ false
    → owned (reap_each live (λ _. false) tried candidates) s ≡ true
unfolding reap_each
reap_each-owned live tried [] s h q = cc
reap_each-owned live tried (slug ∷ rest) s h q = ground (
  arith,
  orphan-owned live slug s,
  reap_each-owned live tried rest s,
  reap_each-owned live (slug ∷ tried) rest s,
)

-- A pass that is not stopped tries every candidate that no live app owns, whatever happens to the
-- ones before it.
pub reap-owned :
    (live candidates : List Text) (s : Text)
    → owned candidates s ≡ true
    → owned live s ≡ false
    → owned (reap (some live) (some candidates) (λ _. false)) s ≡ true
unfolding reap
reap-owned live candidates s h q = reap_each-owned live [] candidates s h q
