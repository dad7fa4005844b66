-- ===== src/Suspend/Told.antt =====
-- What a suspension and a restore do, and what they tell.
use deployer.Base.{
  Text, List, Bool, Option, some, none, true, false, [], ◌∷◌, ◌++◌, if◌then◌else◌, not, ◌&&◌, ◌==◌,
  ◌≡◌, ℕ, refl, sym, ap, ◌∙◌, arith, Bool-cases, inl, inr, text_eq, text_eq_refl,
}
use deployer.Suspend.{
  App, set_disabled, recorded, listed, scaled, reread, Trace, World, Result, stopped_but,
  not_locked, apps_unlisted, scale, scale_all, scale_listed, replicas_for, set,
}

-- The slugs of the scales that were refused, the first one first.
abbrev pub refused_onto : List Text → Trace → List Text
refused_onto acc [] = acc
refused_onto acc (scaled slug n ok ∷ tr) = refused_onto (if ok then acc else slug ∷ acc) tr
refused_onto acc (e ∷ tr) = refused_onto acc tr

scale-refused :
    (w : World) (slug : Text) (n : ℕ) (tr : Trace) (xs acc : List Text)
    → refused_onto (xs ++ acc) (scale w slug n tr).1
      ≡ refused_onto ((if (scale w slug n tr).0 then xs else slug ∷ xs) ++ acc) tr
unfolding scale
scale-refused w slug n tr xs acc = elim (Bool-cases w.has_cluster) [
  | inr local ↦ simp local refl
  | inl there ↦ elim (Bool-cases (w.scale_workload tr slug n)) [
    | inl ok ↦ simp (there, ok) refl
    | inr failed ↦ simp (there, failed) refl
  ]
]

scale_all-refused :
    (w : World) (n : ℕ) (apps : List App) (tr : Trace) (acc : List Text)
    → refused_onto acc (scale_all w n apps tr).1
      ≡ refused_onto ((scale_all w n apps tr).0 ++ acc) tr
unfolding scale_all
scale_all-refused w n [] tr acc = refl
scale_all-refused w n (app ∷ apps) tr acc =
    let x = scale w app.slug n tr in
    scale_all-refused w n apps (recorded app.id x.0 ∷ x.1) acc
    ∙ scale-refused w app.slug n tr (scale_all w n apps (recorded app.id x.0 ∷ x.1)).0 acc

abbrev pub same_flag : Bool → Bool → Bool
same_flag true b = b
same_flag false b = not b

-- The lockout is the first call and the only write to the store, and every scale is to `n`.
abbrev pub in_order : Text → Bool → ℕ → Trace → Bool
in_order account flag n [] = false
in_order account flag n (set_disabled a b ok ∷ []) = text_eq a account && (same_flag b flag && ok)
in_order account flag n (set_disabled a b ok ∷ (e ∷ tr)) = false
in_order account flag n (scaled slug m ok ∷ tr) = m == n && in_order account flag n tr
in_order account flag n (recorded target allowed ∷ tr) = in_order account flag n tr
in_order account flag n (listed ok ∷ tr) = in_order account flag n tr
in_order account flag n (reread a answer ∷ tr) = false

scale-in_order :
    (w : World) (account slug : Text) (flag : Bool) (n : ℕ) (tr : Trace)
    → in_order account flag n tr ≡ true
    → in_order account flag n (scale w slug n tr).1 ≡ true
unfolding scale
scale-in_order w account slug flag n tr h = ground (arith, h)

scale_all-in_order :
    (w : World) (account : Text) (flag : Bool) (n : ℕ) (apps : List App) (tr : Trace)
    → in_order account flag n tr ≡ true
    → in_order account flag n (scale_all w n apps tr).1 ≡ true
unfolding scale_all
scale_all-in_order w account flag n [] tr h = h
scale_all-in_order w account flag n (app ∷ apps) tr h =
    let x = scale w app.slug n tr in
    scale_all-in_order w account flag n apps (recorded app.id x.0 ∷ x.1)
      (scale-in_order w account app.slug flag n tr h)

-- What the caller is told, against the calls that were made.
abbrev pub Told : Text → Bool → ℕ → Result × Trace → Type 0
Told account flag n (stopped_but slugs, tr) =
    (slugs ≡ refused_onto [] tr) × (in_order account flag n tr ≡ true)
Told account flag n (apps_unlisted, tr) =
    (tr ≡ listed false ∷ (recorded account true ∷ (set_disabled account flag true ∷ [])))
Told account flag n (not_locked, tr) = (tr ≡ set_disabled account flag false ∷ [])

append-nil : (xs : List Text) → xs ++ [] ≡ xs
append-nil [] = refl
append-nil (x ∷ xs) = ap (λ t. x ∷ t) (append-nil xs)

locked_in_order :
    (account : Text) (flag : Bool) (n : ℕ)
    → in_order account flag n
        (listed true ∷ (recorded account true ∷ (set_disabled account flag true ∷ [])))
      ≡ true
locked_in_order account true n = rw (text_eq_refl account) refl
locked_in_order account false n = rw (text_eq_refl account) refl

listed-Told :
    (w : World) (account : Text) (flag : Bool) (n : ℕ) (apps : Option (List App))
    → Told account flag n
        (scale_listed w n apps (recorded account true ∷ (set_disabled account flag true ∷ [])))
unfolding scale_listed
listed-Told w account flag n none = refl
listed-Told w account flag n (some apps) =
    let tr : Trace =
      listed true ∷ (recorded account true ∷ (set_disabled account flag true ∷ [])) in
    (
      sym (append-nil (scale_all w n apps tr).0) ∙ sym (scale_all-refused w n apps tr []),
      scale_all-in_order w account flag n apps tr (locked_in_order account flag n),
    )

-- Whatever the store and the cluster answer: the lockout is written first and nothing is scaled unless
-- it landed; every scale of a suspension is to zero and every one of a restore to the serving count;
-- and the slugs that the caller is told are, in order, exactly those whose scale was refused.
pub set-Told :
    (w : World) (account : Text) (suspended : Bool)
    → Told account suspended (replicas_for w suspended) (set w account suspended [])
unfolding set
set-Told w account suspended = elim (Bool-cases (w.lock [])) [
  | inl landed ↦ simp landed (
      listed-Told w account suspended (replicas_for w suspended)
        (w.deployed_apps (recorded account true ∷ (set_disabled account suspended true ∷ []))))
  | inr shut ↦ simp shut refl
]
