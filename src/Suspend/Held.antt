-- ===== src/Suspend/Held.antt =====
-- What the sweep may scale, and when.
use deployer.Base.{
  List, Bool, Option, some, none, true, false, [], ◌∷◌, ◌&&◌, ◌==◌, ◌≡◌, refl, Bool-cases, inl, inr,
  All, Text, any, text_eq, text_eq_refl, any_self,
}
use deployer.Suspend.{
  SuspendedApp, Event, set_disabled, recorded, listed, scaled, reread, Trace, World, scale, hold,
  sweep_apps, sweep_listed, sweep_suspended,
}

-- The listing has an app of that slug, of that account.
abbrev pub has_app : Text → Text → Option (List SuspendedApp) → Bool
has_app slug account none = false
has_app slug account (some apps) =
    any (λ (a : SuspendedApp). text_eq a.app.slug slug && text_eq a.account_id account) apps

abbrev pub is_true : Option Bool → Bool
is_true none = false
is_true (some b) = b

-- A call of the sweep: a scale is to zero, and of an app that was listed for the account that was read
-- directly before it, of which the store answered that it is suspended.
abbrev pub held : World → Event → Trace → Bool
held w (scaled slug n ok) (reread account answer ∷ tr) =
    n == 0
    && is_true answer
    && is_true (w.account_suspended tr account)
    && has_app slug account (w.suspended_apps [])
held w (scaled slug n ok) tr = false
held w (reread account answer) tr = true
held w (listed ok) tr = true
held w (set_disabled account suspended ok) tr = false
held w (recorded target allowed) tr = false

abbrev pub all_held : World → Trace → Bool
all_held w [] = true
all_held w (e ∷ tr) = held w e tr && all_held w tr

hold-all_held :
    (w : World) (a : SuspendedApp) (answer : Option Bool) (tr : Trace)
    → w.account_suspended tr a.account_id ≡ answer
    → has_app a.app.slug a.account_id (w.suspended_apps []) ≡ true
    → all_held w tr ≡ true
    → all_held w (hold w a answer (reread a.account_id answer ∷ tr)) ≡ true
unfolding scale
hold-all_held w a none tr e there h = h
hold-all_held w a (some true) tr e there h = elim (Bool-cases w.has_cluster) [
  | inl cluster ↦ rw cluster (rw (e, there) h)
  | inr local ↦ rw local h
]
hold-all_held w a (some false) tr e there h = h

-- The rows that are left are all of the listing.
abbrev pub Listed : World → List SuspendedApp → Type 0
Listed w apps =
    All (λ (a : SuspendedApp). has_app a.app.slug a.account_id (w.suspended_apps []) ≡ true) apps

sweep_apps-all_held :
    (w : World) (apps : List SuspendedApp) (tr : Trace)
    → Listed w apps
    → all_held w tr ≡ true
    → all_held w (sweep_apps w apps tr) ≡ true
unfolding sweep_apps
sweep_apps-all_held w [] tr l h = h
sweep_apps-all_held w (a ∷ rest) tr l h =
    let answer = w.account_suspended tr a.account_id in
    sweep_apps-all_held w rest (hold w a answer (reread a.account_id answer ∷ tr)) l.1
      (hold-all_held w a answer tr refl l.0 h)

sweep_listed-all_held :
    (w : World) (apps : Option (List SuspendedApp))
    → w.suspended_apps [] ≡ apps
    → all_held w (sweep_listed w apps []) ≡ true
unfolding sweep_listed
sweep_listed-all_held w none e = refl
sweep_listed-all_held w (some apps) e =
    sweep_apps-all_held w apps (listed true ∷ [])
      (rw e (
        any_self (λ a b. text_eq b.app.slug a.app.slug && text_eq b.account_id a.account_id) apps
          (λ a. rw (text_eq_refl a.app.slug, text_eq_refl a.account_id) refl)))
      refl

-- Whatever the store and the cluster answer, the sweep writes nothing to the store, scales nothing up,
-- and scales a workload to zero only directly after it has read that an account is still suspended to
-- which the listing assigns an app of that slug, and only if that is what the store answered.
pub sweep_suspended-all_held : (w : World) → all_held w (sweep_suspended w []) ≡ true
unfolding sweep_suspended
sweep_suspended-all_held w = elim (Bool-cases w.has_cluster) [
  | inl there ↦ simp there (sweep_listed-all_held w (w.suspended_apps []) refl)
  | inr local ↦ simp local refl
]
