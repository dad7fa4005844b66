-- ===== src/Tests/Suspensions.antt =====
-- An account with two apps, of which the cluster refuses one.
use deployer.Base.{codes, some, true, not, [], ◌∷◌, refl, ◌≡◌, text_eq}
use deployer.Suspend.{App, World, set, sweep_suspended, stopped_but}
use deployer.Suspend.Held.{all_held, sweep_suspended-all_held}

abbrev shop : App
shop = record { id = codes "app_1"; slug = codes "shop" }

abbrev blog : App
blog = record { id = codes "app_2"; slug = codes "blog" }

abbrev world : World
world = record {
  has_cluster = true;
  lock = λ tr. true;
  deployed_apps = λ tr. some (blog ∷ shop ∷ []);
  suspended_apps = λ tr. some (
      record { app = shop; account_id = codes "acc_1" }
      ∷ record { app = blog; account_id = codes "acc_2" }
      ∷ []);
  account_suspended = λ tr a. some (text_eq a (codes "acc_1"));
  scale_workload = λ tr slug n. not (text_eq slug (codes "shop"));
}

shop_refused : (set world (codes "acc_1") true []).0 ≡ stopped_but (codes "shop" ∷ [])
unfolding set
shop_refused = refl

sweep_suspended-all_held_example : all_held world (sweep_suspended world []) ≡ true
sweep_suspended-all_held_example = sweep_suspended-all_held world
