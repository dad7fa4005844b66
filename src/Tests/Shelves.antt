-- ===== src/Tests/Shelves.antt =====
-- Apps created, deleted and created again. Names are in lower case already.
use deployer.Base.{Text, List, codes, some, none, [], ◌∷◌, refl, ◌≡◌, ℕ, true, suc, zero}
use deployer.Domain.Slug.{reserved_label, derive_base, derive_slug_with_suffix}
use deployer.Apps.{
  count_live_apps_by_account, name_taken, App, Call, created, refused, app_name_taken,
  app_name_reserved, create_app, soft_delete_app, slug_exists,
}
use deployer.Apps.Taken.{Created, create_app-Created}
use deployer.Apps.Unique.{act_all, Op, creation, deletion, slug-never_reused}

abbrev suffixes : ℕ → Text
suffixes zero = codes "aaaaaa"
suffixes (suc zero) = codes "bbbbbb"
suffixes _ = codes "cccccc"

abbrev call : Text → Call
call name = record {
  to_lower = λ (s : Text). s;
  suffix = suffixes;
  now = 10;
  next_id = 7;
  accounts = 1 ∷ [];
  account_id = 1;
  name = name;
  limit = 2;
}

abbrev shop : App
shop = record {
  id = 7;
  account_id = 1;
  name = codes "shop";
  slug = codes "shop-aaaaaa";
  current_release_id = none;
  deleted_at = none;
  created_at = 10;
  updated_at = 10;
}

abbrev later_shop : App
later_shop = record shop { id = 8; slug = codes "shop-bbbbbb" }

abbrev old_shop : App
old_shop = record shop { deleted_at = some 20; updated_at = 20 }

first_shop : create_app (call (codes "shop")) [] ≡ (created shop, shop ∷ [])
unfolding create_app reserved_label derive_base count_live_apps_by_account slug_exists name_taken
    derive_slug_with_suffix
first_shop = refl

same_name : (create_app (call (codes "shop")) (shop ∷ [])).0 ≡ refused app_name_taken
unfolding create_app reserved_label derive_base count_live_apps_by_account slug_exists name_taken
    derive_slug_with_suffix
same_name = refl

reserved_name : (create_app (call (codes "admin")) []).0 ≡ refused app_name_reserved
unfolding create_app reserved_label derive_base count_live_apps_by_account slug_exists name_taken
    derive_slug_with_suffix
reserved_name = refl

gone_shop : soft_delete_app 20 7 [] (shop ∷ []) ≡ (none, old_shop ∷ [])
unfolding soft_delete_app
gone_shop = refl

-- The first suffix meets the slug of the deleted app, the second is free.
next_suffix :
    create_app (call (codes "shop")) (old_shop ∷ [])
    ≡ (created later_shop, later_shop ∷ old_shop ∷ [])
unfolding create_app reserved_label derive_base count_live_apps_by_account slug_exists name_taken
    derive_slug_with_suffix
next_suffix = refl

create_app-Created_example :
    Created (call (codes "shop")) (old_shop ∷ []) (create_app (call (codes "shop")) (old_shop ∷ []))
create_app-Created_example = create_app-Created (call (codes "shop")) (old_shop ∷ [])

abbrev some_ops : List Op
some_ops = creation (call (codes "shop")) ∷ deletion 20 7 [] ∷ []

there_before : slug_exists (codes "shop-aaaaaa") (shop ∷ []) ≡ true
unfolding slug_exists
there_before = refl

after_deletion :
    create_app (call (codes "shop")) (act_all (deletion 20 7 [] ∷ []) (shop ∷ []))
    ≡ (created later_shop, later_shop ∷ old_shop ∷ [])
unfolding create_app reserved_label derive_base count_live_apps_by_account slug_exists name_taken
    derive_slug_with_suffix soft_delete_app
after_deletion = refl

slug-never_reused_example : ¬ (later_shop.slug ≡ codes "shop-aaaaaa")
slug-never_reused_example =
    slug-never_reused (codes "shop-aaaaaa") (deletion 20 7 [] ∷ []) (shop ∷ [])
      (call (codes "shop")) later_shop (later_shop ∷ old_shop ∷ []) there_before after_deletion
