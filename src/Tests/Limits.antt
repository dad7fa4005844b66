-- ===== src/Tests/Limits.antt =====
-- The limiter, at concrete times. A token is a whole number here.
use deployer.Base.{
  Text, codes, List, [], arith, ltb, min, refl, true, ℕ, ◌*◌, ◌+◌, ◌-◌, ◌/◌, ◌∷◌, ◌≡◌,
}
use deployer.Identity.Limiter.{
  TokenOps, second, locked_out, sign_in_settings, succeeded, new_limiter,
}
use deployer.Identity.Limiter.Lockout.{Steady, answer, fail_all, locked_out-fail_all}
use deployer.Identity.Limiter.Others.{Call, failed_call, allow_call}

whole_tokens : TokenOps ℕ
whole_tokens = record {
  capacity = 10;
  refilled = λ now seen. (now - seen) / (6 * second);
  add = λ a b. a + b;
  least = λ a b. min a b;
  below_one = λ a. ltb a 1;
  minus_one = λ a. a - 1;
}

abbrev mail : Text
mail = codes "a@b.c"

abbrev bad_times : List ℕ
bad_times = 11 * second ∷ 12 * second ∷ 13 * second ∷ 14 * second ∷ 15 * second ∷ []

bad_times-Steady : Steady (10 * second) bad_times
bad_times-Steady = (omega arith, (omega arith, (omega arith, (omega arith, (omega arith, tt)))))

locked_out-fail_all_example :
    locked_out mail (20 * second) (
      fail_all {T = ℕ} sign_in_settings mail (succeeded mail new_limiter) (10 * second ∷ bad_times))
    ≡ answer 6 (15 * second) (20 * second)
locked_out-fail_all_example =
    locked_out-fail_all mail new_limiter (10 * second) bad_times (20 * second) bad_times-Steady

-- Six bad credentials cost a minute, of which 55 seconds are left.
six_bad : answer 6 (15 * second) (20 * second) ≡ (55 * second, true)
six_bad = refl

abbrev other_calls : List (ℕ × Call)
other_calls = (16 * second, failed_call (codes "x@y.z")) ∷ (17 * second, allow_call mail) ∷ []
