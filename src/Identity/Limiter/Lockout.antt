-- ===== src/Identity/Limiter/Lockout.antt =====
-- How long a key is locked out, and who can change that.
use native.Mathlib.Nat.{mul-mod_left, two-pow-succ, one-le-pow}
use deployer.Base.{
  Bool, check_below, min, refl, true, ℕ, ◌%◌, ◌*◌, ◌+◌, ◌==◌, ◌^◌, ◌≡◌, arith, suc, zero, ◌-◌,
  ==_iff, Bool-cases, List, Text, [], check_below_sound, if◌then◌else◌, inl, inr, ltb, ltb→lt, some,
  ◌∷◌, ◌≤◌, ap, false, sym, ◌∙◌, length, none, text_eq_refl,
}
use deployer.Identity.Limiter.{
  second, delay, sign_in_settings, Attempts, one_more, Settings, idle_eviction, failed, Limiter,
  sweep, idle_attempts, run_of, left_of, locked_out, succeeded,
}

-- The penalty for one more failure: doubled `n` times, and at most the ceiling.
abbrev pub capped : ℕ → ℕ
capped n = min (30 * second * 2 ^ n) (15 * 60 * second)

same_delay : ℕ → Bool
unfolding delay
same_delay n = delay sign_in_settings (5 + n) == capped n

-- The shifts by less than the width of the machine word.
small_shifts : check_below same_delay 64 ≡ true
unfolding same_delay delay
small_shifts = refl

doubled : (n : ℕ) → 2 ^ suc n ≡ 2 ^ n + 2 ^ n
doubled n = two-pow-succ n

pow_split : (m : ℕ) → 2 ^ (m + 64) ≡ 2 ^ m * 2 ^ 64
pow_split zero = refl
pow_split (suc m) =
    let q : suc m + 64 ≡ suc (m + 64) = omega arith in
    rw q (omega (arith, doubled m, doubled (m + 64), pow_split m))

-- Further shifts leave no bit of the base.
shifted_out : (m : ℕ) → (30 * second * 2 ^ (m + 64)) % 2 ^ 64 ≡ 0
shifted_out m =
    let q : 30 * second * 2 ^ (m + 64) ≡ (30 * second * 2 ^ m) * 2 ^ 64 =
      omega (arith, pow_split m) in
    rw q (mul-mod_left (30 * second * 2 ^ m) (2 ^ 64))

large_shift : (m : ℕ) → delay sign_in_settings (m + 64 + 5) ≡ 15 * 60 * second
unfolding delay
large_shift m = let q : m + 64 + 5 - 5 ≡ m + 64 = omega arith in rw (q, shifted_out m) refl

large_cap : (m : ℕ) → capped (m + 64) ≡ 15 * 60 * second
large_cap m = omega (arith, pow_split m, one-le-pow m 2 (omega arith))

same_delay_sound : (n : ℕ) → same_delay n ≡ true → delay sign_in_settings (5 + n) ≡ capped n
unfolding same_delay
same_delay_sound n h = (==_iff (delay sign_in_settings (5 + n)) (capped n)).0 h

past_the_word : (n : ℕ) → ltb n 64 ≡ false → delay sign_in_settings (5 + n) ≡ capped n
past_the_word n large =
    let q : 5 + n ≡ (n - 64) + 64 + 5 = ground arith in
    let p : n ≡ (n - 64) + 64 = ground arith in
    ap (delay sign_in_settings) q ∙ large_shift (n - 64) ∙ sym (ap capped p ∙ large_cap (n - 64))

-- On the sign-in settings the penalty after `5 + n` bad credentials, which a shift on 64 bits
-- computes, is the base doubled `n` times, up to the ceiling: no count wraps it around to a shorter
-- one.
pub delay-capped : (n : ℕ) → delay sign_in_settings (5 + n) ≡ capped n
delay-capped n = elim (Bool-cases (ltb n 64)) [
  | inl small ↦
      same_delay_sound n (check_below_sound same_delay 64 n small_shifts (ltb→lt n 64 small))
  | inr large ↦ past_the_word n large
]

-- When the window of a run of `n` bad credentials ends, of which the last came at `at`.
abbrev pub window : ℕ → ℕ → ℕ
window n at = if ltb n 5 then 0 else at + capped (n - 5)

abbrev pub run_at : ℕ → ℕ → Attempts
run_at n at = record { failures = n; until = window n at; seen = at }

delay_from : (k : ℕ) → ltb k 5 ≡ false → delay sign_in_settings k ≡ capped (k - 5)
delay_from k h =
    let q : k ≡ 5 + (k - 5) = ground arith in ap (delay sign_in_settings) q ∙ delay-capped (k - 5)

pub one_more-run_at :
    (n at now : ℕ) → one_more sign_in_settings now (run_at n at) ≡ run_at (n + 1) now
unfolding one_more
one_more-run_at n at now = elim (Bool-cases (ltb (n + 1) 5)) [
  | inl free ↦ let fewer : ltb n 5 ≡ true = ground arith in rw (free, fewer) refl
  | inr over ↦ rw (over, delay_from (n + 1) over) refl
]

-- Bad credentials against one key, at the times of the list.
abbrev pub fail_all : {T : Type 0} → Settings → Text → Limiter T → List ℕ → Limiter T
fail_all s key l [] = l
fail_all s key l (now ∷ times) = fail_all s key (failed s key now l) times

-- No pause of the run is longer than an hour.
abbrev pub Steady : ℕ → List ℕ → Type 0
Steady at [] = Unit
Steady at (now ∷ times) = (now - at ≤ idle_eviction) × Steady now times

abbrev pub last_of : ℕ → List ℕ → ℕ
last_of at [] = at
last_of at (now ∷ times) = last_of now times

sweep_keeps :
    {T : Type 0} (key : Text) (now : ℕ) (l : Limiter T) (a : Attempts)
    → l.failures key ≡ some a
    → idle_attempts now a ≡ false
    → (sweep now l).failures key ≡ some a
unfolding sweep
sweep_keeps key now l a h q = elim (Bool-cases (ltb (now - l.swept) idle_eviction)) [
  | inl soon ↦ rw soon h
  | inr late ↦ rw late (rw (h, q) refl)
]

pub failed_goes_on :
    {T : Type 0} (s : Settings) (key : Text) (now : ℕ) (l : Limiter T) (a : Attempts)
    → l.failures key ≡ some a
    → now - a.seen ≤ idle_eviction
    → (failed s key now l).failures key ≡ some (one_more s now a)
unfolding failed sweep
failed_goes_on s key now l a h q =
    let kept : idle_attempts now a ≡ false = ground arith in
    rw (sweep_keeps key now l a h kept, text_eq_refl key) refl

fail_all-run_at :
    {T : Type 0} (key : Text) (l : Limiter T) (n at : ℕ) (times : List ℕ)
    → l.failures key ≡ some (run_at n at)
    → Steady at times
    → (fail_all sign_in_settings key l times).failures key
      ≡ some (run_at (n + length times) (last_of at times))
fail_all-run_at key l n at [] h g = h ∙ ap (λ k. some (run_at k at)) (omega arith)
fail_all-run_at key l n at (now ∷ times) h g =
    fail_all-run_at key (failed sign_in_settings key now l) (n + 1) now times
      (failed_goes_on sign_in_settings key now l (run_at n at) h g.0
        ∙ ap some (one_more-run_at n at now))
      g.1
    ∙ ap (λ k. some (run_at k (last_of now times))) (omega arith)

pub failed_first :
    {T : Type 0} (s : Settings) (key : Text) (now : ℕ) (l : Limiter T)
    → l.failures key ≡ none
    → (failed s key now l).failures key ≡ some (one_more s now (run_of none))
unfolding failed sweep
failed_first s key now l h = elim (Bool-cases (ltb (now - l.swept) idle_eviction)) [
  | inl soon ↦ rw (soon, h, text_eq_refl key) refl
  | inr late ↦ rw (late, h, text_eq_refl key) refl
]

-- What LockedOut answers at `t` for a run of `n` bad credentials, of which the last came at `at`.
abbrev pub answer : ℕ → ℕ → ℕ → ℕ × Bool
answer n at t = if ltb t (window n at) then (window n at - t, true) else (0, false)

pub answer-left_of : (n at t : ℕ) → left_of (some (run_at n at)) t ≡ answer n at t
unfolding left_of
answer-left_of n at t = elim (Bool-cases (ltb t (window n at))) [
  | inl inside ↦ rw inside refl
  | inr outside ↦ rw outside refl
]

-- On the sign-in settings, after a good credential, whatever came before it, a run of bad ones with
-- no pause of more than an hour locks the key out exactly until 30 seconds, doubled for each one
-- beyond the fifth and at most 15 minutes, have passed since the last; four or fewer lock out nothing.
pub locked_out-fail_all :
    {T : Type 0} (key : Text) (l : Limiter T) (first : ℕ) (times : List ℕ) (t : ℕ)
    → Steady first times
    → locked_out key t (fail_all sign_in_settings key (succeeded key l) (first ∷ times))
      ≡ answer (1 + length times) (last_of first times) t
unfolding locked_out succeeded
locked_out-fail_all key l first times t g =
    let cleared : (succeeded key l).failures key ≡ none = rw (text_eq_refl key) refl in
    let begun =
      failed_first sign_in_settings key first (succeeded key l) cleared
      ∙ ap some (one_more-run_at 0 0 first) in
    ap (λ a. left_of a t)
      (fail_all-run_at key (failed sign_in_settings key first (succeeded key l)) 1 first times begun
        g)
    ∙ answer-left_of (1 + length times) (last_of first times) t
