-- ===== src/Identity/Limiter.antt =====
-- internal/identity/limiter.go: a token bucket per client address, and a doubling lockout per key.
-- A Time is the number of nanoseconds since the first of January of year 1, so that the zero Time is
-- 0; a Duration is a number of nanoseconds, and the one that is computed by a shift has its 64 bits
-- written out. The reading of the clock is an argument, and the mutex makes each method one step. A
-- map is a function from keys. Floating point is a parameter: `TokenOps` names what Allow computes.
pub mod Lockout
pub mod Others
use deployer.Base.{
  Text, Option, none, some, Bool, true, false, ℕ, [], if◌then◌else◌, leb, ltb, not, text_eq, ◌%◌,
  ◌&&◌, ◌*◌, ◌+◌, ◌-◌, ◌==◌, ◌^◌, ◌||◌,
}

abbrev pub second : ℕ
second = 1000000000

pub record Settings : Type 0 where
  pub failures_before_lockout : ℕ
  pub lockout_base : ℕ
  pub lockout_ceiling : ℕ

abbrev pub sign_in_settings : Settings
sign_in_settings = record {
  failures_before_lockout = 5;
  lockout_base = 30 * second;
  lockout_ceiling = 15 * 60 * second;
}

abbrev pub deploy_path_settings : Settings
deploy_path_settings = record {
  failures_before_lockout = 5;
  lockout_base = 30 * second;
  lockout_ceiling = 15 * 60 * second;
}

-- time.Hour
abbrev pub idle_eviction : ℕ
idle_eviction = 3600 * second

pub record Bucket (T : Type 0) : Type 0 where
  pub tokens : T
  pub seen : ℕ

pub record Attempts : Type 0 where
  pub failures : ℕ
  pub until : ℕ
  pub seen : ℕ

-- `capacity`, and the operations of float64 in Allow: `refilled now seen` is the division of the
-- seconds that passed by those of BucketRefill.
pub record TokenOps (T : Type 0) : Type 0 where
  pub capacity : T
  pub refilled : ℕ → ℕ → T
  pub add : T → T → T
  pub least : T → T → T
  pub below_one : T → Bool
  pub minus_one : T → T

pub record Limiter (T : Type 0) : Type 0 where
  pub buckets : Text → Option (Bucket T)
  pub failures : Text → Option Attempts
  pub swept : ℕ

abbrev pub new_limiter : {T : Type 0} → Limiter T
new_limiter = record { buckets = λ _. none; failures = λ _. none; swept = 0 }

-- m[k] = v, and delete(m, k).
abbrev pub store : {A : Type 0} → Text → Option A → (Text → Option A) → Text → Option A
store k v m j = if text_eq k j then v else m j

abbrev pub idle_bucket : {T : Type 0} → ℕ → Bucket T → Bool
idle_bucket now b = ltb idle_eviction (now - b.seen)

abbrev pub idle_attempts : ℕ → Attempts → Bool
idle_attempts now a = ltb idle_eviction (now - a.seen) && not (ltb now a.until)

-- One round of a loop of `sweep`.
abbrev pub unless : {A : Type 0} → (A → Bool) → Option A → Option A
unless drop none = none
unless drop (some a) = if drop a then none else some a

unfoldable pub sweep : {T : Type 0} → ℕ → Limiter T → Limiter T
sweep now l = if ltb (now - l.swept) idle_eviction then l else (record {
  buckets = λ k. unless (idle_bucket now) (l.buckets k);
  failures = λ k. unless (idle_attempts now) (l.failures k);
  swept = now;
})

module _ {T : Type 0} (ops : TokenOps T) where
  -- The allowance before the call is charged.
  unfoldable pub allowance : ℕ → Option (Bucket T) → T
  allowance now none = ops.capacity
  allowance now (some b) = ops.least ops.capacity (ops.add b.tokens (ops.refilled now b.seen))

  unfoldable pub charge : Text → ℕ → Limiter T → Bool × Limiter T
  unfolding allowance
  charge client now l =
      let tokens = allowance now (l.buckets client) in
      let left = if ops.below_one tokens then tokens else ops.minus_one tokens in
      (
        not (ops.below_one tokens),
        record l { buckets = store client (some (record { tokens = left; seen = now })) l.buckets },
      )

  unfoldable pub allow : Text → ℕ → Limiter T → Bool × Limiter T
  unfolding charge sweep
  allow client now l = if text_eq client [] then (true, l) else charge client now (sweep now l)

unfoldable pub left_of : Option Attempts → ℕ → ℕ × Bool
left_of none now = (0, false)
left_of (some a) now = if not (ltb now a.until) then (0, false) else (a.until - now, true)

unfoldable pub locked_out : {T : Type 0} → Text → ℕ → Limiter T → ℕ × Bool
unfolding left_of
locked_out key now l = left_of (l.failures key) now

-- `base << n` on 64 bits; a Duration is signed, so that half of the values are not above 0.
unfoldable pub delay : Settings → ℕ → ℕ
delay s failures =
    let d = (s.lockout_base * 2 ^ (failures - s.failures_before_lockout)) % 2 ^ 64 in
    if ltb s.lockout_ceiling d || (d == 0 || leb (2 ^ 63) d) then s.lockout_ceiling else d

abbrev pub run_of : Option Attempts → Attempts
run_of none = record { failures = 0; until = 0; seen = 0 }
run_of (some a) = a

-- One more bad credential in a run.
unfoldable pub one_more : Settings → ℕ → Attempts → Attempts
unfolding delay
one_more s now a =
    if ltb (a.failures + 1) s.failures_before_lockout
    then (record a { failures = a.failures + 1; seen = now })
    else (record { failures = a.failures + 1; until = now + delay s (a.failures + 1); seen = now })

unfoldable pub failed : {T : Type 0} → Settings → Text → ℕ → Limiter T → Limiter T
unfolding sweep one_more
failed s key now l =
    let swept_l = sweep now l in
    record swept_l {
      failures = store key (some (one_more s now (run_of (swept_l.failures key)))) swept_l.failures;
    }

unfoldable pub succeeded : {T : Type 0} → Text → Limiter T → Limiter T
succeeded key l = record l { failures = store key none l.failures }
