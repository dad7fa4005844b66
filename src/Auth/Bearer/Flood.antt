-- ===== src/Auth/Bearer/Flood.antt =====
-- Authenticate over its limiter: five bad tokens from one address shut it, a good one included.
use deployer.Base.{
  Text, ℕ, List, Option, [], ◌∷◌, All, Bool-cases, ap, arith, false, inl, inr, is_nil, length, refl,
  some, ◌+◌, ◌<◌, ◌∙◌, ◌≡◌, ◌≤◌, none, text_eq_refl, true, ◌*◌,
}
use deployer.Identity.Limiter.{Limiter, sign_in_settings, locked_out, succeeded, left_of, second}
use deployer.Auth.Bearer.{Verifier, authenticate, unknown, fail, judge_token, failed, refuse}
use deployer.Identity.Limiter.Lockout.{
  answer, run_at, answer-left_of, Steady, fail_all, failed_goes_on, one_more-run_at, last_of,
  failed_first, locked_out-fail_all,
}
use deployer.Auth.{nobody, too_many_attempts}

-- A token, the time at which the limiter is asked and that at which it counts.
abbrev pub Try : Type 0
Try = Text × (ℕ × ℕ)

abbrev pub times_of : List Try → List ℕ
times_of [] = []
times_of ((raw, (asked, now)) ∷ tries) = now ∷ times_of tries

abbrev pub IsBad : Verifier → Try → Type 0
IsBad v (raw, times) = v.resolve_token (v.hash raw) ≡ unknown

abbrev pub lockout_after :
    {T : Type 0} → Verifier → Text → Option (Limiter T) → List Try → Option (Limiter T)
lockout_after v client l [] = l
lockout_after v client l ((raw, (asked, now)) ∷ tries) =
    lockout_after v client (authenticate sign_in_settings v raw client asked now l).lockout tries

-- A bad token from an address that is not locked out counts once.
bad-counts :
    {T : Type 0} (v : Verifier) (raw client : Text) (asked now : ℕ) (l : Limiter T)
    → is_nil client ≡ false
    → (locked_out client asked l).1 ≡ false
    → v.resolve_token (v.hash raw) ≡ unknown
    → (authenticate sign_in_settings v raw client asked now (some l)).lockout
      ≡ some (failed sign_in_settings client now l)
unfolding authenticate fail judge_token
bad-counts v raw client asked now l named free bad = elim (Bool-cases (is_nil raw)) [
  | inl bare ↦ rw (named, free, bare) refl
  | inr sent ↦ rw (named, free, sent, bad, judge_token, named) refl
]

-- Fewer than five lock nothing.
free_below : (n at t : ℕ) → n < 5 → (answer n at t).1 ≡ false
free_below n at t h = ground arith

free_run :
    {T : Type 0} (client : Text) (l : Limiter T) (n at t : ℕ)
    → l.failures client ≡ some (run_at n at)
    → n < 5
    → (locked_out client t l).1 ≡ false
unfolding locked_out
free_run client l n at t h few =
    rw h (ap (λ p. p.1) (answer-left_of n at t) ∙ free_below n at t few)

run-counts :
    {T : Type 0} (v : Verifier) (client : Text) (l : Limiter T) (n at : ℕ) (tries : List Try)
    → is_nil client ≡ false
    → l.failures client ≡ some (run_at n at)
    → n + length tries ≤ 5
    → Steady at (times_of tries)
    → All (IsBad v) tries
    → lockout_after v client (some l) tries
      ≡ some (fail_all sign_in_settings client l (times_of tries))
run-counts v client l n at [] named h few steady bad = refl
run-counts v client l n at ((raw, (asked, now)) ∷ tries) named h few steady bad =
    let free = free_run client l n at asked h (omega arith) in
    let next = failed sign_in_settings client now l in
    let counted =
      failed_goes_on sign_in_settings client now l (run_at n at) h steady.0
      ∙ ap some (one_more-run_at n at now) in
    ap (λ x. lockout_after v client x tries) (bad-counts v raw client asked now l named free bad.0)
    ∙ run-counts v client next (n + 1) now tries named counted (omega arith) steady.1 bad.1

-- After the first bad token.
begun :
    {T : Type 0} (client : Text) (now : ℕ) (l : Limiter T)
    → (failed sign_in_settings client now (succeeded client l)).failures client
      ≡ some (run_at 1 now)
unfolding succeeded
begun client now l =
    let cleared : (succeeded client l).failures client ≡ none = rw (text_eq_refl client) refl in
    failed_first sign_in_settings client now (succeeded client l) cleared
    ∙ ap some (one_more-run_at 0 0 now)

never_locked :
    {T : Type 0} (client : Text) (t : ℕ) (l : Limiter T)
    → (locked_out client t (succeeded client l)).1 ≡ false
unfolding locked_out left_of succeeded
never_locked client t l = rw (text_eq_refl client) refl

all-count :
    {T : Type 0} (v : Verifier) (client raw : Text) (asked now : ℕ) (tries : List Try)
    (l : Limiter T)
    → is_nil client ≡ false
    → length tries ≡ 4
    → Steady now (times_of tries)
    → All (IsBad v) ((raw, (asked, now)) ∷ tries)
    → lockout_after v client (some (succeeded client l)) ((raw, (asked, now)) ∷ tries)
      ≡ some (fail_all sign_in_settings client (succeeded client l) (now ∷ times_of tries))
all-count v client raw asked now tries l named n steady bad =
    ap (λ x. lockout_after v client x tries)
      (bad-counts v raw client asked now (succeeded client l) named (never_locked client asked l)
        bad.0)
    ∙ run-counts v client (failed sign_in_settings client now (succeeded client l)) 1 now tries
        named (begun client now l) (omega arith) steady bad.1

length-times_of : (tries : List Try) → length (times_of tries) ≡ length tries
length-times_of [] = refl
length-times_of (try ∷ tries) = omega (arith, length-times_of tries)

five_shut : (at t : ℕ) → t < at + 30 * second → (answer 5 at t).1 ≡ true
five_shut at t h = ground arith

-- Once an address whose record was cleared, as a good token does, has since presented five bad tokens and
-- nothing else, with no pause of more than an hour between two of them, it is answered too_many_attempts for 30 seconds after the last, whatever token it
-- presents: the store is not asked, and the lockout stays as it was.
pub authenticate-flood :
    {T : Type 0} (v : Verifier) (client first raw : Text) (asked now t u : ℕ) (tries : List Try)
    (l : Limiter T)
    → is_nil client ≡ false
    → length tries ≡ 4
    → Steady now (times_of tries)
    → All (IsBad v) ((first, (asked, now)) ∷ tries)
    → t < last_of now (times_of tries) + 30 * second
    → authenticate sign_in_settings v raw client t u
        (lockout_after v client (some (succeeded client l)) ((first, (asked, now)) ∷ tries))
      ≡ refuse sign_in_settings v nobody too_many_attempts
          (lockout_after v client (some (succeeded client l)) ((first, (asked, now)) ∷ tries))
unfolding authenticate
authenticate-flood v client first raw asked now t u tries l named n steady bad early =
    let after = fail_all sign_in_settings client (succeeded client l) (now ∷ times_of tries) in
    let five : 1 + length (times_of tries) ≡ 5 = omega (arith, length-times_of tries) in
    let shut : (locked_out client t after).1 ≡ true =
      ap (λ p. p.1) (locked_out-fail_all client l now (times_of tries) t steady)
      ∙ ap (λ k. (answer k (last_of now (times_of tries)) t).1) five
      ∙ five_shut (last_of now (times_of tries)) t early in
    rw (all-count v client first asked now tries l named n steady bad, named, shut) refl
