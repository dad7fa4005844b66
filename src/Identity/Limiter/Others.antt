-- ===== src/Identity/Limiter/Others.antt =====
-- What the calls about other keys and addresses do to a lockout: nothing.
use deployer.Base.{
  Text, Option, All, Bool, Bool-cases, List, [], arith, false, inl, inr, ltb, none, refl, some,
  text_eq, ℕ, ◌-◌, ◌∙◌, ◌∷◌, ◌≡◌, ◌≤◌,
}
use deployer.Identity.Limiter.{
  TokenOps, left_of, sweep, Settings, Attempts, Limiter, allow, unless, idle_eviction, locked_out,
  failed, idle_attempts, charge, succeeded,
}

-- A call of the limiter.
pub data Call : Type 0 where
  allow_call failed_call succeeded_call : Text → Call

abbrev pub about : Text → Call → Bool
about key (allow_call client) = false
about key (failed_call k) = text_eq k key
about key (succeeded_call k) = text_eq k key

module _ {T : Type 0} (ops : TokenOps T) (s : Settings) where
  abbrev pub perform : ℕ → Call → Limiter T → Limiter T
  perform now (allow_call client) l = (allow ops client now l).1
  perform now (failed_call key) l = failed s key now l
  perform now (succeeded_call key) l = succeeded key l

  abbrev pub perform_all : List (ℕ × Call) → Limiter T → Limiter T
  perform_all [] l = l
  perform_all ((now, c) ∷ cs) l = perform_all cs (perform now c l)

left_of-unless :
    (now t : ℕ) (o : Option Attempts)
    → now ≤ t
    → left_of (unless (idle_attempts now) o) t ≡ left_of o t
unfolding left_of
left_of-unless now t none q = refl
left_of-unless now t (some a) q = ground arith

locked_out-sweep :
    {T : Type 0} (key : Text) (now t : ℕ) (l : Limiter T)
    → now ≤ t
    → left_of ((sweep now l).failures key) t ≡ left_of (l.failures key) t
unfolding sweep
locked_out-sweep key now t l q = elim (Bool-cases (ltb (now - l.swept) idle_eviction)) [
  | inl soon ↦ rw soon refl
  | inr late ↦ rw late (left_of-unless now t (l.failures key) q)
]

module _ {T : Type 0} (ops : TokenOps T) (s : Settings) where
  perform-elsewhere :
      (key : Text) (now t : ℕ) (c : Call) (l : Limiter T)
      → now ≤ t
      → about key c ≡ false
      → left_of ((perform ops s now c l).failures key) t ≡ left_of (l.failures key) t
  unfolding allow charge failed succeeded
  perform-elsewhere key now t (allow_call []) l q h = refl
  perform-elsewhere key now t (allow_call (b ∷ bs)) l q h = locked_out-sweep key now t l q
  perform-elsewhere key now t (failed_call k) l q h = rw h (locked_out-sweep key now t l q)
  perform-elsewhere key now t (succeeded_call k) l q h = rw h refl

  -- Calls made up to the time `t`, none of which reports a credential of the key, leave the key's
  -- answer at `t` as it was: a sweep drops no lockout that still runs, and Allow frees nobody.
  pub locked_out-perform_all :
      (key : Text) (t : ℕ) (cs : List (ℕ × Call)) (l : Limiter T)
      → All (λ (c : ℕ × Call). (c.0 ≤ t) × (about key c.1 ≡ false)) cs
      → locked_out key t (perform_all ops s cs l) ≡ locked_out key t l
  unfolding locked_out
  locked_out-perform_all key t [] l h = refl
  locked_out-perform_all key t ((now, c) ∷ cs) l h =
      locked_out-perform_all key t cs (perform ops s now c l) h.1
      ∙ perform-elsewhere key now t c l h.0.0 h.0.1
