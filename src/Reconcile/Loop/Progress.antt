-- ===== src/Reconcile/Loop/Progress.antt =====
-- The loop always comes back, and a tick ends the row that it claims.
use mathlib.Core.Path.{subst}
use deployer.Reconcile.World.{
  listed_rows, done, failed_with, out_of_fuel, claimed_row, claimed, no_work, claim_failed,
  asked_stop, Trace, World, Run, Options, Claim,
}
use deployer.Reconcile.Loop.{
  ticker, reaper, Outcome, Host, drive_claim, tick, continue, sweep_each, sweep, sweep_rows, serve,
  boot, both_passes, Deployment, Signal, reap_pass, policy_sweep,
}
use deployer.Reconcile.Drive.{drive}
use deployer.Reconcile.Ends.{ended_since, Passes}
use deployer.Reconcile.Ends.Whole.{finished, drive-finished}
use deployer.Base.{
  Bool, Bool-cases, List, [], arith, false, inl, inr, refl, true, ℕ, ◌<◌, ◌||◌, ◌∷◌, ◌≡◌, Option,
  none, some, sym,
}

abbrev pub returned : Outcome (Unit {0}) × Trace → Bool
returned (done u, tr) = true
returned (failed_with e, tr) = true
returned (out_of_fuel, tr) = false

-- The last claim got no row.
abbrev pub idle : Trace → Bool
idle (claimed_row no_work ∷ tr) = true
idle (claimed_row claim_failed ∷ tr) = true
idle tr = false

abbrev pub settled : Outcome (Unit {0}) × Trace → Bool
settled (done u, tr) = idle tr || ended_since tr
settled (failed_with e, tr) = false
settled (out_of_fuel, tr) = false

traced-settled :
    (x : Outcome (Unit {0}) × Run) → finished x ≡ true → settled (x.0, x.1.trace) ≡ true
traced-settled (done u, r) h = ground arith
traced-settled (failed_with e, r) h = cc
traced-settled (out_of_fuel, r) h = cc

returned-settled : (x : Outcome (Unit {0}) × Trace) → settled x ≡ true → returned x ≡ true
returned-settled (done u, tr) h = refl
returned-settled (failed_with e, tr) h = cc
returned-settled (out_of_fuel, tr) h = cc

-- The world's deadlines pass, and the fuel outlasts them.
module _ (w : World) (o : Options) (h : Host) (n fuel : ℕ) (t : Passes n w)
    (enough : n < fuel) where
  drive_claim-settled :
      (c : Claim) (tr : Trace) → settled (drive_claim w o h fuel c (claimed_row c ∷ tr)) ≡ true
  unfolding drive_claim
  drive_claim-settled no_work tr = refl
  drive_claim-settled claim_failed tr = refl
  drive_claim-settled (claimed dep) tr =
      let r : Run = record { dep = dep; trace = claimed_row (claimed dep) ∷ tr } in
      traced-settled (drive w o fuel r) (drive-finished w o n fuel r t enough)

  -- If the deadlines of the phases pass within `n` ticks and the fuel is above `n`, a tick returns,
  -- whatever came before it and whatever else is answered: either its claim got no row, or it has
  -- since made a call that ends the row it claimed.
  pub tick-settled : (tr : Trace) → settled (tick w o h fuel tr) ≡ true
  unfolding tick
  tick-settled tr =
      let tr1 = both_passes w o h (h.list_non_terminal tr) tr in
      drive_claim-settled (h.claim_next tr1) tr1

  continue-returned :
      (x : Outcome (Unit {0}) × Trace) (f : Trace → Outcome (Unit {0}) × Trace)
      → returned x ≡ true
      → ((tr : Trace) → returned (f tr) ≡ true)
      → returned (continue x f) ≡ true
  continue-returned (done u, tr) f a b = b tr
  continue-returned (failed_with e, tr) f a b = b tr
  continue-returned (out_of_fuel, tr) f a b = cc

  -- A sweep of those rows takes the calls from `tr` to `after`: each row in its turn is driven to an end,
  -- until none is left or the loop's context is done.
  pub data Swept : List Deployment → Trace → Trace → Type 0 where
    over : (tr : Trace) → Swept [] tr tr
    halted :
        (dep : Deployment) (deps : List Deployment) (tr : Trace)
        → h.stopped tr ≡ true
        → Swept (dep ∷ deps) tr (asked_stop true ∷ tr)
    driven :
        (dep : Deployment) (deps : List Deployment) (tr after : Trace)
        → h.stopped tr ≡ false
        → finished (drive w o fuel (record { dep = dep; trace = asked_stop false ∷ tr })) ≡ true
        → Swept deps
            (drive w o fuel (record { dep = dep; trace = asked_stop false ∷ tr })).1.trace
            after
        → Swept (dep ∷ deps) tr after

  sweep_each-returned :
      (deps : List Deployment) (tr : Trace) → returned (sweep_each w o h fuel deps tr) ≡ true
  unfolding sweep_each drive_claim
  sweep_each-returned [] tr = refl
  sweep_each-returned (dep ∷ deps) tr = elim (Bool-cases (h.stopped tr)) [
    | inl stop ↦ rw stop refl
    | inr on ↦
        let r : Run = record { dep = dep; trace = asked_stop false ∷ tr } in
        let x : Outcome (Unit {0}) × Trace = ((drive w o fuel r).0, (drive w o fuel r).1.trace) in
        rw on (
          continue-returned x (sweep_each w o h fuel deps)
            (returned-settled x
              (traced-settled (drive w o fuel r) (drive-finished w o n fuel r t enough)))
            (sweep_each-returned deps))
  ]

  continue-on :
      (x : Outcome (Unit {0}) × Trace) (f : Trace → Outcome (Unit {0}) × Trace)
      → returned x ≡ true
      → continue x f ≡ f x.1
  continue-on (done u, tr) f a = refl
  continue-on (failed_with e, tr) f a = refl
  continue-on (out_of_fuel, tr) f a = cc

  sweep_each-Swept :
      (deps : List Deployment) (tr : Trace) → Swept deps tr (sweep_each w o h fuel deps tr).1
  unfolding sweep_each drive_claim
  sweep_each-Swept [] tr = over tr
  sweep_each-Swept (dep ∷ deps) tr = elim (Bool-cases (h.stopped tr)) [
    | inl stop ↦ simp stop (halted dep deps tr stop)
    | inr on ↦
        let r : Run = record { dep = dep; trace = asked_stop false ∷ tr } in
        let ended = drive-finished w o n fuel r t enough in
        let x : Outcome (Unit {0}) × Trace = ((drive w o fuel r).0, (drive w o fuel r).1.trace) in
        let back = returned-settled x (traced-settled (drive w o fuel r) ended) in
        simp on (
          subst (λ (y : Outcome (Unit {0}) × Trace). Swept (dep ∷ deps) tr y.1)
            (sym (continue-on x (sweep_each w o h fuel deps) back))
            (driven dep deps tr _ on ended (sweep_each-Swept deps (drive w o fuel r).1.trace)))
  ]

  -- The rows that a sweep is about, as the store lists them.
  abbrev pub SweptRows : Option (List Deployment) → Trace → Trace → Type 0
  SweptRows none tr after = after ≡ listed_rows false ∷ tr
  SweptRows (some deps) tr after = Swept deps (listed_rows true ∷ tr) after

  sweep_rows-SweptRows :
      (found : Option (List Deployment)) (tr : Trace)
      → SweptRows found tr (sweep_rows w o h fuel found tr).1
  unfolding sweep_rows
  sweep_rows-SweptRows none tr = refl
  sweep_rows-SweptRows (some deps) tr = sweep_each-Swept deps (listed_rows true ∷ tr)

  sweep_rows-returned :
      (found : Option (List Deployment)) (tr : Trace)
      → returned (sweep_rows w o h fuel found tr) ≡ true
  unfolding sweep_rows
  sweep_rows-returned none tr = refl
  sweep_rows-returned (some deps) tr = sweep_each-returned deps (listed_rows true ∷ tr)

  sweep-returned : (tr : Trace) → returned (sweep w o h fuel tr) ≡ true
  unfolding sweep
  sweep-returned tr = sweep_rows-returned (h.list_non_terminal tr) tr

  serve-returned :
      (signals : List Signal) (tr : Trace) → returned (serve w o h fuel signals tr) ≡ true
  unfolding serve
  serve-returned [] tr = refl
  serve-returned (ticker ∷ signals) tr =
      continue-returned (tick w o h fuel tr) (serve w o h fuel signals)
        (returned-settled (tick w o h fuel tr) (tick-settled tr)) (serve-returned signals)
  serve-returned (reaper ∷ signals) tr = serve-returned signals (reap_pass w o h tr)

  boot_returns : (signals : List Signal) (tr : Trace) → returned (boot w o h fuel signals tr) ≡ true
  unfolding boot
  boot_returns signals tr =
      continue-returned (sweep w o h fuel (policy_sweep w o h tr)) _
        (sweep-returned (policy_sweep w o h tr)) (λ tr'. serve-returned signals _)

  -- If the deadlines of the phases pass within `n` ticks of each drive and the fuel is above `n`, Run comes
  -- through its start: after the policy sweep it drives every row that the
  -- store lists, one after the other and each to an end, up to the one at which its context is done; then
  -- come one reaper pass and every signal that fires, whatever their number and order, and it returns. If
  -- the rows cannot be listed, none is driven and the rest is the same.
  pub boot-returned :
      (signals : List Signal) (tr : Trace)
      → (swept : Trace) × SweptRows
          (h.list_non_terminal (policy_sweep w o h tr))
          (policy_sweep w o h tr)
          swept
        × (boot w o h fuel signals tr ≡ serve w o h fuel signals (reap_pass w o h swept))
        × (returned (boot w o h fuel signals tr) ≡ true)
  boot-returned signals tr = (
    (sweep w o h fuel (policy_sweep w o h tr)).1,
    unfold sweep in
        sweep_rows-SweptRows (h.list_non_terminal (policy_sweep w o h tr)) (policy_sweep w o h tr),
    unfold boot in
        continue-on (sweep w o h fuel (policy_sweep w o h tr)) _
          (sweep-returned (policy_sweep w o h tr)),
    boot_returns signals tr,
  )
