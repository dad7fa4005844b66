-- ===== src/Reconcile/Loop/Evidence.antt =====
-- A stranded row is ended, or handed back, only on what the cluster said of its Job.
use deployer.Reconcile.World.{
  moved_to, polled_job, released_claim, asked_stop, job_failed, job_gone, job_succeeded,
  job_running, Trace, Event, World, Options, JobState, Write,
}
use deployer.Domain.State.{failed}
use deployer.Domain.Reason.{build_failed}
use deployer.Reconcile.World.{Write, written, not_in_flight, faulted}
use deployer.Base.{
  Bool, Bool-cases, List, Option, Text, [], false, inl, inr, none, refl, some, true, ◌&&◌, ◌∷◌, ◌≡◌,
  All, any, any_self, if◌then◌else◌, not, text_eq, text_eq_refl,
}
use deployer.Reconcile.Loop.{
  judge_stranded, recover, for_each, recover_stranded, Host, Deployment, stranded,
}
use deployer.Reconcile.Drive.{fail}
use deployer.Reconcile.Phases.{namespace_of}

-- The state that a read of the Job gave, if it was that of a stranded row with that id.
abbrev pub state_of :
    (w : World) (o : Options) → Host → List Deployment → Text → Trace → Option JobState
state_of w o h deps id (polled_job namespace name answer ∷ tr) =
    if any
      (λ (d : Deployment).
        text_eq d.id id
        && text_eq (namespace_of w o d.build_path) namespace
        && text_eq d.build_job_name name)
      deps
    then answer
    else none
state_of w o h deps id tr = none

-- The evidence for a failure, and for a release.
abbrev pub is_dead : Option JobState → Bool
is_dead (some job_failed) = true
is_dead (some job_gone) = true
is_dead _ = false

abbrev pub has_succeeded : Option JobState → Bool
has_succeeded (some job_succeeded) = true
has_succeeded _ = false

abbrev pub same_write : Write → Write → Bool
same_write written written = true
same_write not_in_flight not_in_flight = true
same_write faulted faulted = true
same_write _ _ = false

abbrev pub same_release : Option Bool → Option Bool → Bool
same_release none none = true
same_release (some a) (some b) = if a then b else not b
same_release _ _ = false

-- What the pass may call: the Job's state, and on that answer one write, of the row whose Job it is.
abbrev pub evident : (w : World) (o : Options) → Host → List Deployment → Event → Trace → Bool
evident w o h deps (asked_stop b) tr = true
evident w o h deps (polled_job namespace name answer) tr = true
evident w o h deps (moved_to id failed (some build_failed) answer) tr =
    is_dead (state_of w o h deps id tr) && same_write (w.transition tr id failed) answer
evident w o h deps (released_claim id answer) tr =
    has_succeeded (state_of w o h deps id tr) && same_release (h.release_claim tr id) answer
evident w o h deps e tr = false

abbrev pub all_evident : (w : World) (o : Options) → Host → List Deployment → Trace → Bool
all_evident w o h deps [] = true
all_evident w o h deps (e ∷ tr) = evident w o h deps e tr && all_evident w o h deps tr

same_write_self : (x : Write) → same_write x x ≡ true
same_write_self written = refl
same_write_self not_in_flight = refl
same_write_self faulted = refl

same_release_self : (x : Option Bool) → same_release x x ≡ true
same_release_self none = refl
same_release_self (some true) = refl
same_release_self (some false) = refl

module _ (w : World) (o : Options) (h : Host) (all : List Deployment) where
  -- The row is one of the pass.
  IsRow : Deployment → Type 0
  IsRow dep =
      any
        (λ (d : Deployment).
          text_eq d.id dep.id
          && text_eq (namespace_of w o d.build_path) (namespace_of w o dep.build_path)
          && text_eq d.build_job_name dep.build_job_name)
        all
      ≡ true

  judge-all_evident :
      (answer : Option JobState) (dep : Deployment) (tr : Trace)
      → IsRow dep
      → all_evident w o h all tr ≡ true
      → all_evident w o h all
          (judge_stranded w o h answer (record {
            dep = dep;
            trace = polled_job (namespace_of w o dep.build_path) dep.build_job_name answer ∷ tr;
          })).1.trace
        ≡ true
  unfolding judge_stranded fail IsRow
  judge-all_evident none dep tr row e = e
  judge-all_evident (some job_failed) dep tr row e = rw (row, same_write_self _) e
  judge-all_evident (some job_gone) dep tr row e = rw (row, same_write_self _) e
  judge-all_evident (some job_running) dep tr row e = e
  judge-all_evident (some job_succeeded) dep tr row e = rw (row, same_release_self _) e

  recover-all_evident :
      (dep : Deployment) (tr : Trace)
      → IsRow dep
      → all_evident w o h all tr ≡ true
      → all_evident w o h all (recover w o h (record { dep = dep; trace = tr })).1.trace ≡ true
  unfolding recover
  recover-all_evident dep tr row e = elim (Bool-cases (stranded w o h dep)) [
    | inl lost ↦
        rw lost (judge-all_evident (w.job_state tr (namespace_of w o dep.build_path)) dep tr row e)
    | inr fine ↦ rw fine e
  ]

  pass-all_evident :
      (deps : List Deployment) (tr : Trace)
      → All IsRow deps
      → all_evident w o h all tr ≡ true
      → all_evident w o h all (for_each w o h (recover w o h) deps tr) ≡ true
  unfolding for_each
  pass-all_evident [] tr rows e = e
  pass-all_evident (dep ∷ deps) tr rows e = elim (Bool-cases (h.stopped tr)) [
    | inl stop ↦ rw stop e
    | inr on ↦ rw on (pass-all_evident deps _ rows.1 (recover-all_evident dep _ rows.0 e))
  ]

-- Whatever the rows are and whatever the cluster and the store answer, the recovery pass makes no
-- call but to read the state of a Job; directly after an answer that the Job of a row has failed or is
-- gone, to fail that row with build_failed; and directly after one that the Job of a row succeeded, to
-- release the claim of that row. An error, or a Job that runs, leads to no write.
pub recover_stranded-all_evident :
    (w : World) (o : Options) (h : Host) (deps : List Deployment)
    → all_evident w o h deps (recover_stranded w o h deps []) ≡ true
unfolding recover_stranded IsRow
recover_stranded-all_evident w o h deps =
    pass-all_evident w o h deps deps []
      (any_self
        (λ a d.
          text_eq d.id a.id
          && text_eq (namespace_of w o d.build_path) (namespace_of w o a.build_path)
          && text_eq d.build_job_name a.build_job_name)
        deps
        (λ a.
          rw
            (
              text_eq_refl a.id,
              text_eq_refl (namespace_of w o a.build_path),
              text_eq_refl a.build_job_name,
            )
            refl))
      refl
