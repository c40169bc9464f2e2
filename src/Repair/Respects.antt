-- ===== src/Repair/Respects.antt =====
-- repair.py: the coordinator keeps what its writes keep, on every branch.
use responsibility_pathway_r.Prelude.{String, Option, refl}
use responsibility_pathway_r.Errors.{Error, key_error, value_error, or_raise}
use responsibility_pathway_r.Exec.Respects.{
  Order, Respects, Respects-bind, Respects-then, Respects-guard, Respects-lift, Respects-gets,
  Respects-pure, Respects-raise, Respects-try, Respects-require,
}
use responsibility_pathway_r.Value.{Fields}
use responsibility_pathway_r.Authority.{authorize_transition}
use responsibility_pathway_r.Models.{PathwayState, ready_to_resume, running, aborted}
use responsibility_pathway_r.StateMachine.{ensure_transition}
use responsibility_pathway_r.World.{World, AttemptRecord}
use responsibility_pathway_r.Attempts.{get_attempt}
use responsibility_pathway_r.Runtime.{Config}
use responsibility_pathway_r.Runtime.Respects.{
  Writes, get_state-Respects, get_definition-Respects, guarded_move-Respects,
}
use responsibility_pathway_r.Repair.{
  CompensationRecord, compensation_value, require_failed, absent_attempt, require_absent,
  require_latest_repair, require_repair_arguments, require_resume_arguments, close_repair,
  close_with_residuals, complete_repair, resume, abort_with_residuals,
}

get_attempt-Respects : (R : Order World) (a : String) → Respects R (get_attempt a)
unfolding get_attempt
get_attempt-Respects R a =
    Respects-bind R _ _ (Respects-gets R _) (λ o. Respects-lift R (or_raise o key_error))

require_failed-Respects :
    (R : Order World) (id : String) (a : AttemptRecord) → Respects R (require_failed id a)
unfolding require_failed
require_failed-Respects R id a =
    Respects-then R _ _ (Respects-require R _ _) (Respects-require R _ _)

absent_attempt-Respects : (R : Order World) (e : Error) → Respects R (absent_attempt e)
unfolding absent_attempt
absent_attempt-Respects R key_error = Respects-pure R _
absent_attempt-Respects R _ = Respects-raise R _

require_absent-Respects : (R : Order World) (a : String) → Respects R (require_absent a)
unfolding require_absent
require_absent-Respects R a =
    Respects-try R _ _ _ (get_attempt-Respects R a) (λ _. Respects-raise R _)
      (absent_attempt-Respects R)

require_latest_repair-Respects :
    (R : Order World) (id prior : String) → Respects R (require_latest_repair id prior)
unfolding require_latest_repair
require_latest_repair-Respects R id prior =
    Respects-bind R _ _ (Respects-gets R _) (λ b. Respects-require R b value_error)

require_repair_arguments-Respects :
    (R : Order World) (prior : String) (fs : Fields)
    → Respects R (require_repair_arguments prior fs)
unfolding require_repair_arguments
require_repair_arguments-Respects R prior fs =
    Respects-then R _ _ (Respects-require R _ _) (Respects-require R _ _)

require_resume_arguments-Respects :
    (R : Order World) (prior next : String) → Respects R (require_resume_arguments prior next)
unfolding require_resume_arguments
require_resume_arguments-Respects R prior next =
    Respects-then R _ _ (Respects-require R _ _) (Respects-require R _ _)

module _ (c : Config) (R : Order World) (W : Writes c R) where
  close_repair-Respects :
      (id actor : String) (s : PathwayState) (prior : String) (evidence : Fields) (reason : String)
      (k : Option CompensationRecord)
      → Respects R (close_repair c id actor s prior evidence reason k)
  unfolding close_repair
  close_repair-Respects id actor s prior evidence reason k =
      Respects-bind R _ _ (get_definition-Respects c R id) (λ d.
        Respects-guard R (ensure_transition s ready_to_resume) _ (λ _ allowed.
          Respects-then R _ _ (Respects-lift R (authorize_transition d s ready_to_resume actor)) (
            Respects-bind R _ _ (Respects-lift R (compensation_value k))
              (λ v. W.moved _ _ _ s ready_to_resume _ allowed refl))))

  pub complete_repair-Respects :
      (id actor prior : String) (evidence : Fields) (reason : String)
      (k : Option CompensationRecord)
      → Respects R (complete_repair c id actor prior evidence reason k)
  unfolding complete_repair
  complete_repair-Respects id actor prior evidence reason k =
      Respects-then R _ _ (require_repair_arguments-Respects R prior evidence) (
        Respects-bind R _ _ (get_attempt-Respects R prior) (λ a.
          Respects-then R _ _ (require_failed-Respects R id a) (
            Respects-bind R _ _ (get_state-Respects R id) (λ s.
              Respects-then R _ _ (close_repair-Respects id actor s prior evidence reason k)
                (Respects-pure R _)))))

  pub resume-Respects :
      (id actor prior next reason : String) → Respects R (resume c id actor prior next reason)
  unfolding resume
  resume-Respects id actor prior next reason =
      Respects-then R _ _ (require_resume_arguments-Respects R prior next) (
        Respects-bind R _ _ (get_attempt-Respects R prior) (λ a.
          Respects-then R _ _ (require_failed-Respects R id a) (
            Respects-then R _ _ (require_absent-Respects R next) (
              Respects-then R _ _ (require_latest_repair-Respects R id prior) (
                Respects-bind R _ _ (get_state-Respects R id) (λ s.
                  Respects-then R _ _ (guarded_move-Respects c R W id _ actor s running _ refl)
                    (Respects-pure R _)))))))

  close_with_residuals-Respects :
      (id actor : String) (s : PathwayState) (residuals : Fields) (reason : String)
      → Respects R (close_with_residuals c id actor s residuals reason)
  unfolding close_with_residuals
  close_with_residuals-Respects id actor s residuals reason =
      Respects-bind R _ _ (get_definition-Respects c R id) (λ d.
        Respects-guard R (ensure_transition s aborted) _ (λ _ allowed.
          Respects-then R _ _ (Respects-require R _ _) (W.moved _ _ _ s aborted _ allowed refl)))

  pub abort_with_residuals-Respects :
      (id actor : String) (residuals : Fields) (reason : String)
      → Respects R (abort_with_residuals c id actor residuals reason)
  unfolding abort_with_residuals
  abort_with_residuals-Respects id actor residuals reason =
      Respects-then R _ _ (Respects-require R _ _) (
        Respects-bind R _ _ (get_state-Respects R id) (λ s.
          Respects-then R _ _ (close_with_residuals-Respects id actor s residuals reason)
            (Respects-pure R _)))
