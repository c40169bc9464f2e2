-- ===== src/Runtime/Finish/Respects.antt =====
-- runtime.py: what is done with a result keeps what its writes keep, on every branch.
use responsibility_pathway_r.Prelude.{String, true, false, refl}
use responsibility_pathway_r.Errors.{
  Error, integrity_error, operational_error, key_error, attempt_result_persistence_error,
}
use responsibility_pathway_r.Exec.Respects.{
  Order, Respects, Respects-bind, Respects-then, Respects-guard, Respects-if, Respects-pure,
  Respects-raise, Respects-try,
}
use responsibility_pathway_r.Models.{PathwayState}
use responsibility_pathway_r.StateMachine.{ensure_transition}
use responsibility_pathway_r.Execution.{ExecutionRequest, ExecutionResult}
use responsibility_pathway_r.World.{World, M}
use responsibility_pathway_r.Runtime.{Config}
use responsibility_pathway_r.Runtime.Respects.{
  Writes, read_rules, get_state-Respects, get_definition-Respects, transition-Respects,
}
use responsibility_pathway_r.Runtime.Finish.{
  Settlement, settle, stay_unknown, finish_unknown, finish_settled, finish_by,
  finish_execution_pathway, settlement, fallback_failure, store_fallback, persist_uncertain,
  persist_rejected, persist_recorded, persist, ignore,
}

pub fallback_failure-Respects : (R : Order World) (e : Error) → Respects R (fallback_failure e)
unfolding fallback_failure
fallback_failure-Respects R integrity_error = Respects-pure R _
fallback_failure-Respects R operational_error = Respects-pure R _
fallback_failure-Respects R key_error = Respects-pure R _
fallback_failure-Respects R _ = Respects-raise R _

pub ignore-Respects :
    {A : Type 0} (R : Order World) (m : M A) → Respects R m → Respects R (ignore m)
ignore-Respects R m h = Respects-bind R m _ h (λ _. Respects-pure R _)

module _ (c : Config) (R : Order World) (W : Writes c R) where
  finish_unknown-Respects :
      (id actor : String) (r : ExecutionResult) (s : PathwayState)
      → Respects R (finish_unknown c id actor r s)
  unfolding finish_unknown
  finish_unknown-Respects id actor r s = search (read_rules, transition-Respects c R W)

  finish_settled-Respects :
      (id : String) (q : ExecutionRequest) (actor mover : String) (r : ExecutionResult)
      (s t : PathwayState) (reason : String)
      → Respects R (finish_settled c id q actor mover r s t reason)
  unfolding finish_settled
  finish_settled-Respects id q actor mover r s t reason = Respects-if R _ _ _ (Respects-pure R _) (
      Respects-if R _ _ _ (ignore-Respects R _ (transition-Respects c R W id t mover reason)) (
        Respects-if R _ _ _ (Respects-raise R _) (
          Respects-guard R (ensure_transition s t) _
            (λ _ allowed. W.moved _ _ _ s t _ allowed refl))))

  finish_by-Respects :
      (id : String) (q : ExecutionRequest) (actor : String) (r : ExecutionResult) (s : PathwayState)
      (k : Settlement)
      → Respects R (finish_by c id q actor r s k)
  unfolding finish_by
  finish_by-Respects id q actor r s stay_unknown = finish_unknown-Respects id actor r s
  finish_by-Respects id q actor r s (settle t reason false) =
      finish_settled-Respects id q actor actor r s t reason
  finish_by-Respects id q actor r s (settle t reason true) =
      Respects-bind R _ _ (get_definition-Respects c R id)
        (λ d. finish_settled-Respects id q actor d.repair_owner r s t reason)

  pub finish_execution_pathway-Respects :
      (id : String) (q : ExecutionRequest) (actor : String) (r : ExecutionResult)
      → Respects R (finish_execution_pathway c id q actor r)
  unfolding finish_execution_pathway
  finish_execution_pathway-Respects id q actor r =
      Respects-bind R _ _ (get_state-Respects R id)
        (λ s. finish_by-Respects id q actor r s (settlement r))

  pub store_fallback-Respects :
      (q : ExecutionRequest) (reason : String) → Respects R (store_fallback c q reason)
  unfolding store_fallback
  store_fallback-Respects q reason =
      Respects-try R _ _ _ (W.marked q.attempt_id reason) (λ _. Respects-pure R _)
        (fallback_failure-Respects R)

  persist_uncertain-Respects :
      (id : String) (q : ExecutionRequest) (actor : String)
      → Respects R (persist_uncertain c id q actor)
  unfolding persist_uncertain
  persist_uncertain-Respects id q actor = Respects-bind R _ _ (store_fallback-Respects q _) (λ f.
      Respects-then R _ _ (W.recorded _ _ _ _ refl)
        (Respects-then R _ _ (transition-Respects c R W id _ actor _) (Respects-pure R _)))

  persist_rejected-Respects :
      (id : String) (q : ExecutionRequest) (actor : String) (e : Error)
      → Respects R (persist_rejected c id q actor e)
  unfolding persist_rejected
  persist_rejected-Respects id q actor attempt_result_persistence_error =
      persist_uncertain-Respects id q actor
  persist_rejected-Respects id q actor _ = Respects-raise R _

  persist_recorded-Respects :
      (id : String) (q : ExecutionRequest) (actor : String) (r : ExecutionResult)
      → Respects R (persist_recorded c id q actor r)
  unfolding persist_recorded
  persist_recorded-Respects id q actor r =
      Respects-then R _ _ (W.recorded _ _ _ _ refl)
        (Respects-then R _ _ (finish_execution_pathway-Respects id q actor r) (Respects-pure R _))

  pub persist-Respects :
      (id : String) (q : ExecutionRequest) (actor : String) (r : ExecutionResult)
      → Respects R (persist c id q actor r)
  unfolding persist
  persist-Respects id q actor r =
      Respects-try R _ _ _ (W.finished q.attempt_id r) (λ _. persist_recorded-Respects id q actor r)
        (persist_rejected-Respects id q actor)
