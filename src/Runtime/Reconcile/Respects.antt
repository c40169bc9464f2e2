-- ===== src/Runtime/Reconcile/Respects.antt =====
-- runtime.py and reconciliation.py: reconciliation keeps what its writes and its strategy keep, on
-- every branch.
use responsibility_pathway_r.Prelude.{String, Bool, true, false, Option, none, some, refl}
use responsibility_pathway_r.Errors.{Error, attempt_result_persistence_error}
use responsibility_pathway_r.Exec.Respects.{
  Order, Respects, Respects-bind, Respects-then, Respects-guard, Respects-lift, Respects-if,
  Respects-pure, Respects-raise, Respects-try, Respects-require,
}
use responsibility_pathway_r.Value.{Value}
use responsibility_pathway_r.Models.{PathwayState}
use responsibility_pathway_r.StateMachine.{ensure_transition}
use responsibility_pathway_r.Execution.{
  ExecutionRequest, ExecutionResult, ReconciliationResult, classify, result_of_value,
}
use responsibility_pathway_r.World.{World, AttemptRecord, M}
use responsibility_pathway_r.Runtime.{Config}
use responsibility_pathway_r.Runtime.Respects.{Writes, get_state-Respects, get_definition-Respects}
use responsibility_pathway_r.Runtime.Finish.Respects.{store_fallback-Respects}
use responsibility_pathway_r.Runtime.Reconcile.{
  settle_reconciled, finish_reconciliation_pathway, reconciled_state, reconciliation_rejected,
  persist_reconciliation_result, reconcile_verified, reconcile_unresolved, reconcile_observed,
  observe, reconcile_stored, require_replayed, reconcile, reconcile_started_attempt,
}

module _ (c : Config) (R : Order World) (W : Writes c R) where
  settle_reconciled-Respects :
      (id : String) (q : ExecutionRequest) (actor : String) (r : ExecutionResult) (replayed : Bool)
      (s t : PathwayState)
      → Respects R (settle_reconciled c id q actor r replayed s t)
  unfolding settle_reconciled
  settle_reconciled-Respects id q actor r replayed s t = Respects-if R _ _ _ (Respects-pure R _) (
      Respects-if R _ _ _ (Respects-raise R _) (
        Respects-guard R (ensure_transition s t) _ (λ _ allowed. W.moved _ _ _ s t _ allowed refl)))

  finish_reconciliation_pathway-Respects :
      (id : String) (q : ExecutionRequest) (actor : String) (r : ExecutionResult) (replayed : Bool)
      → Respects R (finish_reconciliation_pathway c id q actor r replayed)
  unfolding finish_reconciliation_pathway
  finish_reconciliation_pathway-Respects id q actor r replayed =
      Respects-bind R _ _ (get_state-Respects R id)
        (λ s. settle_reconciled-Respects id q actor r replayed s (reconciled_state r))

  reconciliation_rejected-Respects :
      (id : String) (q : ExecutionRequest) (actor : String) (e : Error)
      → Respects R (reconciliation_rejected c id q actor e)
  unfolding reconciliation_rejected
  reconciliation_rejected-Respects id q actor attempt_result_persistence_error =
      Respects-bind R _ _ (store_fallback-Respects c R W q _)
        (λ f. Respects-then R _ _ (W.recorded _ _ _ _ refl) (Respects-pure R _))
  reconciliation_rejected-Respects id q actor _ = Respects-raise R _

  persist_reconciliation_result-Respects :
      (id : String) (q : ExecutionRequest) (actor : String) (r : ExecutionResult)
      → Respects R (persist_reconciliation_result c id q actor r)
  unfolding persist_reconciliation_result
  persist_reconciliation_result-Respects id q actor r =
      Respects-try R _ _ _ (W.finished q.attempt_id r) (λ _. Respects-pure R _)
        (reconciliation_rejected-Respects id q actor)

  reconcile_verified-Respects :
      (id : String) (q : ExecutionRequest) (actor : String) (r : ExecutionResult)
      → Respects R (reconcile_verified c id q actor r)
  unfolding reconcile_verified
  reconcile_verified-Respects id q actor r =
      Respects-bind R _ _ (persist_reconciliation_result-Respects id q actor r) (λ stored.
        Respects-if R stored _ _
          (Respects-then R _ _ (finish_reconciliation_pathway-Respects id q actor r false)
            (Respects-pure R _))
          (Respects-pure R _))

  reconcile_unresolved-Respects :
      (id : String) (q : ExecutionRequest) (actor : String) (o : ReconciliationResult)
      (r : ExecutionResult)
      → Respects R (reconcile_unresolved c id q actor o r)
  unfolding reconcile_unresolved
  reconcile_unresolved-Respects id q actor o r =
      Respects-then R _ _ (W.recorded _ _ _ _ refl) (Respects-pure R _)

  reconcile_observed-Respects :
      (id : String) (q : ExecutionRequest) (actor : String) (o : ReconciliationResult)
      → Respects R (reconcile_observed c id q actor o)
  unfolding reconcile_observed
  reconcile_observed-Respects id q actor o =
      Respects-if R _ _ _ (reconcile_unresolved-Respects id q actor o (classify o))
        (reconcile_verified-Respects id q actor (classify o))

  require_replayed-Respects :
      (q : ExecutionRequest) (b : Bool) → Respects R (require_replayed c q b)
  unfolding require_replayed
  require_replayed-Respects q true = Respects-pure R _
  require_replayed-Respects q false =
      Respects-then R _ _ (W.discarded q.attempt_id) (Respects-raise R _)

  module _ (strategy : ExecutionRequest → AttemptRecord → M ReconciliationResult)
      (strategy_respects : (q : ExecutionRequest) (a : AttemptRecord)
        → Respects R (strategy q a)) where
    observe-Respects :
        (id : String) (q : ExecutionRequest) (actor : String) (a : AttemptRecord)
        → Respects R (observe c strategy id q actor a)
    unfolding observe
    observe-Respects id q actor a =
        Respects-bind R _ _ (strategy_respects q a) (reconcile_observed-Respects id q actor)

    reconcile_stored-Respects :
        (id : String) (q : ExecutionRequest) (actor : String) (a : AttemptRecord) (o : Option Value)
        → Respects R (reconcile_stored c strategy id q actor a o)
    unfolding reconcile_stored
    reconcile_stored-Respects id q actor a none = observe-Respects id q actor a
    reconcile_stored-Respects id q actor a (some v) =
        Respects-bind R _ _ (Respects-lift R (result_of_value c.env.text v)) (λ r.
          Respects-if R _ _ _ (observe-Respects id q actor a) (
            Respects-then R _ _ (finish_reconciliation_pathway-Respects id q actor r true)
              (Respects-pure R _)))

    -- On every branch, returning or raising, `reconcile` keeps what its writes and its strategy keep.
    pub reconcile-Respects :
        (id : String) (q : ExecutionRequest) (actor : String)
        → Respects R (reconcile c strategy id q actor)
    unfolding reconcile
    reconcile-Respects id q actor = Respects-bind R _ _ (get_definition-Respects c R id) (λ d.
        Respects-then R _ _ (Respects-lift R _) (
          Respects-bind R _ _ (get_state-Respects R id) (λ s.
            Respects-then R _ _ (Respects-require R _ _) (
              Respects-bind R _ _ (W.begun id q) (λ b.
                Respects-then R _ _ (require_replayed-Respects q b.0)
                  (reconcile_stored-Respects id q actor b.1 b.1.result_json))))))

    pub reconcile_started_attempt-Respects :
        (id : String) (q : ExecutionRequest)
        → Respects R (reconcile_started_attempt c strategy id q)
    unfolding reconcile_started_attempt
    reconcile_started_attempt-Respects id q = Respects-bind R _ _ (W.begun id q) (λ b.
        Respects-then R _ _ (Respects-require R _ _) (
          Respects-bind R _ _ (strategy_respects q b.1)
            (λ o. Respects-then R _ _ (W.finished q.attempt_id (classify o)) (Respects-pure R _))))
