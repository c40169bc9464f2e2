-- ===== src/Runtime/Reconcile.antt =====
-- runtime.py: `reconcile`, the observation of an uncertain attempt; and the function of
-- reconciliation.py that works on the ledger alone.
pub mod Respects
use responsibility_pathway_r.Prelude.{
  String, Bool, true, false, not, ◌&&◌, ◌||◌, Option, none, some, is_some, if◌then◌else◌,
}
use responsibility_pathway_r.Errors.{Error, value_error, attempt_result_persistence_error}
use responsibility_pathway_r.Exec.{pure, raise, lift, require, try, ◌>>=◌, ◌>>◌}
use responsibility_pathway_r.Value.{Value, bool, dict, end, entry, opt_str}
use responsibility_pathway_r.Models.{
  PathwayState, PathwayState-discrete, ◌is◌, write_status_unknown, repair_required, completed,
}
use responsibility_pathway_r.StateMachine.{ensure_transition}
use responsibility_pathway_r.Authority.{authorize_reconciliation_access}
use responsibility_pathway_r.Execution.{
  ExecutionStatus, ExecutionRequest, ExecutionResult, ReconciliationResult, ReconciliationStatus,
  succeeded, unresolved, bare_result, classify, result_of_value,
}
use responsibility_pathway_r.World.{AttemptRecord, M}
use responsibility_pathway_r.Store.{get_definition, get_state}
use responsibility_pathway_r.Attempts.{begin, finish, discard_started}
use responsibility_pathway_r.Runtime.{Config, record_event, move_with_event}
use responsibility_pathway_r.Runtime.Finish.{
  request_fields, result_fields, store_fallback, fallback_fields,
}

abbrev is_succeeded : ExecutionStatus → Bool
is_succeeded succeeded = true
is_succeeded _ = false

abbrev is_unknown : ExecutionStatus → Bool
is_unknown ExecutionStatus.write_status_unknown = true
is_unknown _ = false

-- The state in which a reconciled result leaves the pathway.
unfoldable pub reconciled_state : ExecutionResult → PathwayState
reconciled_state r = if is_succeeded r.status then completed else repair_required

abbrev pub is_reconcilable : PathwayState → Bool
is_reconcilable s = s is write_status_unknown || s is completed || s is repair_required

module _ (c : Config) where
  settle_reconciled :
      String
      → ExecutionRequest
      → String
      → ExecutionResult
      → Bool
      → PathwayState
      → PathwayState
      → M (Unit {0})
  unfolding PathwayState-discrete result_fields
  settle_reconciled pathway_id q actor r replayed current target =
      if current is target
      then pure tt
      else if not (current is write_status_unknown)
      then raise value_error
      else do
        lift (ensure_transition current target)
        move_with_event c pathway_id "reconciliation_result" actor current target
            (request_fields q (result_fields r (entry "replayed" (bool replayed) end)))

  -- `_finish_reconciliation_pathway`
  unfoldable pub finish_reconciliation_pathway :
      String → ExecutionRequest → String → ExecutionResult → Bool → M (Unit {0})
  unfolding settle_reconciled reconciled_state
  finish_reconciliation_pathway pathway_id q actor r replayed = do
    current ← get_state pathway_id
    settle_reconciled pathway_id q actor r replayed current (reconciled_state r)

  -- The handler of a rejected result.
  reconciliation_rejected : String → ExecutionRequest → String → Error → M Bool
  reconciliation_rejected pathway_id q actor attempt_result_persistence_error = do
    let reason : String = "reconciliation_result_persistence_rejected:AttemptResultPersistenceError"
    failure ← store_fallback c q reason
    record_event c pathway_id "reconciliation_result_persistence_unknown" actor
        (request_fields q (fallback_fields reason failure))
    pure false
  reconciliation_rejected pathway_id q actor e = raise e

  -- `_persist_reconciliation_result`
  unfoldable pub persist_reconciliation_result :
      String → ExecutionRequest → String → ExecutionResult → M Bool
  unfolding reconciliation_rejected
  persist_reconciliation_result pathway_id q actor r =
      try (finish c.env q.attempt_id r) (λ _. pure true)
        (reconciliation_rejected pathway_id q actor)

  abbrev rejected : ExecutionResult
  rejected =
      bare_result ExecutionStatus.write_status_unknown
        "reconciliation_result_persistence_rejected:AttemptResultPersistenceError"

  -- The two branches of `reconcile` for a verified observation.
  reconcile_verified : String → ExecutionRequest → String → ExecutionResult → M ExecutionResult
  reconcile_verified pathway_id q actor r = do
    stored ← persist_reconciliation_result pathway_id q actor r
    (if stored
        then finish_reconciliation_pathway pathway_id q actor r false >> pure r
        else pure rejected)

  -- The branch for an observation that settles nothing.
  reconcile_unresolved :
      String
      → ExecutionRequest
      → String
      → ReconciliationResult
      → ExecutionResult
      → M ExecutionResult
  reconcile_unresolved pathway_id q actor o r = do
    record_event c pathway_id "reconciliation_unresolved" actor (
        request_fields q
          (entry "evidence" (dict o.evidence) (entry "reason" (opt_str r.reason) end)))
    pure r

  abbrev is_unresolved : ReconciliationStatus → Bool
  is_unresolved unresolved = true
  is_unresolved _ = false

  reconcile_observed : String → ExecutionRequest → String → ReconciliationResult → M ExecutionResult
  unfolding reconcile_verified reconcile_unresolved classify
  reconcile_observed pathway_id q actor o =
      if is_unresolved o.status
      then reconcile_unresolved pathway_id q actor o (classify o)
      else reconcile_verified pathway_id q actor (classify o)

  observe :
      (ExecutionRequest → AttemptRecord → M ReconciliationResult)
      → String
      → ExecutionRequest
      → String
      → AttemptRecord
      → M ExecutionResult
  unfolding reconcile_observed
  observe strategy pathway_id q actor attempt = do
    o ← strategy q attempt
    reconcile_observed pathway_id q actor o

  -- A result that is already stored and not of unknown effect closes the pathway, and nothing is
  -- observed.
  reconcile_stored :
      (ExecutionRequest → AttemptRecord → M ReconciliationResult)
      → String
      → ExecutionRequest
      → String
      → AttemptRecord
      → Option Value
      → M ExecutionResult
  unfolding observe
  reconcile_stored strategy pathway_id q actor attempt none =
      observe strategy pathway_id q actor attempt
  reconcile_stored strategy pathway_id q actor attempt (some v) = do
    r ← lift (result_of_value c.env.text v)
    (if is_unknown r.status
        then observe strategy pathway_id q actor attempt
        else finish_reconciliation_pathway pathway_id q actor r true >> pure r)

  -- An attempt that was not there is removed again.
  require_replayed : ExecutionRequest → Bool → M (Unit {0})
  require_replayed q true = pure tt
  require_replayed q false = discard_started c.env q.attempt_id >> raise value_error

  -- `reconcile`
  unfoldable pub reconcile :
      (ExecutionRequest → AttemptRecord → M ReconciliationResult)
      → String
      → ExecutionRequest
      → String
      → M ExecutionResult
  unfolding reconcile_stored require_replayed PathwayState-discrete
  reconcile strategy pathway_id q actor = do
    d ← get_definition c.env pathway_id
    lift (authorize_reconciliation_access d actor)
    current ← get_state pathway_id
    require (is_reconcilable current) value_error
    (replayed, attempt) ← begin c.env pathway_id q
    require_replayed q replayed
    reconcile_stored strategy pathway_id q actor attempt attempt.result_json

  -- reconciliation.py: `reconcile_started_attempt`
  unfoldable pub reconcile_started_attempt :
      (ExecutionRequest → AttemptRecord → M ReconciliationResult)
      → String
      → ExecutionRequest
      → M ExecutionResult
  unfolding classify
  reconcile_started_attempt strategy pathway_id q = do
    (replayed, attempt) ← begin c.env pathway_id q
    require (replayed && not (is_some attempt.result_json)) value_error
    o ← strategy q attempt
    finish c.env q.attempt_id (classify o)
    pure (classify o)
