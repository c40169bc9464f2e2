-- ===== src/Runtime/Finish.antt =====
-- runtime.py: the result of an execution: `_finish_execution_pathway`, its persistence, and the
-- fallback for a result that the ledger rejects.
pub mod Respects
pub mod Settled
use responsibility_pathway_r.Prelude.{
  String, Bool, true, false, not, Option, none, some, List, [], ◌∷◌, ◌==◌, concat, is_blank,
  reverse, if◌then◌else◌,
}
use responsibility_pathway_r.Errors.{
  Error, Result, ok, err, value_error, runtime_error, key_error, integrity_error, operational_error,
  attempt_result_persistence_error, class_name,
}
use responsibility_pathway_r.Exec.{pure, raise, lift, require, try, ◌>>=◌, ◌>>◌}
use responsibility_pathway_r.Value.{Value, Fields, null, bool, str, dict, end, entry, opt_str, get}
use responsibility_pathway_r.Models.{
  PathwayState, PathwayState-discrete, ◌is◌, running, write_status_unknown, repair_required,
  approved, completed, pathway_state_value,
}
use responsibility_pathway_r.StateMachine.{ensure_transition}
use responsibility_pathway_r.Authority.{authorize_execution_access}
use responsibility_pathway_r.Execution.{
  ExecutionStatus, ExecutionRequest, ExecutionResult, ReadbackEvidence, succeeded, failed,
  bare_result, execution_status_value, result_of_value, reason_or,
}
use responsibility_pathway_r.World.{World, EvidenceEvent, M}
use responsibility_pathway_r.Store.{get_definition, get_state, events_of}
use responsibility_pathway_r.Attempts.{
  begin, finish, mark_result_persistence_unknown, discard_started,
}
use responsibility_pathway_r.Runtime.{
  Config, record_event, move_with_event, guarded_move, transition,
}

abbrev pub request_fields : ExecutionRequest → Fields → Fields
request_fields q more =
    entry "operation_id" (str q.operation_id)
      (entry "attempt_id" (str q.attempt_id) (entry "idempotency_key" (str q.idempotency_key) more))

readback_payload : Option ReadbackEvidence → Value
readback_payload none = null
readback_payload (some r) = dict (
    entry "verified" (bool r.verified)
      (entry "observed" (dict r.observed) (entry "reason" (opt_str r.reason) end)))

unfoldable pub result_fields : ExecutionResult → Fields → Fields
unfolding readback_payload
result_fields r more = entry "status" (str (execution_status_value r.status)) (
    entry "evidence" (dict r.evidence)
      (entry "readback" (readback_payload r.readback) (entry "reason" (opt_str r.reason) more)))

-- `result.status is SUCCEEDED and result.readback is not None and result.readback.verified`
unfoldable pub is_verified : Option ReadbackEvidence → Bool
is_verified none = false
is_verified (some r) = r.verified

pub data Settlement : Type 0 where
  -- the target, the reason and whether the repair owner is the actor
  settle : PathwayState → String → Bool → Settlement
  stay_unknown : Settlement

settlement_of : ExecutionStatus → ExecutionResult → Settlement
unfolding is_verified
settlement_of succeeded r =
    if is_verified r.readback
    then settle completed "executor_readback_verified" false
    else stay_unknown
settlement_of failed r = settle repair_required (reason_or r.reason "executor_failed") true
settlement_of ExecutionStatus.write_status_unknown r = stay_unknown

-- What a result settles: only a verified readback completes a pathway.
unfoldable pub settlement : ExecutionResult → Settlement
unfolding settlement_of
settlement r = settlement_of r.status r

-- `except (sqlite3.Error, KeyError)`: the class of the failure, or the exception goes on
pub fallback_failure : Error → M (Option String)
unfolding class_name
fallback_failure integrity_error = pure (some (class_name integrity_error))
fallback_failure operational_error = pure (some (class_name operational_error))
fallback_failure key_error = pure (some (class_name key_error))
fallback_failure e = raise e

abbrev pub fallback_fields : String → Option String → Fields
fallback_fields reason failure = entry "reason" (str reason) (
    entry "fallback_persisted" (bool (elim failure [ none ↦ true | some _ ↦ false ]))
      (entry "fallback_failure" (opt_str failure) end))

uncertain_reason : String → Option String → String
uncertain_reason reason none = reason
uncertain_reason reason (some f) = concat reason (concat ":fallback_persistence_failed:" f)

-- An action whose value is dropped.
abbrev pub ignore : {A : Type 0} → M A → M (Unit {0})
ignore m = m >>= λ _. pure tt

module _ (c : Config) where
  finish_unknown : String → String → ExecutionResult → PathwayState → M (Unit {0})
  unfolding PathwayState-discrete
  finish_unknown pathway_id actor r current =
      if current is write_status_unknown
      then pure tt
      else ignore (
          transition c pathway_id write_status_unknown actor
            (reason_or r.reason "executor_write_status_unknown"))

  finish_settled :
      String
      → ExecutionRequest
      → String
      → String
      → ExecutionResult
      → PathwayState
      → PathwayState
      → String
      → M (Unit {0})
  unfolding PathwayState-discrete result_fields
  finish_settled pathway_id q actor transition_actor r current target reason =
      if current is target
      then pure tt
      else if current is running
      then ignore (transition c pathway_id target transition_actor reason)
      else if not (current is write_status_unknown)
      then raise value_error
      else do
        lift (ensure_transition current target)
        move_with_event c pathway_id "execution_result_after_concurrent_unknown" actor current
            target (request_fields q (result_fields r end))

  finish_by :
      String
      → ExecutionRequest
      → String
      → ExecutionResult
      → PathwayState
      → Settlement
      → M (Unit {0})
  unfolding finish_unknown finish_settled
  finish_by pathway_id q actor r current stay_unknown = finish_unknown pathway_id actor r current
  finish_by pathway_id q actor r current (settle target reason false) =
      finish_settled pathway_id q actor actor r current target reason
  finish_by pathway_id q actor r current (settle target reason true) = do
    d ← get_definition c.env pathway_id
    finish_settled pathway_id q actor d.repair_owner r current target reason

  -- `_finish_execution_pathway`
  unfoldable pub finish_execution_pathway :
      String → ExecutionRequest → String → ExecutionResult → M (Unit {0})
  unfolding finish_by settlement
  finish_execution_pathway pathway_id q actor r = do
    current ← get_state pathway_id
    finish_by pathway_id q actor r current (settlement r)

  -- The durable fallback for a result that cannot be stored; `none` if it was stored.
  unfoldable pub store_fallback : ExecutionRequest → String → M (Option String)
  unfolding fallback_failure
  store_fallback q reason =
      try (mark_result_persistence_unknown c.env q.attempt_id reason) (λ _. pure none)
        fallback_failure

  -- The branch of `execute` for a result that the ledger rejects.
  persist_uncertain : String → ExecutionRequest → String → M ExecutionResult
  unfolding uncertain_reason
  persist_uncertain pathway_id q actor = do
    let reason : String = "result_persistence_rejected:AttemptResultPersistenceError"
    failure ← store_fallback q reason
    record_event c pathway_id "execution_result_persistence_unknown" actor
        (request_fields q (fallback_fields reason failure))
    transition c pathway_id write_status_unknown actor (uncertain_reason reason failure)
    pure (bare_result ExecutionStatus.write_status_unknown (uncertain_reason reason failure))

  persist_rejected : String → ExecutionRequest → String → Error → M ExecutionResult
  unfolding persist_uncertain
  persist_rejected pathway_id q actor attempt_result_persistence_error =
      persist_uncertain pathway_id q actor
  persist_rejected pathway_id q actor e = raise e

  persist_recorded : String → ExecutionRequest → String → ExecutionResult → M ExecutionResult
  unfolding result_fields
  persist_recorded pathway_id q actor r = do
    record_event c pathway_id "execution_result" actor (request_fields q (result_fields r end))
    finish_execution_pathway pathway_id q actor r
    pure r

  -- `execute`, from the result of the executor on
  unfoldable pub persist : String → ExecutionRequest → String → ExecutionResult → M ExecutionResult
  unfolding persist_recorded persist_rejected
  persist pathway_id q actor r =
      try (finish c.env q.attempt_id r) (λ _. persist_recorded pathway_id q actor r)
        (persist_rejected pathway_id q actor)
