-- ===== src/Runtime/Execute.antt =====
-- runtime.py: `execute`.
pub mod Respects
pub mod Replay
use responsibility_pathway_r.Prelude.{
  String, Bool, true, false, not, Option, none, some, List, [], ◌∷◌, ◌==◌, concat, is_blank,
  reverse, if◌then◌else◌,
}
use responsibility_pathway_r.Errors.{
  Error, Result, ok, err, value_error, runtime_error, key_error, integrity_error, operational_error,
  attempt_result_persistence_error, class_name,
}
use responsibility_pathway_r.Exec.{pure, raise, lift, require, try, ◌>>=◌, ◌>>◌}
use responsibility_pathway_r.Value.{Value, Fields, null, bool, str, dict, end, entry, opt_str, get}
use responsibility_pathway_r.Models.{
  PathwayState, PathwayState-discrete, ◌is◌, running, write_status_unknown, repair_required,
  approved, completed, pathway_state_value,
}
use responsibility_pathway_r.StateMachine.{ensure_transition}
use responsibility_pathway_r.Authority.{authorize_execution_access}
use responsibility_pathway_r.Execution.{
  ExecutionStatus, ExecutionRequest, ExecutionResult, ReadbackEvidence, succeeded, failed,
  bare_result, execution_status_value, result_of_value, reason_or,
}
use responsibility_pathway_r.World.{World, EvidenceEvent, M}
use responsibility_pathway_r.Store.{get_definition, get_state, events_of}
use responsibility_pathway_r.Attempts.{
  begin, finish, mark_result_persistence_unknown, discard_started,
}
use responsibility_pathway_r.Runtime.{
  Config, record_event, move_with_event, guarded_move, transition,
}
use responsibility_pathway_r.Runtime.Finish.{
  request_fields, ignore, finish_execution_pathway, persist,
}

-- What `_active_running_attempt_id` makes of an event that entered `running`.
attempt_id_value : String → Fields → Option Value
unfolding get
attempt_id_value event_type fs =
    if event_type == "execution_started"
    then get "attempt_id" fs
    else if event_type == "pathway_resumed"
    then get "next_attempt_id" fs
    else none

-- `isinstance(attempt_id, str) and attempt_id.strip()`
given_attempt_id : Option Value → Result String
given_attempt_id (some (str s)) = if is_blank s then err runtime_error else ok s
given_attempt_id _ = err runtime_error

abbrev payload_fields : Value → Fields
payload_fields (dict fs) = fs
payload_fields _ = end

abbrev enters_running : Option Value → Bool
enters_running (some (str s)) = s == "running"
enters_running _ = false

-- The loop over the events from the newest.
bound_attempt : List EvidenceEvent → Result String
unfolding attempt_id_value given_attempt_id get
bound_attempt [] = err runtime_error
bound_attempt (e ∷ older) =
    let fs = payload_fields e.payload in
    let rest = bound_attempt older in
    if enters_running (get "to" fs)
    then given_attempt_id (attempt_id_value e.event_type fs)
    else rest

-- `_active_running_attempt_id`
unfoldable pub active_running_attempt_id : String → World → Result String
unfolding bound_attempt
active_running_attempt_id pathway_id w = bound_attempt (reverse (events_of pathway_id w))

query_bound_attempt : String → M String
query_bound_attempt pathway_id w = (active_running_attempt_id pathway_id w, w)

require_bound : String → ExecutionRequest → M (Unit {0})
unfolding query_bound_attempt
require_bound pathway_id q = do
  bound ← query_bound_attempt pathway_id
  require (bound == q.attempt_id) value_error

module _ (c : Config) where
  -- `_start_execution_pathway`
  unfoldable pub start_execution_pathway : String → ExecutionRequest → String → M (Unit {0})
  start_execution_pathway pathway_id q actor = do
    current ← get_state pathway_id
    guarded_move c pathway_id "execution_started" actor current running
        (request_fields q (entry "reason" (str "execution_started") end))

  start_if_approved : String → ExecutionRequest → String → PathwayState → M (Unit {0})
  unfolding PathwayState-discrete
  start_if_approved pathway_id q actor current =
      if current is approved
      then start_execution_pathway pathway_id q actor
      else if not (current is running)
      then raise value_error
      else pure tt

  -- The handler of a failed start: an attempt that never reached the executor is discarded.
  discard_unstarted : String → ExecutionRequest → Error → M (Unit {0})
  unfolding PathwayState-discrete
  discard_unstarted pathway_id q e = do
    persisted ← get_state pathway_id
    (if not (persisted is running) then ignore (discard_started c.env q.attempt_id) else pure tt)
    raise e

  unfoldable pub start : String → ExecutionRequest → String → M (Unit {0})
  unfolding start_if_approved discard_unstarted
  start pathway_id q actor =
      try (get_state pathway_id >>= start_if_approved pathway_id q actor) (λ _. pure tt)
        (discard_unstarted pathway_id q)

  -- Whatever the executor raises is a result of unknown effect.
  unfoldable pub call_executor :
      (ExecutionRequest → M ExecutionResult) → ExecutionRequest → M ExecutionResult
  unfolding class_name
  call_executor executor q = try (executor q) pure (λ e. pure (
      bare_result ExecutionStatus.write_status_unknown
        (concat "executor_exception:" (class_name e))))

  unfoldable pub dispatch :
      (ExecutionRequest → M ExecutionResult)
      → String
      → ExecutionRequest
      → String
      → M ExecutionResult
  dispatch executor pathway_id q actor = do
    start pathway_id q actor
    r ← call_executor executor q
    persist c pathway_id q actor r

  -- A started attempt without a result, before its pathway was started: it is begun anew.
  recover_pre_dispatch : String → ExecutionRequest → String → M (Unit {0})
  recover_pre_dispatch pathway_id q actor = do
    discarded ← discard_started c.env q.attempt_id
    require discarded runtime_error
    (replayed, _) ← begin c.env pathway_id q
    require (not replayed) runtime_error
    record_event c pathway_id "execution_pre_dispatch_restart_recovered" actor
        (request_fields q end)

  -- A started attempt without a result, whose effect is unknown: it is not dispatched again.
  leave_unresolved : String → ExecutionRequest → String → PathwayState → M ExecutionResult
  unfolding PathwayState-discrete
  leave_unresolved pathway_id q actor current = do
    let reason : String = "prior_attempt_started_without_persisted_result"
    (if current is running
        then ignore (transition c pathway_id write_status_unknown actor reason)
        else pure tt)
    record_event c pathway_id "execution_replay_unresolved" actor
        (request_fields q (entry "pathway_state" (str (pathway_state_value current)) end))
    pure (bare_result ExecutionStatus.write_status_unknown reason)

  replay_result : String → ExecutionRequest → String → Value → M ExecutionResult
  replay_result pathway_id q actor v = do
    r ← lift (result_of_value c.env.text v)
    finish_execution_pathway c pathway_id q actor r
    pure r

  -- `execute`, after `begin`
  unfoldable pub execute_begun :
      (ExecutionRequest → M ExecutionResult)
      → String
      → ExecutionRequest
      → String
      → Bool
      → Option Value
      → M ExecutionResult
  unfolding replay_result recover_pre_dispatch leave_unresolved PathwayState-discrete
  execute_begun executor pathway_id q actor true (some v) = replay_result pathway_id q actor v
  execute_begun executor pathway_id q actor true none = do
    current ← get_state pathway_id
    (if current is approved
        then recover_pre_dispatch pathway_id q actor >> dispatch executor pathway_id q actor
        else leave_unresolved pathway_id q actor current)
  execute_begun executor pathway_id q actor false result = dispatch executor pathway_id q actor

  -- A running pathway is open to the attempt that it is bound to, and to no other.
  check_binding : String → ExecutionRequest → PathwayState → M (Unit {0})
  unfolding PathwayState-discrete require_bound
  check_binding pathway_id q current =
      if current is running then require_bound pathway_id q else pure tt

  -- `execute`
  unfoldable pub execute :
      (ExecutionRequest → M ExecutionResult)
      → String
      → ExecutionRequest
      → String
      → M ExecutionResult
  unfolding check_binding
  execute executor pathway_id q actor = do
    d ← get_definition c.env pathway_id
    lift (authorize_execution_access d actor)
    current ← get_state pathway_id
    check_binding pathway_id q current
    (replayed, attempt) ← begin c.env pathway_id q
    execute_begun executor pathway_id q actor replayed attempt.result_json
