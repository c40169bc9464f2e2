-- ===== src/Attempts.antt =====
-- attempts.py: SQLiteExecutionAttemptLedger.
pub mod Effects
pub mod Replay
use Prim.Native.String.{len}
use responsibility_pathway_r.Prelude.{
  ℕ, String, Bool, true, false, not, ◌&&◌, ◌||◌, Option, none, some, [], ◌∷◌, ◌++◌, ◌==◌, any, find,
  select, update, leb, is_some, if◌then◌else◌,
}
use responsibility_pathway_r.Errors.{
  Result, ok, err, key_error, attempt_conflict_error, attempt_fingerprint_error,
  attempt_result_persistence_error, or_raise,
}
use responsibility_pathway_r.Exec.{lift, gets, ◌>>=◌, ◌>>◌}
use responsibility_pathway_r.Value.{Value, str, dict, end, entry}
use responsibility_pathway_r.JsonIdentity.{strict_identity}
use responsibility_pathway_r.Execution.{
  ExecutionRequest, ExecutionResult, ExecutionStatus, bare_result, execution_status_value,
  result_value,
}
use responsibility_pathway_r.Env.{Env}
use responsibility_pathway_r.World.{World, AttemptRecord, M, transaction}

abbrev pub max_canonical_bytes : ℕ
max_canonical_bytes = 1_100_000

-- The identity of a request, of which the fingerprint is taken.
unfoldable pub request_value : ExecutionRequest → Value
request_value q = dict (
    entry "operation_id" (str q.operation_id)
      (entry "action" (str q.action) (entry "parameters" (dict q.parameters) end)))

fingerprint_of : Env → Result Value → Result String
fingerprint_of env (err e) = err e
fingerprint_of env (ok v) =
    if leb (len (env.dumps v)) max_canonical_bytes
    then ok (env.sha256 (env.dumps v))
    else err attempt_fingerprint_error

-- `fingerprint`
unfoldable pub request_fingerprint : Env → ExecutionRequest → Result String
unfolding fingerprint_of
request_fingerprint env q = fingerprint_of env (strict_identity (request_value q))

encoded : Env → Result Value → Result Value
encoded env (err e) = err attempt_result_persistence_error
encoded env (ok v) =
    if leb (len (env.dumps v)) max_canonical_bytes
    then ok v
    else err attempt_result_persistence_error

-- `_strict_result_json`, as the value that the encoded text decodes to
unfoldable pub strict_result_json : Env → ExecutionResult → Result Value
unfolding encoded
strict_result_json env r = encoded env (strict_identity (result_value r))

abbrev pub is_attempt : String → AttemptRecord → Bool
is_attempt attempt_id a = a.attempt_id == attempt_id

-- `WHERE attempt_id = ? OR (pathway_id = ? AND idempotency_key = ?)`
abbrev pub matches : String → ExecutionRequest → AttemptRecord → Bool
matches pathway_id q a =
    is_attempt q.attempt_id a
    || a.pathway_id == pathway_id && a.idempotency_key == q.idempotency_key

abbrev pub started_record : String → ExecutionRequest → String → AttemptRecord
started_record pathway_id q fp = record {
  pathway_id = pathway_id;
  operation_id = q.operation_id;
  attempt_id = q.attempt_id;
  idempotency_key = q.idempotency_key;
  request_fingerprint = fp;
  status = "started";
  result_json = none;
}

begin_row : String → ExecutionRequest → String → Option AttemptRecord → M (Bool × AttemptRecord)
begin_row pathway_id q fp (some a) w =
    if not (a.pathway_id == pathway_id)
      || not (a.operation_id == q.operation_id)
      || not (a.request_fingerprint == fp)
    then (err attempt_conflict_error, w)
    else (ok (true, a), w)
begin_row pathway_id q fp none w =
    let a = started_record pathway_id q fp in
    (ok (false, a), record w { attempts = w.attempts ++ a ∷ [] })

-- `begin`: whether the attempt is replayed, and its record. Of several rows that match, the first.
unfoldable pub begin : Env → String → ExecutionRequest → M (Bool × AttemptRecord)
unfolding begin_row find
begin env pathway_id q = do
  fp ← lift (request_fingerprint env q)
  transaction env
      (do row ← gets (λ w. find (matches pathway_id q) w.attempts); begin_row pathway_id q fp row)

-- `SELECT * FROM execution_attempts WHERE attempt_id = ?`
unfoldable pub attempt_of : String → World → Option AttemptRecord
unfolding find
attempt_of attempt_id w = find (is_attempt attempt_id) w.attempts

-- `get`
unfoldable pub get_attempt : String → M AttemptRecord
get_attempt attempt_id = do row ← gets (attempt_of attempt_id); lift (or_raise row key_error)

abbrev pub with_result : ExecutionStatus → Value → AttemptRecord → AttemptRecord
with_result status v a = record a { status = execution_status_value status; result_json = some v }

-- `UPDATE execution_attempts SET status = ?, result_json = ? WHERE attempt_id = ?`; the attempt id is
-- the primary key, so the row count is 1 or 0.
set_result : String → ExecutionStatus → Value → M (Unit {0})
unfolding any update
set_result attempt_id status v w =
    if any (is_attempt attempt_id) w.attempts
    then (
      ok tt,
      record w { attempts = update (is_attempt attempt_id) (with_result status v) w.attempts },
    )
    else (err key_error, w)

-- `finish`
unfoldable pub finish : Env → String → ExecutionResult → M AttemptRecord
unfolding set_result
finish env attempt_id r = do
  v ← lift (strict_result_json env r)
  transaction env (do set_result attempt_id r.status v; get_attempt attempt_id)

-- `mark_result_persistence_unknown`
unfoldable pub mark_result_persistence_unknown : Env → String → String → M AttemptRecord
unfolding set_result
mark_result_persistence_unknown env attempt_id reason =
    let r = bare_result ExecutionStatus.write_status_unknown reason in
    transaction env (do set_result attempt_id r.status (result_value r); get_attempt attempt_id)

-- `attempt_id = ? AND status = 'started' AND result_json IS NULL`
abbrev pub is_discardable : String → AttemptRecord → Bool
is_discardable attempt_id a =
    is_attempt attempt_id a && a.status == "started" && not (is_some a.result_json)

delete_started : String → M Bool
unfolding any select
delete_started attempt_id w =
    let found = any (is_discardable attempt_id) w.attempts in
    let kept = select (λ a. not (is_discardable attempt_id a)) w.attempts in
    (ok found, record w { attempts = kept })

-- `discard_started`
unfoldable pub discard_started : Env → String → M Bool
unfolding delete_started
discard_started env attempt_id = transaction env (delete_started attempt_id)
