-- ===== src/Execution.antt =====
-- executor.py and reconciliation.py: requests, results and what an observation yields, and their JSON
-- forms in the attempt ledger.
pub mod RoundTrip
use responsibility_pathway_r.Prelude.{
  ℕ, String, Bool, true, false, ◌||◌, Option, none, some, List, [], ◌∷◌, ◌==◌, is_blank, find,
  if◌then◌else◌,
}
use responsibility_pathway_r.Errors.{Result, ok, err, value_error, other_error, ◌>>=◌, or_raise}
use responsibility_pathway_r.Value.{
  Value, Fields, null, bool, str, dict, list, int, float, object, end, entry, get, item, opt_str,
  truthy, truthy_or_false,
}
use responsibility_pathway_r.Models.{member_of}

pub data ExecutionStatus : Type 0 where
  succeeded failed write_status_unknown : ExecutionStatus

unfoldable pub execution_status_value : ExecutionStatus → String
execution_status_value succeeded = "succeeded"
execution_status_value failed = "failed"
execution_status_value write_status_unknown = "write_status_unknown"

unfoldable pub execution_status_of : String → Result ExecutionStatus
unfolding member_of execution_status_value
execution_status_of =
    member_of execution_status_value (succeeded ∷ failed ∷ write_status_unknown ∷ [])

pub record ExecutionRequest : Type 0 where
  pub operation_id : String
  pub attempt_id : String
  pub idempotency_key : String
  pub action : String
  pub parameters : Fields

-- `ExecutionRequest.__post_init__`
unfoldable pub check_request : ExecutionRequest → Result ExecutionRequest
check_request q =
    if is_blank q.operation_id
      || is_blank q.attempt_id
      || is_blank q.idempotency_key
      || is_blank q.action
    then err value_error
    else ok q

pub record ReadbackEvidence : Type 0 where
  pub verified : Bool
  pub observed : Fields
  pub reason : Option String

pub record ExecutionResult : Type 0 where
  pub status : ExecutionStatus
  pub evidence : Fields
  pub readback : Option ReadbackEvidence
  pub reason : Option String

-- `ExecutionResult(status, reason=reason)`
abbrev pub bare_result : ExecutionStatus → String → ExecutionResult
bare_result s reason = record { status = s; evidence = end; readback = none; reason = some reason }

pub data ReconciliationStatus : Type 0 where
  verified_applied verified_not_applied unresolved : ReconciliationStatus

pub record ReconciliationResult : Type 0 where
  pub status : ReconciliationStatus
  pub evidence : Fields
  pub reason : Option String

-- `reason or text`
abbrev pub reason_or : Option String → String → String
reason_or none t = t
reason_or (some s) t = if s == "" then t else s

abbrev observed_readback : Bool → ReconciliationResult → Option ReadbackEvidence
observed_readback verified o =
    some (record { verified = verified; observed = o.evidence; reason = o.reason })

abbrev reconciliation_evidence : ReconciliationResult → Fields
reconciliation_evidence o = entry "reconciliation" (dict o.evidence) end

classified : ReconciliationStatus → ReconciliationResult → ExecutionResult
classified verified_applied o = record {
  status = succeeded;
  evidence = reconciliation_evidence o;
  readback = observed_readback true o;
  reason = o.reason;
}
classified verified_not_applied o = record {
  status = failed;
  evidence = reconciliation_evidence o;
  readback = observed_readback true o;
  reason = some (reason_or o.reason "verified_not_applied");
}
classified unresolved o = record {
  status = write_status_unknown;
  evidence = reconciliation_evidence o;
  readback = observed_readback false o;
  reason = some (reason_or o.reason "reconciliation_unresolved");
}

-- The execution result that an observation is turned into.
unfoldable pub classify : ReconciliationResult → ExecutionResult
unfolding classified
classify o = classified o.status o

readback_value : Option ReadbackEvidence → Value
readback_value none = null
readback_value (some r) = dict (
    entry "verified" (bool r.verified)
      (entry "observed" (dict r.observed) (entry "reason" (opt_str r.reason) end)))

-- The dictionary that `_strict_result_json` writes.
unfoldable pub result_value : ExecutionResult → Value
unfolding readback_value execution_status_value
result_value r = dict (
    entry "status" (str (execution_status_value r.status)) (
      entry "evidence" (dict r.evidence)
        (entry "readback" (readback_value r.readback) (entry "reason" (opt_str r.reason) end))))

-- `value.get("reason")`, declared `str | None`
declared_reason : Option Value → Result (Option String)
declared_reason none = ok none
declared_reason (some null) = ok none
declared_reason (some (str s)) = ok (some s)
declared_reason (some _) = err (other_error "TypeError")

-- `dict(value.get(key, {}))`
fields_or_empty : Option Value → Result Fields
fields_or_empty none = ok end
fields_or_empty (some (dict fs)) = ok fs
fields_or_empty (some _) = err (other_error "TypeError")

readback_of : Option Value → Result (Option ReadbackEvidence)
unfolding get fields_or_empty declared_reason truthy_or_false truthy
readback_of none = ok none
readback_of (some null) = ok none
readback_of (some (dict fs)) = do
  observed ← fields_or_empty (get "observed" fs)
  reason ← declared_reason (get "reason" fs)
  ok (
      some (record {
        verified = truthy_or_false (get "verified" fs);
        observed = observed;
        reason = reason;
      }))
readback_of (some _) = err (other_error "AttributeError")

result_of_fields : (Value → String) → Fields → Result ExecutionResult
unfolding item readback_of get fields_or_empty declared_reason execution_status_of
result_of_fields text fs = do
  readback ← readback_of (get "readback" fs)
  status_value ← item "status" fs
  status ← execution_status_of (text status_value)
  evidence ← fields_or_empty (get "evidence" fs)
  reason ← declared_reason (get "reason" fs)
  ok (record { status = status; evidence = evidence; readback = readback; reason = reason })

-- `_result_from_attempt`, on the decoded result
unfoldable pub result_of_value : (Value → String) → Value → Result ExecutionResult
unfolding result_of_fields
result_of_value text (dict fs) = result_of_fields text fs
result_of_value text _ = err (other_error "AttributeError")
