-- ===== src/Execution/RoundTrip.antt =====
-- executor.py, attempts.py and runtime.py: a result that the ledger stores is read back unchanged.
use responsibility_pathway_r.Prelude.{String, ◌≡◌, refl, Option, none, some}
use responsibility_pathway_r.Errors.{ok}
use responsibility_pathway_r.Value.{Value, str, opt_str, get, item}
use responsibility_pathway_r.Execution.{
  ExecutionStatus, succeeded, failed, write_status_unknown, ExecutionResult, ReadbackEvidence,
  execution_status_value, execution_status_of, readback_value, readback_of, declared_reason,
  fields_or_empty, result_value, result_of_value,
}

status_of-value : (s : ExecutionStatus) → execution_status_of (execution_status_value s) ≡ ok s
unfolding execution_status_of
status_of-value succeeded = refl
status_of-value failed = refl
status_of-value write_status_unknown = refl

declared_reason-opt_str : (o : Option String) → declared_reason (some (opt_str o)) ≡ ok o
unfolding declared_reason
declared_reason-opt_str none = refl
declared_reason-opt_str (some s) = refl

readback_of-value : (r : Option ReadbackEvidence) → readback_of (some (readback_value r)) ≡ ok r
unfolding readback_of readback_value
readback_of-value none = refl
readback_of-value (some r) = simp declared_reason-opt_str

-- Let the text of a string be the string itself. Then the value that the ledger writes of a
-- result is read back as the same result.
pub result_of_value-result_value :
    (text : Value → String)
    → ((s : String) → text (str s) ≡ s)
    → (r : ExecutionResult) → result_of_value text (result_value r) ≡ ok r
unfolding result_of_value result_value get item fields_or_empty
result_of_value-result_value text text-str r =
    simp (text-str, status_of-value, readback_of-value, declared_reason-opt_str)
