-- ===== src/Mcp/Retained.antt =====
-- mcp_retained_evidence.py: the evidence of a tool call that is kept, and the keys that it refuses.
pub mod Binding
pub mod Checked
use responsibility_pathway_r.Prelude.{
  ℕ, zero, suc, ◌+◌, String, Bool, true, false, not, ◌&&◌, ◌||◌, Option, none, some, List, [], ◌∷◌,
  ◌==◌, any, leb, ltb, is_some, is_blank, strip, if◌then◌else◌,
}
use responsibility_pathway_r.Errors.{Error, Result, ok, err, other_error, ensure, ◌>>=◌, ◌>>◌}
use responsibility_pathway_r.Value.{
  Value, Items, Fields, Key, name, other_key, null, bool, int, float, str, list, dict, object, nil,
  cons, end, field, entry, get, opt_str, ℤ, pos,
}
use responsibility_pathway_r.Execution.{
  ExecutionRequest, ExecutionResult, ReadbackEvidence, execution_status_value,
}
use responsibility_pathway_r.Env.{Env}
use responsibility_pathway_r.Rpc.{only_keys}
use responsibility_pathway_r.Mcp.Lifecycle.{ProcessExit}
use responsibility_pathway_r.Mcp.SafeJson.{retained_evidence_error, strict_json, required_text}

-- McpDiagnosticsEvidence, of a count that is an integer
pub record DiagnosticsEvidence : Type 0 where
  pub bytes_retained : ℕ
  pub truncated : Bool

-- McpRetainedEvidence
pub record RetainedEvidence : Type 0 where
  pub payload : Value
  pub sha256 : String

-- `_hash_payload`
unfoldable pub hash_payload : Env → Value → String
hash_payload env payload = env.sha256 (env.dumps payload)

-- `McpRetainedEvidence.__post_init__`
unfoldable pub check_retained : Env → Value → String → Result RetainedEvidence
unfolding strict_json hash_payload
check_retained env payload sha256 = do
  normalized ← strict_json env payload
  ensure (sha256 == hash_payload env normalized) retained_evidence_error
  ok (record { payload = normalized; sha256 = sha256 })

mapping_at : Option Value → Result Fields
mapping_at (some (dict fs)) = ok fs
mapping_at _ = err retained_evidence_error

-- The loop over `admission_keys`.
unfoldable pub admission_of : List String → Fields → Result Fields
unfolding required_text get
admission_of [] mcp = ok end
admission_of (k ∷ ks) mcp = do
  text ← required_text (get k mcp)
  rest ← admission_of ks mcp
  ok (entry k (str text) rest)

-- `admission_keys`
abbrev pub admission_keys : List String
admission_keys =
    "protocol_version" ∷ "server_name" ∷ "server_version" ∷ "server_capabilities_sha256"
    ∷ "tool_name" ∷ "tool_schema_sha256" ∷ []

abbrev dispatch_states : List String
dispatch_states = "not_sent" ∷ "possibly_sent" ∷ "unknown" ∷ "sent" ∷ []

-- `dispatch_state in {…}`; a list or a dict raises TypeError there.
dispatch_state_of : Option Value → Result String
unfolding any
dispatch_state_of (some (str s)) =
    if any (λ t. t == s) dispatch_states then ok s else err retained_evidence_error
dispatch_state_of (some (list vs)) = err (other_error "TypeError")
dispatch_state_of (some (dict fs)) = err (other_error "TypeError")
dispatch_state_of _ = err retained_evidence_error

fields_of : Value → Fields
fields_of (dict fs) = fs
fields_of _ = end

readback_value : Env → Option ReadbackEvidence → Result Value
unfolding strict_json
readback_value env none = ok null
readback_value env (some r) = do
  observed ← strict_json env (dict r.observed)
  ok (
      dict (
        entry "verified" (bool r.verified)
          (entry "observed" observed (entry "reason" (opt_str r.reason) end))))

process_value : Option ProcessExit → Value
process_value none = null
process_value (some x) = dict (
    entry "exit_code" (int x.exit_code) (
      entry "graceful" (bool x.graceful)
        (entry "terminated" (bool x.terminated) (entry "killed" (bool x.killed) end))))

diagnostics_value : Option DiagnosticsEvidence → Value
diagnostics_value none = null
diagnostics_value (some d) =
    dict (
      entry "bytes_retained" (int (pos d.bytes_retained))
        (entry "truncated" (bool d.truncated) end))

operation_value : Env → ExecutionRequest → Value
operation_value env q = dict (
    entry "operation_id" (str q.operation_id) (
      entry "attempt_id" (str q.attempt_id)
        (entry "idempotency_key_sha256" (str (env.sha256 q.idempotency_key)) end)))

-- The dictionary that is kept.
payload_value :
    Env
    → ExecutionRequest
    → ExecutionResult
    → Fields
    → String
    → Value
    → Value
    → Value
    → String
    → Value
unfolding operation_value execution_status_value
payload_value env q r admission dispatch_state readback process diagnostics residual_boundary =
    dict (
      entry "schema" (str "rpr.mcp.retained-evidence.v1") (
        entry "operation" (operation_value env q) (
          entry "admission" (dict admission) (
            entry "execution"
              (dict (
                entry "status" (str (execution_status_value r.status)) (
                  entry "dispatch_state" (str dispatch_state)
                    (entry "reason" (opt_str r.reason) (entry "readback" readback end)))))
              (entry "process_exit" process (
                entry "diagnostics" diagnostics
                  (entry "residual_boundary" (str residual_boundary) end)))))))

-- `build_mcp_retained_evidence`
unfoldable pub build_mcp_retained_evidence :
    Env
    → ExecutionRequest
    → ExecutionResult
    → Option ProcessExit
    → Option DiagnosticsEvidence
    → String
    → Result RetainedEvidence
unfolding mapping_at admission_of strict_json dispatch_state_of fields_of readback_value
    process_value diagnostics_value payload_value required_text hash_payload check_retained get
build_mcp_retained_evidence env q r process_exit diagnostics residual_boundary = do
  ensure (q.action == "mcp_tool_call") retained_evidence_error
  mcp ← mapping_at (get "mcp" q.parameters)
  admission ← admission_of admission_keys mcp
  execution_evidence ← strict_json env (dict r.evidence)
  dispatch_state ← dispatch_state_of (get "dispatch_state" (fields_of execution_evidence))
  readback ← readback_value env r.readback
  boundary ← required_text (some (str residual_boundary))
  payload ← strict_json env (
      payload_value env q r admission dispatch_state readback (process_value process_exit)
        (diagnostics_value diagnostics) boundary)
  check_retained env payload (hash_payload env payload)

payload_of : Option Value → Value
payload_of none = null
payload_of (some v) = v

-- `from_json`, of what `json.loads` gives: `none` where that raises
unfoldable pub from_json : Env → Option Value → Result RetainedEvidence
unfolding only_keys required_text check_retained payload_of get
from_json env none = err retained_evidence_error
from_json env (some (dict envelope)) = do
  ensure
      (only_keys ("payload" ∷ "sha256" ∷ []) envelope
        && is_some (get "payload" envelope)
        && is_some (get "sha256" envelope))
      retained_evidence_error
  sha256 ← required_text (get "sha256" envelope)
  check_retained env (payload_of (get "payload" envelope)) sha256
from_json env (some _) = err retained_evidence_error

-- The envelope of which `to_json` writes the JSON text.
unfoldable pub to_json : RetainedEvidence → Value
to_json e = dict (entry "payload" e.payload (entry "sha256" (str e.sha256) end))
