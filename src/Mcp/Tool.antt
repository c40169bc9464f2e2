-- ===== src/Mcp/Tool.antt =====
-- mcp_tool_executor.py: McpStableToolExecutor, which dispatches an admitted call.
pub mod Outcome
pub mod Failure
pub mod Dispatch
use Prim.Native.Char.{code}
use responsibility_pathway_r.Prelude.{
  ℕ, suc, ◌+◌, String, Bool, true, false, not, ◌&&◌, ◌||◌, Option, none, some, List, [], ◌∷◌, ◌==◌,
  concat, is_some, is_blank, strip, leb, if◌then◌else◌,
}
use responsibility_pathway_r.Prelude.Trim.{is_trimmed}
use responsibility_pathway_r.Errors.{Error, Result, ok, err, other_error, ensure, ◌>>=◌, ◌>>◌}
use responsibility_pathway_r.Exec.{Exec, try, pure, raise}
use responsibility_pathway_r.Value.{
  Value, Items, Fields, null, bool, int, float, str, list, dict, object, end, entry, get,
}
use responsibility_pathway_r.Execution.{
  ExecutionRequest, ExecutionResult, ExecutionStatus, ReadbackEvidence, succeeded, failed,
  write_status_unknown, bare_result, reason_or,
}
use responsibility_pathway_r.Env.{Env}
use responsibility_pathway_r.Rpc.{only_keys}
use responsibility_pathway_r.Mcp.Json.{mcp_admission_error, strict_document}
use responsibility_pathway_r.Mcp.Admission.{mapping_of, mapping_at}
use responsibility_pathway_r.Mcp.Snapshot.{stable_protocol_version}

unfoldable pub all_given : List String → Fields → Bool
unfolding get
all_given [] fs = true
all_given (k ∷ ks) fs = is_some (get k fs) && all_given ks fs

-- `set(value) == {…}`
unfoldable pub has_keys : List String → Fields → Bool
unfolding only_keys all_given
has_keys names fs = only_keys names fs && all_given names fs

-- `_MCP_BINDING_FIELDS`
abbrev pub mcp_binding_fields : List String
mcp_binding_fields =
    "protocol_version" ∷ "server_identity" ∷ "server_capabilities_hash" ∷ "tool_name"
    ∷ "tool_schema_hash" ∷ []

is_hex : ℕ → Bool
is_hex c = (leb 48 c && leb c 57) || (leb 97 c && leb c 102)

all_hex : ℕ → String → Bool
unfolding is_hex
all_hex n String.[] = leb n 64 && leb 64 n
all_hex n (String.◌∷◌ c s) = is_hex (code c) && all_hex (suc n) s

-- `_SHA256_HEX.fullmatch(value)`
unfoldable pub is_sha256_hex : String → Bool
unfolding all_hex
is_sha256_hex s = all_hex 0 s

trimmed_text : Option Value → Result String
unfolding is_trimmed
trimmed_text (some (str s)) = if is_trimmed s then ok s else err mcp_admission_error
trimmed_text _ = err mcp_admission_error

hash_text : Option Value → Result String
unfolding is_sha256_hex
hash_text (some (str s)) = if is_sha256_hex s then ok s else err mcp_admission_error
hash_text _ = err mcp_admission_error

-- `_validated_dispatch_parameters`
unfoldable pub validated_dispatch_parameters : Env → ExecutionRequest → Result (String × Fields)
unfolding has_keys mapping_at trimmed_text hash_text get mapping_of
validated_dispatch_parameters env q = do
  ensure (has_keys ("mcp" ∷ "arguments" ∷ []) q.parameters) mcp_admission_error
  mcp ← mapping_at (get "mcp" q.parameters)
  arguments ← mapping_at (get "arguments" q.parameters)
  ensure (has_keys mcp_binding_fields mcp) mcp_admission_error
  protocol_version ← trimmed_text (get "protocol_version" mcp)
  _ ← trimmed_text (get "server_identity" mcp)
  tool_name ← trimmed_text (get "tool_name" mcp)
  ensure (protocol_version == stable_protocol_version) mcp_admission_error
  _ ← hash_text (get "server_capabilities_hash" mcp)
  _ ← hash_text (get "tool_schema_hash" mcp)
  (detached, _) ← strict_document env (dict arguments)
  detached_arguments ← mapping_of detached
  ok (tool_name, detached_arguments)

-- The evidence of a call in a state of dispatch.
abbrev pub dispatch_evidence : String → Fields → Fields
dispatch_evidence state fs = entry "dispatch_state" (str state) fs

abbrev pub reasoned : ExecutionStatus → Fields → String → ExecutionResult
reasoned status evidence reason = record {
  status = status;
  evidence = evidence;
  readback = none;
  reason = some reason;
}

-- `tool_result.get("isError") is True`
unfoldable pub is_tool_error : Fields → Bool
unfolding get
is_tool_error fs = elim (get "isError" fs) [
  | some v ↦ elim v [ bool b ↦ b | _ ↦ false ]
  | none ↦ false
]

-- How the exceptions of the transport and of the observer are told apart, by `isinstance`, and the
-- texts that the reasons show.
pub record Classes : Type 0 where
  -- McpToolCallNotSentError
  pub is_not_sent : Error → Bool
  -- McpToolCallOutcomeUnknownError, TimeoutError, ConnectionError, OSError
  pub is_possibly_sent : Error → Bool
  -- McpTransportError
  pub is_transport : Error → Bool
  -- TimeoutError, ConnectionError, OSError, ValueError, TypeError
  pub is_readback_failure : Error → Bool
  -- `f"{type(exc).__name__}: {exc}"`
  pub describe : Error → String
  -- `type(value).__name__`
  pub type_name : Value → String

abbrev pub Observer : Type 0 → Type 0
Observer T = ExecutionRequest → Fields → Exec T (Option ReadbackEvidence)

abbrev sent_evidence : Fields → Fields
sent_evidence tool_result = dispatch_evidence "sent" (entry "tool_result" (dict tool_result) end)

-- What the executor makes of the answer of the observer; `none` is no ReadbackEvidence.
observed_result : Fields → Option ReadbackEvidence → ExecutionResult
observed_result tool_result none =
    reasoned write_status_unknown (sent_evidence tool_result)
      "readback_observer_returned_invalid_evidence"
observed_result tool_result (some r) = record {
  status = if r.verified then succeeded else write_status_unknown;
  evidence = sent_evidence tool_result;
  readback = some r;
  reason = if r.verified then none else some (reason_or r.reason "readback_not_verified");
}

-- `call` is `self.transport.request`.
module _ (env : Env) (classes : Classes) {T : Type 0} (call : String → Fields → Exec T Value)
    (observer : Option (Observer T)) (require_readback : Bool) where
  readback_failed : Fields → Error → Exec T ExecutionResult
  readback_failed tool_result e =
      if classes.is_readback_failure e
      then pure (
          reasoned write_status_unknown (sent_evidence tool_result)
            (concat "readback_failed: " (classes.describe e)))
      else raise e

  -- The readback by the observer, where there is one.
  read_back : Option (Observer T) → ExecutionRequest → Fields → Exec T ExecutionResult
  unfolding observed_result readback_failed
  read_back none q tool_result =
      pure
        (reasoned write_status_unknown (sent_evidence tool_result) "independent_readback_required")
  read_back (some observe) q tool_result =
      try (observe q tool_result) (λ r. pure (observed_result tool_result r))
        (readback_failed tool_result)

  -- What `execute` does with the answer of the transport.
  unfoldable pub answered : ExecutionRequest → Value → Exec T ExecutionResult
  unfolding is_tool_error read_back
  answered q (dict tool_result) =
      if is_tool_error tool_result
      then pure (reasoned failed (sent_evidence tool_result) "mcp_tool_error")
      else if require_readback
      then read_back observer q tool_result
      else pure (record {
        status = succeeded;
        evidence = sent_evidence tool_result;
        readback = none;
        reason = none;
      })
  answered q v = pure (
      reasoned write_status_unknown
        (dispatch_evidence "sent" (entry "response_shape" (str (classes.type_name v)) end))
        "tools_call_returned_non_object_result")

  -- The handlers of the exceptions of the transport.
  unfoldable pub not_answered : Error → Exec T ExecutionResult
  not_answered e =
      if classes.is_not_sent e
      then pure (reasoned failed (dispatch_evidence "not_sent" end) (classes.describe e))
      else if classes.is_possibly_sent e
      then pure (
          reasoned write_status_unknown (dispatch_evidence "possibly_sent" end)
            (classes.describe e))
      else if classes.is_transport e
      then pure
          (reasoned write_status_unknown (dispatch_evidence "unknown" end) (classes.describe e))
      else raise e

  unfoldable pub validated : ExecutionRequest → Result (String × Fields) → Exec T ExecutionResult
  unfolding answered not_answered
  validated q (err e) = pure (
      reasoned failed (dispatch_evidence "not_sent" end)
        (concat "invalid_mcp_admission_envelope: " (classes.describe e)))
  validated q (ok (tool_name, arguments)) =
      try
        (call "tools/call" (entry "name" (str tool_name) (entry "arguments" (dict arguments) end)))
        (answered q) not_answered

  -- `McpStableToolExecutor.execute`
  unfoldable pub execute : ExecutionRequest → Exec T ExecutionResult
  unfolding validated validated_dispatch_parameters
  execute q =
      if not (q.action == "mcp_tool_call")
      then pure (bare_result failed "unsupported_action")
      else validated q (validated_dispatch_parameters env q)
