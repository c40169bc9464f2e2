-- ===== src/Mcp/Retained/Binding.antt =====
-- mcp_retained_evidence.py against mcp_admission.py and mcp_tool_executor.py: the names in the binding.
use responsibility_pathway_r.Prelude.{
  String, Bool, true, false, ◌&&◌, ◌≡◌, ◌⊎◌, inl, inr, refl, subst, strip, Option, none, some, List,
  [], ◌∷◌, ◌==◌, eq_iff, any, arith, Bool-cases, is_blank,
}
use responsibility_pathway_r.Errors.{ok, err, ensure, bind-ok, ensure-ok}
use responsibility_pathway_r.Value.{Value, Fields, name, other_key, str, dict, end, field, get}
use responsibility_pathway_r.Execution.{ExecutionRequest, ExecutionResult}
use responsibility_pathway_r.Env.{Env}
use responsibility_pathway_r.Rpc.{only_keys}
use responsibility_pathway_r.Mcp.Json.{mcp_admission_error}
use responsibility_pathway_r.Mcp.Admission
use responsibility_pathway_r.Mcp.Lifecycle.{ProcessExit}
use responsibility_pathway_r.Mcp.Tool.{has_keys, mcp_binding_fields, validated_dispatch_parameters}
use responsibility_pathway_r.Mcp.SafeJson.{retained_evidence_error, required_text}
use responsibility_pathway_r.Mcp.Retained.{
  DiagnosticsEvidence, mapping_at, admission_of, admission_keys, build_mcp_retained_evidence,
}

both : (a b : Bool) → (a && b) ≡ true → (a ≡ true) × (b ≡ true)
both true b h = (refl, h)
both false b h = absurd (ground arith)

-- A dict that has only the given keys has no other.
only_keys-get :
    (names : List String) (k : String) (fs : Fields)
    → only_keys names fs ≡ true
    → any (λ n. n == k) names ≡ false
    → get k fs ≡ none
unfolding only_keys get
only_keys-get names k end h absent = refl
only_keys-get names k (field (other_key j) v fs) h absent = absurd (ground arith)
only_keys-get names k (field (name j) v fs) h absent =
    let (listed, others) = both (any (λ n. n == j) names) (only_keys names fs) h in
    elim (Bool-cases (j == k)) [
      | inl same ↦
          absurd (cc (subst (λ i. any (λ n. n == i) names ≡ true) ((eq_iff j k).0 same) listed))
      | inr other ↦ rw other (only_keys-get names k fs others absent)
    ]

required_text-err :
    (o : Option Value)
    → ((t : String) × (required_text o ≡ ok t)) ⊎ (required_text o ≡ err retained_evidence_error)
unfolding required_text
required_text-err none = inr refl
required_text-err (some (str s)) = elim (Bool-cases (is_blank s)) [
  | inl blank ↦ inr (rw blank)
  | inr given ↦ inl (strip s, rw given)
]
required_text-err (some _) = inr refl

admission_of-refused :
    (mcp : Fields)
    → get "server_name" mcp ≡ none
    → admission_of admission_keys mcp ≡ err retained_evidence_error
unfolding admission_of
admission_of-refused mcp h = elim (required_text-err (get "protocol_version" mcp)) [
  | inl found ↦ rw (found.1, h, required_text)
  | inr refused ↦ rw refused
]

mapping_at-dict :
    (o : Option Value) (fs : Fields) → Admission.mapping_at o ≡ ok fs → o ≡ some (dict fs)
unfolding Admission.mapping_at Admission.mapping_of
mapping_at-dict o fs h = ground arith

bound_only :
    (mcp : Fields)
    → has_keys mcp_binding_fields mcp ≡ true
    → only_keys mcp_binding_fields mcp ≡ true
unfolding has_keys
bound_only mcp h = ground arith

-- The binding of a request that the executor finds valid has no `server_name`.
valid-binding :
    (env : Env) (q : ExecutionRequest) (r : String × Fields)
    → validated_dispatch_parameters env q ≡ ok r
    → (mcp : Fields) × (get "mcp" q.parameters ≡ some (dict mcp)) × (get "server_name" mcp ≡ none)
unfolding validated_dispatch_parameters any
valid-binding env q r h =
    let (_, _, h1) =
      bind-ok (ensure (has_keys ("mcp" ∷ "arguments" ∷ []) q.parameters) mcp_admission_error) _ h in
    let (mcp, is, h2) = bind-ok (Admission.mapping_at (get "mcp" q.parameters)) _ h1 in
    let (_, _, h3) = bind-ok (Admission.mapping_at (get "arguments" q.parameters)) _ h2 in
    let (_, keys, h4) =
      bind-ok (ensure (has_keys mcp_binding_fields mcp) mcp_admission_error) _ h3 in
    (
      mcp,
      mapping_at-dict (get "mcp" q.parameters) mcp is,
      only_keys-get mcp_binding_fields "server_name" mcp
          (bound_only mcp (ensure-ok _ mcp_admission_error keys)) refl,
    )

-- No evidence is kept of a call that the executor can dispatch: if the executor finds a request valid,
-- then `build_mcp_retained_evidence` raises for it, whatever the result, the exit, the diagnostics and
-- the boundary are, since it asks for names that the binding does not have.
pub valid-unretained :
    (env : Env) (q : ExecutionRequest) (call : String × Fields) (r : ExecutionResult)
    (process_exit : Option ProcessExit) (diagnostics : Option DiagnosticsEvidence)
    (residual_boundary : String)
    → validated_dispatch_parameters env q ≡ ok call
    → build_mcp_retained_evidence env q r process_exit diagnostics residual_boundary
      ≡ err retained_evidence_error
unfolding build_mcp_retained_evidence mapping_at
valid-unretained env q call r process_exit diagnostics boundary h =
    let (mcp, bound, unnamed) = valid-binding env q call h in
    elim (Bool-cases (q.action == "mcp_tool_call")) [
      | inl tool_call ↦ rw (tool_call, bound, admission_of-refused mcp unnamed)
      | inr other ↦ rw other
    ]
