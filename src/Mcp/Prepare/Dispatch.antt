-- ===== src/Mcp/Prepare/Dispatch.antt =====
-- mcp_stable_transport.py and mcp_tool_executor.py: a call that is prepared can be dispatched.
use responsibility_pathway_r.Prelude.{
  refl, Bool, Option, ◌==◌, String, true, ◌≡◌, sym, ap, ◌∙◌, subst, arith, concat, strip,
}
use responsibility_pathway_r.Prelude.Trim.{is_trimmed, strip-trimmed, joined-trimmed}
use responsibility_pathway_r.Errors.{Result, ok, err, bind-ok}
use responsibility_pathway_r.Exec.{Exec, outcome}
use responsibility_pathway_r.Exec.Returns.{proceed-returns, lift-returns, same-returned}
use responsibility_pathway_r.Value.{Value, Fields, dict, end}
use responsibility_pathway_r.Execution.{ExecutionRequest}
use responsibility_pathway_r.Env.{Env}
use responsibility_pathway_r.Mcp.Admission.{ToolSnapshot, tool_snapshot, admitted_request}
use responsibility_pathway_r.Mcp.Admission.Bound.{admit-Bound}
use responsibility_pathway_r.Mcp.Snapshot.{ServerSnapshot, validate_initialize, validate_tools_list}
use responsibility_pathway_r.Mcp.Snapshot.Valid.{
  IsServer, validate_initialize-IsServer, validate_tools_list-snapshot,
}
use responsibility_pathway_r.Mcp.Tool.{
  is_sha256_hex, validated_dispatch_parameters, Classes, Observer, answered, not_answered,
  validated, execute,
}
use responsibility_pathway_r.Mcp.Tool.Outcome.{call_params}
use responsibility_pathway_r.Mcp.Tool.Dispatch.{admit-dispatch}
use responsibility_pathway_r.Mcp.Prepare.{
  Orchestrator, PreparedCall, prepared_call, in_phase, initialize_params, request_in, notify_in,
  admitted, prepare,
}

in_phase-ok :
    {A : Type 0} (phase : String) (r : Result A) (a : A) → in_phase phase r ≡ ok a → r ≡ ok a
unfolding in_phase
in_phase-ok phase (ok b) a h = h
in_phase-ok phase (err e) a h = absurd (ground arith)

identity-trimmed : (s : ServerSnapshot) → IsServer s → is_trimmed s.server_identity ≡ true
identity-trimmed s h =
    subst (λ t. is_trimmed t ≡ true)
      (sym (
        h.identity
        ∙ ap (λ n. concat n (concat "@" h.version)) h.name_given.is_rest
        ∙ ap (λ v. concat (strip h.name_given.whole) (concat "@" v)) h.version_given.is_rest))
      (joined-trimmed h.name_given.whole h.version_given.whole "@" h.name_given.given
        h.version_given.given)

admitted-action :
    (s : ToolSnapshot) (op attempt key : String) (arguments : Value) (q : ExecutionRequest)
    → q ≡ admitted_request s op attempt key arguments
    → (q.action == "mcp_tool_call") ≡ true
unfolding admitted_request
admitted-action s op attempt key arguments q h =
    ap (λ (r : ExecutionRequest). r.action == "mcp_tool_call") h

-- A request as the executor treats it: it passes every test of `execute`, and `execute` is nothing but
-- the call of the tool, with the handlers of its answer and of its exceptions.
pub record Dispatches (env : Env) (classes : Classes) {U : Type 0}
    (call : String → Fields → Exec U Value) (observer : Option (Observer U))
    (require_readback : Bool) (tool_name : String) (arguments : Value) (q : ExecutionRequest)
    (u : U) : Type 0 where
  pub fields : Fields
  pub object : arguments ≡ dict fields
  pub valid : validated_dispatch_parameters env q ≡ ok (strip tool_name, fields)
  pub executed :
      execute env classes call observer require_readback q u
      ≡ outcome
          (call "tools/call" (call_params (strip tool_name) fields) u)
          (answered env classes call observer require_readback q)
          (not_answered env classes call observer require_readback)

-- The part of it that does not depend on the executor.
record IsReady (env : Env) (tool_name : String) (arguments : Value) (q : ExecutionRequest)
    : Type 0 where
  fields : Fields
  object : arguments ≡ dict fields
  valid : validated_dispatch_parameters env q ≡ ok (strip tool_name, fields)
  action : (q.action == "mcp_tool_call") ≡ true

module _ (env : Env) (classes : Classes) {U : Type 0} (call : String → Fields → Exec U Value)
    (observer : Option (Observer U)) (require_readback : Bool) where
  ready-executed :
      (q : ExecutionRequest) (tool_name : String) (fields : Fields) (u : U)
      → (q.action == "mcp_tool_call") ≡ true
      → validated_dispatch_parameters env q ≡ ok (tool_name, fields)
      → execute env classes call observer require_readback q u
        ≡ outcome
            (call "tools/call" (call_params tool_name fields) u)
            (answered env classes call observer require_readback q)
            (not_answered env classes call observer require_readback)
  unfolding execute validated
  ready-executed q tool fs u action valid = rw (action, valid) refl

  ready-Dispatches :
      (tool_name : String) (arguments : Value) (q : ExecutionRequest) (u : U)
      → IsReady env tool_name arguments q
      → Dispatches env classes call observer require_readback tool_name arguments q u
  ready-Dispatches tool arguments q u r = record {
    fields = r.fields;
    object = r.object;
    valid = r.valid;
    executed = ready-executed q (strip tool) r.fields u r.action r.valid;
  }

module _ (o : Orchestrator) {T : Type 0} (request : String → Fields → Exec T Value)
    (notify : String → Fields → Exec T (Unit {0}))
    (hex : (bytes : String) → is_sha256_hex (o.env.sha256 bytes) ≡ true) where
  admitted-IsReady :
      (server : ServerSnapshot) (tools : Value) (tool_name op attempt key : String)
      (arguments : Value) (q : ExecutionRequest)
      → IsServer server
      → admitted o request notify server tools tool_name op attempt key arguments ≡ ok q
      → IsReady o.env tool_name arguments q
  unfolding admitted
  admitted-IsReady server tools tool op attempt key arguments q is h =
      let (s, made, allowed) = bind-ok (validate_tools_list o.env tools server tool) _ h in
      let (given, schema, built) = validate_tools_list-snapshot o.env tools server tool s made in
      let (fs, object, valid) =
        admit-dispatch o.env o.contract o.experimental server.server_identity (strip tool)
          server.server_capabilities schema s op attempt key arguments q
          (subst
            (λ v.
              tool_snapshot o.env v server.server_identity server.server_capabilities (strip tool)
                schema
              ≡ ok s)
            is.stable built)
          (identity-trimmed server is) (strip-trimmed tool given) hex allowed in
      let (_, _, same) =
        admit-Bound o.env o.contract o.experimental s op attempt key arguments q allowed in
      record {
        fields = fs;
        object = object;
        valid = valid;
        action = admitted-action s op attempt key arguments q same;
      }

  -- A call that is prepared is dispatched: let the hashes be 64 lowercase hexadecimal digits. If
  -- `prepare` returns, then the tool executor, whatever its transport, its observer and its need of
  -- readback are, finds the request valid and calls the tool that was asked for (its name without
  -- surrounding space) with the arguments as they were given: its `execute` is that one call with the
  -- handlers of what comes back.
  pub prepare-Dispatches :
      (tool_name : String) (arguments : Value) (op attempt key : String) (c : PreparedCall)
      (s t : T) (classes : Classes) {U : Type 0} (call : String → Fields → Exec U Value)
      (observer : Option (Observer U)) (require_readback : Bool) (u : U)
      → prepare o request notify tool_name arguments op attempt key s ≡ (ok c, t)
      → Dispatches o.env classes call observer require_readback tool_name arguments c.request u
  unfolding prepare
  prepare-Dispatches tool arguments op attempt key c s t classes call observer require_readback u
        h =
      let (answer, (s1, (_, h1))) =
        proceed-returns
          (request_in o request notify "initialize" (initialize_params o) "initialize" s) _ c t h in
      let (server, (valid, h2)) =
        lift-returns (in_phase "initialize_validation" (validate_initialize o.env answer)) _ s1 c t
          h1 in
      let (_, (s2, (_, h3))) =
        proceed-returns
          (notify_in o request notify "notifications/initialized" end "initialized_notification" s1)
          _ c t h2 in
      let (tools, (s3, (_, h4))) =
        proceed-returns (request_in o request notify "tools/list" end "tools_list" s2) _ c t h3 in
      let (q, (ready, h5)) =
        lift-returns
          (in_phase "admission"
            (admitted o request notify server tools tool op attempt key arguments))
          _ s3 c t h4 in
      let (same, _) = same-returned (prepared_call server tool q) c s3 t h5 in
      ready-Dispatches o.env classes call observer require_readback tool arguments c.request u (
        subst (λ d. IsReady o.env tool arguments d.request) same
          (admitted-IsReady server tools tool op attempt key arguments q
            (validate_initialize-IsServer o.env answer server
              (in_phase-ok "initialize_validation" _ server valid))
            (in_phase-ok "admission" _ q ready)))
