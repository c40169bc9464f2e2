-- ===== src/Mcp/Tool/Dispatch.antt =====
-- mcp_admission.py and mcp_tool_executor.py: what the adapter admits, the executor dispatches.
use responsibility_pathway_r.Prelude.{
  String, Bool, true, not, ◌≡◌, refl, sym, ap, ◌∙◌, subst, is_blank, strip,
}
use responsibility_pathway_r.Prelude.Trim.{is_trimmed}
use responsibility_pathway_r.Errors.{ok, ensure, bind-ok, ok-injective}
use responsibility_pathway_r.Value.{Value, Fields, dict}
use responsibility_pathway_r.Execution.{ExecutionRequest}
use responsibility_pathway_r.Env.{Env}
use responsibility_pathway_r.Mcp.Json.{mcp_admission_error, strict_document, strict_snapshot}
use responsibility_pathway_r.Mcp.Admission.{
  ToolSnapshot, mapping_of, tool_snapshot, admitted_request, admit,
}
use responsibility_pathway_r.Mcp.Admission.Bound.{admit-Bound, admit-object}
use responsibility_pathway_r.Mcp.Snapshot.{stable_protocol_version}
use responsibility_pathway_r.Mcp.Tool.{is_sha256_hex, validated_dispatch_parameters}

-- A snapshot as the dispatch wants it.
pub record IsDispatchable (s : ToolSnapshot) : Type 0 where
  pub stable : s.protocol_version ≡ stable_protocol_version
  pub server_trimmed : is_trimmed s.server_identity ≡ true
  pub tool_trimmed : is_trimmed s.tool_name ≡ true
  pub capabilities_hex : is_sha256_hex s.server_capabilities_hash ≡ true
  pub schema_hex : is_sha256_hex s.tool_schema_hash ≡ true

module _ (env : Env) where
  snapshot-hash :
      (v w : Value) (h : String)
      → strict_snapshot env v ≡ ok (w, h)
      → (bytes : String) × (h ≡ env.sha256 bytes)
  unfolding strict_snapshot
  snapshot-hash v w h e =
      let ((d, bytes), _, e1) = bind-ok (strict_document env v) _ e in
      (bytes, sym (ap (λ (r : Value × String). r.1) (ok-injective (d, env.sha256 bytes) (w, h) e1)))

  pub snapshot-IsDispatchable :
      (server_identity tool_name : String) (capabilities schema : Value) (s : ToolSnapshot)
      → tool_snapshot env stable_protocol_version server_identity capabilities tool_name schema
        ≡ ok s
      → is_trimmed server_identity ≡ true
      → is_trimmed tool_name ≡ true
      → ((bytes : String) → is_sha256_hex (env.sha256 bytes) ≡ true)
      → IsDispatchable s × (s.tool_name ≡ tool_name)
  unfolding tool_snapshot
  snapshot-IsDispatchable server tool caps schema s h server_ok tool_ok hex =
      let (_, _, h1) =
        bind-ok (ensure (not (is_blank stable_protocol_version)) mcp_admission_error) _ h in
      let (_, _, h2) = bind-ok (ensure (not (is_blank server)) mcp_admission_error) _ h1 in
      let (_, _, h3) = bind-ok (ensure (not (is_blank tool)) mcp_admission_error) _ h2 in
      let (_, _, h4) = bind-ok (mapping_of caps) _ h3 in
      let (_, _, h5) = bind-ok (mapping_of schema) _ h4 in
      let ((c, ch), cs, h6) = bind-ok (strict_snapshot env caps) _ h5 in
      let ((d, dh), ds, h7) = bind-ok (strict_snapshot env schema) _ h6 in
      let (cb, ce) = snapshot-hash caps c ch cs in
      let (db, de) = snapshot-hash schema d dh ds in
      subst (λ t. IsDispatchable t × (t.tool_name ≡ tool)) (ok-injective _ s h7)
        (
          record {
            stable = refl;
            server_trimmed = server_ok;
            tool_trimmed = tool_ok;
            capabilities_hex = rw ce (hex cb);
            schema_hex = rw de (hex db);
          },
          refl,
        )

  admitted-valid :
      (s : ToolSnapshot) (operation_id attempt_id idempotency_key : String) (fs : Fields)
      (bytes : String)
      → IsDispatchable s
      → strict_document env (dict fs) ≡ ok (dict fs, bytes)
      → validated_dispatch_parameters env
          (admitted_request s operation_id attempt_id idempotency_key (dict fs))
        ≡ ok (s.tool_name, fs)
  unfolding validated_dispatch_parameters admitted_request mapping_of is_blank strip
  admitted-valid s op attempt key fs bytes d document =
      rw (d.server_trimmed, d.tool_trimmed, d.capabilities_hex, d.schema_hex, document, d.stable)
        refl

  -- What is admitted can be dispatched: if the snapshot of a stable server is made of trimmed names, the
  -- hashes are 64 lowercase hexadecimal digits, and the adapter admits a call with it, then the
  -- executor finds the request valid, and dispatches the tool of the snapshot with the arguments as
  -- they were given.
  pub admit-dispatch :
      (contract : Fields) (experimental : Bool) (server_identity tool_name : String)
      (capabilities schema : Value) (s : ToolSnapshot)
      (operation_id attempt_id idempotency_key : String) (arguments : Value) (q : ExecutionRequest)
      → tool_snapshot env stable_protocol_version server_identity capabilities tool_name schema
        ≡ ok s
      → is_trimmed server_identity ≡ true
      → is_trimmed tool_name ≡ true
      → ((bytes : String) → is_sha256_hex (env.sha256 bytes) ≡ true)
      → admit env contract experimental s operation_id attempt_id idempotency_key arguments ≡ ok q
      → (fs : Fields) × (arguments ≡ dict fs)
        × (validated_dispatch_parameters env q ≡ ok (tool_name, fs))
  admit-dispatch contract experimental server tool caps schema s op attempt key arguments q made
        server_ok tool_ok hex h =
      let (dispatchable, same_tool) =
        snapshot-IsDispatchable server tool caps schema s made server_ok tool_ok hex in
      let (fs, object, bytes, document) =
        admit-object env contract experimental s op attempt key arguments q h in
      let (_, _, same_request) =
        admit-Bound env contract experimental s op attempt key arguments q h in
      let valid =
        admitted-valid s op attempt key fs bytes dispatchable
          (subst (λ v. strict_document env v ≡ ok (v, bytes)) object document) in
      (
        fs,
        object,
        ap (validated_dispatch_parameters env)
              (same_request ∙ ap (admitted_request s op attempt key) object)
            ∙ valid
            ∙ ap (λ name. ok (name, fs)) same_tool,
      )
