-- ===== src/Mcp/Snapshot/Valid.antt =====
-- mcp_stable_snapshot.py: what a validated server and a validated list of tools give.
use responsibility_pathway_r.Prelude.{
  String, false, ◌≡◌, sym, ap, ◌∙◌, subst, Option, none, some, [], ◌==◌, eq_iff, arith, concat,
  is_some, is_blank, strip, Bool-cases, inl, inr,
}
use responsibility_pathway_r.Errors.{ok, ensure, bind-ok, ensure-ok, ok-injective}
use responsibility_pathway_r.Value.{Value, str, dict, get}
use responsibility_pathway_r.Env.{Env}
use responsibility_pathway_r.Mcp.Json.{mcp_admission_error, strict_snapshot}
use responsibility_pathway_r.Mcp.Admission.{ToolSnapshot, tool_snapshot, mapping_of, mapping_at}
use responsibility_pathway_r.Mcp.Snapshot.{
  ServerSnapshot, stable_protocol_version, required_text, server_snapshot, validate_initialize,
  tools_of, found_tool, select_tool, validate_tools_list,
}

-- A text that was required is what `strip` leaves of a text that is not blank.
pub record Stripped (t : String) : Type 0 where
  pub whole : String
  pub given : is_blank whole ≡ false
  pub is_rest : t ≡ strip whole

required_text-Stripped : (o : Option Value) (t : String) → required_text o ≡ ok t → Stripped t
unfolding required_text
required_text-Stripped none t h = absurd (ground arith)
required_text-Stripped (some (str s)) t h = elim (Bool-cases (is_blank s)) [
  | inl blank ↦ absurd (ground arith)
  | inr given ↦ record {
    whole = s;
    given = given;
    is_rest = sym (ok-injective (strip s) t (rw given at h));
  }
]
required_text-Stripped (some _) t h = absurd (ground arith)

required_text-str :
    (s t : String) → required_text (some (str s)) ≡ ok t → (is_blank s ≡ false) × (t ≡ strip s)
unfolding required_text
required_text-str s t h = elim (Bool-cases (is_blank s)) [
  | inl blank ↦ absurd (ground arith)
  | inr given ↦ (given, sym (ok-injective (strip s) t (rw given at h)))
]

-- The server of a validated answer to `initialize`.
pub record IsServer (s : ServerSnapshot) : Type 0 where
  pub stable : s.protocol_version ≡ stable_protocol_version
  pub name : String
  pub version : String
  pub name_given : Stripped name
  pub version_given : Stripped version
  pub identity : s.server_identity ≡ concat name (concat "@" version)

server_snapshot-fields :
    (env : Env) (pv si : String) (caps : Value) (s : ServerSnapshot)
    → server_snapshot env pv si caps ≡ ok s
    → (s.protocol_version ≡ pv) × (s.server_identity ≡ si)
unfolding server_snapshot
server_snapshot-fields env pv si caps s h =
    let ((frozen, hash), _, h1) = bind-ok (strict_snapshot env caps) _ h in
    let (fs, _, h2) = bind-ok (mapping_of frozen) _ h1 in
    let same = ok-injective _ s h2 in
    (
      sym (ap (λ (t : ServerSnapshot). t.protocol_version) same),
      sym (ap (λ (t : ServerSnapshot). t.server_identity) same),
    )

pub validate_initialize-IsServer :
    (env : Env) (v : Value) (s : ServerSnapshot) → validate_initialize env v ≡ ok s → IsServer s
unfolding validate_initialize
validate_initialize-IsServer env v s h =
    let (fs, _, h1) = bind-ok (mapping_of v) _ h in
    let (pv, _, h2) = bind-ok (required_text (get "protocolVersion" fs)) _ h1 in
    let (_, stable, h3) =
      bind-ok (ensure (pv == stable_protocol_version) mcp_admission_error) _ h2 in
    let (info, _, h4) = bind-ok (mapping_at (get "serverInfo" fs)) _ h3 in
    let (name, has_name, h5) = bind-ok (required_text (get "name" info)) _ h4 in
    let (version, has_version, h6) = bind-ok (required_text (get "version" info)) _ h5 in
    let (caps, _, h7) = bind-ok (mapping_at (get "capabilities" fs)) _ h6 in
    let (_, _, h8) = bind-ok (ensure (is_some (get "tools" caps)) mcp_admission_error) _ h7 in
    let (_, _, h9) = bind-ok (mapping_at (get "tools" caps)) _ h8 in
    let (same_version, same_identity) = server_snapshot-fields env pv _ (dict caps) s h9 in
    record {
      stable =
          same_version
          ∙ (eq_iff pv stable_protocol_version).0 (ensure-ok _ mcp_admission_error stable);
      name = name;
      version = version;
      name_given = required_text-Stripped _ name has_name;
      version_given = required_text-Stripped _ version has_version;
      identity = same_identity;
    }

-- The snapshot of a tool is built from the server and the name that was asked for.
pub validate_tools_list-snapshot :
    (env : Env) (v : Value) (server : ServerSnapshot) (tool_name : String) (s : ToolSnapshot)
    → validate_tools_list env v server tool_name ≡ ok s
    → (is_blank tool_name ≡ false)
      × (schema : Value) × (tool_snapshot env server.protocol_version server.server_identity
            server.server_capabilities
            (strip tool_name)
            schema
          ≡ ok s)
unfolding validate_tools_list
validate_tools_list-snapshot env v server tool_name s h =
    let (fs, _, h1) = bind-ok (mapping_of v) _ h in
    let (requested, asked, h2) = bind-ok (required_text (some (str tool_name))) _ h1 in
    let (tools, _, h3) = bind-ok (tools_of (get "tools" fs)) _ h2 in
    let (selected, _, h4) = bind-ok (select_tool requested [] none tools) _ h3 in
    let (tool, _, h5) = bind-ok (found_tool selected) _ h4 in
    let (schema, _, h6) = bind-ok (mapping_at (get "inputSchema" tool)) _ h5 in
    let (given, stripped) = required_text-str tool_name requested asked in
    (
      given,
      dict schema,
      subst
          (λ n.
            tool_snapshot env server.protocol_version server.server_identity
              server.server_capabilities n (dict schema)
            ≡ ok s)
          stripped h6,
    )
