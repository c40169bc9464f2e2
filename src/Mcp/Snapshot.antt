-- ===== src/Mcp/Snapshot.antt =====
-- mcp_stable_snapshot.py: what a server says of itself and of its tools, checked before admission.
pub mod Valid
use responsibility_pathway_r.Prelude.{
  String, Bool, true, false, not, ◌&&◌, ◌||◌, Option, none, some, List, [], ◌∷◌, ◌==◌, any, concat,
  is_some, is_empty, is_blank, strip, if◌then◌else◌,
}
use responsibility_pathway_r.Errors.{Result, ok, err, ensure, ◌>>=◌, ◌>>◌}
use responsibility_pathway_r.Value.{Value, Items, Fields, str, list, dict, nil, cons, get}
use responsibility_pathway_r.Env.{Env}
use responsibility_pathway_r.Mcp.Json.{mcp_admission_error, strict_snapshot}
use responsibility_pathway_r.Mcp.Admission.{
  ToolSnapshot, tool_snapshot, mapping_of, mapping_at, is_text, type_error,
}

-- `STABLE_PROTOCOL_VERSION`
abbrev pub stable_protocol_version : String
stable_protocol_version = "2025-11-25"

-- `_required_text`
unfoldable pub required_text : Option Value → Result String
required_text (some (str s)) = if is_blank s then err mcp_admission_error else ok (strip s)
required_text _ = err mcp_admission_error

-- McpStableServerSnapshot
pub record ServerSnapshot : Type 0 where
  pub protocol_version : String
  pub server_identity : String
  pub server_capabilities : Value

-- `McpStableServerSnapshot.__post_init__`, with `_strict_frozen_json`
unfoldable pub server_snapshot : Env → String → String → Value → Result ServerSnapshot
unfolding mapping_of strict_snapshot
server_snapshot env protocol_version server_identity server_capabilities = do
  (frozen, _) ← strict_snapshot env server_capabilities
  _ ← mapping_of frozen
  ok (record {
    protocol_version = protocol_version;
    server_identity = server_identity;
    server_capabilities = frozen;
  })

-- `validate_initialize`
unfoldable pub validate_initialize : Env → Value → Result ServerSnapshot
unfolding mapping_of mapping_at required_text server_snapshot get
validate_initialize env result = do
  fs ← mapping_of result
  protocol_version ← required_text (get "protocolVersion" fs)
  ensure (protocol_version == stable_protocol_version) mcp_admission_error
  server_info ← mapping_at (get "serverInfo" fs)
  name ← required_text (get "name" server_info)
  version ← required_text (get "version" server_info)
  capabilities ← mapping_at (get "capabilities" fs)
  ensure (is_some (get "tools" capabilities)) mcp_admission_error
  _ ← mapping_at (get "tools" capabilities)
  server_snapshot env protocol_version (concat name (concat "@" version)) (dict capabilities)

-- `mapping.get(key, {})` is an object.
mapping_or_empty : Option Value → Result (Unit {0})
mapping_or_empty none = ok tt
mapping_or_empty (some (dict fs)) = ok tt
mapping_or_empty (some _) = err mcp_admission_error

-- Whether `set(items)` raises TypeError: an item is a list or a dict.
has_unhashable : Items → Bool
has_unhashable nil = false
has_unhashable (cons (list vs) xs) = true
has_unhashable (cons (dict fs) xs) = true
has_unhashable (cons v xs) = has_unhashable xs

-- Distinct texts that are not empty; other items fail the last test in any case.
are_distinct_texts : List String → Items → Bool
unfolding any
are_distinct_texts seen nil = true
are_distinct_texts seen (cons (str s) xs) =
    not (is_empty s) && not (any (λ t. t == s) seen) && are_distinct_texts (s ∷ seen) xs
are_distinct_texts seen (cons v xs) = false

-- The tests on `inputSchema.required`.
check_required : Option Value → Result (Unit {0})
unfolding has_unhashable are_distinct_texts
check_required none = ok tt
check_required (some (list xs)) =
    if has_unhashable xs
    then err type_error
    else if are_distinct_texts [] xs
    then ok tt
    else err mcp_admission_error
check_required (some _) = err mcp_admission_error

-- The tests on one tool: its name, and the tool.
unfoldable pub check_tool : List String → Value → Result (String × Fields)
unfolding mapping_of mapping_at required_text mapping_or_empty check_required is_text get any
check_tool names raw_tool = do
  tool ← mapping_of raw_tool
  name ← required_text (get "name" tool)
  ensure (not (any (λ n. n == name) names)) mcp_admission_error
  schema ← mapping_at (get "inputSchema" tool)
  ensure (is_text "object" (get "type" schema)) mcp_admission_error
  mapping_or_empty (get "properties" schema)
  check_required (get "required" schema)
  ok (name, tool)

-- The loop over the tools: the names so far, and the tool that was asked for.
unfoldable pub select_tool : String → List String → Option Fields → Items → Result (Option Fields)
unfolding check_tool
select_tool requested names selected nil = ok selected
select_tool requested names selected (cons raw_tool rest) = do
  (name, tool) ← check_tool names raw_tool
  select_tool requested (name ∷ names) (if name == requested then some tool else selected) rest

tools_of : Option Value → Result Items
tools_of (some (list vs)) = ok vs
tools_of _ = err mcp_admission_error

found_tool : Option Fields → Result Fields
found_tool none = err mcp_admission_error
found_tool (some tool) = ok tool

-- `validate_tools_list`
unfoldable pub validate_tools_list : Env → Value → ServerSnapshot → String → Result ToolSnapshot
unfolding mapping_of mapping_at required_text tools_of found_tool select_tool tool_snapshot get
validate_tools_list env result server tool_name = do
  fs ← mapping_of result
  requested_name ← required_text (some (str tool_name))
  tools ← tools_of (get "tools" fs)
  selected ← select_tool requested_name [] none tools
  tool ← found_tool selected
  schema ← mapping_at (get "inputSchema" tool)
  tool_snapshot env server.protocol_version server.server_identity server.server_capabilities
      requested_name (dict schema)
