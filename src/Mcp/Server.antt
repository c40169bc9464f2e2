-- ===== src/Mcp/Server.antt =====
-- mcp_server.py: ReadOnlyRprMcpServer, which shows the store by read-only tools.
pub mod Handshake
use responsibility_pathway_r.Prelude.{
  ℕ, suc, String, Bool, true, false, not, ◌&&◌, ◌||◌, Option, none, some, List, [], ◌∷◌, ◌==◌,
  is_some, is_empty, if◌then◌else◌,
}
use responsibility_pathway_r.Errors.{
  Error, Result, ok, err, value_error, key_error, json_rpc_error, class_name, ensure,
  ◌>>=◌ as and_then, ◌>>◌ as after,
}
use responsibility_pathway_r.Exec.{Exec, lift, pure, raise, gets, require, ◌>>=◌, ◌>>◌}
use responsibility_pathway_r.Value.{
  Value, Items, Fields, null, bool, int, pos, negsuc, str, list, dict, nil, cons, end, entry, get,
  no_fields,
}
use responsibility_pathway_r.Mcp.ServerTools.{tools}
use responsibility_pathway_r.Rpc.{only_keys}
use responsibility_pathway_r.Mcp.Snapshot.{stable_protocol_version}
use responsibility_pathway_r.Mcp.Admission.{is_text}
use responsibility_pathway_r.Mcp.Tool.{all_given}

-- SQLiteReadModel: each operation takes the arguments as they come, and only reads.
pub record ReadModel : Type 0 where
  pub status : Result Value
  pub list_pathways : Value → Result Value
  pub get_pathway : Value → Result Value
  pub get_route_visibility : Value → Result Value
  pub get_evidence : Value → Value → Result Value
  pub list_unresolved : Value → Result Value

-- The state of a server, beside its read model.
pub record Server : Type 0 where
  pub initialize_seen : Bool
  pub initialized : Bool

-- `__init__`
abbrev pub new_server : Server
new_server = record { initialize_seen = false; initialized = false }

-- `mapping.get(key)`
abbrev pub or_null : Option Value → Value
or_null none = null
or_null (some v) = v

-- `mapping.get(key, default)`
abbrev or_default : Value → Option Value → Value
or_default v none = v
or_default v (some w) = w

-- `_empty_params`
unfoldable pub empty_params : Option Value → Result (Unit {0})
empty_params none = ok tt
empty_params (some null) = ok tt
empty_params (some (dict fs)) = ensure (no_fields fs) (json_rpc_error 32_602)
empty_params (some _) = err (json_rpc_error 32_602)

-- `_require_keys`
require_keys : List String → List String → Fields → Result (Unit {0})
unfolding only_keys all_given
require_keys allowed required arguments =
    ensure (only_keys allowed arguments && all_given required arguments) value_error

-- The result of `initialize`; the instructions are fixed.
abbrev initialize_result : Value
initialize_result = dict (
    entry "protocolVersion" (str stable_protocol_version) (
      entry "capabilities" (dict (entry "tools" (dict (entry "listChanged" (bool false) end)) end))
        (entry "serverInfo"
          (dict (
            entry "name" (str "responsibility-pathway-runtime")
              (entry "version" (str "0.1.0a6") end)))
          (entry "instructions"
            (str
              "Read-only RPR inspection server for a trusted local MCP client. It cannot approve, execute, reconcile, resume, or mutate responsibility pathways.")
            end))))

-- `_initialize`
unfoldable pub initialize : Option Value → Result Value
unfolding is_text get
initialize (some (dict params)) =
    if is_text stable_protocol_version (get "protocolVersion" params)
    then ok initialize_result
    else err (json_rpc_error 32_602)
initialize _ = err (json_rpc_error 32_602)

-- `_response`
abbrev pub response : Value → Value → Value
response request_id result =
    dict (entry "jsonrpc" (str "2.0") (entry "id" request_id (entry "result" result end)))

-- A request with this method.
unfoldable pub has_method : String → Value → Bool
unfolding is_text get
has_method method (dict fs) = is_text method (get "method" fs)
has_method method _ = false

-- `method`, where it is a text that is not empty
unfoldable pub method_of : Option Value → Result String
method_of (some (str s)) = if is_empty s then err (json_rpc_error 32_600) else ok s
method_of _ = err (json_rpc_error 32_600)

-- `dumps` is `json.dumps`, `shown` the text of an exception (of a KeyError, of its key), `is_invalid` is
-- `isinstance(exc, (ValueError, ReadOnlyDatabaseError))`.
module _ (model : ReadModel) (dumps : Value → String) (shown : Error → String)
    (is_invalid : Error → Bool) where
  -- `_invoke`
  unfoldable pub invoke : String → Fields → Result Value
  unfolding require_keys get
  invoke method arguments =
      if method == "rpr.get_status"
      then after (require_keys [] [] arguments) model.status
      else if method == "rpr.list_pathways"
      then after (require_keys ("limit" ∷ []) [] arguments) (
          and_then (model.list_pathways (or_default (int (pos 100)) (get "limit" arguments)))
            (λ pathways. ok (dict (entry "pathways" pathways end))))
      else if method == "rpr.get_pathway"
      then after (require_keys ("pathway_id" ∷ []) ("pathway_id" ∷ []) arguments)
          (model.get_pathway (or_null (get "pathway_id" arguments)))
      else if method == "rpr.get_route_visibility"
      then after (require_keys ("pathway_id" ∷ []) ("pathway_id" ∷ []) arguments)
          (model.get_route_visibility (or_null (get "pathway_id" arguments)))
      else if method == "rpr.get_evidence"
      then after (require_keys ("pathway_id" ∷ "limit" ∷ []) ("pathway_id" ∷ []) arguments) (
          and_then
            (model.get_evidence (or_null (get "pathway_id" arguments))
              (or_default (int (pos 500)) (get "limit" arguments)))
            (λ events. ok (
              dict (
                entry "pathway_id" (or_null (get "pathway_id" arguments))
                  (entry "events" events end)))))
      else if method == "rpr.list_unresolved"
      then after (require_keys ("limit" ∷ []) [] arguments) (
          and_then (model.list_unresolved (or_default (int (pos 100)) (get "limit" arguments)))
            (λ pathways. ok (dict (entry "pathways" pathways end))))
      else err value_error

  -- `_tool_result`
  tool_result : Value → Bool → Value
  tool_result value is_error = dict (
      entry "content"
        (list (cons (dict (entry "type" (str "text") (entry "text" (str (dumps value)) end))) nil))
        (entry "structuredContent" value
          (if is_error then entry "isError" (bool true) end else end)))

  -- The handlers of the exceptions of a tool.
  invoked : Result Value → Result Value
  unfolding tool_result
  invoked (ok value) = ok (tool_result value false)
  invoked (err key_error) = ok (
      tool_result
        (dict (
          entry "error" (str "pathway_not_found") (entry "pathway_id" (str (shown key_error)) end)))
        true)
  invoked (err e) =
      if is_invalid e
      then ok (
          tool_result
            (dict (entry "error" (str "invalid_request") (entry "message" (str (shown e)) end)))
            true)
      else err e

  named_call : Value → Value → Result Value
  unfolding invoke invoked
  named_call (str method) (dict arguments) =
      if is_empty method then err (json_rpc_error 32_602) else invoked (invoke method arguments)
  named_call _ _ = err (json_rpc_error 32_602)

  -- `_call_tool`
  unfoldable pub call_tool : Option Value → Result Value
  unfolding named_call only_keys get
  call_tool (some (dict params)) =
      if only_keys ("name" ∷ "arguments" ∷ []) params && is_some (get "name" params)
      then named_call (or_null (get "name" params)) (or_default (dict end) (get "arguments" params))
      else err (json_rpc_error 32_602)
  call_tool _ = err (json_rpc_error 32_602)

  notified : Option Value → Exec Server (Option Value)
  unfolding empty_params
  notified params = do
    lift (empty_params params)
    seen ← gets (λ s. s.initialize_seen)
    require seen (json_rpc_error 32_002)
    (λ s. (ok none, record s { initialized = true }))

  initialized_by : Value → Option Value → Exec Server (Option Value)
  unfolding initialize
  initialized_by request_id params = do
    result ← lift (initialize params)
    (λ s. (ok (some (response request_id result)), record s { initialize_seen = true }))

  -- The methods that wait for the notification.
  serve : String → Value → Option Value → Result (Option Value)
  unfolding empty_params call_tool tools
  serve method request_id params =
      if method == "ping"
      then after (empty_params params) (ok (some (response request_id (dict end))))
      else if method == "tools/list"
      then after (empty_params params)
          (ok (some (response request_id (dict (entry "tools" (list tools) end)))))
      else if method == "tools/call"
      then and_then (call_tool params) (λ result. ok (some (response request_id result)))
      else err (json_rpc_error 32_601)

  handle_method : String → Value → Option Value → Exec Server (Option Value)
  unfolding notified initialized_by serve
  handle_method method request_id params =
      if method == "notifications/initialized"
      then notified params
      else if method == "initialize"
      then initialized_by request_id params
      else do
        ready ← gets (λ s. s.initialized)
        require ready (json_rpc_error 32_002)
        lift (serve method request_id params)

  -- `handle`
  unfoldable pub handle : Value → Exec Server (Option Value)
  unfolding handle_method method_of is_text get
  handle (dict request) = do
    require (is_text "2.0" (get "jsonrpc" request)) (json_rpc_error 32_600)
    method ← lift (method_of (get "method" request))
    handle_method method (or_null (get "id" request)) (get "params" request)
  handle _ = raise (json_rpc_error 32_600)

  -- The state after any sequence of requests, the answers of which are not looked at.
  unfoldable pub handle_all : List Value → Server → Server
  unfolding handle
  handle_all [] s = s
  handle_all (r ∷ rs) s = handle_all rs (handle r s).1
