-- ===== src/Rpc.antt =====
-- mcp_jsonrpc_session.py: McpJsonRpcSession, above a channel that carries decoded messages.
pub mod Correlation
use responsibility_pathway_r.Prelude.{
  ℕ, suc, String, Bool, true, false, not, ◌&&◌, ◌||◌, Option, none, some, List, [], ◌∷◌, ◌==◌, any,
  is_some, is_blank, strip, leb, if◌then◌else◌,
}
use responsibility_pathway_r.Errors.{
  Error, Result, ok, err, value_error, other_error, ensure, ◌>>=◌, ◌>>◌,
}
use responsibility_pathway_r.Exec.{Exec}
use responsibility_pathway_r.Value.{
  Value, Fields, Key, name, other_key, ℤ, pos, negsuc, null, bool, int, float, str, list, dict,
  object, end, field, entry, get,
}

-- McpTransportError
abbrev pub transport_error : Error
transport_error = other_error "McpTransportError"

-- McpJsonRpcRemoteError
abbrev pub remote_error : Error
remote_error = other_error "McpJsonRpcRemoteError"

-- A session over a channel in a state of the type `C`.
pub record Session (C : Type 0) : Type 0 where
  pub channel : C
  pub next_request_id : ℕ

-- `_method`, of a text
unfoldable pub method_of : String → Result String
method_of method = if is_blank method then err transport_error else ok (strip method)

unfoldable pub envelope : ℕ → String → Fields → Value
envelope request_id method params = dict (
    entry "jsonrpc" (str "2.0") (
      entry "id" (int (pos request_id))
        (entry "method" (str method) (entry "params" (dict params) end))))

-- `set(value) - {…}` is empty.
unfoldable pub only_keys : List String → Fields → Bool
unfolding any
only_keys names end = true
only_keys names (field (name k) v fs) = any (λ n. n == k) names && only_keys names fs
only_keys names (field (other_key t) v fs) = false

object_of : Value → Result Fields
object_of (dict fs) = ok fs
object_of _ = err transport_error

is_version : Option Value → Bool
is_version (some (str s)) = s == "2.0"
is_version _ = false

is_int : Option Value → Bool
is_int (some (int n)) = true
is_int _ = false

is_given_text : Option Value → Bool
is_given_text (some (str s)) = not (is_blank s)
is_given_text _ = false

-- The branch of an `error` member, which raises in every case.
error_of : Fields → Error
unfolding is_int is_given_text get only_keys
error_of fs =
    if not (is_int (get "code" fs))
    then transport_error
    else if not (is_given_text (get "message" fs))
    then transport_error
    else if not (only_keys ("code" ∷ "message" ∷ "data" ∷ []) fs)
    then transport_error
    else remote_error

raise_error : Value → Result Fields
unfolding error_of
raise_error (dict fs) = err (error_of fs)
raise_error _ = err transport_error

-- The members `result` and `error`, of which there must be one.
one_member : Option Value → Option Value → Result Fields
unfolding object_of raise_error
one_member (some r) none = object_of r
one_member none (some e) = raise_error e
one_member (some r) (some e) = err transport_error
one_member none none = err transport_error

-- `equals` is the comparison of a float with an integer.
module _ (equals : Value → ℕ → Bool) where
  -- `not isinstance(response_id, bool) and response_id == expected_id`
  unfoldable pub is_id : ℕ → Option Value → Bool
  is_id expected (some (int (pos n))) = leb n expected && leb expected n
  is_id expected (some (float finite r)) = equals (float finite r) expected
  is_id expected _ = false

  -- `_validate_response`. Where two tests fail, the first raises the same error as the second.
  unfoldable pub validate_response : ℕ → Value → Result Fields
  unfolding object_of is_version is_id one_member only_keys get
  validate_response expected response = do
    value ← object_of response
    ensure (is_version (get "jsonrpc" value)) transport_error
    ensure (is_id expected (get "id" value)) transport_error
    ensure (not (is_some (get "result" value)) || not (is_some (get "error" value))) transport_error
    ensure (is_some (get "result" value) || is_some (get "error" value)) transport_error
    ensure (only_keys ("jsonrpc" ∷ "id" ∷ "result" ∷ "error" ∷ []) value) transport_error
    one_member (get "result" value) (get "error" value)

  -- `passes` tells the errors that the session passes on from those that it wraps.
  module _ {C : Type 0} (exchange : Value → Exec C Value) (passes : Error → Bool) where
    answered : ℕ → Result Value → Result Fields
    unfolding validate_response
    answered request_id (ok response) = validate_response request_id response
    answered request_id (err e) = err (if passes e then e else transport_error)

    sent : Fields → Result String → Exec (Session C) Fields
    unfolding answered envelope
    sent params (err e) s = (err e, s)
    sent params (ok method) s =
        let r = exchange (envelope s.next_request_id method params) s.channel in
        (
          answered s.next_request_id r.0,
          record { channel = r.1; next_request_id = suc s.next_request_id },
        )

    -- `request`
    unfoldable pub request : String → Fields → Exec (Session C) Fields
    unfolding sent method_of
    request method params = sent params (method_of method)

-- `__init__`, of an identifier that is an integer
unfoldable pub new_session : {C : Type 0} → C → ℤ → Result (Session C)
new_session channel (pos n) = ok (record { channel = channel; next_request_id = n })
new_session channel (negsuc n) = err value_error

unfoldable pub notification : String → Fields → Value
notification method params =
    dict
      (entry "jsonrpc" (str "2.0") (entry "method" (str method) (entry "params" (dict params) end)))

module _ {C : Type 0} (send : Value → Exec C (Unit {0})) (passes : Error → Bool) where
  passed_on : Result (Unit {0}) → Result (Unit {0})
  passed_on (ok u) = ok u
  passed_on (err e) = err (if passes e then e else transport_error)

  notified : Fields → Result String → Exec (Session C) (Unit {0})
  unfolding passed_on notification
  notified params (err e) s = (err e, s)
  notified params (ok method) s =
      let r = send (notification method params) s.channel in
      (passed_on r.0, record s { channel = r.1 })

  -- `notify`
  unfoldable pub notify : String → Fields → Exec (Session C) (Unit {0})
  unfolding notified method_of
  notify method params = notified params (method_of method)
