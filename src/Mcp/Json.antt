-- ===== src/Mcp/Json.antt =====
-- mcp_admission.py: `_strict_json_plain` and `_strict_json_document`. Values are trees and texts are
-- valid Unicode, as in JsonIdentity, whose budget has the same two counts.
pub mod Exact
use Prim.Native.String.{len}
use responsibility_pathway_r.Prelude.{
  ℕ, suc, ◌+◌, String, Bool, true, false, leb, ltb, if◌then◌else◌,
}
use responsibility_pathway_r.Errors.{Error, Result, ok, err, other_error, ensure, ◌>>=◌, ◌>>◌}
use responsibility_pathway_r.Value.{
  Value, Items, Fields, Key, name, other_key, null, bool, int, float, str, list, dict, object, nil,
  cons, end, field,
}
use responsibility_pathway_r.Env.{Env}
use responsibility_pathway_r.JsonIdentity.{Budget, fresh}

-- McpAdmissionError
abbrev pub mcp_admission_error : Error
mcp_admission_error = other_error "McpAdmissionError"

abbrev max_json_nesting : ℕ
max_json_nesting = 64

abbrev max_json_nodes : ℕ
max_json_nodes = 10_000

abbrev max_json_string_bytes : ℕ
max_json_string_bytes = 1_000_000

abbrev pub max_json_serialized_bytes : ℕ
max_json_serialized_bytes = 1_100_000

-- `_consume_json_budget`
consume : ℕ → Budget → Result Budget
consume bytes b = do
  ensure (leb (b.nodes + 1) max_json_nodes) mcp_admission_error
  ensure (leb (b.string_bytes + bytes) max_json_string_bytes) mcp_admission_error
  ok (record { nodes = b.nodes + 1; string_bytes = b.string_bytes + bytes })

-- The key of a member, which is charged to the budget.
consume_key : Key → Budget → Result (String × Budget)
consume_key (other_key s) b = err mcp_admission_error
consume_key (name s) b = do
  ensure (leb (b.string_bytes + len s) max_json_string_bytes) mcp_admission_error
  ok (s, record b { string_bytes = b.string_bytes + len s })

unfoldable mutual
  unfolding consume consume_key

  -- `_strict_json_plain`: the detached value and the budget that is spent.
  pub plain : Value → ℕ → Budget → Result (Value × Budget)
  plain null depth b = do b ← consume 0 b; ok (null, b)
  plain (bool x) depth b = do b ← consume 0 b; ok (bool x, b)
  plain (int n) depth b = do b ← consume 0 b; ok (int n, b)
  plain (float finite r) depth b = do
    b ← consume 0 b
    ensure finite mcp_admission_error
    ok (float finite r, b)
  plain (str s) depth b = do b ← consume (len s) b; ok (str s, b)
  plain (dict fs) depth b = do
    b ← consume 0 b
    ensure (ltb depth max_json_nesting) mcp_admission_error
    (out, b) ← plain_fields fs (suc depth) b
    ok (dict out, b)
  plain (list vs) depth b = do
    b ← consume 0 b
    ensure (ltb depth max_json_nesting) mcp_admission_error
    (out, b) ← plain_items vs (suc depth) b
    ok (list out, b)
  plain (object t) depth b = do b ← consume 0 b; err mcp_admission_error

  pub plain_items : Items → ℕ → Budget → Result (Items × Budget)
  plain_items nil depth b = ok (nil, b)
  plain_items (cons v vs) depth b = do
    (w, b) ← plain v depth b
    (ws, b) ← plain_items vs depth b
    ok (cons w ws, b)

  -- the keys of a dict are distinct, so `result[key] = …` appends
  pub plain_fields : Fields → ℕ → Budget → Result (Fields × Budget)
  plain_fields end depth b = ok (end, b)
  plain_fields (field k v fs) depth b = do
    (key, b) ← consume_key k b
    (w, b) ← plain v depth b
    (ws, b) ← plain_fields fs depth b
    ok (field (name key) w ws, b)

-- `_strict_json_plain(value, path=…)` with a fresh budget
unfoldable pub strict_plain : Value → Result Value
unfolding plain
strict_plain v = do (w, b) ← plain v 0 fresh; ok w

-- `_canonical_json_bytes`, of a value that is JSON
unfoldable pub canonical : Env → Value → Result String
canonical env v = do
  ensure (leb (len (env.dumps v)) max_json_serialized_bytes) mcp_admission_error
  ok (env.dumps v)

-- `_strict_json_document`
unfoldable pub strict_document : Env → Value → Result (Value × String)
unfolding strict_plain canonical
strict_document env v = do w ← strict_plain v; bytes ← canonical env w; ok (w, bytes)

-- `_strict_json_snapshot`: the frozen value is the same value, and its hash.
unfoldable pub strict_snapshot : Env → Value → Result (Value × String)
unfolding strict_document
strict_snapshot env v = do (w, bytes) ← strict_document env v; ok (w, env.sha256 bytes)
