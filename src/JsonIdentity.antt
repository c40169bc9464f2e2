-- ===== src/JsonIdentity.antt =====
-- attempts.py: `_strict_json_identity`, the bounded check by which a request or a result is strict
-- JSON. A value here is a tree, so the test for cyclic containers never fires and is left out; a text
-- has no lone surrogates, so its UTF-8 form always exists.
mod Measures
mod Complete
mod Sound
pub mod Exact
use Prim.Native.String.{len}
use responsibility_pathway_r.Prelude.{ℕ, suc, ◌+◌, String, Bool, true, false, leb, ltb}
use responsibility_pathway_r.Errors.{
  Result, ok, err, attempt_fingerprint_error, ensure, ◌>>=◌, ◌>>◌,
}
use responsibility_pathway_r.Value.{
  Value, Items, Fields, Key, name, other_key, null, bool, int, float, str, list, dict, object, nil,
  cons, end, field,
}

abbrev pub max_nesting : ℕ
max_nesting = 64

abbrev pub max_nodes : ℕ
max_nodes = 10_000

abbrev pub max_string_bytes : ℕ
max_string_bytes = 1_000_000

pub record Budget : Type 0 where
  pub nodes : ℕ
  pub string_bytes : ℕ

abbrev pub fresh : Budget
fresh = record { nodes = 0; string_bytes = 0 }

-- `_FingerprintBudget.consume`, for a node and for the bytes of a text
unfoldable pub consume_node : Budget → Result Budget
consume_node b = do
  let b' = record b { nodes = b.nodes + 1 }
  ensure (leb b'.nodes max_nodes) attempt_fingerprint_error
  ensure (leb b'.string_bytes max_string_bytes) attempt_fingerprint_error
  ok b'

unfoldable pub consume_text : String → Budget → Result Budget
consume_text s b = do
  let b' = record b { string_bytes = b.string_bytes + len s }
  ensure (leb b'.string_bytes max_string_bytes) attempt_fingerprint_error
  ok b'

unfoldable pub key_name : Key → Result String
key_name (name s) = ok s
key_name (other_key s) = err attempt_fingerprint_error

unfoldable mutual
  unfolding key_name

  -- `_strict_json_identity`: the detached value and the budget that is spent.
  pub identity : Value → ℕ → Budget → Result (Value × Budget)
  identity null depth b = do b ← consume_node b; ok (null, b)
  identity (bool x) depth b = do b ← consume_node b; ok (bool x, b)
  identity (int n) depth b = do b ← consume_node b; ok (int n, b)
  identity (float finite r) depth b = do
    b ← consume_node b
    ensure finite attempt_fingerprint_error
    ok (float finite r, b)
  identity (str s) depth b = do b ← consume_node b; b ← consume_text s b; ok (str s, b)
  identity (dict fs) depth b = do
    b ← consume_node b
    ensure (ltb depth max_nesting) attempt_fingerprint_error
    (out, b) ← identity_fields fs (suc depth) b
    ok (dict out, b)
  identity (list vs) depth b = do
    b ← consume_node b
    ensure (ltb depth max_nesting) attempt_fingerprint_error
    (out, b) ← identity_items vs (suc depth) b
    ok (list out, b)
  identity (object t) depth b = do b ← consume_node b; err attempt_fingerprint_error

  pub identity_items : Items → ℕ → Budget → Result (Items × Budget)
  identity_items nil depth b = ok (nil, b)
  identity_items (cons v vs) depth b = do
    (w, b) ← identity v depth b
    (ws, b) ← identity_items vs depth b
    ok (cons w ws, b)

  -- the keys of a dict are distinct, so `result[key] = …` appends
  pub identity_fields : Fields → ℕ → Budget → Result (Fields × Budget)
  identity_fields end depth b = ok (end, b)
  identity_fields (field k v fs) depth b = do
    key ← key_name k
    b ← consume_text key b
    (w, b) ← identity v depth b
    (ws, b) ← identity_fields fs depth b
    ok (field (name key) w ws, b)

-- `_strict_json_identity(value, path=…)` with a fresh budget
unfoldable pub strict_identity : Value → Result Value
unfolding identity consume_node consume_text
strict_identity v = do (w, b) ← identity v 0 fresh; ok w
