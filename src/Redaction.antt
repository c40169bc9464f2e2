-- ===== src/Redaction.antt =====
-- redaction.py: evidence payloads are copied with their secrets replaced, within limits.
pub mod Clean
pub mod Keys
use Prim.Native.String.{count}
use responsibility_pathway_r.Prelude.{
  ℕ, zero, suc, ◌+◌, String, Bool, List, [], ◌∷◌, ◌==◌, any, leb, if◌then◌else◌,
}
use responsibility_pathway_r.Errors.{Result, ok, err, evidence_limit_error, ensure, ◌>>=◌, ◌>>◌}
use responsibility_pathway_r.Value.{
  Value, Items, Fields, null, bool, int, float, str, list, dict, object, nil, cons, end, field, put,
  key_text,
}

-- `DEFAULT_SENSITIVE_KEYS`
unfoldable pub default_sensitive_keys : List String
default_sensitive_keys =
    "authorization" ∷ "cookie" ∷ "password" ∷ "secret" ∷ "token" ∷ "access_token" ∷ "refresh_token"
    ∷ "api_key" ∷ "private_key" ∷ "client_secret" ∷ []

pub record RedactionPolicy : Type 0 where
  pub sensitive_keys : List String
  pub replacement : String
  pub max_depth : ℕ
  pub max_items : ℕ
  pub max_string_length : ℕ

unfoldable pub default_policy : RedactionPolicy
unfolding default_sensitive_keys
default_policy = record {
  sensitive_keys = default_sensitive_keys;
  replacement = "[REDACTED]";
  max_depth = 12;
  max_items = 1000;
  max_string_length = 16384;
}

spend : ℕ → Result ℕ
spend zero = err evidence_limit_error
spend (suc budget) = ok budget

-- The depth test and the item budget, which every value is charged.
charge : RedactionPolicy → ℕ → ℕ → Result ℕ
unfolding spend
charge p depth budget = do ensure (leb depth p.max_depth) evidence_limit_error; spend budget

module _ (casefold : String → String) (p : RedactionPolicy) where
  -- `key.casefold() in self.sensitive_keys`
  unfoldable pub is_sensitive : String → Bool
  unfolding any
  is_sensitive key = any (λ k. k == casefold key) p.sensitive_keys

  -- `_redact`: the copy and what is left of the item budget.
  unfoldable mutual
    unfolding charge is_sensitive

    pub redact_value : Value → ℕ → ℕ → Result (Value × ℕ)
    redact_value null depth budget = do b ← charge p depth budget; ok (null, b)
    redact_value (bool x) depth budget = do b ← charge p depth budget; ok (bool x, b)
    redact_value (int n) depth budget = do b ← charge p depth budget; ok (int n, b)
    redact_value (float q r) depth budget = do b ← charge p depth budget; ok (float q r, b)
    redact_value (str s) depth budget = do
      b ← charge p depth budget
      ensure (leb (count s) p.max_string_length) evidence_limit_error
      ok (str s, b)
    redact_value (dict fs) depth budget = do
      b ← charge p depth budget
      (out, b') ← redact_fields fs end (depth + 1) b
      ok (dict out, b')
    redact_value (list vs) depth budget = do
      b ← charge p depth budget
      (out, b') ← redact_items vs (depth + 1) b
      ok (list out, b')
    redact_value (object t) depth budget = do b ← charge p depth budget; ok (str t, b)

    pub redact_items : Items → ℕ → ℕ → Result (Items × ℕ)
    redact_items nil depth budget = ok (nil, budget)
    redact_items (cons v vs) depth budget = do
      (w, b) ← redact_value v depth budget
      (ws, b') ← redact_items vs depth b
      ok (cons w ws, b')

    -- the loop over `value.items()`, with the output that it fills
    pub redact_fields : Fields → Fields → ℕ → ℕ → Result (Fields × ℕ)
    redact_fields end out depth budget = ok (out, budget)
    redact_fields (field k v fs) out depth budget = do
      (w, b) ←
          (if is_sensitive (key_text k)
            then ok (str p.replacement, budget)
            else redact_value v depth budget)
      redact_fields fs (put (key_text k) w out) depth b

  unfoldable pub redact : Value → Result Value
  unfolding redact_value
  redact v = do (w, b) ← redact_value v 0 p.max_items; ok w
