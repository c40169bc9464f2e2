-- ===== src/Rpe.antt =====
-- rpe.py: the evaluators of the external policy engine (RPE) and the normalisation of its answers.
pub mod Laws
use responsibility_pathway_r.Prelude.{
  String, Bool, true, false, ◌||◌, Option, none, some, List, [], ◌∷◌, ◌==◌, is_empty, if◌then◌else◌,
}
use responsibility_pathway_r.Errors.{
  Error, Result, ok, err, rpe_contract_error, other_error, class_name, ensure, ◌>>=◌, ◌>>◌,
}
use responsibility_pathway_r.Value.{
  Value, Items, Fields, Key, null, str, list, dict, object, nil, cons, end, field, get, truthy,
  key_text,
}
use responsibility_pathway_r.Models.{RuntimeDecision, allow, hold, runtime_decision_of}

pub record RpeResult : Type 0 where
  pub decision : RuntimeDecision
  pub reason_codes : List String
  pub raw : Option Fields
  pub contract_version : Option String

-- What an engine answers: an object with `to_dict`, an object with attributes, or another value.
pub data RpeAnswer : Type 0 where
  with_to_dict : Value → RpeAnswer
  with_attributes : Fields → RpeAnswer
  plain : Value → RpeAnswer

-- `value.get(key)`, which is None where the key is missing
abbrev pub get_or_null : String → Fields → Value
get_or_null k fs = elim (get k fs) [ none ↦ null | some v ↦ v ]

-- `a or b`
abbrev pub or_else : Value → Value → Value
or_else a b = if truthy a then a else b

unfoldable pub answer_value : RpeAnswer → Value
answer_value (with_to_dict v) = v
answer_value (with_attributes fs) = dict fs
answer_value (plain v) = v

as_mapping : Value → Result Fields
as_mapping (dict fs) = ok fs
as_mapping _ = err (rpe_contract_error "RPE result must be a mapping")

nested_decision : Value → Value
nested_decision (dict fs) = or_else (get_or_null "decision" fs) (get_or_null "outcome" fs)
nested_decision v = v

-- The decision that an answer states, directly or in a nested object.
unfoldable pub decision_value : Fields → Value
unfolding nested_decision get truthy
decision_value fs = nested_decision (or_else (get_or_null "decision" fs) (get_or_null "outcome" fs))

-- `decision_value not in SUPPORTED_DECISION_VALUES` and the conversion: a list or a dict has no hash.
unfoldable pub supported_decision : (Value → String) → Value → Result RuntimeDecision
supported_decision text (str s) = elim (runtime_decision_of s) [
  | ok d ↦ ok d
  | err _ ↦ err (rpe_contract_error "unsupported RPE decision")
]
supported_decision text (list _) = err (other_error "TypeError")
supported_decision text (dict _) = err (other_error "TypeError")
supported_decision text _ = err (rpe_contract_error "unsupported RPE decision")

unfoldable pub version_value : Fields → Value
unfolding get truthy
version_value fs = or_else (get_or_null "contract_version" fs) (get_or_null "schema_version" fs)

abbrev pub is_str : String → Value → Bool
is_str s (str t) = t == s
is_str s _ = false

-- `if expected_contract_version and contract_version != expected_contract_version: raise`
unfoldable pub check_version : Option String → Value → Result (Unit {0})
check_version none v = ok tt
check_version (some expected) v =
    ensure (is_empty expected || is_str expected v)
      (rpe_contract_error "RPE contract version mismatch")

module _ (text : Value → String) where
  item_texts : Items → List String
  item_texts nil = []
  item_texts (cons v vs) = text v ∷ item_texts vs

  key_texts : Fields → List String
  key_texts end = []
  key_texts (field k v fs) = key_text k ∷ key_texts fs

  -- `tuple(str(item) for item in reasons)`, for `value.get(…) or … or ()`
  reason_texts : Value → Result (List String)
  unfolding item_texts key_texts
  reason_texts (str s) = ok (s ∷ [])
  reason_texts (list vs) = ok (item_texts vs)
  reason_texts (dict fs) = ok (key_texts fs)
  reason_texts _ = err (other_error "TypeError")

  opt_text : Value → Option String
  opt_text null = none
  opt_text v = some (text v)

  -- `_normalize_result`, for a mapping
  unfoldable pub normalize_mapping : Option String → Fields → Result RpeResult
  unfolding reason_texts opt_text
  normalize_mapping expected fs = do
    decision ← supported_decision text (decision_value fs)
    check_version expected (version_value fs)
    reasons ←
        reason_texts
          (or_else (get_or_null "reason_codes" fs) (or_else (get_or_null "reasons" fs) (list nil)))
    ok (record {
      decision = decision;
      reason_codes = reasons;
      raw = some fs;
      contract_version = opt_text (version_value fs);
    })

  unfoldable pub normalize_result : Option String → RpeAnswer → Result RpeResult
  unfolding as_mapping answer_value
  normalize_result expected answer = do
    fs ← as_mapping (answer_value answer)
    normalize_mapping expected fs

-- AllowAllDevelopmentEvaluator
unfoldable pub allow_all : RpeResult
allow_all = record {
  decision = allow;
  reason_codes = "development_evaluator" ∷ [];
  raw = none;
  contract_version = none;
}

-- UnavailableRpeEvaluator
unfoldable pub unavailable : RpeResult
unavailable = record {
  decision = hold;
  reason_codes = "rpe_unavailable" ∷ [];
  raw = none;
  contract_version = none;
}

abbrev pub held_for : String → Error → RpeResult
held_for code e = record {
  decision = hold;
  reason_codes = code ∷ class_name e ∷ [];
  raw = none;
  contract_version = none;
}

-- `except RpeContractError: raise` and `except Exception`
unfoldable pub fail_closed : Result RpeResult → Result RpeResult
unfolding class_name
fail_closed (ok r) = ok r
fail_closed (err (rpe_contract_error m)) = err (rpe_contract_error m)
fail_closed (err e) = ok (held_for "rpe_python_error" e)

-- PythonRpeEvaluator.evaluate: the engine and the callable that gives the packs are arguments; the
-- packs are asked for before the `try`.
unfoldable pub python_evaluate :
    (Value → String)
    → Result (List Value)
    → (Value → List Value → Result RpeAnswer)
    → Option String
    → Value
    → Result RpeResult
unfolding fail_closed
python_evaluate text packs evaluate_action expected action_request = do
  ps ← packs
  fail_closed (evaluate_action action_request ps >>= normalize_result text expected)

-- The exceptions that RestRpeEvaluator turns into a hold.
abbrev pub is_rest_failure : Error → Bool
is_rest_failure (other_error name) =
    name == "URLError"
    || name == "TimeoutError"
    || name == "JSONDecodeError"
    || name == "UnicodeDecodeError"
is_rest_failure _ = false

unfoldable pub rest_fallback : Result RpeResult → Result RpeResult
unfolding class_name
rest_fallback (ok r) = ok r
rest_fallback (err e) = if is_rest_failure e then ok (held_for "rpe_rest_unavailable" e) else err e

-- RestRpeEvaluator.evaluate: `post` sends the request and decodes the body of the response.
unfoldable pub rest_evaluate :
    (Value → String) → (Value → Result Value) → Option String → Value → Result RpeResult
unfolding rest_fallback
rest_evaluate text post expected action_request =
    rest_fallback (post action_request >>= λ raw. normalize_result text expected (plain raw))
