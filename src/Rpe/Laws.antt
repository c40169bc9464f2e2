-- ===== src/Rpe/Laws.antt =====
-- rpe.py: the evaluators are fail-closed.
use responsibility_pathway_r.Prelude.{
  String, ◌≡◌, ◌≢◌, ◌⊎◌, inl, inr, refl, Option, none, some, List, arith, eq_iff, true, is_empty,
}
use responsibility_pathway_r.Errors.{Result, ok, err, bind-ok, Error, rpe_contract_error}
use responsibility_pathway_r.Value.{Value, Fields, str, dict, null}
use responsibility_pathway_r.Models.{
  RuntimeDecision, hold, runtime_decision_value, runtime_decision_of,
}
use responsibility_pathway_r.Rpe.{
  RpeResult, RpeAnswer, decision_value, version_value, supported_decision, is_str, check_version,
  normalize_mapping, normalize_result, as_mapping, answer_value, fail_closed, python_evaluate,
  held_for,
}

runtime_decision_of-ok :
    (s : String) (d : RuntimeDecision) → runtime_decision_of s ≡ ok d → s ≡ runtime_decision_value d
unfolding runtime_decision_of
runtime_decision_of-ok s d h =
    ground (arith, eq_iff "allow" s, eq_iff "hold" s, eq_iff "human_gate" s, eq_iff "deny" s)

supported_decision-value :
    (text : Value → String) (v : Value) (d : RuntimeDecision)
    → supported_decision text v ≡ ok d
    → v ≡ str (runtime_decision_value d)
unfolding supported_decision
supported_decision-value text (str s) d h = ground (arith, runtime_decision_of-ok s d)
supported_decision-value text _ d h = ground arith

-- The version that the caller expects, if any, is the one that the answer names.
abbrev pub VersionAgrees : Option String → Fields → Type 0
VersionAgrees none fs = Unit
VersionAgrees (some expected) fs = (expected ≡ "") ⊎ (version_value fs ≡ str expected)

is_str-str : (e : String) (v : Value) → is_str e v ≡ true → v ≡ str e
is_str-str e (str t) h = ground (arith, eq_iff t e)
is_str-str e null h = cc
is_str-str e _ h = cc

is_empty-eq : (s : String) → is_empty s ≡ true → s ≡ ""
is_empty-eq String.[] h = refl
is_empty-eq (String.◌∷◌ c s) h = cc

check_version-agrees :
    (expected : Option String) (fs : Fields)
    → check_version expected (version_value fs) ≡ ok tt
    → VersionAgrees expected fs
unfolding check_version
check_version-agrees none fs h = tt
check_version-agrees (some e) fs h = ground (arith, is_empty-eq e, is_str-str e (version_value fs))

-- What a normalised answer rests on.
pub record Backed (expected : Option String) (answer : RpeAnswer) (r : RpeResult) : Type 0 where
  pub fields : Fields
  pub is_mapping : answer_value answer ≡ dict fields
  pub kept : r.raw ≡ some fields
  pub states : decision_value fields ≡ str (runtime_decision_value r.decision)
  pub version : VersionAgrees expected fields

as_mapping-dict : (v : Value) (fs : Fields) → as_mapping v ≡ ok fs → v ≡ dict fs
unfolding as_mapping
as_mapping-dict v fs h = ground arith

fail_closed-ok :
    (o : Result RpeResult) (r : RpeResult) → fail_closed o ≡ ok r → r.decision ≢ hold → o ≡ ok r
unfolding fail_closed
fail_closed-ok (ok q) r h n = h
fail_closed-ok (err e) r h n = ground arith

fail_closed-err :
    (e : Error)
    → ((m : String) × (e ≡ rpe_contract_error m))
      ⊎ (fail_closed (err e) ≡ ok (held_for "rpe_python_error" e))
unfolding fail_closed
fail_closed-err (rpe_contract_error m) = inl (m, refl)
fail_closed-err _ = inr refl

normalize_mapping-Backed :
    (text : Value → String) (expected : Option String) (fs : Fields) (r : RpeResult)
    → normalize_mapping text expected fs ≡ ok r
    → (r.raw ≡ some fs)
      × (decision_value fs ≡ str (runtime_decision_value r.decision))
      × VersionAgrees expected fs
unfolding normalize_mapping
normalize_mapping-Backed text expected fs r h = ground (
  arith,
  supported_decision-value text (decision_value fs) r.decision,
  check_version-agrees expected fs,
)

normalize_result-Backed :
    (text : Value → String) (expected : Option String) (answer : RpeAnswer) (r : RpeResult)
    → normalize_result text expected answer ≡ ok r
    → Backed expected answer r
unfolding normalize_result
normalize_result-Backed text expected answer r h =
    let (fs, hm, h1) =
      bind-ok (as_mapping (answer_value answer)) (normalize_mapping text expected) h in
    let (kept, states, version) = normalize_mapping-Backed text expected fs r h1 in
    record {
      fields = fs;
      is_mapping = as_mapping-dict (answer_value answer) fs hm;
      kept = kept;
      states = states;
      version = version;
    }

-- If the Python adapter returns a decision other than a hold, then the engine gave an answer that
-- is a mapping, states that decision, and has the contract version that the caller expects, if
-- any. The packs were given.
pub python_evaluate-Backed :
    (text : Value → String) (packs : List Value)
    (evaluate_action : Value → List Value → Result RpeAnswer) (expected : Option String)
    (action_request : Value) (r : RpeResult)
    → python_evaluate text (ok packs) evaluate_action expected action_request ≡ ok r
    → r.decision ≢ hold
    → (answer : RpeAnswer) × (evaluate_action action_request packs ≡ ok answer)
      × Backed expected answer r
unfolding python_evaluate
python_evaluate-Backed text packs evaluate_action expected action_request r h n =
    let (a, ha, hn) =
      bind-ok (evaluate_action action_request packs) (normalize_result text expected)
        (fail_closed-ok _ r h n) in
    (a, ha, normalize_result-Backed text expected a r hn)

-- If the engine raises, then it raised a contract error, or the Python adapter answers with a
-- hold that names the class of the error. The packs were given.
pub python_evaluate-closed :
    (text : Value → String) (packs : List Value)
    (evaluate_action : Value → List Value → Result RpeAnswer) (expected : Option String)
    (action_request : Value) (e : Error)
    → evaluate_action action_request packs ≡ err e
    → ((m : String) × (e ≡ rpe_contract_error m))
      ⊎ (python_evaluate text (ok packs) evaluate_action expected action_request
          ≡ ok (held_for "rpe_python_error" e))
unfolding python_evaluate
python_evaluate-closed text packs evaluate_action expected action_request e h =
    rw h (fail_closed-err e)
