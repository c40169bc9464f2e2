-- ===== src/Mcp/Retained/Checked.antt =====
-- mcp_retained_evidence.py: what is kept has no forbidden key, and is read back as it was.
use responsibility_pathway_r.Prelude.{
  String, Bool, true, false, not, ◌≡◌, refl, sym, ap, ap₂, ◌∙◌, subst, Option, some, ◌==◌, eq_iff,
  arith, strip,
}
use responsibility_pathway_r.Prelude.Trim.{is_trimmed}
use responsibility_pathway_r.Errors.{ok, ensure, bind-ok, ensure-ok, ok-injective}
use responsibility_pathway_r.Value.{
  Value, Items, Fields, name, other_key, null, bool, int, float, str, list, dict, object, nil, cons,
  end, field, get,
}
use responsibility_pathway_r.Execution.{ExecutionRequest, ExecutionResult}
use responsibility_pathway_r.Env.{Env}
use responsibility_pathway_r.Mcp.Lifecycle.{ProcessExit}
use responsibility_pathway_r.Mcp.SafeJson.{
  retained_evidence_error, is_forbidden, strict_json, strict_json_items, strict_json_fields,
  required_text,
}
use responsibility_pathway_r.Mcp.Retained.{
  RetainedEvidence, DiagnosticsEvidence, hash_payload, check_retained, build_mcp_retained_evidence,
  from_json, to_json, mapping_at, admission_of, admission_keys, dispatch_state_of, fields_of,
  readback_value, payload_value, process_value, diagnostics_value,
}

-- JSON in which no key, at any depth, may bear a credential.
unfoldable mutual
  pub IsSafe : Env → Value → Type 0
  IsSafe env null = Unit
  IsSafe env (bool b) = Unit
  IsSafe env (int n) = Unit
  IsSafe env (float finite r) = (finite ≡ true)
  IsSafe env (str s) = Unit
  IsSafe env (list vs) = ItemsSafe env vs
  IsSafe env (dict fs) = FieldsSafe env fs
  IsSafe env (object t) = ⊥

  pub ItemsSafe : Env → Items → Type 0
  ItemsSafe env nil = Unit
  ItemsSafe env (cons v vs) = IsSafe env v × ItemsSafe env vs

  pub FieldsSafe : Env → Fields → Type 0
  FieldsSafe env end = Unit
  FieldsSafe env (field (other_key k) v fs) = ⊥
  FieldsSafe env (field (name k) v fs) =
      (is_forbidden env k ≡ false) × IsSafe env v × FieldsSafe env fs

permitted : (b : Bool) → not b ≡ true → b ≡ false
permitted true h = absurd (ground arith)
permitted false h = refl

mutual
  unfolding strict_json IsSafe

  strict_json-IsSafe : (env : Env) (v w : Value) → strict_json env v ≡ ok w → (w ≡ v) × IsSafe env v
  strict_json-IsSafe env null w h = (sym (ok-injective null w h), tt)
  strict_json-IsSafe env (bool b) w h = (sym (ok-injective (bool b) w h), tt)
  strict_json-IsSafe env (int n) w h = (sym (ok-injective (int n) w h), tt)
  strict_json-IsSafe env (float q r) w h =
      let (_, finite, h1) = bind-ok (ensure q retained_evidence_error) _ h in
      (sym (ok-injective (float q r) w h1), ensure-ok q retained_evidence_error finite)
  strict_json-IsSafe env (str s) w h = (sym (ok-injective (str s) w h), tt)
  strict_json-IsSafe env (list vs) w h =
      let (out, inner, h1) = bind-ok (strict_json_items env vs) _ h in
      let (same, safe) = items-safe env vs out inner in
      (sym (ok-injective (list out) w h1) ∙ ap list same, safe)
  strict_json-IsSafe env (dict fs) w h =
      let (out, inner, h1) = bind-ok (strict_json_fields env fs) _ h in
      let (same, safe) = fields-safe env fs out inner in
      (sym (ok-injective (dict out) w h1) ∙ ap dict same, safe)
  strict_json-IsSafe env (object t) w h = absurd (ground arith)

  items-safe :
      (env : Env) (vs ws : Items) → strict_json_items env vs ≡ ok ws → (ws ≡ vs) × ItemsSafe env vs
  items-safe env nil ws h = (sym (ok-injective nil ws h), tt)
  items-safe env (cons v vs) ws h =
      let (w, first, h1) = bind-ok (strict_json env v) _ h in
      let (rest, others, h2) = bind-ok (strict_json_items env vs) _ h1 in
      let (same, safe) = strict_json-IsSafe env v w first in
      let (same_rest, safe_rest) = items-safe env vs rest others in
      (sym (ok-injective (cons w rest) ws h2) ∙ ap₂ cons same same_rest, (safe, safe_rest))

  fields-safe :
      (env : Env) (fs ws : Fields)
      → strict_json_fields env fs ≡ ok ws
      → (ws ≡ fs) × FieldsSafe env fs
  fields-safe env end ws h = (sym (ok-injective end ws h), tt)
  fields-safe env (field (other_key k) v fs) ws h = absurd (ground arith)
  fields-safe env (field (name k) v fs) ws h =
      let (_, allowed, h0) =
        bind-ok (ensure (not (is_forbidden env k)) retained_evidence_error) _ h in
      let (w, first, h1) = bind-ok (strict_json env v) _ h0 in
      let (rest, others, h2) = bind-ok (strict_json_fields env fs) _ h1 in
      let (same, safe) = strict_json-IsSafe env v w first in
      let (same_rest, safe_rest) = fields-safe env fs rest others in
      (
        sym (ok-injective (field (name k) w rest) ws h2) ∙ ap₂ (field (name k)) same same_rest,
        (
          permitted (is_forbidden env k) (ensure-ok _ retained_evidence_error allowed),
          safe,
          safe_rest,
        ),
      )

mutual
  unfolding strict_json IsSafe

  safe-accepted : (env : Env) (v : Value) → IsSafe env v → strict_json env v ≡ ok v
  safe-accepted env null h = refl
  safe-accepted env (bool b) h = refl
  safe-accepted env (int n) h = refl
  safe-accepted env (float q r) h = rw h
  safe-accepted env (str s) h = refl
  safe-accepted env (list vs) h = rw (items-accepted env vs h)
  safe-accepted env (dict fs) h = rw (fields-accepted env fs h)
  safe-accepted env (object t) h = absurd h

  items-accepted : (env : Env) (vs : Items) → ItemsSafe env vs → strict_json_items env vs ≡ ok vs
  items-accepted env nil h = refl
  items-accepted env (cons v vs) h = rw (safe-accepted env v h.0, items-accepted env vs h.1)

  fields-accepted :
      (env : Env) (fs : Fields) → FieldsSafe env fs → strict_json_fields env fs ≡ ok fs
  fields-accepted env end h = refl
  fields-accepted env (field (other_key k) v fs) h = absurd h
  fields-accepted env (field (name k) v fs) h =
      rw (h.0, safe-accepted env v h.1, fields-accepted env fs h.2)

-- What is kept: a safe payload with its hash.
pub record IsKept (env : Env) (e : RetainedEvidence) : Type 0 where
  pub safe : IsSafe env e.payload
  pub hashed : e.sha256 ≡ hash_payload env e.payload

check_retained-IsKept :
    (env : Env) (payload : Value) (sha256 : String) (e : RetainedEvidence)
    → check_retained env payload sha256 ≡ ok e
    → IsKept env e × (e.payload ≡ payload)
unfolding check_retained
check_retained-IsKept env payload sha256 e h =
    let (normalized, checked, h1) = bind-ok (strict_json env payload) _ h in
    let (_, equal, h2) =
      bind-ok (ensure (sha256 == hash_payload env normalized) retained_evidence_error) _ h1 in
    let (same, safe) = strict_json-IsSafe env payload normalized checked in
    let made = ok-injective (record { payload = normalized; sha256 = sha256 }) e h2 in
    subst (λ (r : RetainedEvidence). IsKept env r × (r.payload ≡ payload)) made
      (
        record {
          safe = subst (IsSafe env) (sym same) safe;
          hashed =
              (eq_iff sha256 (hash_payload env normalized)).0
                (ensure-ok _ retained_evidence_error equal);
        },
        same,
      )

required_text-trimmed : (s : String) → is_trimmed s ≡ true → required_text (some (str s)) ≡ ok s
unfolding required_text is_trimmed
required_text-trimmed s h = ground (arith, eq_iff s (strip s))

from_json-to_json :
    (env : Env) (e : RetainedEvidence)
    → IsKept env e
    → is_trimmed e.sha256 ≡ true
    → from_json env (some (to_json e)) ≡ ok e
unfolding from_json to_json check_retained
from_json-to_json env e k t = rw (
  required_text-trimmed e.sha256 t,
  safe-accepted env e.payload k.safe,
  ← k.hashed,
  (eq_iff e.sha256 e.sha256).1 refl,
)

built :
    (env : Env) (q : ExecutionRequest) (r : ExecutionResult) (process_exit : Option ProcessExit)
    (diagnostics : Option DiagnosticsEvidence) (residual_boundary : String) (e : RetainedEvidence)
    → build_mcp_retained_evidence env q r process_exit diagnostics residual_boundary ≡ ok e
    → (payload : Value) × (check_retained env payload (hash_payload env payload) ≡ ok e)
unfolding build_mcp_retained_evidence
built env q r process_exit diagnostics boundary e h =
    let (_, _, h1) = bind-ok (ensure (q.action == "mcp_tool_call") retained_evidence_error) _ h in
    let (mcp, _, h2) = bind-ok (mapping_at (get "mcp" q.parameters)) _ h1 in
    let (admission, _, h3) = bind-ok (admission_of admission_keys mcp) _ h2 in
    let (evidence, _, h4) = bind-ok (strict_json env (dict r.evidence)) _ h3 in
    let (state, _, h5) =
      bind-ok (dispatch_state_of (get "dispatch_state" (fields_of evidence))) _ h4 in
    let (readback, _, h6) = bind-ok (readback_value env r.readback) _ h5 in
    let (text, _, h7) = bind-ok (required_text (some (str boundary))) _ h6 in
    let (payload, _, h8) =
      bind-ok
        (strict_json env (
          payload_value env q r admission state readback (process_value process_exit)
            (diagnostics_value diagnostics) text))
        _ h7 in
    (payload, h8)

-- Let the hashes have no space in them. The evidence that is built has no key, at any depth, that may
-- bear a credential, carries the hash of its payload, and is read back from the envelope that it
-- writes as the same evidence.
pub build-IsKept :
    (env : Env) (q : ExecutionRequest) (r : ExecutionResult) (process_exit : Option ProcessExit)
    (diagnostics : Option DiagnosticsEvidence) (residual_boundary : String) (e : RetainedEvidence)
    → ((bytes : String) → is_trimmed (env.sha256 bytes) ≡ true)
    → build_mcp_retained_evidence env q r process_exit diagnostics residual_boundary ≡ ok e
    → IsKept env e × (from_json env (some (to_json e)) ≡ ok e)
unfolding hash_payload
build-IsKept env q r process_exit diagnostics boundary e trimmed h =
    let (payload, made) = built env q r process_exit diagnostics boundary e h in
    let (kept, _) = check_retained-IsKept env payload _ e made in
    (kept, from_json-to_json env e kept (rw kept.hashed (trimmed _)))
