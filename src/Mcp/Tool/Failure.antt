-- ===== src/Mcp/Tool/Failure.antt =====
-- mcp_tool_executor.py: a failure is reported only of a call whose effect is known.
use responsibility_pathway_r.Prelude.{
  inl, inr, String, Bool, true, false, not, ◌≡◌, refl, sym, ap, ap₂, ◌∙◌, Option, none, some, ◌==◌,
  arith, Bool-cases, if◌then◌else◌,
}
use responsibility_pathway_r.Errors.{Error, Result, ok, err}
use responsibility_pathway_r.Exec.{Exec, outcome, pure}
use responsibility_pathway_r.Exec.Returns.{same-returned}
use responsibility_pathway_r.Value.{Value, Fields, dict}
use responsibility_pathway_r.Execution.{
  ExecutionRequest, ExecutionResult, ReadbackEvidence, succeeded, failed,
}
use responsibility_pathway_r.Env.{Env}
use responsibility_pathway_r.Mcp.Tool.{
  validated_dispatch_parameters, is_tool_error, Classes, Observer, observed_result, readback_failed,
  read_back, answered, not_answered, validated, execute, sent_evidence,
}
use responsibility_pathway_r.Mcp.Tool.Outcome.{call_params}

module _ (env : Env) (classes : Classes) {T : Type 0} (call : String → Fields → Exec T Value)
    (observer : Option (Observer T)) (require_readback : Bool) where
  -- Why the effect of a failed execution is known.
  pub data Known (q : ExecutionRequest) (s t : T) : Type 0 where
    unsent : t ≡ s → Known q s t
    not_sent :
        (tool_name : String) (arguments : Fields) (e : Error)
        → call "tools/call" (call_params tool_name arguments) s ≡ (err e, t)
        → classes.is_not_sent e ≡ true
        → Known q s t
    tool_error :
        (tool_name : String) (arguments tool_result : Fields)
        → call "tools/call" (call_params tool_name arguments) s ≡ (ok (dict tool_result), t)
        → is_tool_error tool_result ≡ true
        → Known q s t

  observed-open :
      (tr : Fields) (t : T) (r : ExecutionResult) (p : Result (Option ReadbackEvidence) × T)
      → outcome p
          (λ a. pure (observed_result tr a))
          (readback_failed env classes call observer require_readback tr)
        ≡ (ok r, t)
      → ¬ (r.status ≡ failed)
  unfolding observed_result readback_failed
  observed-open tr t r (ok none, u) h bad = ground arith
  observed-open tr t r (ok (some rb), u) h bad = ground arith
  observed-open tr t r (err x, u) h bad = ground arith

  read_back-open :
      (o : Option (Observer T)) (q : ExecutionRequest) (tr : Fields) (s t : T) (r : ExecutionResult)
      → read_back env classes call observer require_readback o q tr s ≡ (ok r, t)
      → ¬ (r.status ≡ failed)
  unfolding read_back
  read_back-open none q tr s t r h bad = ground arith
  read_back-open (some observe) q tr s t r h bad = observed-open tr t r (observe q tr s) h bad

  answered-Known :
      (q : ExecutionRequest) (v : Value) (s t : T) (r : ExecutionResult)
      → answered env classes call observer require_readback q v s ≡ (ok r, t)
      → r.status ≡ failed
      → (tr : Fields) × (v ≡ dict tr) × (is_tool_error tr ≡ true) × (s ≡ t)
  unfolding answered
  answered-Known q (dict tr) s t r h bad = elim (Bool-cases (is_tool_error tr)) [
    | inl error ↦ (tr, refl, error, (same-returned _ r s t (rw error at h)).1)
    | inr fine ↦ absurd (fine-open q tr s t r require_readback (rw fine at h) bad)
  ]
    where
      fine-open :
          (q : ExecutionRequest) (tr : Fields) (s t : T) (r : ExecutionResult) (b : Bool)
          → (if b
                then read_back env classes call observer require_readback observer q tr
                else pure (record {
                  status = succeeded;
                  evidence = sent_evidence tr;
                  readback = none;
                  reason = none;
                }))
              s
            ≡ (ok r, t)
          → ¬ (r.status ≡ failed)
      fine-open q tr s t r true h bad = read_back-open observer q tr s t r h bad
      fine-open q tr s t r false h bad = ground arith
  answered-Known q v s t r h bad = absurd (ground arith)

  not_answered-Known :
      (e : Error) (s t : T) (r : ExecutionResult)
      → not_answered env classes call observer require_readback e s ≡ (ok r, t)
      → r.status ≡ failed
      → (classes.is_not_sent e ≡ true) × (s ≡ t)
  unfolding not_answered
  not_answered-Known e s t r h bad = elim (Bool-cases (classes.is_not_sent e)) [
    | inl never ↦ (never, (same-returned _ r s t (rw never at h)).1)
    | inr other ↦ absurd (ground arith)
  ]

  called-Known :
      (q : ExecutionRequest) (tool_name : String) (arguments : Fields) (s t : T)
      (r : ExecutionResult) (p : Result Value × T)
      → call "tools/call" (call_params tool_name arguments) s ≡ p
      → outcome p
          (answered env classes call observer require_readback q)
          (not_answered env classes call observer require_readback)
        ≡ (ok r, t)
      → r.status ≡ failed
      → Known q s t
  called-Known q tool_name arguments s t r (err x, u) e h bad =
      let (unsent_error, after) = not_answered-Known x u t r h bad in
      not_sent tool_name arguments x (e ∙ ap (λ w. (err x, w)) after) unsent_error
  called-Known q tool_name arguments s t r (ok v, u) e h bad =
      let (tr, object, error, after) = answered-Known q v u t r h bad in
      tool_error tool_name arguments tr (e ∙ ap₂ (λ w u'. (ok w, u')) object after) error

  validated-Known :
      (q : ExecutionRequest) (s t : T) (r : ExecutionResult) (v : Result (String × Fields))
      → validated env classes call observer require_readback q v s ≡ (ok r, t)
      → r.status ≡ failed
      → Known q s t
  unfolding validated
  validated-Known q s t r (err e) h bad = unsent (sym (same-returned _ r s t h).1)
  validated-Known q s t r (ok (tool_name, arguments)) h bad =
      called-Known q tool_name arguments s t r
        (call "tools/call" (call_params tool_name arguments) s) refl h bad

  -- A failure is never reported of a call that may have had an effect unseen: the transport was not
  -- asked, or it raised an error which says that nothing was sent, or the answer is a tool error.
  pub failed-Known :
      (q : ExecutionRequest) (s t : T) (r : ExecutionResult)
      → execute env classes call observer require_readback q s ≡ (ok r, t)
      → r.status ≡ failed
      → Known q s t
  unfolding execute
  failed-Known q s t r h bad = elim (Bool-cases (not (q.action == "mcp_tool_call"))) [
    | inl other ↦ unsent (sym (same-returned _ r s t (rw other at h)).1)
    | inr tool_call ↦
        validated-Known q s t r (validated_dispatch_parameters env q) (rw tool_call at h) bad
  ]
