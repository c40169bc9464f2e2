-- ===== src/Mcp/Tool/Outcome.antt =====
-- mcp_tool_executor.py: what the status of an execution says of the call.
use responsibility_pathway_r.Prelude.{
  inl, inr, String, true, false, not, ◌≡◌, refl, sym, ap, ◌∙◌, Option, none, some, ◌==◌, arith,
  Bool-cases,
}
use responsibility_pathway_r.Errors.{Error, Result, ok, err}
use responsibility_pathway_r.Exec.{Exec, outcome, pure}
use responsibility_pathway_r.Exec.Returns.{same-returned}
use responsibility_pathway_r.Value.{Value, Fields, str, dict, end, entry}
use responsibility_pathway_r.Execution.{
  ExecutionRequest, ExecutionResult, ReadbackEvidence, succeeded,
}
use responsibility_pathway_r.Env.{Env}
use responsibility_pathway_r.Mcp.Tool.{
  validated_dispatch_parameters, is_tool_error, Classes, Observer, observed_result, readback_failed,
  read_back, answered, not_answered, validated, execute,
}

-- The parameters of the request `tools/call`.
abbrev pub call_params : String → Fields → Fields
call_params tool_name arguments =
    entry "name" (str tool_name) (entry "arguments" (dict arguments) end)

module _ (env : Env) (classes : Classes) {T : Type 0} (call : String → Fields → Exec T Value) where
  -- An execution whose effect an observer has seen.
  pub record Verified (observer : Option (Observer T)) (q : ExecutionRequest) (s : T)
      (r : ExecutionResult) (t : T) : Type 0 where
    pub tool_name : String
    pub arguments : Fields
    pub is_valid : validated_dispatch_parameters env q ≡ ok (tool_name, arguments)
    pub tool_result : Fields
    pub between : T
    pub call_answered :
        call "tools/call" (call_params tool_name arguments) s ≡ (ok (dict tool_result), between)
    pub no_tool_error : is_tool_error tool_result ≡ false
    pub observe : Observer T
    pub observer_given : observer ≡ some observe
    pub readback : ReadbackEvidence
    pub observed : observe q tool_result between ≡ (ok (some readback), t)
    pub readback_verified : readback.verified ≡ true
    pub shown : r.readback ≡ some readback

  module _ (observer : Option (Observer T)) where
    -- The same for the part after the answer of the transport.
    record Seen (q : ExecutionRequest) (tool_result : Fields) (s : T) (r : ExecutionResult) (t : T)
        : Type 0 where
      observe : Observer T
      given : observer ≡ some observe
      readback : ReadbackEvidence
      observed : observe q tool_result s ≡ (ok (some readback), t)
      is_verified : readback.verified ≡ true
      shown : r.readback ≡ some readback

    observed-Seen :
        (q : ExecutionRequest) (tool_result : Fields) (observe : Observer T)
        (given : observer ≡ some observe) (s t : T) (r : ExecutionResult)
        (p : Result (Option ReadbackEvidence) × T)
        → observe q tool_result s ≡ p
        → outcome p
            (λ a. pure (observed_result tool_result a))
            (readback_failed env classes call observer true tool_result)
          ≡ (ok r, t)
        → r.status ≡ succeeded
        → Seen q tool_result s r t
    unfolding observed_result readback_failed
    observed-Seen q tr observe given s t r (ok none, u) e h done = absurd (ground arith)
    observed-Seen q tr observe given s t r (ok (some rb), u) e h done =
        elim (Bool-cases rb.verified) [
          | inl good ↦
              let (same, after) = same-returned (observed_result tr (some rb)) r u t h in
              record {
                observe = observe;
                given = given;
                readback = rb;
                observed = e ∙ ap (λ v. (ok (some rb), v)) after;
                is_verified = good;
                shown = ap (λ (x : ExecutionResult). x.readback) (sym same);
              }
          | inr bad ↦ absurd (ground arith)
        ]
    observed-Seen q tr observe given s t r (err x, u) e h done =
        elim (Bool-cases (classes.is_readback_failure x)) [
          | inl failure ↦ absurd (ground arith)
          | inr other ↦ absurd (ground arith)
        ]

    read_back-Seen :
        (o : Option (Observer T)) (q : ExecutionRequest) (tr : Fields) (s t : T)
        (r : ExecutionResult)
        → observer ≡ o
        → read_back env classes call observer true o q tr s ≡ (ok r, t)
        → r.status ≡ succeeded
        → Seen q tr s r t
    unfolding read_back
    read_back-Seen none q tr s t r given h done = absurd (ground arith)
    read_back-Seen (some observe) q tr s t r given h done =
        observed-Seen q tr observe given s t r (observe q tr s) refl h done

    answered-Seen :
        (q : ExecutionRequest) (v : Value) (s t : T) (r : ExecutionResult)
        → answered env classes call observer true q v s ≡ (ok r, t)
        → r.status ≡ succeeded
        → (tr : Fields) × (v ≡ dict tr) × (is_tool_error tr ≡ false) × Seen q tr s r t
    unfolding answered
    answered-Seen q (dict tr) s t r h done = elim (Bool-cases (is_tool_error tr)) [
      | inl error ↦ absurd (ground arith)
      | inr fine ↦ (tr, refl, fine, read_back-Seen observer q tr s t r refl (rw fine at h) done)
    ]
    answered-Seen q v s t r h done = absurd (ground arith)

    not_answered-fails :
        (e : Error) (s t : T) (r : ExecutionResult)
        → not_answered env classes call observer true e s ≡ (ok r, t)
        → ¬ (r.status ≡ succeeded)
    unfolding not_answered
    not_answered-fails e s t r h done = ground arith

    called-Verified :
        (q : ExecutionRequest) (tool_name : String) (arguments : Fields) (s t : T)
        (r : ExecutionResult) (p : Result Value × T)
        → validated_dispatch_parameters env q ≡ ok (tool_name, arguments)
        → call "tools/call" (call_params tool_name arguments) s ≡ p
        → outcome p
            (answered env classes call observer true q)
            (not_answered env classes call observer true)
          ≡ (ok r, t)
        → r.status ≡ succeeded
        → Verified observer q s r t
    called-Verified q tool_name arguments s t r (err x, u) valid e h done =
        absurd (not_answered-fails x u t r h done)
    called-Verified q tool_name arguments s t r (ok v, u) valid e h done =
        let (tr, object, fine, seen) = answered-Seen q v u t r h done in
        record {
          tool_name = tool_name;
          arguments = arguments;
          is_valid = valid;
          tool_result = tr;
          between = u;
          call_answered = e ∙ ap (λ w. (ok w, u)) object;
          no_tool_error = fine;
          observe = seen.observe;
          observer_given = seen.given;
          readback = seen.readback;
          observed = seen.observed;
          readback_verified = seen.is_verified;
          shown = seen.shown;
        }

    validated-Verified :
        (q : ExecutionRequest) (s t : T) (r : ExecutionResult) (v : Result (String × Fields))
        → validated_dispatch_parameters env q ≡ v
        → validated env classes call observer true q v s ≡ (ok r, t)
        → r.status ≡ succeeded
        → Verified observer q s r t
    unfolding validated
    validated-Verified q s t r (err e) valid h done = absurd (ground arith)
    validated-Verified q s t r (ok (tool_name, arguments)) valid h done =
        called-Verified q tool_name arguments s t r
          (call "tools/call" (call_params tool_name arguments) s) valid refl h done

    -- Where readback is required, an execution that succeeds has passed all of this: the parameters of
    -- the request are valid, the transport answered the call with an object that is no tool error,
    -- there is an observer, and after the call it gave the verified readback that the result shows.
    pub succeeded-Verified :
        (q : ExecutionRequest) (s t : T) (r : ExecutionResult)
        → execute env classes call observer true q s ≡ (ok r, t)
        → r.status ≡ succeeded
        → Verified observer q s r t
    unfolding execute
    succeeded-Verified q s t r h done = elim (Bool-cases (not (q.action == "mcp_tool_call"))) [
      | inl other ↦ absurd (ground arith)
      | inr tool_call ↦
          validated-Verified q s t r (validated_dispatch_parameters env q) refl (rw tool_call at h)
            done
    ]
