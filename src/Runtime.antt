-- ===== src/Runtime.antt =====
-- runtime.py: ResponsibilityPathwayRuntime. This file has registration, generic transitions and the
-- recording of events; the children have execution and reconciliation, and the theorems.
pub mod Finish
pub mod Execute
pub mod Reconcile
pub mod Effects
pub mod Respects
pub mod Register
use responsibility_pathway_r.Prelude.{
  ℕ, String, Bool, true, false, not, Option, none, some, List, [], ◌∷◌, ◌++◌, map, is_some, leb,
  length, if◌then◌else◌,
}
use responsibility_pathway_r.Errors.{
  Error, Result, ok, err, value_error, rpe_contract_error, class_name,
}
use responsibility_pathway_r.Exec.{pure, raise, lift, gets, require, ◌>>=◌, ◌>>◌}
use responsibility_pathway_r.Value.{
  Value, Items, Fields, bool, str, list, dict, nil, cons, end, entry, opt_str, strs,
}
use responsibility_pathway_r.Models.{
  PathwayState, PathwayState-discrete, ◌is◌, running, write_status_unknown, repair_required,
  approved, held, denied, human_gate, awaiting_approval, RuntimeDecision, allow, hold, deny,
  pathway_state_value, runtime_decision_value, action_class_value, environment_trust_value,
}
use responsibility_pathway_r.Models.Definition.{PathwayDefinition, to_dict}
use responsibility_pathway_r.StateMachine.{ensure_transition}
use responsibility_pathway_r.Authority.{authorize_transition}
use responsibility_pathway_r.Inspection.{
  Severity, error, warning, ValidationFinding, InspectionResult, inspect_pathway,
}
use responsibility_pathway_r.Rpe.{RpeResult}
use responsibility_pathway_r.Redaction.{RedactionPolicy}
use responsibility_pathway_r.Env.{Env}
use responsibility_pathway_r.World.{World, EvidenceEvent, M}
use responsibility_pathway_r.Evidence.{build_event, verify_chain}
use responsibility_pathway_r.Store.{
  create_or_replay_pathway, get_definition, get_state, transition_with_event, append_event,
  latest_event_hash, events_of,
}
use responsibility_pathway_r.Principal.{Principal}

-- What the runtime is built with, apart from the two databases.
pub record Config : Type 0 where
  pub env : Env
  pub open env use *
  pub policy : RedactionPolicy

-- `_combine`
unfoldable pub rank : RuntimeDecision → ℕ
rank allow = 0
rank hold = 1
rank RuntimeDecision.human_gate = 2
rank deny = 3

unfoldable pub combine : RuntimeDecision → RuntimeDecision → RuntimeDecision
unfolding rank
combine left right = if leb (rank right) (rank left) then left else right

-- `_initial_state`
unfoldable pub initial_state : RuntimeDecision → Bool → PathwayState
initial_state deny approval_configured = denied
initial_state RuntimeDecision.human_gate approval_configured = PathwayState.human_gate
initial_state hold approval_configured = held
initial_state allow approval_configured =
    if approval_configured then awaiting_approval else approved

severity_text : Severity → String
severity_text error = "error"
severity_text warning = "warning"

findings_value : List ValidationFinding → Items
unfolding severity_text
findings_value [] = nil
findings_value (f ∷ fs) =
    cons
      (dict (
        entry "code" (str f.code) (
          entry "message" (str f.message) (entry "severity" (str (severity_text f.severity)) end))))
      (findings_value fs)

-- `InspectionResult.to_dict`
inspection_value : InspectionResult → Value
unfolding findings_value
inspection_value r = dict (
    entry "valid" (bool r.valid) (
      entry "decision" (str (runtime_decision_value r.decision)) (
        entry "findings" (list (findings_value r.findings)) (
          entry "human_return_available" (bool r.human_return_available) (
            entry "degradation_mode" (str r.degradation_mode) (
              entry "next_required_authority" (opt_str r.next_required_authority)
                (entry "next_required_action" (opt_str r.next_required_action) end)))))))

unfoldable pub action_request : PathwayDefinition → Value
action_request d = dict (
    entry "action" (str d.action_name) (
      entry "action_class" (str (action_class_value d.action_class)) (
        entry "environment_trust" (str (environment_trust_value d.environment_trust))
          (entry "responsibility_pathway" (dict (to_dict d)) end))))

abbrev fields_or_end : Option Fields → Fields
fields_or_end none = end
fields_or_end (some fs) = fs

-- The decision, the reason codes and the raw answer, with a contract error turned into a hold.
abbrev pub Opinion : Type 0
Opinion = RuntimeDecision × List String × Fields

unfoldable pub opinion : Result RpeResult → Result Opinion
unfolding class_name
opinion (ok r) = ok (r.decision, r.reason_codes, fields_or_end r.raw)
opinion (err (rpe_contract_error m)) =
    ok (hold, "rpe_contract_error" ∷ "RpeContractError" ∷ [], entry "error" (str m) end)
opinion (err e) = err e

-- RegistrationResult
pub record RegistrationResult : Type 0 where
  pub pathway_id : String
  pub state : PathwayState
  pub decision : RuntimeDecision
  pub reason_codes : List String
  pub replayed : Bool

-- EvidenceVerificationResult
pub record EvidenceVerificationResult : Type 0 where
  pub valid : Bool
  pub event_count : ℕ
  pub failure_index : Option ℕ
  pub reason : Option String

-- The payload of a change of state: `from`, `to`, and what the caller adds.
abbrev pub transition_payload : PathwayState → PathwayState → Fields → Fields
transition_payload current target more =
    entry "from" (str (pathway_state_value current))
      (entry "to" (str (pathway_state_value target)) more)

registration_payload : InspectionResult → Opinion → PathwayState → String → Fields
unfolding inspection_value
registration_payload inspection (decision, codes, raw) state key =
    entry "inspection" (inspection_value inspection) (
      entry "rpe"
        (dict (
          entry "decision" (str (runtime_decision_value decision))
            (entry "reason_codes" (list (strs codes)) (entry "raw" (dict raw) end))))
        (entry "state" (str (pathway_state_value state)) (entry "idempotency_key" (str key) end)))

codes_of : List ValidationFinding → List String
codes_of [] = []
codes_of (f ∷ fs) = f.code ∷ codes_of fs

abbrev pub principal_fields : Principal → PathwayState → Fields
principal_fields p target = entry "issuer" (str p.issuer) (
    entry "subject" (str p.subject) (
      entry "authentication_method" (str p.authentication_method)
        (entry "target" (str (pathway_state_value target)) end)))

module _ (c : Config) where
  -- `_record`
  unfoldable pub record_event : String → String → String → Fields → M (Unit {0})
  record_event pathway_id event_type actor payload = do
    previous ← gets (latest_event_hash pathway_id)
    event ← build_event c.env c.policy pathway_id event_type actor payload previous
    append_event c.env event

  -- The end of every change of state: the event is built, and stored together with the new state.
  unfoldable pub move_with_event :
      String → String → String → PathwayState → PathwayState → Fields → M (Unit {0})
  move_with_event pathway_id event_type actor current target more = do
    previous ← gets (latest_event_hash pathway_id)
    event ←
        build_event c.env c.policy pathway_id event_type actor
          (transition_payload current target more) previous
    transition_with_event c.env pathway_id current target event

  record_registration :
      Bool → PathwayDefinition → InspectionResult → Opinion → PathwayState → String → M (Unit {0})
  unfolding registration_payload
  record_registration true d inspection o state key = pure tt
  record_registration false d inspection o state key =
      record_event d.pathway_id "pathway_registered" d.decision_owner
        (registration_payload inspection o state key)

  -- `register`; `evaluate` is the evaluator that the runtime was built with.
  unfoldable pub register :
      (Value → Result RpeResult) → PathwayDefinition → String → M RegistrationResult
  unfolding action_request record_registration codes_of
  register evaluate d key = do
    let inspection = inspect_pathway d
    o ← lift (opinion (evaluate (action_request d)))
    let combined = combine inspection.decision o.0
    (replayed, persisted) ←
        create_or_replay_pathway c.env d (initial_state combined (is_some d.approval_authority)) key
    record_registration replayed d inspection o persisted key
    pure (record {
      pathway_id = d.pathway_id;
      state = persisted;
      decision = combined;
      reason_codes = codes_of inspection.findings ++ o.1;
      replayed = replayed;
    })

  -- The guards and the end of a change of state that `authorize_transition` governs.
  unfoldable pub guarded_move :
      String → String → String → PathwayState → PathwayState → Fields → M (Unit {0})
  guarded_move pathway_id event_type actor current target more = do
    d ← get_definition c.env pathway_id
    lift (ensure_transition current target)
    lift (authorize_transition d current target actor)
    move_with_event pathway_id event_type actor current target more

  -- `transition`
  unfoldable pub transition : String → PathwayState → String → String → M PathwayState
  unfolding PathwayState-discrete
  transition pathway_id target actor reason = do
    require (not (target is running)) value_error
    current ← get_state pathway_id
    guarded_move pathway_id "state_transition" actor current target
        (entry "reason" (str reason) end)
    pure target

  -- `transition_as_principal`: the resolver and the binding are arguments.
  unfoldable pub transition_as_principal :
      {C : Type 0}
      → (C → Result Principal)
      → (Principal → Result String)
      → String
      → PathwayState
      → C
      → String
      → M PathwayState
  transition_as_principal resolve actor_for pathway_id target credential reason = do
    p ← lift (resolve credential)
    actor ← lift (actor_for p)
    state ← transition pathway_id target actor reason
    record_event pathway_id "principal_authorized_transition" actor (principal_fields p target)
    pure state

  unfoldable pub mark_write_unknown : String → String → String → M PathwayState
  mark_write_unknown pathway_id actor reason =
      transition pathway_id write_status_unknown actor reason

  unfoldable pub require_repair : String → String → String → M PathwayState
  require_repair pathway_id actor reason = transition pathway_id repair_required actor reason

  -- `verify_evidence`
  unfoldable pub verify_evidence : String → M EvidenceVerificationResult
  verify_evidence pathway_id = do
    events ← gets (events_of pathway_id)
    let (valid, index, reason) = verify_chain c.env events
    pure (record {
      valid = valid;
      event_count = length events;
      failure_index = index;
      reason = reason;
    })
