-- ===== src/Examples/Runs.antt =====
-- The theorems on whole runs, on registration and on the evaluator, at concrete inputs.
use responsibility_pathway_r.Prelude.{
  String, Bool, true, false, ◌≡◌, ◌≢◌, refl, Option, none, some, List, [], ◌∷◌, ◌++◌, ◌⊎◌, inl, inr,
  arith, is_some, if◌then◌else◌,
}
use responsibility_pathway_r.Errors.{Result, ok, err, other_error}
use responsibility_pathway_r.Exec.Respects.{Respects-pure}
use responsibility_pathway_r.Value.{Value, Fields, str, dict, end, entry}
use responsibility_pathway_r.Models.{
  approved, running, write_status_unknown, completed, repair_required, awaiting_approval, allow,
}
use responsibility_pathway_r.Inspection.{inspect_pathway}
use responsibility_pathway_r.Rpe.{RpeResult, RpeAnswer, plain, allow_all, python_evaluate, held_for}
use responsibility_pathway_r.Rpe.Laws.{Backed, python_evaluate-Backed}
use responsibility_pathway_r.Execution.{ExecutionRequest, ExecutionResult}
use responsibility_pathway_r.World.{World, EvidenceEvent, M}
use responsibility_pathway_r.Evidence.{verify_chain}
use responsibility_pathway_r.Store.{events_of}
use responsibility_pathway_r.Runtime.{RegistrationResult, register, action_request}
use responsibility_pathway_r.Runtime.Register.{register-open}
use responsibility_pathway_r.Audit.States.{state_in, IdsUnique}
use responsibility_pathway_r.Audit.Trace.{Enters}
use responsibility_pathway_r.Audit.Order.{AuditedOrder, Explained}
use responsibility_pathway_r.Audit.Calls.{
  Call, registering, moving, executing, repairing, resuming, run_calls, run_calls-Explained,
  run_calls-terminal, run_calls-unknown,
}
use responsibility_pathway_r.Audit.Verified.{VerifiedOrder, run_calls-Verified}
use responsibility_pathway_r.Examples.{
  env_example, config_example, definition_example, text_example, world_example, empty_world,
  request_example,
}
use responsibility_pathway_r.Examples.Ledger.{failing_executor, failed_result, finished_record}

abbrev pub allowing : Value → Result RpeResult
allowing v = ok allow_all

abbrev life : List Call
life =
    registering allowing definition_example "key-1"
    ∷ moving "pathway-1" approved "approver" "reviewed"
    ∷ executing failing_executor "pathway-1" request_example "agent"
    ∷ []

life-Explained :
    IdsUnique (run_calls config_example life empty_world).pathways
    × ((es : List EvidenceEvent) × Explained empty_world
          (run_calls config_example life empty_world)
          es)
unfolding responsibility_pathway_r.Redaction.is_sensitive
    responsibility_pathway_r.Redaction.default_policy
life-Explained =
    run_calls-Explained config_example refl life
      (tt, (tt, ((λ q. Respects-pure AuditedOrder failed_result), tt))) empty_world tt

life-Verified :
    (verify_chain env_example (events_of "pathway-1" (run_calls config_example life empty_world))).0
    ≡ true
unfolding verify_chain events_of
life-Verified =
    run_calls-Verified config_example life empty_world
      (tt, (tt, ((λ q. Respects-pure (VerifiedOrder config_example) failed_result), tt)))
      (λ id. refl) "pathway-1"

terminal_example :
    state_in "pathway-1" (run_calls config_example life (world_example completed [])).pathways
    ≡ some completed
unfolding responsibility_pathway_r.Redaction.is_sensitive
    responsibility_pathway_r.Redaction.default_policy
    responsibility_pathway_r.StateMachine.is_member
    responsibility_pathway_r.StateMachine.terminal_states state_in
terminal_example =
    run_calls-terminal config_example refl life
      (tt, (tt, ((λ q. Respects-pure AuditedOrder failed_result), tt))) (world_example completed [])
      (refl, tt) "pathway-1" completed refl refl

abbrev recovery : List Call
recovery =
    moving "pathway-1" repair_required "repairer" "not applied"
    ∷ repairing "pathway-1" "repairer" "attempt-1" (entry "fixed" (str "yes") end) "fixed" none
    ∷ resuming "pathway-1" "resumer" "attempt-1" "attempt-2" "again"
    ∷ []

unknown_example :
    (es : List EvidenceEvent) × ((run_calls config_example recovery
        (world_example write_status_unknown (finished_record ∷ []))).events
      ≡ [] ++ es)
    × Enters "pathway-1" repair_required es
unfolding responsibility_pathway_r.Redaction.is_sensitive
    responsibility_pathway_r.Redaction.default_policy state_in
    responsibility_pathway_r.Repair.resume responsibility_pathway_r.Prelude.is_blank
    responsibility_pathway_r.Attempts.get_attempt responsibility_pathway_r.Attempts.attempt_of
    responsibility_pathway_r.Repair.complete_repair responsibility_pathway_r.Runtime.transition
    responsibility_pathway_r.Store.get_state responsibility_pathway_r.Store.row_of
    responsibility_pathway_r.Runtime.guarded_move responsibility_pathway_r.Store.get_definition
    responsibility_pathway_r.Models.Definition.from_dict
    responsibility_pathway_r.Models.Definition.to_dict
    responsibility_pathway_r.Models.action_class_of
    responsibility_pathway_r.Models.environment_trust_of
    responsibility_pathway_r.Authority.authorize_transition
    responsibility_pathway_r.Authority.require_actor responsibility_pathway_r.Evidence.build_event
    responsibility_pathway_r.Evidence.canonical_payload responsibility_pathway_r.Evidence.digest
    responsibility_pathway_r.Evidence.seal responsibility_pathway_r.Models.PathwayState-discrete
    responsibility_pathway_r.Models.action_class_value
    responsibility_pathway_r.Models.environment_trust_value
    responsibility_pathway_r.Models.pathway_state_value responsibility_pathway_r.Prelude.strip
    responsibility_pathway_r.Redaction.redact responsibility_pathway_r.Redaction.redact_value
    responsibility_pathway_r.Repair.compensation_value
    responsibility_pathway_r.Repair.latest_repair_is responsibility_pathway_r.Repair.require_absent
    responsibility_pathway_r.Repair.require_failed responsibility_pathway_r.Runtime.move_with_event
    responsibility_pathway_r.StateMachine.allowed_transitions
    responsibility_pathway_r.StateMachine.ensure_transition
    responsibility_pathway_r.StateMachine.is_member events_of
    responsibility_pathway_r.Store.hash_of_last responsibility_pathway_r.Store.insert_event
    responsibility_pathway_r.Store.latest_event_hash
    responsibility_pathway_r.Store.transition_with_event responsibility_pathway_r.Value.get
    responsibility_pathway_r.Value.item responsibility_pathway_r.Value.put
    responsibility_pathway_r.World.read_clock responsibility_pathway_r.World.transaction
    responsibility_pathway_r.Examples.dumps_example responsibility_pathway_r.Models.member_of
    responsibility_pathway_r.Models.Definition.text_item
    responsibility_pathway_r.Authority.authorize_actor
    responsibility_pathway_r.Execution.result_value
unknown_example =
    run_calls-unknown config_example refl recovery (tt, (tt, (tt, tt)))
      (world_example write_status_unknown (finished_record ∷ [])) (refl, tt) "pathway-1" refl refl

-- What a registration that opens a pathway rests on.
register_example :
    ((inspect_pathway definition_example).decision ≡ allow)
    × ((a : RpeResult) × (allowing (action_request definition_example) ≡ ok a)
        × (a.decision ≡ allow))
    × (awaiting_approval
        ≡ (if is_some definition_example.approval_authority then awaiting_approval else approved))
unfolding register responsibility_pathway_r.Runtime.opinion
    responsibility_pathway_r.Store.create_or_replay_pathway
    responsibility_pathway_r.Prelude.is_blank responsibility_pathway_r.World.transaction
    responsibility_pathway_r.Runtime.record_event responsibility_pathway_r.Evidence.build_event
    responsibility_pathway_r.Redaction.redact responsibility_pathway_r.Redaction.default_policy
    responsibility_pathway_r.Models.runtime_decision_value inspect_pathway
    responsibility_pathway_r.Inspection.has_errors
    responsibility_pathway_r.Inspection.pathway_findings
    responsibility_pathway_r.Inspection.inspect_responsibility_route
    responsibility_pathway_r.Inspection.needs_reevaluation allow_all
    responsibility_pathway_r.Models.pathway_state_value
    responsibility_pathway_r.Evidence.canonical_payload responsibility_pathway_r.Evidence.digest
    responsibility_pathway_r.Evidence.seal responsibility_pathway_r.Inspection.conclude
    responsibility_pathway_r.Inspection.missing_names
    responsibility_pathway_r.Models.Definition.to_dict
    responsibility_pathway_r.Models.action_class_value
    responsibility_pathway_r.Models.environment_trust_value responsibility_pathway_r.Prelude.any
    responsibility_pathway_r.Prelude.find responsibility_pathway_r.Prelude.last
    responsibility_pathway_r.Prelude.select responsibility_pathway_r.Redaction.is_sensitive
    responsibility_pathway_r.Redaction.redact_value action_request
    responsibility_pathway_r.Runtime.combine responsibility_pathway_r.Runtime.initial_state
    responsibility_pathway_r.Runtime.rank responsibility_pathway_r.Store.append_event events_of
    responsibility_pathway_r.Store.fingerprint responsibility_pathway_r.Store.hash_of_last
    responsibility_pathway_r.Store.insert_event responsibility_pathway_r.Store.latest_event_hash
    responsibility_pathway_r.Value.put responsibility_pathway_r.World.read_clock
    responsibility_pathway_r.Examples.dumps_example responsibility_pathway_r.Value.get
register_example =
    register-open config_example allowing definition_example "key-1" empty_world
      (register config_example allowing definition_example "key-1" empty_world).1
      (record {
        pathway_id = "pathway-1";
        state = awaiting_approval;
        decision = allow;
        reason_codes = "development_evaluator" ∷ [];
        replayed = false;
      })
      refl refl (inr refl)

abbrev answered : Value → List Value → Result RpeAnswer
answered request packs = ok (plain (dict (entry "decision" (str "allow") end)))

abbrev answer_example : RpeResult
answer_example = record {
  decision = allow;
  reason_codes = [];
  raw = some (entry "decision" (str "allow") end);
  contract_version = none;
}

python_evaluate_example :
    (answer : RpeAnswer) × (answered (str "request") [] ≡ ok answer)
    × Backed none answer answer_example
unfolding python_evaluate responsibility_pathway_r.Rpe.normalize_result
    responsibility_pathway_r.Rpe.normalize_mapping responsibility_pathway_r.Rpe.supported_decision
    responsibility_pathway_r.Rpe.decision_value responsibility_pathway_r.Models.runtime_decision_of
    responsibility_pathway_r.Rpe.check_version responsibility_pathway_r.Rpe.version_value
python_evaluate_example =
    python_evaluate-Backed text_example [] answered none (str "request") answer_example refl
      (λ e. ground arith)

abbrev unreachable : Value → List Value → Result RpeAnswer
unreachable request packs = err (other_error "OSError")
