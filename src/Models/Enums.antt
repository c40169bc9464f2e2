-- ===== src/Models/Enums.antt =====
-- models.py: the string enumerations. `value` gives the text of a member, and `X(text)` is a search
-- among the members, which raises ValueError.
use responsibility_pathway_r.Prelude.{String, ◌≡◌, refl, Bool, List, [], ◌∷◌, ◌==◌, holds, find}
use responsibility_pathway_r.Errors.{Result, ok, value_error, or_raise}

pub data ActionClass : Type 0 where
  observe_only suggest_only approval_required reversible_external high_impact : ActionClass
  emergency_stop : ActionClass

pub data EnvironmentTrust : Type 0 where
  trusted_internal semi_trusted untrusted_public adversarial : EnvironmentTrust

pub data PathwayState : Type 0 where
  proposed awaiting_approval approved running held human_gate stopped : PathwayState
  partially_completed write_status_unknown repair_required ready_to_resume : PathwayState
  completed denied aborted : PathwayState

pub data RuntimeDecision : Type 0 where
  allow hold human_gate deny : RuntimeDecision

pub data RouteClass : Type 0 where
  continue_autonomously ai_resolve_within_delegation hold_for_reconciliation : RouteClass
  bounded_human_return stop_and_preserve_residue : RouteClass

pub data ReceiverEligibility : Type 0 where
  eligible ineligible requires_reevaluation : ReceiverEligibility

unfoldable pub PathwayState-discrete : Discrete PathwayState
PathwayState-discrete = hlevel

unfoldable pub ActionClass-discrete : Discrete ActionClass
ActionClass-discrete = hlevel

unfoldable pub EnvironmentTrust-discrete : Discrete EnvironmentTrust
EnvironmentTrust-discrete = hlevel

-- `current is target`
infix 50 ◌is◌
abbrev pub ◌is◌ : PathwayState → PathwayState → Bool
s is t = holds (PathwayState-discrete s t)

-- The member of an enumeration that has a text.
unfoldable pub member_of {ℓ} : {A : Type ℓ} → (A → String) → List A → String → Result A
unfolding find
member_of value members s = or_raise (find (λ m. value m == s) members) value_error

unfoldable pub action_class_value : ActionClass → String
action_class_value observe_only = "observe_only"
action_class_value suggest_only = "suggest_only"
action_class_value approval_required = "approval_required"
action_class_value reversible_external = "reversible_external"
action_class_value high_impact = "high_impact"
action_class_value emergency_stop = "emergency_stop"

abbrev action_classs : List ActionClass
action_classs =
    observe_only ∷ suggest_only ∷ approval_required ∷ reversible_external ∷ high_impact
    ∷ emergency_stop ∷ []

unfoldable pub action_class_of : String → Result ActionClass
unfolding member_of action_class_value
action_class_of = member_of action_class_value action_classs

pub action_class_of-value : (a : ActionClass) → action_class_of (action_class_value a) ≡ ok a
unfolding action_class_of
action_class_of-value observe_only = refl
action_class_of-value suggest_only = refl
action_class_of-value approval_required = refl
action_class_of-value reversible_external = refl
action_class_of-value high_impact = refl
action_class_of-value emergency_stop = refl

unfoldable pub environment_trust_value : EnvironmentTrust → String
environment_trust_value trusted_internal = "trusted_internal"
environment_trust_value semi_trusted = "semi_trusted"
environment_trust_value untrusted_public = "untrusted_public"
environment_trust_value adversarial = "adversarial"

abbrev environment_trusts : List EnvironmentTrust
environment_trusts = trusted_internal ∷ semi_trusted ∷ untrusted_public ∷ adversarial ∷ []

unfoldable pub environment_trust_of : String → Result EnvironmentTrust
unfolding member_of environment_trust_value
environment_trust_of = member_of environment_trust_value environment_trusts

pub environment_trust_of-value :
    (a : EnvironmentTrust) → environment_trust_of (environment_trust_value a) ≡ ok a
unfolding environment_trust_of
environment_trust_of-value trusted_internal = refl
environment_trust_of-value semi_trusted = refl
environment_trust_of-value untrusted_public = refl
environment_trust_of-value adversarial = refl

unfoldable pub pathway_state_value : PathwayState → String
pathway_state_value proposed = "proposed"
pathway_state_value awaiting_approval = "awaiting_approval"
pathway_state_value approved = "approved"
pathway_state_value running = "running"
pathway_state_value held = "held"
pathway_state_value PathwayState.human_gate = "human_gate"
pathway_state_value stopped = "stopped"
pathway_state_value partially_completed = "partially_completed"
pathway_state_value write_status_unknown = "write_status_unknown"
pathway_state_value repair_required = "repair_required"
pathway_state_value ready_to_resume = "ready_to_resume"
pathway_state_value completed = "completed"
pathway_state_value denied = "denied"
pathway_state_value aborted = "aborted"

abbrev pathway_states : List PathwayState
pathway_states =
    proposed ∷ awaiting_approval ∷ approved ∷ running ∷ held ∷ PathwayState.human_gate ∷ stopped
    ∷ partially_completed ∷ write_status_unknown ∷ repair_required ∷ ready_to_resume ∷ completed
    ∷ denied ∷ aborted ∷ []

unfoldable pub pathway_state_of : String → Result PathwayState
unfolding member_of pathway_state_value
pathway_state_of = member_of pathway_state_value pathway_states

pub pathway_state_of-value : (a : PathwayState) → pathway_state_of (pathway_state_value a) ≡ ok a
unfolding pathway_state_of
pathway_state_of-value proposed = refl
pathway_state_of-value awaiting_approval = refl
pathway_state_of-value approved = refl
pathway_state_of-value running = refl
pathway_state_of-value held = refl
pathway_state_of-value PathwayState.human_gate = refl
pathway_state_of-value stopped = refl
pathway_state_of-value partially_completed = refl
pathway_state_of-value write_status_unknown = refl
pathway_state_of-value repair_required = refl
pathway_state_of-value ready_to_resume = refl
pathway_state_of-value completed = refl
pathway_state_of-value denied = refl
pathway_state_of-value aborted = refl

unfoldable pub runtime_decision_value : RuntimeDecision → String
runtime_decision_value allow = "allow"
runtime_decision_value hold = "hold"
runtime_decision_value RuntimeDecision.human_gate = "human_gate"
runtime_decision_value deny = "deny"

abbrev runtime_decisions : List RuntimeDecision
runtime_decisions = allow ∷ hold ∷ RuntimeDecision.human_gate ∷ deny ∷ []

unfoldable pub runtime_decision_of : String → Result RuntimeDecision
unfolding member_of runtime_decision_value
runtime_decision_of = member_of runtime_decision_value runtime_decisions

pub runtime_decision_of-value :
    (a : RuntimeDecision) → runtime_decision_of (runtime_decision_value a) ≡ ok a
unfolding runtime_decision_of
runtime_decision_of-value allow = refl
runtime_decision_of-value hold = refl
runtime_decision_of-value RuntimeDecision.human_gate = refl
runtime_decision_of-value deny = refl

unfoldable pub route_class_value : RouteClass → String
route_class_value continue_autonomously = "continue_autonomously"
route_class_value ai_resolve_within_delegation = "ai_resolve_within_delegation"
route_class_value hold_for_reconciliation = "hold_for_reconciliation"
route_class_value bounded_human_return = "bounded_human_return"
route_class_value stop_and_preserve_residue = "stop_and_preserve_residue"

abbrev route_classs : List RouteClass
route_classs =
    continue_autonomously ∷ ai_resolve_within_delegation ∷ hold_for_reconciliation
    ∷ bounded_human_return ∷ stop_and_preserve_residue ∷ []

unfoldable pub route_class_of : String → Result RouteClass
unfolding member_of route_class_value
route_class_of = member_of route_class_value route_classs

pub route_class_of-value : (a : RouteClass) → route_class_of (route_class_value a) ≡ ok a
unfolding route_class_of
route_class_of-value continue_autonomously = refl
route_class_of-value ai_resolve_within_delegation = refl
route_class_of-value hold_for_reconciliation = refl
route_class_of-value bounded_human_return = refl
route_class_of-value stop_and_preserve_residue = refl

unfoldable pub receiver_eligibility_value : ReceiverEligibility → String
receiver_eligibility_value eligible = "eligible"
receiver_eligibility_value ineligible = "ineligible"
receiver_eligibility_value requires_reevaluation = "requires_reevaluation"

abbrev receiver_eligibilitys : List ReceiverEligibility
receiver_eligibilitys = eligible ∷ ineligible ∷ requires_reevaluation ∷ []

unfoldable pub receiver_eligibility_of : String → Result ReceiverEligibility
unfolding member_of receiver_eligibility_value
receiver_eligibility_of = member_of receiver_eligibility_value receiver_eligibilitys

pub receiver_eligibility_of-value :
    (a : ReceiverEligibility) → receiver_eligibility_of (receiver_eligibility_value a) ≡ ok a
unfolding receiver_eligibility_of
receiver_eligibility_of-value eligible = refl
receiver_eligibility_of-value ineligible = refl
receiver_eligibility_of-value requires_reevaluation = refl
