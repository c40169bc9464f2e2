-- ===== src/Inspection.antt =====
-- inspection.py: the static inspection of a pathway definition.
pub mod Laws
use responsibility_pathway_r.Prelude.{
  String, Bool, true, false, not, ◌&&◌, ◌||◌, Option, none, some, List, [], ◌∷◌, ◌++◌, ◌==◌, any,
  holds, is_blank, is_empty, concat, select, if◌then◌else◌,
}
use responsibility_pathway_r.Models.{
  ActionClass, ActionClass-discrete, EnvironmentTrust, EnvironmentTrust-discrete, RuntimeDecision,
  RouteClass, ReceiverEligibility, approval_required, reversible_external, high_impact,
  untrusted_public, adversarial, bounded_human_return, ineligible, requires_reevaluation, eligible,
  hold, allow, human_gate,
}
use responsibility_pathway_r.Models.Definition.{ResponsibilityRoute, PathwayDefinition}
use responsibility_pathway_r.Authority.{or_blank}

pub data Severity : Type 0 where
  error warning : Severity

pub record ValidationFinding : Type 0 where
  pub code : String
  pub message : String
  pub severity : Severity

pub record InspectionResult : Type 0 where
  pub valid : Bool
  pub decision : RuntimeDecision
  pub findings : List ValidationFinding
  pub human_return_available : Bool
  pub degradation_mode : String
  pub next_required_authority : Option String
  pub next_required_action : Option String

abbrev pub finding : String → String → Severity → ValidationFinding
finding code message severity = record { code = code; message = message; severity = severity }

abbrev missing : String → ValidationFinding
missing name = finding (concat name "_missing") (concat name " is required") error

-- One finding where the test holds.
abbrev pub when : Bool → ValidationFinding → List ValidationFinding
when true f = f ∷ []
when false f = []

-- The loop over the `required` names and their values.
unfoldable pub missing_names : List (String × String) → List ValidationFinding
unfolding is_blank
missing_names [] = []
missing_names ((name, value) ∷ rest) = when (is_blank value) (missing name) ++ missing_names rest

required_of_route : ResponsibilityRoute → List (String × String)
required_of_route r =
    ("route_source_holder", r.source_holder)
    ∷ ("route_destination", r.destination)
    ∷ ("route_authority_class", r.authority_class)
    ∷ ("route_delegation_scope", r.delegation_scope)
    ∷ ("route_closure_condition", r.closure_condition)
    ∷ ("route_reevaluation_condition", r.reevaluation_condition)
    ∷ ("route_residual_owner", r.residual_owner)
    ∷ []

is_nil {ℓ} : {A : Type ℓ} → List A → Bool
is_nil [] = true
is_nil (_ ∷ _) = false

-- The two findings on `allowed_next_actions`.
action_findings : List String → List ValidationFinding
unfolding any is_blank
action_findings [] =
    finding "route_allowed_next_actions_missing"
      "A responsibility route must bound at least one allowed next action" error
    ∷ []
action_findings (a ∷ actions) = when (any is_blank (a ∷ actions)) (
    finding "route_allowed_next_actions_blank" "Responsibility route actions must be non-empty"
      error)

eligibility_findings : ReceiverEligibility → List ValidationFinding
eligibility_findings eligible = []
eligibility_findings ineligible =
    finding "route_receiver_ineligible"
      "An ineligible receiver cannot be selected as the active responsibility route destination"
      error
    ∷ []
eligibility_findings requires_reevaluation =
    finding "route_receiver_requires_reevaluation"
      "Receiver eligibility must be reevaluated before the route is relied on" warning
    ∷ []

abbrev is_human_return : RouteClass → Bool
is_human_return bounded_human_return = true
is_human_return _ = false

-- `_inspect_responsibility_route`, where the pathway has a route
unfoldable pub route_findings : PathwayDefinition → ResponsibilityRoute → List ValidationFinding
unfolding missing_names required_of_route action_findings eligibility_findings
route_findings d r =
    missing_names (required_of_route r)
    ++ action_findings r.allowed_next_actions
    ++ when (not (r.residual_owner == d.residual_owner)) (
        finding "route_residual_owner_mismatch"
          "Responsibility routing must preserve the pathway residual owner unless ownership is explicitly redesigned"
          error)
    ++ eligibility_findings r.receiver_eligibility
    ++ when (is_human_return r.route_class && is_blank d.human_return_point) (
        finding "bounded_human_return_point_missing"
          "A bounded human-return route requires a concrete human return point" error)

unfoldable pub inspect_responsibility_route :
    PathwayDefinition → Option ResponsibilityRoute → List ValidationFinding
unfolding route_findings
inspect_responsibility_route d none = []
inspect_responsibility_route d (some r) = route_findings d r

required_of_pathway : PathwayDefinition → List (String × String)
required_of_pathway d =
    ("pathway_id", d.pathway_id)
    ∷ ("action_name", d.action_name)
    ∷ ("decision_owner", d.decision_owner)
    ∷ ("execution_actor", d.execution_actor)
    ∷ ("stop_authority", d.stop_authority)
    ∷ ("evidence_owner", d.evidence_owner)
    ∷ ("repair_owner", d.repair_owner)
    ∷ ("resume_authority", d.resume_authority)
    ∷ ("residual_owner", d.residual_owner)
    ∷ []

abbrev pub needs_approval : ActionClass → Bool
needs_approval approval_required = true
needs_approval reversible_external = true
needs_approval high_impact = true
needs_approval _ = false

abbrev pub is_high_impact : ActionClass → Bool
is_high_impact high_impact = true
is_high_impact _ = false

abbrev pub is_untrusted : EnvironmentTrust → Bool
is_untrusted untrusted_public = true
is_untrusted adversarial = true
is_untrusted _ = false

abbrev pub is_adversarial : EnvironmentTrust → Bool
is_adversarial adversarial = true
is_adversarial _ = false

-- The findings of `inspect_pathway`, in its order.
unfoldable pub pathway_findings : PathwayDefinition → List ValidationFinding
unfolding missing_names required_of_pathway
pathway_findings d =
    missing_names (required_of_pathway d)
    ++ inspect_responsibility_route d d.responsibility_route
    ++ when (needs_approval d.action_class && is_blank (or_blank d.approval_authority)) (
        finding "approval_authority_missing" "This action class requires an approval authority"
          error)
    ++ when (is_high_impact d.action_class && is_blank d.human_return_point) (
        finding "high_impact_human_return_point_missing"
          "A high-impact Human Gate requires a concrete human return point" error)
    ++ when (is_high_impact d.action_class && d.stop_authority == d.execution_actor) (
        finding "stop_execution_authority_not_separated"
          "High-impact actions should separate stop authority from execution actor" error)
    ++ when (is_untrusted d.environment_trust) (
        finding "untrusted_environment"
          "Untrusted environments require an explicit human gate before external mutation" warning)

abbrev pub is_error : ValidationFinding → Bool
is_error f = elim f.severity [ error ↦ true | warning ↦ false ]

unfoldable pub has_errors : List ValidationFinding → Bool
unfolding select is_nil
has_errors fs = not (is_nil (select is_error fs))

unfoldable pub needs_reevaluation : List ValidationFinding → Bool
unfolding any
needs_reevaluation fs = any (λ f. f.code == "route_receiver_requires_reevaluation") fs

-- `text or None`
abbrev or_none : String → Option String
or_none s = if is_empty s then none else some s

-- The decision, the degradation mode, the next authority and the next action.
abbrev pub Conclusion : Type 0
Conclusion = RuntimeDecision × String × Option String × Option String

unfoldable pub conclude : PathwayDefinition → Bool → Bool → Conclusion
conclude d errors reevaluate =
    if errors
    then (
      hold,
      "invalid_pathway_definition",
      or_none d.decision_owner,
      some "correct_pathway_definition",
    )
    else if reevaluate
    then (
      hold,
      "route_reevaluation_required",
      some d.decision_owner,
      some "reevaluate_responsibility_route",
    )
    else if is_adversarial d.environment_trust
    then (hold, "safe_only", some d.stop_authority, some "review_adversarial_environment")
    else if is_high_impact d.action_class
    then (
      RuntimeDecision.human_gate,
      "limited",
      d.approval_authority,
      some "perform_explicit_human_review",
    )
    else if needs_approval d.action_class
    then (allow, "approval_pending", d.approval_authority, some "approve_or_deny")
    else (allow, "full", some d.execution_actor, some "execute_bounded_action")

unfoldable pub inspect_pathway : PathwayDefinition → InspectionResult
unfolding conclude
inspect_pathway d =
    let fs = pathway_findings d in
    let errors = has_errors fs in
    let c = conclude d errors (needs_reevaluation fs) in
    record {
      valid = not errors;
      decision = c.0;
      findings = fs;
      human_return_available = not (is_blank d.human_return_point);
      degradation_mode = c.1;
      next_required_authority = c.2;
      next_required_action = c.3;
    }
