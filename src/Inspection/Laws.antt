-- ===== src/Inspection/Laws.antt =====
-- inspection.py: which definitions pass the inspection, and what is decided of them.
use responsibility_pathway_r.Prelude.{
  String, ◌≡◌, ◌≢◌, ◌↔◌, ◌⊎◌, refl, Bool, true, false, not, ◌&&◌, ◌||◌, Option, none, some, List,
  [], ◌∷◌, ◌++◌, arith, eq_iff, ◌==◌, any, is_blank,
}
use responsibility_pathway_r.Models.{
  RuntimeDecision, high_impact, adversarial, bounded_human_return, ineligible, hold, deny,
}
use responsibility_pathway_r.Models.Definition.{ResponsibilityRoute, PathwayDefinition}
use responsibility_pathway_r.Authority.{or_blank}
use responsibility_pathway_r.Inspection.{
  ValidationFinding, when, is_error, has_errors, needs_approval, is_high_impact, is_human_return,
  inspect_responsibility_route, route_findings, pathway_findings, inspect_pathway, action_findings,
  eligibility_findings, required_of_route, required_of_pathway, needs_reevaluation,
}

no_errors-any : (fs : List ValidationFinding) → has_errors fs ≡ any is_error fs
unfolding has_errors any
no_errors-any [] = refl
no_errors-any (f ∷ fs) = ground (arith, no_errors-any fs)

any-append {ℓ} :
    {A : Type ℓ} (p : A → Bool) (xs ys : List A) → any p (xs ++ ys) ≡ (any p xs || any p ys)
unfolding any
any-append p [] ys = refl
any-append p (x ∷ xs) ys = ground (arith, any-append p xs ys)

any-when :
    (p : ValidationFinding → Bool) (b : Bool) (f : ValidationFinding)
    → any p (when b f) ≡ (b && p f)
unfolding any
any-when p true f = ground arith
any-when p false f = refl

and-true : (b : Bool) → (b && true) ≡ b
and-true true = refl
and-true false = refl

or_assoc : (a b c : Bool) → ((a || b) || c) ≡ (a || (b || c))
or_assoc true b c = refl
or_assoc false b c = refl

and-false : (b : Bool) → (b && false) ≡ false
and-false true = refl
and-false false = refl

or-false : (b : Bool) → (b || false) ≡ b
or-false true = refl
or-false false = refl

ruleset error_laws = (any-append, any-when, and-true, or_assoc)

abbrev pub AllNamed : List String → Type 0
AllNamed [] = Unit
AllNamed (s ∷ ss) = (is_blank s ≡ false) × AllNamed ss

-- A sound route: its names are given, it bounds what may come next, it keeps the residual owner, its
-- receiver is not ineligible, and a bounded human return has a place to return to.
pub record IsSoundRoute (d : PathwayDefinition) (r : ResponsibilityRoute) : Type 0 where
  pub source_named : is_blank r.source_holder ≡ false
  pub destination_named : is_blank r.destination ≡ false
  pub authority_named : is_blank r.authority_class ≡ false
  pub scope_named : is_blank r.delegation_scope ≡ false
  pub closure_named : is_blank r.closure_condition ≡ false
  pub reevaluation_named : is_blank r.reevaluation_condition ≡ false
  pub residual_named : is_blank r.residual_owner ≡ false
  pub bounded : r.allowed_next_actions ≢ []
  pub actions_named : AllNamed r.allowed_next_actions
  pub owner_kept : r.residual_owner ≡ d.residual_owner
  pub receiver : r.receiver_eligibility ≢ ineligible
  pub returns : r.route_class ≡ bounded_human_return → is_blank d.human_return_point ≡ false

abbrev pub RouteSound : PathwayDefinition → Option ResponsibilityRoute → Type 0
RouteSound d none = Unit
RouteSound d (some r) = IsSoundRoute d r

any-blank : (ss : List String) → (any is_blank ss ≡ false) ↔ AllNamed ss
unfolding any
any-blank [] = ground arith
any-blank (s ∷ ss) = ground (arith, any-blank ss)

action_findings_iff :
    (ss : List String) → (any is_error (action_findings ss) ≡ false) ↔ ((ss ≢ []) × AllNamed ss)
unfolding action_findings any
action_findings_iff [] = ground arith
action_findings_iff (s ∷ ss) = ground (arith, any-blank (s ∷ ss))

route_errors :
    (d : PathwayDefinition) (r : ResponsibilityRoute)
    → any is_error (route_findings d r) ≡ (
        any (λ x. is_blank x.1) (required_of_route r)
        || (any is_error (action_findings r.allowed_next_actions)
            || (not (r.residual_owner == d.residual_owner)
                || (any is_error (eligibility_findings r.receiver_eligibility)
                    || (is_human_return r.route_class && is_blank d.human_return_point)))))
unfolding route_findings
route_errors d r = simp error_laws

-- The findings on a route are free of errors exactly when the route is sound.
route_findings_iff :
    (d : PathwayDefinition) (r : ResponsibilityRoute)
    → (any is_error (route_findings d r) ≡ false) ↔ IsSoundRoute d r
unfolding any required_of_route eligibility_findings
route_findings_iff d r = rw (route_errors d r) (
    ground
      (arith, action_findings_iff r.allowed_next_actions, eq_iff r.residual_owner d.residual_owner))

-- A well-formed definition, in the terms of its fields.
pub record IsWellFormed (d : PathwayDefinition) : Type 0 where
  pub pathway_named : is_blank d.pathway_id ≡ false
  pub action_named : is_blank d.action_name ≡ false
  pub decision_named : is_blank d.decision_owner ≡ false
  pub execution_named : is_blank d.execution_actor ≡ false
  pub stop_named : is_blank d.stop_authority ≡ false
  pub evidence_named : is_blank d.evidence_owner ≡ false
  pub repair_named : is_blank d.repair_owner ≡ false
  pub resume_named : is_blank d.resume_authority ≡ false
  pub residual_named : is_blank d.residual_owner ≡ false
  pub route_sound : RouteSound d d.responsibility_route
  pub approval_given :
      needs_approval d.action_class ≡ true → is_blank (or_blank d.approval_authority) ≡ false
  pub return_given : d.action_class ≡ high_impact → is_blank d.human_return_point ≡ false
  pub stop_separate : d.action_class ≡ high_impact → d.stop_authority ≢ d.execution_actor

route_part :
    (d : PathwayDefinition) (o : Option ResponsibilityRoute)
    → (any is_error (inspect_responsibility_route d o) ≡ false) ↔ RouteSound d o
unfolding inspect_responsibility_route any
route_part d none = ground arith
route_part d (some r) = route_findings_iff d r

pathway_errors :
    (d : PathwayDefinition)
    → any is_error (pathway_findings d) ≡ (
        any (λ x. is_blank x.1) (required_of_pathway d)
        || (any is_error (inspect_responsibility_route d d.responsibility_route)
            || ((needs_approval d.action_class && is_blank (or_blank d.approval_authority))
                || ((is_high_impact d.action_class && is_blank d.human_return_point)
                    || (is_high_impact d.action_class && d.stop_authority == d.execution_actor)))))
unfolding pathway_findings any
pathway_errors d = simp (error_laws, and-false, or-false)

-- A definition is found valid exactly when it is well-formed; warnings do not count.
pub valid_iff : (d : PathwayDefinition) → ((inspect_pathway d).valid ≡ true) ↔ IsWellFormed d
unfolding inspect_pathway any required_of_pathway
valid_iff d =
    rw (no_errors-any, pathway_errors)
      (ground
        (arith, route_part d d.responsibility_route, eq_iff d.stop_authority d.execution_actor))

-- The decision is a hold exactly if the definition is invalid, its receiver is to be reevaluated,
-- or its environment is adversarial; it is a human gate exactly if none of these holds and the
-- action is of high impact; it is never a denial.
pub decision_cases :
    (d : PathwayDefinition)
    → let r = inspect_pathway d in
      ((r.decision ≡ hold) ↔ (
        (r.valid ≡ false)
        ⊎ (needs_reevaluation r.findings ≡ true)
        ⊎ (d.environment_trust ≡ adversarial)))
      × ((r.decision ≡ RuntimeDecision.human_gate) ↔ (
          (r.valid ≡ true)
          × (needs_reevaluation r.findings ≡ false)
          × (d.environment_trust ≢ adversarial)
          × (d.action_class ≡ high_impact)))
      × (r.decision ≢ deny)
unfolding inspect_pathway
decision_cases d = ground arith
