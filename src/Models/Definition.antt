-- ===== src/Models/Definition.antt =====
-- models.py: ResponsibilityRoute and PathwayDefinition, `to_dict` and `from_dict`.
pub mod RoundTrip
use responsibility_pathway_r.Prelude.{String, Option, none, some, List, [], ◌∷◌}
use responsibility_pathway_r.Errors.{Result, ok, err, other_error, ◌>>=◌}
use responsibility_pathway_r.Value.{
  Value, Items, Fields, null, str, list, dict, nil, cons, end, entry, get, item, opt_str, strs,
}
use responsibility_pathway_r.Models.Enums.{
  ActionClass, EnvironmentTrust, RouteClass, ReceiverEligibility, action_class_value,
  action_class_of, environment_trust_value, environment_trust_of, route_class_value, route_class_of,
  receiver_eligibility_value, receiver_eligibility_of,
}

pub record ResponsibilityRoute : Type 0 where
  pub route_class : RouteClass
  pub source_holder : String
  pub destination : String
  pub receiver_eligibility : ReceiverEligibility
  pub authority_class : String
  pub delegation_scope : String
  pub unresolved_payload : List String
  pub allowed_next_actions : List String
  pub closure_condition : String
  pub reevaluation_condition : String
  pub residual_owner : String
  pub expires_at : Option String

pub record PathwayDefinition : Type 0 where
  pub pathway_id : String
  pub action_name : String
  pub action_class : ActionClass
  pub environment_trust : EnvironmentTrust
  pub decision_owner : String
  pub approval_authority : Option String
  pub execution_actor : String
  pub stop_authority : String
  pub evidence_owner : String
  pub repair_owner : String
  pub resume_authority : String
  pub human_return_point : String
  pub residual_owner : String
  pub metadata : Fields
  pub responsibility_route : Option ResponsibilityRoute

unfoldable pub route_to_dict : ResponsibilityRoute → Fields
route_to_dict r = entry "route_class" (str (route_class_value r.route_class)) (
    entry "source_holder" (str r.source_holder) (
      entry "destination" (str r.destination) (
        entry "receiver_eligibility" (str (receiver_eligibility_value r.receiver_eligibility)) (
          entry "authority_class" (str r.authority_class) (
            entry "delegation_scope" (str r.delegation_scope) (
              entry "unresolved_payload" (list (strs r.unresolved_payload)) (
                entry "allowed_next_actions" (list (strs r.allowed_next_actions)) (
                  entry "closure_condition" (str r.closure_condition) (
                    entry "reevaluation_condition" (str r.reevaluation_condition) (
                      entry "residual_owner" (str r.residual_owner)
                        (entry "expires_at" (opt_str r.expires_at) end)))))))))))

unfoldable pub route_entry : Option ResponsibilityRoute → Fields
route_entry none = end
route_entry (some r) = entry "responsibility_route" (dict (route_to_dict r)) end

unfoldable pub to_dict : PathwayDefinition → Fields
unfolding route_entry
to_dict d = entry "pathway_id" (str d.pathway_id) (
    entry "action_name" (str d.action_name) (
      entry "action_class" (str (action_class_value d.action_class)) (
        entry "environment_trust" (str (environment_trust_value d.environment_trust)) (
          entry "decision_owner" (str d.decision_owner) (
            entry "approval_authority" (opt_str d.approval_authority) (
              entry "execution_actor" (str d.execution_actor) (
                entry "stop_authority" (str d.stop_authority) (
                  entry "evidence_owner" (str d.evidence_owner) (
                    entry "repair_owner" (str d.repair_owner) (
                      entry "resume_authority" (str d.resume_authority) (
                        entry "human_return_point" (str d.human_return_point) (
                          entry "residual_owner" (str d.residual_owner) (
                            entry "metadata" (dict d.metadata)
                              (route_entry d.responsibility_route))))))))))))))

-- The constructors of `from_dict` convert by `str(…)`; `text` is that conversion.
module _ (text : Value → String) where
  texts : Items → List String
  texts nil = []
  texts (cons v vs) = text v ∷ texts vs

  unfoldable pub text_item : String → Fields → Result String
  unfolding item
  text_item k fs = do v ← item k fs; ok (text v)

  -- `tuple(str(item) for item in value.get(key, []))`; only a list or a tuple is modelled.
  text_items : Option Value → Result (List String)
  unfolding texts
  text_items none = ok []
  text_items (some (list vs)) = ok (texts vs)
  text_items (some _) = err (other_error "TypeError")

  opt_text : Option Value → Option String
  opt_text none = none
  opt_text (some null) = none
  opt_text (some v) = some (text v)

  unfoldable pub route_from_dict : Fields → Result ResponsibilityRoute
  unfolding text_item text_items opt_text
  route_from_dict fs = do
    route_class ← (text_item "route_class" fs >>= route_class_of)
    source_holder ← text_item "source_holder" fs
    destination ← text_item "destination" fs
    eligibility ← (text_item "receiver_eligibility" fs >>= receiver_eligibility_of)
    authority_class ← text_item "authority_class" fs
    delegation_scope ← text_item "delegation_scope" fs
    payload ← text_items (get "unresolved_payload" fs)
    actions ← text_items (get "allowed_next_actions" fs)
    closure_condition ← text_item "closure_condition" fs
    reevaluation_condition ← text_item "reevaluation_condition" fs
    residual_owner ← text_item "residual_owner" fs
    ok (record {
      route_class = route_class;
      source_holder = source_holder;
      destination = destination;
      receiver_eligibility = eligibility;
      authority_class = authority_class;
      delegation_scope = delegation_scope;
      unresolved_payload = payload;
      allowed_next_actions = actions;
      closure_condition = closure_condition;
      reevaluation_condition = reevaluation_condition;
      residual_owner = residual_owner;
      expires_at = opt_text (get "expires_at" fs);
    })

  -- `None if route_value is None else ResponsibilityRoute.from_dict(route_value)`
  route_of : Option Value → Result (Option ResponsibilityRoute)
  unfolding route_from_dict
  route_of none = ok none
  route_of (some null) = ok none
  route_of (some (dict fs)) = do r ← route_from_dict fs; ok (some r)
  route_of (some _) = err (other_error "TypeError")

  -- `dict(value.get("metadata", {}))`
  fields_of : Option Value → Result Fields
  fields_of none = ok end
  fields_of (some (dict fs)) = ok fs
  fields_of (some _) = err (other_error "TypeError")

  -- The field is declared `str | None`. `from_dict` takes the value as it is, also one that is no text;
  -- the field here is an optional text, and such a value is refused.
  declared_opt_str : Option Value → Result (Option String)
  declared_opt_str none = ok none
  declared_opt_str (some null) = ok none
  declared_opt_str (some (str s)) = ok (some s)
  declared_opt_str (some _) = err (other_error "TypeError")

  unfoldable pub from_dict : Fields → Result PathwayDefinition
  unfolding text_item route_of fields_of declared_opt_str
  from_dict fs = do
    route ← route_of (get "responsibility_route" fs)
    pathway_id ← text_item "pathway_id" fs
    action_name ← text_item "action_name" fs
    action_class ← (text_item "action_class" fs >>= action_class_of)
    environment_trust ← (text_item "environment_trust" fs >>= environment_trust_of)
    decision_owner ← text_item "decision_owner" fs
    approval_authority ← declared_opt_str (get "approval_authority" fs)
    execution_actor ← text_item "execution_actor" fs
    stop_authority ← text_item "stop_authority" fs
    evidence_owner ← text_item "evidence_owner" fs
    repair_owner ← text_item "repair_owner" fs
    resume_authority ← text_item "resume_authority" fs
    human_return_point ← text_item "human_return_point" fs
    residual_owner ← text_item "residual_owner" fs
    metadata ← fields_of (get "metadata" fs)
    ok (record {
      pathway_id = pathway_id;
      action_name = action_name;
      action_class = action_class;
      environment_trust = environment_trust;
      decision_owner = decision_owner;
      approval_authority = approval_authority;
      execution_actor = execution_actor;
      stop_authority = stop_authority;
      evidence_owner = evidence_owner;
      repair_owner = repair_owner;
      resume_authority = resume_authority;
      human_return_point = human_return_point;
      residual_owner = residual_owner;
      metadata = metadata;
      responsibility_route = route;
    })
