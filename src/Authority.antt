-- ===== src/Authority.antt =====
-- authority.py: which actor may do what.
pub mod Laws
use responsibility_pathway_r.Prelude.{
  String, ◌≡◌, Bool, true, false, not, ◌&&◌, ◌||◌, Option, none, some, ◌==◌, is_empty, strip,
  if◌then◌else◌,
}
use responsibility_pathway_r.Errors.{Result, ok, err, authority_error, ensure, ◌>>=◌, ◌>>◌}
use responsibility_pathway_r.Models.{
  PathwayState, PathwayState-discrete, ◌is◌, running, write_status_unknown, repair_required,
  ready_to_resume, completed, aborted, held, approved, stopped, partially_completed, human_gate,
}
use responsibility_pathway_r.Models.Definition.{PathwayDefinition}

pub record TransitionAuthority : Type 0 where
  pub required_role : String
  pub expected_actor : String

-- `_require_actor`
unfoldable pub require_actor : String → Result String
require_actor actor =
    let stripped = strip actor in if is_empty stripped then err authority_error else ok stripped

unfoldable pub authorize_execution_access : PathwayDefinition → String → Result (Unit {0})
unfolding require_actor
authorize_execution_access d actor = do
  a ← require_actor actor
  ensure (a == d.execution_actor) authority_error

unfoldable pub authorize_reconciliation_access : PathwayDefinition → String → Result (Unit {0})
unfolding require_actor
authorize_reconciliation_access d actor = do
  a ← require_actor actor
  ensure (a == d.repair_owner || a == d.evidence_owner) authority_error

-- `definition.approval_authority or ""`
abbrev pub or_blank : Option String → String
or_blank none = ""
or_blank (some s) = s

unfoldable pub required_authority : PathwayDefinition → PathwayState → Option TransitionAuthority
unfolding PathwayState-discrete
required_authority d target =
    if target is approved
    then some (record {
      required_role = "approval_authority";
      expected_actor = or_blank d.approval_authority;
    })
    else if target is stopped || target is held || target is PathwayState.human_gate
    then some (record { required_role = "stop_authority"; expected_actor = d.stop_authority })
    else if target is repair_required
    then some (record { required_role = "repair_owner"; expected_actor = d.repair_owner })
    else if target is ready_to_resume
    then some (record { required_role = "repair_owner"; expected_actor = d.repair_owner })
    else if target is running
    then some (record { required_role = "execution_or_resume_authority"; expected_actor = "" })
    else if target is completed || target is partially_completed || target is write_status_unknown
    then some (record { required_role = "execution_actor"; expected_actor = d.execution_actor })
    else if target is aborted
    then some (record { required_role = "residual_owner"; expected_actor = d.residual_owner })
    else none

-- The last lines of `authorize_transition`, where a rule applies or not.
abbrev pub check_rule : Option TransitionAuthority → String → Result (Unit {0})
check_rule none actor = ok tt
check_rule (some rule) actor =
    ensure (not (is_empty rule.expected_actor) && actor == rule.expected_actor) authority_error

-- `authorize_transition` for an actor that is not blank
unfoldable pub authorize_actor :
    PathwayDefinition → PathwayState → PathwayState → String → Result (Unit {0})
unfolding required_authority
authorize_actor d current target actor =
    if current is write_status_unknown && target is completed
    then err authority_error
    else if target is aborted
    then err authority_error
    else if target is running
    then ensure
        (actor == d.execution_actor
          || (current is ready_to_resume || current is stopped || current is held)
            && actor == d.resume_authority)
        authority_error
    else check_rule (required_authority d target) actor

unfoldable pub authorize_transition :
    PathwayDefinition → PathwayState → PathwayState → String → Result (Unit {0})
unfolding require_actor
authorize_transition d current target actor = do
  a ← require_actor actor
  authorize_actor d current target a
