-- ===== src/Authority/Laws.antt =====
-- authority.py: what a successful authorization says of the actor.
use responsibility_pathway_r.Prelude.{
  String, ◌≡◌, ◌∙◌, inl, inr, ◌≢◌, ◌↔◌, ◌⊎◌, some, arith, eq_iff, is_empty, is_blank, strip,
  is_empty-strip, ◌==◌, true, false, Bool-cases, Option, none, not, ◌&&◌,
}
use responsibility_pathway_r.Errors.{ok, err, authority_error}
use responsibility_pathway_r.Models.{
  PathwayState, running, write_status_unknown, repair_required, ready_to_resume, completed, aborted,
  held, approved, stopped, partially_completed, denied, awaiting_approval, proposed,
}
use responsibility_pathway_r.Models.Definition.{PathwayDefinition}
use responsibility_pathway_r.Authority.{
  require_actor, authorize_execution_access, authorize_reconciliation_access, authorize_actor,
  or_blank, authorize_transition,
}

-- `_require_actor` refuses exactly the blank actors, and returns the others without surrounding space.
pub require_actor_cases :
    (actor : String)
    → ((is_blank actor ≡ true) × (require_actor actor ≡ err authority_error))
      ⊎ ((is_blank actor ≡ false) × (require_actor actor ≡ ok (strip actor)))
unfolding require_actor
require_actor_cases actor = ground (arith, is_empty-strip actor)

-- Execution is open exactly to the actors that are not blank and, without surrounding space, are
-- the declared execution actor.
pub execution_access_iff :
    (d : PathwayDefinition) (actor : String)
    → (authorize_execution_access d actor ≡ ok tt)
      ↔ ((is_blank actor ≡ false) × (strip actor ≡ d.execution_actor))
unfolding authorize_execution_access
execution_access_iff d actor =
    ground (arith, is_empty-strip actor, eq_iff (strip actor) d.execution_actor)

-- Reconciliation is open exactly to the actors that are not blank and, without surrounding space,
-- are the declared repair owner or evidence owner.
pub reconciliation_access_iff :
    (d : PathwayDefinition) (actor : String)
    → (authorize_reconciliation_access d actor ≡ ok tt) ↔ (
        (is_blank actor ≡ false)
        × ((strip actor ≡ d.repair_owner) ⊎ (strip actor ≡ d.evidence_owner)))
unfolding authorize_reconciliation_access
reconciliation_access_iff d actor = ground (
  arith,
  is_empty-strip actor,
  eq_iff (strip actor) d.repair_owner,
  eq_iff (strip actor) d.evidence_owner,
)

-- Who may move a pathway from one state to another by a generic transition.
abbrev pub MayMove : PathwayDefinition → String → PathwayState → PathwayState → Type 0
MayMove d a current approved = (d.approval_authority ≡ some a)
MayMove d a current stopped = (a ≡ d.stop_authority)
MayMove d a current held = (a ≡ d.stop_authority)
MayMove d a current PathwayState.human_gate = (a ≡ d.stop_authority)
MayMove d a current repair_required = (a ≡ d.repair_owner)
MayMove d a current ready_to_resume = (a ≡ d.repair_owner)
MayMove d a current running =
    (a ≡ d.execution_actor)
    ⊎ (((current ≡ ready_to_resume) ⊎ (current ≡ stopped) ⊎ (current ≡ held))
        × (a ≡ d.resume_authority))
MayMove d a current completed = (current ≢ write_status_unknown) × (a ≡ d.execution_actor)
MayMove d a current partially_completed = (a ≡ d.execution_actor)
MayMove d a current write_status_unknown = (a ≡ d.execution_actor)
MayMove d a current aborted = ⊥
MayMove d a current proposed = Unit
MayMove d a current awaiting_approval = Unit
MayMove d a current denied = Unit

not_empty : (s : String) → is_empty s ≡ false → s ≢ ""
not_empty String.[] h e = cc
not_empty (String.◌∷◌ c s) h e = cc

approver_iff :
    (o : Option String) (a : String)
    → is_empty a ≡ false
    → ((not (is_empty (or_blank o)) && a == or_blank o) ≡ true) ↔ (o ≡ some a)
approver_iff none a h = ground (arith, eq_iff a "", not_empty a h)
approver_iff (some b) a h = ground (arith, eq_iff a b)

authorize_actor_iff :
    (d : PathwayDefinition) (a : String) (current target : PathwayState)
    → is_empty a ≡ false
    → (authorize_actor d current target a ≡ ok tt) ↔ MayMove d a current target
unfolding authorize_actor
authorize_actor_iff d a current approved h = ground (arith, approver_iff d.approval_authority a h)
authorize_actor_iff d a current target h = ground (
  arith,
  eq_iff a d.stop_authority,
  eq_iff a d.repair_owner,
  eq_iff a d.execution_actor,
  eq_iff a d.resume_authority,
)

-- A generic transition is authorized exactly when the actor is not blank and may, without
-- surrounding space, make the move: the approval authority approves, the stop authority stops,
-- holds and gates, the repair owner requires and ends repairs, the execution actor completes (but
-- not from an unknown write), leaves partial or unknown, and runs, the resume authority runs what
-- was ready to resume, stopped or held, nobody aborts, and every actor may propose, await
-- approval and deny.
pub authorize_transition_iff :
    (d : PathwayDefinition) (current target : PathwayState) (actor : String)
    → (authorize_transition d current target actor ≡ ok tt)
      ↔ ((is_blank actor ≡ false) × MayMove d (strip actor) current target)
unfolding authorize_transition
authorize_transition_iff d current target actor = elim (Bool-cases (is_blank actor)) [
  | inl blank ↦ ((λ h. absurd (ground (arith, is_empty-strip actor))), λ m. absurd (ground arith))
  | inr full ↦
      let seen : is_empty (strip actor) ≡ false = is_empty-strip actor ∙ full in
      let rule = authorize_actor_iff d (strip actor) current target seen in
      rw seen ((λ h. (full, rule.0 h)), λ m. rule.1 m.1)
]
