-- ===== src/StateMachine/Edge.antt =====
-- state_machine.py and _generated_transitions.py: the allowed transitions as a relation.
use responsibility_pathway_r.Prelude.{◌≡◌, refl, ◌↔◌}
use responsibility_pathway_r.Errors.{ok}
use responsibility_pathway_r.Models.{
  PathwayState, proposed, awaiting_approval, approved, running, held, stopped, partially_completed,
  write_status_unknown, repair_required, ready_to_resume, completed, denied, aborted,
}
use responsibility_pathway_r.StateMachine.{ensure_transition}

-- The table as a relation: one constructor for each allowed transition, named by its two states.
infix 40 ◌⟶◌
pub data ◌⟶◌ : PathwayState → PathwayState → Type 0 where
  proposed_awaiting_approval : proposed ⟶ awaiting_approval
  proposed_approved : proposed ⟶ approved
  proposed_denied : proposed ⟶ denied
  awaiting_approval_approved : awaiting_approval ⟶ approved
  awaiting_approval_denied : awaiting_approval ⟶ denied
  awaiting_approval_human_gate : awaiting_approval ⟶ PathwayState.human_gate
  approved_running : approved ⟶ running
  approved_held : approved ⟶ held
  approved_aborted : approved ⟶ aborted
  running_completed : running ⟶ completed
  running_stopped : running ⟶ stopped
  running_partially_completed : running ⟶ partially_completed
  running_write_status_unknown : running ⟶ write_status_unknown
  running_repair_required : running ⟶ repair_required
  held_human_gate : held ⟶ PathwayState.human_gate
  held_approved : held ⟶ approved
  held_aborted : held ⟶ aborted
  human_gate_approved : PathwayState.human_gate ⟶ approved
  human_gate_denied : PathwayState.human_gate ⟶ denied
  human_gate_aborted : PathwayState.human_gate ⟶ aborted
  stopped_repair_required : stopped ⟶ repair_required
  stopped_aborted : stopped ⟶ aborted
  partially_completed_repair_required : partially_completed ⟶ repair_required
  write_status_unknown_completed : write_status_unknown ⟶ completed
  write_status_unknown_repair_required : write_status_unknown ⟶ repair_required
  repair_required_ready_to_resume : repair_required ⟶ ready_to_resume
  repair_required_aborted : repair_required ⟶ aborted
  ready_to_resume_running : ready_to_resume ⟶ running
  ready_to_resume_aborted : ready_to_resume ⟶ aborted

edge-accepted : {s t : PathwayState} → s ⟶ t → ensure_transition s t ≡ ok tt
unfolding ensure_transition
edge-accepted proposed_awaiting_approval = refl
edge-accepted proposed_approved = refl
edge-accepted proposed_denied = refl
edge-accepted awaiting_approval_approved = refl
edge-accepted awaiting_approval_denied = refl
edge-accepted awaiting_approval_human_gate = refl
edge-accepted approved_running = refl
edge-accepted approved_held = refl
edge-accepted approved_aborted = refl
edge-accepted running_completed = refl
edge-accepted running_stopped = refl
edge-accepted running_partially_completed = refl
edge-accepted running_write_status_unknown = refl
edge-accepted running_repair_required = refl
edge-accepted held_human_gate = refl
edge-accepted held_approved = refl
edge-accepted held_aborted = refl
edge-accepted human_gate_approved = refl
edge-accepted human_gate_denied = refl
edge-accepted human_gate_aborted = refl
edge-accepted stopped_repair_required = refl
edge-accepted stopped_aborted = refl
edge-accepted partially_completed_repair_required = refl
edge-accepted write_status_unknown_completed = refl
edge-accepted write_status_unknown_repair_required = refl
edge-accepted repair_required_ready_to_resume = refl
edge-accepted repair_required_aborted = refl
edge-accepted ready_to_resume_running = refl
edge-accepted ready_to_resume_aborted = refl

edge_of : (s t : PathwayState) → ensure_transition s t ≡ ok tt → s ⟶ t
unfolding ensure_transition
edge_of proposed awaiting_approval h = proposed_awaiting_approval
edge_of proposed approved h = proposed_approved
edge_of proposed denied h = proposed_denied
edge_of proposed _ h = cc
edge_of awaiting_approval approved h = awaiting_approval_approved
edge_of awaiting_approval PathwayState.human_gate h = awaiting_approval_human_gate
edge_of awaiting_approval denied h = awaiting_approval_denied
edge_of awaiting_approval _ h = cc
edge_of approved running h = approved_running
edge_of approved held h = approved_held
edge_of approved aborted h = approved_aborted
edge_of approved _ h = cc
edge_of running stopped h = running_stopped
edge_of running partially_completed h = running_partially_completed
edge_of running write_status_unknown h = running_write_status_unknown
edge_of running repair_required h = running_repair_required
edge_of running completed h = running_completed
edge_of running _ h = cc
edge_of held approved h = held_approved
edge_of held PathwayState.human_gate h = held_human_gate
edge_of held aborted h = held_aborted
edge_of held _ h = cc
edge_of PathwayState.human_gate approved h = human_gate_approved
edge_of PathwayState.human_gate denied h = human_gate_denied
edge_of PathwayState.human_gate aborted h = human_gate_aborted
edge_of PathwayState.human_gate _ h = cc
edge_of stopped repair_required h = stopped_repair_required
edge_of stopped aborted h = stopped_aborted
edge_of stopped _ h = cc
edge_of partially_completed repair_required h = partially_completed_repair_required
edge_of partially_completed _ h = cc
edge_of write_status_unknown repair_required h = write_status_unknown_repair_required
edge_of write_status_unknown completed h = write_status_unknown_completed
edge_of write_status_unknown _ h = cc
edge_of repair_required ready_to_resume h = repair_required_ready_to_resume
edge_of repair_required aborted h = repair_required_aborted
edge_of repair_required _ h = cc
edge_of ready_to_resume running h = ready_to_resume_running
edge_of ready_to_resume aborted h = ready_to_resume_aborted
edge_of ready_to_resume _ h = cc
edge_of completed _ h = cc
edge_of denied _ h = cc
edge_of aborted _ h = cc

-- The guard accepts a transition exactly when the relation has it.
pub ensure_transition-edge : (s t : PathwayState) → (ensure_transition s t ≡ ok tt) ↔ (s ⟶ t)
ensure_transition-edge s t = (edge_of s t, edge-accepted)
