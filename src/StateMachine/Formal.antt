-- ===== src/StateMachine/Formal.antt =====
-- The guard of state_machine.py against formal/rprFormal/State.lean.
use responsibility_pathway_r.Prelude.{Bool, true, false, ◌≡◌, refl, ◌↔◌, ◌⊎◌, inl, inr, any}
use responsibility_pathway_r.Errors.{ok, err, invalid_transition}
use responsibility_pathway_r.Models.{
  PathwayState, proposed, awaiting_approval, approved, running, held, stopped, partially_completed,
  write_status_unknown, repair_required, ready_to_resume, completed, denied, aborted,
}
use responsibility_pathway_r.StateMachine.{ensure_transition, is_member, terminal_states}
use responsibility_pathway_r.StateMachine.Edge.{
  ◌⟶◌, ensure_transition-edge, approved_aborted, approved_held, approved_running,
  awaiting_approval_approved, awaiting_approval_denied, awaiting_approval_human_gate, held_aborted,
  held_approved, held_human_gate, human_gate_aborted, human_gate_approved, human_gate_denied,
  partially_completed_repair_required, proposed_approved, proposed_awaiting_approval,
  proposed_denied, ready_to_resume_aborted, ready_to_resume_running, repair_required_aborted,
  repair_required_ready_to_resume, running_completed, running_partially_completed,
  running_repair_required, running_stopped, running_write_status_unknown, stopped_aborted,
  stopped_repair_required, write_status_unknown_completed, write_status_unknown_repair_required,
}

-- `terminal` of State.lean
unfoldable pub terminal : PathwayState → Bool
terminal completed = true
terminal denied = true
terminal aborted = true
terminal _ = false

-- `allowed` of State.lean
unfoldable pub allowed : PathwayState → PathwayState → Bool
allowed proposed awaiting_approval = true
allowed proposed approved = true
allowed proposed denied = true
allowed awaiting_approval approved = true
allowed awaiting_approval denied = true
allowed awaiting_approval PathwayState.human_gate = true
allowed approved running = true
allowed approved held = true
allowed approved aborted = true
allowed running completed = true
allowed running stopped = true
allowed running partially_completed = true
allowed running write_status_unknown = true
allowed running repair_required = true
allowed held PathwayState.human_gate = true
allowed held approved = true
allowed held aborted = true
allowed PathwayState.human_gate approved = true
allowed PathwayState.human_gate denied = true
allowed PathwayState.human_gate aborted = true
allowed stopped repair_required = true
allowed stopped aborted = true
allowed partially_completed repair_required = true
allowed write_status_unknown completed = true
allowed write_status_unknown repair_required = true
allowed repair_required ready_to_resume = true
allowed repair_required aborted = true
allowed ready_to_resume running = true
allowed ready_to_resume aborted = true
allowed _ _ = false

allowed_edge : {s t : PathwayState} → s ⟶ t → allowed s t ≡ true
unfolding allowed
allowed_edge proposed_awaiting_approval = refl
allowed_edge proposed_approved = refl
allowed_edge proposed_denied = refl
allowed_edge awaiting_approval_approved = refl
allowed_edge awaiting_approval_denied = refl
allowed_edge awaiting_approval_human_gate = refl
allowed_edge approved_running = refl
allowed_edge approved_held = refl
allowed_edge approved_aborted = refl
allowed_edge running_completed = refl
allowed_edge running_stopped = refl
allowed_edge running_partially_completed = refl
allowed_edge running_write_status_unknown = refl
allowed_edge running_repair_required = refl
allowed_edge held_human_gate = refl
allowed_edge held_approved = refl
allowed_edge held_aborted = refl
allowed_edge human_gate_approved = refl
allowed_edge human_gate_denied = refl
allowed_edge human_gate_aborted = refl
allowed_edge stopped_repair_required = refl
allowed_edge stopped_aborted = refl
allowed_edge partially_completed_repair_required = refl
allowed_edge write_status_unknown_completed = refl
allowed_edge write_status_unknown_repair_required = refl
allowed_edge repair_required_ready_to_resume = refl
allowed_edge repair_required_aborted = refl
allowed_edge ready_to_resume_running = refl
allowed_edge ready_to_resume_aborted = refl

edge_allowed : (s t : PathwayState) → allowed s t ≡ true → s ⟶ t
unfolding allowed
edge_allowed proposed awaiting_approval h = proposed_awaiting_approval
edge_allowed proposed approved h = proposed_approved
edge_allowed proposed denied h = proposed_denied
edge_allowed proposed _ h = cc
edge_allowed awaiting_approval approved h = awaiting_approval_approved
edge_allowed awaiting_approval PathwayState.human_gate h = awaiting_approval_human_gate
edge_allowed awaiting_approval denied h = awaiting_approval_denied
edge_allowed awaiting_approval _ h = cc
edge_allowed approved running h = approved_running
edge_allowed approved held h = approved_held
edge_allowed approved aborted h = approved_aborted
edge_allowed approved _ h = cc
edge_allowed running stopped h = running_stopped
edge_allowed running partially_completed h = running_partially_completed
edge_allowed running write_status_unknown h = running_write_status_unknown
edge_allowed running repair_required h = running_repair_required
edge_allowed running completed h = running_completed
edge_allowed running _ h = cc
edge_allowed held approved h = held_approved
edge_allowed held PathwayState.human_gate h = held_human_gate
edge_allowed held aborted h = held_aborted
edge_allowed held _ h = cc
edge_allowed PathwayState.human_gate approved h = human_gate_approved
edge_allowed PathwayState.human_gate denied h = human_gate_denied
edge_allowed PathwayState.human_gate aborted h = human_gate_aborted
edge_allowed PathwayState.human_gate _ h = cc
edge_allowed stopped repair_required h = stopped_repair_required
edge_allowed stopped aborted h = stopped_aborted
edge_allowed stopped _ h = cc
edge_allowed partially_completed repair_required h = partially_completed_repair_required
edge_allowed partially_completed _ h = cc
edge_allowed write_status_unknown repair_required h = write_status_unknown_repair_required
edge_allowed write_status_unknown completed h = write_status_unknown_completed
edge_allowed write_status_unknown _ h = cc
edge_allowed repair_required ready_to_resume h = repair_required_ready_to_resume
edge_allowed repair_required aborted h = repair_required_aborted
edge_allowed repair_required _ h = cc
edge_allowed ready_to_resume running h = ready_to_resume_running
edge_allowed ready_to_resume aborted h = ready_to_resume_aborted
edge_allowed ready_to_resume _ h = cc
edge_allowed completed _ h = cc
edge_allowed denied _ h = cc
edge_allowed aborted _ h = cc

terminal-same : (s : PathwayState) → is_member s terminal_states ≡ terminal s
unfolding is_member terminal_states terminal any
terminal-same proposed = refl
terminal-same awaiting_approval = refl
terminal-same approved = refl
terminal-same running = refl
terminal-same held = refl
terminal-same PathwayState.human_gate = refl
terminal-same stopped = refl
terminal-same partially_completed = refl
terminal-same write_status_unknown = refl
terminal-same repair_required = refl
terminal-same ready_to_resume = refl
terminal-same completed = refl
terminal-same denied = refl
terminal-same aborted = refl

terminal_dead_end :
    (s t : PathwayState)
    → ((terminal s ≡ false) × (u : PathwayState) × (ensure_transition s u ≡ ok tt))
      ⊎ ((terminal s ≡ true) × (ensure_transition s t ≡ err invalid_transition))
unfolding terminal ensure_transition
terminal_dead_end proposed t = inl (refl, denied, refl)
terminal_dead_end awaiting_approval t = inl (refl, denied, refl)
terminal_dead_end approved t = inl (refl, aborted, refl)
terminal_dead_end running t = inl (refl, completed, refl)
terminal_dead_end held t = inl (refl, aborted, refl)
terminal_dead_end PathwayState.human_gate t = inl (refl, aborted, refl)
terminal_dead_end stopped t = inl (refl, aborted, refl)
terminal_dead_end partially_completed t = inl (refl, repair_required, refl)
terminal_dead_end write_status_unknown t = inl (refl, completed, refl)
terminal_dead_end repair_required t = inl (refl, aborted, refl)
terminal_dead_end ready_to_resume t = inl (refl, aborted, refl)
terminal_dead_end completed t = inr (refl, refl)
terminal_dead_end denied t = inr (refl, refl)
terminal_dead_end aborted t = inr (refl, refl)

-- The guard accepts exactly the transitions that `allowed` of the formal model in
-- formal/rprFormal/State.lean allows; the terminal states of the table are exactly those of the formal
-- `terminal`; out of a terminal state the guard refuses every transition, and out of any other state it
-- accepts one.
pub ensure_transition-allowed :
    (s t : PathwayState)
    → ((ensure_transition s t ≡ ok tt) ↔ (allowed s t ≡ true))
      × (is_member s terminal_states ≡ terminal s)
      × (((terminal s ≡ false) × (u : PathwayState) × (ensure_transition s u ≡ ok tt))
          ⊎ ((terminal s ≡ true) × (ensure_transition s t ≡ err invalid_transition)))
ensure_transition-allowed s t = (
  (
    λ h. allowed_edge ((ensure_transition-edge s t).0 h),
    λ h. (ensure_transition-edge s t).1 (edge_allowed s t h),
  ),
  terminal-same s,
  terminal_dead_end s t,
)
