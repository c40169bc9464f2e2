-- ===== src/StateMachine.antt =====
-- _generated_transitions.py and state_machine.py: the table of allowed transitions and its guard.
pub mod Edge
pub mod Formal
pub mod Reach
use responsibility_pathway_r.Prelude.{Bool, List, [], ◌∷◌, any}
use responsibility_pathway_r.Errors.{Result, Error, invalid_transition, ensure}
use responsibility_pathway_r.Models.{
  PathwayState, PathwayState-discrete, ◌is◌, proposed, awaiting_approval, approved, running, held,
  human_gate, stopped, partially_completed, write_status_unknown, repair_required, ready_to_resume,
  completed, denied, aborted,
}

-- `ALLOWED_TRANSITIONS`
unfoldable pub allowed_transitions : PathwayState → List PathwayState
allowed_transitions proposed = awaiting_approval ∷ approved ∷ denied ∷ []
allowed_transitions awaiting_approval = approved ∷ denied ∷ PathwayState.human_gate ∷ []
allowed_transitions approved = running ∷ held ∷ aborted ∷ []
allowed_transitions running =
    completed ∷ stopped ∷ partially_completed ∷ write_status_unknown ∷ repair_required ∷ []
allowed_transitions held = PathwayState.human_gate ∷ approved ∷ aborted ∷ []
allowed_transitions PathwayState.human_gate = approved ∷ denied ∷ aborted ∷ []
allowed_transitions stopped = repair_required ∷ aborted ∷ []
allowed_transitions partially_completed = repair_required ∷ []
allowed_transitions write_status_unknown = completed ∷ repair_required ∷ []
allowed_transitions repair_required = ready_to_resume ∷ aborted ∷ []
allowed_transitions ready_to_resume = running ∷ aborted ∷ []
allowed_transitions completed = []
allowed_transitions denied = []
allowed_transitions aborted = []

-- `TERMINAL_STATES`
unfoldable pub terminal_states : List PathwayState
terminal_states = completed ∷ denied ∷ aborted ∷ []

-- `state in states`
unfoldable pub is_member : PathwayState → List PathwayState → Bool
unfolding any PathwayState-discrete
is_member s states = any (λ t. s is t) states

unfoldable pub ensure_transition : PathwayState → PathwayState → Result (Unit {0})
unfolding is_member allowed_transitions
ensure_transition current target =
    ensure (is_member target (allowed_transitions current)) invalid_transition
