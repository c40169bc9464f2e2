-- ===== src/Audit/Trace.antt =====
-- The evidence log, read as the history of a pathway.
use responsibility_pathway_r.Prelude.{
  String, true, false, ◌≡◌, ap, ◌∙◌, ◌⊎◌, inl, inr, Option, none, some, List, [], ◌∷◌, ◌++◌, arith,
}
use responsibility_pathway_r.Errors.{Result, ok, err}
use responsibility_pathway_r.Value.{Value, str, dict, get}
use responsibility_pathway_r.Models.{
  PathwayState, write_status_unknown, completed, repair_required, running, pathway_state_of,
  pathway_state_value, pathway_state_of-value,
}
use responsibility_pathway_r.StateMachine.Edge.{◌⟶◌}
use responsibility_pathway_r.StateMachine.Reach.{after_unknown, ◌⟶*◌, here, next, reach_trans}
use responsibility_pathway_r.World.{EvidenceEvent}
use responsibility_pathway_r.Store.{of_pathway}

found_state : Result PathwayState → Option PathwayState
found_state (ok t) = some t
found_state (err _) = none

unfoldable pub named_state : Option Value → Option PathwayState
unfolding found_state
named_state (some (str s)) = found_state (pathway_state_of s)
named_state _ = none

pub named_state-value :
    (t : PathwayState) → named_state (some (str (pathway_state_value t))) ≡ some t
unfolding named_state found_state
named_state-value t = ap found_state (pathway_state_of-value t)

-- The state that an event says its pathway has entered.
unfoldable pub target_of : EvidenceEvent → Option PathwayState
unfolding named_state get
target_of e = elim e.payload [ dict fs ↦ named_state (get "to" fs) | _ ↦ none ]

-- How a log takes a pathway from a state to another: every event of the pathway that names a target
-- follows an allowed edge to it, and no other event changes the state.
pub data Trace (id : String) : PathwayState → List EvidenceEvent → PathwayState → Type 0 where
  done : {s : PathwayState} → Trace id s [] s
  elsewhere :
      {s t : PathwayState} {e : EvidenceEvent} {es : List EvidenceEvent}
      → (of_pathway id e ≡ false) ⊎ (target_of e ≡ none)
      → Trace id s es t
      → Trace id s (e ∷ es) t
  change :
      {s t u : PathwayState} {e : EvidenceEvent} {es : List EvidenceEvent}
      → of_pathway id e ≡ true
      → target_of e ≡ some u
      → s ⟶ u
      → Trace id u es t
      → Trace id s (e ∷ es) t

pub Trace-append :
    {id : String} {s t u : PathwayState} {es fs : List EvidenceEvent}
    → Trace id s es t
    → Trace id t fs u
    → Trace id s (es ++ fs) u
Trace-append done k = k
Trace-append (elsewhere q r) k = elsewhere q (Trace-append r k)
Trace-append (change o q e r) k = change o q e (Trace-append r k)

-- A trace is a sequence of transitions.
pub Trace-reach :
    {id : String} {s t : PathwayState} {es : List EvidenceEvent} → Trace id s es t → s ⟶* t
Trace-reach done = here
Trace-reach (elsewhere q r) = Trace-reach r
Trace-reach (change o q e r) = reach_trans (next here e) (Trace-reach r)

-- The log has an event of the pathway that names this state as its target.
abbrev pub Enters : String → PathwayState → List EvidenceEvent → Type 0
Enters id v [] = ⊥
Enters id v (e ∷ es) = ((of_pathway id e ≡ true) × (target_of e ≡ some v)) ⊎ Enters id v es

Trace-unknown :
    {id : String} {s t : PathwayState} {es : List EvidenceEvent}
    → Trace id s es t
    → (s ≡ write_status_unknown) ⊎ (s ≡ completed)
    → ((t ≡ write_status_unknown) ⊎ (t ≡ completed)) ⊎ Enters id repair_required es
Trace-unknown done h = inl h
Trace-unknown (elsewhere q r) h = elim (Trace-unknown r h) [ inl k ↦ inl k | inr k ↦ inr (inr k) ]
Trace-unknown (change o q e r) h = elim (after_unknown e h) [
  | inl c ↦ elim (Trace-unknown r (inr c)) [ inl k ↦ inl k | inr k ↦ inr (inr k) ]
  | inr k ↦ inr (inl (o, q ∙ ap some k))
]

-- From an unknown write to `running`, the log shows that a repair was required.
pub Trace-Enters :
    {id : String} {s t : PathwayState} {es : List EvidenceEvent}
    → Trace id s es t
    → s ≡ write_status_unknown
    → t ≡ running
    → Enters id repair_required es
Trace-Enters r h k = elim (Trace-unknown r (inl h)) [
  | inl (inl p) ↦ absurd (ground arith)
  | inl (inr p) ↦ absurd (ground arith)
  | inr v ↦ v
]
