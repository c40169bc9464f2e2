-- ===== src/StateMachine/Reach.antt =====
-- Sequences of transitions.
use responsibility_pathway_r.Prelude.{◌≡◌, refl, ◌⊎◌, inl, inr, true, arith}
use responsibility_pathway_r.Models.{
  PathwayState, running, write_status_unknown, repair_required, completed,
}
use responsibility_pathway_r.StateMachine.{terminal_states, is_member}
use responsibility_pathway_r.StateMachine.Edge.{
  ◌⟶◌, proposed_awaiting_approval, write_status_unknown_completed,
  write_status_unknown_repair_required,
}

infix 40 ◌⟶*◌
pub data ◌⟶*◌ (s : PathwayState) : PathwayState → Type 0 where
  here : s ⟶* s
  next : {t u : PathwayState} → s ⟶* t → t ⟶ u → s ⟶* u

pub reach_trans : {s t u : PathwayState} → s ⟶* t → t ⟶* u → s ⟶* u
reach_trans r here = r
reach_trans r (next q e) = next (reach_trans r q) e

terminal_no_edge : {s t : PathwayState} → s ⟶ t → is_member s terminal_states ≡ true → ⊥
unfolding is_member terminal_states
terminal_no_edge proposed_awaiting_approval h = cc
terminal_no_edge _ h = cc

-- From a state of `TERMINAL_STATES` no sequence of transitions leads to another state.
pub terminal_absorbs : {s t : PathwayState} → is_member s terminal_states ≡ true → s ⟶* t → t ≡ s
terminal_absorbs h here = refl
terminal_absorbs h (next r e) = absurd (terminal_no_edge e (rw (terminal_absorbs h r) h))

-- The states that a sequence of transitions enters.
abbrev pub Visits : PathwayState → {s t : PathwayState} → s ⟶* t → Type 0
Visits v here = ⊥
Visits v (next {u = u} r e) = Visits v r ⊎ (u ≡ v)

pub after_unknown :
    {s t : PathwayState}
    → s ⟶ t
    → (s ≡ write_status_unknown) ⊎ (s ≡ completed)
    → (t ≡ completed) ⊎ (t ≡ repair_required)
after_unknown write_status_unknown_completed h = inl refl
after_unknown write_status_unknown_repair_required h = inr refl
after_unknown proposed_awaiting_approval h = ground arith
after_unknown _ h = ground arith

-- Where an unknown write stands until a repair is required.
unknown_path :
    {s t : PathwayState} (r : s ⟶* t)
    → s ≡ write_status_unknown
    → ((t ≡ write_status_unknown) ⊎ (t ≡ completed)) ⊎ Visits repair_required r
unknown_path here h = inl (inl h)
unknown_path (next r e) h = elim (unknown_path r h) [
  | inl at ↦ elim (after_unknown e at) [ inl c ↦ inl (inr c) | inr q ↦ inr (inr q) ]
  | inr v ↦ inr (inl v)
]

-- A write whose outcome is unknown is dispatched again only after a repair was required: every
-- sequence of transitions from `write_status_unknown` to `running` enters `repair_required`.
pub unknown_needs_repair :
    {s t : PathwayState} (r : s ⟶* t)
    → s ≡ write_status_unknown
    → t ≡ running
    → Visits repair_required r
unknown_needs_repair r h k = elim (unknown_path r h) [
  | inl (inl p) ↦ absurd (ground arith)
  | inl (inr p) ↦ absurd (ground arith)
  | inr v ↦ v
]
