-- ===== src/Audit/Writes.antt =====
-- What each write to the databases may do to the state of a pathway and to the log, together.
use responsibility_pathway_r.Prelude.{String, true, false, ◌≡◌, ◌∙◌, ap, ◌⊎◌, inl, inr, none, some}
use responsibility_pathway_r.Errors.{ok}
use responsibility_pathway_r.Value.{Fields, str}
use responsibility_pathway_r.Models.{PathwayState, pathway_state_value}
use responsibility_pathway_r.StateMachine.{ensure_transition}
use responsibility_pathway_r.StateMachine.Edge.{ensure_transition-edge}
use responsibility_pathway_r.Redaction.{is_sensitive}
use responsibility_pathway_r.Redaction.Keys.{lacks, redact-lacks, redact-keeps}
use responsibility_pathway_r.World.{World, PathwayRow, EvidenceEvent}
use responsibility_pathway_r.Store.{create_or_replay_pathway}
use responsibility_pathway_r.Store.Effects.{Untouched, Appended, Moved, Created, create_effect}
use responsibility_pathway_r.Attempts.Effects.{
  begin-Untouched, finish-Untouched, mark-Untouched, discard-Untouched,
}
use responsibility_pathway_r.Runtime.{Config, record_event, move_with_event, transition_payload}
use responsibility_pathway_r.Runtime.Effects.{Stored, record_event_effect, move_with_event_effect}
use responsibility_pathway_r.Runtime.Respects.{Writes}
use responsibility_pathway_r.Audit.Trace.{named_state, named_state-value, target_of}
use responsibility_pathway_r.Audit.Order.{
  Audited, AuditedOrder, Untouched-Audited, Appended-Audited, Created-Audited, Moved-Audited,
}
use responsibility_pathway_r.Evidence.{seal}

module _ (c : Config) (shown : is_sensitive c.env.casefold c.policy "to" ≡ false) where
  -- A stored event without a `to` names no target.
  recorded-silent :
      (id kind actor : String) (payload : Fields) (w : World) (e : EvidenceEvent)
      → lacks "to" payload ≡ true
      → Stored c id kind actor payload w e
      → target_of e ≡ none
  unfolding target_of seal
  recorded-silent id kind actor payload w e h st =
      let (fs, is, missing) =
        redact-lacks c.env.casefold c.policy "to" payload st.safe h st.redacted in
      rw (st.sealed, is) (ap named_state missing)

  -- A stored change of state names its target, and stands in the log of its pathway.
  moved-named :
      (id kind actor : String) (s t : PathwayState) (more : Fields) (w : World) (e : EvidenceEvent)
      → lacks "to" more ≡ true
      → Stored c id kind actor (transition_payload s t more) w e
      → target_of e ≡ some t
  unfolding target_of seal
  moved-named id kind actor s t more w e h st =
      let (fs, is, there) =
        redact-keeps c.env.casefold c.policy "from" "to" (pathway_state_value t)
          (str (pathway_state_value s)) more st.safe shown h st.redacted in
      rw (st.sealed, is) (ap named_state there ∙ named_state-value t)

  create-Audited : (w v : World) (r : PathwayRow) → Untouched w v ⊎ Created r w v → Audited w v
  create-Audited w v r (inl same) = Untouched-Audited w v same
  create-Audited w v r (inr new) = Created-Audited w v r new

  record_event-Audited :
      (id kind actor : String) (payload : Fields) (h : lacks "to" payload ≡ true) (w : World)
      → Untouched w (record_event c id kind actor payload w).1
        ⊎ ((e : EvidenceEvent) × Stored c id kind actor payload w e
            × Appended e w (record_event c id kind actor payload w).1)
      → Audited w (record_event c id kind actor payload w).1
  record_event-Audited id kind actor payload h w (inl same) = Untouched-Audited w _ same
  record_event-Audited id kind actor payload h w (inr (e, st, app)) =
      Appended-Audited w _ e (recorded-silent id kind actor payload w e h st) app

  move_with_event-Audited :
      (id kind actor : String) (s t : PathwayState) (more : Fields)
      (allowed : ensure_transition s t ≡ ok tt) (h : lacks "to" more ≡ true) (w : World)
      → Untouched w (move_with_event c id kind actor s t more w).1
        ⊎ ((e : EvidenceEvent) × Stored c id kind actor (transition_payload s t more) w e
            × Moved id s t e w (move_with_event c id kind actor s t more w).1)
      → Audited w (move_with_event c id kind actor s t more w).1
  unfolding seal
  move_with_event-Audited id kind actor s t more allowed h w (inl same) = Untouched-Audited w _ same
  move_with_event-Audited id kind actor s t more allowed h w (inr (e, st, mv)) =
      Moved-Audited id s t e w _ ((ensure_transition-edge s t).0 allowed)
        (ap (λ x. x.pathway_id) st.sealed) (moved-named id kind actor s t more w e h st) mv

  pub Writes-Audited : Writes c AuditedOrder
  Writes-Audited = record {
    create = λ d s key. record {
      at = λ w.
          create-Audited w (create_or_replay_pathway c.env d s key w).1 _
            (create_effect c.env d s key w);
    };
    recorded = λ id kind actor payload h. record {
      at = λ w.
          record_event-Audited id kind actor payload h w
            (record_event_effect c id kind actor payload w);
    };
    moved = λ id kind actor s t more allowed h. record {
      at = λ w.
          move_with_event-Audited id kind actor s t more allowed h w
            (move_with_event_effect c id kind actor s t more w);
    };
    begun = λ id q. record { at = λ w. Untouched-Audited w _ (begin-Untouched c.env id q w) };
    finished = λ a r. record { at = λ w. Untouched-Audited w _ (finish-Untouched c.env a r w) };
    marked =
        λ a reason. record { at = λ w. Untouched-Audited w _ (mark-Untouched c.env a reason w) };
    discarded = λ a. record { at = λ w. Untouched-Audited w _ (discard-Untouched c.env a w) };
  }
