-- ===== src/Runtime/Effects.antt =====
-- runtime.py: what `_record` and the end of a change of state may have done to the tables, and the
-- event that they store.
use responsibility_pathway_r.Prelude.{String, ◌≡◌, refl, ◌⊎◌, inl, inr, suc}
use responsibility_pathway_r.Errors.{Result, ok, err}
use responsibility_pathway_r.Value.{Value, Fields, dict}
use responsibility_pathway_r.Models.{PathwayState}
use responsibility_pathway_r.Redaction.{redact}
use responsibility_pathway_r.World.{World, EvidenceEvent}
use responsibility_pathway_r.Evidence.{seal, build_event}
use responsibility_pathway_r.Store.{latest_event_hash}
use responsibility_pathway_r.Store.Effects.{
  Untouched, Appended, Moved, append_event_effect, transition_with_event_effect,
}
use responsibility_pathway_r.Runtime.{Config, record_event, move_with_event, transition_payload}

-- The event that a world stores for a payload: redacted, stamped, and chained to the latest one.
pub record Stored (c : Config) (id kind actor : String) (payload : Fields) (w : World)
    (e : EvidenceEvent) : Type 0 where
  pub safe : Value
  pub now : String
  pub redacted : redact c.env.casefold c.policy (dict payload) ≡ ok safe
  pub sealed : e ≡ seal c.env id kind actor safe now (latest_event_hash id w)

pub record_event_effect :
    (c : Config) (id kind actor : String) (payload : Fields) (w : World)
    → Untouched w (record_event c id kind actor payload w).1
      ⊎ ((e : EvidenceEvent) × Stored c id kind actor payload w e
          × Appended e w (record_event c id kind actor payload w).1)
unfolding record_event build_event
record_event_effect c id kind actor payload w =
    go (redact c.env.casefold c.policy (dict payload)) refl
  where
    go :
        (r : Result Value)
        → redact c.env.casefold c.policy (dict payload) ≡ r
        → Untouched w (record_event c id kind actor payload w).1
          ⊎ ((e : EvidenceEvent) × Stored c id kind actor payload w e
              × Appended e w (record_event c id kind actor payload w).1)
    go (err x) h = rw h (inl (refl, refl))
    go (ok v) h =
        let e = seal c.env id kind actor v (c.env.now w.ticks) (latest_event_hash id w) in
        elim (append_event_effect c.env e (record w { ticks = suc w.ticks })) [
          | inl same ↦ inl (rw h same)
          | inr app ↦ inr (
            e,
            record { safe = v; now = c.env.now w.ticks; redacted = h; sealed = refl },
            rw h app,
          )
        ]

-- The end of a change of state leaves pathways and events as they were, or does both: the pathway
-- was in the expected state and is in the target state, and the event that is appended is
-- redacted, stamped, and built on the latest hash of the pathway.
pub move_with_event_effect :
    (c : Config) (id kind actor : String) (s t : PathwayState) (more : Fields) (w : World)
    → Untouched w (move_with_event c id kind actor s t more w).1
      ⊎ ((e : EvidenceEvent) × Stored c id kind actor (transition_payload s t more) w e
          × Moved id s t e w (move_with_event c id kind actor s t more w).1)
unfolding move_with_event build_event
move_with_event_effect c id kind actor s t more w =
    go (redact c.env.casefold c.policy (dict (transition_payload s t more))) refl
  where
    go :
        (r : Result Value)
        → redact c.env.casefold c.policy (dict (transition_payload s t more)) ≡ r
        → Untouched w (move_with_event c id kind actor s t more w).1
          ⊎ ((e : EvidenceEvent) × Stored c id kind actor (transition_payload s t more) w e
              × Moved id s t e w (move_with_event c id kind actor s t more w).1)
    go (err x) h = rw h (inl (refl, refl))
    go (ok v) h =
        let e = seal c.env id kind actor v (c.env.now w.ticks) (latest_event_hash id w) in
        elim (transition_with_event_effect c.env id s t e (record w { ticks = suc w.ticks })) [
          | inl same ↦ inl (rw h same)
          | inr moved ↦ inr (
            e,
            record { safe = v; now = c.env.now w.ticks; redacted = h; sealed = refl },
            rw h moved,
          )
        ]
