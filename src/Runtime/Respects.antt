-- ===== src/Runtime/Respects.antt =====
-- runtime.py: relations between the state before and after that every operation keeps, from what the
-- writes to the databases keep. Here for registration and the generic transitions.
use responsibility_pathway_r.Prelude.{String, ◌≡◌, refl, Bool, true, false}
use responsibility_pathway_r.Errors.{Result, ok}
use responsibility_pathway_r.Exec.Respects.{
  Order, Respects, respects_rules, Respects-bind, Respects-then, Respects-guard, Respects-lift,
  Respects-pure,
}
use responsibility_pathway_r.Value.{Value, Fields, end, entry, str}
use responsibility_pathway_r.Models.{PathwayState}
use responsibility_pathway_r.Models.Definition.{PathwayDefinition}
use responsibility_pathway_r.StateMachine.{ensure_transition}
use responsibility_pathway_r.Inspection.{InspectionResult}
use responsibility_pathway_r.Rpe.{RpeResult}
use responsibility_pathway_r.Execution.{ExecutionRequest, ExecutionResult}
use responsibility_pathway_r.Redaction.Keys.{lacks}
use responsibility_pathway_r.World.{World}
use responsibility_pathway_r.Store.{create_or_replay_pathway, get_definition, get_state}
use responsibility_pathway_r.Attempts.{
  begin, finish, mark_result_persistence_unknown, discard_started,
}
use responsibility_pathway_r.Principal.{Principal}
use responsibility_pathway_r.Runtime.{
  Config, Opinion, principal_fields, record_event, move_with_event, record_registration, register,
  guarded_move, transition, transition_as_principal,
}

-- What each write to the databases keeps. An event of the log names a target state (`to`) only if it
-- is stored together with an allowed change of state.
pub record Writes (c : Config) (R : Order World) : Type 0 where
  pub create :
      (d : PathwayDefinition) (s : PathwayState) (key : String)
      → Respects R (create_or_replay_pathway c.env d s key)
  pub recorded :
      (id kind actor : String) (payload : Fields)
      → lacks "to" payload ≡ true
      → Respects R (record_event c id kind actor payload)
  pub moved :
      (id kind actor : String) (s t : PathwayState) (more : Fields)
      → ensure_transition s t ≡ ok tt
      → lacks "to" more ≡ true
      → Respects R (move_with_event c id kind actor s t more)
  pub begun : (id : String) (q : ExecutionRequest) → Respects R (begin c.env id q)
  pub finished : (a : String) (r : ExecutionResult) → Respects R (finish c.env a r)
  pub marked : (a reason : String) → Respects R (mark_result_persistence_unknown c.env a reason)
  pub discarded : (a : String) → Respects R (discard_started c.env a)

pub get_state-Respects : (R : Order World) (id : String) → Respects R (get_state id)
unfolding get_state
get_state-Respects R id = search respects_rules

pub get_definition-Respects :
    (c : Config) (R : Order World) (id : String) → Respects R (get_definition c.env id)
unfolding get_definition
get_definition-Respects c R id = search respects_rules

pub ruleset read_rules = (respects_rules, get_state-Respects, get_definition-Respects)

module _ (c : Config) (R : Order World) (W : Writes c R) where
  record_registration-Respects :
      (b : Bool) (d : PathwayDefinition) (i : InspectionResult) (o : Opinion) (s : PathwayState)
      (key : String)
      → Respects R (record_registration c b d i o s key)
  unfolding record_registration
  record_registration-Respects true d i o s key = search respects_rules
  record_registration-Respects false d i (decision, codes, raw) s key = W.recorded _ _ _ _ refl

  -- Registration keeps the relation.
  pub register-Respects :
      (evaluate : Value → Result RpeResult) (d : PathwayDefinition) (key : String)
      → Respects R (register c evaluate d key)
  unfolding register
  register-Respects evaluate d key = search (respects_rules, W.create, record_registration-Respects)

  -- So does every change of state behind the two guards.
  pub guarded_move-Respects :
      (id kind actor : String) (s t : PathwayState) (more : Fields)
      → lacks "to" more ≡ true
      → Respects R (guarded_move c id kind actor s t more)
  unfolding guarded_move
  guarded_move-Respects id kind actor s t more lacks =
      Respects-bind R _ _ (get_definition-Respects c R id) (λ d.
        Respects-guard R (ensure_transition s t) _ (λ _ allowed.
          Respects-then R _ _ (Respects-lift R _) (W.moved id kind actor s t more allowed lacks)))

  pub transition-Respects :
      (id : String) (t : PathwayState) (actor reason : String)
      → Respects R (transition c id t actor reason)
  unfolding transition
  transition-Respects id t actor reason = search (
    read_rules,
    λ (s : PathwayState).
        guarded_move-Respects id "state_transition" actor s t (entry "reason" (str reason) end)
          refl,
  )

  principal_recorded-Respects :
      (id actor : String) (p : Principal) (t : PathwayState)
      → Respects R
          (record_event c id "principal_authorized_transition" actor (principal_fields p t))
  principal_recorded-Respects id actor p t = W.recorded _ _ _ _ refl

  pub transition_as_principal-Respects :
      {C : Type 0} (resolve : C → Result Principal) (actor_for : Principal → Result String)
      (id : String) (t : PathwayState) (credential : C) (reason : String)
      → Respects R (transition_as_principal c resolve actor_for id t credential reason)
  unfolding transition_as_principal
  transition_as_principal-Respects resolve actor_for id t credential reason =
      Respects-bind R _ _ (Respects-lift R (resolve credential)) (λ p.
        Respects-bind R _ _ (Respects-lift R (actor_for p)) (λ actor.
          Respects-bind R _ _ (transition-Respects id t actor reason) (λ s.
            Respects-then R _ _ (principal_recorded-Respects id actor p t) (Respects-pure R s))))
