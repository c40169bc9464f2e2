-- ===== src/Repair.antt =====
-- repair.py: RepairCoordinator.
pub mod Respects
use responsibility_pathway_r.Prelude.{
  String, Bool, false, not, ◌&&◌, ◌||◌, Option, none, some, List, [], ◌∷◌, ◌==◌, is_blank, is_some,
  reverse, if◌then◌else◌,
}
use responsibility_pathway_r.Errors.{
  Error, Result, ok, err, value_error, key_error, authority_error,
}
use responsibility_pathway_r.Exec.{pure, raise, lift, gets, require, try, ◌>>=◌, ◌>>◌}
use responsibility_pathway_r.Value.{Value, Fields, null, str, dict, end, entry, get, no_fields}
use responsibility_pathway_r.Models.{PathwayState, running, ready_to_resume, aborted}
use responsibility_pathway_r.Models.Definition.{PathwayDefinition}
use responsibility_pathway_r.StateMachine.{ensure_transition}
use responsibility_pathway_r.Authority.{authorize_transition}
use responsibility_pathway_r.World.{World, EvidenceEvent, AttemptRecord, M}
use responsibility_pathway_r.Store.{get_definition, get_state, events_of}
use responsibility_pathway_r.Attempts.{get_attempt}
use responsibility_pathway_r.Runtime.{Config, move_with_event, guarded_move}

pub record CompensationRecord : Type 0 where
  pub action : String
  pub authority : String
  pub outcome : String
  pub evidence : Fields

-- `None if compensation is None else compensation.to_dict()`
unfoldable pub compensation_value : Option CompensationRecord → Result Value
compensation_value none = ok null
compensation_value (some r) =
    if is_blank r.action || is_blank r.authority || is_blank r.outcome
    then err value_error
    else ok (
        dict (
          entry "action" (str r.action) (
            entry "authority" (str r.authority)
              (entry "outcome" (str r.outcome) (entry "evidence" (dict r.evidence) end)))))

-- The prior attempt is a finished and failed attempt of this pathway.
unfoldable pub require_failed : String → AttemptRecord → M (Unit {0})
require_failed pathway_id a = do
  require (a.pathway_id == pathway_id && is_some a.result_json) value_error
  require (a.status == "failed") value_error

abbrev payload_fields : Value → Fields
payload_fields (dict fs) = fs
payload_fields _ = end

-- The prior attempt that the latest completed repair names.
repaired_attempt : List EvidenceEvent → Option Value
unfolding get
repaired_attempt [] = none
repaired_attempt (e ∷ older) =
    let rest = repaired_attempt older in
    if e.event_type == "repair_completed"
    then get "prior_attempt_id" (payload_fields e.payload)
    else rest

abbrev names_attempt : String → Option Value → Bool
names_attempt attempt_id (some (str s)) = s == attempt_id
names_attempt attempt_id _ = false

unfoldable pub latest_repair_is : String → String → World → Bool
unfolding repaired_attempt
latest_repair_is pathway_id attempt_id w =
    names_attempt attempt_id (repaired_attempt (reverse (events_of pathway_id w)))

-- `try: get(next) except KeyError: pass else: raise ValueError`
absent_attempt : Error → M (Unit {0})
absent_attempt key_error = pure tt
absent_attempt e = raise e

unfoldable pub require_absent : String → M (Unit {0})
unfolding absent_attempt
require_absent attempt_id = try (get_attempt attempt_id) (λ _. raise value_error) absent_attempt

-- The checks of the arguments, before anything is read.
require_repair_arguments : String → Fields → M (Unit {0})
require_repair_arguments prior repair_evidence = do
  require (not (is_blank prior)) value_error
  require (not (no_fields repair_evidence)) value_error

require_resume_arguments : String → String → M (Unit {0})
require_resume_arguments prior next = do
  require (not (is_blank prior || is_blank next)) value_error
  require (not (prior == next)) value_error

require_residuals : Fields → M (Unit {0})
require_residuals residuals = require (not (no_fields residuals)) value_error

require_residual_owner : PathwayDefinition → String → M (Unit {0})
require_residual_owner d actor =
    require (not (is_blank actor) && actor == d.residual_owner) authority_error

require_latest_repair : String → String → M (Unit {0})
unfolding latest_repair_is
require_latest_repair pathway_id prior = do
  repaired ← gets (latest_repair_is pathway_id prior)
  require repaired value_error

module _ (c : Config) where
  close_repair :
      String
      → String
      → PathwayState
      → String
      → Fields
      → String
      → Option CompensationRecord
      → M (Unit {0})
  unfolding compensation_value
  close_repair pathway_id actor current prior repair_evidence reason compensation = do
    d ← get_definition c.env pathway_id
    lift (ensure_transition current ready_to_resume)
    lift (authorize_transition d current ready_to_resume actor)
    v ← lift (compensation_value compensation)
    move_with_event c pathway_id "repair_completed" actor current ready_to_resume (
        entry "prior_attempt_id" (str prior) (
          entry "repair_evidence" (dict repair_evidence)
            (entry "compensation" v (entry "reason" (str reason) end))))

  -- `complete_repair`
  unfoldable pub complete_repair :
      String → String → String → Fields → String → Option CompensationRecord → M PathwayState
  unfolding require_repair_arguments require_failed close_repair
  complete_repair pathway_id actor prior repair_evidence reason compensation = do
    require_repair_arguments prior repair_evidence
    a ← get_attempt prior
    require_failed pathway_id a
    current ← get_state pathway_id
    close_repair pathway_id actor current prior repair_evidence reason compensation
    pure ready_to_resume

  -- `resume`
  unfoldable pub resume : String → String → String → String → String → M PathwayState
  unfolding require_resume_arguments require_failed require_absent require_latest_repair
  resume pathway_id actor prior next reason = do
    require_resume_arguments prior next
    a ← get_attempt prior
    require_failed pathway_id a
    require_absent next
    require_latest_repair pathway_id prior
    current ← get_state pathway_id
    guarded_move c pathway_id "pathway_resumed" actor current running (
        entry "prior_attempt_id" (str prior)
          (entry "next_attempt_id" (str next) (entry "reason" (str reason) end)))
    pure running

  close_with_residuals : String → String → PathwayState → Fields → String → M (Unit {0})
  unfolding require_residual_owner
  close_with_residuals pathway_id actor current residuals reason = do
    d ← get_definition c.env pathway_id
    lift (ensure_transition current aborted)
    require_residual_owner d actor
    move_with_event c pathway_id "residual_closure" actor current aborted (
        entry "residual_owner" (str d.residual_owner)
          (entry "residuals" (dict residuals) (entry "reason" (str reason) end)))

  -- `abort_with_residuals`
  unfoldable pub abort_with_residuals : String → String → Fields → String → M PathwayState
  unfolding require_residuals close_with_residuals
  abort_with_residuals pathway_id actor residuals reason = do
    require_residuals residuals
    current ← get_state pathway_id
    close_with_residuals pathway_id actor current residuals reason
    pure aborted
