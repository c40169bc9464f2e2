-- ===== src/Audit/Calls.antt =====
-- Whole runs: any calls of the runtime and of the repair coordinator, one after another, whether they
-- return or raise.
use responsibility_pathway_r.Prelude.{
  refl, arith, ◌++◌, true, String, false, ◌≡◌, Option, some, List, [], ◌∷◌, ◌∙◌, ap,
}
use responsibility_pathway_r.Errors.{Result}
use responsibility_pathway_r.Exec.Respects.{Order, Respects}
use responsibility_pathway_r.Value.{Value, Fields}
use responsibility_pathway_r.Models.{PathwayState, write_status_unknown, repair_required, running}
use responsibility_pathway_r.Models.Definition.{PathwayDefinition}
use responsibility_pathway_r.StateMachine.{is_member, terminal_states}
use responsibility_pathway_r.StateMachine.Reach.{terminal_absorbs}
use responsibility_pathway_r.Rpe.{RpeResult}
use responsibility_pathway_r.Redaction.{is_sensitive}
use responsibility_pathway_r.Execution.{ExecutionRequest, ExecutionResult, ReconciliationResult}
use responsibility_pathway_r.World.{World, AttemptRecord, EvidenceEvent, M}
use responsibility_pathway_r.Principal.{Principal}
use responsibility_pathway_r.Runtime.{Config, register, transition, transition_as_principal}
use responsibility_pathway_r.Runtime.Execute.{execute}
use responsibility_pathway_r.Runtime.Reconcile.{reconcile, reconcile_started_attempt}
use responsibility_pathway_r.Runtime.Respects.{
  Writes, register-Respects, transition-Respects, transition_as_principal-Respects,
}
use responsibility_pathway_r.Runtime.Execute.Respects.{execute-Respects}
use responsibility_pathway_r.Runtime.Reconcile.Respects.{
  reconcile-Respects, reconcile_started_attempt-Respects,
}
use responsibility_pathway_r.Repair.{
  CompensationRecord, complete_repair, resume, abort_with_residuals,
}
use responsibility_pathway_r.Repair.Respects.{
  complete_repair-Respects, resume-Respects, abort_with_residuals-Respects,
}
use responsibility_pathway_r.Audit.States.{state_in, IdsUnique}
use responsibility_pathway_r.Audit.Trace.{Trace-reach, Enters, Trace-Enters}
use responsibility_pathway_r.Audit.Order.{Explained, Audited, AuditedOrder}
use responsibility_pathway_r.Audit.Writes.{Writes-Audited}

-- A call, with its arguments and with the code of the caller that it runs.
pub data Call : Type 0 where
  registering : (Value → Result RpeResult) → PathwayDefinition → String → Call
  moving : String → PathwayState → String → String → Call
  moving_as :
      (String → Result Principal)
      → (Principal → Result String)
      → String
      → PathwayState
      → String
      → String
      → Call
  executing : (ExecutionRequest → M ExecutionResult) → String → ExecutionRequest → String → Call
  reconciling :
      (ExecutionRequest → AttemptRecord → M ReconciliationResult)
      → String
      → ExecutionRequest
      → String
      → Call
  reconciling_attempt :
      (ExecutionRequest → AttemptRecord → M ReconciliationResult) → String → ExecutionRequest → Call
  repairing : String → String → String → Fields → String → Option CompensationRecord → Call
  resuming : String → String → String → String → String → Call
  aborting : String → String → Fields → String → Call

module _ (c : Config) where
  -- The databases after a call.
  abbrev pub run_call : Call → World → World
  run_call (registering evaluate d key) w = (register c evaluate d key w).1
  run_call (moving id t actor reason) w = (transition c id t actor reason w).1
  run_call (moving_as resolve actor_for id t credential reason) w =
      (transition_as_principal c resolve actor_for id t credential reason w).1
  run_call (executing executor id q actor) w = (execute c executor id q actor w).1
  run_call (reconciling strategy id q actor) w = (reconcile c strategy id q actor w).1
  run_call (reconciling_attempt strategy id q) w = (reconcile_started_attempt c strategy id q w).1
  run_call (repairing id actor prior evidence reason k) w =
      (complete_repair c id actor prior evidence reason k w).1
  run_call (resuming id actor prior next reason) w = (resume c id actor prior next reason w).1
  run_call (aborting id actor residuals reason) w =
      (abort_with_residuals c id actor residuals reason w).1

  abbrev pub run_calls : List Call → World → World
  run_calls [] w = w
  run_calls (k ∷ ks) w = run_calls ks (run_call k w)

-- What the code of the callers keeps of the databases, if it reaches them at all.
abbrev pub Behaves : Order World → Call → Type 0
Behaves R (executing executor id q actor) = (p : ExecutionRequest) → Respects R (executor p)
Behaves R (reconciling strategy id q actor) =
    (p : ExecutionRequest) (a : AttemptRecord) → Respects R (strategy p a)
Behaves R (reconciling_attempt strategy id q) =
    (p : ExecutionRequest) (a : AttemptRecord) → Respects R (strategy p a)
Behaves R _ = Unit

abbrev pub AllBehave : Order World → List Call → Type 0
AllBehave R [] = Unit
AllBehave R (k ∷ ks) = Behaves R k × AllBehave R ks

module _ (c : Config) (R : Order World) (W : Writes c R) where
  run_call-rel : (k : Call) (w : World) → Behaves R k → R.rel w (run_call c k w)
  run_call-rel (registering evaluate d key) w b = (register-Respects c R W evaluate d key).at w
  run_call-rel (moving id t actor reason) w b = (transition-Respects c R W id t actor reason).at w
  run_call-rel (moving_as resolve actor_for id t credential reason) w b =
      (transition_as_principal-Respects c R W resolve actor_for id t credential reason).at w
  run_call-rel (executing executor id q actor) w b =
      (execute-Respects c R W executor b id q actor).at w
  run_call-rel (reconciling strategy id q actor) w b =
      (reconcile-Respects c R W strategy b id q actor).at w
  run_call-rel (reconciling_attempt strategy id q) w b =
      (reconcile_started_attempt-Respects c R W strategy b id q).at w
  run_call-rel (repairing id actor prior evidence reason k) w b =
      (complete_repair-Respects c R W id actor prior evidence reason k).at w
  run_call-rel (resuming id actor prior next reason) w b =
      (resume-Respects c R W id actor prior next reason).at w
  run_call-rel (aborting id actor residuals reason) w b =
      (abort_with_residuals-Respects c R W id actor residuals reason).at w

  -- What every write keeps, every run keeps.
  pub run_calls-rel : (ks : List Call) (w : World) → AllBehave R ks → R.rel w (run_calls c ks w)
  run_calls-rel [] w b = R.rel_refl w
  run_calls-rel (k ∷ ks) w b =
      R.rel_trans w (run_call c k w) (run_calls c ks (run_call c k w)) (run_call-rel k w b.0)
        (run_calls-rel ks (run_call c k w) b.1)

module _ (c : Config) (shown : is_sensitive c.env.casefold c.policy "to" ≡ false) (ks : List Call)
    (behave : AllBehave AuditedOrder ks) (w : World) (unique : IdsUnique w.pathways) where
  -- Let the policy not hide the field `to`, let the identifiers of the pathways be unique, and
  -- let the executors and strategies of the calls keep `Audited` themselves. Then after any
  -- sequence of calls, whether they return or raise and wherever a write fails: the identifiers
  -- are unique still, the log is the earlier log with events appended, and these events take
  -- every pathway that was there from the state it had to the state it has, every event of it
  -- that names a target by an allowed edge to that target.
  pub run_calls-Explained :
      IdsUnique (run_calls c ks w).pathways
      × ((es : List EvidenceEvent) × Explained w (run_calls c ks w) es)
  unfolding Audited
  run_calls-Explained = run_calls-rel c AuditedOrder (Writes-Audited c shown) ks w behave unique

  -- Under the conditions of `run_calls-Explained`: after any sequence of calls, a pathway that
  -- was in a terminal state (completed, denied or aborted) is in that state.
  pub run_calls-terminal :
      (id : String) (s : PathwayState)
      → is_member s terminal_states ≡ true
      → state_in id w.pathways ≡ some s
      → state_in id (run_calls c ks w).pathways ≡ some s
  run_calls-terminal id s terminal h =
      let (u, explained) = run_calls-Explained in
      let (t, after, trace) = explained.1.1 id s h in
      after ∙ ap some (terminal_absorbs terminal (Trace-reach trace))

  -- Under the conditions of `run_calls-Explained`: if a pathway whose write is of unknown outcome
  -- is running after any sequence of calls, then the log has a new event of that pathway which
  -- names `repair_required` as the state entered.
  pub run_calls-unknown :
      (id : String)
      → state_in id w.pathways ≡ some write_status_unknown
      → state_in id (run_calls c ks w).pathways ≡ some running
      → (es : List EvidenceEvent) × ((run_calls c ks w).events ≡ w.events ++ es)
        × Enters id repair_required es
  run_calls-unknown id h k =
      let (u, found) = run_calls-Explained in
      let (t, after, trace) = found.1.1 id write_status_unknown h in
      let runs : t ≡ running = ground (arith, after, k) in
      (found.0, found.1.0, Trace-Enters trace refl runs)
