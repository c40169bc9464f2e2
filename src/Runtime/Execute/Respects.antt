-- ===== src/Runtime/Execute/Respects.antt =====
-- runtime.py: `execute` keeps what its writes and its executor keep, on every branch.
use responsibility_pathway_r.Prelude.{String, Bool, true, false, Option, none, some, refl}
use responsibility_pathway_r.Errors.{Error}
use responsibility_pathway_r.Exec.Respects.{
  Order, Respects, Respects-bind, Respects-then, Respects-lift, Respects-if, Respects-pure,
  Respects-raise, Respects-try, Respects-require,
}
use responsibility_pathway_r.Value.{Value}
use responsibility_pathway_r.Models.{PathwayState, running}
use responsibility_pathway_r.Execution.{ExecutionRequest, ExecutionResult}
use responsibility_pathway_r.World.{World, M}
use responsibility_pathway_r.Runtime.{Config}
use responsibility_pathway_r.Runtime.Respects.{
  Writes, get_state-Respects, get_definition-Respects, guarded_move-Respects, transition-Respects,
}
use responsibility_pathway_r.Runtime.Finish.Respects.{
  ignore-Respects, finish_execution_pathway-Respects, persist-Respects,
}
use responsibility_pathway_r.Runtime.Execute.{
  start_execution_pathway, start_if_approved, discard_unstarted, start, call_executor, dispatch,
  recover_pre_dispatch, leave_unresolved, replay_result, execute_begun, check_binding,
  require_bound, query_bound_attempt, execute,
}

query_bound_attempt-Respects : (R : Order World) (id : String) → Respects R (query_bound_attempt id)
unfolding query_bound_attempt
query_bound_attempt-Respects R id = record { at = λ w. R.rel_refl w }

require_bound-Respects :
    (R : Order World) (id : String) (q : ExecutionRequest) → Respects R (require_bound id q)
unfolding require_bound
require_bound-Respects R id q =
    Respects-bind R _ _ (query_bound_attempt-Respects R id) (λ b. Respects-require R _ _)

module _ (c : Config) (R : Order World) (W : Writes c R) where
  start_execution_pathway-Respects :
      (id : String) (q : ExecutionRequest) (actor : String)
      → Respects R (start_execution_pathway c id q actor)
  unfolding start_execution_pathway
  start_execution_pathway-Respects id q actor =
      Respects-bind R _ _ (get_state-Respects R id)
        (λ s. guarded_move-Respects c R W id _ actor s running _ refl)

  start_if_approved-Respects :
      (id : String) (q : ExecutionRequest) (actor : String) (s : PathwayState)
      → Respects R (start_if_approved c id q actor s)
  unfolding start_if_approved
  start_if_approved-Respects id q actor s =
      Respects-if R _ _ _ (start_execution_pathway-Respects id q actor)
        (Respects-if R _ _ _ (Respects-raise R _) (Respects-pure R _))

  discard_unstarted-Respects :
      (id : String) (q : ExecutionRequest) (e : Error) → Respects R (discard_unstarted c id q e)
  unfolding discard_unstarted
  discard_unstarted-Respects id q e = Respects-bind R _ _ (get_state-Respects R id) (λ s.
      Respects-then R _ _
        (Respects-if R _ _ _ (ignore-Respects R _ (W.discarded q.attempt_id)) (Respects-pure R _))
        (Respects-raise R e))

  start-Respects :
      (id : String) (q : ExecutionRequest) (actor : String) → Respects R (start c id q actor)
  unfolding start
  start-Respects id q actor =
      Respects-try R _ _ _
        (Respects-bind R _ _ (get_state-Respects R id) (start_if_approved-Respects id q actor))
        (λ _. Respects-pure R _) (discard_unstarted-Respects id q)

  recover_pre_dispatch-Respects :
      (id : String) (q : ExecutionRequest) (actor : String)
      → Respects R (recover_pre_dispatch c id q actor)
  unfolding recover_pre_dispatch
  recover_pre_dispatch-Respects id q actor = Respects-bind R _ _ (W.discarded q.attempt_id) (λ d.
      Respects-then R _ _ (Respects-require R d _) (
        Respects-bind R _ _ (W.begun id q)
          (λ b. Respects-then R _ _ (Respects-require R _ _) (W.recorded _ _ _ _ refl))))

  leave_unresolved-Respects :
      (id : String) (q : ExecutionRequest) (actor : String) (s : PathwayState)
      → Respects R (leave_unresolved c id q actor s)
  unfolding leave_unresolved
  leave_unresolved-Respects id q actor s =
      Respects-then R _ _
        (Respects-if R _ _ _ (ignore-Respects R _ (transition-Respects c R W id _ actor _))
          (Respects-pure R _))
        (Respects-then R _ _ (W.recorded _ _ _ _ refl) (Respects-pure R _))

  replay_result-Respects :
      (id : String) (q : ExecutionRequest) (actor : String) (v : Value)
      → Respects R (replay_result c id q actor v)
  unfolding replay_result
  replay_result-Respects id q actor v = Respects-bind R _ _ (Respects-lift R _) (λ r.
      Respects-then R _ _ (finish_execution_pathway-Respects c R W id q actor r)
        (Respects-pure R _))

  check_binding-Respects :
      (id : String) (q : ExecutionRequest) (s : PathwayState) → Respects R (check_binding c id q s)
  unfolding check_binding
  check_binding-Respects id q s =
      Respects-if R _ _ _ (require_bound-Respects R id q) (Respects-pure R _)

  -- The executor, which may change the databases too (another process may run meanwhile).
  module _ (executor : ExecutionRequest → M ExecutionResult)
      (executor_respects : (q : ExecutionRequest) → Respects R (executor q)) where
    call_executor-Respects : (q : ExecutionRequest) → Respects R (call_executor c executor q)
    unfolding call_executor
    call_executor-Respects q =
        Respects-try R _ _ _ (executor_respects q) (Respects-pure R) (λ e. Respects-pure R _)

    dispatch-Respects :
        (id : String) (q : ExecutionRequest) (actor : String)
        → Respects R (dispatch c executor id q actor)
    unfolding dispatch
    dispatch-Respects id q actor =
        Respects-then R _ _ (start-Respects id q actor)
          (Respects-bind R _ _ (call_executor-Respects q) (persist-Respects c R W id q actor))

    execute_begun-Respects :
        (id : String) (q : ExecutionRequest) (actor : String) (b : Bool) (o : Option Value)
        → Respects R (execute_begun c executor id q actor b o)
    unfolding execute_begun
    execute_begun-Respects id q actor true (some v) = replay_result-Respects id q actor v
    execute_begun-Respects id q actor true none =
        Respects-bind R _ _ (get_state-Respects R id) (λ s.
          Respects-if R _ _ _
            (Respects-then R _ _ (recover_pre_dispatch-Respects id q actor)
              (dispatch-Respects id q actor))
            (leave_unresolved-Respects id q actor s))
    execute_begun-Respects id q actor false o = dispatch-Respects id q actor

    -- On every branch, returning or raising, `execute` keeps what its writes and its executor keep.
    pub execute-Respects :
        (id : String) (q : ExecutionRequest) (actor : String)
        → Respects R (execute c executor id q actor)
    unfolding execute
    execute-Respects id q actor = Respects-bind R _ _ (get_definition-Respects c R id) (λ d.
        Respects-then R _ _ (Respects-lift R _) (
          Respects-bind R _ _ (get_state-Respects R id) (λ s.
            Respects-then R _ _ (check_binding-Respects id q s) (
              Respects-bind R _ _ (W.begun id q)
                (λ b. execute_begun-Respects id q actor b.0 b.1.result_json)))))
