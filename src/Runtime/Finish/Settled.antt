-- ===== src/Runtime/Finish/Settled.antt =====
-- runtime.py: what a result that is not a verified success does to the state of a pathway.
use responsibility_pathway_r.Prelude.{
  String, true, false, not, ◌≡◌, ◌≢◌, ◌∙◌, sym, subst, refl, inl, inr, none, some, List, any,
  update, arith, ◌==◌, eq_iff, Bool-cases,
}
use responsibility_pathway_r.Errors.{Error, attempt_result_persistence_error, value_error}
use responsibility_pathway_r.Exec.Respects.{
  Order, Respects, Respects-bind, Respects-then, Respects-lift, Respects-if, Respects-pure,
  Respects-raise, Respects-try, Respects-require,
}
use responsibility_pathway_r.Value.{Fields}
use responsibility_pathway_r.Models.{
  PathwayState, PathwayState-discrete, ◌is◌, running, completed, write_status_unknown,
}
use responsibility_pathway_r.StateMachine.{ensure_transition}
use responsibility_pathway_r.Authority.{authorize_transition}
use responsibility_pathway_r.Execution.{
  ExecutionStatus, succeeded, failed, ExecutionRequest, ExecutionResult,
}
use responsibility_pathway_r.World.{World, PathwayRow}
use responsibility_pathway_r.Store.{in_state, move}
use responsibility_pathway_r.Attempts.{finish, mark_result_persistence_unknown}
use responsibility_pathway_r.Attempts.Effects.{finish-Untouched, mark-Untouched}
use responsibility_pathway_r.Runtime.{
  Config, record_event, move_with_event, guarded_move, transition,
}
use responsibility_pathway_r.Runtime.Effects.{record_event_effect, move_with_event_effect}
use responsibility_pathway_r.Runtime.Respects.{get_state-Respects, get_definition-Respects}
use responsibility_pathway_r.Runtime.Finish.{
  Settlement, settle, stay_unknown, settlement, settlement_of, is_verified, finish_unknown,
  finish_settled, finish_by, finish_execution_pathway, store_fallback, persist_uncertain,
  persist_rejected, persist_recorded, persist,
}
use responsibility_pathway_r.Runtime.Finish.Respects.{ignore-Respects, fallback_failure-Respects}
use responsibility_pathway_r.Audit.States.{
  state_in, IdsUnique, IdsUnique-update, state_in-update_other, state_in-update_self,
}

-- The pathway is completed after only if it was completed before.
abbrev NotCompletedBy : String → World → World → Type 0
NotCompletedBy j w v =
    IdsUnique w.pathways
    → IdsUnique v.pathways
      × (state_in j v.pathways ≡ some completed → state_in j w.pathways ≡ some completed)

same_pathways : (j : String) (w v : World) → v.pathways ≡ w.pathways → NotCompletedBy j w v
same_pathways j w v p u =
    (subst IdsUnique (sym p) u, λ h. subst (λ rs. state_in j rs ≡ some completed) p h)

abbrev NotCompleted : String → Order World
NotCompleted j = record {
  rel = NotCompletedBy j;
  rel_refl = λ w. same_pathways j w w refl;
  rel_trans = λ w v x f g u. ((g (f u).0).0, λ h. (f u).1 ((g (f u).0).1 h));
}

moved_elsewhere :
    (j id : String) (s t : PathwayState) (rs : List PathwayRow)
    → (t is completed) ≡ false
    → IdsUnique rs
    → any (in_state id s) rs ≡ true
    → state_in j (update (in_state id s) (move t) rs) ≡ some completed
    → state_in j rs ≡ some completed
unfolding PathwayState-discrete
moved_elsewhere j id s t rs n u there h = elim (Bool-cases (id == j)) [
  | inl same ↦
      let after = (state_in-update_self id s t rs u there).1 in
      let id_j : id ≡ j = (eq_iff id j).0 same in
      let at : some t ≡ some completed =
        sym after
        ∙ subst (λ k. state_in k (update (in_state id s) (move t) rs) ≡ some completed) (sym id_j)
            h in
      ground arith
  | inr other ↦ sym (state_in-update_other id j s t rs other) ∙ h
]

module _ (c : Config) (j : String) where
  record_event-kept :
      (id kind actor : String) (payload : Fields)
      → Respects (NotCompleted j) (record_event c id kind actor payload)
  record_event-kept id kind actor payload = record {
    at = λ w. elim (record_event_effect c id kind actor payload w) [
      | inl same ↦ same_pathways j w (record_event c id kind actor payload w).1 same.0
      | inr (e, st, app) ↦ same_pathways j w (record_event c id kind actor payload w).1 app.0
    ];
  }

  move_with_event-kept :
      (id kind actor : String) (s t : PathwayState) (more : Fields)
      → (t is completed) ≡ false
      → Respects (NotCompleted j) (move_with_event c id kind actor s t more)
  move_with_event-kept id kind actor s t more n = record {
    at = λ w. elim (move_with_event_effect c id kind actor s t more w) [
      | inl same ↦ same_pathways j w (move_with_event c id kind actor s t more w).1 same.0
      | inr (e, st, mv) ↦ λ u. (
        subst IdsUnique (sym mv.1) (IdsUnique-update id s t w.pathways u),
        λ h.
            moved_elsewhere j id s t w.pathways n u mv.0
              (subst (λ rs. state_in j rs ≡ some completed) mv.1 h),
      )
    ];
  }

  guarded_move-kept :
      (id kind actor : String) (s t : PathwayState) (more : Fields)
      → (t is completed) ≡ false
      → Respects (NotCompleted j) (guarded_move c id kind actor s t more)
  unfolding guarded_move
  guarded_move-kept id kind actor s t more n =
      Respects-bind (NotCompleted j) _ _ (get_definition-Respects c (NotCompleted j) id) (λ d.
        Respects-then (NotCompleted j) _ _ (Respects-lift (NotCompleted j) (ensure_transition s t))
          (Respects-then (NotCompleted j) _ _
            (Respects-lift (NotCompleted j) (authorize_transition d s t actor))
            (move_with_event-kept id kind actor s t more n)))

  transition-kept :
      (id : String) (t : PathwayState) (actor reason : String)
      → (t is completed) ≡ false
      → Respects (NotCompleted j) (transition c id t actor reason)
  unfolding transition
  transition-kept id t actor reason n =
      Respects-then (NotCompleted j) _ _
        (Respects-require (NotCompleted j) (not (t is running)) value_error)
        (Respects-bind (NotCompleted j) _ _ (get_state-Respects (NotCompleted j) id) (λ s.
          Respects-then (NotCompleted j) _ _ (guarded_move-kept id _ actor s t _ n)
            (Respects-pure (NotCompleted j) t)))

  finish_unknown-kept :
      (id actor : String) (r : ExecutionResult) (s : PathwayState)
      → Respects (NotCompleted j) (finish_unknown c id actor r s)
  unfolding finish_unknown PathwayState-discrete
  finish_unknown-kept id actor r s =
      Respects-if (NotCompleted j) _ _ _ (Respects-pure (NotCompleted j) tt)
        (ignore-Respects (NotCompleted j) _ (transition-kept id write_status_unknown actor _ refl))

  finish_settled-kept :
      (id : String) (q : ExecutionRequest) (actor mover : String) (r : ExecutionResult)
      (s t : PathwayState) (reason : String)
      → (t is completed) ≡ false
      → Respects (NotCompleted j) (finish_settled c id q actor mover r s t reason)
  unfolding finish_settled
  finish_settled-kept id q actor mover r s t reason n =
      Respects-if (NotCompleted j) _ _ _ (Respects-pure (NotCompleted j) tt) (
        Respects-if (NotCompleted j) _ _ _
          (ignore-Respects (NotCompleted j) _ (transition-kept id t mover reason n))
          (Respects-if (NotCompleted j) _ _ _ (Respects-raise (NotCompleted j) _) (
            Respects-then (NotCompleted j) _ _
              (Respects-lift (NotCompleted j) (ensure_transition s t))
              (move_with_event-kept id _ actor s t _ n))))

  abbrev Spares : Settlement → Type 0
  Spares stay_unknown = Unit
  Spares (settle t reason b) = ((t is completed) ≡ false)

  finish_by-kept :
      (id : String) (q : ExecutionRequest) (actor : String) (r : ExecutionResult) (s : PathwayState)
      (k : Settlement)
      → Spares k
      → Respects (NotCompleted j) (finish_by c id q actor r s k)
  unfolding finish_by
  finish_by-kept id q actor r s stay_unknown n = finish_unknown-kept id actor r s
  finish_by-kept id q actor r s (settle t reason false) n =
      finish_settled-kept id q actor actor r s t reason n
  finish_by-kept id q actor r s (settle t reason true) n =
      Respects-bind (NotCompleted j) _ _ (get_definition-Respects c (NotCompleted j) id)
        (λ d. finish_settled-kept id q actor d.repair_owner r s t reason n)

  settlement_of-Spares :
      (k : ExecutionStatus) (r : ExecutionResult)
      → ((k ≡ succeeded) → is_verified r.readback ≡ false)
      → Spares (settlement_of k r)
  unfolding settlement_of PathwayState-discrete
  settlement_of-Spares succeeded r n = rw (n refl) tt
  settlement_of-Spares failed r n = refl
  settlement_of-Spares ExecutionStatus.write_status_unknown r n = tt

  module _ (id : String) (q : ExecutionRequest) (actor : String) (r : ExecutionResult)
      (unverified : (r.status ≡ succeeded) → is_verified r.readback ≡ false) where
    finish_execution_pathway-kept :
        Respects (NotCompleted j) (finish_execution_pathway c id q actor r)
    unfolding finish_execution_pathway settlement
    finish_execution_pathway-kept =
        Respects-bind (NotCompleted j) _ _ (get_state-Respects (NotCompleted j) id) (λ s.
          finish_by-kept id q actor r s (settlement_of r.status r)
            (settlement_of-Spares r.status r unverified))

    marked-kept :
        (a reason : String)
        → Respects (NotCompleted j) (mark_result_persistence_unknown c.env a reason)
    marked-kept a reason = record {
      at = λ w.
          same_pathways j w (mark_result_persistence_unknown c.env a reason w).1
            (mark-Untouched c.env a reason w).0;
    }

    persist_uncertain-kept : Respects (NotCompleted j) (persist_uncertain c id q actor)
    unfolding persist_uncertain store_fallback PathwayState-discrete
    persist_uncertain-kept =
        Respects-bind (NotCompleted j) _ _
          (Respects-try (NotCompleted j) _ _ _ (marked-kept q.attempt_id _)
            (λ _. Respects-pure (NotCompleted j) none) (fallback_failure-Respects (NotCompleted j)))
          (λ f. Respects-then (NotCompleted j) _ _ (record_event-kept id _ actor _) (
            Respects-then (NotCompleted j) _ _
              (transition-kept id write_status_unknown actor _ refl)
              (Respects-pure (NotCompleted j) _)))

    persist_rejected-kept :
        (e : Error) → Respects (NotCompleted j) (persist_rejected c id q actor e)
    unfolding persist_rejected
    persist_rejected-kept attempt_result_persistence_error = persist_uncertain-kept
    persist_rejected-kept _ = Respects-raise (NotCompleted j) _

    persist_recorded-kept : Respects (NotCompleted j) (persist_recorded c id q actor r)
    unfolding persist_recorded
    persist_recorded-kept = Respects-then (NotCompleted j) _ _ (record_event-kept id _ actor _) (
        Respects-then (NotCompleted j) _ _ finish_execution_pathway-kept
          (Respects-pure (NotCompleted j) r))

    -- A result that is not a success with a verified readback completes no pathway: whatever `execute`
    -- does with it after the executor answered, and whether that returns or raises, a pathway `j` that
    -- was not completed is not completed. The identifiers of the pathways are unique.
    pub persist-unverified :
        (w : World)
        → IdsUnique w.pathways
        → state_in j w.pathways ≢ some completed
        → state_in j (persist c id q actor r w).1.pathways ≢ some completed
    unfolding persist
    persist-unverified w u n h = n ((persist-kept.at w u).1 h)
      where
        persist-kept : Respects (NotCompleted j) (persist c id q actor r)
        persist-kept =
            Respects-try (NotCompleted j) _ _ _
              (record {
                at = λ v.
                    same_pathways j v (finish c.env q.attempt_id r v).1
                      (finish-Untouched c.env q.attempt_id r v).0;
              })
              (λ _. persist_recorded-kept) persist_rejected-kept
