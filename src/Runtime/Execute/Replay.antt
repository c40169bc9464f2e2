-- ===== src/Runtime/Execute/Replay.antt =====
-- runtime.py: when `execute` does not reach the executor.
use responsibility_pathway_r.Prelude.{
  String, true, false, ◌≡◌, ◌∙◌, sym, ap, subst, arith, refl, none, some,
}
use responsibility_pathway_r.Errors.{Error, Result, ok, err}
use responsibility_pathway_r.Exec.{proceed, lift, ◌>>=◌}
use responsibility_pathway_r.Value.{Value}
use responsibility_pathway_r.Models.{PathwayState, ◌is◌, approved}
use responsibility_pathway_r.Models.Definition.{PathwayDefinition}
use responsibility_pathway_r.Authority.{authorize_execution_access}
use responsibility_pathway_r.Execution.{ExecutionRequest, ExecutionResult}
use responsibility_pathway_r.World.{World, AttemptRecord, M}
use responsibility_pathway_r.Store.{get_definition, get_state}
use responsibility_pathway_r.Attempts.{begin}
use responsibility_pathway_r.Attempts.Effects.{begin-Untouched}
use responsibility_pathway_r.Audit.States.{state_in, get_state-state_in}
use responsibility_pathway_r.Env.{Env}
use responsibility_pathway_r.Runtime.{Config}
use responsibility_pathway_r.Runtime.Execute.{
  execute, execute_begun, check_binding, require_bound, query_bound_attempt,
}

module _ (c : Config) (id : String) (q : ExecutionRequest) (actor : String) (w : World) where
  -- If the definition is found and the actor has no access to its execution, then `execute`
  -- raises the error of the check and changes nothing, whatever the executor is.
  pub execute-unauthorized :
      (executor : ExecutionRequest → M ExecutionResult) (d : PathwayDefinition) (e : Error)
      → get_definition c.env id w ≡ (ok d, w)
      → authorize_execution_access d actor ≡ err e
      → execute c executor id q actor w ≡ (err e, w)
  unfolding execute
  execute-unauthorized executor d e found refused = rw (found, refused) refl

-- Two blocks agree if their rests agree on what the first step returns.
proceed-cong :
    {A B : Type 0} (p : Result A × World) (f g : A → M B)
    → ((a : A) (s : World) → p ≡ (ok a, s) → f a s ≡ g a s)
    → proceed p f ≡ proceed p g
proceed-cong (ok a, s) f g h = h a s refl
proceed-cong (err e, s) f g h = refl

-- A step that only reads.
abbrev Reads : {A : Type 0} → M A → Type 0
Reads m = (w : World) → (m w).1 ≡ w

Reads-cong :
    {A B : Type 0} (m : M A) (f g : A → M B) (w : World)
    → Reads m
    → ((a : A) → f a w ≡ g a w)
    → (m >>= f) w ≡ (m >>= g) w
Reads-cong m f g w reads h =
    proceed-cong (m w) f g
      (λ a s e. subst (λ v. f a v ≡ g a v) (sym (reads w) ∙ ap (λ p. p.1) e) (h a))

get_definition-Reads : (env : Env) (id : String) → Reads (get_definition env id)
unfolding get_definition
get_definition-Reads env id w = ground arith

get_state-Reads : (id : String) → Reads (get_state id)
unfolding get_state
get_state-Reads id w = ground arith

check_binding-Reads :
    (c : Config) (id : String) (q : ExecutionRequest) (s : PathwayState)
    → Reads (check_binding c id q s)
unfolding check_binding require_bound query_bound_attempt
check_binding-Reads c id q s w = ground arith

module _ (c : Config) (id : String) (q : ExecutionRequest) (actor : String) (w after : World)
    (a : AttemptRecord) (replayed : begin c.env id q w ≡ (ok (true, a), after))
    (executor other : ExecutionRequest → M ExecutionResult) where
  same_execution :
      execute_begun c executor id q actor true a.result_json after
        ≡ execute_begun c other id q actor true a.result_json after
      → execute c executor id q actor w ≡ execute c other id q actor w
  unfolding execute
  same_execution same =
      Reads-cong (get_definition c.env id) _ _ w (get_definition-Reads c.env id) (λ d.
        Reads-cong (lift (authorize_execution_access d actor)) _ _ w (λ v. refl)
          (λ u. Reads-cong (get_state id) _ _ w (get_state-Reads id) (λ s.
            Reads-cong (check_binding c id q s) _ _ w (check_binding-Reads c id q s)
              (λ u. rw replayed same))))

  -- If `begin` replays an attempt whose result is stored, then `execute` answers and writes the
  -- same whatever the executor is: the attempt is not sent again.
  pub execute-stored :
      (v : Value)
      → a.result_json ≡ some v
      → execute c executor id q actor w ≡ execute c other id q actor w
  unfolding execute_begun
  execute-stored v h = same_execution (rw h refl)

  -- If `begin` replays an attempt without a stored result, and the pathway is in a state other
  -- than approved, then `execute` answers and writes the same whatever the executor is.
  pub execute-unresolved :
      (s : PathwayState)
      → a.result_json ≡ none
      → state_in id w.pathways ≡ some s
      → (s is approved) ≡ false
      → execute c executor id q actor w ≡ execute c other id q actor w
  unfolding execute_begun
  execute-unresolved s h k n =
      let kept : after.pathways ≡ w.pathways =
        subst (λ p. p.1.pathways ≡ w.pathways) replayed (begin-Untouched c.env id q w).0 in
      let read : get_state id after ≡ (ok s, after) =
        get_state-state_in id after ∙ rw (kept, k) refl in
      same_execution (rw (h, read, n) refl)
