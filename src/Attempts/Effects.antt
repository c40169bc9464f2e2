-- ===== src/Attempts/Effects.antt =====
-- attempts.py: what the ledger's writes leave alone, and what they do to the attempts.
use responsibility_pathway_r.Prelude.{String, refl, Option, none, some, arith}
use responsibility_pathway_r.Execution.{ExecutionRequest, ExecutionResult}
use responsibility_pathway_r.Env.{Env}
use responsibility_pathway_r.World.{World, AttemptRecord, transaction}
use responsibility_pathway_r.Store.Effects.{Untouched}
use responsibility_pathway_r.Attempts.{
  begin, begin_row, finish, get_attempt, mark_result_persistence_unknown, discard_started,
}

begin_row-Untouched :
    (id : String) (q : ExecutionRequest) (fp : String) (o : Option AttemptRecord) (w : World)
    → Untouched w (begin_row id q fp o w).1
unfolding begin_row
begin_row-Untouched id q fp none w = (refl, refl)
begin_row-Untouched id q fp (some a) w = ground arith

pub begin-Untouched :
    (env : Env) (id : String) (q : ExecutionRequest) (w : World) → Untouched w (begin env id q w).1
unfolding begin transaction
begin-Untouched env id q w = ground arith

pub finish-Untouched :
    (env : Env) (a : String) (r : ExecutionResult) (w : World) → Untouched w (finish env a r w).1
unfolding finish transaction get_attempt
finish-Untouched env a r w = ground arith

pub mark-Untouched :
    (env : Env) (a reason : String) (w : World)
    → Untouched w (mark_result_persistence_unknown env a reason w).1
unfolding mark_result_persistence_unknown transaction get_attempt
mark-Untouched env a reason w = ground arith

pub discard-Untouched :
    (env : Env) (a : String) (w : World) → Untouched w (discard_started env a w).1
unfolding discard_started transaction
discard-Untouched env a w = ground arith
