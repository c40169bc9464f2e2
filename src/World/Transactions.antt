-- ===== src/World/Transactions.antt =====
-- What a transaction that returns has done.
use responsibility_pathway_r.Prelude.{Bool-cases, inl, inr, suc, ◌≡◌, arith}
use responsibility_pathway_r.Errors.{Result, ok, err}
use responsibility_pathway_r.Env.{Env}
use responsibility_pathway_r.World.{World, M, rollback, transaction}

rollback-ok :
    {A : Type 0} (w : World) (p : Result A × World) (a : A) (v : World)
    → rollback w p ≡ (ok a, v)
    → p ≡ (ok a, v)
rollback-ok w (ok b, x) a v h = h
rollback-ok w (err e, x) a v h = ground arith

-- A transaction that returns has run its body.
pub transaction-ok :
    {A : Type 0} (env : Env) (m : M A) (w : World) (a : A) (v : World)
    → transaction env m w ≡ (ok a, v)
    → m (record w { writes = suc w.writes }) ≡ (ok a, v)
unfolding transaction
transaction-ok env m w a v h = elim (Bool-cases (env.write_fails w.writes)) [
  | inl fails ↦ ground arith
  | inr works ↦
      rollback-ok (record w { writes = suc w.writes }) (m (record w { writes = suc w.writes })) a v
        (ground arith)
]
