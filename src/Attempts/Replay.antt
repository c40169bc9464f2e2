-- ===== src/Attempts/Replay.antt =====
-- attempts.py: a request that comes again.
use responsibility_pathway_r.Prelude.{
  Bool-cases, inl, inr, suc, String, Bool, true, false, ◌≡◌, sym, subst, refl, Option, none, some,
  List, [], ◌∷◌, ◌++◌, any, find, update, arith, eq_iff, eq_refl,
}
use responsibility_pathway_r.Errors.{Result, ok, err}
use responsibility_pathway_r.Value.{Value, str}
use responsibility_pathway_r.Execution.{
  result_value, result_of_value, ExecutionRequest, ExecutionResult, ExecutionStatus,
}
use responsibility_pathway_r.JsonIdentity.{strict_identity}
use responsibility_pathway_r.JsonIdentity.Exact.{strict_identity_iff}
use responsibility_pathway_r.Execution.RoundTrip.{result_of_value-result_value}
use responsibility_pathway_r.Env.{Env}
use responsibility_pathway_r.World.{World, AttemptRecord, transaction}
use responsibility_pathway_r.World.Transactions.{transaction-ok}
use responsibility_pathway_r.Exec.{lift, gets, ◌>>=◌}
use responsibility_pathway_r.Attempts.{
  is_attempt, matches, started_record, begin_row, begin, request_fingerprint, finish,
  strict_result_json, attempt_of, get_attempt, set_result, encoded, with_result,
}

-- What a `begin` that succeeded says of the ledger after it: the first row that matches is the
-- record, and it belongs to this pathway, operation and request.
abbrev pub Begun : Env → String → ExecutionRequest → AttemptRecord → World → Type 0
Begun env id q a v =
    (find (matches id q) v.attempts ≡ some a)
    × (a.pathway_id ≡ id)
    × (a.operation_id ≡ q.operation_id)
    × (request_fingerprint env q ≡ ok a.request_fingerprint)

find-append_new :
    (id : String) (q : ExecutionRequest) (fp : String) (rs : List AttemptRecord)
    → find (matches id q) rs ≡ none
    → find (matches id q) (rs ++ started_record id q fp ∷ []) ≡ some (started_record id q fp)
unfolding find
find-append_new id q fp [] h = rw (eq_refl q.attempt_id) refl
find-append_new id q fp (a ∷ rs) h = ground (arith, find-append_new id q fp rs)

module _ (env : Env) (id : String) (q : ExecutionRequest) where
  begin_row-Begun :
      (fp : String) (o : Option AttemptRecord) (w after : World) (b : Bool) (a : AttemptRecord)
      → request_fingerprint env q ≡ ok fp
      → find (matches id q) w.attempts ≡ o
      → begin_row id q fp o w ≡ (ok (b, a), after)
      → Begun env id q a after
  unfolding begin_row
  begin_row-Begun fp none w after b a h f e = ground (arith, find-append_new id q fp w.attempts)
  begin_row-Begun fp (some r) w after b a h f e = ground (
    arith,
    eq_iff r.pathway_id id,
    eq_iff r.operation_id q.operation_id,
    eq_iff r.request_fingerprint fp,
  )

  Begun-begin :
      (a : AttemptRecord) (w : World)
      → Begun env id q a w
      → env.write_fails w.writes ≡ false
      → begin env id q w ≡ (ok (true, a), record w { writes = suc w.writes })
  unfolding begin transaction begin_row
  Begun-begin a w (f, p, o, h) ok_write =
      rw (h, ok_write, f, p, o, eq_refl id, eq_refl q.operation_id, eq_refl a.request_fingerprint)
        refl

  begin-Begun :
      (w after : World) (b : Bool) (a : AttemptRecord)
      → begin env id q w ≡ (ok (b, a), after)
      → Begun env id q a after
  unfolding begin
  begin-Begun w after b a e = go (request_fingerprint env q) refl e
    where
      go :
          (r : Result String)
          → request_fingerprint env q ≡ r
          → (lift r >>= λ fp.
                transaction env (gets (λ v. find (matches id q) v.attempts) >>= begin_row id q fp))
              w
            ≡ (ok (b, a), after)
          → Begun env id q a after
      go (ok fp) h k =
          begin_row-Begun fp (find (matches id q) w.attempts) (record w { writes = suc w.writes })
            after b a h refl (transaction-ok env _ w (b, a) after k)
      go (err x) h k = ground arith

  -- A request that `begin` accepted is accepted by the next `begin`, if its write does not fail:
  -- as a replay, with the same record, and with the tables unchanged.
  pub begin-again :
      (w after : World) (b : Bool) (a : AttemptRecord)
      → begin env id q w ≡ (ok (b, a), after)
      → env.write_fails after.writes ≡ false
      → begin env id q after ≡ (ok (true, a), record after { writes = suc after.writes })
  begin-again w after b a e ok_write = Begun-begin a after (begin-Begun w after b a e) ok_write

find-update :
    (id : String) (q : ExecutionRequest) (s : ExecutionStatus) (v : Value) (a : AttemptRecord)
    (rs : List AttemptRecord)
    → a.attempt_id ≡ q.attempt_id
    → find (matches id q) rs ≡ some a
    → find (matches id q) (update (is_attempt q.attempt_id) (with_result s v) rs)
      ≡ some (with_result s v a)
unfolding find update
find-update id q s v a [] mine h = ground arith
find-update id q s v a (r ∷ rs) mine h =
    ground
      (arith, find-update id q s v a rs, eq_refl q.attempt_id, eq_iff r.attempt_id q.attempt_id)

-- A result that the ledger accepts is written as it is.
strict_result_json-exact :
    (env : Env) (r : ExecutionResult) (v : Value)
    → strict_result_json env r ≡ ok v
    → v ≡ result_value r
unfolding strict_result_json encoded
strict_result_json-exact env r v h = go (strict_identity (result_value r)) refl h
  where
    go :
        (o : Result Value)
        → strict_identity (result_value r) ≡ o
        → encoded env o ≡ ok v
        → v ≡ result_value r
    go (ok u) e k =
        let same : u ≡ result_value r = ((strict_identity_iff (result_value r) u).0 e).0 in
        ground arith
    go (err x) e k = ground arith

set_result-found :
    (a : String) (s : ExecutionStatus) (v : Value) (w after : World) (f : AttemptRecord)
    → (set_result a s v >>= λ _. get_attempt a) w ≡ (ok f, after)
    → after.attempts ≡ update (is_attempt a) (with_result s v) w.attempts
unfolding set_result get_attempt attempt_of
set_result-found a s v w after f h = elim (Bool-cases (any (is_attempt a) w.attempts)) [
  | inl there ↦ ground arith
  | inr missing ↦ ground arith
]

-- Let the text of a string be the string itself. If `begin` gave a record with the attempt id of
-- the request, `finish` then stored a result for that id, and the next write does not fail, then
-- the next `begin` replays the record with the status and the value of that result, and the value
-- decodes to the result.
pub finish-begin :
    (env : Env) (id : String) (q : ExecutionRequest) (r : ExecutionResult) (w begun after : World)
    (b : Bool) (a f : AttemptRecord)
    → ((s : String) → env.text (str s) ≡ s)
    → begin env id q w ≡ (ok (b, a), begun)
    → a.attempt_id ≡ q.attempt_id
    → finish env q.attempt_id r begun ≡ (ok f, after)
    → env.write_fails after.writes ≡ false
    → (begin env id q after ≡ (
      ok (true, with_result r.status (result_value r) a),
      record after { writes = suc after.writes },
    ))
      × (result_of_value env.text (result_value r) ≡ ok r)
unfolding finish
finish-begin env id q r w begun after b a f text-str e mine done ok_write =
    (go (strict_result_json env r) refl done, result_of_value-result_value env.text text-str r)
  where
    go :
        (o : Result Value)
        → strict_result_json env r ≡ o
        → (lift o >>= λ v.
              transaction env
                (set_result q.attempt_id r.status v >>= λ _. get_attempt q.attempt_id))
            begun
          ≡ (ok f, after)
        → begin env id q after ≡ (
          ok (true, with_result r.status (result_value r) a),
          record after { writes = suc after.writes },
        )
    go (ok v) h k =
        let same = strict_result_json-exact env r v h in
        let stored =
          set_result-found q.attempt_id r.status v (record begun { writes = suc begun.writes })
            after f (transaction-ok env _ begun f after k) in
        let (found, p, o, fp) = begin-Begun env id q w begun b a e in
        Begun-begin env id q (with_result r.status (result_value r) a) after
          (
            rw stored (
                subst
                  (λ u.
                    find (matches id q)
                      (update (is_attempt q.attempt_id) (with_result r.status u) begun.attempts)
                    ≡ some (with_result r.status (result_value r) a))
                  (sym same)
                  (find-update id q r.status (result_value r) a begun.attempts mine found)),
            p,
            o,
            fp,
          )
          ok_write
    go (err x) h k = ground arith
