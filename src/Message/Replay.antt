-- ===== src/Message/Replay.antt =====
-- message_executor.py: what a second call with the same request does.
use responsibility_pathway_r.Prelude.{
  inl, inr, ℕ, suc, String, Bool, true, false, ◌||◌, ◌≡◌, refl, sym, ap, subst, Option, none, some,
  ◌==◌, find, update, is_empty, arith, Bool-cases,
}
use responsibility_pathway_r.Errors.{Error, Result, ok, err, operational_error}
use responsibility_pathway_r.Exec.{Exec, pure, ◌>>=◌, ◌>>◌}
use responsibility_pathway_r.Exec.Returns.{
  proceed-returns, lift-returns, same-returned, not-returned,
}
use responsibility_pathway_r.Value.{Value, Fields, item}
use responsibility_pathway_r.Execution.{
  ExecutionRequest, ExecutionResult, succeeded, failed, bare_result,
}
use responsibility_pathway_r.Message.{
  OutboxRow, Messaging, has_key, in_outbox, in_transport, fingerprint, begin, finish, receipt_value,
  from_receipt, deliver, dispatch, begun, handled, execute, replay,
}
use responsibility_pathway_r.Message.Stored.{
  concluded, find-update, Holds, Recorded, begin-Holds, begin-Recorded,
}

-- One more write of the outbox was begun, and nothing else has changed.
abbrev pub written : {T : Type 0} → Messaging T → Messaging T
written s = record s { outbox = record s.outbox { writes = suc s.outbox.writes } }

module _ (text : Value → String) (dumps : Value → Result String) (sha256 : String → String)
    (write_fails : ℕ → Bool) where
  module _ {T : Type 0} (send : String → String → String → String → Exec T Fields)
      (is_os_error : Error → Bool) where
    execute-Holds :
        (q : ExecutionRequest) (s : Messaging T) (r : ExecutionResult)
        → (q.action == "send_message") ≡ true
        → Holds text dumps sha256 write_fails q s.outbox r
        → write_fails s.outbox.writes ≡ false
        → execute text dumps sha256 write_fails send is_os_error q s ≡ (r, written s)
    unfolding execute begun handled replay
    execute-Holds q s r action h works =
        rw (action, begin-Holds text dumps sha256 write_fails q s.outbox r h works, h.result)

    refused :
        (r : ExecutionResult)
        → bare_result failed "recipient_and_body_required" ≡ r
        → ¬ (r.status ≡ succeeded)
    refused r e done = ground arith

    -- The outbox after a receipt is stored.
    with_receipt : String → Fields → Messaging T → Messaging T
    with_receipt key receipt s = record s {
      outbox = record {
        rows = update (has_key key) (concluded "finished" (some receipt)) s.outbox.rows;
        writes = suc s.outbox.writes;
      };
    }

    stored-returns :
        (key : String) (receipt : Fields) (r : ExecutionResult) (s t : Messaging T)
        → (in_outbox (finish text dumps sha256 write_fails key "finished" (some receipt))
              >> pure (from_receipt text dumps sha256 write_fails receipt))
            s
          ≡ (ok r, t)
        → (from_receipt text dumps sha256 write_fails receipt ≡ r)
          × (with_receipt key receipt s ≡ t)
    unfolding finish with_receipt
    stored-returns key receipt r s t h = elim (Bool-cases (write_fails s.outbox.writes)) [
      | inl fails ↦ absurd (not-returned operational_error r _ t (rw fails at h))
      | inr works ↦
          same-returned (from_receipt text dumps sha256 write_fails receipt) r
            (with_receipt key receipt s) t (rw works at h)
    ]

    -- A delivery that succeeded has stored the receipt.
    deliver-Holds :
        (q : ExecutionRequest) (recipient subject body : String) (row : OutboxRow)
        (s t : Messaging T) (r : ExecutionResult)
        → find (has_key q.idempotency_key) s.outbox.rows ≡ some row
        → fingerprint text dumps sha256 write_fails q ≡ ok row.fingerprint
        → deliver text dumps sha256 write_fails send is_os_error q.idempotency_key recipient subject
            body s
          ≡ (ok r, t)
        → r.status ≡ succeeded
        → Holds text dumps sha256 write_fails q t.outbox r
    unfolding deliver with_receipt
    deliver-Holds q recipient subject body row s t r found same h done =
        elim (Bool-cases (is_empty recipient || is_empty body)) [
          | inl missing ↦
              let (u, (s', (e, last))) =
                proceed-returns
                  (in_outbox (finish text dumps sha256 write_fails q.idempotency_key "failed" none)
                    s)
                  _ r t (rw missing at h) in
              absurd (refused r (ground arith) done)
          | inr given ↦
              let (raw, (s1, (e1, rest))) =
                proceed-returns (in_transport (send recipient subject body q.idempotency_key) s) _ r
                  t (rw given at h) in
              let (result, after) =
                stored-returns q.idempotency_key (receipt_value text dumps sha256 write_fails raw) r
                  s1 t rest in
              let same_outbox = ap (λ (p : Result Fields × Messaging T). p.1.outbox) e1 in
              subst (λ u. Holds text dumps sha256 write_fails q u.outbox r) after
                (record {
                  row =
                      concluded "finished" (some (receipt_value text dumps sha256 write_fails raw))
                        row;
                  receipt = receipt_value text dumps sha256 write_fails raw;
                  found =
                      find-update q.idempotency_key "finished" _ s1.outbox.rows row
                        (rw (← same_outbox) found);
                  same = same;
                  has_receipt = refl;
                  result = sym result;
                })
        ]

    dispatch-Holds :
        (q : ExecutionRequest) (row : OutboxRow) (s t : Messaging T) (r : ExecutionResult)
        → find (has_key q.idempotency_key) s.outbox.rows ≡ some row
        → fingerprint text dumps sha256 write_fails q ≡ ok row.fingerprint
        → dispatch text dumps sha256 write_fails send is_os_error q s ≡ (ok r, t)
        → r.status ≡ succeeded
        → Holds text dumps sha256 write_fails q t.outbox r
    unfolding dispatch
    dispatch-Holds q row s t r found same h done =
        let (recipient, (_, h1)) = lift-returns (item "recipient" q.parameters) _ s r t h in
        let (body, (_, h2)) = lift-returns (item "body" q.parameters) _ s r t h1 in
        deliver-Holds q _ _ _ row s t r found same h2 done

    begun-Holds :
        (q : ExecutionRequest) (a : Bool × Option Fields) (s t : Messaging T) (r : ExecutionResult)
        → Recorded text dumps sha256 write_fails q a s.outbox
        → begun text dumps sha256 write_fails send is_os_error q a s ≡ (ok r, t)
        → r.status ≡ succeeded
        → Holds text dumps sha256 write_fails q t.outbox r
    unfolding begun replay
    begun-Holds q (false, receipt) s t r c h done =
        dispatch-Holds q c.row s t r c.found c.same h done
    begun-Holds q (true, none) s t r c h done = absurd (ground arith)
    begun-Holds q (true, some receipt) s t r c h done =
        let (result, after) =
          same-returned (from_receipt text dumps sha256 write_fails receipt) r s t h in
        subst (λ u. Holds text dumps sha256 write_fails q u.outbox r) after
          (record {
            row = c.row;
            receipt = receipt;
            found = c.found;
            same = c.same;
            has_receipt = c.receipt_is refl;
            result = sym result;
          })

    handled-succeeded :
        (p : Result ExecutionResult × Messaging T)
        → (handled text dumps sha256 write_fails send is_os_error p).0.status ≡ succeeded
        → p ≡ (
          ok (handled text dumps sha256 write_fails send is_os_error p).0,
          (handled text dumps sha256 write_fails send is_os_error p).1,
        )
    unfolding handled
    handled-succeeded (ok r, s) done = refl
    handled-succeeded (err e, s) done = absurd (ground arith)

    begin_execute-Holds :
        (q : ExecutionRequest) (s t : Messaging T) (r : ExecutionResult)
        → (in_outbox (begin text dumps sha256 write_fails q)
              >>= begun text dumps sha256 write_fails send is_os_error q)
            s
          ≡ (ok r, t)
        → r.status ≡ succeeded
        → Holds text dumps sha256 write_fails q t.outbox r
    begin_execute-Holds q s t r h done =
        let (a, (s1, (e, rest))) =
          proceed-returns (in_outbox (begin text dumps sha256 write_fails q) s) _ r t h in
        begun-Holds q a s1 t r
          (begin-Recorded text dumps sha256 write_fails q s.outbox s1.outbox a
            (ap (λ (p : Result (Bool × Option Fields) × Messaging T). (p.0, p.1.outbox)) e))
          rest done

    succeeded-Holds :
        (q : ExecutionRequest) (s : Messaging T)
        → (q.action == "send_message") ≡ true
        → (execute text dumps sha256 write_fails send is_os_error q s).0.status ≡ succeeded
        → Holds text dumps sha256 write_fails q
            (execute text dumps sha256 write_fails send is_os_error q s).1.outbox
            (execute text dumps sha256 write_fails send is_os_error q s).0
    unfolding execute
    succeeded-Holds q s message =
        rw message (λ done. begin_execute-Holds q s _ _ (handled-succeeded _ done) done)

    unsupported-failed :
        (q : ExecutionRequest) (s : Messaging T)
        → (q.action == "send_message") ≡ false
        → ¬ ((execute text dumps sha256 write_fails send is_os_error q s).0.status ≡ succeeded)
    unfolding execute
    unsupported-failed q s other done = ground arith

    -- If a call succeeded and the next write of the outbox does not fail, then a second call with the
    -- same request gives the same result, and leaves the transport and the rows as they are.
    pub execute-again :
        (q : ExecutionRequest) (s : Messaging T)
        → (execute text dumps sha256 write_fails send is_os_error q s).0.status ≡ succeeded
        → write_fails (execute text dumps sha256 write_fails send is_os_error q s).1.outbox.writes
          ≡ false
        → execute text dumps sha256 write_fails send is_os_error q
            (execute text dumps sha256 write_fails send is_os_error q s).1
          ≡ (
            (execute text dumps sha256 write_fails send is_os_error q s).0,
            written (execute text dumps sha256 write_fails send is_os_error q s).1,
          )
    execute-again q s done works = elim (Bool-cases (q.action == "send_message")) [
      | inl message ↦ execute-Holds q _ _ message (succeeded-Holds q s message done) works
      | inr other ↦ absurd (unsupported-failed q s other done)
    ]
