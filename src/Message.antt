-- ===== src/Message.antt =====
-- message_executor.py: the outbox that records the intent to send, and the executor of messages.
pub mod Rows
pub mod Stored
pub mod Once
pub mod Replay
use responsibility_pathway_r.Prelude.{
  ℕ, suc, String, Bool, true, false, not, ◌||◌, ◌&&◌, Option, none, some, List, [], ◌∷◌, ◌++◌, ◌==◌,
  concat, find, update, is_empty, is_blank, strip, if◌then◌else◌,
}
use responsibility_pathway_r.Errors.{
  Error, Result, ok, err, value_error, operational_error, class_name,
}
use responsibility_pathway_r.Exec.{Exec, pure, lift, gets, ◌>>=◌, ◌>>◌}
use responsibility_pathway_r.Value.{
  Value, Fields, str, bool, dict, end, entry, get, item, truthy_or_false,
}
use responsibility_pathway_r.Execution.{
  ExecutionRequest, ExecutionResult, ExecutionStatus, ReadbackEvidence, succeeded, failed,
  write_status_unknown, bare_result,
}

-- A row of `message_outbox`; the receipt is what its JSON text decodes to.
pub record OutboxRow : Type 0 where
  pub idempotency_key : String
  pub fingerprint : String
  pub status : String
  pub receipt : Option Fields

-- The table, and the count of the writes begun.
pub record Outbox : Type 0 where
  pub rows : List OutboxRow
  pub writes : ℕ

-- The outbox beside the transport, whose state is of the type `T`.
pub record Messaging (T : Type 0) : Type 0 where
  pub outbox : Outbox
  pub transport : T

abbrev pub has_key : String → OutboxRow → Bool
has_key key r = r.idempotency_key == key

-- A statement on the table that commits by itself: it may raise and then writes nothing.
abbrev pub statement : {A : Type 0} → (ℕ → Bool) → (Outbox → Result A × Outbox) → Exec Outbox A
statement write_fails body o =
    let begun = record o { writes = suc o.writes } in
    if write_fails o.writes then (err operational_error, begun) else body begun

-- `str(request.parameters.get("subject", ""))`
unfoldable pub text_or_empty : (Value → String) → Option Value → String
text_or_empty text none = ""
text_or_empty text (some v) = text v

abbrev in_outbox : {T A : Type 0} → Exec Outbox A → Exec (Messaging T) A
in_outbox m s = ((m s.outbox).0, record s { outbox = (m s.outbox).1 })

abbrev in_transport : {T A : Type 0} → Exec T A → Exec (Messaging T) A
in_transport m s = ((m s.transport).0, record s { transport = (m s.transport).1 })

-- `text` is `str(value)`, `dumps` is `json.dumps` of the fingerprint, which may raise, and `write_fails`
-- says which writes of the outbox raise sqlite3.OperationalError.
module _ (text : Value → String) (dumps : Value → Result String) (sha256 : String → String)
    (write_fails : ℕ → Bool) where
  hashed : Result String → Result String
  hashed (ok s) = ok (sha256 s)
  hashed (err e) = err e

  -- `SQLiteOutbox._fingerprint`
  unfoldable pub fingerprint : ExecutionRequest → Result String
  unfolding hashed
  fingerprint q =
      hashed
        (dumps (dict (entry "action" (str q.action) (entry "parameters" (dict q.parameters) end))))

  -- The body of the transaction of `begin`.
  begin_row : String → String → Option OutboxRow → Exec Outbox (Bool × Option Fields)
  begin_row key fp (some r) o =
      if not (r.fingerprint == fp) then (err value_error, o) else (ok (true, r.receipt), o)
  begin_row key fp none o = (
    ok (false, none),
    record o {
      rows =
          o.rows
          ++ record { idempotency_key = key; fingerprint = fp; status = "prepared"; receipt = none }
            ∷ [];
    },
  )

  -- `SQLiteOutbox.begin`
  unfoldable pub begin : ExecutionRequest → Exec Outbox (Bool × Option Fields)
  unfolding begin_row find fingerprint
  begin q = do
    fp ← lift (fingerprint q)
    statement write_fails
        (λ o. begin_row q.idempotency_key fp (find (has_key q.idempotency_key) o.rows) o)

  -- `SQLiteOutbox.finish`
  unfoldable pub finish : String → String → Option Fields → Exec Outbox (Unit {0})
  unfolding update
  finish key status receipt = statement write_fails (λ o. (
    ok tt,
    record o {
      rows = update (has_key key) (λ r. record r { status = status; receipt = receipt }) o.rows;
    },
  ))

  -- `bool(accepted) and bool(durable) and bool(str(message_id).strip())`
  unfoldable pub receipt_verified : Fields → Bool
  unfolding get truthy_or_false text_or_empty is_blank
  receipt_verified receipt =
      truthy_or_false (get "accepted" receipt)
      && truthy_or_false (get "durable" receipt)
      && not (is_blank (text_or_empty text (get "message_id" receipt)))

  -- `OutboundMessageExecutor._from_receipt`
  unfoldable pub from_receipt : Fields → ExecutionResult
  unfolding receipt_verified
  from_receipt receipt =
      let verified = receipt_verified receipt in
      let reason = if verified then none else some "durable_delivery_receipt_missing" in
      record {
        status = if verified then succeeded else write_status_unknown;
        evidence = entry "delivery_receipt" (dict receipt) end;
        readback = some (record { verified = verified; observed = receipt; reason = reason });
        reason = reason;
      }

  -- What is stored of the answer of the transport.
  unfoldable pub receipt_value : Fields → Fields
  unfolding get truthy_or_false text_or_empty strip
  receipt_value raw = entry "message_id" (str (strip (text_or_empty text (get "message_id" raw)))) (
      entry "accepted" (bool (truthy_or_false (get "accepted" raw)))
        (entry "durable" (bool (truthy_or_false (get "durable" raw))) end))

  replay : Option Fields → ExecutionResult
  unfolding from_receipt
  replay none = bare_result write_status_unknown "outbox_prepared_without_receipt"
  replay (some receipt) = from_receipt receipt

  -- `send` of the transport takes the recipient, the subject, the body and the idempotency key;
  -- `is_os_error` is `isinstance(exc, (OSError, TimeoutError, ConnectionError))`.
  module _ {T : Type 0} (send : String → String → String → String → Exec T Fields)
      (is_os_error : Error → Bool) where
    deliver : String → String → String → String → Exec (Messaging T) ExecutionResult
    deliver key recipient subject body =
        if is_empty recipient || is_empty body
        then in_outbox (finish key "failed" none)
          >> pure (bare_result failed "recipient_and_body_required")
        else do
          raw ← in_transport (send recipient subject body key)
          in_outbox (finish key "finished" (some (receipt_value raw)))
          pure (from_receipt (receipt_value raw))

    -- The part of `execute` after the intent is recorded.
    dispatch : ExecutionRequest → Exec (Messaging T) ExecutionResult
    unfolding deliver item get text_or_empty strip
    dispatch q = do
      recipient ← lift (item "recipient" q.parameters)
      body ← lift (item "body" q.parameters)
      deliver q.idempotency_key (strip (text recipient))
          (text_or_empty text (get "subject" q.parameters)) (text body)

    begun : ExecutionRequest → Bool × Option Fields → Exec (Messaging T) ExecutionResult
    unfolding dispatch replay
    begun q (true, receipt) = pure (replay receipt)
    begun q (false, receipt) = dispatch q

    -- The handlers of `execute`: every exception is a result.
    handled : Result ExecutionResult × Messaging T → ExecutionResult × Messaging T
    handled (ok r, s) = (r, s)
    handled (err e, s) =
        if is_os_error e
        then (
          bare_result write_status_unknown (concat "message_transport_ambiguous:" (class_name e)),
          s,
        )
        else (bare_result failed (concat "message_executor_error:" (class_name e)), s)

    -- `OutboundMessageExecutor.execute`
    unfoldable pub execute : ExecutionRequest → Messaging T → ExecutionResult × Messaging T
    unfolding begun handled begin
    execute q s =
        if not (q.action == "send_message")
        then (bare_result failed "unsupported_action", s)
        else handled ((in_outbox (begin q) >>= begun q) s)

    -- Any sequence of calls, the results of which are not looked at.
    unfoldable pub execute_all : List ExecutionRequest → Messaging T → Messaging T
    unfolding execute
    execute_all [] s = s
    execute_all (q ∷ qs) s = execute_all qs (execute q s).1
