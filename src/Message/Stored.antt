-- ===== src/Message/Stored.antt =====
-- message_executor.py: the row that the outbox has for a request.
-- outbox cannot be written after the message has left.
use responsibility_pathway_r.Prelude.{
  inl, inr, ℕ, suc, String, Bool, true, false, ◌≡◌, refl, ap, subst, Option, none, some, List, [],
  ◌∷◌, ◌++◌, ◌==◌, eq_iff, find, update, arith, Bool-cases,
}
use responsibility_pathway_r.Errors.{Result, ok, operational_error, value_error}
use responsibility_pathway_r.Exec.Returns.{lift-returns, same-returned, not-returned}
use responsibility_pathway_r.Value.{Value, Fields}
use responsibility_pathway_r.Execution.{ExecutionRequest, ExecutionResult}
use responsibility_pathway_r.Message.{
  OutboxRow, Outbox, has_key, fingerprint, begin_row, begin, from_receipt,
}

pub find-append :
    (k : String) (rs : List OutboxRow) (r : OutboxRow)
    → find (has_key k) rs ≡ none
    → has_key k r ≡ true
    → find (has_key k) (rs ++ r ∷ []) ≡ some r
unfolding find
find-append k [] r h e = ground arith
find-append k (x ∷ rs) r h e = ground (arith, find-append k rs r)

abbrev pub concluded : String → Option Fields → OutboxRow → OutboxRow
concluded status receipt r = record r { status = status; receipt = receipt }

pub find-update :
    (k status : String) (receipt : Option Fields) (rs : List OutboxRow) (r : OutboxRow)
    → find (has_key k) rs ≡ some r
    → find (has_key k) (update (has_key k) (concluded status receipt) rs)
      ≡ some (concluded status receipt r)
unfolding find update
find-update k status receipt [] r h = absurd (ground arith)
find-update k status receipt (x ∷ rs) r h = ground (arith, find-update k status receipt rs r)

module _ (text : Value → String) (dumps : Value → Result String) (sha256 : String → String)
    (write_fails : ℕ → Bool) where
  -- The outbox holds the receipt of the request, and the result is the one of that receipt.
  pub record Holds (q : ExecutionRequest) (o : Outbox) (r : ExecutionResult) : Type 0 where
    pub row : OutboxRow
    pub receipt : Fields
    pub found : find (has_key q.idempotency_key) o.rows ≡ some row
    pub same : fingerprint text dumps sha256 write_fails q ≡ ok row.fingerprint
    pub has_receipt : row.receipt ≡ some receipt
    pub result : r ≡ from_receipt text dumps sha256 write_fails receipt

  pub begin-Holds :
      (q : ExecutionRequest) (o : Outbox) (r : ExecutionResult) (h : Holds q o r)
      → write_fails o.writes ≡ false
      → begin text dumps sha256 write_fails q o
        ≡ (ok (true, some h.receipt), record o { writes = suc o.writes })
  unfolding begin begin_row
  begin-Holds q o r h works =
      rw (h.same, works, h.found)
        (ground (arith, eq_iff h.row.fingerprint h.row.fingerprint, h.has_receipt))

  -- The row that `begin` found or made.
  pub record Recorded (q : ExecutionRequest) (a : Bool × Option Fields) (o : Outbox) : Type 0 where
    pub row : OutboxRow
    pub found : find (has_key q.idempotency_key) o.rows ≡ some row
    pub same : fingerprint text dumps sha256 write_fails q ≡ ok row.fingerprint
    pub receipt_is : a.0 ≡ true → row.receipt ≡ a.1

  begin_row-Recorded :
      (q : ExecutionRequest) (fp : String) (found : Option OutboxRow) (o p : Outbox)
      (a : Bool × Option Fields)
      → fingerprint text dumps sha256 write_fails q ≡ ok fp
      → find (has_key q.idempotency_key) o.rows ≡ found
      → begin_row text dumps sha256 write_fails q.idempotency_key fp found o ≡ (ok a, p)
      → Recorded q a p
  unfolding begin_row
  begin_row-Recorded q fp (some r) o p a same h e = elim (Bool-cases (r.fingerprint == fp)) [
    | inl equal ↦
        let (answer, after) = same-returned (true, r.receipt) a o p (rw equal at e) in
        subst (λ o'. Recorded q a o') after
          (record {
            row = r;
            found = h;
            same = rw ((eq_iff r.fingerprint fp).0 equal) same;
            receipt_is = λ _. ap (λ (b : Bool × Option Fields). b.1) answer;
          })
    | inr other ↦ absurd (not-returned value_error a o p (rw other at e))
  ]
  begin_row-Recorded q fp none o p a same h e =
      let (answer, after) = same-returned (false, none) a _ p e in
      subst (λ o'. Recorded q a o') after
        (record {
          row = _;
          found =
              find-append q.idempotency_key o.rows _ h
                ((eq_iff q.idempotency_key q.idempotency_key).1 refl);
          same = same;
          receipt_is = λ yes_replayed. absurd (cc (ap (λ (b : Bool × Option Fields). b.0) answer));
        })

  pub begin-Recorded :
      (q : ExecutionRequest) (o p : Outbox) (a : Bool × Option Fields)
      → begin text dumps sha256 write_fails q o ≡ (ok a, p)
      → Recorded q a p
  unfolding begin
  begin-Recorded q o p a h =
      let (fp, (same, rest)) =
        lift-returns (fingerprint text dumps sha256 write_fails q) _ o a p h in
      elim (Bool-cases (write_fails o.writes)) [
        | inl fails ↦ absurd (not-returned operational_error a _ p (rw fails at rest))
        | inr works ↦
            begin_row-Recorded q fp (find (has_key q.idempotency_key) o.rows)
              (record o { writes = suc o.writes }) p a same refl (rw works at rest)
      ]
