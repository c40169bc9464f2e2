-- ===== src/Message/Rows.antt =====
-- message_executor.py: the outbox keeps every row, and begins a key only once.
use responsibility_pathway_r.Prelude.{
  ℕ, suc, String, Bool, true, false, ◌≡◌, inl, inr, refl, subst, Option, none, some, List, [], ◌∷◌,
  ◌++◌, ◌==◌, eq_iff, any, find, update, arith, Bool-cases,
}
use responsibility_pathway_r.Errors.{Result, ok, err, operational_error}
use responsibility_pathway_r.Exec.{lift, ◌>>=◌}
use responsibility_pathway_r.Value.{Value, Fields}
use responsibility_pathway_r.Execution.{ExecutionRequest}
use responsibility_pathway_r.Message.{
  OutboxRow, Outbox, has_key, statement, fingerprint, begin_row, begin, finish,
}

abbrev pub Has : String → Outbox → Type 0
Has k o = (any (has_key k) o.rows ≡ true)

abbrev pub Grows : Outbox → Outbox → Type 0
Grows o p = (k : String) → Has k o → Has k p

-- What was sent has a row, and was sent once.
find-none :
    (k : String) (rs : List OutboxRow) → find (has_key k) rs ≡ none → any (has_key k) rs ≡ false
unfolding find any
find-none k [] h = refl
find-none k (r ∷ rs) h = ground (arith, find-none k rs)

any-append_old :
    (k : String) (rs ts : List OutboxRow)
    → any (has_key k) rs ≡ true
    → any (has_key k) (rs ++ ts) ≡ true
unfolding any
any-append_old k [] ts h = absurd (ground arith)
any-append_old k (r ∷ rs) ts h = ground (arith, any-append_old k rs ts)

any-append_new :
    (k : String) (rs : List OutboxRow) (r : OutboxRow)
    → has_key k r ≡ true
    → any (has_key k) (rs ++ r ∷ []) ≡ true
unfolding any
any-append_new k [] r h = ground arith
any-append_new k (x ∷ rs) r h = ground (arith, any-append_new k rs r h)

any-update :
    (k key status : String) (receipt : Option Fields) (rs : List OutboxRow)
    → any
        (has_key k)
        (update (has_key key) (λ r. record r { status = status; receipt = receipt }) rs)
      ≡ any (has_key k) rs
unfolding any update
any-update k key status receipt [] = refl
any-update k key status receipt (r ∷ rs) = ground (arith, any-update k key status receipt rs)

module _ (text : Value → String) (dumps : Value → Result String) (sha256 : String → String)
    (write_fails : ℕ → Bool) where
  pub finish-Grows :
      (key status : String) (receipt : Option Fields) (o : Outbox)
      → Grows o (finish text dumps sha256 write_fails key status receipt o).1
  unfolding finish
  finish-Grows key status receipt o k h = ground (arith, any-update k key status receipt o.rows)

  -- What `begin` does to the keys that have a row.
  pub record Begun (key : String) (o : Outbox) (r : Result (Bool × Option Fields)) (p : Outbox)
      : Type 0 where
    pub grows : Grows o p
    pub fresh :
        (receipt : Option Fields)
        → r ≡ ok (false, receipt)
        → (any (has_key key) o.rows ≡ false) × Has key p

  begin_row-Begun :
      (key fp : String) (o p : Outbox)
      → p.rows ≡ o.rows
      → (found : Option OutboxRow) → find (has_key key) p.rows ≡ found
      → Begun key o
          (begin_row text dumps sha256 write_fails key fp found p).0
          (begin_row text dumps sha256 write_fails key fp found p).1
  unfolding begin_row
  begin_row-Begun key fp o p same (some r) h = elim (Bool-cases (r.fingerprint == fp)) [
    | inl equal ↦
        rw equal
          (record { grows = λ k old. rw same old; fresh = λ receipt e. absurd (ground arith) })
    | inr other ↦
        rw other
          (record { grows = λ k old. rw same old; fresh = λ receipt e. absurd (ground arith) })
  ]
  begin_row-Begun key fp o p same none h = record {
    grows = λ k old. any-append_old k p.rows _ (rw same old);
    fresh = λ receipt e. (
      rw (← same) (find-none key p.rows h),
      any-append_new key p.rows _ ((eq_iff key key).1 refl),
    );
  }

  begin_statement-Begun :
      (key : String) (r : Result String) (o : Outbox)
      → (b : Result (Bool × Option Fields) × Outbox) × (b
          ≡ (lift r >>= λ fp.
                statement write_fails (λ p.
                  begin_row text dumps sha256 write_fails key fp (find (has_key key) p.rows) p))
              o)
        × Begun key o b.0 b.1
  begin_statement-Begun key (err e) o =
      ((err e, o), refl, record { grows = λ k h. h; fresh = λ receipt e. absurd (ground arith) })
  begin_statement-Begun key (ok fp) o = elim (Bool-cases (write_fails o.writes)) [
    | inl fails ↦ (
      (err operational_error, record o { writes = suc o.writes }),
      rw fails,
      record { grows = λ k h. h; fresh = λ receipt e. absurd (ground arith) },
    )
    | inr works ↦ (
      begin_row text dumps sha256 write_fails key fp (find (has_key key) o.rows)
          (record o { writes = suc o.writes }),
      rw works,
      begin_row-Begun key fp o (record o { writes = suc o.writes }) refl (find (has_key key) o.rows)
          refl,
    )
  ]

  pub begin-Begun :
      (q : ExecutionRequest) (o : Outbox)
      → Begun q.idempotency_key o
          (begin text dumps sha256 write_fails q o).0
          (begin text dumps sha256 write_fails q o).1
  unfolding begin
  begin-Begun q o =
      let (b, e, h) =
        begin_statement-Begun q.idempotency_key (fingerprint text dumps sha256 write_fails q) o in
      subst (λ p. Begun q.idempotency_key o p.0 p.1) e h
