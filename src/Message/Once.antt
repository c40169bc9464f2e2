-- ===== src/Message/Once.antt =====
-- message_executor.py: a message is handed to the transport once for each idempotency key.
use responsibility_pathway_r.Prelude.{
  ℕ, String, Bool, true, false, not, ◌||◌, ◌≡◌, ◌⊎◌, inl, inr, refl, ap, ◌∙◌, subst, Option, none,
  some, List, [], ◌∷◌, ◌==◌, eq_iff, any, is_empty, strip, arith, Bool-cases,
}
use responsibility_pathway_r.Errors.{Error, Result, ok, err}
use responsibility_pathway_r.Exec.{Exec, lift, pure, ◌>>=◌, ◌>>◌, proceed}
use responsibility_pathway_r.Value.{Value, Fields, item, get}
use responsibility_pathway_r.Execution.{ExecutionRequest, ExecutionResult}
use responsibility_pathway_r.Message.{
  Outbox, Messaging, has_key, in_outbox, in_transport, text_or_empty, finish, receipt_value,
  from_receipt, deliver, dispatch, begun, handled, execute, execute_all,
}
use responsibility_pathway_r.Message.Rows.{Has, Grows, Begun, finish-Grows, begin-Begun}

abbrev pub Sender : Type 0 → Type 0
Sender U = String → String → String → String → Exec U Fields

-- A transport that writes down the idempotency key of every message that it is given, and then
-- answers as another one does.
abbrev pub recording : {U : Type 0} → Sender U → Sender (List String × U)
recording send recipient subject body key t =
    ((send recipient subject body key t.1).0, (key ∷ t.0, (send recipient subject body key t.1).1))

abbrev pub is_among : String → List String → Bool
is_among k ks = any (λ j. j == k) ks

-- No key comes twice.
abbrev pub Distinct : List String → Type 0
Distinct [] = Unit
Distinct (k ∷ ks) = (is_among k ks ≡ false) × Distinct ks

pub record Once {U : Type 0} (s : Messaging (List String × U)) : Type 0 where
  pub distinct : Distinct s.transport.0
  pub recorded : (k : String) → is_among k s.transport.0 ≡ true → Has k s.outbox

-- An outbox without rows, and a transport to which nothing was given.
abbrev pub unused : {U : Type 0} → U → ℕ → Messaging (List String × U)
unused u writes = record { outbox = record { rows = []; writes = writes }; transport = ([], u) }

unused-Once : {U : Type 0} (u : U) (writes : ℕ) → Once (unused u writes)
unfolding any
unused-Once u writes = record { distinct = tt; recorded = λ k h. h }

among-cons :
    (k key : String) (ks : List String)
    → is_among k (key ∷ ks) ≡ true
    → (key ≡ k) ⊎ (is_among k ks ≡ true)
unfolding any
among-cons k key ks h = ground (arith, eq_iff key k)

unsent :
    (key : String) (ks : List String) (o : Outbox)
    → (is_among key ks ≡ true → Has key o)
    → any (has_key key) o.rows ≡ false
    → is_among key ks ≡ false
unsent key ks o recorded fresh = elim (Bool-cases (is_among key ks)) [
  | inl sent ↦ absurd (cc (recorded sent))
  | inr not_sent ↦ not_sent
]

proceed-pure :
    {S A B : Type 0} (r : Result A) (s : S) (b : B) → (proceed (r, s) (λ _. pure b)).1 ≡ s
proceed-pure (ok a) s b = refl
proceed-pure (err e) s b = refl

module _ (text : Value → String) (dumps : Value → Result String) (sha256 : String → String)
    (write_fails : ℕ → Bool) where
  module _ {U : Type 0} (send : Sender U) (is_os_error : Error → Bool) where
    -- What a delivery does: the key is sent or nothing is, and no row is lost.
    record Delivered (key : String) (s t : Messaging (List String × U)) : Type 0 where
      sent : (t.transport.0 ≡ s.transport.0) ⊎ (t.transport.0 ≡ key ∷ s.transport.0)
      kept : Grows s.outbox t.outbox

    -- The end of a delivery, which writes to the outbox alone.
    stored-Delivered :
        (key status : String) (receipt : Option Fields) (s t : Messaging (List String × U))
        (r : ExecutionResult)
        → Delivered key s t
        → Delivered key s
            ((in_outbox (finish text dumps sha256 write_fails key status receipt) >> pure r) t).1
    stored-Delivered key status receipt s t r d =
        rw (proceed-pure (finish text dumps sha256 write_fails key status receipt t.outbox).0 _ r)
          (record {
            sent = d.sent;
            kept = λ k old.
                finish-Grows text dumps sha256 write_fails key status receipt t.outbox k
                  (d.kept k old);
          })

    deliver_sent :
        (key recipient subject body : String) (s t : Messaging (List String × U))
        (r : Result Fields)
        → t.transport.0 ≡ key ∷ s.transport.0
        → t.outbox ≡ s.outbox
        → Delivered key s
            (proceed
              (r, t)
              (λ raw.
                in_outbox (
                  finish text dumps sha256 write_fails key "finished"
                    (some (receipt_value text dumps sha256 write_fails raw)))
                >> pure (
                    from_receipt text dumps sha256 write_fails
                      (receipt_value text dumps sha256 write_fails raw)))).1
    deliver_sent key recipient subject body s t (err e) h same = record {
      sent = inr h;
      kept = λ k old. rw same old;
    }
    deliver_sent key recipient subject body s t (ok raw) h same =
        stored-Delivered key "finished" (some (receipt_value text dumps sha256 write_fails raw)) s t
          _ (record { sent = inr h; kept = λ k old. rw same old })

    deliver-Delivered :
        (key recipient subject body : String) (s : Messaging (List String × U))
        → Delivered key s
            (deliver text dumps sha256 write_fails
              (recording send)
              is_os_error
              key
              recipient
              subject
              body
              s).1
    unfolding deliver
    deliver-Delivered key recipient subject body s =
        elim (Bool-cases (is_empty recipient || is_empty body)) [
          | inl missing ↦ rw missing (
              stored-Delivered key "failed" none s s _
                (record { sent = inl refl; kept = λ k old. old }))
          | inr given ↦ rw given (
              deliver_sent key recipient subject body s
                (in_transport (recording send recipient subject body key) s).1
                (in_transport (recording send recipient subject body key) s).0 refl refl)
        ]

    dispatch_by :
        (q : ExecutionRequest) (s : Messaging (List String × U)) (recipient body : Result Value)
        → Delivered q.idempotency_key s
            ((lift recipient >>= λ r. lift body >>= λ b.
                deliver text dumps sha256 write_fails
                  (recording send)
                  is_os_error
                  q.idempotency_key
                  (strip (text r))
                  (text_or_empty text (get "subject" q.parameters))
                  (text b))
              s).1
    dispatch_by q s (err e) body = record { sent = inl refl; kept = λ k old. old }
    dispatch_by q s (ok r) (err e) = record { sent = inl refl; kept = λ k old. old }
    dispatch_by q s (ok r) (ok b) = deliver-Delivered q.idempotency_key _ _ _ s

    dispatch-Delivered :
        (q : ExecutionRequest) (s : Messaging (List String × U))
        → Delivered q.idempotency_key s
            (dispatch text dumps sha256 write_fails (recording send) is_os_error q s).1
    unfolding dispatch
    dispatch-Delivered q s =
        dispatch_by q s (item "recipient" q.parameters) (item "body" q.parameters)

    handled-state :
        (p : Result ExecutionResult × Messaging (List String × U))
        → (handled text dumps sha256 write_fails (recording send) is_os_error p).1 ≡ p.1
    unfolding handled
    handled-state (ok r, s) = refl
    handled-state (err e, s) = ground arith

    Once-same :
        (s t : Messaging (List String × U))
        → Once s
        → t.transport.0 ≡ s.transport.0
        → Grows s.outbox t.outbox
        → Once t
    Once-same s t o same grows = record {
      distinct = rw same o.distinct;
      recorded = λ k h. grows k (o.recorded k (rw same at h));
    }

    Once-new :
        (key : String) (s t : Messaging (List String × U))
        → Once s
        → any (has_key key) s.outbox.rows ≡ false
        → t.transport.0 ≡ key ∷ s.transport.0
        → Grows s.outbox t.outbox
        → Has key t.outbox
        → Once t
    Once-new key s t o fresh sent grows has = record {
      distinct = rw sent (unsent key s.transport.0 s.outbox (o.recorded key) fresh, o.distinct);
      recorded = λ k h. elim (among-cons k key s.transport.0 (rw sent at h)) [
        | inl same ↦ subst (λ j. Has j t.outbox) same has
        | inr old ↦ grows k (o.recorded k old)
      ];
    }

    begun-Once :
        (q : ExecutionRequest) (s t : Messaging (List String × U))
        (r : Result (Bool × Option Fields))
        → Once s
        → t.transport ≡ s.transport
        → Begun text dumps sha256 write_fails q.idempotency_key s.outbox r t.outbox
        → Once
            (proceed (r, t) (begun text dumps sha256 write_fails (recording send) is_os_error q)).1
    unfolding begun
    begun-Once q s t (err e) o same b = Once-same s t o (rw same) b.grows
    begun-Once q s t (ok (true, receipt)) o same b = Once-same s t o (rw same) b.grows
    begun-Once q s t (ok (false, receipt)) o same b =
        let d = dispatch-Delivered q t in
        let (absent, has) = b.fresh receipt refl in
        elim d.sent [
          | inl nothing ↦
              Once-same s _ o (nothing ∙ ap (λ p. p.0) same) (λ k old. d.kept k (b.grows k old))
          | inr new ↦
              Once-new q.idempotency_key s _ o absent (new ∙ ap (λ p. q.idempotency_key ∷ p.0) same)
                (λ k old. d.kept k (b.grows k old)) (d.kept q.idempotency_key has)
        ]

    execute-Once :
        (q : ExecutionRequest) (s : Messaging (List String × U))
        → Once s
        → Once (execute text dumps sha256 write_fails (recording send) is_os_error q s).1
    unfolding execute
    execute-Once q s o = elim (Bool-cases (not (q.action == "send_message"))) [
      | inl other ↦ rw other o
      | inr message ↦
          rw (message, handled-state _)
            (begun-Once q s _ _ o refl (begin-Begun text dumps sha256 write_fails q s.outbox))
    ]

    execute_all-Once :
        (qs : List ExecutionRequest) (s : Messaging (List String × U))
        → Once s
        → Once (execute_all text dumps sha256 write_fails (recording send) is_os_error qs s)
    unfolding execute_all
    execute_all-Once [] s o = o
    execute_all-Once (q ∷ qs) s o = execute_all-Once qs _ (execute-Once q s o)

    -- From an outbox without rows, any sequence of requests hands each idempotency key to the transport
    -- once at most, whatever the transport answers or raises and wherever a write of the outbox fails.
    pub send-once :
        (qs : List ExecutionRequest) (u : U) (writes : ℕ)
        → Distinct
            (execute_all text dumps sha256 write_fails
              (recording send)
              is_os_error
              qs
              (unused u writes)).transport.0
    send-once qs u writes = (execute_all-Once qs (unused u writes) (unused-Once u writes)).distinct
