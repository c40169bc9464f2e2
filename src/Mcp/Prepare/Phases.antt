-- ===== src/Mcp/Prepare/Phases.antt =====
-- mcp_stable_transport.py: what reaches the server before a call is dispatched.
use responsibility_pathway_r.Prelude.{String, ◌≡◌, refl, ap, ◌∙◌, List, ◌∷◌, Bool-cases, inl, inr}
use responsibility_pathway_r.Errors.{Error, Result, ok, err}
use responsibility_pathway_r.Exec.{Exec, outcome, proceed, lift, pure, ◌>>=◌}
use responsibility_pathway_r.Exec.Returns.{proceed-ends}
use responsibility_pathway_r.Value.{Value, Fields, dict, end}
use responsibility_pathway_r.Execution.{ExecutionRequest}
use responsibility_pathway_r.Mcp.Snapshot.{ServerSnapshot, validate_initialize}
use responsibility_pathway_r.Mcp.Prepare.{
  Orchestrator, PreparedCall, prepared_call, in_phase, initialize_params, transport_failed,
  object_in, request_in, notify_in, admitted, prepare,
}

-- A transport that writes down the methods that it is given, the latest first.
abbrev pub recording :
    {A U : Type 0} → (String → Fields → Exec U A) → String → Fields → Exec (List String × U) A
recording call method params t =
    ((call method params t.1).0, (method ∷ t.0, (call method params t.1).1))

-- The end of a preparation: the methods that were sent, from a log before it.
pub data Sent {A U : Type 0} (log : List String) (r : Result A × (List String × U)) : Type 0 where
  only_initialize : (e : Error) → r.0 ≡ err e → r.1.0 ≡ "initialize" ∷ log → Sent log r
  initialized :
      (e : Error)
      → r.0 ≡ err e
      → r.1.0 ≡ "notifications/initialized" ∷ "initialize" ∷ log
      → Sent log r
  listed : r.1.0 ≡ "tools/list" ∷ "notifications/initialized" ∷ "initialize" ∷ log → Sent log r

module _ (o : Orchestrator) {U : Type 0} (request : String → Fields → Exec U Value)
    (notify : String → Fields → Exec U (Unit {0})) where
  failed-log :
      (A : Type 0) (phase : String) (e : Error) (t : List String × U)
      → (transport_failed o (recording request) (recording notify) {A = A} phase e t).1 ≡ t
  unfolding transport_failed
  failed-log A phase e t = elim (Bool-cases (o.is_transport_failure e)) [
    | inl fails ↦ rw fails
    | inr other ↦ rw other
  ]

  answered-log :
      (phase : String) (p : Result Value × (List String × U))
      → (outcome p
          (object_in o (recording request) (recording notify) phase)
          (transport_failed o (recording request) (recording notify) phase)).1
        ≡ p.1
  unfolding object_in
  answered-log phase (ok (dict fs), t) = refl
  answered-log phase (ok _, t) = refl
  answered-log phase (err e, t) = failed-log Value phase e t

  notified-log :
      (phase : String) (p : Result (Unit {0}) × (List String × U))
      → (outcome p
          (λ u t. (ok u, t))
          (transport_failed o (recording request) (recording notify) phase)).1
        ≡ p.1
  notified-log phase (ok u, t) = refl
  notified-log phase (err e, t) = failed-log (Unit {0}) phase e t

  request-log :
      (method : String) (params : Fields) (phase : String) (t : List String × U)
      → (request_in o (recording request) (recording notify) method params phase t).1.0
        ≡ method ∷ t.0
  unfolding request_in
  request-log method params phase t =
      ap (λ (u : List String × U). u.0) (answered-log phase (recording request method params t))

  notify-log :
      (method : String) (params : Fields) (phase : String) (t : List String × U)
      → (notify_in o (recording request) (recording notify) method params phase t).1.0
        ≡ method ∷ t.0
  unfolding notify_in
  notify-log method params phase t =
      ap (λ (u : List String × U). u.0) (notified-log phase (recording notify method params t))

  listed-Sent :
      (log : List String) (t : List String × U) (r : Result ExecutionRequest)
      (call : ExecutionRequest → PreparedCall)
      → t.0 ≡ "tools/list" ∷ "notifications/initialized" ∷ "initialize" ∷ log
      → Sent log (proceed (lift r t) (λ q. pure (call q)))
  listed-Sent log t (ok q) call h = listed h
  listed-Sent log t (err e) call h = listed h

  -- The preparation from the notification on.
  notified-Sent :
      (tool_name : String) (arguments : Value) (operation_id attempt_id idempotency_key : String)
      (log : List String) (t : List String × U) (server : ServerSnapshot)
      → t.0 ≡ "initialize" ∷ log
      → Sent log (
          proceed
            (notify_in o
              (recording request)
              (recording notify)
              "notifications/initialized"
              end
              "initialized_notification"
              t)
            (λ _.
              request_in o (recording request) (recording notify) "tools/list" end "tools_list"
              >>= λ tools_result.
                  lift (
                    in_phase "admission" (
                      admitted o
                        (recording request)
                        (recording notify)
                        server
                        tools_result
                        tool_name
                        operation_id
                        attempt_id
                        idempotency_key
                        arguments))
                  >>= λ q. pure (prepared_call server tool_name q)))
  notified-Sent tool arguments op attempt key log t server h =
      let notification =
        notify_in o (recording request) (recording notify) "notifications/initialized" end
          "initialized_notification" t in
      let second =
        notify-log "notifications/initialized" end "initialized_notification" t
        ∙ ap (λ l. "notifications/initialized" ∷ l) h in
      let third =
        request-log "tools/list" end "tools_list" notification.1
        ∙ ap (λ l. "tools/list" ∷ l) second in
      proceed-ends (Sent log) notification _ (λ e raised. initialized e refl second)
        (λ _ _.
          proceed-ends (Sent log)
            (request_in o (recording request) (recording notify) "tools/list" end "tools_list"
              notification.1)
            _ (λ e raised. listed third) (λ answer _. listed-Sent log _ _ _ third))

  -- Whatever the server answers and wherever the preparation ends, it has sent `initialize`, then
  -- `notifications/initialized`, then `tools/list`, or the first one or two of these when it raised
  -- there, and nothing else: no tool is called.
  pub prepare-Sent :
      (tool_name : String) (arguments : Value) (operation_id attempt_id idempotency_key : String)
      (log : List String) (u : U)
      → Sent log (
          prepare o
            (recording request)
            (recording notify)
            tool_name
            arguments
            operation_id
            attempt_id
            idempotency_key
            (log, u))
  unfolding prepare
  prepare-Sent tool arguments op attempt key log u =
      let first = request-log "initialize" (initialize_params o) "initialize" (log, u) in
      proceed-ends (Sent log)
        (request_in o (recording request) (recording notify) "initialize" (initialize_params o)
          "initialize" (log, u))
        _ (λ e raised. only_initialize e refl first)
        (λ answer _.
          proceed-ends (Sent log)
            (lift (in_phase "initialize_validation" (validate_initialize o.env answer))
              (request_in o (recording request) (recording notify) "initialize"
                (initialize_params o) "initialize" (log, u)).1)
            _ (λ e raised. only_initialize e refl first)
            (λ server _. notified-Sent tool arguments op attempt key log _ server first))
