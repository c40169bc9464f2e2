-- ===== src/Mcp/Lifecycle.antt =====
-- mcp_subprocess_lifecycle.py: McpSubprocessLifecycle, the bounded shutdown of a process.
pub mod Acts
pub mod Again
pub mod Course
use responsibility_pathway_r.Prelude.{String, Bool, true, false, Option, none, some, if◌then◌else◌}
use responsibility_pathway_r.Errors.{Error, Result, ok, err, value_error, other_error}
use responsibility_pathway_r.Exec.{Exec, outcome, try, pure, raise, ◌>>=◌, ◌>>◌}
use responsibility_pathway_r.Value.{Value, ℤ, int}

-- McpProcessLifecycleError
abbrev pub lifecycle_error : Error
lifecycle_error = other_error "McpProcessLifecycleError"

-- McpProcessExit
pub record ProcessExit : Type 0 where
  pub exit_code : ℤ
  pub graceful : Bool
  pub terminated : Bool
  pub killed : Bool

-- McpProcessHandle, of a process and its pipes in a state of the type `T`; a timeout is of the type `F`.
pub record Handle (F T : Type 0) : Type 0 where
  pub close_stdin : Exec T (Unit {0})
  pub wait : F → Exec T Value
  pub terminate : Exec T (Unit {0})
  pub kill : Exec T (Unit {0})
  pub close_pipes : Exec T (Unit {0})

pub record Timeouts (F : Type 0) : Type 0 where
  pub graceful_timeout_seconds : F
  pub terminate_timeout_seconds : F
  pub kill_timeout_seconds : F

-- `_timeout`, of a number: `is_positive` is `0 < float(value)`.
timeout_of : {F : Type 0} → (F → Bool) → F → Result F
timeout_of is_positive value = if is_positive value then ok value else err value_error

-- McpSubprocessLifecycle, beside the state of its handle
pub record Lifecycle (T : Type 0) : Type 0 where
  pub process : T
  pub result : Option ProcessExit
  pub closing : Bool

abbrev exited : ℤ → Bool → Bool → Bool → ProcessExit
exited code graceful terminated killed = record {
  exit_code = code;
  graceful = graceful;
  terminated = terminated;
  killed = killed;
}

-- `is_timeout` is `isinstance(exc, TimeoutError)`.
module _ {F T : Type 0} (h : Handle F T) (timeouts : Timeouts F) (is_timeout : Error → Bool) where
  -- `_call`
  unfoldable pub call : Exec T (Unit {0}) → Exec T (Unit {0})
  call operation = try operation pure (λ _. raise lifecycle_error)

  exit_of : (ℤ → ProcessExit) → Value → Exec T ProcessExit
  exit_of end_of (int code) = pure (end_of code)
  exit_of end_of _ = raise lifecycle_error

  not_exited : Exec T ProcessExit → Error → Exec T ProcessExit
  not_exited otherwise e = if is_timeout e then otherwise else raise lifecycle_error

  -- `_wait` under `except TimeoutError`
  unfoldable pub wait_or : F → (ℤ → ProcessExit) → Exec T ProcessExit → Exec T ProcessExit
  unfolding exit_of not_exited
  wait_or timeout end_of otherwise = try (h.wait timeout) (exit_of end_of) (not_exited otherwise)

  kill_and_wait : Exec T ProcessExit
  unfolding call wait_or
  kill_and_wait =
      call h.kill
      >> wait_or timeouts.kill_timeout_seconds (λ code. exited code false true true)
          (raise lifecycle_error)

  terminate_and_wait : Exec T ProcessExit
  unfolding call wait_or kill_and_wait
  terminate_and_wait =
      call h.terminate
      >> wait_or timeouts.terminate_timeout_seconds (λ code. exited code false true false)
          kill_and_wait

  -- The `try` block of `shutdown`.
  stop_process : Exec T ProcessExit
  unfolding call wait_or terminate_and_wait
  stop_process =
      call h.close_stdin
      >> wait_or timeouts.graceful_timeout_seconds (λ code. exited code true false false)
          terminate_and_wait

  -- The `finally` block, and what comes after it: any error is McpProcessLifecycleError.
  concluded : Result ProcessExit → Result (Unit {0}) → Result ProcessExit
  concluded (err e) closed = err lifecycle_error
  concluded (ok r) (err e) = err lifecycle_error
  concluded (ok r) (ok u) = ok r

  result_of : Result ProcessExit → Option ProcessExit
  result_of (ok r) = some r
  result_of (err e) = none

  shutdown_process : Exec T ProcessExit
  unfolding stop_process call concluded
  shutdown_process t =
      let stopped = stop_process t in
      let closed = call h.close_pipes stopped.1 in (concluded stopped.0 closed.0, closed.1)

  shutdown_once : Option ProcessExit → Exec (Lifecycle T) ProcessExit
  unfolding shutdown_process result_of
  shutdown_once (some r) s = (ok r, s)
  shutdown_once none s =
      if s.closing
      then (err lifecycle_error, s)
      else let ended = shutdown_process s.process in
        (ended.0, record { process = ended.1; result = result_of ended.0; closing = false })

  -- `shutdown`
  unfoldable pub shutdown : Exec (Lifecycle T) ProcessExit
  unfolding shutdown_once
  shutdown s = shutdown_once s.result s
