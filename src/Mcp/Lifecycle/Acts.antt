-- ===== src/Mcp/Lifecycle/Acts.antt =====
-- mcp_subprocess_lifecycle.py: what a shutdown does to the process before it closes the pipes, and what it
-- finds.
use responsibility_pathway_r.Prelude.{Bool, true, false, ◌≡◌, List, [], ◌∷◌}
use responsibility_pathway_r.Errors.{Error, Result, ok, err}
use responsibility_pathway_r.Value.{Value, ℤ, int}
use responsibility_pathway_r.Mcp.Lifecycle.{lifecycle_error, ProcessExit, Handle, Timeouts, exited}

-- What was done to a process, with what it answered or raised.
pub data Act (F : Type 0) : Type 0 where
  close_stdin : Result (Unit {0}) → Act F
  wait : F → Result Value → Act F
  terminate : Result (Unit {0}) → Act F
  kill : Result (Unit {0}) → Act F
  close_pipes : Result (Unit {0}) → Act F

-- An act is written down before the others.
abbrev pub noted :
    {F A U : Type 0}
    → (Result A → Act F)
    → List (Act F)
    → Result A × U
    → Result A × (List (Act F) × U)
noted act log p = (p.0, (act p.0 ∷ log, p.1))

-- A handle that writes down what is done by it and what comes of it, the latest first.
abbrev pub recording : {F U : Type 0} → Handle F U → Handle F (List (Act F) × U)
recording h = record {
  close_stdin = λ t. noted close_stdin t.0 (h.close_stdin t.1);
  wait = λ timeout t. noted (wait timeout) t.0 (h.wait timeout t.1);
  terminate = λ t. noted terminate t.0 (h.terminate t.1);
  kill = λ t. noted kill t.0 (h.kill t.1);
  close_pipes = λ t. noted close_pipes t.0 (h.close_pipes t.1);
}

abbrev pub is_code : Value → Bool
is_code (int code) = true
is_code _ = false

module _ {F : Type 0} (w : Timeouts F) (is_timeout : Error → Bool) where
  -- A wait that ends the escalation without an exit: it raised no timeout, or gave no exit code.
  pub data Broken : Result Value → Type 0 where
    not_late : (e : Error) → is_timeout e ≡ false → Broken (err e)
    no_code : (v : Value) → is_code v ≡ false → Broken (ok v)

  -- The acts after each of which the next step is taken: stdin was closed; the process was late and was
  -- terminated; it was late again and was killed.
  abbrev pub asked : List (Act F)
  asked = close_stdin (ok tt) ∷ []

  abbrev pub pressed : Error → List (Act F)
  pressed e = terminate (ok tt) ∷ wait w.graceful_timeout_seconds (err e) ∷ asked

  abbrev pub forced : Error → Error → List (Act F)
  forced d e = kill (ok tt) ∷ wait w.terminate_timeout_seconds (err e) ∷ pressed d

  -- The acts of a shutdown before it closes the pipes, with what it found: an exit, or an error. Only a
  -- timeout leads to the next step.
  pub data Course : Result ProcessExit → List (Act F) → Type 0 where
    no_stdin : (e : Error) → Course (err lifecycle_error) (close_stdin (err e) ∷ [])
    graceful :
        (code : ℤ)
        → Course
            (ok (exited code true false false))
            (wait w.graceful_timeout_seconds (ok (int code)) ∷ asked)
    broken_graceful :
        (r : Result Value)
        → Broken r
        → Course (err lifecycle_error) (wait w.graceful_timeout_seconds r ∷ asked)
    no_terminate :
        (d e : Error)
        → is_timeout d ≡ true
        → Course
            (err lifecycle_error)
            (terminate (err e) ∷ wait w.graceful_timeout_seconds (err d) ∷ asked)
    terminated :
        (d : Error) (code : ℤ)
        → is_timeout d ≡ true
        → Course
            (ok (exited code false true false))
            (wait w.terminate_timeout_seconds (ok (int code)) ∷ pressed d)
    broken_terminate :
        (d : Error) (r : Result Value)
        → is_timeout d ≡ true
        → Broken r
        → Course (err lifecycle_error) (wait w.terminate_timeout_seconds r ∷ pressed d)
    no_kill :
        (d e f : Error)
        → is_timeout d ≡ true
        → is_timeout e ≡ true
        → Course
            (err lifecycle_error)
            (kill (err f) ∷ wait w.terminate_timeout_seconds (err e) ∷ pressed d)
    killed :
        (d e : Error) (code : ℤ)
        → is_timeout d ≡ true
        → is_timeout e ≡ true
        → Course
            (ok (exited code false true true))
            (wait w.kill_timeout_seconds (ok (int code)) ∷ forced d e)
    broken_kill :
        (d e : Error) (r : Result Value)
        → is_timeout d ≡ true
        → is_timeout e ≡ true
        → Broken r
        → Course (err lifecycle_error) (wait w.kill_timeout_seconds r ∷ forced d e)
    alive :
        (d e f : Error)
        → is_timeout d ≡ true
        → is_timeout e ≡ true
        → is_timeout f ≡ true
        → Course (err lifecycle_error) (wait w.kill_timeout_seconds (err f) ∷ forced d e)
