-- ===== src/Mcp/Lifecycle/Course.antt =====
-- mcp_subprocess_lifecycle.py: in which order a shutdown acts on the process, and that it closes the
-- pipes however it ends.
use responsibility_pathway_r.Prelude.{
  Bool, true, false, ◌≡◌, refl, ap, Option, none, some, List, [], ◌∷◌, Bool-cases, inl, inr,
}
use responsibility_pathway_r.Errors.{Error, Result, ok, err}
use responsibility_pathway_r.Exec.{Exec, proceed, outcome, pure, raise}
use responsibility_pathway_r.Value.{Value, ℤ, int, null, bool, float, str, list, dict, object}
use responsibility_pathway_r.Mcp.Lifecycle.{
  lifecycle_error, ProcessExit, Handle, Timeouts, Lifecycle, call, exit_of, not_exited, wait_or,
  kill_and_wait, terminate_and_wait, stop_process, concluded, result_of, shutdown_process,
  shutdown_once, shutdown,
}
use responsibility_pathway_r.Mcp.Lifecycle.Acts.{
  Act, close_stdin, wait, terminate, kill, close_pipes, noted, recording, Broken, not_late, no_code,
  asked, pressed, forced, Course, no_stdin, graceful, broken_graceful, no_terminate, terminated,
  broken_terminate, no_kill, killed, broken_kill, alive,
}

module _ {F : Type 0} (w : Timeouts F) (is_timeout : Error → Bool) where
  module _ {U : Type 0} (h : Handle F U) where
    abbrev Followed : Result ProcessExit × (List (Act F) × U) → Type 0
    Followed r = Course w is_timeout r.0 r.1.0

    -- The end of a wait: an exit, an error, or what comes after the timeout.
    waited :
        (P : Result ProcessExit × (List (Act F) × U) → Type 0) (end_of : ℤ → ProcessExit)
        (otherwise : Exec (List (Act F) × U) ProcessExit) (timeout : F) (log : List (Act F))
        (p : Result Value × U)
        → ((code : ℤ) (u : U) → P (ok (end_of code), (wait timeout (ok (int code)) ∷ log, u)))
        → ((r : Result Value) (u : U)
            → Broken w is_timeout r
            → P (err lifecycle_error, (wait timeout r ∷ log, u)))
        → ((e : Error) (u : U)
            → is_timeout e ≡ true
            → P (otherwise (wait timeout (err e) ∷ log, u)))
        → P (
            outcome
              (noted (wait timeout) log p)
              (exit_of (recording h) w is_timeout end_of)
              (not_exited (recording h) w is_timeout otherwise))
    unfolding exit_of not_exited
    waited P end_of otherwise timeout log (ok (int code), u) a b c = a code u
    waited P end_of otherwise timeout log (ok null, u) a b c = b _ u (no_code _ refl)
    waited P end_of otherwise timeout log (ok (bool x), u) a b c = b _ u (no_code _ refl)
    waited P end_of otherwise timeout log (ok (float x t), u) a b c = b _ u (no_code _ refl)
    waited P end_of otherwise timeout log (ok (str t), u) a b c = b _ u (no_code _ refl)
    waited P end_of otherwise timeout log (ok (list vs), u) a b c = b _ u (no_code _ refl)
    waited P end_of otherwise timeout log (ok (dict fs), u) a b c = b _ u (no_code _ refl)
    waited P end_of otherwise timeout log (ok (object t), u) a b c = b _ u (no_code _ refl)
    waited P end_of otherwise timeout log (err e, u) a b c = elim (Bool-cases (is_timeout e)) [
      | inl late ↦ rw late (c e u late)
      | inr other ↦ rw other (b (err e) u (not_late e other))
    ]

    called :
        (P : Result ProcessExit × (List (Act F) × U) → Type 0)
        (rest : Exec (List (Act F) × U) ProcessExit) (act : Result (Unit {0}) → Act F)
        (log : List (Act F)) (p : Result (Unit {0}) × U)
        → ((e : Error) (u : U) → P (err lifecycle_error, (act (err e) ∷ log, u)))
        → ((u : U) → P (rest (act (ok tt) ∷ log, u)))
        → P (
            proceed
              (outcome (noted act log p) (pure {S = List (Act F) × U}) (λ _. raise lifecycle_error))
              (λ _. rest))
    called P rest act log (ok x, u) a b = b u
    called P rest act log (err e, u) a b = a e u

    kill-Followed :
        (d e : Error) (u : U)
        → is_timeout d ≡ true
        → is_timeout e ≡ true
        → Followed (
            kill_and_wait
              (recording h)
              w
              is_timeout
              (wait w.terminate_timeout_seconds (err e) ∷ pressed w is_timeout d, u))
    unfolding kill_and_wait call wait_or
    kill-Followed d e u late again =
        called Followed _ kill (wait w.terminate_timeout_seconds (err e) ∷ pressed w is_timeout d)
          (h.kill u) (λ f v. no_kill d e f late again)
          (λ v.
            waited Followed _ _ w.kill_timeout_seconds (forced w is_timeout d e)
              (h.wait w.kill_timeout_seconds v) (λ code _. killed d e code late again)
              (λ r _ broken. broken_kill d e r late again broken)
              (λ f _ still. alive d e f late again still))

    terminate-Followed :
        (d : Error) (u : U)
        → is_timeout d ≡ true
        → Followed (
            terminate_and_wait
              (recording h)
              w
              is_timeout
              (wait w.graceful_timeout_seconds (err d) ∷ asked w is_timeout, u))
    unfolding terminate_and_wait call wait_or
    terminate-Followed d u late =
        called Followed _ terminate (wait w.graceful_timeout_seconds (err d) ∷ asked w is_timeout)
          (h.terminate u) (λ e _. no_terminate d e late)
          (λ v.
            waited Followed _ _ w.terminate_timeout_seconds (pressed w is_timeout d)
              (h.wait w.terminate_timeout_seconds v) (λ code _. terminated d code late)
              (λ r _ broken. broken_terminate d r late broken)
              (λ e t again. kill-Followed d e t late again))

    stop-Followed : (u : U) → Followed (stop_process (recording h) w is_timeout ([], u))
    unfolding stop_process call wait_or
    stop-Followed u =
        called Followed _ close_stdin [] (h.close_stdin u) (λ e _. no_stdin e)
          (λ v.
            waited Followed _ _ w.graceful_timeout_seconds (asked w is_timeout)
              (h.wait w.graceful_timeout_seconds v) (λ code _. graceful code)
              (λ r _ broken. broken_graceful r broken) (λ d t late. terminate-Followed d t late))

    -- How a shutdown ends, by what stopping the process and closing the pipes gave.
    pub data Ended
        : Result ProcessExit
          → Result (Unit {0})
          → Result ProcessExit
          → Option ProcessExit
          → Type 0 where
      kept : (x : ProcessExit) → Ended (ok x) (ok tt) (ok x) (some x)
      not_stopped :
          (e : Error) (closed : Result (Unit {0})) → Ended (err e) closed (err lifecycle_error) none
      not_closed : (x : ProcessExit) (e : Error) → Ended (ok x) (err e) (err lifecycle_error) none

    -- The end of a shutdown: the pipes were closed last, after one of the courses; the lifecycle is not
    -- closing; and it returns and keeps the exit of the course, or raises and keeps none if the course
    -- or the closing of the pipes failed.
    pub record Closed (r : Result ProcessExit × Lifecycle (List (Act F) × U)) : Type 0 where
      pub stopped : Result ProcessExit
      pub acts : List (Act F)
      pub closed : Result (Unit {0})
      pub course : Course w is_timeout stopped acts
      pub log : r.1.process.0 ≡ close_pipes closed ∷ acts
      pub open_again : r.1.closing ≡ false
      pub outcome_is : Ended stopped closed r.0 r.1.result

    closed-log :
        (log : List (Act F)) (p : Result (Unit {0}) × U)
        → (outcome
            (noted close_pipes log p)
            (pure {S = List (Act F) × U})
            (λ _. raise lifecycle_error)).1
          ≡ (close_pipes p.0 ∷ log, p.1)
    closed-log log (ok u, t) = refl
    closed-log log (err e, t) = refl

    ends :
        (stopped : Result ProcessExit) (log : List (Act F)) (p : Result (Unit {0}) × U)
        → (let end =
              concluded
                (recording h)
                w
                is_timeout
                stopped
                (outcome
                  (noted close_pipes log p)
                  (pure {S = List (Act F) × U})
                  (λ _. raise lifecycle_error)).0 in
            Ended stopped p.0 end (result_of (recording h) w is_timeout end))
    unfolding concluded result_of
    ends (err e) log p = not_stopped e p.0
    ends (ok x) log (err e, t) = not_closed x e
    ends (ok x) log (ok u, t) = kept x

    -- A shutdown that is not under way and was not done, whatever the handle answers or raises: it
    -- closes stdin and waits; if and only if that wait raises a timeout it terminates the process and
    -- waits; if and only if that one does too it kills it and waits; an exit code ends this, and any
    -- other error or answer ends it with an error; and last it closes the pipes. It returns and keeps
    -- the exit, or, if the process was not stopped or the pipes were not closed, raises.
    pub shutdown-Closed :
        (u : U)
        → Closed (
            shutdown
              (recording h)
              w
              is_timeout
              (record { process = ([], u); result = none; closing = false }))
    unfolding shutdown shutdown_once shutdown_process call
    shutdown-Closed u =
        let stopped = stop_process (recording h) w is_timeout ([], u) in
        record {
          stopped = stopped.0;
          acts = stopped.1.0;
          closed = (h.close_pipes stopped.1.1).0;
          course = stop-Followed u;
          log =
              ap (λ (t : List (Act F) × U). t.0)
                (closed-log stopped.1.0 (h.close_pipes stopped.1.1));
          open_again = refl;
          outcome_is = ends stopped.0 stopped.1.0 (h.close_pipes stopped.1.1);
        }
