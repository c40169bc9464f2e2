-- ===== src/World.antt =====
-- The two databases as one state, the transaction, and the clock.
-- storage.py and attempts.py write by `BEGIN IMMEDIATE … COMMIT`, with `ROLLBACK` on any exception;
-- a write may also raise `sqlite3.OperationalError` of its own, as the environment says.
pub mod Transactions
use responsibility_pathway_r.Prelude.{ℕ, suc, String, Option, List, if◌then◌else◌}
use responsibility_pathway_r.Errors.{Result, ok, err, operational_error}
use responsibility_pathway_r.Exec.{Exec}
use responsibility_pathway_r.Value.{Value, Fields}
use responsibility_pathway_r.Models.{PathwayState}
use responsibility_pathway_r.Env.{Env}

-- A row of `pathways`; the columns that hold JSON hold here the value that the text decodes to.
pub record PathwayRow : Type 0 where
  pub pathway_id : String
  pub definition : Fields
  pub fingerprint : String
  pub state : PathwayState
  pub idempotency_key : String

-- EvidenceEvent, and a row of `evidence_events`
pub record EvidenceEvent : Type 0 where
  pub pathway_id : String
  pub event_type : String
  pub actor : String
  pub payload : Value
  pub occurred_at : String
  pub previous_hash : Option String
  pub event_hash : String

-- ExecutionAttemptRecord, and a row of `execution_attempts`
pub record AttemptRecord : Type 0 where
  pub pathway_id : String
  pub operation_id : String
  pub attempt_id : String
  pub idempotency_key : String
  pub request_fingerprint : String
  pub status : String
  pub result_json : Option Value

pub record World : Type 0 where
  pub pathways : List PathwayRow
  pub events : List EvidenceEvent
  pub attempts : List AttemptRecord
  -- write transactions begun, and readings of the clock
  pub writes : ℕ
  pub ticks : ℕ

abbrev pub M : Type 0 → Type 0
M A = Exec World A

-- `except Exception: ROLLBACK; raise`
abbrev pub rollback : {A : Type 0} → World → Result A × World → Result A × World
rollback before (ok a, after) = (ok a, after)
rollback before (err e, after) = (err e, before)

unfoldable pub transaction : {A : Type 0} → Env → M A → M A
transaction env body w =
    let begun = record w { writes = suc w.writes } in
    if env.write_fails w.writes then (err operational_error, begun) else rollback begun (body begun)

-- `datetime.now(UTC).isoformat()`
unfoldable pub read_clock : Env → M String
read_clock env w = (ok (env.now w.ticks), record w { ticks = suc w.ticks })
