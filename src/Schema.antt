-- ===== src/Schema.antt =====
-- storage.py, attempts.py, message_executor.py and tenant.py: `_migrate` and `schema_version` of the four
-- databases, and the backfill of fingerprints.
pub mod Again
pub mod Backfill
pub mod Open
pub mod Version
use responsibility_pathway_r.Prelude.{
  ℕ, String, Bool, true, false, not, ◌&&◌, Option, none, some, List, [], ◌∷◌, ◌++◌, ◌==◌, any, map,
  leb, if◌then◌else◌,
}
use responsibility_pathway_r.Errors.{
  Error, Result, ok, err, operational_error, other_error, schema_version_error,
  attempt_schema_version_error, ◌>>=◌, ◌>>◌,
}
use responsibility_pathway_r.Value.{ℤ, pos, negsuc, dict}
use responsibility_pathway_r.Env.{Env}
use responsibility_pathway_r.World.{PathwayRow}

-- A table, by its name and the names of its columns.
pub record Table : Type 0 where
  pub table_name : String
  pub columns : List String

-- What a database has: its tables and indexes, and the row `schema_version` of the metadata.
pub record Schema : Type 0 where
  pub tables : List Table
  pub indexes : List String
  pub version : Option String

-- What a class asks of its database.
pub record Migration : Type 0 where
  pub current : ℕ
  pub version_text : String
  pub version_error : Error
  pub creates : List Table
  pub added_column : Option (String × String)
  pub created_index : Option String

abbrev pub is_named : String → Table → Bool
is_named n t = t.table_name == n

-- `CREATE TABLE IF NOT EXISTS`
unfoldable pub create : Table → List Table → List Table
unfolding any
create t ts = if any (is_named t.table_name) ts then ts else ts ++ t ∷ []

unfoldable pub create_all : List Table → List Table → List Table
unfolding create
create_all [] ts = ts
create_all (c ∷ cs) ts = create_all cs (create c ts)

-- `ALTER TABLE … ADD COLUMN …`, if `PRAGMA table_info` does not show the column
unfoldable pub with_column : String → String → Table → Table
unfolding any
with_column n c t =
    if is_named n t && not (any (λ d. d == c) t.columns)
    then record t { columns = t.columns ++ c ∷ [] }
    else t

unfoldable pub add_column : Option (String × String) → List Table → List Table
unfolding with_column
add_column none ts = ts
add_column (some (n, c)) ts = map (with_column n c) ts

-- `CREATE UNIQUE INDEX IF NOT EXISTS`
unfoldable pub create_index : Option String → List String → List String
unfolding any
create_index none xs = xs
create_index (some x) xs = if any (λ y. y == x) xs then xs else xs ++ x ∷ []

-- `0 if row is None else int(row["value"])`; `parse_int` is `int` of a text.
unfoldable pub version_of : (String → Result ℤ) → Option String → Result ℤ
version_of parse_int none = ok (pos 0)
version_of parse_int (some t) = parse_int t

-- The versions that are refused: newer ones, and negative ones.
unfoldable pub check_version : Migration → ℤ → Result (Unit {0})
check_version m (pos n) = if leb n m.current then ok tt else err m.version_error
check_version m (negsuc n) = err m.version_error

-- The statements of the transaction after the tests.
unfoldable pub migrated : Migration → Schema → Schema
unfolding create_all add_column create_index
migrated m s = record {
  tables = add_column m.added_column (create_all m.creates s.tables);
  indexes = create_index m.created_index s.indexes;
  version = some m.version_text;
}

committed : Migration → Result (Unit {0}) → Bool → Schema → Result (Unit {0}) × Schema
unfolding migrated
committed m (err e) fails s = (err e, s)
committed m (ok u) true s = (err operational_error, s)
committed m (ok u) false s = (ok tt, migrated m s)

-- The transaction of `_migrate`, which is rolled back if a test or the database raises. It is all of
-- `_migrate` but for SQLiteStore, whose backfill follows (Schema/Open).
unfoldable pub migrate :
    (String → Result ℤ) → Bool → Migration → Schema → Result (Unit {0}) × Schema
unfolding version_of check_version committed
migrate parse_int fails m s =
    committed m (version_of parse_int s.version >>= check_version m) fails s

-- `schema_version`
unfoldable pub schema_version : (String → Result ℤ) → Migration → Schema → Result ℤ
schema_version parse_int m s = elim s.version [ none ↦ err m.version_error | some t ↦ parse_int t ]

abbrev metadata : String → Table
metadata n = record { table_name = n; columns = "key" ∷ "value" ∷ [] }

-- SQLiteStore
abbrev pub store_migration : Migration
store_migration = record {
  current = 1;
  version_text = "1";
  version_error = schema_version_error;
  creates =
      metadata "rpy_schema_metadata"
      ∷ record {
        table_name = "pathways";
        columns =
            "pathway_id" ∷ "definition_json" ∷ "definition_fingerprint" ∷ "state"
            ∷ "idempotency_key" ∷ "created_at" ∷ "updated_at" ∷ [];
      }
      ∷ record {
        table_name = "evidence_events";
        columns = "sequence" ∷ "pathway_id" ∷ "event_json" ∷ "event_hash" ∷ [];
      }
      ∷ [];
  added_column = some ("pathways", "definition_fingerprint");
  created_index = none;
}

-- SQLiteExecutionAttemptLedger
abbrev pub ledger_migration : Migration
ledger_migration = record {
  current = 1;
  version_text = "1";
  version_error = attempt_schema_version_error;
  creates =
      metadata "rpy_attempt_schema_metadata"
      ∷ record {
        table_name = "execution_attempts";
        columns =
            "attempt_id" ∷ "pathway_id" ∷ "operation_id" ∷ "idempotency_key" ∷ "request_fingerprint"
            ∷ "status" ∷ "result_json" ∷ "created_at" ∷ "updated_at" ∷ [];
      }
      ∷ [];
  added_column = none;
  created_index = some "execution_attempt_idempotency";
}

-- SQLiteOutbox
abbrev pub outbox_migration : Migration
outbox_migration = record {
  current = 1;
  version_text = "1";
  version_error = other_error "OutboxSchemaVersionError";
  creates =
      metadata "rpy_outbox_schema_metadata"
      ∷ record {
        table_name = "message_outbox";
        columns =
            "idempotency_key" ∷ "fingerprint" ∷ "status" ∷ "receipt_json" ∷ "created_at"
            ∷ "updated_at" ∷ [];
      }
      ∷ [];
  added_column = none;
  created_index = none;
}

-- SQLiteTenantRegistry
abbrev pub tenant_migration : Migration
tenant_migration = record {
  current = 1;
  version_text = "1";
  version_error = other_error "TenantSchemaVersionError";
  creates =
      metadata "rpy_tenant_schema_metadata"
      ∷ record {
        table_name = "tenant_pathways";
        columns = "pathway_id" ∷ "tenant_id" ∷ "created_at" ∷ [];
      }
      ∷ [];
  added_column = none;
  created_index = none;
}

-- The rows that `_backfill_fingerprints` writes; a fingerprint that is NULL is the empty text here. The
-- canonical text of a definition decodes to the same definition.
unfoldable pub with_fingerprint : Env → PathwayRow → PathwayRow
with_fingerprint env r =
    if r.fingerprint == ""
    then record r { fingerprint = env.sha256 (env.dumps (dict r.definition)) }
    else r

-- `_backfill_fingerprints`, one transaction
unfoldable pub backfill_fingerprints :
    Env → Bool → List PathwayRow → Result (Unit {0}) × List PathwayRow
unfolding with_fingerprint any
backfill_fingerprints env fails rows =
    if not (any (λ r. r.fingerprint == "") rows)
    then (ok tt, rows)
    else if fails
    then (err operational_error, rows)
    else (ok tt, map (with_fingerprint env) rows)
