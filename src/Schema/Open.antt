-- ===== src/Schema/Open.antt =====
-- storage.py: opening a database, `SQLiteStore._migrate` with the backfill of fingerprints at its end.
use responsibility_pathway_r.Prelude.{
  String, Bool, true, false, ◌≡◌, refl, ap, ◌∙◌, some, List, ◌==◌, any, map, inl, inr,
}
use responsibility_pathway_r.Errors.{Error, Result, ok, err, operational_error, ◌>>=◌}
use responsibility_pathway_r.Value.{ℤ, pos}
use responsibility_pathway_r.Env.{Env}
use responsibility_pathway_r.World.{PathwayRow}
use responsibility_pathway_r.Schema.{
  create_all, Schema, store_migration, version_of, check_version, migrated, migrate, committed,
  with_fingerprint, backfill_fingerprints,
}
use responsibility_pathway_r.Schema.Backfill.{
  Filled, with_fingerprint-again, map-Filled, backfill-works, backfill-cases,
}
use responsibility_pathway_r.Schema.Version.{
  Refused, Accepted, Judged, refused, accepted, version-Judged,
}
use responsibility_pathway_r.Schema.Again.{
  map-map_same, AllPresent, HasColumn, add_column-HasColumn, migrated-AllPresent, migrated-version,
  migrated-again, migrate_current,
}

-- A database of a SQLiteStore: its schema and the rows of `pathways`.
pub record Database : Type 0 where
  pub schema : Schema
  pub rows : List PathwayRow

with_rows : Schema → Result (Unit {0}) × List PathwayRow → Result (Unit {0}) × Database
with_rows s (r, rows) = (r, record { schema = s; rows = rows })

-- The call of `_backfill_fingerprints`, which a transaction that raised does not reach.
backfilled :
    Env → Bool → List PathwayRow → Result (Unit {0}) × Schema → Result (Unit {0}) × Database
unfolding with_rows
backfilled env fails rows (err e, s) = (err e, record { schema = s; rows = rows })
backfilled env fails rows (ok u, s) = with_rows s (backfill_fingerprints env fails rows)

-- `SQLiteStore._migrate`: the transaction that migrates the schema, and after its COMMIT the
-- transaction of the backfill. Each may fail at the database.
unfoldable pub open_store :
    (String → Result ℤ) → Env → Bool → Bool → Database → Result (Unit {0}) × Database
unfolding backfilled
open_store parse_int env migrate_fails backfill_fails d =
    backfilled env backfill_fails d.rows (migrate parse_int migrate_fails store_migration d.schema)

-- The database with the current schema and a fingerprint in every row.
abbrev pub settled : Env → Database → Database
settled env d = record {
  schema = migrated store_migration d.schema;
  rows = map (with_fingerprint env) d.rows;
}

-- The database with the current schema and its old rows.
abbrev pub unsettled : Database → Database
unsettled d = record { schema = migrated store_migration d.schema; rows = d.rows }

-- The tables of a SQLiteStore are there, the pathways have the column of their fingerprints, and the
-- version is the current one.
pub record IsCurrent (s : Schema) : Type 0 where
  pub present : AllPresent store_migration.creates s.tables
  pub column : HasColumn "pathways" "definition_fingerprint" s.tables
  pub version : s.version ≡ some "1"

-- What opening a database comes to.
pub data Opened (parse_int : String → Result ℤ) (env : Env) (migrate_fails backfill_fails : Bool)
    (d : Database) : Result (Unit {0}) × Database → Type 0 where
  refused_version :
      (e : Error)
      → Refused parse_int d.schema.version
      → Opened parse_int env migrate_fails backfill_fails d (err e, d)
  unmigrated :
      migrate_fails ≡ true
      → Accepted parse_int d.schema.version
      → Opened parse_int env migrate_fails backfill_fails d (err operational_error, d)
  unfilled :
      backfill_fails ≡ true
      → any (λ r. r.fingerprint == "") d.rows ≡ true
      → Accepted parse_int d.schema.version
      → IsCurrent (unsettled d).schema
      → open_store parse_int env false false (unsettled d) ≡ (ok tt, settled env d)
      → Opened parse_int env migrate_fails backfill_fails d (err operational_error, unsettled d)
  opened :
      Accepted parse_int d.schema.version
      → IsCurrent (settled env d).schema
      → Filled env d.rows (settled env d).rows
      → open_store parse_int env false false (settled env d) ≡ (ok tt, settled env d)
      → Opened parse_int env migrate_fails backfill_fails d (ok tt, settled env d)

module _ (env : Env) where
  module _ (parse_int : String → Result ℤ) (read : parse_int "1" ≡ ok (pos 1)) where
    open-current :
        (s : Schema) (rows : List PathwayRow)
        → open_store parse_int env false false
            (record { schema = migrated store_migration s; rows = rows })
          ≡ (
            ok tt,
            record { schema = migrated store_migration s; rows = map (with_fingerprint env) rows },
          )
    unfolding open_store backfilled with_rows
    open-current s rows =
        ap (backfilled env false rows) (
          migrate_current parse_int store_migration read (migrated store_migration s)
            (migrated-version parse_int store_migration read s)
          ∙ ap (λ t. (ok tt, t)) (migrated-again store_migration s))
        ∙ ap (with_rows (migrated store_migration s)) (backfill-works env rows)

    open-settled :
        (d : Database)
        → open_store parse_int env false false (settled env d) ≡ (ok tt, settled env d)
    open-settled d =
        open-current d.schema (map (with_fingerprint env) d.rows)
        ∙ ap (λ rows. (ok tt, record { schema = migrated store_migration d.schema; rows = rows }))
            (map-map_same (with_fingerprint env) d.rows (with_fingerprint-again env))

    current : (s : Schema) → IsCurrent (migrated store_migration s)
    unfolding migrated
    current s = record {
      present = migrated-AllPresent store_migration s;
      column =
          add_column-HasColumn "pathways" "definition_fingerprint"
            (create_all store_migration.creates s.tables);
      version = migrated-version parse_int store_migration read s;
    }

    backfilled-Opened :
        (migrate_fails fails : Bool) (d : Database)
        → Accepted parse_int d.schema.version
        → Opened parse_int env migrate_fails fails d
            (with_rows (migrated store_migration d.schema) (backfill_fingerprints env fails d.rows))
    unfolding with_rows
    backfilled-Opened migrate_fails fails d acceptable = elim (backfill-cases env fails d.rows) [
      | inl (raises, broken, missing) ↦
          rw raises
            (unfilled broken missing acceptable (current d.schema) (open-current d.schema d.rows))
      | inr works ↦
          rw works (opened acceptable (current d.schema) (map-Filled env d.rows) (open-settled d))
    ]

    committed-Opened :
        (c : Result (Unit {0})) (migrate_fails backfill_fails : Bool) (d : Database)
        → Judged parse_int c d.schema.version
        → Opened parse_int env migrate_fails backfill_fails d (
            backfilled env backfill_fails d.rows
              (committed store_migration c migrate_fails d.schema))
    unfolding committed backfilled
    committed-Opened _ migrate_fails backfill_fails d (refused e why) = refused_version e why
    committed-Opened _ true backfill_fails d (accepted acceptable) = unmigrated refl acceptable
    committed-Opened _ false backfill_fails d (accepted acceptable) =
        backfilled-Opened false backfill_fails d acceptable

-- Let "1" be read as the number 1. Opening a database, whatever it has, comes to one of four. Its
-- version is refused, as it is no number, or newer, or negative: it raises and the database is as it
-- was. Or the version is accepted, and the first transaction fails: it raises and the database is as it
-- was. Or the second transaction, the backfill of missing fingerprints, fails: it raises, the schema is
-- already the current one, the rows are the old ones, and opening it again without a failure writes
-- the fingerprints. Or it succeeds: the schema is the current one, the rows without a fingerprint
-- have the hash of their definition and the others are as they were, and opening it again changes
-- nothing. A current schema has the tables of the store, the column of the fingerprints and the
-- version "1".
pub open_store-Opened :
    (env : Env) (parse_int : String → Result ℤ) (migrate_fails backfill_fails : Bool) (d : Database)
    → parse_int "1" ≡ ok (pos 1)
    → Opened parse_int env migrate_fails backfill_fails d
        (open_store parse_int env migrate_fails backfill_fails d)
unfolding open_store migrate
open_store-Opened env parse_int migrate_fails backfill_fails d read =
    committed-Opened env parse_int read
      (version_of parse_int d.schema.version >>= check_version store_migration) migrate_fails
      backfill_fails d (version-Judged parse_int d.schema.version)
