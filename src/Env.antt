-- ===== src/Env.antt =====
-- What the program takes from its surroundings: the text forms, the hash function, the clock and the
-- faults of the database. Each is an argument of every definition that uses it.
use responsibility_pathway_r.Prelude.{ℕ, String, Bool}
use responsibility_pathway_r.Value.{Value}

pub record Env : Type 0 where
  -- `str(value)`
  pub text : Value → String
  -- `text.casefold()`
  pub casefold : String → String
  -- `json.dumps(value, sort_keys=True, separators=(",", ":"), ensure_ascii=False)`
  pub dumps : Value → String
  -- `hashlib.sha256(text.encode("utf-8")).hexdigest()`
  pub sha256 : String → String
  -- the n-th reading of `datetime.now(UTC).isoformat()`
  pub now : ℕ → String
  -- whether the n-th write transaction raises `sqlite3.OperationalError` (a lock, a full disk)
  pub write_fails : ℕ → Bool
