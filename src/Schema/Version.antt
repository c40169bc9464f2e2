-- ===== src/Schema/Version.antt =====
-- storage.py: which versions of a database `SQLiteStore._migrate` accepts.
use responsibility_pathway_r.Prelude.{
  ℕ, String, true, false, ◌≡◌, refl, Option, none, some, leb, Bool-cases, inl, inr,
}
use responsibility_pathway_r.Errors.{Error, Result, ok, err, ◌>>=◌}
use responsibility_pathway_r.Value.{ℤ, pos, negsuc}
use responsibility_pathway_r.Schema.{store_migration, version_of, check_version}

module _ (parse_int : String → Result ℤ) where
  -- A version that is no number, or a newer one, or a negative one.
  pub data Refused : Option String → Type 0 where
    unread : (t : String) (e : Error) → parse_int t ≡ err e → Refused (some t)
    newer : (t : String) (n : ℕ) → parse_int t ≡ ok (pos n) → leb n 1 ≡ false → Refused (some t)
    negative : (t : String) (n : ℕ) → parse_int t ≡ ok (negsuc n) → Refused (some t)

  -- No version, or the version 0 or 1.
  pub data Accepted : Option String → Type 0 where
    unversioned : Accepted none
    known : (t : String) (n : ℕ) → parse_int t ≡ ok (pos n) → leb n 1 ≡ true → Accepted (some t)

  -- What the tests of the version give, and why.
  pub data Judged : Result (Unit {0}) → Option String → Type 0 where
    refused : {v : Option String} (e : Error) → Refused v → Judged (err e) v
    accepted : {v : Option String} → Accepted v → Judged (ok tt) v

  text-Judged :
      (t : String) (r : Result ℤ)
      → parse_int t ≡ r
      → Judged (r >>= check_version store_migration) (some t)
  unfolding check_version
  text-Judged t (err e) h = refused e (unread t e h)
  text-Judged t (ok (negsuc n)) h = refused _ (negative t n h)
  text-Judged t (ok (pos n)) h = elim (Bool-cases (leb n 1)) [
    | inl old ↦ rw old (accepted (known t n h old))
    | inr new ↦ rw new (refused _ (newer t n h new))
  ]

  pub version-Judged :
      (v : Option String) → Judged (version_of parse_int v >>= check_version store_migration) v
  unfolding version_of check_version
  version-Judged none = accepted unversioned
  version-Judged (some t) = text-Judged t (parse_int t) refl
