-- ===== src/Schema/Backfill.antt =====
-- storage.py: what `_backfill_fingerprints` makes of the rows.
use responsibility_pathway_r.Prelude.{
  Bool, true, false, ◌≡◌, refl, ap, List, [], ◌∷◌, ◌==◌, any, map, arith, Bool-cases, inl, inr, ◌⊎◌,
}
use responsibility_pathway_r.Errors.{ok, err, operational_error}
use responsibility_pathway_r.Value.{dict}
use responsibility_pathway_r.Env.{Env}
use responsibility_pathway_r.World.{PathwayRow}
use responsibility_pathway_r.Schema.{with_fingerprint, backfill_fingerprints}

-- The rows after a backfill: those that had a fingerprint as they were, and the others with the hash
-- of the canonical text of their definition.
pub data Filled (env : Env) : List PathwayRow → List PathwayRow → Type 0 where
  no_row : Filled env [] []
  had :
      (r : PathwayRow) {rows filled : List PathwayRow}
      → (r.fingerprint == "") ≡ false
      → Filled env rows filled
      → Filled env (r ∷ rows) (r ∷ filled)
  lacked :
      (r : PathwayRow) {rows filled : List PathwayRow}
      → (r.fingerprint == "") ≡ true
      → Filled env rows filled
      → Filled env
          (r ∷ rows)
          (record r { fingerprint = env.sha256 (env.dumps (dict r.definition)) } ∷ filled)

module _ (env : Env) where
  pub with_fingerprint-again :
      (r : PathwayRow) → with_fingerprint env (with_fingerprint env r) ≡ with_fingerprint env r
  unfolding with_fingerprint
  with_fingerprint-again r = elim (Bool-cases (r.fingerprint == "")) [
    | inl missing ↦ ground arith
    | inr there ↦ rw (there, there) refl
  ]

  pub map-Filled : (rows : List PathwayRow) → Filled env rows (map (with_fingerprint env) rows)
  unfolding with_fingerprint
  map-Filled [] = no_row
  map-Filled (r ∷ rows) = elim (Bool-cases (r.fingerprint == "")) [
    | inl missing ↦ rw missing (lacked r missing (map-Filled rows))
    | inr there ↦ rw there (had r there (map-Filled rows))
  ]

  complete-same :
      (rows : List PathwayRow)
      → any (λ r. r.fingerprint == "") rows ≡ false
      → map (with_fingerprint env) rows ≡ rows
  unfolding with_fingerprint any
  complete-same [] complete = refl
  complete-same (r ∷ rows) complete = elim (Bool-cases (r.fingerprint == "")) [
    | inl missing ↦ absurd (ground arith)
    | inr there ↦ rw there (ap (λ rs. r ∷ rs) (complete-same rows (rw there at complete)))
  ]

  pub backfill-works :
      (rows : List PathwayRow)
      → backfill_fingerprints env false rows ≡ (ok tt, map (with_fingerprint env) rows)
  unfolding backfill_fingerprints
  backfill-works rows = elim (Bool-cases (any (λ r. r.fingerprint == "") rows)) [
    | inl missing ↦ rw missing refl
    | inr complete ↦ rw (complete, complete-same rows complete) refl
  ]

  pub backfill-cases :
      (fails : Bool) (rows : List PathwayRow)
      → ((backfill_fingerprints env fails rows ≡ (err operational_error, rows))
          × (fails ≡ true)
          × (any (λ r. r.fingerprint == "") rows ≡ true))
        ⊎ (backfill_fingerprints env fails rows ≡ (ok tt, map (with_fingerprint env) rows))
  unfolding backfill_fingerprints
  backfill-cases false rows = inr (backfill-works rows)
  backfill-cases true rows = elim (Bool-cases (any (λ r. r.fingerprint == "") rows)) [
    | inl missing ↦ inl (rw missing refl, refl, missing)
    | inr complete ↦ inr (rw (complete, complete-same rows complete) refl)
  ]
