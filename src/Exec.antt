-- ===== src/Exec.antt =====
-- Methods that change an object and may raise. What was written before a raise stays written, so the
-- state comes back beside the error too.
pub mod Respects
pub mod Returns
use responsibility_pathway_r.Prelude.{Bool, true, false}
use responsibility_pathway_r.Errors.{Error, Result, ok, err}

abbrev pub Exec : Type 0 → Type 0 → Type 0
Exec S A = S → Result A × S

module _ {S A : Type 0} where
  abbrev pub pure : A → Exec S A
  pure a s = (ok a, s)

  abbrev pub raise : Error → Exec S A
  raise e s = (err e, s)

  abbrev pub lift : Result A → Exec S A
  lift r s = (r, s)

  abbrev pub gets : (S → A) → Exec S A
  gets f s = (ok (f s), s)

module _ {S A B : Type 0} where
  abbrev pub proceed : Result A × S → (A → Exec S B) → Result B × S
  proceed (ok a, s) f = f a s
  proceed (err e, s) f = (err e, s)

  infixl 5 ◌>>=◌ ◌>>◌
  abbrev pub ◌>>=◌ : Exec S A → (A → Exec S B) → Exec S B
  ◌>>=◌ m f s = proceed (m s) f

  abbrev pub ◌>>◌ : Exec S A → Exec S B → Exec S B
  m >> n = m >>= λ _. n

  -- `try: m` with a handler for every exception, and with an `else` branch
  abbrev pub outcome : Result A × S → (A → Exec S B) → (Error → Exec S B) → Result B × S
  outcome (ok a, s) f g = f a s
  outcome (err e, s) f g = g e s

  abbrev pub try : Exec S A → (A → Exec S B) → (Error → Exec S B) → Exec S B
  try m f g s = outcome (m s) f g

-- A guard of a method: `if not test: raise error`.
abbrev pub require : {S : Type 0} → Bool → Error → Exec S (Unit {0})
require true e s = (ok tt, s)
require false e s = (err e, s)
