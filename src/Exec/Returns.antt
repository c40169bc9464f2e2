-- ===== src/Exec/Returns.antt =====
-- An action that returns: each of its steps has returned.
use responsibility_pathway_r.Prelude.{ap, ◌≡◌, refl, arith}
use responsibility_pathway_r.Errors.{Error, Result, ok, err}
use responsibility_pathway_r.Exec.{Exec, proceed, lift, ◌>>=◌}

module _ {S A : Type 0} where
  pub same-returned :
      (a b : A) (s t : S) → ◌≡◌ {A = Result A × S} (ok a, s) (ok b, t) → (a ≡ b) × (s ≡ t)
  same-returned a b s t h = (cc (ap (λ p. p.0) h), ap (λ p. p.1) h)

  pub not-returned : (e : Error) (b : A) (s t : S) → ¬ (◌≡◌ {A = Result A × S} (err e, s) (ok b, t))
  not-returned e b s t h = cc (ap (λ p. p.0) h)

module _ {S A B : Type 0} where
  pub proceed-returns :
      (p : Result A × S) (f : A → Exec S B) (b : B) (v : S)
      → proceed p f ≡ (ok b, v)
      → (a : A) × ((s : S) × ((p ≡ (ok a, s)) × (f a s ≡ (ok b, v))))
  proceed-returns (ok a, s) f b v h = (a, (s, (refl, h)))
  proceed-returns (err e, s) f b v h = absurd (ground arith)

  -- What holds of every end of a chain: where its first part raises, and where the rest goes on.
  pub proceed-ends :
      (Q : Result B × S → Type 0) (p : Result A × S) (f : A → Exec S B)
      → ((e : Error) → p.0 ≡ err e → Q (err e, p.1))
      → ((a : A) → p.0 ≡ ok a → Q (f a p.1))
      → Q (proceed p f)
  proceed-ends Q (ok a, s) f h k = k a refl
  proceed-ends Q (err e, s) f h k = h e refl

  -- A test that is passed on the way: the state is as before it.
  pub lift-returns :
      (r : Result A) (f : A → Exec S B) (s : S) (b : B) (v : S)
      → (lift r >>= f) s ≡ (ok b, v)
      → (a : A) × ((r ≡ ok a) × (f a s ≡ (ok b, v)))
  lift-returns (ok a) f s b v h = (a, (refl, h))
  lift-returns (err e) f s b v h = absurd (ground arith)
