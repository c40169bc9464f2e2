-- ===== src/Exec/Respects.antt =====
-- What an action does to the state, whether it returns or raises, one rule for each way to build it.
use responsibility_pathway_r.Prelude.{◌≡◌, refl, Bool, true, false, if◌then◌else◌}
use responsibility_pathway_r.Errors.{Error, Result, ok, err}
use responsibility_pathway_r.Exec.{
  Exec, pure, raise, lift, gets, require, proceed, outcome, try, ◌>>=◌, ◌>>◌,
}

-- A relation between the state before and the state after, which chains.
pub record Order (S : Type 0) : Type 1 where
  pub rel : S → S → Type 0
  pub rel_refl : (s : S) → rel s s
  pub rel_trans : (s t u : S) → rel s t → rel t u → rel s u

pub record Respects {S A : Type 0} (R : Order S) (m : Exec S A) : Type 0 where
  pub at : (s : S) → R.rel s (m s).1

module _ {S A : Type 0} (R : Order S) where
  pub Respects-pure : (a : A) → Respects R (pure a)
  Respects-pure a = record { at = λ s. R.rel_refl s }

  pub Respects-raise : (e : Error) → Respects R (raise {A = A} e)
  Respects-raise e = record { at = λ s. R.rel_refl s }

  pub Respects-lift : (r : Result A) → Respects R (lift r)
  Respects-lift r = record { at = λ s. R.rel_refl s }

  pub Respects-gets : (f : S → A) → Respects R (gets f)
  Respects-gets f = record { at = λ s. R.rel_refl s }

  pub Respects-if :
      (b : Bool) (m n : Exec S A) → Respects R m → Respects R n → Respects R (if b then m else n)
  Respects-if true m n p q = p
  Respects-if false m n p q = q

pub Respects-require : {S : Type 0} (R : Order S) (b : Bool) (e : Error) → Respects R (require b e)
Respects-require R true e = record { at = λ s. R.rel_refl s }
Respects-require R false e = record { at = λ s. R.rel_refl s }

module _ {S A B : Type 0} (R : Order S) where
  proceed-rel :
      (s : S) (p : Result A × S) (f : A → Exec S B)
      → R.rel s p.1
      → ((a : A) → p.0 ≡ ok a → R.rel p.1 (f a p.1).1)
      → R.rel s (proceed p f).1
  proceed-rel s (ok a, t) f h k = R.rel_trans s t (f a t).1 h (k a refl)
  proceed-rel s (err e, t) f h k = h

  pub Respects-bind :
      (m : Exec S A) (f : A → Exec S B)
      → Respects R m
      → ((a : A) → Respects R (f a))
      → Respects R (m >>= f)
  Respects-bind m f p q = record {
    at = λ s. proceed-rel s (m s) f (p.at s) (λ a _. (q a).at (m s).1);
  }

  pub Respects-then :
      (m : Exec S A) (n : Exec S B) → Respects R m → Respects R n → Respects R (m >> n)
  Respects-then m n p q = Respects-bind m (λ _. n) p (λ _. q)

  -- The rest of the block knows that the test did not raise.
  pub Respects-guard :
      (r : Result A) (f : A → Exec S B)
      → ((a : A) → r ≡ ok a → Respects R (f a))
      → Respects R (lift r >>= f)
  Respects-guard (ok a) f q = q a refl
  Respects-guard (err e) f q = record { at = λ s. R.rel_refl s }

  outcome-rel :
      (s : S) (p : Result A × S) (f : A → Exec S B) (g : Error → Exec S B)
      → R.rel s p.1
      → ((a : A) → R.rel p.1 (f a p.1).1)
      → ((e : Error) → R.rel p.1 (g e p.1).1)
      → R.rel s (outcome p f g).1
  outcome-rel s (ok a, t) f g h k l = R.rel_trans s t (f a t).1 h (k a)
  outcome-rel s (err e, t) f g h k l = R.rel_trans s t (g e t).1 h (l e)

  pub Respects-try :
      (m : Exec S A) (f : A → Exec S B) (g : Error → Exec S B)
      → Respects R m
      → ((a : A) → Respects R (f a))
      → ((e : Error) → Respects R (g e))
      → Respects R (try m f g)
  Respects-try m f g p q r = record {
    at = λ s. outcome-rel s (m s) f g (p.at s) (λ a. (q a).at (m s).1) (λ e. (r e).at (m s).1);
  }

pub ruleset respects_rules = (
  Respects-pure, Respects-raise, Respects-lift, Respects-gets, Respects-if, Respects-require,
  Respects-bind, Respects-then, Respects-try,
)
