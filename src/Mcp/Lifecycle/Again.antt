-- ===== src/Mcp/Lifecycle/Again.antt =====
-- mcp_subprocess_lifecycle.py: a second call of `shutdown`.
use responsibility_pathway_r.Prelude.{
  Bool, ◌≡◌, refl, sym, ap, ◌∙◌, Option, none, some, Bool-cases, inl, inr,
}
use responsibility_pathway_r.Errors.{Error, Result, ok}
use responsibility_pathway_r.Exec.Returns.{same-returned, not-returned}
use responsibility_pathway_r.Mcp.Lifecycle.{
  lifecycle_error, ProcessExit, Handle, Timeouts, Lifecycle, result_of, shutdown_once, shutdown,
}

module _ {F : Type 0} (w : Timeouts F) where
  exit-kept :
      {T : Type 0} (h : Handle F T) (is_timeout : Error → Bool) (o : Option ProcessExit)
      (s t : Lifecycle T) (x : ProcessExit)
      → o ≡ s.result
      → shutdown_once h w is_timeout o s ≡ (ok x, t)
      → t.result ≡ some x
  unfolding shutdown_once result_of
  exit-kept h is_timeout (some r) s t x given e =
      let (same, after) = same-returned r x s t e in
      ap (λ (u : Lifecycle _). u.result) (sym after) ∙ sym given ∙ ap some same
  exit-kept h is_timeout none s t x given e = elim (Bool-cases s.closing) [
    | inl busy ↦ absurd (not-returned lifecycle_error x _ t (rw busy at e))
    | inr idle ↦
        let done = rw idle at e in
        ap (λ (p : Result ProcessExit × Lifecycle _). p.1.result) (sym done)
        ∙ ap (λ (p : Result ProcessExit × Lifecycle _). result_of h w is_timeout p.0) done
  ]

  -- A lifecycle that has an exit gives it again, and leaves the process alone.
  pub shutdown-again :
      {T : Type 0} (h : Handle F T) (is_timeout : Error → Bool) (s t : Lifecycle T)
      (x : ProcessExit)
      → shutdown h w is_timeout s ≡ (ok x, t)
      → shutdown h w is_timeout t ≡ (ok x, t)
  unfolding shutdown shutdown_once
  shutdown-again h is_timeout s t x e = rw (exit-kept h is_timeout s.result s t x refl e, shutdown)
