-- ===== src/Runtime/Register.antt =====
-- runtime.py: when a registration opens a pathway.
use responsibility_pathway_r.Prelude.{
  String, Bool, false, ◌≡◌, ◌∙◌, sym, subst, ap, refl, ◌⊎◌, ◌↔◌, List, ◌++◌, is_some, arith,
  if◌then◌else◌,
}
use responsibility_pathway_r.Errors.{Result, ok, err, rpe_contract_error}
use responsibility_pathway_r.Exec.{pure, ◌>>◌}
use responsibility_pathway_r.Exec.Returns.{proceed-returns, lift-returns}
use responsibility_pathway_r.Value.{Value, Fields}
use responsibility_pathway_r.Models.{
  PathwayState, RuntimeDecision, allow, hold, deny, approved, awaiting_approval,
}
use responsibility_pathway_r.Models.Definition.{PathwayDefinition}
use responsibility_pathway_r.Inspection.{inspect_pathway}
use responsibility_pathway_r.Rpe.{RpeResult}
use responsibility_pathway_r.World.{World, M}
use responsibility_pathway_r.Store.{create_or_replay_pathway}
use responsibility_pathway_r.Store.Effects.{create-new}
use responsibility_pathway_r.Runtime.{
  Config, Opinion, opinion, rank, combine, initial_state, action_request, record_registration,
  codes_of, RegistrationResult, register,
}

-- The combined decision is the stricter of the two.
combine-allow : (a b : RuntimeDecision) → (combine a b ≡ allow) ↔ ((a ≡ allow) × (b ≡ allow))
unfolding combine rank
combine-allow allow allow = ground arith
combine-allow allow _ = ground arith
combine-allow hold allow = ground arith
combine-allow hold _ = ground arith
combine-allow RuntimeDecision.human_gate allow = ground arith
combine-allow RuntimeDecision.human_gate _ = ground arith
combine-allow deny allow = ground arith
combine-allow deny _ = ground arith

-- The states from which the pathway may come to run without a human gate.
abbrev pub IsOpen : PathwayState → Type 0
IsOpen s = (s ≡ approved) ⊎ (s ≡ awaiting_approval)

initial_state-IsOpen :
    (a : RuntimeDecision) (b : Bool)
    → IsOpen (initial_state a b)
    → (a ≡ allow) × (initial_state a b ≡ (if b then awaiting_approval else approved))
unfolding initial_state
initial_state-IsOpen allow b h = ground arith
initial_state-IsOpen _ b h = ground arith

-- What an evaluator that gave this opinion answered.
opinion-allow :
    (r : Result RpeResult) (codes : List String) (raw : Fields)
    → opinion r ≡ ok (allow, codes, raw)
    → (a : RpeResult) × (r ≡ ok a) × (a.decision ≡ allow)
unfolding opinion
opinion-allow (ok a) codes raw h = (a, refl, ground arith)
opinion-allow (err (rpe_contract_error m)) codes raw h = ground arith
opinion-allow (err _) codes raw h = ground arith

module _ (c : Config) (evaluate : Value → Result RpeResult) (d : PathwayDefinition)
    (key : String) where
  answer : Opinion → Bool → PathwayState → RegistrationResult
  unfolding codes_of
  answer o replayed persisted = record {
    pathway_id = d.pathway_id;
    state = persisted;
    decision = combine (inspect_pathway d).decision o.0;
    reason_codes = codes_of (inspect_pathway d).findings ++ o.1;
    replayed = replayed;
  }

  -- `register`, from the row on
  registered : Opinion → Bool → PathwayState → M RegistrationResult
  registered o replayed persisted =
      record_registration c replayed d (inspect_pathway d) o persisted key
      >> pure (answer o replayed persisted)

  same_answer : (x r : RegistrationResult) (s v : World) → pure x s ≡ (ok r, v) → x ≡ r
  same_answer x r s v h = ground arith

  first_state : Opinion → PathwayState
  first_state o =
      initial_state (combine (inspect_pathway d).decision o.0) (is_some d.approval_authority)

  abbrev Opened : PathwayState → Type 0
  Opened s =
      ((inspect_pathway d).decision ≡ allow)
      × ((a : RpeResult) × (evaluate (action_request d) ≡ ok a) × (a.decision ≡ allow))
      × (s ≡ (if is_some d.approval_authority then awaiting_approval else approved))

  from_row :
      (w v : World) (o : Opinion) (b : Bool) (s : PathwayState)
      → opinion (evaluate (action_request d)) ≡ ok o
      → create_or_replay_pathway c.env d (first_state o) key w ≡ (ok (b, s), v)
      → b ≡ false
      → IsOpen s
      → Opened s
  unfolding first_state
  from_row w v (k, codes, raw) b s heard created new opened =
      let same : s ≡ first_state (k, codes, raw) =
        create-new c.env d (first_state (k, codes, raw)) s key w v (
          subst
            (λ x.
              create_or_replay_pathway c.env d (first_state (k, codes, raw)) key w ≡ (ok (x, s), v))
            new created) in
      let (both, at) =
        initial_state-IsOpen (combine (inspect_pathway d).decision k) (is_some d.approval_authority)
          (subst IsOpen same opened) in
      let (inspected, said) = (combine-allow (inspect_pathway d).decision k).0 both in
      (
        inspected,
        opinion-allow (evaluate (action_request d)) codes raw
            (subst (λ x. opinion (evaluate (action_request d)) ≡ ok (x, codes, raw)) said heard),
        same ∙ at,
      )

  -- If a registration returns, is no replay, and its state is approved or awaiting approval, then
  -- the inspection of its definition allows it, the evaluator answered and allowed it, and the
  -- state is `awaiting_approval` exactly where the definition names an approval authority.
  pub register-open :
      (w v : World) (r : RegistrationResult)
      → register c evaluate d key w ≡ (ok r, v)
      → r.replayed ≡ false
      → IsOpen r.state
      → ((inspect_pathway d).decision ≡ allow)
        × ((a : RpeResult) × (evaluate (action_request d) ≡ ok a) × (a.decision ≡ allow))
        × (r.state ≡ (if is_some d.approval_authority then awaiting_approval else approved))
  unfolding register registered answer first_state
  register-open w v r h new opened =
      let (o, (heard, h1)) = lift-returns (opinion (evaluate (action_request d))) _ w r v h in
      let (found, (s1, (created, h2))) =
        proceed-returns (create_or_replay_pathway c.env d (first_state o) key w)
          (λ x. registered o x.0 x.1) r v h1 in
      let (u, (s2, (recorded, h3))) =
        proceed-returns (record_registration c found.0 d (inspect_pathway d) o found.1 key s1) _ r v
          h2 in
      let at = same_answer (answer o found.0 found.1) r s2 v h3 in
      subst (λ x. Opened x.state) at
        (from_row w s1 o found.0 found.1 heard created (ap (λ x. x.replayed) at ∙ new)
          (subst (λ x. IsOpen x.state) (sym at) opened))
