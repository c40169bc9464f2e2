-- ===== src/Audit/Order.antt =====
-- How an operation takes the pathways and the log from one state to another.
use responsibility_pathway_r.Prelude.{
  String, true, ◌≡◌, ◌∙◌, sym, ap, subst, refl, inl, inr, none, some, List, [], ◌∷◌, ◌++◌, arith,
  ◌==◌, eq_iff, Bool-cases, any, update,
}
use responsibility_pathway_r.Exec.Respects.{Order}
use responsibility_pathway_r.Models.{PathwayState}
use responsibility_pathway_r.StateMachine.Edge.{◌⟶◌}
use responsibility_pathway_r.World.{World, PathwayRow, EvidenceEvent}
use responsibility_pathway_r.Store.{in_state, move}
use responsibility_pathway_r.Store.Effects.{Untouched, Appended, Moved, Created}
use responsibility_pathway_r.Audit.States.{
  state_in, IdsUnique, state_in-append, IdsUnique-append, IdsUnique-update, state_in-update_other,
  state_in-update_self,
}
use responsibility_pathway_r.Audit.Trace.{Trace, done, elsewhere, change, target_of, Trace-append}

-- How an operation takes the tables from one state to another: the log only grows, and what it grows
-- by takes each pathway that was there from the state it had to the state it has.
abbrev pub Explained : World → World → List EvidenceEvent → Type 0
Explained w v es =
    (v.events ≡ w.events ++ es)
    × ((id : String) (s : PathwayState)
        → state_in id w.pathways ≡ some s
        → (t : PathwayState) × (state_in id v.pathways ≡ some t) × Trace id s es t)

unfoldable pub Audited : World → World → Type 0
Audited w v =
    IdsUnique w.pathways → IdsUnique v.pathways × ((es : List EvidenceEvent) × Explained w v es)

append_nil : {A : Type 0} (xs : List A) → xs ++ [] ≡ xs
append_nil [] = refl
append_nil (x ∷ xs) = ap (λ ys. x ∷ ys) (append_nil xs)

append_assoc : {A : Type 0} (xs ys zs : List A) → (xs ++ ys) ++ zs ≡ xs ++ (ys ++ zs)
append_assoc [] ys zs = refl
append_assoc (x ∷ xs) ys zs = ap (λ us. x ∷ us) (append_assoc xs ys zs)

pub Untouched-Audited : (w v : World) → Untouched w v → Audited w v
unfolding Audited
Untouched-Audited w v (p, e) u = (
  subst IdsUnique (sym p) u,
  (
    [],
    (
      e ∙ sym (append_nil w.events),
      λ id s h. (s, subst (λ rs. state_in id rs ≡ some s) (sym p) h, done),
    ),
  ),
)

Explained-trans :
    (w v x : World) (es fs : List EvidenceEvent)
    → Explained w v es
    → Explained v x fs
    → Explained w x (es ++ fs)
Explained-trans w v x es fs (e, k) (e2, l) = (
  e2 ∙ ap (λ us. us ++ fs) e ∙ append_assoc w.events es fs,
  λ id s h.
      let (t, ht, tr) = k id s h in let (r, hr, ts) = l id t ht in (r, hr, Trace-append tr ts),
)

pub Audited-trans : (w v x : World) → Audited w v → Audited v x → Audited w x
unfolding Audited
Audited-trans w v x f g u =
    let (u1, first) = f u in
    let (u2, second) = g u1 in
    (u2, (first.0 ++ second.0, Explained-trans w v x first.0 second.0 first.1 second.1))

abbrev pub AuditedOrder : Order World
AuditedOrder = record {
  rel = Audited;
  rel_refl = λ w. Untouched-Audited w w (refl, refl);
  rel_trans = Audited-trans;
}

pub Appended-Audited :
    (w v : World) (e : EvidenceEvent) → target_of e ≡ none → Appended e w v → Audited w v
unfolding Audited
Appended-Audited w v e silent (p, added) u = (
  subst IdsUnique (sym p) u,
  (
    e ∷ [],
    (
      added,
      λ id s h. (s, subst (λ rs. state_in id rs ≡ some s) (sym p) h, elsewhere (inr silent) done),
    ),
  ),
)

pub Created-Audited : (w v : World) (r : PathwayRow) → Created r w v → Audited w v
unfolding Audited
Created-Audited w v r (fresh, p, e) u = (
  subst IdsUnique (sym p) (IdsUnique-append w.pathways r fresh u),
  (
    [],
    (
      e ∙ sym (append_nil w.events),
      λ id s h. (
        s,
        subst (λ rs. state_in id rs ≡ some s) (sym p) (state_in-append id w.pathways (r ∷ []) s h),
        done,
      ),
    ),
  ),
)

module _ (id : String) (s t : PathwayState) (e : EvidenceEvent) where
  -- A move of the pathway `id`, as the pathway `j` sees it.
  moved_state :
      (j : String) (q : PathwayState) (rs : List PathwayRow)
      → s ⟶ t
      → e.pathway_id ≡ id
      → target_of e ≡ some t
      → IdsUnique rs
      → any (in_state id s) rs ≡ true
      → state_in j rs ≡ some q
      → (r : PathwayState) × (state_in j (update (in_state id s) (move t) rs) ≡ some r)
        × Trace j q (e ∷ []) r
  moved_state j q rs edge owner target u there h = elim (Bool-cases (id == j)) [
    | inl same ↦
        let (before, after) = state_in-update_self id s t rs u there in
        let e_ij : id ≡ j = (eq_iff id j).0 same in
        let q_s : s ≡ q = ground (arith, before, h, e_ij) in
        (
          t,
          subst (λ k. state_in k (update (in_state id s) (move t) rs) ≡ some t) e_ij after,
          change (ground (arith, owner, same)) target (subst (λ x. x ⟶ t) q_s edge) done,
        )
    | inr other ↦ (
      q,
      state_in-update_other id j s t rs other ∙ h,
      elsewhere (inl (ground (arith, owner, other))) done,
    )
  ]

  pub Moved-Audited :
      (w v : World)
      → s ⟶ t
      → e.pathway_id ≡ id
      → target_of e ≡ some t
      → Moved id s t e w v
      → Audited w v
  unfolding Audited
  Moved-Audited w v edge owner target (there, p, added) u = (
    subst IdsUnique (sym p) (IdsUnique-update id s t w.pathways u),
    (
      e ∷ [],
      (
        added,
        λ j q h.
            subst (λ rs. (r : PathwayState) × (state_in j rs ≡ some r) × Trace j q (e ∷ []) r)
              (sym p) (moved_state j q w.pathways edge owner target u there h),
      ),
    ),
  )
