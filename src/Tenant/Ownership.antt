-- ===== src/Tenant/Ownership.antt =====
-- tenant.py: who owns a pathway, and what the others cannot do.
use responsibility_pathway_r.Prelude.{
  String, false, ◌≡◌, refl, Option, none, some, List, [], ◌∷◌, ◌++◌, ◌==◌, eq_refl, arith, suc,
}
use responsibility_pathway_r.Errors.{Result, err}
use responsibility_pathway_r.Exec.Respects.{
  Order, Respects, respects_rules, Respects-then, Respects-require,
}
use responsibility_pathway_r.Value.{Value, get}
use responsibility_pathway_r.Models.{PathwayState}
use responsibility_pathway_r.Models.Definition.{PathwayDefinition}
use responsibility_pathway_r.Rpe.{RpeResult}
use responsibility_pathway_r.Execution.{ExecutionRequest, ExecutionResult}
use responsibility_pathway_r.World.{M}
use responsibility_pathway_r.Runtime.{Config, register, transition}
use responsibility_pathway_r.Runtime.Execute.{execute}
use responsibility_pathway_r.Tenant.{
  tenant_boundary_error, Owner, Tenancy, owner_of, claim_row, claim, require_owner, in_world,
  declared_tenant, scoped_register, scoped_transition, scoped_execute, scoped_evidence,
}

module _ (c : Config) (tenant owner id : String) (s : Tenancy)
    (owned : owner_of id s.owners ≡ some owner) (foreign : (owner == tenant) ≡ false) where
  -- If a pathway has an owner other than the tenant of the call, then the scoped transition, the
  -- scoped execution and the scoped reading of evidence raise TenantBoundaryError and change
  -- nothing.
  pub foreign-refused :
      (target : PathwayState) (actor reason : String)
      (executor : ExecutionRequest → M ExecutionResult) (q : ExecutionRequest)
      → (scoped_transition c tenant id target actor reason s ≡ (err tenant_boundary_error, s))
        × (scoped_execute c tenant executor id q actor s ≡ (err tenant_boundary_error, s))
        × (scoped_evidence c tenant id s ≡ (err tenant_boundary_error, s))
  unfolding scoped_transition scoped_execute scoped_evidence require_owner
  foreign-refused target actor reason executor q = rw (owned, foreign) (refl, refl, refl)

owner_of-append :
    (id : String) (o : Owner) (os : List Owner) (t : String)
    → owner_of id os ≡ some t
    → owner_of id (os ++ o ∷ []) ≡ some t
unfolding owner_of
owner_of-append id o [] t h = ground arith
owner_of-append id o (p ∷ os) t h = ground (arith, owner_of-append id o os t)

module _ (c : Config) (j t : String) where
  -- Whoever owns `j` still owns it.
  abbrev Kept : Order Tenancy
  Kept = record {
    rel = λ s v. owner_of j s.owners ≡ some t → owner_of j v.owners ≡ some t;
    rel_refl = λ s h. h;
    rel_trans = λ s v x f g h. g (f h);
  }

  claim_row-kept : (tenant id : String) (o : Option String) → Respects Kept (claim_row tenant id o)
  unfolding claim_row
  claim_row-kept tenant id (some owner) = record { at = λ s h. ground arith }
  claim_row-kept tenant id none = record { at = λ s h. owner_of-append j _ s.owners t h }

  claim-kept : (tenant id : String) → Respects Kept (claim c.env tenant id)
  unfolding claim
  claim-kept tenant id = record {
    at = λ s h.
        let kept =
          (claim_row-kept tenant id (owner_of id s.owners)).at
            (record s { world = record s.world { writes = suc s.world.writes } }) h in
        ground (arith, kept);
  }

  require_owner-kept : (tenant id : String) → Respects Kept (require_owner tenant id)
  unfolding require_owner
  require_owner-kept tenant id = search respects_rules

  in_world-kept : {A : Type 0} (m : M A) → Respects Kept (in_world m)
  in_world-kept m = record { at = λ s h. h }

  register-kept :
      (tenant : String) (evaluate : Value → Result RpeResult) (d : PathwayDefinition) (key : String)
      → Respects Kept (scoped_register c tenant evaluate d key)
  unfolding scoped_register
  register-kept tenant evaluate d key =
      Respects-then Kept _ _ (Respects-require Kept _ tenant_boundary_error) (
        Respects-then Kept _ _ (claim-kept tenant d.pathway_id)
          (in_world-kept (register c evaluate d key)))

  transition-kept :
      (tenant id : String) (target : PathwayState) (actor reason : String)
      → Respects Kept (scoped_transition c tenant id target actor reason)
  unfolding scoped_transition
  transition-kept tenant id target actor reason =
      Respects-then Kept _ _ (require_owner-kept tenant id)
        (in_world-kept (transition c id target actor reason))

  execute-kept :
      (tenant : String) (executor : ExecutionRequest → M ExecutionResult) (id : String)
      (q : ExecutionRequest) (actor : String)
      → Respects Kept (scoped_execute c tenant executor id q actor)
  unfolding scoped_execute
  execute-kept tenant executor id q actor =
      Respects-then Kept _ _ (require_owner-kept tenant id)
        (in_world-kept (execute c executor id q actor))

owner_of-new :
    (id tenant : String) (os : List Owner)
    → owner_of id os ≡ none
    → owner_of id (os ++ record { pathway_id = id; tenant_id = tenant } ∷ []) ≡ some tenant
unfolding owner_of
owner_of-new id tenant [] h = rw (eq_refl id) refl
owner_of-new id tenant (p ∷ os) h = ground (arith, owner_of-new id tenant os)

-- What a tenant may do.
pub data ScopedCall : Type 0 where
  registering : (Value → Result RpeResult) → PathwayDefinition → String → ScopedCall
  moving : String → PathwayState → String → String → ScopedCall
  executing :
      (ExecutionRequest → M ExecutionResult) → String → ExecutionRequest → String → ScopedCall

module _ (c : Config) where
  abbrev pub run_scoped : String → ScopedCall → Tenancy → Tenancy
  run_scoped tenant (registering evaluate d key) s = (scoped_register c tenant evaluate d key s).1
  run_scoped tenant (moving id target actor reason) s =
      (scoped_transition c tenant id target actor reason s).1
  run_scoped tenant (executing executor id q actor) s =
      (scoped_execute c tenant executor id q actor s).1

  -- Calls of any tenants, one after another.
  abbrev pub run_tenants : List (String × ScopedCall) → Tenancy → Tenancy
  run_tenants [] s = s
  run_tenants (k ∷ ks) s = run_tenants ks (run_scoped k.0 k.1 s)

  run_scoped-owner :
      (tenant : String) (k : ScopedCall) (j t : String) (s : Tenancy)
      → owner_of j s.owners ≡ some t
      → owner_of j (run_scoped tenant k s).owners ≡ some t
  run_scoped-owner tenant (registering evaluate d key) j t s h =
      (register-kept c j t tenant evaluate d key).at s h
  run_scoped-owner tenant (moving id target actor reason) j t s h =
      (transition-kept c j t tenant id target actor reason).at s h
  run_scoped-owner tenant (executing executor id q actor) j t s h =
      (execute-kept c j t tenant executor id q actor).at s h

  -- A pathway that a tenant owns stays that tenant's after any sequence of scoped calls of any
  -- tenants, whether they return or raise.
  pub run_tenants-owner :
      (ks : List (String × ScopedCall)) (id tenant : String) (s : Tenancy)
      → owner_of id s.owners ≡ some tenant
      → owner_of id (run_tenants ks s).owners ≡ some tenant
  run_tenants-owner [] id tenant s h = h
  run_tenants-owner (k ∷ ks) id tenant s h =
      run_tenants-owner ks id tenant (run_scoped k.0 k.1 s) (run_scoped-owner k.0 k.1 id tenant s h)

-- Let nobody own a pathway, let the write of the registry not fail, and let the definition
-- declare no tenant. Then the scoped registration makes the pathway the caller's, whether it
-- returns or raises.
pub register-claims :
    (c : Config) (tenant : String) (evaluate : Value → Result RpeResult) (d : PathwayDefinition)
    (key : String) (s : Tenancy)
    → owner_of d.pathway_id s.owners ≡ none
    → c.env.write_fails s.world.writes ≡ false
    → get "tenant_id" d.metadata ≡ none
    → owner_of d.pathway_id (scoped_register c tenant evaluate d key s).1.owners ≡ some tenant
unfolding scoped_register claim claim_row declared_tenant
register-claims c tenant evaluate d key s unowned works silent =
    rw (silent, works, unowned) (owner_of-new d.pathway_id tenant s.owners unowned)
