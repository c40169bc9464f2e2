-- ===== src/Tenant.antt =====
-- tenant.py: the ownership registry, and the runtime that is scoped to a tenant.
pub mod Ownership
use responsibility_pathway_r.Prelude.{
  String, Bool, ◌||◌, suc, Option, none, some, List, [], ◌∷◌, ◌++◌, ◌==◌, is_blank, is_empty, strip,
  if◌then◌else◌,
}
use responsibility_pathway_r.Errors.{
  Error, Result, ok, err, other_error, operational_error, or_raise,
}
use responsibility_pathway_r.Exec.{Exec, lift, gets, require, ◌>>=◌, ◌>>◌}
use responsibility_pathway_r.Value.{Value, Fields, get}
use responsibility_pathway_r.Models.{PathwayState}
use responsibility_pathway_r.Models.Definition.{PathwayDefinition}
use responsibility_pathway_r.Rpe.{RpeResult}
use responsibility_pathway_r.Execution.{ExecutionRequest, ExecutionResult}
use responsibility_pathway_r.Env.{Env}
use responsibility_pathway_r.World.{World, EvidenceEvent, M}
use responsibility_pathway_r.Store.{events_of}
use responsibility_pathway_r.Runtime.{Config, RegistrationResult, register, transition}
use responsibility_pathway_r.Runtime.Execute.{execute}

-- TenantBoundaryError
abbrev pub tenant_boundary_error : Error
tenant_boundary_error = other_error "TenantBoundaryError"

-- TenantContext, which its `__post_init__` checks
unfoldable pub check_context : String → Result String
check_context tenant_id = if is_blank tenant_id then err tenant_boundary_error else ok tenant_id

-- A row of `tenant_pathways`
pub record Owner : Type 0 where
  pub pathway_id : String
  pub tenant_id : String

-- The databases of the runtime and of the registry.
pub record Tenancy : Type 0 where
  pub world : World
  pub owners : List Owner

-- `SELECT tenant_id FROM tenant_pathways WHERE pathway_id = ?`
unfoldable pub owner_of : String → List Owner → Option String
owner_of pathway_id [] = none
owner_of pathway_id (o ∷ os) =
    let rest = owner_of pathway_id os in
    if o.pathway_id == pathway_id then some o.tenant_id else rest

-- The body of the transaction of `claim`.
claim_row : String → String → Option String → Exec Tenancy (Unit {0})
claim_row tenant_id pathway_id (some owner) s =
    if owner == tenant_id then (ok tt, s) else (err tenant_boundary_error, s)
claim_row tenant_id pathway_id none s = (
  ok tt,
  record s { owners = s.owners ++ record { pathway_id = pathway_id; tenant_id = tenant_id } ∷ [] },
)

-- `claim`
unfoldable pub claim : Env → String → String → Exec Tenancy (Unit {0})
unfolding claim_row
claim env tenant_id pathway_id s =
    let begun = record s { world = record s.world { writes = suc s.world.writes } } in
    if env.write_fails s.world.writes
    then (err operational_error, begun)
    else claim_row tenant_id pathway_id (owner_of pathway_id s.owners) begun

-- `require`
unfoldable pub require_owner : String → String → Exec Tenancy (Unit {0})
require_owner tenant_id pathway_id = do
  row ← gets (λ s. owner_of pathway_id s.owners)
  owner ← lift (or_raise row tenant_boundary_error)
  require (owner == tenant_id) tenant_boundary_error

-- A call of the unscoped runtime.
abbrev pub in_world : {A : Type 0} → M A → Exec Tenancy A
in_world m s = ((m s.world).0, record s { world = (m s.world).1 })

-- `str(definition.metadata.get("tenant_id", "")).strip()`
declared_tenant : Env → Option Value → String
declared_tenant env none = ""
declared_tenant env (some v) = strip (env.text v)

module _ (c : Config) (tenant_id : String) where
  -- TenantScopedRuntime
  unfoldable pub scoped_register :
      (Value → Result RpeResult) → PathwayDefinition → String → Exec Tenancy RegistrationResult
  unfolding declared_tenant
  scoped_register evaluate d key = do
    let declared = declared_tenant c.env (get "tenant_id" d.metadata)
    require (is_empty declared || declared == tenant_id) tenant_boundary_error
    claim c.env tenant_id d.pathway_id
    in_world (register c evaluate d key)

  unfoldable pub scoped_transition :
      String → PathwayState → String → String → Exec Tenancy PathwayState
  scoped_transition pathway_id target actor reason = do
    require_owner tenant_id pathway_id
    in_world (transition c pathway_id target actor reason)

  unfoldable pub scoped_execute :
      (ExecutionRequest → M ExecutionResult)
      → String
      → ExecutionRequest
      → String
      → Exec Tenancy ExecutionResult
  scoped_execute executor pathway_id q actor = do
    require_owner tenant_id pathway_id
    in_world (execute c executor pathway_id q actor)

  unfoldable pub scoped_evidence : String → Exec Tenancy (List EvidenceEvent)
  scoped_evidence pathway_id = do
    require_owner tenant_id pathway_id
    gets (λ s. events_of pathway_id s.world)
