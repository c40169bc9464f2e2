-- ===== src/Examples/Tenants.antt =====
-- The theorems on tenants, at concrete inputs.
use responsibility_pathway_r.Prelude.{String, ◌≡◌, refl, some, List, [], ◌∷◌}
use responsibility_pathway_r.Errors.{err}
use responsibility_pathway_r.Value.{get}
use responsibility_pathway_r.Models.{approved, held}
use responsibility_pathway_r.Tenant.{
  tenant_boundary_error, Tenancy, owner_of, scoped_register, scoped_transition, scoped_execute,
  scoped_evidence,
}
use responsibility_pathway_r.Tenant.Ownership.{
  ScopedCall, registering, moving, executing, run_tenants, foreign-refused, run_tenants-owner,
  register-claims,
}
use responsibility_pathway_r.Examples.{
  config_example, definition_example, world_example, request_example,
}
use responsibility_pathway_r.Examples.Ledger.{failing_executor}
use responsibility_pathway_r.Examples.Runs.{allowing}

abbrev tenancy_example : Tenancy
tenancy_example = record {
  world = world_example approved [];
  owners = record { pathway_id = "pathway-1"; tenant_id = "red" } ∷ [];
}

foreign-refused_example :
    (scoped_transition config_example "blue" "pathway-1" held "agent" "stop" tenancy_example
      ≡ (err tenant_boundary_error, tenancy_example))
    × (scoped_execute config_example "blue" failing_executor "pathway-1" request_example "agent"
          tenancy_example
        ≡ (err tenant_boundary_error, tenancy_example))
    × (scoped_evidence config_example "blue" "pathway-1" tenancy_example
        ≡ (err tenant_boundary_error, tenancy_example))
unfolding owner_of
foreign-refused_example =
    foreign-refused config_example "blue" "red" "pathway-1" tenancy_example refl refl held "agent"
      "stop" failing_executor request_example

abbrev tenant_calls : List (String × ScopedCall)
tenant_calls =
    ("blue", registering allowing definition_example "key-2")
    ∷ ("blue", moving "pathway-1" held "operator" "stop")
    ∷ ("red", executing failing_executor "pathway-1" request_example "agent")
    ∷ []

run_tenants_example :
    owner_of "pathway-1" (run_tenants config_example tenant_calls tenancy_example).owners
    ≡ some "red"
unfolding owner_of
run_tenants_example =
    run_tenants-owner config_example tenant_calls "pathway-1" "red" tenancy_example refl

-- The store has a pathway that nobody owns.
abbrev unowned_example : Tenancy
unowned_example = record { world = world_example approved []; owners = [] }

register-claims_example :
    owner_of "pathway-1"
      (scoped_register config_example "blue" allowing definition_example "key-2"
        unowned_example).1.owners
    ≡ some "blue"
unfolding owner_of get
register-claims_example =
    register-claims config_example "blue" allowing definition_example "key-2" unowned_example refl
      refl refl
