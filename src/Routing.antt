-- ===== src/Routing.antt =====
-- routing.py and route_visibility.py: the route class that a state implies, and the read-only view.
pub mod View
use responsibility_pathway_r.Prelude.{
  String, Bool, false, Option, none, some, ◌≡◌, ◌↔◌, ◌≢◌, refl, arith,
}
use responsibility_pathway_r.Errors.{Result, ok, err, value_error, bind-ok, ◌>>=◌}
use responsibility_pathway_r.Value.{
  Value, Fields, null, bool, str, dict, list, int, float, object, end, entry, get,
}
use responsibility_pathway_r.Models.{
  PathwayState, RouteClass, hold_for_reconciliation, bounded_human_return, write_status_unknown,
  human_gate, pathway_state_of, pathway_state_value, route_class_value, pathway_state_of-value,
}

unfoldable pub compatibility_route_for_state : PathwayState → Option RouteClass
compatibility_route_for_state write_status_unknown = some hold_for_reconciliation
compatibility_route_for_state PathwayState.human_gate = some bounded_human_return
compatibility_route_for_state _ = none

route_class_or_null : Option RouteClass → Value
route_class_or_null none = null
route_class_or_null (some r) = str (route_class_value r)

-- `None if declared_route is None else dict(declared_route)`
declared_route : Option Value → Result Value
declared_route none = ok null
declared_route (some null) = ok null
declared_route (some (dict fs)) = ok (dict fs)
declared_route (some _) = err value_error

abbrev get_or_null : String → Fields → Value
get_or_null k fs = elim (get k fs) [ none ↦ null | some v ↦ v ]

unfoldable pub build_route_visibility : String → Fields → Result Fields
unfolding route_class_or_null declared_route compatibility_route_for_state get
build_route_visibility state definition = do
  pathway_state ← pathway_state_of state
  declared ← declared_route (get "responsibility_route" definition)
  ok (
      entry "state" (str (pathway_state_value pathway_state)) (
        entry "compatibility_route"
          (route_class_or_null (compatibility_route_for_state pathway_state))
          (entry "declared_route" declared (
            entry "human_return_point" (get_or_null "human_return_point" definition) (
              entry "residual_owner" (get_or_null "residual_owner" definition)
                (entry "authority_inferred" (bool false) end))))))
