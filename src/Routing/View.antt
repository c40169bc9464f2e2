-- ===== src/Routing/View.antt =====
-- route_visibility.py: what the view of a stored definition shows.
use responsibility_pathway_r.Prelude.{false, Option, none, some, ◌≡◌, refl}
use responsibility_pathway_r.Errors.{ok}
use responsibility_pathway_r.Value.{Value, Fields, null, bool, str, dict, end, entry, get}
use responsibility_pathway_r.Models.{PathwayState, pathway_state_value, pathway_state_of-value}
use responsibility_pathway_r.Models.Definition.{
  PathwayDefinition, ResponsibilityRoute, route_to_dict, route_entry, to_dict,
}
use responsibility_pathway_r.Routing.{
  build_route_visibility, declared_route, compatibility_route_for_state, route_class_or_null,
}

-- The route as it was declared, or null.
abbrev pub shown_route : Option ResponsibilityRoute → Value
shown_route none = null
shown_route (some r) = dict (route_to_dict r)

declared_route-entry :
    (o : Option ResponsibilityRoute)
    → declared_route (get "responsibility_route" (route_entry o)) ≡ ok (shown_route o)
unfolding declared_route route_entry get
declared_route-entry none = refl
declared_route-entry (some r) = refl

-- The view of a definition that was stored shows, in every state: the state, the route exactly as it
-- was declared, and the owner of the residual; and it never says that it infers an authority.
pub view-shows :
    (s : PathwayState) (d : PathwayDefinition)
    → (view : Fields) × (build_route_visibility (pathway_state_value s) (to_dict d) ≡ ok view)
      × (get "state" view ≡ some (str (pathway_state_value s)))
      × (get "declared_route" view ≡ some (shown_route d.responsibility_route))
      × (get "residual_owner" view ≡ some (str d.residual_owner))
      × (get "authority_inferred" view ≡ some (bool false))
unfolding build_route_visibility to_dict get
view-shows s d = (
  entry "state" (str (pathway_state_value s)) (
      entry "compatibility_route" (route_class_or_null (compatibility_route_for_state s)) (
        entry "declared_route" (shown_route d.responsibility_route) (
          entry "human_return_point" (str d.human_return_point) (
            entry "residual_owner" (str d.residual_owner)
              (entry "authority_inferred" (bool false) end))))),
  simp (pathway_state_of-value, declared_route-entry),
  refl,
  refl,
  refl,
  refl,
)
