-- ===== src/Models/Definition/RoundTrip.antt =====
-- models.py: what `to_dict` writes, `from_dict` reads back.
use responsibility_pathway_r.Prelude.{String, ◌≡◌, refl, ap, Option, none, some, List, [], ◌∷◌}
use responsibility_pathway_r.Errors.{ok}
use responsibility_pathway_r.Value.{Value, str, strs, get, opt_str}
use responsibility_pathway_r.Models.Enums.{
  route_class_of-value, receiver_eligibility_of-value, action_class_of-value,
  environment_trust_of-value,
}
use responsibility_pathway_r.Models.Definition.{
  ResponsibilityRoute, PathwayDefinition, route_to_dict, route_entry, to_dict, texts, opt_text,
  fields_of, declared_opt_str, route_from_dict, route_of, from_dict,
}

module _ (text : Value → String) (text-str : (s : String) → text (str s) ≡ s) where
  texts-strs : (ss : List String) → texts text (strs ss) ≡ ss
  unfolding texts
  texts-strs [] = refl
  texts-strs (s ∷ ss) = cc (text-str s, texts-strs ss)

  opt_text-opt_str : (o : Option String) → opt_text text (some (opt_str o)) ≡ o
  unfolding opt_text
  opt_text-opt_str none = refl
  opt_text-opt_str (some s) = ap some (text-str s)

  -- A route is read back from its dictionary.
  pub route_from_dict-to_dict :
      (r : ResponsibilityRoute) → route_from_dict text (route_to_dict r) ≡ ok r
  unfolding route_from_dict route_to_dict get
  route_from_dict-to_dict r =
      simp (
        text-str, route_class_of-value, receiver_eligibility_of-value, texts-strs, opt_text-opt_str,
      )

  route_of-route_entry :
      (o : Option ResponsibilityRoute)
      → route_of text (get "responsibility_route" (route_entry o)) ≡ ok o
  unfolding route_of route_entry get
  route_of-route_entry none = refl
  route_of-route_entry (some r) = simp route_from_dict-to_dict

  declared-opt_str : (o : Option String) → declared_opt_str text (some (opt_str o)) ≡ ok o
  unfolding declared_opt_str
  declared-opt_str none = refl
  declared-opt_str (some s) = refl

  -- Let the text of a string be the string itself. Then `from_dict` reads what `to_dict` writes
  -- of a pathway definition, with or without a route and an approval authority, as the same
  -- definition.
  pub from_dict-to_dict : (d : PathwayDefinition) → from_dict text (to_dict d) ≡ ok d
  unfolding from_dict to_dict get fields_of
  from_dict-to_dict d = simp (
    text-str, action_class_of-value, environment_trust_of-value, route_of-route_entry,
    declared-opt_str,
  )
