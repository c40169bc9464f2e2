-- ===== src/JsonIdentity/Exact.antt =====
-- attempts.py: exactly which values `_strict_json_identity` accepts.
use responsibility_pathway_r.Prelude.{◌≤◌, ◌≡◌, ◌↔◌, arith}
use responsibility_pathway_r.Errors.{ok, Ensures, Ensures-bind, Ensures-ok}
use responsibility_pathway_r.Value.{Value}
use responsibility_pathway_r.JsonIdentity.{
  max_nesting, max_nodes, max_string_bytes, fresh, identity, strict_identity,
}
use responsibility_pathway_r.JsonIdentity.Measures.{IsJson, nesting, nodes, bytes}
use responsibility_pathway_r.JsonIdentity.Complete.{complete}
use responsibility_pathway_r.JsonIdentity.Sound.{ValueChecked, sound}

-- A value that is JSON, within the limits on nesting, nodes and the bytes of its texts.
pub record IsStrictJson (v : Value) : Type 0 where
  pub json : IsJson v
  pub nesting_bound : nesting v ≤ max_nesting
  pub nodes_bound : nodes v ≤ max_nodes
  pub bytes_bound : bytes v ≤ max_string_bytes

abbrev Returned : Value → Value → Type 0
Returned v w = (w ≡ v) × IsStrictJson v

accepted : (v : Value) → Ensures (Returned v) (strict_identity v)
unfolding strict_identity
accepted v =
    Ensures-bind (ValueChecked v 0 fresh) (Returned v) (identity v 0 fresh) _
      (sound v 0 fresh (omega arith) (omega arith))
      (λ r h. (
        h.0,
        record {
          json = h.3;
          nesting_bound = omega (arith, h.4);
          nodes_bound = omega (arith, h.4);
          bytes_bound = omega (arith, h.4);
        },
      ))

accepts : (v : Value) → IsStrictJson v → strict_identity v ≡ ok v
unfolding strict_identity
accepts v j = rw (complete v 0 fresh (omega arith) j.json (omega arith))

-- The strict check returns a value exactly when it is JSON within the limits on nesting, nodes
-- and bytes of text, and then it returns the value itself.
pub strict_identity_iff : (v w : Value) → (strict_identity v ≡ ok w) ↔ ((w ≡ v) × IsStrictJson v)
strict_identity_iff v w =
    (Ensures-ok (Returned v) (strict_identity v) (accepted v), λ h. rw h.0 (accepts v h.1))
