-- ===== src/JsonIdentity/Complete.antt =====
-- attempts.py: `_strict_json_identity` accepts what is within its limits.
use Prim.Native.String.{len}
use responsibility_pathway_r.Prelude.{
  ℕ, suc, ◌+◌, ◌≤◌, ◌<◌, String, true, refl, ap, ◌∙◌, ltb, ◌≡◌, arith,
}
use responsibility_pathway_r.Errors.{ok}
use responsibility_pathway_r.Value.{
  Value, Items, Fields, name, other_key, null, bool, int, float, str, list, dict, object, nil, cons,
  end, field,
}
use responsibility_pathway_r.JsonIdentity.{
  max_nesting, max_nodes, max_string_bytes, Budget, consume_node, consume_text, identity,
  identity_items, identity_fields,
}
use responsibility_pathway_r.JsonIdentity.Measures.{
  IsJson, ItemsJson, FieldsJson, nesting, items_nesting, fields_nesting, nodes, items_nodes,
  fields_nodes, bytes, items_bytes, fields_bytes, spent, IsWithin, Fits,
}

module _ (b : Budget) (w : IsWithin b) where
  consume_node_ok : b.nodes + 1 ≤ max_nodes → consume_node b ≡ ok (spent b 1 0)
  unfolding consume_node
  consume_node_ok h = ground arith

  consume_text_ok :
      (s : String)
      → b.string_bytes + len s ≤ max_string_bytes
      → consume_text s b ≡ ok (spent b 0 (len s))
  unfolding consume_text
  consume_text_ok s h = ground arith

below_max : (depth : ℕ) → depth < max_nesting → ltb depth max_nesting ≡ true
below_max depth h = ground arith

-- Two charges are one charge of the sums.
spent-spent :
    (b : Budget) (n s m t p q : ℕ) → n + m ≡ p → s + t ≡ q → spent (spent b n s) m t ≡ spent b p q
spent-spent b n s m t p q h k = ground arith

mutual
  unfolding identity IsJson nesting nodes bytes

  pub complete :
      (v : Value) (depth : ℕ) (b : Budget)
      → IsWithin b
      → IsJson v
      → Fits (nodes v) (bytes v) (nesting v) depth b
      → identity v depth b ≡ ok (v, spent b (nodes v) (bytes v))
  complete null depth b w j f = rw (consume_node_ok b w f.nodes_fit)
  complete (bool x) depth b w j f = rw (consume_node_ok b w f.nodes_fit)
  complete (int n) depth b w j f = rw (consume_node_ok b w f.nodes_fit)
  complete (float q t) depth b w j f = rw (consume_node_ok b w f.nodes_fit, j)
  complete (str s) depth b w j f =
      rw
        (
          consume_node_ok b w f.nodes_fit,
          consume_text_ok (spent b 1 0) (omega arith) s (omega arith),
        )
        (ap (λ c. ok (str s, c))
          (spent-spent b 1 0 0 (len s) 1 (len s) (omega arith) (omega arith)))
  complete (dict fs) depth b w j f =
      rw
        (
          consume_node_ok b w (omega arith),
          below_max depth (omega arith),
          fields_complete fs (suc depth) (spent b 1 0) (omega arith) j (omega arith),
        )
        (ap (λ c. ok (dict fs, c))
          (spent-spent b 1 0 (fields_nodes fs) (fields_bytes fs) _ _ (omega arith) (omega arith)))
  complete (list vs) depth b w j f =
      rw
        (
          consume_node_ok b w (omega arith),
          below_max depth (omega arith),
          items_complete vs (suc depth) (spent b 1 0) (omega arith) j (omega arith),
        )
        (ap (λ c. ok (list vs, c))
          (spent-spent b 1 0 (items_nodes vs) (items_bytes vs) _ _ (omega arith) (omega arith)))
  complete (object t) depth b w j f = absurd j

  items_complete :
      (vs : Items) (depth : ℕ) (b : Budget)
      → IsWithin b
      → ItemsJson vs
      → Fits (items_nodes vs) (items_bytes vs) (items_nesting vs) depth b
      → identity_items vs depth b ≡ ok (vs, spent b (items_nodes vs) (items_bytes vs))
  items_complete nil depth b w j f = ground arith
  items_complete (cons v vs) depth b w j f =
      rw
        (
          complete v depth b w j.0 (omega arith),
          items_complete vs depth (spent b (nodes v) (bytes v)) (omega arith) j.1 (omega arith),
        )
        (ap (λ c. ok (cons v vs, c))
          (spent-spent b (nodes v) (bytes v) (items_nodes vs) (items_bytes vs) _ _ refl refl))

  fields_complete :
      (fs : Fields) (depth : ℕ) (b : Budget)
      → IsWithin b
      → FieldsJson fs
      → Fits (fields_nodes fs) (fields_bytes fs) (fields_nesting fs) depth b
      → identity_fields fs depth b ≡ ok (fs, spent b (fields_nodes fs) (fields_bytes fs))
  fields_complete end depth b w j f = ground arith
  fields_complete (field (name k) v fs) depth b w j f =
      rw
        (
          consume_text_ok b w k (omega arith),
          complete v depth (spent b 0 (len k)) (omega arith) j.0 (omega arith),
          fields_complete fs depth (spent (spent b 0 (len k)) (nodes v) (bytes v)) (omega arith) j.1
              (omega arith),
        )
        (ap (λ c. ok (field (name k) v fs, c))
          (ap (λ c. spent c (fields_nodes fs) (fields_bytes fs))
              (spent-spent b 0 (len k) (nodes v) (bytes v) (nodes v) _ (omega arith) refl)
            ∙ spent-spent b (nodes v) (len k + bytes v) (fields_nodes fs) (fields_bytes fs) _ _ refl
                (omega arith)))
  fields_complete (field (other_key k) v fs) depth b w j f = absurd j
