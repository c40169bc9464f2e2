-- ===== src/JsonIdentity/Sound.antt =====
-- attempts.py: what `_strict_json_identity` accepts is JSON within its limits, unchanged.
use Prim.Native.String.{len}
use responsibility_pathway_r.Prelude.{
  ℕ, suc, ◌+◌, ◌≤◌, String, Bool, true, false, refl, ap, ap₂, ltb, ◌≡◌, arith,
}
use responsibility_pathway_r.Errors.{
  ok, Error, ensure, attempt_fingerprint_error, Ensures, Ensures-bind, Ensures-after, ◌>>=◌,
}
use responsibility_pathway_r.Value.{
  Value, Items, Fields, name, other_key, null, bool, int, float, str, list, dict, object, nil, cons,
  end, field,
}
use responsibility_pathway_r.JsonIdentity.{
  max_nesting, max_nodes, max_string_bytes, Budget, consume_node, consume_text, key_name, identity,
  identity_items, identity_fields,
}
use responsibility_pathway_r.JsonIdentity.Measures.{
  IsJson, ItemsJson, FieldsJson, nesting, items_nesting, fields_nesting, nodes, items_nodes,
  fields_nodes, bytes, items_bytes, fields_bytes, IsWithin, Fits,
}

abbrev Tested : Bool → Unit {0} → Type 0
Tested t _ = (t ≡ true)

ensure-Tested : (t : Bool) (e : Error) → Ensures (Tested t) (ensure t e)
ensure-Tested true e = refl
ensure-Tested false e = tt

abbrev NodeCharged : Budget → Budget → Type 0
NodeCharged b c =
    (c.nodes ≡ b.nodes + 1)
    × (c.string_bytes ≡ b.string_bytes)
    × (b.nodes + 1 ≤ max_nodes)
    × (b.string_bytes ≤ max_string_bytes)

node-charged : (b : Budget) → Ensures (NodeCharged b) (consume_node b)
unfolding consume_node
node-charged b = ground arith

abbrev TextCharged : String → Budget → Budget → Type 0
TextCharged s b c =
    (c.nodes ≡ b.nodes)
    × (c.string_bytes ≡ b.string_bytes + len s)
    × (b.string_bytes + len s ≤ max_string_bytes)

text-charged : (s : String) (b : Budget) → Ensures (TextCharged s b) (consume_text s b)
unfolding consume_text
text-charged s b = ground arith

above_min : (depth : ℕ) → ltb depth max_nesting ≡ true → suc depth ≤ max_nesting
above_min depth h = ground arith

-- The value comes back as it is, its nodes and bytes are charged, and it is JSON within the limits.
abbrev pub ValueChecked : Value → ℕ → Budget → Value × Budget → Type 0
ValueChecked v depth b r =
    (r.0 ≡ v)
    × (r.1.nodes ≡ b.nodes + nodes v)
    × (r.1.string_bytes ≡ b.string_bytes + bytes v)
    × IsJson v
    × Fits (nodes v) (bytes v) (nesting v) depth b

abbrev ItemsChecked : Items → ℕ → Budget → Items × Budget → Type 0
ItemsChecked vs depth b r =
    (r.0 ≡ vs)
    × (r.1.nodes ≡ b.nodes + items_nodes vs)
    × (r.1.string_bytes ≡ b.string_bytes + items_bytes vs)
    × ItemsJson vs
    × Fits (items_nodes vs) (items_bytes vs) (items_nesting vs) depth b

abbrev FieldsChecked : Fields → ℕ → Budget → Fields × Budget → Type 0
FieldsChecked fs depth b r =
    (r.0 ≡ fs)
    × (r.1.nodes ≡ b.nodes + fields_nodes fs)
    × (r.1.string_bytes ≡ b.string_bytes + fields_bytes fs)
    × FieldsJson fs
    × Fits (fields_nodes fs) (fields_bytes fs) (fields_nesting fs) depth b

-- A value that is one node and has no text.
leaf :
    (v : Value) (depth : ℕ) (b : Budget)
    → nodes v ≡ 1
    → bytes v ≡ 0
    → nesting v ≡ 0
    → IsJson v
    → depth ≤ max_nesting
    → Ensures (ValueChecked v depth b) (consume_node b >>= λ c. ok (v, c))
leaf v depth b n s k j d =
    Ensures-bind (NodeCharged b) (ValueChecked v depth b) (consume_node b) _ (node-charged b)
      (λ c h. (refl, omega arith, omega arith, j, omega arith))

mutual
  unfolding identity IsJson nesting nodes bytes key_name

  pub sound :
      (v : Value) (depth : ℕ) (b : Budget)
      → IsWithin b
      → depth ≤ max_nesting
      → Ensures (ValueChecked v depth b) (identity v depth b)
  sound null depth b w d = leaf null depth b refl refl refl tt d
  sound (bool x) depth b w d = leaf (bool x) depth b refl refl refl tt d
  sound (int n) depth b w d = leaf (int n) depth b refl refl refl tt d
  sound (float q t) depth b w d =
      Ensures-bind (NodeCharged b) (ValueChecked (float q t) depth b) (consume_node b) _
        (node-charged b)
        (λ c h.
          Ensures-bind (Tested q) (ValueChecked (float q t) depth b)
            (ensure q attempt_fingerprint_error) _ (ensure-Tested q attempt_fingerprint_error)
            (λ _ finite. (refl, omega arith, omega arith, finite, omega arith)))
  sound (str s) depth b w d =
      Ensures-bind (NodeCharged b) (ValueChecked (str s) depth b) (consume_node b) _
        (node-charged b)
        (λ c h.
          Ensures-bind (TextCharged s c) (ValueChecked (str s) depth b) (consume_text s c) _
            (text-charged s c) (λ e k. (refl, omega arith, omega arith, tt, omega arith)))
  sound (dict fs) depth b w d =
      Ensures-bind (NodeCharged b) (ValueChecked (dict fs) depth b) (consume_node b) _
        (node-charged b)
        (λ c h.
          Ensures-bind (Tested (ltb depth max_nesting)) (ValueChecked (dict fs) depth b)
            (ensure (ltb depth max_nesting) attempt_fingerprint_error) _
            (ensure-Tested (ltb depth max_nesting) attempt_fingerprint_error)
            (λ _ t.
              Ensures-bind (FieldsChecked fs (suc depth) c) (ValueChecked (dict fs) depth b)
                (identity_fields fs (suc depth) c) _
                (fields_sound fs (suc depth) c (omega arith) (above_min depth t))
                (λ r k. (ap dict k.0, omega arith, omega arith, k.3, omega (arith, k.4)))))
  sound (list vs) depth b w d =
      Ensures-bind (NodeCharged b) (ValueChecked (list vs) depth b) (consume_node b) _
        (node-charged b)
        (λ c h.
          Ensures-bind (Tested (ltb depth max_nesting)) (ValueChecked (list vs) depth b)
            (ensure (ltb depth max_nesting) attempt_fingerprint_error) _
            (ensure-Tested (ltb depth max_nesting) attempt_fingerprint_error)
            (λ _ t.
              Ensures-bind (ItemsChecked vs (suc depth) c) (ValueChecked (list vs) depth b)
                (identity_items vs (suc depth) c) _
                (items_sound vs (suc depth) c (omega arith) (above_min depth t))
                (λ r k. (ap list k.0, omega arith, omega arith, k.3, omega (arith, k.4)))))
  sound (object t) depth b w d =
      Ensures-after (ValueChecked (object t) depth b) (consume_node b) _ (λ _. tt)

  items_sound :
      (vs : Items) (depth : ℕ) (b : Budget)
      → IsWithin b
      → depth ≤ max_nesting
      → Ensures (ItemsChecked vs depth b) (identity_items vs depth b)
  items_sound nil depth b w d = (refl, omega arith, omega arith, tt, omega arith)
  items_sound (cons v vs) depth b w d =
      Ensures-bind (ValueChecked v depth b) (ItemsChecked (cons v vs) depth b) (identity v depth b)
        _ (sound v depth b w d)
        (λ r h.
          Ensures-bind (ItemsChecked vs depth r.1) (ItemsChecked (cons v vs) depth b)
            (identity_items vs depth r.1) _ (items_sound vs depth r.1 (omega (arith, h.4)) d)
            (λ q k.
              (ap₂ cons h.0 k.0, omega arith, omega arith, (h.3, k.3), omega (arith, h.4, k.4))))

  fields_sound :
      (fs : Fields) (depth : ℕ) (b : Budget)
      → IsWithin b
      → depth ≤ max_nesting
      → Ensures (FieldsChecked fs depth b) (identity_fields fs depth b)
  fields_sound end depth b w d = (refl, omega arith, omega arith, tt, omega arith)
  fields_sound (field (name s) v fs) depth b w d =
      Ensures-bind (TextCharged s b) (FieldsChecked (field (name s) v fs) depth b)
        (consume_text s b) _ (text-charged s b)
        (λ c t.
          Ensures-bind (ValueChecked v depth c) (FieldsChecked (field (name s) v fs) depth b)
            (identity v depth c) _ (sound v depth c (omega arith) d)
            (λ r h.
              Ensures-bind (FieldsChecked fs depth r.1)
                (FieldsChecked (field (name s) v fs) depth b) (identity_fields fs depth r.1) _
                (fields_sound fs depth r.1 (omega (arith, h.4)) d)
                (λ q k. (
                  ap₂ (field (name s)) h.0 k.0,
                  omega arith,
                  omega arith,
                  (h.3, k.3),
                  omega (arith, h.4, k.4),
                ))))
  fields_sound (field (other_key s) v fs) depth b w d = tt
