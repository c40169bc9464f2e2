-- ===== src/JsonIdentity/Measures.antt =====
-- attempts.py: what `_strict_json_identity` measures of a value.
use Prim.Native.String.{len}
use responsibility_pathway_r.Prelude.{ℕ, suc, ◌+◌, ◌≤◌, max, true, ◌≡◌}
use responsibility_pathway_r.Value.{
  Value, Items, Fields, name, other_key, null, bool, int, float, str, list, dict, object, nil, cons,
  end, field,
}
use responsibility_pathway_r.JsonIdentity.{max_nesting, max_nodes, max_string_bytes, Budget}

-- The values that JSON has: texts as keys, finite numbers, no other objects.
unfoldable mutual
  pub IsJson : Value → Type 0
  IsJson null = Unit
  IsJson (bool _) = Unit
  IsJson (int _) = Unit
  IsJson (float finite _) = (finite ≡ true)
  IsJson (str _) = Unit
  IsJson (list vs) = ItemsJson vs
  IsJson (dict fs) = FieldsJson fs
  IsJson (object _) = ⊥

  pub ItemsJson : Items → Type 0
  ItemsJson nil = Unit
  ItemsJson (cons v vs) = IsJson v × ItemsJson vs

  pub FieldsJson : Fields → Type 0
  FieldsJson end = Unit
  FieldsJson (field (name k) v fs) = IsJson v × FieldsJson fs
  FieldsJson (field (other_key k) v fs) = ⊥

-- How many containers stand inside one another.
unfoldable mutual
  pub nesting : Value → ℕ
  nesting (list vs) = suc (items_nesting vs)
  nesting (dict fs) = suc (fields_nesting fs)
  nesting null = 0
  nesting _ = 0

  pub items_nesting : Items → ℕ
  items_nesting nil = 0
  items_nesting (cons v vs) = max (nesting v) (items_nesting vs)

  pub fields_nesting : Fields → ℕ
  fields_nesting end = 0
  fields_nesting (field k v fs) = max (nesting v) (fields_nesting fs)

unfoldable mutual
  pub nodes : Value → ℕ
  nodes (list vs) = suc (items_nodes vs)
  nodes (dict fs) = suc (fields_nodes fs)
  nodes null = 1
  nodes _ = 1

  pub items_nodes : Items → ℕ
  items_nodes nil = 0
  items_nodes (cons v vs) = nodes v + items_nodes vs

  pub fields_nodes : Fields → ℕ
  fields_nodes end = 0
  fields_nodes (field k v fs) = nodes v + fields_nodes fs

-- The bytes of all texts, keys included.
unfoldable mutual
  pub bytes : Value → ℕ
  bytes (str s) = len s
  bytes (list vs) = items_bytes vs
  bytes (dict fs) = fields_bytes fs
  bytes null = 0
  bytes _ = 0

  pub items_bytes : Items → ℕ
  items_bytes nil = 0
  items_bytes (cons v vs) = bytes v + items_bytes vs

  pub fields_bytes : Fields → ℕ
  fields_bytes end = 0
  fields_bytes (field (name k) v fs) = len k + (bytes v + fields_bytes fs)
  fields_bytes (field (other_key k) v fs) = bytes v + fields_bytes fs

abbrev pub spent : Budget → ℕ → ℕ → Budget
spent b n s = record { nodes = b.nodes + n; string_bytes = b.string_bytes + s }

-- A budget that no limit has stopped yet.
pub record IsWithin (b : Budget) : Type 0 where
  pub nodes_left : b.nodes ≤ max_nodes
  pub bytes_left : b.string_bytes ≤ max_string_bytes

-- What the check asks for at a depth, with a budget partly spent.
pub record Fits (n s k depth : ℕ) (b : Budget) : Type 0 where
  pub depth_fits : k + depth ≤ max_nesting
  pub nodes_fit : b.nodes + n ≤ max_nodes
  pub bytes_fit : b.string_bytes + s ≤ max_string_bytes
