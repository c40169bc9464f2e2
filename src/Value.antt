-- ===== src/Value.antt =====
-- Python values as they stand in payloads, parameters and JSON documents, and what the code reads of
-- them. A `dict` keeps its insertion order; a list and a tuple are one constructor.
use responsibility_pathway_r.Prelude.{
  ℕ, zero, String, ◌≡◌, refl, Bool, true, false, not, ◌||◌, Option, none, some, List, [], ◌∷◌, ◌==◌,
  eq_iff, arith, is_empty, if◌then◌else◌,
}
use responsibility_pathway_r.Errors.{Result, key_error, or_raise}

-- A key of a dict: a `str`, or another object by its `str(key)`.
pub data Key : Type 0 where
  name : String → Key
  other_key : String → Key

-- `negsuc n` is the integer -(n + 1).
pub data ℤ : Type 0 where
  pos : ℕ → ℤ
  negsuc : ℕ → ℤ

mutual
  pub data Value : Type 0 where
    null : Value
    bool : Bool → Value
    int : ℤ → Value
    -- whether `math.isfinite` holds, and the text of `repr`
    float : Bool → String → Value
    str : String → Value
    list : Items → Value
    dict : Fields → Value
    -- an object of a class that JSON does not have, by its `str(value)`
    object : String → Value

  pub data Items : Type 0 where
    nil : Items
    cons : Value → Items → Items

  pub data Fields : Type 0 where
    end : Fields
    field : Key → Value → Fields → Fields

-- `str(key)`
abbrev pub key_text : Key → String
key_text (name s) = s
key_text (other_key s) = s

abbrev pub is_key : String → Key → Bool
is_key k (name s) = s == k
is_key k (other_key s) = false

-- `value.get(key)` of a dict with a `str` key
unfoldable pub get : String → Fields → Option Value
get k end = none
get k (field j v fs) = let rest = get k fs in if is_key k j then some v else rest

-- `output[key] = value` with a `str` key: a key that is there keeps its place.
unfoldable pub put : String → Value → Fields → Fields
put k v end = field (name k) v end
put k v (field j w fs) =
    let rest = put k v fs in if is_key k j then field j v fs else field j w rest

-- `value[key]`
unfoldable pub item : String → Fields → Result Value
unfolding get
item k fs = or_raise (get k fs) key_error

-- `not mapping`
abbrev pub no_fields : Fields → Bool
no_fields end = true
no_fields (field _ _ _) = false

abbrev pub no_items : Items → Bool
no_items nil = true
no_items (cons _ _) = false

abbrev is_zero : ℤ → Bool
is_zero (pos zero) = true
is_zero _ = false

-- `bool(value)`
unfoldable pub truthy : Value → Bool
truthy null = false
truthy (bool b) = b
truthy (int i) = not (is_zero i)
truthy (float _ r) = not (r == "0.0" || r == "-0.0")
truthy (str s) = not (is_empty s)
truthy (list xs) = not (no_items xs)
truthy (dict fs) = not (no_fields fs)
truthy (object _) = true

-- `bool(mapping.get(key))`, of what `get` gives
unfoldable pub truthy_or_false : Option Value → Bool
unfolding truthy
truthy_or_false none = false
truthy_or_false (some v) = truthy v

-- `None` or a text
abbrev pub opt_str : Option String → Value
opt_str none = null
opt_str (some s) = str s

abbrev pub strs : List String → Items
strs [] = nil
strs (s ∷ ss) = cons (str s) (strs ss)

-- One entry of a dict that is written out with `str` keys.
abbrev pub entry : String → Value → Fields → Fields
entry k v fs = field (name k) v fs

pub get-put :
    (k j : String) (v : Value) (fs : Fields)
    → get j (put k v fs) ≡ (if k == j then some v else get j fs)
unfolding get put
get-put k j v end = refl
get-put k j v (field (name i) w fs) =
    ground (arith, eq_iff k j, eq_iff i k, eq_iff i j, get-put k j v fs)
get-put k j v (field (other_key i) w fs) = get-put k j v fs
