-- ===== src/Mcp/SafeJson.antt =====
-- mcp_retained_evidence.py: strict JSON whose keys may not bear credentials.
use Prim.Native.Char.{code}
use responsibility_pathway_r.Prelude.{
  String, Bool, true, false, not, ◌&&◌, ◌||◌, Option, some, List, [], ◌∷◌, any, leb, is_blank,
  strip, if◌then◌else◌,
}
use responsibility_pathway_r.Errors.{Error, Result, ok, err, other_error, ensure, ◌>>=◌, ◌>>◌}
use responsibility_pathway_r.Value.{
  Value, Items, Fields, name, other_key, null, bool, int, float, str, list, dict, object, nil, cons,
  end, field,
}
use responsibility_pathway_r.Env.{Env}

-- McpRetainedEvidenceError
abbrev pub retained_evidence_error : Error
retained_evidence_error = other_error "McpRetainedEvidenceError"

-- `_FORBIDDEN_KEY_FRAGMENTS`
abbrev forbidden_key_fragments : List String
forbidden_key_fragments =
    "authorization" ∷ "credential" ∷ "password" ∷ "secret" ∷ "token" ∷ "api_key" ∷ "apikey" ∷ []

is_prefix : String → String → Bool
is_prefix String.[] t = true
is_prefix (String.◌∷◌ c s) String.[] = false
is_prefix (String.◌∷◌ c s) (String.◌∷◌ d t) =
    (leb (code c) (code d) && leb (code d) (code c)) && is_prefix s t

-- `fragment in text`
is_inside : String → String → Bool
unfolding is_prefix
is_inside s String.[] = is_prefix s String.[]
is_inside s (String.◌∷◌ d t) = is_prefix s (String.◌∷◌ d t) || is_inside s t

-- `text.replace("-", "_")`
underscored : String → String
underscored String.[] = String.[]
underscored (String.◌∷◌ c s) =
    if leb (code c) 45 && leb 45 (code c)
    then String.◌∷◌ "_" (underscored s)
    else String.◌∷◌ c (underscored s)

-- A key that may bear a credential.
unfoldable pub is_forbidden : Env → String → Bool
unfolding is_inside underscored any
is_forbidden env key =
    any (λ fragment. is_inside fragment (underscored (env.casefold key))) forbidden_key_fragments

unfoldable mutual
  unfolding is_forbidden

  -- `_strict_json`
  pub strict_json : Env → Value → Result Value
  strict_json env null = ok null
  strict_json env (bool b) = ok (bool b)
  strict_json env (int n) = ok (int n)
  strict_json env (float finite r) = do ensure finite retained_evidence_error; ok (float finite r)
  strict_json env (str s) = ok (str s)
  strict_json env (dict fs) = do out ← strict_json_fields env fs; ok (dict out)
  strict_json env (list vs) = do out ← strict_json_items env vs; ok (list out)
  strict_json env (object t) = err retained_evidence_error

  pub strict_json_items : Env → Items → Result Items
  strict_json_items env nil = ok nil
  strict_json_items env (cons v vs) = do
    w ← strict_json env v
    ws ← strict_json_items env vs
    ok (cons w ws)

  pub strict_json_fields : Env → Fields → Result Fields
  strict_json_fields env end = ok end
  strict_json_fields env (field (other_key k) v fs) = err retained_evidence_error
  strict_json_fields env (field (name k) v fs) = do
    ensure (not (is_forbidden env k)) retained_evidence_error
    w ← strict_json env v
    ws ← strict_json_fields env fs
    ok (field (name k) w ws)

-- `_required_text`
unfoldable pub required_text : Option Value → Result String
required_text (some (str s)) = if is_blank s then err retained_evidence_error else ok (strip s)
required_text _ = err retained_evidence_error
