-- ===== src/Mcp/Json/Exact.antt =====
-- mcp_admission.py and attempts.py: the two strict JSON checks accept the same values.
use Prim.Native.String.{len}
use responsibility_pathway_r.Prelude.{
  String, ◌∙◌, ap, ℕ, suc, ◌≡◌, refl, Bool, true, false, arith, ltb,
}
use responsibility_pathway_r.Errors.{Result, ok, err, ensure, attempt_fingerprint_error, ◌>>=◌}
use responsibility_pathway_r.Value.{
  Value, Items, Fields, name, other_key, null, bool, int, float, str, list, dict, object, nil, cons,
  end, field, Key,
}
use responsibility_pathway_r.JsonIdentity.{
  Budget, fresh, max_nesting, consume_node, consume_text, key_name, identity, identity_items,
  identity_fields, strict_identity,
}
use responsibility_pathway_r.Mcp.Json.{
  mcp_admission_error, consume, consume_key, plain, plain_items, plain_fields, strict_plain,
}

-- A result of the check of attempts.py, with the error of mcp_admission.py.
abbrev pub renamed {ℓ} : {A : Type ℓ} → Result A → Result A
renamed (ok a) = ok a
renamed (err e) = err mcp_admission_error

bind-renamed {ℓ κ} :
    {A : Type ℓ} {B : Type κ} (m' m : Result A) (f' f : A → Result B)
    → m' ≡ renamed m
    → ((a : A) → f' a ≡ renamed (f a))
    → (m' >>= f') ≡ renamed (m >>= f)
bind-renamed m' (ok a) f' f e k = rw e (k a)
bind-renamed m' (err x) f' f e k = rw e

consume-node : (b : Budget) → consume 0 b ≡ renamed (consume_node b)
unfolding consume consume_node
consume-node b = ground arith

consume-text :
    (s : String) (b : Budget) → consume (len s) b ≡ renamed (consume_node b >>= consume_text s)
unfolding consume consume_node consume_text
consume-text s b = ground arith

consume-key :
    (k : Key) (b : Budget)
    → consume_key k b ≡ renamed (key_name k >>= λ key. consume_text key b >>= λ c. ok (key, c))
unfolding consume_key consume_text key_name
consume-key (other_key s) b = refl
consume-key (name s) b = ground arith

ensure-renamed :
    (t : Bool) → ensure t mcp_admission_error ≡ renamed (ensure t attempt_fingerprint_error)
ensure-renamed true = refl
ensure-renamed false = refl

bind_assoc {ℓ κ μ} :
    {A : Type ℓ} {B : Type κ} {C : Type μ} (m : Result A) (f : A → Result B) (g : B → Result C)
    → ((m >>= f) >>= g) ≡ (m >>= λ a. f a >>= g)
bind_assoc (ok a) f g = refl
bind_assoc (err e) f g = refl

-- The rest of the check of a member, after its key.
abbrev member : Value → Fields → ℕ → String × Budget → Result (Fields × Budget)
member v fs depth t = identity v depth t.1 >>= λ r.
    identity_fields fs depth r.1 >>= λ q. ok (field (name t.0) r.0 q.0, q.1)

member-renamed :
    (v : Value) (fs : Fields) (depth : ℕ) (t : String × Budget)
    → ((b : Budget) → plain v depth b ≡ renamed (identity v depth b))
    → ((b : Budget) → plain_fields fs depth b ≡ renamed (identity_fields fs depth b))
    → (plain v depth t.1 >>= λ r.
        plain_fields fs depth r.1 >>= λ q. ok (field (name t.0) r.0 q.0, q.1))
      ≡ renamed (member v fs depth t)
member-renamed v fs depth t h k =
    bind-renamed (plain v depth t.1) (identity v depth t.1) _ _ (h t.1) (λ r.
      bind-renamed (plain_fields fs depth r.1) (identity_fields fs depth r.1) _ _ (k r.1)
        (λ q. refl))

mutual
  unfolding plain identity key_name

  plain-identity :
      (v : Value) (depth : ℕ) (b : Budget) → plain v depth b ≡ renamed (identity v depth b)
  plain-identity null depth b =
      bind-renamed (consume 0 b) (consume_node b) _ _ (consume-node b) (λ c. refl)
  plain-identity (bool x) depth b =
      bind-renamed (consume 0 b) (consume_node b) _ _ (consume-node b) (λ c. refl)
  plain-identity (int n) depth b =
      bind-renamed (consume 0 b) (consume_node b) _ _ (consume-node b) (λ c. refl)
  plain-identity (float q t) depth b =
      bind-renamed (consume 0 b) (consume_node b) _ _ (consume-node b) (λ c.
        bind-renamed (ensure q mcp_admission_error) (ensure q attempt_fingerprint_error) _ _
          (ensure-renamed q) (λ _. refl))
  plain-identity (str s) depth b =
      bind-renamed (consume (len s) b) (consume_node b >>= consume_text s) _ _ (consume-text s b)
        (λ c. refl)
      ∙ ap renamed (bind_assoc (consume_node b) (consume_text s) (λ c. ok (str s, c)))
  plain-identity (dict fs) depth b =
      bind-renamed (consume 0 b) (consume_node b) _ _ (consume-node b) (λ c.
        bind-renamed (ensure (ltb depth max_nesting) mcp_admission_error)
          (ensure (ltb depth max_nesting) attempt_fingerprint_error) _ _
          (ensure-renamed (ltb depth max_nesting))
          (λ _.
            bind-renamed (plain_fields fs (suc depth) c) (identity_fields fs (suc depth) c) _ _
              (fields-identity fs (suc depth) c) (λ r. refl)))
  plain-identity (list vs) depth b =
      bind-renamed (consume 0 b) (consume_node b) _ _ (consume-node b) (λ c.
        bind-renamed (ensure (ltb depth max_nesting) mcp_admission_error)
          (ensure (ltb depth max_nesting) attempt_fingerprint_error) _ _
          (ensure-renamed (ltb depth max_nesting))
          (λ _.
            bind-renamed (plain_items vs (suc depth) c) (identity_items vs (suc depth) c) _ _
              (items-identity vs (suc depth) c) (λ r. refl)))
  plain-identity (object t) depth b =
      bind-renamed (consume 0 b) (consume_node b) _ _ (consume-node b) (λ c. refl)

  items-identity :
      (vs : Items) (depth : ℕ) (b : Budget)
      → plain_items vs depth b ≡ renamed (identity_items vs depth b)
  items-identity nil depth b = refl
  items-identity (cons v vs) depth b =
      bind-renamed (plain v depth b) (identity v depth b) _ _ (plain-identity v depth b) (λ r.
        bind-renamed (plain_items vs depth r.1) (identity_items vs depth r.1) _ _
          (items-identity vs depth r.1) (λ q. refl))

  fields-identity :
      (fs : Fields) (depth : ℕ) (b : Budget)
      → plain_fields fs depth b ≡ renamed (identity_fields fs depth b)
  fields-identity end depth b = refl
  fields-identity (field (other_key k) v fs) depth b =
      bind-renamed (consume_key (other_key k) b) (err attempt_fingerprint_error) _
        (member v fs depth) (consume-key (other_key k) b)
        (λ t.
          member-renamed v fs depth t (λ c. plain-identity v depth c)
            (λ c. fields-identity fs depth c))
  fields-identity (field (name k) v fs) depth b =
      bind-renamed (consume_key (name k) b) (consume_text k b >>= λ c. ok (k, c)) _
        (member v fs depth) (consume-key (name k) b)
        (λ t.
          member-renamed v fs depth t (λ c. plain-identity v depth c)
            (λ c. fields-identity fs depth c))
      ∙ ap renamed (bind_assoc (consume_text k b) (λ c. ok (k, c)) (member v fs depth))

-- `_strict_json_plain` of the admission and `_strict_json_identity` of the attempt ledger accept the same
-- values and return the same; where one raises, so does the other.
pub strict_plain-identity : (v : Value) → strict_plain v ≡ renamed (strict_identity v)
unfolding strict_plain strict_identity
strict_plain-identity v =
    bind-renamed (plain v 0 fresh) (identity v 0 fresh) _ _ (plain-identity v 0 fresh) (λ r. refl)
