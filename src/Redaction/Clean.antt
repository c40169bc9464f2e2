-- ===== src/Redaction/Clean.antt =====
-- redaction.py: no secret survives in a copy.
use Prim.Native.String.{count}
use responsibility_pathway_r.Prelude.{
  ℕ, ◌+◌, leb, String, ◌≡◌, refl, true, false, Bool-cases, inl, inr, arith, ◌==◌, eq_iff,
  if◌then◌else◌,
}
use responsibility_pathway_r.Errors.{
  Result, ok, err, Ensures, Ensures-bind, Ensures-after, Ensures-ok, ensure, evidence_limit_error,
}
use responsibility_pathway_r.Value.{
  Value, Items, Fields, null, bool, int, float, str, list, dict, object, nil, cons, end, field, put,
  name, other_key, key_text,
}
use responsibility_pathway_r.Redaction.{
  RedactionPolicy, is_sensitive, redact_value, redact_items, redact_fields, redact, charge,
}

module _ (casefold : String → String) (p : RedactionPolicy) where
  -- A value for evidence: under a sensitive key stands the replacement, at every depth, and objects
  -- that are no JSON are gone.
  unfoldable mutual
    pub IsClean : Value → Type 0
    IsClean null = Unit
    IsClean (bool _) = Unit
    IsClean (int _) = Unit
    IsClean (float _ _) = Unit
    IsClean (str _) = Unit
    IsClean (list vs) = AreClean vs
    IsClean (dict fs) = FieldsClean fs
    IsClean (object _) = ⊥

    pub AreClean : Items → Type 0
    AreClean nil = Unit
    AreClean (cons v vs) = IsClean v × AreClean vs

    pub FieldsClean : Fields → Type 0
    FieldsClean end = Unit
    FieldsClean (field k v fs) =
        (is_sensitive casefold p (key_text k) ≡ true → v ≡ str p.replacement)
        × IsClean v
        × FieldsClean fs

  put-clean :
      (k : String) (w : Value) (out : Fields)
      → (is_sensitive casefold p k ≡ true → w ≡ str p.replacement)
      → IsClean w
      → FieldsClean out
      → FieldsClean (put k w out)
  unfolding IsClean put
  put-clean k w end hs hw ho = (hs, hw, tt)
  put-clean k w (field (name j) v fs) hs hw ho = elim (Bool-cases (j == k)) [
    | inl same ↦ rw same ((λ q. hs (rw ((eq_iff j k).0 same) at q)), hw, ho.2)
    | inr other ↦ rw other (ho.0, ho.1, put-clean k w fs hs hw ho.2)
  ]
  put-clean k w (field (other_key j) v fs) hs hw ho = (ho.0, ho.1, put-clean k w fs hs hw ho.2)

  abbrev CleanValue : Value × ℕ → Type 0
  CleanValue r = IsClean r.0

  abbrev CleanItems : Items × ℕ → Type 0
  CleanItems r = AreClean r.0

  abbrev CleanFields : Fields × ℕ → Type 0
  CleanFields r = FieldsClean r.0

  -- What is stored under a key.
  abbrev CleanEntry : String → Value × ℕ → Type 0
  CleanEntry k r = (is_sensitive casefold p k ≡ true → r.0 ≡ str p.replacement) × IsClean r.0

  shown-clean :
      (k : String) (r : Result (Value × ℕ))
      → is_sensitive casefold p k ≡ false
      → Ensures CleanValue r
      → Ensures (CleanEntry k) r
  shown-clean k (ok r) e h = ((λ t. absurd (ground arith)), h)
  shown-clean k (err _) e h = tt

  entry-clean :
      (k : String) (budget : ℕ) (r : Result (Value × ℕ))
      → Ensures CleanValue r
      → Ensures
          (CleanEntry k)
          (if is_sensitive casefold p k then ok (str p.replacement, budget) else r)
  unfolding IsClean
  entry-clean k budget r h = elim (Bool-cases (is_sensitive casefold p k)) [
    | inl hidden ↦ rw hidden ((λ _. refl), tt)
    | inr shown ↦ rw shown (shown-clean k r shown h)
  ]

  mutual
    unfolding redact_value IsClean

    value-clean :
        (v : Value) (depth budget : ℕ) → Ensures CleanValue (redact_value casefold p v depth budget)
    value-clean null depth budget = Ensures-after CleanValue (charge p depth budget) _ (λ b. tt)
    value-clean (bool x) depth budget = Ensures-after CleanValue (charge p depth budget) _ (λ b. tt)
    value-clean (int n) depth budget = Ensures-after CleanValue (charge p depth budget) _ (λ b. tt)
    value-clean (float q t) depth budget =
        Ensures-after CleanValue (charge p depth budget) _ (λ b. tt)
    value-clean (str s) depth budget = Ensures-after CleanValue (charge p depth budget) _ (λ b.
        Ensures-after CleanValue (ensure (leb (count s) p.max_string_length) evidence_limit_error) _
          (λ _. tt))
    value-clean (dict fs) depth budget = Ensures-after CleanValue (charge p depth budget) _ (λ b.
        Ensures-bind CleanFields CleanValue (redact_fields casefold p fs end (depth + 1) b) _
          (fields-clean fs end (depth + 1) b tt) (λ r c. c))
    value-clean (list vs) depth budget = Ensures-after CleanValue (charge p depth budget) _ (λ b.
        Ensures-bind CleanItems CleanValue (redact_items casefold p vs (depth + 1) b) _
          (items-clean vs (depth + 1) b) (λ r c. c))
    value-clean (object t) depth budget =
        Ensures-after CleanValue (charge p depth budget) _ (λ b. tt)

    items-clean :
        (vs : Items) (depth budget : ℕ)
        → Ensures CleanItems (redact_items casefold p vs depth budget)
    items-clean nil depth budget = tt
    items-clean (cons v vs) depth budget =
        Ensures-bind CleanValue CleanItems (redact_value casefold p v depth budget) _
          (value-clean v depth budget)
          (λ r c.
            Ensures-bind CleanItems CleanItems (redact_items casefold p vs depth r.1) _
              (items-clean vs depth r.1) (λ q cs. (c, cs)))

    fields-clean :
        (fs out : Fields) (depth budget : ℕ)
        → FieldsClean out
        → Ensures CleanFields (redact_fields casefold p fs out depth budget)
    fields-clean end out depth budget c = c
    fields-clean (field k v fs) out depth budget c =
        Ensures-bind (λ r. CleanEntry (key_text k) r) CleanFields
          (if is_sensitive casefold p (key_text k)
            then ok (str p.replacement, budget)
            else redact_value casefold p v depth budget)
          _
          (entry-clean (key_text k) budget (redact_value casefold p v depth budget)
            (value-clean v depth budget))
          (λ r e.
            fields-clean fs (put (key_text k) r.0 out) depth r.1
              (put-clean (key_text k) r.0 out e.0 e.1 c))

  redact-Ensures : (v : Value) → Ensures IsClean (redact casefold p v)
  unfolding redact
  redact-Ensures v =
      Ensures-bind CleanValue IsClean (redact_value casefold p v 0 p.max_items) _
        (value-clean v 0 p.max_items) (λ r c. c)

  -- In what the redaction returns, every field whose casefolded key is sensitive holds the
  -- replacement, at every depth, and no object is left that JSON does not have.
  pub redact-IsClean : (v w : Value) → redact casefold p v ≡ ok w → IsClean w
  redact-IsClean v w h = Ensures-ok IsClean (redact casefold p v) (redact-Ensures v) h
