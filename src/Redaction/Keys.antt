-- ===== src/Redaction/Keys.antt =====
-- redaction.py: which fields a copy keeps.
use Prim.Native.String.{count}
use responsibility_pathway_r.Prelude.{
  ℕ, leb, ap, eq_refl, String, ◌≡◌, refl, subst, Bool, true, false, not, ◌&&◌, Option, none, some,
  arith, ◌==◌, if◌then◌else◌,
}
use responsibility_pathway_r.Errors.{
  Result, ok, Ensures, Ensures-bind, Ensures-after, Ensures-ok, ensure, evidence_limit_error,
}
use responsibility_pathway_r.Value.{
  Value, Fields, str, dict, end, field, key_text, entry, get, put, get-put,
}
use responsibility_pathway_r.Redaction.{
  RedactionPolicy, is_sensitive, redact_value, redact_fields, redact, charge,
}

-- No field of the dictionary has the key.
abbrev pub lacks : String → Fields → Bool
lacks k end = true
lacks k (field j v fs) = not (key_text j == k) && lacks k fs

module _ (casefold : String → String) (p : RedactionPolicy) where
  abbrev Keeps : String → Option Value → Fields × ℕ → Type 0
  Keeps k o r = (get k r.0 ≡ o)

  Ensures-eq :
      (k : String) (o q : Option Value)
      → o ≡ q
      → (r : Result (Fields × ℕ)) → Ensures (Keeps k o) r
      → Ensures (Keeps k q) r
  Ensures-eq k o q e r h = subst (λ x. Ensures (Keeps k x) r) e h

  other-put :
      (k j : String) (v : Value) (fs : Fields) → (j == k) ≡ false → get k (put j v fs) ≡ get k fs
  other-put k j v fs h = rw (get-put j k v fs) (rw h)

  -- The loop over the fields leaves the output's field `k` alone if no field has that key.
  redact_fields-Keeps :
      (k : String) (fs out : Fields) (depth budget : ℕ)
      → lacks k fs ≡ true
      → Ensures (Keeps k (get k out)) (redact_fields casefold p fs out depth budget)
  unfolding redact_fields
  redact_fields-Keeps k end out depth budget h = refl
  redact_fields-Keeps k (field j v fs) out depth budget h =
      Ensures-after (Keeps k (get k out))
        (if is_sensitive casefold p (key_text j)
          then ok (str p.replacement, budget)
          else redact_value casefold p v depth budget)
        _
        (λ r.
          Ensures-eq k (get k (put (key_text j) r.0 out)) (get k out)
            (other-put k (key_text j) r.0 out (ground arith))
            (redact_fields casefold p fs (put (key_text j) r.0 out) depth r.1)
            (redact_fields-Keeps k fs (put (key_text j) r.0 out) depth r.1 (ground arith)))

  abbrev SameText : String → Value × ℕ → Type 0
  SameText s r = (r.0 ≡ str s)

  text-kept :
      (s : String) (depth budget : ℕ)
      → Ensures (SameText s) (redact_value casefold p (str s) depth budget)
  unfolding redact_value
  text-kept s depth budget = Ensures-after (SameText s) (charge p depth budget) _ (λ b.
      Ensures-after (SameText s) (ensure (leb (count s) p.max_string_length) evidence_limit_error) _
        (λ _. refl))

  -- A text under a key that is not sensitive, first among the fields of that key, is kept.
  text_field-kept :
      (k s : String) (fs out : Fields) (depth budget : ℕ)
      → is_sensitive casefold p k ≡ false
      → lacks k fs ≡ true
      → Ensures
          (Keeps k (some (str s)))
          (redact_fields casefold p (entry k (str s) fs) out depth budget)
  unfolding redact_fields
  text_field-kept k s fs out depth budget shown h = rw shown (
      Ensures-bind (SameText s) (Keeps k (some (str s)))
        (redact_value casefold p (str s) depth budget) _ (text-kept s depth budget)
        (λ r same.
          Ensures-eq k (get k (put k r.0 out)) (some (str s))
            (rw (get-put k k r.0 out, eq_refl k) (ap some same))
            (redact_fields casefold p fs (put k r.0 out) depth r.1)
            (redact_fields-Keeps k fs (put k r.0 out) depth r.1 h)))

  abbrev pub KeepsValue : String → Option Value → Value → Type 0
  KeepsValue k o w = (fields : Fields) × (w ≡ dict fields) × (get k fields ≡ o)

  module _ (k : String) (o : Option Value) (fs : Fields) where
    redact-fields :
        ((b : ℕ) → Ensures (Keeps k o) (redact_fields casefold p fs end 1 b))
        → Ensures (KeepsValue k o) (redact casefold p (dict fs))
    unfolding redact redact_value
    redact-fields h =
        Ensures-bind (λ r. KeepsValue k o r.0) (KeepsValue k o)
          (redact_value casefold p (dict fs) 0 p.max_items) _
          (Ensures-after (λ r. KeepsValue k o r.0) (charge p 0 p.max_items) _
            (λ b.
              Ensures-bind (Keeps k o) (λ r. KeepsValue k o r.0)
                (redact_fields casefold p fs end 1 b) _ (h b) (λ r e. (r.0, refl, e))))
          (λ r e. e)

  -- A key that the payload lacks, its copy lacks.
  pub redact-lacks :
      (k : String) (fs : Fields) (w : Value)
      → lacks k fs ≡ true
      → redact casefold p (dict fs) ≡ ok w
      → KeepsValue k none w
  unfolding get
  redact-lacks k fs w h e =
      Ensures-ok (KeepsValue k none) (redact casefold p (dict fs))
        (redact-fields k none fs (λ b. redact_fields-Keeps k fs end 1 b h)) e

  -- Let a payload have a text under its second key, which is not sensitive and does not come
  -- again. If the redaction returns, its copy has the same text under that key.
  pub redact-keeps :
      (j k s : String) (v : Value) (fs : Fields) (w : Value)
      → is_sensitive casefold p k ≡ false
      → lacks k fs ≡ true
      → redact casefold p (dict (entry j v (entry k (str s) fs))) ≡ ok w
      → KeepsValue k (some (str s)) w
  unfolding redact_fields
  redact-keeps j k s v fs w shown h e =
      Ensures-ok (KeepsValue k (some (str s)))
        (redact casefold p (dict (entry j v (entry k (str s) fs))))
        (redact-fields k (some (str s)) (entry j v (entry k (str s) fs)) (λ b.
          Ensures-after (Keeps k (some (str s)))
            (if is_sensitive casefold p j
              then ok (str p.replacement, b)
              else redact_value casefold p v 1 b)
            _ (λ r. text_field-kept k s fs (put j r.0 end) 1 r.1 shown h)))
        e
