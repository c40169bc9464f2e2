-- ===== src/Rpc/Correlation.antt =====
-- mcp_jsonrpc_session.py: which response answers a request.
use responsibility_pathway_r.Prelude.{
  ℕ, suc, String, Bool, true, false, not, ◌||◌, ◌≡◌, ◌⊎◌, refl, Option, none, some, is_some, [],
  ◌∷◌, is_blank, strip, arith, Bool-cases, inl, inr, leb, ◌&&◌, ap, subst, eq_iff,
}
use responsibility_pathway_r.Errors.{Error, Result, ok, err, ensure, bind-ok, ◌>>◌}
use responsibility_pathway_r.Exec.{Exec}
use responsibility_pathway_r.Value.{Value, Fields, dict, get, str, int, pos, float}
use responsibility_pathway_r.Rpc.{
  transport_error, Session, method_of, envelope, only_keys, object_of, is_version, raise_error,
  one_member, is_id, validate_response, answered, sent, request,
}

-- The member `id` is the integer, or a float of which Python says that it equals the integer.
pub data IsId (equals : Value → ℕ → Bool) (expected : ℕ) : Option Value → Type 0 where
  integer : IsId equals expected (some (int (pos expected)))
  equal_float :
      (finite : Bool) (text : String)
      → equals (float finite text) expected ≡ true
      → IsId equals expected (some (float finite text))

-- A response that answers the request with the id: an object of the version, with that id, without an
-- error and without other members, whose result is the object that is returned.
pub record Answers (equals : Value → ℕ → Bool) (expected : ℕ) (response : Value) (result : Fields)
    : Type 0 where
  pub value : Fields
  pub is_object : response ≡ dict value
  pub version_given : get "jsonrpc" value ≡ some (str "2.0")
  pub id_matches : IsId equals expected (get "id" value)
  pub result_given : get "result" value ≡ some (dict result)
  pub no_error : get "error" value ≡ none
  pub no_more : only_keys ("jsonrpc" ∷ "id" ∷ "result" ∷ "error" ∷ []) value ≡ true

object_of-dict : (v : Value) (fs : Fields) → object_of v ≡ ok fs → v ≡ dict fs
unfolding object_of
object_of-dict v fs h = ground arith

one_member-result :
    (r e : Option Value) (fs : Fields) → one_member r e ≡ ok fs → (r ≡ some (dict fs)) × (e ≡ none)
unfolding one_member raise_error object_of
one_member-result (some r) none fs h = ground (arith, object_of-dict r fs)
one_member-result none (some e) fs h = absurd (ground arith)
one_member-result (some r) (some e) fs h = absurd (ground arith)
one_member-result none none fs h = absurd (ground arith)

is_version-given : (v : Option Value) → is_version v ≡ true → v ≡ some (str "2.0")
unfolding is_version
is_version-given (some (str s)) h = ap (λ t. some (str t)) ((eq_iff s "2.0").0 h)
is_version-given _ h = absurd (ground arith)

same_number : (n m : ℕ) → (leb n m && leb m n) ≡ true → m ≡ n
same_number n m h = ground arith

module _ (equals : Value → ℕ → Bool) where
  is_id-IsId :
      (expected : ℕ) (v : Option Value) → is_id equals expected v ≡ true → IsId equals expected v
  unfolding is_id
  is_id-IsId expected (some (int (pos n))) h =
      subst (λ m. IsId equals expected (some (int (pos m)))) (same_number n expected h) integer
  is_id-IsId expected (some (float finite text)) h = equal_float finite text h
  is_id-IsId expected _ h = absurd (ground arith)

  checks-passed :
      (a b c d e : Bool) (r : Result Fields) (fs : Fields)
      → (do
        ensure a transport_error
        ensure b transport_error
        ensure c transport_error
        ensure d transport_error
        ensure e transport_error
        r)
        ≡ ok fs
      → (a ≡ true) × (b ≡ true) × (e ≡ true) × (r ≡ ok fs)
  checks-passed true true true true true r fs h = (refl, refl, refl, h)
  checks-passed true true true true false r fs h = absurd (ground arith)
  checks-passed true true true false e r fs h = absurd (ground arith)
  checks-passed true true false d e r fs h = absurd (ground arith)
  checks-passed true false c d e r fs h = absurd (ground arith)
  checks-passed false b c d e r fs h = absurd (ground arith)

  validate-Answers :
      (expected : ℕ) (response : Value) (fs : Fields)
      → validate_response equals expected response ≡ ok fs
      → Answers equals expected response fs
  unfolding validate_response
  validate-Answers expected response fs h =
      let (value, is, h1) = bind-ok (object_of response) _ h in
      let (version_ok, id_ok, keys_ok, one) =
        checks-passed (is_version (get "jsonrpc" value)) (is_id equals expected (get "id" value))
          (not (is_some (get "result" value)) || not (is_some (get "error" value)))
          (is_some (get "result" value) || is_some (get "error" value))
          (only_keys ("jsonrpc" ∷ "id" ∷ "result" ∷ "error" ∷ []) value)
          (one_member (get "result" value) (get "error" value)) fs h1 in
      let (given, clear) = one_member-result (get "result" value) (get "error" value) fs one in
      record {
        value = value;
        is_object = object_of-dict response value is;
        version_given = is_version-given (get "jsonrpc" value) version_ok;
        id_matches = is_id-IsId expected (get "id" value) id_ok;
        result_given = given;
        no_error = clear;
        no_more = keys_ok;
      }

  module _ {C : Type 0} (exchange : Value → Exec C Value) (passes : Error → Bool) where
    answered-Answers :
        (n : ℕ) (r : Result Value) (fs : Fields)
        → answered equals exchange passes n r ≡ ok fs
        → (response : Value) × (r ≡ ok response) × Answers equals n response fs
    unfolding answered
    answered-Answers n (ok response) fs h = (response, refl, validate-Answers n response fs h)
    answered-Answers n (err e) fs h = absurd (ground arith)

    -- If a request returns a result, then the channel gave a response to the envelope with the next
    -- id of the session, and that response answers it: an object of version "2.0" whose `id` is the
    -- integer that was sent, or a float that equals it, with the result as its one outcome and without
    -- other members.
    pub request-Answers :
        (method : String) (params fs : Fields) (s t : Session C)
        → request equals exchange passes method params s ≡ (ok fs, t)
        → (response : Value) × ((exchange
              (envelope s.next_request_id (strip method) params)
              s.channel).0
            ≡ ok response)
          × Answers equals s.next_request_id response fs
    unfolding request sent method_of
    request-Answers method params fs s t h = elim (Bool-cases (is_blank method)) [
      | inl blank ↦ absurd (ground arith)
      | inr given ↦
          answered-Answers s.next_request_id
            (exchange (envelope s.next_request_id (strip method) params) s.channel).0 fs
            (ground arith)
    ]

    -- A request uses up its id, whether it returns or raises, unless its method is blank: then
    -- nothing is sent and the session stays as it is.
    pub request-advances :
        (method : String) (params : Fields) (s : Session C)
        → ((is_blank method ≡ true)
            × (request equals exchange passes method params s ≡ (err transport_error, s)))
          ⊎ ((is_blank method ≡ false)
              × ((request equals exchange passes method params s).1.next_request_id
                  ≡ suc s.next_request_id))
    unfolding request sent method_of
    request-advances method params s = ground arith
