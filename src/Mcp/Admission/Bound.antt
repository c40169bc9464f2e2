-- ===== src/Mcp/Admission/Bound.antt =====
-- mcp_admission.py: what an admitted request is bound to.
use responsibility_pathway_r.Prelude.{
  is_blank, String, Bool, true, false, not, ◌||◌, ◌≡◌, ◌⊎◌, inl, inr, refl, sym, ap, ◌∙◌, subst,
  Option, none, some, eq_iff, arith, Bool-cases,
}
use responsibility_pathway_r.Errors.{Result, ok, err, ensure, bind-ok, ensure-ok, ok-injective}
use responsibility_pathway_r.Value.{Value, Items, Fields, str, dict, nil, cons, get, item, truthy}
use responsibility_pathway_r.Execution.{ExecutionRequest, check_request}
use responsibility_pathway_r.Env.{Env}
use responsibility_pathway_r.JsonIdentity.{strict_identity}
use responsibility_pathway_r.JsonIdentity.Exact.{IsStrictJson, strict_identity_iff}
use responsibility_pathway_r.Mcp.Json.{
  mcp_admission_error, strict_plain, canonical, strict_document,
}
use responsibility_pathway_r.Mcp.Json.Exact.{renamed, strict_plain-identity}
use responsibility_pathway_r.Mcp.Admission.{
  ToolSnapshot, mapping_of, is_text, find_version, versions_of, version_of, check_version,
  admitted_request, admit,
}

mapping_of-dict : (v : Value) (fs : Fields) → mapping_of v ≡ ok fs → v ≡ dict fs
unfolding mapping_of
mapping_of-dict v fs h = ground arith

renamed-ok : {A : Type 0} (r : Result A) {a : A} → renamed r ≡ ok a → r ≡ ok a
renamed-ok (ok b) h = h
renamed-ok (err e) h = absurd (ground arith)

-- A document that is accepted comes back as it is, and is strict JSON.
pub strict_document-same :
    (env : Env) (v w : Value) (bytes : String)
    → strict_document env v ≡ ok (w, bytes)
    → (w ≡ v) × IsStrictJson v
unfolding strict_document
strict_document-same env v w bytes h =
    let (p, plain, h1) = bind-ok (strict_plain v) _ h in
    let (c, _, h2) = bind-ok (canonical env p) _ h1 in
    let (same, json) =
      (strict_identity_iff v p).0
        (renamed-ok (strict_identity v) (rw (← strict_plain-identity v) plain)) in
    (sym (ap (λ (r : Value × String). r.0) (ok-injective (p, c) (w, bytes) h2)) ∙ same, json)

-- What the contract must say of a version for it to be admitted.
pub record Allows (contract : Fields) (experimental : Bool) (protocol_version : String)
    : Type 0 where
  pub version : Fields
  pub listed : version_of contract protocol_version ≡ ok version
  pub is_version : get "protocol_version" version ≡ some (str protocol_version)
  pub enabled :
      (experimental ≡ true)
      ⊎ ((get "lifecycle" version ≡ some (str "stable"))
          × ((flag : Value) × (get "requires_experimental_flag" version ≡ some flag)
              × (truthy flag ≡ false)))

is_text-str : (t : String) (v : Option Value) → is_text t v ≡ true → v ≡ some (str t)
unfolding is_text
is_text-str t none h = absurd (ground arith)
is_text-str t (some (str s)) h = ap (λ k. some (str k)) ((eq_iff s t).0 h)
is_text-str t (some _) h = absurd (ground arith)

find_version-is :
    (protocol_version : String) (vs : Items) (version : Fields)
    → find_version protocol_version vs ≡ ok version
    → get "protocol_version" version ≡ some (str protocol_version)
unfolding find_version
find_version-is pv nil version h = absurd (ground arith)
find_version-is pv (cons (dict w) vs) version h =
    elim (Bool-cases (is_text pv (get "protocol_version" w))) [
      | inl is ↦
          subst (λ u. get "protocol_version" u ≡ some (str pv))
            (ok-injective w version (rw is at h)) (is_text-str pv _ is)
      | inr other ↦ find_version-is pv vs version (rw other at h)
    ]
find_version-is pv (cons _ vs) version h = absurd (ground arith)

item-get : (k : String) (fs : Fields) (v : Value) → item k fs ≡ ok v → get k fs ≡ some v
unfolding item
item-get k fs v h = ground arith

check_version-enabled :
    (experimental : Bool) (version : Fields) (u : Unit {0})
    → check_version experimental version ≡ ok u
    → (experimental ≡ true)
      ⊎ ((get "lifecycle" version ≡ some (str "stable"))
          × ((flag : Value) × (get "requires_experimental_flag" version ≡ some flag)
              × (truthy flag ≡ false)))
unfolding check_version
check_version-enabled true version u h = inl refl
check_version-enabled false version u h =
    let (flag, has_flag, h1) = bind-ok (item "requires_experimental_flag" version) _ h in
    let (_, unflagged, h2) =
      bind-ok (ensure (not (truthy flag) || false) mcp_admission_error) _ h1 in
    let (lifecycle, has_lifecycle, h3) = bind-ok (item "lifecycle" version) _ h2 in
    inr (
      item-get "lifecycle" version lifecycle has_lifecycle
          ∙ is_text-str "stable" (some lifecycle) (
              ground (
                arith,
                ensure-ok (is_text "stable" (some lifecycle) || false) mcp_admission_error h3,
              )),
      (
        flag,
        item-get "requires_experimental_flag" version flag has_flag,
        ground (arith, ensure-ok (not (truthy flag) || false) mcp_admission_error unflagged),
      ),
    )

version_of-Allows :
    (contract : Fields) (experimental : Bool) (pv : String) (version : Fields) (u : Unit {0})
    → version_of contract pv ≡ ok version
    → check_version experimental version ≡ ok u
    → Allows contract experimental pv
unfolding version_of
version_of-Allows contract experimental pv version u h k =
    let (vs, _, found) = bind-ok (versions_of (get "versions" contract)) _ h in
    record {
      version = version;
      listed = h;
      is_version = find_version-is pv vs version found;
      enabled = check_version-enabled experimental version u k;
    }

check_request-same : (p q : ExecutionRequest) → check_request p ≡ ok q → q ≡ p
unfolding check_request
check_request-same p q h =
    elim (Bool-cases (
      is_blank p.operation_id
      || is_blank p.attempt_id
      || is_blank p.idempotency_key
      || is_blank p.action)) [
        | inl blank ↦ absurd (ground arith)
        | inr given ↦ sym (ok-injective p q (rw given at h))
      ]

-- The arguments of an admitted call are an object.
pub admit-object :
    (env : Env) (contract : Fields) (experimental : Bool) (s : ToolSnapshot)
    (operation_id attempt_id idempotency_key : String) (arguments : Value) (q : ExecutionRequest)
    → admit env contract experimental s operation_id attempt_id idempotency_key arguments ≡ ok q
    → (fs : Fields) × (arguments ≡ dict fs)
      × (bytes : String) × (strict_document env arguments ≡ ok (arguments, bytes))
unfolding admit
admit-object env contract experimental s op attempt key arguments q h =
    let (version, found, h1) = bind-ok (version_of contract s.protocol_version) _ h in
    let (u, allowed, h2) = bind-ok (check_version experimental version) _ h1 in
    let (fs, object, h3) = bind-ok (mapping_of arguments) _ h2 in
    let ((w, bytes), document, h4) = bind-ok (strict_document env arguments) _ h3 in
    let (same, json) = strict_document-same env arguments w bytes document in
    (
      fs,
      mapping_of-dict arguments fs object,
      bytes,
      subst (λ v. strict_document env arguments ≡ ok (v, bytes)) same document,
    )

-- If the adapter admits a call, then its contract allows the version of the snapshot (it lists it, and
-- the adapter is experimental or the version is stable and needs no flag), the arguments are strict
-- JSON, and the request is the one with the identities that were given, the binding of the snapshot
-- and the arguments as they are.
pub admit-Bound :
    (env : Env) (contract : Fields) (experimental : Bool) (s : ToolSnapshot)
    (operation_id attempt_id idempotency_key : String) (arguments : Value) (q : ExecutionRequest)
    → admit env contract experimental s operation_id attempt_id idempotency_key arguments ≡ ok q
    → Allows contract experimental s.protocol_version
      × IsStrictJson arguments
      × (q ≡ admitted_request s operation_id attempt_id idempotency_key arguments)
unfolding admit
admit-Bound env contract experimental s op attempt key arguments q h =
    let (version, found, h1) = bind-ok (version_of contract s.protocol_version) _ h in
    let (u, allowed, h2) = bind-ok (check_version experimental version) _ h1 in
    let (fs, _, h3) = bind-ok (mapping_of arguments) _ h2 in
    let ((w, bytes), document, h4) = bind-ok (strict_document env arguments) _ h3 in
    let (same, json) = strict_document-same env arguments w bytes document in
    (
      version_of-Allows contract experimental s.protocol_version version u found allowed,
      json,
      check_request-same (admitted_request s op attempt key w) q h4
          ∙ ap (admitted_request s op attempt key) same,
    )
