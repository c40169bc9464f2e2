-- ===== src/Errors.antt =====
-- Python's exceptions as values. A function that changes nothing and may raise returns a `Result`.
use responsibility_pathway_r.Prelude.{
  ℕ, String, Bool, true, false, ◌≡◌, refl, arith, Option, none, some, subst,
}

-- The exception classes that the runtime raises. The message is kept only where the code reads it
-- again (`str(exc)`).
pub data Error : Type 0 where
  value_error runtime_error key_error authority_error principal_error : Error
  invalid_transition idempotency_conflict_error schema_version_error : Error
  attempt_conflict_error attempt_schema_version_error evidence_limit_error : Error
  attempt_fingerprint_error attempt_result_persistence_error : Error
  integrity_error operational_error : Error
  rpe_contract_error : String → Error
  -- McpPreDispatchError, with its phase
  pre_dispatch_error : String → Error
  -- JsonRpcError of the server, with its code, which is the number below zero
  json_rpc_error : ℕ → Error
  other_error : String → Error

-- `type(exc).__name__`
unfoldable pub class_name : Error → String
class_name value_error = "ValueError"
class_name runtime_error = "RuntimeError"
class_name key_error = "KeyError"
class_name authority_error = "AuthorityError"
class_name principal_error = "PrincipalError"
class_name invalid_transition = "InvalidTransition"
class_name idempotency_conflict_error = "IdempotencyConflictError"
class_name schema_version_error = "SchemaVersionError"
class_name attempt_conflict_error = "AttemptConflictError"
class_name attempt_schema_version_error = "AttemptSchemaVersionError"
class_name evidence_limit_error = "EvidenceLimitError"
class_name attempt_fingerprint_error = "AttemptFingerprintError"
class_name attempt_result_persistence_error = "AttemptResultPersistenceError"
class_name integrity_error = "IntegrityError"
class_name operational_error = "OperationalError"
class_name (rpe_contract_error _) = "RpeContractError"
class_name (pre_dispatch_error _) = "McpPreDispatchError"
class_name (json_rpc_error _) = "JsonRpcError"
class_name (other_error name) = name

pub data Result {ℓ} (A : Type ℓ) : Type ℓ where
  ok : A → Result A
  err : Error → Result A

infixl 5 ◌>>=◌ ◌>>◌
abbrev pub ◌>>=◌ {ℓ κ} : {A : Type ℓ} {B : Type κ} → Result A → (A → Result B) → Result B
ok a >>= f = f a
err e >>= f = err e

abbrev pub ◌>>◌ {ℓ κ} : {A : Type ℓ} {B : Type κ} → Result A → Result B → Result B
r >> k = r >>= λ _. k

-- `if not test: raise error`
abbrev pub ensure : Bool → Error → Result (Unit {0})
ensure true e = ok tt
ensure false e = err e

-- A value that may be absent, with the exception for that case.
abbrev pub or_raise {ℓ} : {A : Type ℓ} → Option A → Error → Result A
or_raise none e = err e
or_raise (some a) e = ok a

abbrev pub is_ok {ℓ} : {A : Type ℓ} → Result A → Bool
is_ok (ok _) = true
is_ok (err _) = false

pub ok-injective {ℓ} : {A : Type ℓ} (a b : A) → ok a ≡ ok b → a ≡ b
ok-injective a b h = cc h

-- A test that was passed.
pub ensure-ok : (t : Bool) (e : Error) {u : Unit {0}} → ensure t e ≡ ok u → t ≡ true
ensure-ok true e h = refl
ensure-ok false e h = absurd (ground arith)

-- What a successful chain says of its two parts.
pub bind-ok {ℓ κ} :
    {A : Type ℓ} {B : Type κ} (r : Result A) (f : A → Result B) {b : B}
    → (r >>= f) ≡ ok b
    → (a : A) × (r ≡ ok a) × (f a ≡ ok b)
bind-ok (ok a) f h = (a, refl, h)
bind-ok (err e) f h = ground arith

-- Every value that is returned has the property; a raise promises nothing.
abbrev pub Ensures {ℓ} : {A : Type ℓ} → (A → Type 0) → Result A → Type 0
Ensures P (ok a) = P a
Ensures P (err e) = Unit

pub Ensures-bind {ℓ κ} :
    {A : Type ℓ} {B : Type κ} (P : A → Type 0) (Q : B → Type 0) (r : Result A) (f : A → Result B)
    → Ensures P r
    → ((a : A) → P a → Ensures Q (f a))
    → Ensures Q (r >>= f)
Ensures-bind P Q (ok a) f h k = k a h
Ensures-bind P Q (err e) f h k = tt

-- A step of which nothing is asked.
pub Ensures-after {ℓ κ} :
    {A : Type ℓ} {B : Type κ} (Q : B → Type 0) (r : Result A) (f : A → Result B)
    → ((a : A) → Ensures Q (f a))
    → Ensures Q (r >>= f)
Ensures-after Q (ok a) f k = k a
Ensures-after Q (err e) f k = tt

pub Ensures-ok {ℓ} :
    {A : Type ℓ} (P : A → Type 0) (r : Result A) {a : A} → Ensures P r → r ≡ ok a → P a
Ensures-ok P (ok b) h e = subst P (ground arith) h
Ensures-ok P (err _) h e = ground arith
