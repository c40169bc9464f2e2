-- ===== src/Mcp/Server/Handshake.antt =====
-- mcp_server.py: nothing is served before the handshake.
use responsibility_pathway_r.Prelude.{
  String, Bool, true, false, ◌≡◌, refl, sym, ap, ◌∙◌, subst, ◌⊎◌, inl, inr, Option, some, List, [],
  ◌∷◌, ◌==◌, eq_iff, Bool-cases, arith, is_empty,
}
use responsibility_pathway_r.Errors.{Error, Result, ok, err, ok-injective, json_rpc_error}
use responsibility_pathway_r.Exec.{Exec, proceed, lift, require}
use responsibility_pathway_r.Value.{Value, str, dict, get}
use responsibility_pathway_r.Mcp.Admission.{is_text}
use responsibility_pathway_r.Mcp.Server.{
  ReadModel, Server, new_server, has_method, method_of, empty_params, initialize, notified,
  initialized_by, handle_method, handle, handle_all,
}

-- What one request does to the state.
data Step (r : Value) (s t : Server) : Type 0 where
  unchanged : t ≡ s → Step r s t
  greeted : has_method "initialize" r ≡ true → t ≡ record s { initialize_seen = true } → Step r s t
  opened :
      has_method "notifications/initialized" r ≡ true
      → s.initialize_seen ≡ true
      → t ≡ record s { initialized = true }
      → Step r s t

-- A request with this method is among the requests.
pub data Among (method : String) : List Value → Type 0 where
  here : (r : Value) (rs : List Value) → has_method method r ≡ true → Among method (r ∷ rs)
  there : (r : Value) (rs : List Value) → Among method rs → Among method (r ∷ rs)

-- Among the requests is an `initialize`, and after it a `notifications/initialized`.
pub data Handshake : List Value → Type 0 where
  begins :
      (r : Value) (rs : List Value)
      → has_method "initialize" r ≡ true
      → Among "notifications/initialized" rs
      → Handshake (r ∷ rs)
  later : (r : Value) (rs : List Value) → Handshake rs → Handshake (r ∷ rs)

method_of-is : (v : Option Value) (m : String) → method_of v ≡ ok m → is_text m v ≡ true
unfolding method_of is_text
method_of-is (some (str s)) m h = elim (Bool-cases (is_empty s)) [
  | inl empty ↦ absurd (ground arith)
  | inr given ↦ (eq_iff s m).1 (ok-injective s m (rw given at h))
]
method_of-is _ m h = absurd (ground arith)

has_method-same :
    (m n : String) (r : Value) → (m == n) ≡ true → has_method m r ≡ true → has_method n r ≡ true
has_method-same m n r same named = subst (λ k. has_method k r ≡ true) ((eq_iff m n).0 same) named

-- A guard: it raises, or it holds and the rest goes on.
guarded :
    (Q : Result (Option Value) × Server → Type 0) (b : Bool) (e : Error) (s : Server)
    (k : Unit {0} → Exec Server (Option Value))
    → Q (err e, s)
    → (b ≡ true → Q (k tt s))
    → Q (proceed (require b e s) k)
guarded Q true e s k raised h = h refl
guarded Q false e s k raised h = raised

-- A test of the arguments: it raises, or the rest goes on.
tested :
    {A : Type 0} (Q : Result (Option Value) × Server → Type 0) (c : Result A) (s : Server)
    (k : A → Exec Server (Option Value))
    → ((e : Error) → Q (err e, s))
    → ((a : A) → c ≡ ok a → Q (k a s))
    → Q (proceed (lift c s) k)
tested Q (ok a) s k raised h = h a refl
tested Q (err e) s k raised h = raised e

-- What the end of a request says: how the state changed, and that an answer to another request than
-- `initialize` is given only after the notification.
record Handled (r : Value) (s : Server) (p : Result (Option Value) × Server) : Type 0 where
  step : Step r s p.1
  ready :
      (x : Value) → p.0 ≡ ok (some x) → (has_method "initialize" r ≡ true) ⊎ (s.initialized ≡ true)

raised-Handled : (r : Value) (s : Server) (e : Error) → Handled r s (err e, s)
raised-Handled r s e = record { step = unchanged refl; ready = λ x h. absurd (ground arith) }

module _ (model : ReadModel) (dumps : Value → String) (shown : Error → String)
    (is_invalid : Error → Bool) where
  notified-Handled :
      (r : Value) (params : Option Value) (s : Server)
      → has_method "notifications/initialized" r ≡ true
      → Handled r s (notified model dumps shown is_invalid params s)
  unfolding notified
  notified-Handled r params s named =
      tested (Handled r s) (empty_params params) s _ (raised-Handled r s) (λ u _.
        guarded (Handled r s) s.initialize_seen (json_rpc_error 32_002) s _ (raised-Handled r s _)
          (λ seen. record { step = opened named seen refl; ready = λ x h. absurd (ground arith) }))

  initialized_by-Handled :
      (r request_id : Value) (params : Option Value) (s : Server)
      → has_method "initialize" r ≡ true
      → Handled r s (initialized_by model dumps shown is_invalid request_id params s)
  unfolding initialized_by
  initialized_by-Handled r request_id params s named =
      tested (Handled r s) (initialize params) s _ (raised-Handled r s)
        (λ result _. record { step = greeted named refl; ready = λ x h. inl named })

  handle_method-Handled :
      (r : Value) (method : String) (request_id : Value) (params : Option Value) (s : Server)
      → has_method method r ≡ true
      → Handled r s (handle_method model dumps shown is_invalid method request_id params s)
  unfolding handle_method
  handle_method-Handled r method request_id params s named =
      elim (Bool-cases (method == "notifications/initialized")) [
        | inl same ↦ rw same (notified-Handled r params s (has_method-same method _ r same named))
        | inr other ↦ rw other (elim (Bool-cases (method == "initialize")) [
          | inl same ↦
              rw same (
                initialized_by-Handled r request_id params s
                  (has_method-same method _ r same named))
          | inr other ↦ rw other (
              guarded (Handled r s) s.initialized (json_rpc_error 32_002) s _ (raised-Handled r s _)
                (λ open_now. record { step = unchanged refl; ready = λ x h. inr open_now }))
        ])
      ]

  handle-Handled : (r : Value) (s : Server) → Handled r s (handle model dumps shown is_invalid r s)
  unfolding handle has_method
  handle-Handled (dict fs) s =
      guarded (Handled (dict fs) s) (is_text "2.0" (get "jsonrpc" fs)) (json_rpc_error 32_600) s _
        (raised-Handled (dict fs) s _)
        (λ _.
          tested (Handled (dict fs) s) (method_of (get "method" fs)) s _
            (raised-Handled (dict fs) s)
            (λ method is.
              handle_method-Handled (dict fs) method _ _ s
                (method_of-is (get "method" fs) method is)))
  handle-Handled r s = raised-Handled r s _

  abbrev Opened : List Value → Server → Type 0
  Opened rs s =
      (s.initialized ≡ true)
      ⊎ (((s.initialize_seen ≡ true) × Among "notifications/initialized" rs) ⊎ Handshake rs)

  before :
      (r : Value) (rs : List Value) (s t : Server) → Step r s t → Opened rs t → Opened (r ∷ rs) s
  before r rs s t (unchanged e) (inl h) = inl (ap (λ (u : Server). u.initialized) (sym e) ∙ h)
  before r rs s t (unchanged e) (inr (inl (seen, among))) =
      inr (inl (ap (λ (u : Server). u.initialize_seen) (sym e) ∙ seen, there r rs among))
  before r rs s t (greeted named e) (inl h) = inl (ap (λ (u : Server). u.initialized) (sym e) ∙ h)
  before r rs s t (greeted named e) (inr (inl (seen, among))) = inr (inr (begins r rs named among))
  before r rs s t (opened named seen e) (inl h) = inr (inl (seen, here r rs named))
  before r rs s t (opened named seen e) (inr (inl (_, among))) = inr (inl (seen, there r rs among))
  before r rs s t step (inr (inr h)) = inr (inr (later r rs h))

  handle_all-Opened :
      (rs : List Value) (s : Server)
      → (handle_all model dumps shown is_invalid rs s).initialized ≡ true
      → Opened rs s
  unfolding handle_all
  handle_all-Opened [] s h = inl h
  handle_all-Opened (r ∷ rs) s h =
      before r rs s _ (handle-Handled r s).step
        (handle_all-Opened rs (handle model dumps shown is_invalid r s).1 h)

  -- If a new server answers a request after any sequence of requests, then the request is an
  -- `initialize`, or the requests before it have an `initialize` and, after that, a
  -- `notifications/initialized`: no tool is listed or called before the handshake.
  pub answered-Handshake :
      (rs : List Value) (r x : Value)
      → (handle model dumps shown is_invalid r
          (handle_all model dumps shown is_invalid rs new_server)).0
        ≡ ok (some x)
      → (has_method "initialize" r ≡ true) ⊎ Handshake rs
  answered-Handshake rs r x h =
      elim ((handle-Handled r (handle_all model dumps shown is_invalid rs new_server)).ready x h) [
        | inl named ↦ inl named
        | inr ready ↦ elim (handle_all-Opened rs new_server ready) [
          | inl open_now ↦ absurd (ground arith)
          | inr (inl (seen, among)) ↦ absurd (ground arith)
          | inr (inr shaken) ↦ inr shaken
        ]
      ]
