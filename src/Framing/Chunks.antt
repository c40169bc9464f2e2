-- ===== src/Framing/Chunks.antt =====
-- mcp_stdio_framing.py: how the bytes are cut into chunks makes no difference.
use responsibility_pathway_r.Prelude.{
  ℕ, false, ◌||◌, ◌≡◌, ◌∙◌, sym, ap, subst, refl, List, [], ◌∷◌, ◌++◌, arith, Bool-cases, inl, inr,
  if◌then◌else◌,
}
use responsibility_pathway_r.Errors.{Result, ok, err}
use responsibility_pathway_r.Value.{Value, Fields}
use responsibility_pathway_r.Framing.{
  Bytes, newline, is_byte, prepend, has_newline, decode_line, drain,
}

pub append_nil {ℓ} : {A : Type ℓ} (xs : List A) → xs ++ [] ≡ xs
append_nil [] = refl
append_nil (x ∷ xs) = ap (λ ys. x ∷ ys) (append_nil xs)

pub append_assoc {ℓ} : {A : Type ℓ} (xs ys zs : List A) → (xs ++ ys) ++ zs ≡ xs ++ (ys ++ zs)
append_assoc [] ys zs = refl
append_assoc (x ∷ xs) ys zs = ap (λ us. x ∷ us) (append_assoc xs ys zs)

-- Messages before those of the later bytes.
abbrev pub after : List Fields → Result (List Fields × Bytes) → Result (List Fields × Bytes)
after ms (ok (ns, rest)) = ok (ms ++ ns, rest)
after ms (err e) = err e

after-nil : (r : Result (List Fields × Bytes)) → after [] r ≡ r
after-nil (ok (ns, rest)) = refl
after-nil (err e) = refl

pub has_newline-append :
    (xs ys : Bytes) → has_newline (xs ++ ys) ≡ (has_newline xs || has_newline ys)
unfolding has_newline
has_newline-append [] ys = refl
has_newline-append (x ∷ xs) ys = ground (arith, has_newline-append xs ys)

module _ (max : ℕ) (parse : Bytes → Result Value) (render : Fields → Result Bytes) where
  -- The loop goes on with what it left.
  abbrev pub continue : Result (List Fields × Bytes) → Bytes → Result (List Fields × Bytes)
  continue (ok (ms, rest)) ys = after ms (drain max parse render rest ys)
  continue (err e) ys = err e

  prepend-continue :
      (d : Result Fields) (r : Result (List Fields × Bytes)) (ys : Bytes)
      → prepend d (continue r ys) ≡ continue (prepend d r) ys
  unfolding prepend
  prepend-continue (err e) r ys = refl
  prepend-continue (ok m) (err e) ys = refl
  prepend-continue (ok m) (ok (ms, rest)) ys = prepend-after m ms (drain max parse render rest ys)
    where
      prepend-after :
          (m : Fields) (ms : List Fields) (r : Result (List Fields × Bytes))
          → prepend (ok m) (after ms r) ≡ after (m ∷ ms) r
      prepend-after m ms (ok (ns, rest)) = refl
      prepend-after m ms (err e) = refl

  pub drain-append :
      (line xs ys : Bytes)
      → drain max parse render line (xs ++ ys) ≡ continue (drain max parse render line xs) ys
  unfolding drain
  drain-append line [] ys = sym (after-nil (drain max parse render line ys))
  drain-append line (x ∷ xs) ys = elim (Bool-cases (is_byte newline x)) [
    | inl ends ↦
        rw (ends, drain-append [] xs ys)
          (prepend-continue (decode_line max parse render line) (drain max parse render [] xs) ys)
    | inr stays ↦ rw stays (drain-append (line ++ x ∷ []) xs ys)
  ]

  -- Bytes without a newline are only added to the line.
  pub drain-line :
      (line xs ys : Bytes)
      → has_newline xs ≡ false
      → drain max parse render line (xs ++ ys) ≡ drain max parse render (line ++ xs) ys
  unfolding drain has_newline
  drain-line line [] ys h = rw (append_nil line) refl
  drain-line line (x ∷ xs) ys h = elim (Bool-cases (is_byte newline x)) [
    | inl ends ↦ absurd (ground arith)
    | inr stays ↦ rw stays (
        drain-line (line ++ x ∷ []) xs ys (ground arith)
        ∙ ap (λ l. drain max parse render l ys) (append_assoc line (x ∷ []) xs))
  ]

  prepend-rest :
      (d : Result Fields) (r : Result (List Fields × Bytes)) (ms : List Fields) (rest : Bytes)
      → prepend d r ≡ ok (ms, rest)
      → (ns : List Fields) × (r ≡ ok (ns, rest))
  unfolding prepend
  prepend-rest (ok m) (ok (ns, r)) ms rest h = (ns, ground arith)
  prepend-rest (ok m) (err e) ms rest h = absurd (ground arith)
  prepend-rest (err e) r ms rest h = absurd (ground arith)

  pub drain-rest :
      (line xs : Bytes) (ms : List Fields) (rest : Bytes)
      → has_newline line ≡ false
      → drain max parse render line xs ≡ ok (ms, rest)
      → has_newline rest ≡ false
  unfolding drain has_newline
  drain-rest line [] ms rest h e = ground arith
  drain-rest line (x ∷ xs) ms rest h e = elim (Bool-cases (is_byte newline x)) [
    | inl ends ↦
        let found =
          prepend-rest (decode_line max parse render line) (drain max parse render [] xs) ms rest (
            subst
              (λ b.
                (if b
                  then prepend (decode_line max parse render line) (drain max parse render [] xs)
                  else drain max parse render (line ++ x ∷ []) xs)
                ≡ ok (ms, rest))
              ends e) in
        drain-rest [] xs found.0 rest refl found.1
    | inr stays ↦
        drain-rest (line ++ x ∷ []) xs ms rest (has_newline-append line (x ∷ []) ∙ ground arith) (
          subst
            (λ b.
              (if b
                then prepend (decode_line max parse render line) (drain max parse render [] xs)
                else drain max parse render (line ++ x ∷ []) xs)
              ≡ ok (ms, rest))
            stays e)
  ]
