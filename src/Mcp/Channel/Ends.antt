-- ===== src/Mcp/Channel/Ends.antt =====
-- mcp_stdio_channel.py: the loop that writes a message ends.
use responsibility_pathway_r.Prelude.{
  Bool-cases, ℕ, zero, suc, Bool, false, leb, ltb, ◌||◌, ◌==◌, ◌-◌, ◌≤◌, ◌≡◌, inl, inr, ap, ◌∙◌, [],
  ◌∷◌, length, arith, if◌then◌else◌,
}
use responsibility_pathway_r.Errors.{Error, Result, ok, err, other_error}
use responsibility_pathway_r.Exec.Returns.{proceed-ends}
use responsibility_pathway_r.Exec.{Exec, outcome, pure, raise, lift, ◌>>=◌}
use responsibility_pathway_r.Value.{
  Value, pos, negsuc, null, bool, int, float, str, list, dict, object,
}
use responsibility_pathway_r.Framing.{Bytes}
use responsibility_pathway_r.Rpc.{transport_error}
use responsibility_pathway_r.Mcp.Channel.{
  Duplex, Channel, Settings, drop, count_of, out_of_fuel, on_duplex, translated, write_from,
}

length-drop : (n : ℕ) (bs : Bytes) → length (drop n bs) ≡ length bs - n
unfolding drop
length-drop zero bs = omega arith
length-drop (suc n) [] = omega arith
length-drop (suc n) (b ∷ bs) = omega (arith, length-drop n bs)

-- A count that is accepted
pub count_of-ok :
    (bs : Bytes) (v : Value) {n : ℕ}
    → count_of bs v ≡ ok n
    → (v ≡ int (pos n)) × ((1 ≤ n) × (n ≤ length bs))
unfolding count_of
count_of-ok bs (int (pos n)) h = ground arith
count_of-ok bs (int (negsuc n)) h = absurd (ground arith)
count_of-ok bs null h = absurd (ground arith)
count_of-ok bs (bool b) h = absurd (ground arith)
count_of-ok bs (float b t) h = absurd (ground arith)
count_of-ok bs (str t) h = absurd (ground arith)
count_of-ok bs (list vs) h = absurd (ground arith)
count_of-ok bs (dict fs) h = absurd (ground arith)
count_of-ok bs (object t) h = absurd (ground arith)

-- A pass of the loop leaves fewer bytes.
shorter :
    (bs : Bytes) (v : Value) (n f : ℕ)
    → count_of bs v ≡ ok n
    → length bs ≤ suc f
    → length (drop n bs) ≤ f
shorter bs v n f c h = (let b = count_of-ok bs v c in omega (arith, b.1.0, b.1.1, length-drop n bs))

abbrev used_up : {A : Type 0} → Result A → Bool
used_up (err (other_error n)) = n == "out of fuel"
used_up _ = false

-- The transport's own exception is another one.
transport_error-other :
    {A : Type 0} → ¬ (◌≡◌ {A = Result A} (err transport_error) (err out_of_fuel))
transport_error-other {A = A} h = absurd (ground (arith, ap (used_up {A = A}) h))

err-injective : {A : Type 0} (a b : Error) → ◌≡◌ {A = Result A} (err a) (err b) → a ≡ b
err-injective a b h = cc h

count_of-ends : (bs : Bytes) (v : Value) → ¬ (count_of bs v ≡ err out_of_fuel)
unfolding count_of
count_of-ends bs (int (pos n)) h = elim (Bool-cases (leb n 0 || ltb (length bs) n)) [
  | inl refused ↦ transport_error-other (rw refused at h)
  | inr counted ↦ absurd (cc (rw counted at h))
]
count_of-ends bs (int (negsuc n)) h = transport_error-other h
count_of-ends bs null h = transport_error-other h
count_of-ends bs (bool b) h = transport_error-other h
count_of-ends bs (float b t) h = transport_error-other h
count_of-ends bs (str t) h = transport_error-other h
count_of-ends bs (list vs) h = transport_error-other h
count_of-ends bs (dict fs) h = transport_error-other h
count_of-ends bs (object t) h = transport_error-other h

module _ {T : Type 0} (settings : Settings) (d : Duplex T) (is_passed_on : Error → Bool) where
  abbrev Ends : {A : Type 0} → Result A × Channel T → Type 0
  Ends r = ¬ (r.0 ≡ err out_of_fuel)

  handled-Ends :
      {A : Type 0} (p : Result A × Channel T)
      → ¬ (p.0 ≡ err out_of_fuel)
      → Ends (outcome p pure (λ e. raise {A = A} (if is_passed_on e then e else transport_error)))
  handled-Ends (ok a, s) h e = absurd (ground arith)
  handled-Ends (err x, s) h e = elim (Bool-cases (is_passed_on x)) [
    | inl passed ↦ h (rw passed at e)
    | inr other ↦ transport_error-other (rw other at e)
  ]

  translated-Ends :
      {A : Type 0} (m : Exec T A) (s : Channel T)
      → ¬ ((m s.duplex).0 ≡ err out_of_fuel)
      → Ends (translated settings d is_passed_on (on_duplex settings d is_passed_on m) s)
  unfolding translated on_duplex
  translated-Ends m s h = handled-Ends _ h

  -- The loop that writes a message ends: if the process itself does not raise the exception by which
  -- the model says that the fuel is used up, then with as much fuel as the payload has bytes, or more,
  -- the loop does not raise it.
  pub write_from-ends :
      (payload : Bytes) (fuel : ℕ) (s : Channel T)
      → ((bs : Bytes) (t : T) → ¬ ((d.write_stdin bs t).0 ≡ err out_of_fuel))
      → length payload ≤ fuel
      → ¬ ((write_from settings d is_passed_on payload fuel s).0 ≡ err out_of_fuel)
  unfolding write_from
  write_from-ends [] fuel s h enough = λ e. absurd (ground arith)
  write_from-ends (b ∷ bs) zero s h enough = absurd (omega arith)
  write_from-ends (b ∷ bs) (suc fuel) s h enough =
      proceed-ends Ends
        (translated settings d is_passed_on
          (on_duplex settings d is_passed_on (d.write_stdin (b ∷ bs))) s)
        (λ v. lift (count_of (b ∷ bs) v) >>= λ n.
          write_from settings d is_passed_on (drop n (b ∷ bs)) fuel)
        (λ e raised fuelless.
          translated-Ends (d.write_stdin (b ∷ bs)) s (h (b ∷ bs) s.duplex)
            (raised ∙ ap err (err-injective e out_of_fuel fuelless)))
        (λ v _.
          proceed-ends Ends (lift (count_of (b ∷ bs) v) _)
            (λ n. write_from settings d is_passed_on (drop n (b ∷ bs)) fuel)
            (λ e refused fuelless.
              count_of-ends (b ∷ bs) v (refused ∙ ap err (err-injective e out_of_fuel fuelless)))
            (λ n c.
              write_from-ends (drop n (b ∷ bs)) fuel _ h (shorter (b ∷ bs) v n fuel c enough)))
