-- ===== src/Mcp/Channel/Writes.antt =====
-- mcp_stdio_channel.py: what of a message reaches the process.
use responsibility_pathway_r.Prelude.{
  ℕ, zero, suc, Bool, false, ◌+◌, ◌≡◌, ◌⊎◌, inl, inr, refl, sym, ap, ◌∙◌, subst, [], ◌∷◌, ◌++◌,
  length, arith, if◌then◌else◌,
}
use mathlib.Core.List.{append-nil, append_assoc}
use responsibility_pathway_r.Errors.{Error, Result, ok, err}
use responsibility_pathway_r.Exec.{outcome, pure, raise, lift, proceed, ◌>>=◌}
use responsibility_pathway_r.Value.{Value, Fields, pos, int}
use responsibility_pathway_r.Framing.{Bytes, Codec, encode}
use responsibility_pathway_r.Rpc.{transport_error}
use responsibility_pathway_r.Mcp.Diagnostics.{take, zero_add, add_suc}
use responsibility_pathway_r.Mcp.Channel.{
  Duplex, Channel, Settings, drop, count_of, on_duplex, on_codec, translated, write_from,
  write_message, send, require_open_stdout,
}
use responsibility_pathway_r.Mcp.Channel.Ends.{count_of-ok}

take-drop : (n : ℕ) (bs : Bytes) → take n bs ++ drop n bs ≡ bs
unfolding take drop
take-drop zero bs = refl
take-drop (suc n) [] = refl
take-drop (suc n) (b ∷ bs) = ap (λ r. b ∷ r) (take-drop n bs)

take-add : (n k : ℕ) (bs : Bytes) → take n bs ++ take k (drop n bs) ≡ take (n + k) bs
unfolding take drop
take-add zero k bs = rw (zero_add k) refl
take-add (suc n) zero [] = rw (add_suc n 0) refl
take-add (suc n) (suc k) [] = rw (add_suc n (suc k)) refl
take-add (suc n) k (b ∷ bs) = rw (add_suc n k) (ap (λ r. b ∷ r) (take-add n k bs))

-- How many bytes the writer says it took
abbrev took : Value → ℕ
took (int (pos n)) = n
took _ = 0

abbrev recorded : {T : Type 0} → Bytes → Bytes → Result Value × T → Result Value × (Bytes × T)
recorded log bs (ok v, t) = (ok v, (log ++ take (took v) bs, t))
recorded log bs (err e, t) = (err e, (log, t))

-- A process that writes down the bytes that it takes, and does what another one does.
abbrev pub recording : {T : Type 0} → Duplex T → Duplex (Bytes × T)
recording d = record {
  write_stdin = λ bs t. recorded t.0 bs (d.write_stdin bs t.1);
  read_event = λ t. ((d.read_event t.1).0, (t.0, (d.read_event t.1).1));
}

-- Of the bytes, a first part was added to the log; the whole, if no exception was raised.
abbrev pub AreWritten :
    {T : Type 0} → Bytes → Bytes → Result (Unit {0}) × Channel (Bytes × T) → Type 0
AreWritten log payload r =
    (k : ℕ) × ((r.1.duplex.0 ≡ log ++ take k payload)
      × ((take k payload ≡ payload) ⊎ ((e : Error) × (r.0 ≡ err e))))

module _ {T : Type 0} (settings : Settings) (d : Duplex T) (is_passed_on : Error → Bool) where
  -- One pass of the loop, with the answer of the process
  abbrev pass :
      Bytes → ℕ → Channel (Bytes × T) → Result Value × T → Result (Unit {0}) × Channel (Bytes × T)
  pass bs f s p =
      proceed
        (outcome {A = Value} (let r = recorded s.duplex.0 bs p in (r.0, record s { duplex = r.1 }))
          pure (λ e. raise (if is_passed_on e then e else transport_error)))
        (λ v. lift (count_of bs v) >>= λ n.
          write_from settings (recording d) is_passed_on (drop n bs) f)

  joined-AreWritten :
      (log bs : Bytes) (n : ℕ) (r : Result (Unit {0}) × Channel (Bytes × T))
      → AreWritten (log ++ take n bs) (drop n bs) r
      → AreWritten log bs r
  joined-AreWritten log bs n r (k, (e, end)) = (
    n + k,
    (
      e ∙ append_assoc log (take n bs) (take k (drop n bs)) ∙ ap (λ x. log ++ x) (take-add n k bs),
      elim end [
        | inl full ↦ inl (sym (take-add n k bs) ∙ ap (λ x. take n bs ++ x) full ∙ take-drop n bs)
        | inr x ↦ inr x
      ],
    ),
  )

  counted-AreWritten :
      (log bs : Bytes) (m f : ℕ) (c : Result ℕ) (s : Channel (Bytes × T))
      → s.duplex.0 ≡ log ++ take m bs
      → ((n : ℕ) → c ≡ ok n → m ≡ n)
      → ((n : ℕ)
          → AreWritten s.duplex.0
              (drop n bs)
              (write_from settings (recording d) is_passed_on (drop n bs) f s))
      → AreWritten log bs
          ((lift c >>= λ n. write_from settings (recording d) is_passed_on (drop n bs) f) s)
  counted-AreWritten log bs m f (err e) s l c h = (m, (l, inr (e, refl)))
  counted-AreWritten log bs m f (ok n) s l c h =
      joined-AreWritten log bs n (write_from settings (recording d) is_passed_on (drop n bs) f s) (
        subst
          (λ x.
            AreWritten x (drop n bs)
              (write_from settings (recording d) is_passed_on (drop n bs) f s))
          (l ∙ ap (λ x. log ++ take x bs) (c n refl)) (h n))

  pass-AreWritten :
      (bs : Bytes) (f : ℕ) (s : Channel (Bytes × T)) (p : Result Value × T)
      → ((n : ℕ) (t : Channel (Bytes × T))
          → AreWritten t.duplex.0
              (drop n bs)
              (write_from settings (recording d) is_passed_on (drop n bs) f t))
      → AreWritten s.duplex.0 bs (pass bs f s p)
  unfolding take
  pass-AreWritten bs f s (ok v, t) h =
      counted-AreWritten s.duplex.0 bs (took v) f (count_of bs v)
        (record s { duplex = (s.duplex.0 ++ take (took v) bs, t) }) refl
        (λ n c. ap took (count_of-ok bs v c).0) (λ n. h n _)
  pass-AreWritten bs f s (err e, t) h = (0, (sym (append-nil s.duplex.0), inr (_, refl)))

  write_from-AreWritten :
      (bs : Bytes) (f : ℕ) (s : Channel (Bytes × T))
      → AreWritten s.duplex.0 bs (write_from settings (recording d) is_passed_on bs f s)
  unfolding write_from take translated on_duplex
  write_from-AreWritten [] f s = (0, (sym (append-nil s.duplex.0), inl refl))
  write_from-AreWritten (b ∷ bs) zero s = (0, (sym (append-nil s.duplex.0), inr (_, refl)))
  write_from-AreWritten (b ∷ bs) (suc f) s =
      pass-AreWritten (b ∷ bs) f s (d.write_stdin (b ∷ bs) s.duplex.1)
        (λ n t. write_from-AreWritten (drop n (b ∷ bs)) f t)

  opened :
      (s : Channel (Bytes × T))
      → s.stdout_eof ≡ false
      → require_open_stdout settings (recording d) is_passed_on s ≡ (ok tt, s)
  unfolding require_open_stdout
  opened s h = ground arith

  -- If the stdout of the process is open and the codec encodes a message as a payload, then `send`
  -- adds to what the process was given a first part of that payload, without a gap or a repetition,
  -- however the writer cuts it up; and it adds the whole payload, or raises.
  pub send-AreWritten :
      (message : Fields) (payload : Bytes) (codec : Codec) (s : Channel (Bytes × T))
      → s.stdout_eof ≡ false
      → encode settings.max_message_bytes settings.parse settings.render message s.codec
        ≡ (ok payload, codec)
      → AreWritten s.duplex.0 payload (send settings (recording d) is_passed_on message s)
  unfolding send write_message on_codec
  send-AreWritten message payload codec s not_closed encoded =
      rw (opened s not_closed, encoded)
        (write_from-AreWritten payload (length payload) (record s { codec = codec }))
