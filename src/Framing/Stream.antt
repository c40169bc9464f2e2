-- ===== src/Framing/Stream.antt =====
-- mcp_stdio_framing.py: streams of messages.
use responsibility_pathway_r.Prelude.{
  ℕ, Bool, true, false, not, ◌&&◌, ◌≡◌, ◌∙◌, sym, ap, subst, refl, List, [], ◌∷◌, ◌++◌, ltb, length,
  arith, Bool-cases, inl, inr, if◌then◌else◌,
}
use responsibility_pathway_r.Errors.{Result, ok, err}
use responsibility_pathway_r.Value.{Value, Fields, dict}
use responsibility_pathway_r.Framing.{
  Bytes, Codec, newline, fail, prepend, require_healthy, has_newline, is_nil, is_refused,
  starts_with, utf8_bom, object_of, decode_line, drain, feed_drained, feed_buffer, feed, encode,
  encode_payload,
}
use responsibility_pathway_r.Framing.Chunks.{
  after, continue, append_nil, append_assoc, drain-append, drain-line, drain-rest,
}

module _ (max : ℕ) (parse : Bytes → Result Value) (render : Fields → Result Bytes) where
  -- What a buffer that was accepted has given.
  abbrev Drained : Bytes → List Fields → Codec → Codec → Type 0
  Drained bs ms s t =
      (rest : Bytes) × (drain max parse render [] bs ≡ ok (ms, rest))
      × (ltb max (length rest) ≡ false)
      × (t ≡ record s { buffer = rest })

  drained-accepted :
      (r : Result (List Fields × Bytes)) (ms : List Fields) (s t : Codec)
      → feed_drained max parse render r s ≡ (ok ms, t)
      → (rest : Bytes) × (r ≡ ok (ms, rest))
        × (ltb max (length rest) ≡ false)
        × (t ≡ record s { buffer = rest })
  unfolding feed_drained fail
  drained-accepted (err e) ms s t h = absurd (ground arith)
  drained-accepted (ok (ns, rest)) ms s t h = elim (Bool-cases (ltb max (length rest))) [
    | inl long ↦ absurd (ground arith)
    | inr fits ↦ (rest, ground arith, fits, ground arith)
  ]

  feed_buffer-accepted :
      (bs : Bytes) (ms : List Fields) (s t : Codec)
      → feed_buffer max parse render bs s ≡ (ok ms, t)
      → Drained bs ms s t
  unfolding feed_buffer fail
  feed_buffer-accepted bs ms s t h =
      drained-accepted (drain max parse render [] bs) ms s t
        (accepted (not (has_newline bs) && ltb max (length bs)) h)
    where
      accepted :
          (b : Bool)
          → (if b then fail s else feed_drained max parse render (drain max parse render [] bs) s)
            ≡ (ok ms, t)
          → feed_drained max parse render (drain max parse render [] bs) s ≡ (ok ms, t)
      accepted true e = absurd (ground arith)
      accepted false e = e

  -- A buffer that leaves a short rest is accepted: without a newline it is its own rest.
  feed_buffer-accepts :
      (bs : Bytes) (ms : List Fields) (rest : Bytes) (s : Codec)
      → drain max parse render [] bs ≡ ok (ms, rest)
      → ltb max (length rest) ≡ false
      → feed_buffer max parse render bs s ≡ (ok ms, record s { buffer = rest })
  unfolding feed_buffer feed_drained drain fail
  feed_buffer-accepts bs ms rest s e fits = elim (Bool-cases (has_newline bs)) [
    | inl ends ↦ rw (ends, e, fits) refl
    | inr stays ↦
        let whole : drain max parse render [] bs ≡ ok ([], bs) =
          ap (drain max parse render []) (sym (append_nil bs))
          ∙ drain-line max parse render [] bs [] stays in
        let same : bs ≡ rest = ground (arith, whole, e) in
        rw (ap length same, stays, fits, e, fits) refl
  ]

  drain-clean : (bs : Bytes) → has_newline bs ≡ false → drain max parse render [] bs ≡ ok ([], bs)
  unfolding drain
  drain-clean bs clean =
      ap (drain max parse render []) (sym (append_nil bs))
      ∙ drain-line max parse render [] bs [] clean

  module _ (s : Codec) (clean : has_newline s.buffer ≡ false) where
    no_chunk :
        (ms : List Fields) (rest : Bytes)
        → drain max parse render [] (s.buffer ++ []) ≡ ok (ms, rest)
        → (ms ≡ []) × (rest ≡ s.buffer)
    no_chunk ms rest e =
        let whole = drain-clean s.buffer clean in
        let at : drain max parse render [] s.buffer ≡ ok (ms, rest) =
          ap (drain max parse render []) (sym (append_nil s.buffer)) ∙ e in
        ground (arith, whole, at)

    -- What `feed` accepts, read as what the loop makes of the buffer with the chunk.
    feed-Drained :
        (chunk : Bytes) (ms : List Fields) (t : Codec)
        → ltb max (length s.buffer) ≡ false
        → feed max parse render chunk s ≡ (ok ms, t)
        → (s.poisoned ≡ false) × Drained (s.buffer ++ chunk) ms s t
    unfolding feed is_nil require_healthy
    feed-Drained chunk ms t fits h = elim (Bool-cases s.poisoned) [
      | inl bad ↦ absurd (ground arith)
      | inr healthy ↦ (healthy, read chunk healthy h)
    ]
      where
        read :
            (x : Bytes)
            → s.poisoned ≡ false
            → feed max parse render x s ≡ (ok ms, t)
            → Drained (s.buffer ++ x) ms s t
        read [] healthy e = (
          s.buffer,
          rw (append_nil s.buffer) (drain-clean s.buffer clean ∙ ground arith),
          fits,
          ground arith,
        )
        read (x ∷ xs) healthy e = feed_buffer-accepted (s.buffer ++ x ∷ xs) ms s t (ground arith)

    feed-accepts :
        (chunk : Bytes) (ms : List Fields) (rest : Bytes)
        → s.poisoned ≡ false
        → drain max parse render [] (s.buffer ++ chunk) ≡ ok (ms, rest)
        → ltb max (length rest) ≡ false
        → feed max parse render chunk s ≡ (ok ms, record s { buffer = rest })
    unfolding feed is_nil require_healthy
    feed-accepts [] ms rest healthy e fits =
        let same = no_chunk ms rest e in rw (healthy, same.0, same.1) refl
    feed-accepts (x ∷ xs) ms rest healthy e fits = rw healthy (
        feed_buffer-accepts (s.buffer ++ x ∷ xs) ms rest
          (record { buffer = s.buffer; poisoned = false }) e fits)

  -- Two chunks that are accepted one after the other are accepted at once, with the same messages in
  -- the same order, and the codec is in the same state after them. The codec holds no newline, and
  -- no more bytes than the limit.
  pub feed-chunks :
      (a b : Bytes) (s t u : Codec) (ms ns : List Fields)
      → has_newline s.buffer ≡ false
      → ltb max (length s.buffer) ≡ false
      → feed max parse render a s ≡ (ok ms, t)
      → feed max parse render b t ≡ (ok ns, u)
      → feed max parse render (a ++ b) s ≡ (ok (ms ++ ns), u)
  unfolding has_newline
  feed-chunks a b s t u ms ns clean fits h k =
      let (healthy, first) = feed-Drained s clean a ms t fits h in
      let (r, e1, f1, at) = first in
      let rest_clean = drain-rest max parse render [] (s.buffer ++ a) ms r refl e1 in
      let (healthy2, second) =
        feed-Drained (record s { buffer = r }) rest_clean b ns u f1
          (subst (λ x. feed max parse render b x ≡ (ok ns, u)) at k) in
      let (r2, e2, f2, end) = second in
      let total : drain max parse render [] (s.buffer ++ (a ++ b)) ≡ ok (ms ++ ns, r2) =
        ap (drain max parse render []) (sym (append_assoc s.buffer a b))
        ∙ drain-append max parse render [] (s.buffer ++ a) b
        ∙ ap (λ x. continue max parse render x b) e1
        ∙ ap (after ms) (sym (drain-line max parse render [] r b rest_clean) ∙ e2) in
      feed-accepts s clean (a ++ b) (ms ++ ns) r2 healthy total f2
      ∙ ap (λ x. (ok (ms ++ ns), x)) (sym end)

  encode-accepted :
      (m : Fields) (s t : Codec) (payload line : Bytes)
      → render m ≡ ok payload
      → encode max parse render m s ≡ (ok line, t)
      → (s.poisoned ≡ false)
        × (starts_with utf8_bom payload ≡ false)
        × (ltb max (length payload) ≡ false)
        × (line ≡ payload ++ newline ∷ [])
  unfolding encode encode_payload require_healthy fail
  encode-accepted m s t payload line written h =
      go s.poisoned (render m) (starts_with utf8_bom payload) (ltb max (length payload)) refl refl
        refl refl
    where
      go :
          (bad : Bool) (r : Result Bytes) (bom long : Bool)
          → s.poisoned ≡ bad
          → render m ≡ r
          → starts_with utf8_bom payload ≡ bom
          → ltb max (length payload) ≡ long
          → (s.poisoned ≡ false)
            × (starts_with utf8_bom payload ≡ false)
            × (ltb max (length payload) ≡ false)
            × (line ≡ payload ++ newline ∷ [])
      go bad r bom long p q b l = ground arith

  drain-payload :
      (m : Fields) (payload : Bytes)
      → has_newline payload ≡ false
      → is_nil payload ≡ false
      → starts_with utf8_bom payload ≡ false
      → ltb max (length payload) ≡ false
      → parse payload ≡ ok (dict m)
      → drain max parse render [] (payload ++ newline ∷ []) ≡ ok (m ∷ [], [])
  unfolding drain decode_line is_refused object_of prepend
  drain-payload m payload single full no_bom fits read =
      drain-line max parse render [] payload (newline ∷ []) single
      ∙ rw (full, fits, no_bom, read) refl

  -- A message that `encode` accepts, fed to a codec with an empty buffer and the same limit, comes out
  -- as it is, and leaves the codec as it was: if the text of a message has no newline and is not
  -- empty, and is read back as the message.
  pub encode-feed :
      (m : Fields) (s t : Codec) (payload line : Bytes)
      → s.buffer ≡ []
      → render m ≡ ok payload
      → has_newline payload ≡ false
      → is_nil payload ≡ false
      → parse payload ≡ ok (dict m)
      → encode max parse render m s ≡ (ok line, t)
      → feed max parse render line s ≡ (ok (m ∷ []), s)
  unfolding has_newline
  encode-feed m s t payload line empty written single full read h =
      let (healthy, no_bom, fits, is) = encode-accepted m s t payload line written h in
      let clean : has_newline s.buffer ≡ false = ap has_newline empty in
      let total : drain max parse render [] (s.buffer ++ line) ≡ ok (m ∷ [], []) =
        rw (empty, is) (drain-payload m payload single full no_bom fits read) in
      feed-accepts s clean line (m ∷ []) [] healthy total (ground arith)
      ∙ ap (λ b. (ok (m ∷ []), record s { buffer = b })) (sym empty)
