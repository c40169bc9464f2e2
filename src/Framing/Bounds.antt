-- ===== src/Framing/Bounds.antt =====
-- mcp_stdio_framing.py: the buffer is bounded, and a failure is final.
use responsibility_pathway_r.Prelude.{ℕ, true, ◌≡◌, ◌≤◌, refl, List, [], ◌++◌, length, arith}
use responsibility_pathway_r.Errors.{Result, ok, err}
use responsibility_pathway_r.Value.{Value, Fields}
use responsibility_pathway_r.Framing.{
  Bytes, Codec, framing_error, fail, require_healthy, is_nil, drain, feed_drained, feed_buffer,
  feed, finish, encode,
}

module _ (max : ℕ) (parse : Bytes → Result Value) (render : Fields → Result Bytes) where
  -- If a codec is poisoned, then feeding, encoding and finishing raise, and leave it as it is.
  pub poisoned-final :
      (s : Codec) (chunk : Bytes) (message : Fields)
      → s.poisoned ≡ true
      → (feed max parse render chunk s ≡ (err framing_error, s))
        × (encode max parse render message s ≡ (err framing_error, s))
        × (finish max parse render s ≡ (err framing_error, s))
  unfolding feed encode finish require_healthy
  poisoned-final s chunk message h = rw h (refl, refl, refl)

  feed_drained-bound :
      (r : Result (List Fields × Bytes)) (s : Codec)
      → length (feed_drained max parse render r s).1.buffer ≤ max
  unfolding feed_drained fail
  feed_drained-bound (ok (ms, rest)) s = ground arith
  feed_drained-bound (err e) s = ground arith

  feed_buffer-bound :
      (bs : Bytes) (s : Codec) → length (feed_buffer max parse render bs s).1.buffer ≤ max
  unfolding feed_buffer fail
  feed_buffer-bound bs s = ground (arith, feed_drained-bound (drain max parse render [] bs) s)

  -- If the buffer of a codec is within the limit, it is within the limit after a feed, whether
  -- the codec accepts the chunk or fails.
  pub feed-bound :
      (chunk : Bytes) (s : Codec)
      → length s.buffer ≤ max
      → length (feed max parse render chunk s).1.buffer ≤ max
  unfolding feed require_healthy is_nil
  feed-bound chunk s h = ground (arith, feed_buffer-bound (s.buffer ++ chunk) s)
