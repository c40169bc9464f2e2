-- ===== src/Framing.antt =====
-- mcp_stdio_framing.py: McpStdioLineCodec, one JSON object on each line.
pub mod Chunks
pub mod Stream
pub mod Bounds
use responsibility_pathway_r.Prelude.{
  ℕ, Bool, true, false, not, ◌&&◌, ◌||◌, List, [], ◌∷◌, ◌++◌, ◌==◌, any, ltb, leb, length,
  if◌then◌else◌,
}
use responsibility_pathway_r.Errors.{Error, Result, ok, err, value_error, other_error, class_name}
use responsibility_pathway_r.Exec.{Exec, pure, raise, gets, ◌>>=◌, ◌>>◌}
use responsibility_pathway_r.Value.{Value, Fields, dict}

-- McpStdioFramingError
abbrev pub framing_error : Error
framing_error = other_error "McpStdioFramingError"

abbrev pub Bytes : Type 0
Bytes = List ℕ

-- The state of a codec; `max_message_bytes` does not change.
pub record Codec : Type 0 where
  pub buffer : Bytes
  pub poisoned : Bool

-- `McpStdioLineCodec.__init__`
unfoldable pub new_codec : ℕ → Result Codec
new_codec max_message_bytes =
    if leb max_message_bytes 0
    then err value_error
    else ok (record { buffer = []; poisoned = false })

abbrev pub is_byte : ℕ → ℕ → Bool
is_byte n b = leb n b && leb b n

-- `b"\n"`
abbrev pub newline : ℕ
newline = 10

-- `bytes.startswith`
starts_with : Bytes → Bytes → Bool
starts_with [] bs = true
starts_with (p ∷ ps) [] = false
starts_with (p ∷ ps) (b ∷ bs) = is_byte p b && starts_with ps bs

-- `_UTF8_BOM`
abbrev utf8_bom : Bytes
utf8_bom = 239 ∷ 187 ∷ 191 ∷ []

-- `_fail`
unfoldable pub fail : {A : Type 0} → Exec Codec A
fail s = (err framing_error, record { buffer = []; poisoned = true })

-- `_require_healthy`
unfoldable pub require_healthy : Exec Codec (Unit {0})
require_healthy s = if s.poisoned then (err framing_error, s) else (ok tt, s)

unfoldable pub is_nil : Bytes → Bool
is_nil [] = true
is_nil (b ∷ bs) = false

-- The bytes that the decoder refuses before it reads them.
unfoldable pub is_refused : ℕ → Bytes → Bool
unfolding starts_with is_nil
is_refused max_message_bytes line =
    is_nil line || ltb max_message_bytes (length line) || starts_with utf8_bom line

unfoldable pub has_newline : Bytes → Bool
unfolding any
has_newline bs = any (is_byte newline) bs

-- A message before those of the later lines.
unfoldable pub prepend : Result Fields → Result (List Fields × Bytes) → Result (List Fields × Bytes)
prepend (ok m) (ok (ms, rest)) = ok (m ∷ ms, rest)
prepend (ok m) (err e) = err e
prepend (err e) r = err e

-- What the `except` around `json.dumps` catches. A UnicodeEncodeError comes from the encoding of the
-- text after it, which no `except` surrounds.
unfoldable pub is_caught : Error → Bool
unfolding class_name
is_caught e = class_name e == "TypeError" || class_name e == "ValueError"

-- `parse` is `line.decode("utf-8")` and `json.loads` with the two hooks; `render` is `json.dumps` with
-- the encoding of its text.
module _ (max_message_bytes : ℕ) (parse : Bytes → Result Value)
    (render : Fields → Result Bytes) where
  -- `if not isinstance(value, dict): fail`
  object_of : Result Value → Result Fields
  object_of (ok (dict fs)) = ok fs
  object_of _ = err framing_error

  -- `_decode_line`; whatever fails poisons the codec, see `feed`.
  unfoldable pub decode_line : Bytes → Result Fields
  unfolding is_refused object_of
  decode_line line =
      if is_refused max_message_bytes line then err framing_error else object_of (parse line)

  -- The loop over the buffer: the messages of the complete lines, and the bytes after the last one.
  -- `line` are the bytes since the last newline.
  unfoldable pub drain : Bytes → Bytes → Result (List Fields × Bytes)
  unfolding decode_line
  drain line [] = ok ([], line)
  drain line (b ∷ bs) =
      let stay = drain (line ++ b ∷ []) bs in
      let next = drain [] bs in if is_byte newline b then prepend (decode_line line) next else stay

  -- The end of `feed`: the buffer is what is left, unless that is too long.
  feed_drained : Result (List Fields × Bytes) → Exec Codec (List Fields)
  feed_drained (ok (messages, rest)) s =
      if ltb max_message_bytes (length rest)
      then fail s
      else (ok messages, record s { buffer = rest })
  feed_drained (err e) s = fail s

  feed_buffer : Bytes → Exec Codec (List Fields)
  unfolding feed_drained drain has_newline fail
  feed_buffer buffer s =
      if not (has_newline buffer) && ltb max_message_bytes (length buffer)
      then fail s
      else feed_drained (drain [] buffer) s

  -- `feed`
  unfoldable pub feed : Bytes → Exec Codec (List Fields)
  unfolding feed_buffer is_nil require_healthy
  feed chunk = do
    require_healthy
    buffer ← gets (λ s. s.buffer)
    (if is_nil chunk then pure [] else feed_buffer (buffer ++ chunk))

  -- `finish`
  unfoldable pub finish : Exec Codec (Unit {0})
  unfolding is_nil require_healthy fail
  finish = do
    require_healthy
    buffer ← gets (λ s. s.buffer)
    (if is_nil buffer then pure tt else fail)

  encode_payload : Result Bytes → Exec Codec Bytes
  unfolding is_caught
  encode_payload (err e) = if is_caught e then fail else raise e
  encode_payload (ok payload) =
      if starts_with utf8_bom payload || ltb max_message_bytes (length payload)
      then fail
      else pure (payload ++ newline ∷ [])

  -- `encode`, of an object
  unfoldable pub encode : Fields → Exec Codec Bytes
  unfolding encode_payload require_healthy fail starts_with
  encode message = do require_healthy; encode_payload (render message)
