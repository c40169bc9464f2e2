-- ===== src/Examples/Streams.antt =====
-- The theorems on the line codec, at concrete inputs.
use responsibility_pathway_r.Prelude.{true, false, ◌≡◌, refl, [], ◌∷◌, ◌++◌}
use responsibility_pathway_r.Errors.{Result, ok}
use responsibility_pathway_r.Value.{Value, Fields, dict, str, end, entry}
use responsibility_pathway_r.Framing.{
  Bytes, Codec, framing_error, has_newline, is_nil, feed, finish, encode,
}
use responsibility_pathway_r.Framing.Stream.{feed-chunks, encode-feed}

-- Every line is read as the object `{"a":"b"}`, which is written as one byte.
abbrev message_example : Fields
message_example = entry "a" (str "b") end

abbrev parse_example : Bytes → Result Value
parse_example line = ok (dict message_example)

abbrev render_example : Fields → Result Bytes
render_example m = ok (97 ∷ [])

abbrev idle : Codec
idle = record { buffer = []; poisoned = false }

abbrev half : Codec
half = record { buffer = 97 ∷ []; poisoned = false }

feed-chunks_example :
    feed 8 parse_example render_example ((97 ∷ 10 ∷ 97 ∷ []) ++ (10 ∷ [])) idle
    ≡ (ok ((message_example ∷ []) ++ (message_example ∷ [])), idle)
unfolding feed has_newline responsibility_pathway_r.Framing.prepend
feed-chunks_example =
    feed-chunks 8 parse_example render_example (97 ∷ 10 ∷ 97 ∷ []) (10 ∷ []) idle half idle
      (message_example ∷ []) (message_example ∷ []) refl refl refl refl

encode-feed_example :
    feed 8 parse_example render_example (97 ∷ 10 ∷ []) idle ≡ (ok (message_example ∷ []), idle)
unfolding has_newline encode is_nil
encode-feed_example =
    encode-feed 8 parse_example render_example message_example idle idle (97 ∷ []) (97 ∷ 10 ∷ [])
      refl refl refl refl refl refl

abbrev broken : Codec
broken = record { buffer = []; poisoned = true }
