-- ===== src/Tests/StreamTests.antt =====
-- server/llm/openai_sse.ts and server/llm/sse_parsers.ts at a concrete chat.
use ob2_turbo_quant.Common.{
  ◌≡◌, refl, true, false, none, some, List, [], ◌∷◌, ◌++◌, map, if◌then◌else◌, Text, text_eq, codes,
  trim, trim_start, is_space,
}
use ob2_turbo_quant.Streams.{
  stop, out_of_tokens, ChatChunk, Payload, role, delta, finish, error, encode_chunks, frame_text,
  Parsed, unreadable, choice, closed, read_all,
}
use ob2_turbo_quant.Streams.RoundTrip.{read_all-encode_chunks}

abbrev test_json : Payload → Text
test_json role = codes "{r}"
test_json (delta t) = codes "{d" ++ (t ++ codes "}")
test_json (finish stop) = codes "{s}"
test_json (finish out_of_tokens) = codes "{l}"
test_json (error message) = codes "{e}"

abbrev test_parse : Text → Parsed
test_parse t =
    if text_eq t (codes "{r}")
    then choice [] []
    else if text_eq t (codes "{dHi}")
    then choice (codes "Hi") []
    else if text_eq t (codes "{l}")
    then choice [] (codes "length")
    else unreadable

abbrev test_chunks : List ChatChunk
test_chunks =
    record { content = codes "Hi"; done = false; finish_reason = none }
    ∷ record { content = []; done = true; finish_reason = some out_of_tokens }
    ∷ []

read_all-encode_chunks_example :
    read_all test_parse [] (map (frame_text test_json) (encode_chunks true test_chunks none))
    ≡ (test_chunks, closed)
unfolding encode_chunks text_eq trim trim_start is_space
read_all-encode_chunks_example = read_all-encode_chunks test_json test_parse test_chunks none (
  ((refl, (refl, (refl, tt))), (refl, (refl, (refl, tt))), refl, refl, refl),
  (
    (
      (refl, (refl, (refl, (refl, (refl, tt))))),
      (refl, (refl, (refl, (refl, (refl, tt))))),
      refl,
      refl,
      refl,
    ),
    (((refl, (refl, (refl, tt))), (refl, (refl, (refl, tt))), refl, refl, refl), (tt, tt)),
  ),
)
