-- ===== src/Streams.antt =====
-- server/llm/openai_sse.ts, which writes a chat's answer as server-sent events, and
-- server/llm/sse_parsers.ts, which reads such events from a provider. A text is decoded before it is
-- read, and an event's identifiers (the chat's id, the time, the model) are left out.
pub mod RoundTrip
use ob2_turbo_quant.Common.{
  Bool, true, false, ◌&&◌, ◌==◌, Option, none, some, List, [], ◌∷◌, ◌++◌, map, if◌then◌else◌, Text,
  text_eq, codes, is_empty, option_or, starts_with, trim, drop,
}

-- `finish_reason`: "stop" or "length".
pub data Reason : Type 0 where
  stop : Reason
  out_of_tokens : Reason

pub record ChatChunk : Type 0 where
  pub content : Text
  pub done : Bool
  pub finish_reason : Option Reason

-- What the frames carry as JSON.
pub data Payload : Type 0 where
  role : Payload
  delta : Text → Payload
  finish : Reason → Payload
  error : Text → Payload

pub data Frame : Type 0 where
  event : Payload → Frame
  terminator : Frame

abbrev pub role_frame : Bool → List Frame
role_frame true = event role ∷ []
role_frame false = []

abbrev pub content_frame : Text → List Frame
content_frame [] = []
content_frame (c ∷ t) = event (delta (c ∷ t)) ∷ []

-- `chatChunkStreamToOpenAiSSE` on the chunks that its source gives, after which the source ends, or
-- throws with a message.
unfoldable pub encode_chunks : Bool → List ChatChunk → Option Text → List Frame
encode_chunks first [] none = []
encode_chunks first [] (some message) = event (error message) ∷ terminator ∷ []
encode_chunks first (c ∷ cs) ending =
    let rest = encode_chunks false cs ending in
    role_frame first
    ++ (content_frame c.content
        ++ (if c.done
            then event (finish (option_or c.finish_reason stop)) ∷ terminator ∷ []
            else rest))

-- A frame's text, with `json` for `JSON.stringify`.
unfoldable pub frame_text : (Payload → Text) → Frame → Text
frame_text json (event p) = codes "data: " ++ (json p ++ (10 ∷ 10 ∷ []))
frame_text json terminator = codes "data: " ++ (codes "[DONE]" ++ (10 ∷ 10 ∷ []))

-- What the parser takes of a payload: `JSON.parse` throws, taking `choices` of its value throws, there
-- is no choice, or the first choice has a content and a reason, which are empty where they are absent.
pub data Parsed : Type 0 where
  unreadable : Parsed
  broken : Parsed
  no_choice : Parsed
  choice : Text → Text → Parsed

pub data Progress : Type 0 where
  going : Progress
  closed : Progress
  failed : Progress

-- `.replace(/\r\n/g, "\n")`
unfoldable pub replace_crlf : Text → Text
replace_crlf [] = []
replace_crlf (c ∷ s) =
    let rest = replace_crlf s in if (c == 13) && starts_with (10 ∷ []) s then rest else c ∷ rest

-- `.replace(/\r/g, "\n")`
unfoldable pub replace_cr : Text → Text
replace_cr [] = []
replace_cr (c ∷ s) = (if c == 13 then 10 else c) ∷ replace_cr s

-- The frames that an empty line ends, and the rest of the text, with the frame read so far.
unfoldable pub take_frames : Text → Text → List Text × Text
take_frames frame [] = ([], frame)
take_frames frame (c ∷ []) = ([], frame ++ (c ∷ []))
take_frames frame (c ∷ d ∷ s) =
    let (ended, left) = take_frames [] s in
    let longer = take_frames (frame ++ (c ∷ [])) (d ∷ s) in
    if (c == 10) && (d == 10) then (frame ∷ ended, left) else longer

-- `frame.split("\n")`, with the line read so far.
unfoldable pub split_frame : Text → Text → List Text
split_frame line [] = line ∷ []
split_frame line (c ∷ s) =
    let ended = split_frame [] s in
    let longer = split_frame (line ++ (c ∷ [])) s in if c == 10 then line ∷ ended else longer

-- The data lines, without the field's name.
unfoldable pub data_lines : List Text → List Text
data_lines [] = []
data_lines (l ∷ ls) =
    let rest = data_lines ls in
    if starts_with (codes "data:") l then trim (drop 5 l) ∷ rest else rest

unfoldable pub join_data : List Text → Text
join_data [] = []
join_data (l ∷ []) = l
join_data (l ∷ m ∷ ls) = l ++ (10 ∷ join_data (m ∷ ls))

abbrev pub content_chunk : Text → List ChatChunk
content_chunk [] = []
content_chunk (c ∷ t) = record { content = c ∷ t; done = false; finish_reason = none } ∷ []

abbrev pub done_chunk : Reason → List ChatChunk
done_chunk r = record { content = []; done = true; finish_reason = some r } ∷ []

unfoldable pub handle_parsed : Parsed → List ChatChunk × Progress
handle_parsed unreadable = ([], going)
handle_parsed broken = ([], failed)
handle_parsed no_choice = ([], going)
handle_parsed (choice content reason) =
    if is_empty reason then (content_chunk content, going) else (
      content_chunk content
          ++ done_chunk (if text_eq reason (codes "length") then out_of_tokens else stop),
      closed,
    )

-- What comes after, unless the stream has come to an end.
abbrev pub then_go :
    List ChatChunk × Progress → List ChatChunk × Progress → List ChatChunk × Progress
then_go (out, going) (more, o) = (out ++ more, o)
then_go (out, closed) rest = (out, closed)
then_go (out, failed) rest = (out, failed)

module _ (parse : Text → Parsed) where
  unfoldable pub handle_payload : Text → List ChatChunk × Progress
  handle_payload payload =
      if text_eq payload (codes "[DONE]") then ([], closed) else handle_parsed (parse payload)

  abbrev pub handle_data : List Text → List ChatChunk × Progress
  handle_data [] = ([], going)
  handle_data (l ∷ ls) = handle_payload (join_data (l ∷ ls))

  -- A round of the inner loop of `openAiSseToChunks`.
  unfoldable pub handle_frame : Text → List ChatChunk × Progress
  handle_frame frame = handle_data (data_lines (split_frame [] frame))

  unfoldable pub handle_frames : List Text → List ChatChunk × Progress
  handle_frames [] = ([], going)
  handle_frames (f ∷ fs) = then_go (handle_frame f) (handle_frames fs)

  -- `openAiSseToChunks` on the texts that its source gives, and what is left of the ones before.
  unfoldable pub read_all : Text → List Text → List ChatChunk × Progress
  read_all buf [] = ([], closed)
  read_all buf (text ∷ texts) =
      let (frames, left) = take_frames [] (buf ++ replace_cr (replace_crlf text)) in
      then_go (handle_frames frames) (read_all left texts)
