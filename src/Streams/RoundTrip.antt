-- ===== src/Streams/RoundTrip.antt =====
-- What the parser makes of the frames that the encoder writes.
use ob2_turbo_quant.Common.{
  ℕ, Bool, true, false, ◌≡◌, refl, ap, ◌∙◌, Option, none, some, List, [], ◌∷◌, ◌++◌, map,
  if◌then◌else◌, Text, text_eq, codes, option_or, starts_with, trim, trim_start, is_space, Lacks,
  All, append_assoc, append-nil, Bool-cases, inl, inr,
}
use ob2_turbo_quant.Streams.{
  Reason, stop, out_of_tokens, ChatChunk, Payload, role, delta, finish, error, Frame, event,
  terminator, encode_chunks, frame_text, role_frame, content_frame, Parsed, no_choice, choice,
  Progress, going, closed, failed, Progress, replace_crlf, replace_cr, take_frames, split_frame,
  data_lines, join_data, content_chunk, done_chunk, handle_parsed, then_go, handle_payload,
  handle_frame, handle_frames, read_all,
}

abbrev pub reason_text : Reason → Text
reason_text stop = codes "stop"
reason_text out_of_tokens = codes "length"

-- What the fields of a payload say.
abbrev pub view : Payload → Parsed
view role = choice [] []
view (delta t) = choice t []
view (finish r) = choice [] (reason_text r)
view (error message) = no_choice

replace-Lacks :
    (x y : Text)
    → Lacks 13 x
    → replace_cr (replace_crlf y) ≡ y
    → replace_cr (replace_crlf (x ++ y)) ≡ x ++ y
unfolding replace_cr replace_crlf
replace-Lacks [] y h kept = kept
replace-Lacks (c ∷ x) y (goes, h) kept = rw goes (rw goes (ap (◌∷◌ c) (replace-Lacks x y h kept)))

take_frames-Lacks :
    (acc x : Text) → Lacks 10 x → take_frames acc (x ++ (10 ∷ 10 ∷ [])) ≡ ((acc ++ x) ∷ [], [])
unfolding take_frames
take_frames-Lacks acc [] h = rw (append-nil acc) refl
take_frames-Lacks acc (c ∷ []) (goes, h) = rw goes refl
take_frames-Lacks acc (c ∷ d ∷ x) (goes, h) = rw goes (
    take_frames-Lacks (acc ++ (c ∷ [])) (d ∷ x) h
    ∙ ap (λ l. (l ∷ [], [])) (append_assoc acc (c ∷ []) (d ∷ x)))

split_frame-Lacks : (acc x : Text) → Lacks 10 x → split_frame acc x ≡ (acc ++ x) ∷ []
unfolding split_frame
split_frame-Lacks acc [] h = rw (append-nil acc) refl
split_frame-Lacks acc (c ∷ x) (goes, h) =
    rw goes
      (split_frame-Lacks (acc ++ (c ∷ [])) x h ∙ ap (λ l. l ∷ []) (append_assoc acc (c ∷ []) x))

then_go-going : (r : List ChatChunk × Progress) → then_go r ([], going) ≡ r
then_go-going (out, going) = rw (append-nil out) refl
then_go-going (out, closed) = refl
then_go-going (out, failed) = refl

-- What a frame adds for its reader.
abbrev effect : Frame → List ChatChunk × Progress
effect (event p) = handle_parsed (view p)
effect terminator = ([], closed)

effects : List Frame → List ChatChunk × Progress
effects [] = ([], closed)
effects (f ∷ fs) = then_go (effect f) (effects fs)

module _ (json : Payload → Text) (parse : Text → Parsed) where
  -- The text of the frame's payload has no line's end and no white space around it, is not the
  -- terminator's, and is read back.
  abbrev pub IsClean : Frame → Type 0
  IsClean (event p) =
      Lacks 10 (json p)
      × Lacks 13 (json p)
      × (trim (json p) ≡ json p)
      × (text_eq (json p) (codes "[DONE]") ≡ false)
      × (parse (json p) ≡ view p)
  IsClean terminator = Unit

  field-Lacks :
      (c : ℕ) (x : Text) → Lacks c (codes "data: ") → Lacks c x → Lacks c (codes "data: " ++ x)
  field-Lacks c x (h₀, (h₁, (h₂, (h₃, (h₄, (h₅, h)))))) own =
      (h₀, (h₁, (h₂, (h₃, (h₄, (h₅, own))))))

  handle_frame_line :
      (x : Text)
      → Lacks 10 x
      → trim x ≡ x
      → handle_frame parse (codes "data: " ++ x) ≡ handle_payload parse x
  unfolding handle_frame data_lines starts_with join_data
  handle_frame_line x no_lf trimmed =
      let one =
        split_frame-Lacks [] (codes "data: " ++ x)
          (field-Lacks 10 x (refl, (refl, (refl, (refl, (refl, (refl, tt)))))) no_lf) in
      let cut : trim (32 ∷ x) ≡ x =
        unfold trim in unfold trim_start in unfold is_space in trimmed in
      rw one (ap (handle_payload parse) cut)

  read_all_line :
      (x : Text) (rest : List Text)
      → Lacks 10 x
      → Lacks 13 x
      → trim x ≡ x
      → read_all parse [] ((codes "data: " ++ (x ++ (10 ∷ 10 ∷ []))) ∷ rest)
        ≡ then_go (handle_payload parse x) (read_all parse [] rest)
  unfolding read_all handle_frames replace_cr replace_crlf
  read_all_line x rest no_lf no_cr trimmed =
      let line = codes "data: " ++ x in
      let kept =
        replace-Lacks (codes "data: ") (x ++ (10 ∷ 10 ∷ []))
          (refl, (refl, (refl, (refl, (refl, (refl, tt))))))
          (replace-Lacks x (10 ∷ 10 ∷ []) no_cr refl) in
      let cut =
        take_frames-Lacks [] line
          (field-Lacks 10 x (refl, (refl, (refl, (refl, (refl, (refl, tt)))))) no_lf) in
      let own = then_go-going (handle_frame parse line) ∙ handle_frame_line x no_lf trimmed in
      ap
        (λ t.
          let (frames, left) = take_frames [] t in
          then_go (handle_frames parse frames) (read_all parse left rest))
        kept
      ∙ ap (λ r. then_go (handle_frames parse r.0) (read_all parse r.1 rest)) cut
      ∙ ap (λ r. then_go r (read_all parse [] rest)) own

  handle_payload_event :
      (p : Payload)
      → text_eq (json p) (codes "[DONE]") ≡ false
      → parse (json p) ≡ view p
      → handle_payload parse (json p) ≡ handle_parsed (view p)
  unfolding handle_payload
  handle_payload_event p going_on parsed = rw going_on (ap handle_parsed parsed)

  handle_payload_terminator : handle_payload parse (codes "[DONE]") ≡ ([], closed)
  unfolding handle_payload text_eq
  handle_payload_terminator = refl

  read_all_frame :
      (f : Frame) (rest : List Text)
      → IsClean f
      → read_all parse [] (frame_text json f ∷ rest) ≡ then_go (effect f) (read_all parse [] rest)
  unfolding frame_text
  read_all_frame (event p) rest (no_lf, no_cr, trimmed, going_on, parsed) =
      read_all_line (json p) rest no_lf no_cr trimmed
      ∙ ap (λ r. then_go r (read_all parse [] rest)) (handle_payload_event p going_on parsed)
  read_all_frame terminator rest h =
      read_all_line (codes "[DONE]") rest (refl, (refl, (refl, (refl, (refl, (refl, tt))))))
        (refl, (refl, (refl, (refl, (refl, (refl, tt))))))
        (unfold trim in unfold trim_start in unfold is_space in refl)
      ∙ ap (λ r. then_go r (read_all parse [] rest)) handle_payload_terminator

  read_all-effects :
      (fs : List Frame) → All IsClean fs → read_all parse [] (map (frame_text json) fs) ≡ effects fs
  unfolding effects
  read_all-effects [] h = unfold read_all in refl
  read_all-effects (f ∷ fs) (clean, h) =
      read_all_frame f (map (frame_text json) fs) clean
      ∙ ap (then_go (effect f)) (read_all-effects fs h)

-- The chunks that reach a reader: those with text, up to the first that says it is the last.
abbrev pub chunks_shown : List ChatChunk → List ChatChunk
chunks_shown [] = []
chunks_shown (c ∷ cs) =
    let rest = chunks_shown cs in
    content_chunk c.content
    ++ (if c.done then done_chunk (option_or c.finish_reason stop) else rest)

effects_role : (first : Bool) (fs : List Frame) → effects (role_frame first ++ fs) ≡ effects fs
unfolding effects handle_parsed
effects_role true fs = refl
effects_role false fs = refl

effects_content :
    (t : Text) (fs : List Frame)
    → effects (content_frame t ++ fs) ≡ then_go (content_chunk t, going) (effects fs)
unfolding effects handle_parsed
effects_content [] fs = refl
effects_content (c ∷ t) fs = refl

effects_opening :
    (first : Bool) (t : Text) (fs : List Frame)
    → effects (role_frame first ++ (content_frame t ++ fs))
      ≡ then_go (content_chunk t, going) (effects fs)
effects_opening first t fs = effects_role first (content_frame t ++ fs) ∙ effects_content t fs

effects_finish :
    (r : Reason) → effects (event (finish r) ∷ terminator ∷ []) ≡ (done_chunk r, closed)
unfolding effects handle_parsed text_eq
effects_finish stop = refl
effects_finish out_of_tokens = refl

effects-encode_chunks :
    (first : Bool) (cs : List ChatChunk) (ending : Option Text)
    → effects (encode_chunks first cs ending) ≡ (chunks_shown cs, closed)
unfolding encode_chunks
effects-encode_chunks first [] none = unfold effects in refl
effects-encode_chunks first [] (some message) = unfold effects in unfold handle_parsed in refl
effects-encode_chunks first (c ∷ cs) ending = elim (Bool-cases c.done) [
  | inl last ↦ rw last (
      effects_opening first c.content _
      ∙ ap (then_go (content_chunk c.content, going))
          (effects_finish (option_or c.finish_reason stop)))
  | inr more ↦ rw more (
      effects_opening first c.content _
      ∙ ap (then_go (content_chunk c.content, going)) (effects-encode_chunks false cs ending))
]

-- A provider's parser that is given what the encoder writes, event by event, gives back the chunks
-- with text up to the first that says it is the last, that one with its reason or "stop", and then
-- closes. It closes in the same way, and tells nothing, where the source of the chunks failed. What
-- is relied on, for the events written: the JSON of each has no line's end, no white space around it,
-- is not the terminator's text, and is read back.
pub read_all-encode_chunks :
    (json : Payload → Text) (parse : Text → Parsed) (cs : List ChatChunk) (ending : Option Text)
    → All (IsClean json parse) (encode_chunks true cs ending)
    → read_all parse [] (map (frame_text json) (encode_chunks true cs ending))
      ≡ (chunks_shown cs, closed)
read_all-encode_chunks json parse cs ending clean =
    read_all-effects json parse (encode_chunks true cs ending) clean
    ∙ effects-encode_chunks true cs ending
