-- ===== src/Sidecar/Framing.antt =====
-- How the output is cut into chunks does not matter.
use ob2_turbo_quant.Common.{
  ℕ, ◌≡◌, refl, false, Option, List, [], ◌∷◌, ◌++◌, ◌==◌, Text, is_empty, trim, append_assoc,
  append-nil, Lacks, Option-cases, nat_eq, Bool-cases, inl, inr, ap, ◌∙◌, sym,
}
use ob2_turbo_quant.Common.JsMap
use ob2_turbo_quant.Sidecar.{
  Client, RpcResponse, take_lines, handle_reply, handle_line, trim_and_handle, handle_lines,
  read_chunk,
}

take_lines-append :
    (line a b : Text)
    → take_lines line (a ++ b) ≡ (
      (take_lines line a).0 ++ (take_lines (take_lines line a).1 b).0,
      (take_lines (take_lines line a).1 b).1,
    )
unfolding take_lines
take_lines-append line [] b = refl
take_lines-append line (c ∷ a) b = elim (Bool-cases (c == 10)) [
  | inl ends ↦ rw ends (rw (take_lines-append [] a b) refl)
  | inr goes ↦ rw goes (take_lines-append (line ++ (c ∷ [])) a b)
]

Lacks-append :
    (line : Text) (c : ℕ) → Lacks 10 line → (c == 10) ≡ false → Lacks 10 (line ++ (c ∷ []))
Lacks-append [] c h goes = (goes, tt)
Lacks-append (d ∷ line) c (own, h) goes = (own, Lacks-append line c h goes)

take_lines-Lacks : (line s : Text) → Lacks 10 line → Lacks 10 (take_lines line s).1
unfolding take_lines
take_lines-Lacks line [] h = h
take_lines-Lacks line (c ∷ s) h = elim (Bool-cases (c == 10)) [
  | inl ends ↦ rw ends (take_lines-Lacks [] s tt)
  | inr goes ↦ rw goes (take_lines-Lacks (line ++ (c ∷ [])) s (Lacks-append line c h goes))
]

-- A text without a line's end is the line read so far.
take_lines_started :
    (line rest s : Text) → Lacks 10 rest → take_lines line (rest ++ s) ≡ take_lines (line ++ rest) s
unfolding take_lines
take_lines_started line [] s h = ap (λ l. take_lines l s) (sym (append-nil line))
take_lines_started line (c ∷ rest) s (goes, h) = rw goes (
    take_lines_started (line ++ (c ∷ [])) rest s h
    ∙ ap (λ l. take_lines l s) (append_assoc line (c ∷ []) rest))

module _ (parse : Text → Option RpcResponse) where
  handle_lines-append :
      (ls ms : List Text) (cl : Client)
      → handle_lines parse (ls ++ ms) cl ≡ handle_lines parse ms (handle_lines parse ls cl)
  unfolding handle_lines
  handle_lines-append [] ms cl = refl
  handle_lines-append (l ∷ ls) ms cl = handle_lines-append ls ms (trim_and_handle parse l cl)

  handle_line-buf :
      (line buf : Text) (cl : Client)
      → handle_line parse line (record cl { buf = buf })
        ≡ record (handle_line parse line cl) { buf = buf }
  unfolding handle_line handle_reply
  handle_line-buf line buf cl = elim (Option-cases (parse line)) [
    | inl skipped ↦ rw (handle_line, skipped) refl
    | inr (msg, read) ↦ elim (Option-cases (JsMap.get msg.id cl.pending)) [
      | inl unknown ↦ rw (handle_line, read, handle_reply, unknown) refl
      | inr (waiting, found) ↦ rw (handle_line, read, handle_reply, found) refl
    ]
  ]

  trim_and_handle-buf :
      (l buf : Text) (cl : Client)
      → trim_and_handle parse l (record cl { buf = buf })
        ≡ record (trim_and_handle parse l cl) { buf = buf }
  unfolding trim_and_handle
  trim_and_handle-buf l buf cl = elim (Bool-cases (is_empty (trim l))) [
    | inl blank ↦ rw (trim_and_handle, blank) refl
    | inr full ↦ rw (trim_and_handle, full) (handle_line-buf (trim l) buf cl)
  ]

  handle_lines-buf :
      (ls : List Text) (buf : Text) (cl : Client)
      → handle_lines parse ls (record cl { buf = buf })
        ≡ record (handle_lines parse ls cl) { buf = buf }
  unfolding handle_lines
  handle_lines-buf [] buf cl = refl
  handle_lines-buf (l ∷ ls) buf cl =
      ap (handle_lines parse ls) (trim_and_handle-buf l buf cl)
      ∙ handle_lines-buf ls buf (trim_and_handle parse l cl)

  -- Lines to handle and what is left in the buffer.
  abbrev run : List Text × Text → Client → Client
  run p cl = handle_lines parse p.0 (record cl { buf = p.1 })

  run-append :
      (ls ms : List Text) (left : Text) (cl : Client)
      → run (ls ++ ms, left) cl ≡ run (ms, left) (handle_lines parse ls cl)
  run-append ls ms left cl =
      handle_lines-append ls ms (record cl { buf = left })
      ∙ ap (handle_lines parse ms) (handle_lines-buf ls left cl)

  -- Reading two chunks one after the other leaves the client as reading them at once does: the same
  -- replies are handled in the same order, and the same text is left over.
  pub read_chunk-append :
      (a b : Text) (cl : Client)
      → read_chunk parse b (read_chunk parse a cl) ≡ read_chunk parse (a ++ b) cl
  unfolding read_chunk
  read_chunk-append a b cl =
      let first = take_lines [] (cl.buf ++ a) in
      let second = take_lines first.1 b in
      let lacks = take_lines-Lacks [] (cl.buf ++ a) tt in
      ap (read_chunk parse b) (handle_lines-buf first.0 first.1 cl)
      ∙ ap (λ p. run p (handle_lines parse first.0 cl)) (take_lines_started [] first.1 b lacks)
      ∙ sym (run-append first.0 second.0 second.1 cl)
      ∙ ap (λ p. run p cl)
          (sym (take_lines-append [] (cl.buf ++ a) b)
            ∙ ap (take_lines []) (append_assoc cl.buf a b))
