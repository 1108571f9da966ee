-- ===== src/Sidecar.antt =====
-- The client of server/sidecar.ts: lines from the child's output, and the calls that wait for a
-- reply. `parse` is `JSON.parse` of a line, with `none` where it throws.
pub mod Framing
use ob2_turbo_quant.Common.{
  ℕ, suc, Bool, true, false, Option, none, some, List, [], ◌∷◌, ◌++◌, ◌==◌, if◌then◌else◌, Text,
  is_empty, trim, nat_eq, codes,
}
use ob2_turbo_quant.Common.JsMap
use ob2_turbo_quant.Common.JsMap.{JsMap}

-- What a reply says.
pub data Reply : Type 0 where
  result : Text → Reply
  rpc_error : Text → Text → Reply

pub record RpcResponse : Type 0 where
  pub id : ℕ
  pub reply : Reply

-- A call with what its promise came to.
pub data Settled : Type 0 where
  resolved : ℕ → Text → Settled
  rejected : ℕ → Text → Settled

-- `pending` maps the id of each call that waits to its method. `settled` lists the promises that
-- came to an end, the last one first.
pub record Client : Type 0 where
  pub is_started : Bool
  pub next_id : ℕ
  pub pending : JsMap ℕ Text
  pub settled : List Settled
  pub buf : Text

-- The complete lines of `buf`, and the rest of it: the inner loop of `readLoop`, with the line read
-- so far.
unfoldable pub take_lines : Text → Text → List Text × Text
take_lines line [] = ([], line)
take_lines line (c ∷ s) =
    let (closed, left) = take_lines [] s in
    let longer = take_lines (line ++ (c ∷ [])) s in
    if c == 10 then (line ∷ closed, left) else longer

abbrev pub settle : ℕ → Reply → Settled
settle id (result value) = resolved id value
settle id (rpc_error code message) =
    rejected id (codes "sidecar rpc " ++ (code ++ (codes ": " ++ message)))

unfoldable pub handle_reply : RpcResponse → Client → Client
handle_reply msg cl = elim (JsMap.get msg.id cl.pending) [
  | none ↦ cl
  | some waiting ↦ record cl {
    pending = JsMap.delete msg.id cl.pending;
    settled = settle msg.id msg.reply ∷ cl.settled;
  }
]

module _ (parse : Text → Option RpcResponse) where
  unfoldable pub handle_line : Text → Client → Client
  handle_line line cl = elim (parse line) [ none ↦ cl | some msg ↦ handle_reply msg cl ]

  -- A line without its white space; a blank one is passed over.
  unfoldable pub trim_and_handle : Text → Client → Client
  trim_and_handle l cl = if is_empty (trim l) then cl else handle_line (trim l) cl

  unfoldable pub handle_lines : List Text → Client → Client
  handle_lines [] cl = cl
  handle_lines (l ∷ ls) cl = handle_lines ls (trim_and_handle l cl)

  -- A round of `readLoop`.
  unfoldable pub read_chunk : Text → Client → Client
  read_chunk chunk cl =
      let (lines, left) = take_lines [] (cl.buf ++ chunk) in
      handle_lines lines (record cl { buf = left })

-- `call`, up to the write of the request: the id it has, or `none` where the sidecar is not started.
unfoldable pub call : Text → Client → Option ℕ × Client
call method cl =
    if cl.is_started
    then (
      some cl.next_id,
      record cl { next_id = suc cl.next_id; pending = JsMap.set cl.next_id method cl.pending },
    )
    else (none, cl)

-- The write of the request `id` has failed with `message`; a promise that has come to an end stays
-- as it is.
unfoldable pub write_failed : ℕ → Text → Client → Client
write_failed id message cl = elim (JsMap.get id cl.pending) [
  | none ↦ cl
  | some waiting ↦ record cl {
    pending = JsMap.delete id cl.pending;
    settled = rejected id message ∷ cl.settled;
  }
]
