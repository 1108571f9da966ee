-- ===== src/Tests/SidecarTests.antt =====
-- server/sidecar.ts at concrete inputs.
use ob2_turbo_quant.Common.{true, ◌≡◌, Option, some, [], ◌∷◌, ◌++◌, Text, codes}
use ob2_turbo_quant.Sidecar.{RpcResponse, Client, result, read_chunk}
use ob2_turbo_quant.Sidecar.Framing.{read_chunk-append}

-- Any line answers call 1.
abbrev test_parse : Text → Option RpcResponse
test_parse line = some (record { id = 1; reply = result line })

abbrev waiting_client : Client
waiting_client = record {
  is_started = true;
  next_id = 2;
  pending = (1, codes "search") ∷ [];
  settled = [];
  buf = [];
}

read_chunk-append_example :
    read_chunk test_parse (codes "b\nc") (read_chunk test_parse (codes "a") waiting_client)
    ≡ read_chunk test_parse (codes "a" ++ codes "b\nc") waiting_client
read_chunk-append_example = read_chunk-append test_parse (codes "a") (codes "b\nc") waiting_client
