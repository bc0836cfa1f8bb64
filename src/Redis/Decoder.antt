-- ===== src/Redis/Decoder.antt =====
-- crates/lens-proto-redis/src/lib.rs: `RedisDecoder`.
use lens.Prelude.{ℕ, zero, suc, ◌*◌, [], ◌∷◌, ◌++◌, some, ltb, if◌then◌else◌, length, drop}
use lens.Core.{Direction, client_to_server, server_to_client, saturating_add}
use lens.Protocol.{DecodeBatch, need_more, push_message, StreamingDecoder}
use lens.Redis.Message.{to_message}
use lens.Redis.Parse.{parse_value}
use lens.Redis.Value.{Parse}
use lens.Text.{Bytes, str}

abbrev pub frame_overhead_budget : ℕ
frame_overhead_budget = 64 * 1024

pub record RedisDecoder : Type 0 where
  pub client : Bytes
  pub server : Bytes
  pub max_body : ℕ

abbrev pub new : ℕ → RedisDecoder
new max_body = record { client = []; server = []; max_body = max_body }

-- `state_mut`, to read and to write
abbrev pub state : RedisDecoder → Direction → Bytes
state d client_to_server = d.client
state d server_to_client = d.server

abbrev pub set_state : RedisDecoder → Direction → Bytes → RedisDecoder
set_state d client_to_server buffer = record d { client = buffer }
set_state d server_to_client buffer = record d { server = buffer }

abbrev pub desynchronize : DecodeBatch → Bytes → DecodeBatch
desynchronize batch reason = record batch { desynchronized = some reason }

-- The branch `Parse::Incomplete` of the loop.
unfoldable pub wait_for_more : ℕ → Bytes → DecodeBatch → Bytes × DecodeBatch
unfolding saturating_add
wait_for_more max_body buffer batch =
    if ltb (saturating_add max_body frame_overhead_budget) (length buffer)
    then ([], desynchronize batch (str "Redis frame exceeded the bounded observation buffer"))
    else (buffer, batch)

-- The loop of `decode_available`. A round drains at least a byte, so more rounds than the buffer
-- has bytes are enough.
unfoldable pub decode_loop : ℕ → Direction → ℕ → Bytes → DecodeBatch → Bytes × DecodeBatch
unfolding wait_for_more
decode_loop zero direction max_body buffer batch = (buffer, batch)
decode_loop (suc fuel) direction max_body [] batch = ([], batch)
decode_loop (suc fuel) direction max_body (byte ∷ rest) batch = elim (parse_value (byte ∷ rest) 0) [
  | Parse.complete value consumed ↦
      decode_loop fuel direction max_body (drop consumed (byte ∷ rest))
        (push_message batch (to_message direction value max_body))
  | Parse.incomplete ↦ wait_for_more max_body (byte ∷ rest) batch
  | Parse.invalid reason ↦ ([], desynchronize batch reason)
]

unfoldable pub decode_available : RedisDecoder → Direction → RedisDecoder × DecodeBatch
unfolding decode_loop
decode_available d direction =
    let buffer = state d direction in
    let (buffer', batch) =
      decode_loop (suc (length buffer)) direction d.max_body buffer need_more in
    (set_state d direction buffer', batch)

unfoldable pub push : RedisDecoder → Direction → Bytes → RedisDecoder × DecodeBatch
unfolding decode_available
push d direction bytes =
    decode_available (set_state d direction (state d direction ++ bytes)) direction

abbrev pub flush : RedisDecoder × DecodeBatch → Direction → Bytes → RedisDecoder × DecodeBatch
flush r direction [] = r
flush (d, batch) direction (byte ∷ rest) =
    (set_state d direction [], desynchronize batch (str "Redis stream ended inside a RESP frame"))

unfoldable pub finish : RedisDecoder → Direction → RedisDecoder × DecodeBatch
unfolding decode_available
finish d direction = let r = decode_available d direction in flush r direction (state r.0 direction)

abbrev pub redis_decoder : StreamingDecoder RedisDecoder
redis_decoder = record { protocol = str "redis"; push = push; finish = finish }
