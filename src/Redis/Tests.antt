-- ===== src/Redis/Tests.antt =====
-- Runs of the decoder, after the tests of crates/lens-proto-redis/src/lib.rs.
use lens.Core.{client_to_server, server_to_client}
use lens.Prelude.{◌≡◌, refl, [], ◌∷◌, ◌++◌, map, List}
use lens.Protocol.{DecodeBatch, summary}
use lens.Redis.Decoder
use lens.Redis.Decoder.{RedisDecoder}
use lens.Redis.Message.{to_message}
use lens.Redis.Parse.{parse_value}
use lens.Text.{Bytes, str, join, to_ascii_uppercase}
use lens.Text.Number.{show}
use lens.Text.Utf8.{from_utf8_lossy}
use mathlib.Core.List
use mathlib.Core.Option

-- What the runs compute with.
unfoldable pub program : Unit {0}
unfolding Decoder.push parse_value to_message str to_ascii_uppercase show from_utf8_lossy
    Option.bind List.filter_map join
program = tt

abbrev pub get_command : Bytes
get_command = str "*2\r\n$3\r\nGET\r\n$9\r\nsession:1\r\n"

abbrev summaries : DecodeBatch → List Bytes
summaries b = map summary b.messages

pipelined :
    summaries (Decoder.push (Decoder.new 1024) client_to_server (get_command ++ get_command)).1
    ≡ str "Redis GET session:1" ∷ str "Redis GET session:1" ∷ []
unfolding program
pipelined = refl

push_frame :
    summaries
      (Decoder.push
        (Decoder.new 1024)
        server_to_client
        (str ">3\r\n+message\r\n+channel\r\n+payload\r\n")).1
    ≡ str "Redis push 3 items" ∷ []
unfolding program
push_frame = refl
