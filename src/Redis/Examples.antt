-- ===== src/Redis/Examples.antt =====
-- The properties of the Redis decoder at concrete inputs.
use lens.Core.{client_to_server, server_to_client}
use lens.Prelude.{
  ◌≡◌, ◌≢◌, refl, [], ◌∷◌, ◌++◌, map, none, some, List, ◌<◌, ◌≤◌, ◌⊎◌, true, false, length, take,
  flatten, arith,
}
use lens.Redis.Bounds.{Within, parse_value-Within}
use lens.Redis.Capture.{total, rendered_arguments, request_message-Captured, response_message_body}
use lens.Redis.Commands.{
  IsCommand, encode_pipeline, decoded, parse_value-encode_command, push-encode_pipeline,
}
use lens.Redis.Decoder
use lens.Redis.Decoder.{RedisDecoder, state}
use lens.Redis.Extend.{parse_value-append}
use lens.Protocol.{prepend}
use lens.Redis.Fragments.{push_all, push-push, push_all-flatten}
use lens.Redis.Limits.{Settled, Cleared, ended_inside, push-Settled, finish_lem}
use lens.Redis.Message.{argument_values, request_message, response_message, render_value}
use lens.Redis.Parse.{parse_value}
use lens.Redis.RoundTrip.{encode_command, bulks}
use lens.Redis.Tests.{program, get_command}
use lens.Redis.Value.{RespValue, Parse, array, inline, bulk}
use lens.Text.{Bytes, str}

abbrev fresh : RedisDecoder
fresh = Decoder.new 64

abbrev half : Bytes
half = str "*2\r\n$3\r\nGET\r\n$9\r\nsess"

abbrev other_half : Bytes
other_half = str "ion:1\r\n"

parse_value-Within_example : Within get_command (parse_value get_command 0)
parse_value-Within_example = parse_value-Within get_command 0

parse_value-append_example : parse_value (get_command ++ half) 0 ≡ parse_value get_command 0
parse_value-append_example = parse_value-append get_command half 0 (unfold program in λ e. cc e)

push-push_example : Decoder.push fresh client_to_server (half ++ other_half) ≡ (
  (Decoder.push (Decoder.push fresh client_to_server half).0 client_to_server other_half).0,
  prepend
      (Decoder.push fresh client_to_server half).1.messages
      (Decoder.push (Decoder.push fresh client_to_server half).0 client_to_server other_half).1,
)
push-push_example = push-push fresh client_to_server half other_half (unfold program in refl)

push_all-flatten_example :
    push_all client_to_server fresh half (other_half ∷ [])
    ≡ Decoder.push fresh client_to_server (half ++ flatten (other_half ∷ []))
push_all-flatten_example =
    push_all-flatten client_to_server fresh half (other_half ∷ []) (unfold program in (refl, tt))

push-Settled_example :
    let (d', batch) = Decoder.push fresh server_to_client half in
    Settled 64 (state d' server_to_client)
    × Cleared batch (state d' server_to_client)
    × (state d' client_to_server ≡ [])
    × (d'.max_body ≡ 64)
push-Settled_example = push-Settled fresh server_to_client half

finish_lem_example :
    let (d', batch) = Decoder.finish (record fresh { client = half }) client_to_server in
    let (waiting, flushed) = Decoder.push (record fresh { client = half }) client_to_server [] in
    (state d' client_to_server ≡ [])
    × (state d' server_to_client ≡ [])
    × (batch.messages ≡ flushed.messages)
    × (((state waiting client_to_server ≡ []) × (batch.desynchronized ≡ flushed.desynchronized))
        ⊎ ((state waiting client_to_server ≢ []) × (batch.desynchronized ≡ some ended_inside)))
finish_lem_example = finish_lem (record fresh { client = half }) client_to_server

abbrev get_words : List Bytes
get_words = str "GET" ∷ str "session:1" ∷ []

get_words-IsCommand : IsCommand get_words
unfolding program encode_command
get_words-IsCommand = omega arith

parse_value-encode_command_example :
    parse_value (encode_command get_words ++ half) 0
    ≡ Parse.complete (array (bulks get_words)) (length (encode_command get_words))
parse_value-encode_command_example =
    parse_value-encode_command get_words half get_words-IsCommand.0 get_words-IsCommand.1

push-encode_pipeline_example :
    Decoder.push fresh client_to_server (encode_pipeline (get_words ∷ get_words ∷ [])) ≡ (
      fresh,
      record { messages = map (decoded 64) (get_words ∷ get_words ∷ []); desynchronized = none },
    )
push-encode_pipeline_example =
    push-encode_pipeline 64 (get_words ∷ get_words ∷ [])
      (get_words-IsCommand, (get_words-IsCommand, tt))

abbrev set_words : RespValue
set_words = inline (str "SET" ∷ str "key" ∷ str "a\nlong value" ∷ [])

request_message-Captured_example :
    let m = request_message set_words 8 in
    (total (argument_values m.headers) ≤ 8)
    × (((m.truncated ≡ false) × (argument_values m.headers ≡ rendered_arguments set_words))
        ⊎ ((m.truncated ≡ true)
            × (total (argument_values m.headers) < total (rendered_arguments set_words))))
request_message-Captured_example = request_message-Captured set_words 8 (omega arith)

response_message_body_example :
    let m = response_message (bulk (some (str "abcdefgh"))) 4 in
    let text = render_value (bulk (some (str "abcdefgh"))) in
    ((m.truncated ≡ false) × (m.body ≡ text) × (length m.body ≤ 4))
    ⊎ ((m.truncated ≡ true) × (m.body ≡ take 4 text) × (length m.body ≡ 4) × (4 < length text))
response_message_body_example = response_message_body (bulk (some (str "abcdefgh"))) 4
