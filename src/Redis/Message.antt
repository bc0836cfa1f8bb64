-- ===== src/Redis/Message.antt =====
-- crates/lens-proto-redis/src/lib.rs: from a RESP value to a decoded message.
use lens.Prelude.{
  ℕ, zero, suc, ◌+◌, ◌-◌, ◌/◌, ◌%◌, Bool, true, false, not, ◌&&◌, ◌||◌, List, [], ◌∷◌, ◌++◌, Option,
  none, some, ltb, leb, ◌==◌, if◌then◌else◌, length, take, min, filter_map,
}
use lens.Core.{Direction, client_to_server, server_to_client, saturating_add}
use lens.Protocol.{DecodedMessage, Headers}
use lens.Redis.Value.{
  RespValue, Values, nil, cons, to_list, count, simple, error, integer, bulk, array, array_null,
  null, boolean, double, big_number, bulk_error, verbatim, map, set, push, attribute, inline,
}
use lens.Text.{Bytes, str, eq_bytes, join, to_ascii_uppercase}
use lens.Text.Number.{show}
use lens.Text.Utf8.{from_utf8_lossy, is_char_boundary}
use mathlib.Core.List

-- `{:x}` of a number below 16
abbrev hex_digit : ℕ → ℕ
hex_digit n = if ltb n 10 then b'0' + n else b'a' + (n - 10)

unfoldable pub render_byte : ℕ → Bytes
render_byte byte =
    if leb b' ' byte && leb byte b'~' && not (byte == b'\\')
    then byte ∷ []
    else if byte == b'\\'
    then b'\\' ∷ b'\\' ∷ []
    else if byte == b'\n'
    then b'\\' ∷ b'n' ∷ []
    else if byte == b'\r'
    then b'\\' ∷ b'r' ∷ []
    else if byte == b'\t'
    then b'\\' ∷ b't' ∷ []
    else b'\\' ∷ b'x' ∷ hex_digit (byte / 16) ∷ hex_digit (byte % 16) ∷ []

unfoldable pub render_bytes : Bytes → Bytes
unfolding render_byte
render_bytes [] = []
render_bytes (byte ∷ rest) = render_byte byte ++ render_bytes rest

abbrev pub bool_text : Bool → Bytes
bool_text true = str "true"
bool_text false = str "false"

unfoldable mutual
  unfolding render_bytes

  pub render_value : RespValue → Bytes
  render_value (simple value) = render_bytes value
  render_value (error value) = render_bytes value
  render_value (integer value) = render_bytes value
  render_value (bulk (some value)) = render_bytes value
  render_value (bulk none) = str "null"
  render_value (array values) = str "[" ++ (join (str ", ") (render_values values) ++ str "]")
  render_value array_null = str "null"
  render_value null = str "null"
  render_value (boolean value) = bool_text value
  render_value (double value) = render_bytes value
  render_value (big_number value) = render_bytes value
  render_value (bulk_error value) = render_bytes value
  render_value (verbatim value) = render_bytes value
  render_value (map values) = str "[" ++ (join (str ", ") (render_values values) ++ str "]")
  render_value (set values) = str "[" ++ (join (str ", ") (render_values values) ++ str "]")
  render_value (push values) = str "[" ++ (join (str ", ") (render_values values) ++ str "]")
  render_value (attribute values) = str "[" ++ (join (str ", ") (render_values values) ++ str "]")
  render_value (inline values) = join (str " ") (List.map render_bytes values)

  pub render_values : Values → List Bytes
  render_values nil = []
  render_values (cons value values) = render_value value ∷ render_values values

-- `value[..end]`, where `end` is lowered to a character boundary
unfoldable pub boundary_below : Bytes → ℕ → ℕ
unfolding is_char_boundary
boundary_below value zero = zero
boundary_below value (suc end) =
    let lower = boundary_below value end in
    if is_char_boundary value (suc end) then suc end else lower

unfoldable pub truncate_utf8 : Bytes → ℕ → Bytes
unfolding boundary_below
truncate_utf8 value max_len =
    if leb (length value) max_len then value else take (boundary_below value max_len) value

unfoldable pub scalar_bytes : RespValue → Option Bytes
scalar_bytes (simple value) = some value
scalar_bytes (error value) = some value
scalar_bytes (integer value) = some value
scalar_bytes (bulk (some value)) = some value
scalar_bytes (double value) = some value
scalar_bytes (big_number value) = some value
scalar_bytes (bulk_error value) = some value
scalar_bytes (verbatim value) = some value
scalar_bytes _ = none

unfoldable pub response_summary : RespValue → Bytes × Bytes
response_summary (simple value) = (str "simple-string", str "Redis " ++ render_bytes value)
response_summary (error value) = (str "error", str "Redis error " ++ render_bytes value)
response_summary (integer value) = (str "integer", str "Redis integer " ++ render_bytes value)
response_summary (bulk (some value)) =
    (str "bulk-string", str "Redis bulk " ++ (show (length value) ++ str " bytes"))
response_summary (bulk none) = (str "null", str "Redis null")
response_summary null = (str "null", str "Redis null")
response_summary (array values) =
    (str "array", str "Redis array " ++ (show (count values) ++ str " items"))
response_summary array_null = (str "null", str "Redis null array")
response_summary (boolean value) = (str "boolean", str "Redis boolean " ++ bool_text value)
response_summary (double value) = (str "double", str "Redis double " ++ render_bytes value)
response_summary (big_number value) =
    (str "big-number", str "Redis big number " ++ render_bytes value)
response_summary (bulk_error value) =
    (str "bulk-error", str "Redis bulk error " ++ (show (length value) ++ str " bytes"))
response_summary (verbatim value) =
    (str "verbatim", str "Redis verbatim " ++ (show (length value) ++ str " bytes"))
response_summary (map values) =
    (str "map", str "Redis map " ++ (show (count values / 2) ++ str " pairs"))
response_summary (set values) =
    (str "set", str "Redis set " ++ (show (count values) ++ str " items"))
response_summary (push values) =
    (str "push", str "Redis push " ++ (show (count values) ++ str " items"))
response_summary (attribute values) =
    (str "attribute", str "Redis attribute " ++ (show (count values / 2) ++ str " pairs"))
response_summary (inline values) =
    (str "inline", str "Redis inline " ++ (show (length values) ++ str " items"))

-- `matches!(value, RespValue::Push(_))`
abbrev pub is_push : RespValue → Bool
is_push (push values) = true
is_push _ = false

unfoldable pub response_message : RespValue → ℕ → DecodedMessage
unfolding response_summary render_value
response_message value max_body =
    let rendered = render_value value in
    let headers =
      (str "lens-protocol", str "redis")
      ∷ (str "redis-kind", (response_summary value).0)
      ∷ (str "lens-content", str "redis-value")
      ∷ [] in
    record {
      direction = server_to_client;
      start_line = (response_summary value).1;
      headers =
          if not (is_push value)
          then headers ++ (str "lens-boundary", str "response") ∷ []
          else headers;
      body = take (min (length rendered) max_body) rendered;
      truncated = ltb max_body (length rendered);
    }

unfoldable pub request_arguments : RespValue → List Bytes
unfolding scalar_bytes
request_arguments (array values) = filter_map scalar_bytes (to_list values)
request_arguments (inline values) = values
request_arguments _ = []

-- The loop over `arguments.iter().skip(1)`, on `retained`, `truncated` and `headers`.
unfoldable pub capture_arguments : ℕ → List Bytes → ℕ → Bool → Headers → Headers × Bool
unfolding truncate_utf8 render_bytes saturating_add
capture_arguments max_body [] retained truncated headers = (headers, truncated)
capture_arguments max_body (argument ∷ arguments) retained truncated headers =
    let rendered = render_bytes argument in
    let captured = truncate_utf8 rendered (max_body - retained) in
    capture_arguments max_body arguments (saturating_add retained (length captured))
      (truncated || ltb (length captured) (length rendered))
      (headers ++ (str "redis-arg", captured) ∷ [])

-- The values of the `redis-arg` headers, in order.
unfoldable pub argument_values : Headers → List Bytes
unfolding eq_bytes
argument_values [] = []
argument_values ((name, value) ∷ headers) =
    if eq_bytes name (str "redis-arg")
    then value ∷ argument_values headers
    else argument_values headers

abbrev summary_of : Bytes → List Bytes → Bytes
summary_of command [] = str "Redis " ++ command
summary_of command (a ∷ rest) = str "Redis " ++ (command ++ (str " " ++ join (str " ") (a ∷ rest)))

unfoldable pub redis_request_summary : Bytes → Headers → Bytes
unfolding argument_values
redis_request_summary command headers = summary_of command (argument_values headers)

abbrev pub command_of : List Bytes → Bytes
command_of [] = str "UNKNOWN"
command_of (first ∷ rest) = to_ascii_uppercase (from_utf8_lossy first)

abbrev pub skip_first : List Bytes → List Bytes
skip_first [] = []
skip_first (first ∷ rest) = rest

abbrev pub request_headers : Bytes → Headers
request_headers command =
    (str "lens-protocol", str "redis")
    ∷ (str "lens-boundary", str "request")
    ∷ (str "redis-command", command)
    ∷ []

unfoldable pub request_message : RespValue → ℕ → DecodedMessage
unfolding request_arguments capture_arguments redis_request_summary
request_message value max_body =
    let arguments = request_arguments value in
    let command = command_of arguments in
    let (headers, truncated) =
      capture_arguments max_body (skip_first arguments) 0 false (request_headers command) in
    record {
      direction = client_to_server;
      start_line = redis_request_summary command headers;
      headers = headers;
      body = [];
      truncated = truncated;
    }

unfoldable pub to_message : Direction → RespValue → ℕ → DecodedMessage
unfolding request_message response_message
to_message client_to_server value max_body = request_message value max_body
to_message server_to_client value max_body = response_message value max_body
