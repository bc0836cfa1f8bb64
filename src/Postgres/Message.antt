-- ===== src/Postgres/Message.antt =====
-- crates/lens-proto-postgres/src/lib.rs: what a frame is shown as.
use lens.Core.{Direction, client_to_server}
use lens.Postgres.Wire.{from_be_bytes, be16, be32, take_cstring, first_cstring, cstrings}
use lens.Prelude.{
  ℕ, ◌+◌, ◌*◌, ◌/◌, ◌%◌, Bool, false, not, List, [], ◌∷◌, ◌++◌, String, ltb, ◌==◌, if◌then◌else◌,
  length, take, drop, any,
}
use lens.Protocol.{DecodedMessage, Headers}
use lens.Text.{Bytes, str, eq_bytes, to_ascii_lowercase}
use lens.Text.Number.{show, hex_digit}
use lens.Text.Result.{Result, ok, ◌>>=◌, ◌>>◌, refuse_if}
use lens.Text.Utf8.{from_utf8_lossy}

abbrev pub message : Direction → Bytes → DecodedMessage
message direction start_line = record {
  direction = direction;
  start_line = start_line;
  headers = (str "lens-protocol", str "postgres") ∷ [];
  body = [];
  truncated = false;
}

-- `message.headers.push((name, value))`
abbrev pub push_header : DecodedMessage → Bytes → Bytes → DecodedMessage
push_header m name value = record m { headers = m.headers ++ (name, value) ∷ [] }

abbrev pub with_kind : DecodedMessage → String → DecodedMessage
with_kind m kind = push_header m (str "lens-kind") (str kind)

abbrev pub with_boundary : DecodedMessage → String → DecodedMessage
with_boundary m boundary = push_header m (str "lens-boundary") (str boundary)

-- A message with a fixed line.
abbrev pub fixed : Direction → String → String → DecodedMessage
fixed direction line kind = with_kind (message direction (str line)) kind

unfoldable pub is_startup_secret : Bytes → Bool
unfolding eq_bytes to_ascii_lowercase str
is_startup_secret name = any (eq_bytes (to_ascii_lowercase name)) (
    str "password"
    ∷ str "passfile"
    ∷ str "sslpassword"
    ∷ str "token"
    ∷ str "secret"
    ∷ str "options"
    ∷ [])

-- A parameter's name and value, as they are shown.
unfoldable pub parameter : Bytes → Bytes → Bytes × Bytes
unfolding is_startup_secret from_utf8_lossy
parameter name value = (
  from_utf8_lossy name,
  if is_startup_secret (from_utf8_lossy name) then str "[REDACTED]" else from_utf8_lossy value,
)

-- `chunks_exact(2)`
unfoldable pub parameters : List Bytes → Headers
unfolding parameter
parameters (name ∷ value ∷ fields) = parameter name value ∷ parameters fields
parameters _ = []

abbrev pub version_text : ℕ → Bytes
version_text version = show (version / 65536) ++ (str "." ++ show (version % 65536))

unfoldable pub startup_message : ℕ → Bytes → Result DecodedMessage
unfolding cstrings parameters
startup_message version payload = do
  refuse_if (not (version / 65536 == 3))
      (str "unsupported PostgreSQL protocol version " ++ version_text version)
  fields ← cstrings payload
  refuse_if (not (length fields % 2 == 0))
      (str "PostgreSQL startup parameters are not key/value pairs")
  let m =
      with_kind (message client_to_server (str "StartupMessage protocol=" ++ version_text version))
        "startup"
  ok (record m { headers = m.headers ++ parameters fields })

-- `capture`, of a message with an empty body
abbrev pub capture : DecodedMessage → Bytes → ℕ → DecodedMessage
capture m bytes max_body = record m {
  body = m.body ++ take max_body bytes;
  truncated = ltb max_body (length bytes);
}

unfoldable pub display_name : Bytes → Bytes
unfolding from_utf8_lossy
display_name [] = str "<unnamed>"
display_name (b ∷ bs) = from_utf8_lossy (b ∷ bs)

-- `{tag:02x}`
abbrev pub hex_byte : ℕ → Bytes
hex_byte tag = hex_digit (tag / 16) ∷ hex_digit (tag % 16) ∷ []

-- An SQL text, in the body.
abbrev pub sql : DecodedMessage → Bytes → ℕ → DecodedMessage
sql m text max_body = push_header (capture m text max_body) (str "lens-content") (str "sql")

unfoldable pub query : Bytes → ℕ → Result DecodedMessage
unfolding first_cstring
query payload max_body = do
  text ← first_cstring payload
  ok (sql (with_boundary (fixed client_to_server "Query" "query") "request") text max_body)

unfoldable pub parse : Bytes → ℕ → Result DecodedMessage
unfolding take_cstring display_name
parse payload max_body = do
  (name, rest) ← take_cstring payload
  (text, rest') ← take_cstring rest
  ok (
      sql
        (with_kind (message client_to_server (str "Parse statement=" ++ display_name name)) "parse")
        text max_body)

abbrev pub bind_line : Bytes → Bytes → ℕ → Bytes
bind_line portal statement parameter_count =
    str "Bind portal="
    ++ (display_name portal
        ++ (str " statement="
            ++ (display_name statement
                ++ (str " parameters=" ++ (show parameter_count ++ str " (values omitted)")))))

-- The counts behind the names. The number of formats is a u16, so the checked arithmetic on it does
-- not overflow.
unfoldable pub bind_counts : Bytes → Bytes → Bytes → Result DecodedMessage
unfolding display_name from_be_bytes
bind_counts portal statement rest = do
  refuse_if (ltb (length rest) 2) (str "truncated PostgreSQL Bind message")
  let formats_bytes = be16 rest * 2 + 2
  refuse_if (ltb (length rest) (formats_bytes + 2)) (str "truncated PostgreSQL Bind formats")
  let parameter_count = be16 (drop formats_bytes rest)
  ok (with_kind (message client_to_server (bind_line portal statement parameter_count)) "bind")

unfoldable pub bind : Bytes → Result DecodedMessage
unfolding take_cstring bind_counts
bind payload = do
  (portal, rest) ← take_cstring payload
  (statement, rest') ← take_cstring rest
  bind_counts portal statement rest'

unfoldable pub execute : Bytes → Result DecodedMessage
unfolding take_cstring display_name from_be_bytes
execute payload = do
  (portal, rest) ← take_cstring payload
  refuse_if (not (length rest == 4)) (str "invalid PostgreSQL Execute message")
  let line =
      str "Execute portal=" ++ (display_name portal ++ (str " max_rows=" ++ show (be32 rest)))
  ok (with_boundary (with_kind (message client_to_server line) "execute") "request")

-- A message of another tag, by its length only.
abbrev pub unknown : Direction → Bytes → ℕ → ℕ → DecodedMessage
unknown direction title tag len =
    with_kind
      (message direction
        (title ++ (str " tag=0x" ++ (hex_byte tag ++ (str " bytes=" ++ show len)))))
      "unknown"

-- The arms of which the payload matters by its length only.
unfoldable pub frontend_line : ℕ → ℕ → DecodedMessage
frontend_line tag len =
    if tag == b'p'
    then fixed client_to_server "AuthenticationResponse (credentials omitted)"
        "authentication-response"
    else if tag == b'C'
    then fixed client_to_server "Close" "close"
    else if tag == b'D'
    then fixed client_to_server "Describe" "describe"
    else if tag == b'F'
    then fixed client_to_server "FunctionCall (arguments omitted)" "function-call"
    else if tag == b'd'
    then fixed client_to_server "CopyData (payload omitted)" "copy-data"
    else if tag == b'c'
    then fixed client_to_server "CopyDone" "copy-done"
    else if tag == b'f'
    then fixed client_to_server "CopyFail (detail omitted)" "copy-fail"
    else if tag == b'H'
    then fixed client_to_server "Flush" "flush"
    else if tag == b'S'
    then fixed client_to_server "Sync" "sync"
    else if tag == b'X'
    then fixed client_to_server "Terminate" "terminate"
    else unknown client_to_server (str "FrontendMessage") tag len

unfoldable pub frontend : ℕ → Bytes → ℕ → Result DecodedMessage
unfolding query parse bind execute frontend_line
frontend tag payload max_body =
    if tag == b'Q'
    then query payload max_body
    else if tag == b'P'
    then parse payload max_body
    else if tag == b'B'
    then bind payload
    else if tag == b'E'
    then execute payload
    else ok (frontend_line tag (length payload))

abbrev pub wire_bytes : Bytes → DecodedMessage → Result DecodedMessage
wire_bytes payload m = ok (push_header m (str "wire-bytes") (show (length payload + 5)))

unfoldable pub decode_frontend : ℕ → Bytes → ℕ → Result DecodedMessage
unfolding frontend
decode_frontend tag payload max_body = do m ← frontend tag payload max_body; wire_bytes payload m
