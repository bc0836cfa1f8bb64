-- ===== src/Postgres/Backend.antt =====
-- crates/lens-proto-postgres/src/lib.rs: `decode_backend`, and `decode_typed`.
use lens.Core.{Direction, client_to_server, server_to_client}
use lens.Postgres.Message.{
  message, push_header, with_kind, with_boundary, fixed, parameter, unknown, wire_bytes,
  decode_frontend,
}
use lens.Postgres.Wire.{
  from_be_bytes, be16, be32, take_cstring, first_cstring, cstrings, error_fields,
}
use lens.Prelude.{
  ℕ, zero, suc, ◌+◌, ◌/◌, ◌%◌, ◌||◌, List, [], ◌∷◌, ◌++◌, Option, none, some, ltb, ◌==◌,
  if◌then◌else◌, length, take, drop,
}
use lens.Protocol.{DecodedMessage}
use lens.Text.{Bytes, str, join}
use lens.Text.Number.{show}
use lens.Text.Result.{Result, ok, err, ◌>>=◌, ◌>>◌, refuse_if}
use lens.Text.Utf8.{from_utf8_lossy}

unfoldable pub authentication_name : ℕ → Bytes
unfolding str
authentication_name code =
    if code == 0
    then str "Ok"
    else if code == 2
    then str "KerberosV5"
    else if code == 3
    then str "CleartextPassword"
    else if code == 5
    then str "MD5Password"
    else if code == 6
    then str "SCMCredential"
    else if code == 7
    then str "GSS"
    else if code == 8
    then str "GSSContinue"
    else if code == 9
    then str "SSPI"
    else if code == 10
    then str "SASL"
    else if code == 11
    then str "SASLContinue"
    else if code == 12
    then str "SASLFinal"
    else str "Unknown"

unfoldable pub authentication : Bytes → Result DecodedMessage
unfolding authentication_name from_be_bytes
authentication payload = do
  refuse_if (ltb (length payload) 4) (str "truncated PostgreSQL Authentication message")
  let line = str "Authentication " ++ authentication_name (be32 payload)
  ok (with_kind (message server_to_client line) "authentication")

abbrev pub invalid_status : Result DecodedMessage
invalid_status = err (str "invalid PostgreSQL ParameterStatus")

abbrev pub status_message : List Bytes → Result DecodedMessage
status_message (name ∷ value ∷ fields) =
    let m = fixed server_to_client "ParameterStatus" "parameter-status" in
    ok (record m { headers = m.headers ++ parameter name value ∷ [] })
status_message _ = invalid_status

unfoldable pub parameter_status : Bytes → Result DecodedMessage
unfolding cstrings parameter
parameter_status payload = do fields ← cstrings payload; status_message fields

-- The byte as a `char`, in UTF-8.
abbrev pub latin1 : ℕ → Bytes
latin1 c = if ltb c 128 then c ∷ [] else (192 + c / 64) ∷ (128 + c % 64) ∷ []

abbrev pub ready_status : Bytes → ℕ
ready_status [] = b'?'
ready_status (status ∷ bytes) = status

abbrev pub ready : Bytes → DecodedMessage
ready payload =
    with_kind
      (message server_to_client (str "ReadyForQuery status=" ++ latin1 (ready_status payload)))
      "ready"

unfoldable pub command_complete : Bytes → Result DecodedMessage
unfolding first_cstring from_utf8_lossy
command_complete payload = do
  tag ← first_cstring payload
  let line = str "CommandComplete " ++ from_utf8_lossy tag
  ok (with_boundary (with_kind (message server_to_client line) "command-complete") "response")

-- The header of a field of an error, if it is shown.
unfoldable pub field_name : ℕ → Option Bytes
unfolding str
field_name code =
    if code == b'S' || code == b'V'
    then some (str "severity")
    else if code == b'C'
    then some (str "sqlstate")
    else if code == b'M'
    then some (str "message")
    else if code == b'D'
    then some (str "detail")
    else if code == b'H'
    then some (str "hint")
    else if code == b'W'
    then some (str "where")
    else none

abbrev pub add_named : ℕ → DecodedMessage → Bytes → Option Bytes → DecodedMessage
add_named max_body m value none = m
add_named max_body m value (some name) =
    record (push_header m name (from_utf8_lossy (take max_body value))) {
      truncated = m.truncated || ltb max_body (length value);
    }

unfoldable pub add_error_fields : ℕ → DecodedMessage → List (ℕ × Bytes) → DecodedMessage
unfolding field_name from_utf8_lossy
add_error_fields max_body m [] = m
add_error_fields max_body m ((code, value) ∷ fields) =
    add_error_fields max_body (add_named max_body m value (field_name code)) fields

unfoldable pub error_response : Bytes → ℕ → Result DecodedMessage
unfolding error_fields add_error_fields
error_response payload max_body = do
  fields ← error_fields payload
  ok (
      with_boundary
        (add_error_fields max_body (fixed server_to_client "ErrorResponse" "error") fields)
        "response")

unfoldable pub notice_response : Bytes → ℕ → Result DecodedMessage
unfolding error_fields add_error_fields
notice_response payload max_body = do
  fields ← error_fields payload
  ok (add_error_fields max_body (fixed server_to_client "NoticeResponse" "notice") fields)

-- The names of the columns. The source keeps the first 32 of them.
unfoldable pub column_names : ℕ → Bytes → Result (List Bytes)
unfolding take_cstring from_utf8_lossy
column_names zero rest = ok []
column_names (suc columns) rest = do
  (name, after_name) ← take_cstring rest
  refuse_if (ltb (length after_name) 18) (str "truncated PostgreSQL RowDescription field")
  names ← column_names columns (drop 18 after_name)
  ok (from_utf8_lossy name ∷ names)

abbrev pub with_columns : DecodedMessage → List Bytes → DecodedMessage
with_columns m [] = m
with_columns m (name ∷ names) = push_header m (str "columns") (join (str ",") (name ∷ names))

unfoldable pub row_description : Bytes → Result DecodedMessage
unfolding column_names from_be_bytes join
row_description payload = do
  refuse_if (ltb (length payload) 2) (str "truncated PostgreSQL RowDescription")
  let columns = be16 payload
  names ← column_names columns (drop 2 payload)
  let line = str "RowDescription columns=" ++ show columns
  ok (with_columns (with_kind (message server_to_client line) "row-description") (take 32 names))

unfoldable pub data_row : Bytes → Result DecodedMessage
unfolding from_be_bytes
data_row payload = do
  refuse_if (ltb (length payload) 2) (str "truncated PostgreSQL DataRow")
  let line = str "DataRow columns=" ++ (show (be16 payload) ++ str " (values omitted)")
  ok (with_kind (message server_to_client line) "data-row")

-- The arms of which the payload matters by its length only.
unfoldable pub backend_line : ℕ → ℕ → DecodedMessage
backend_line tag len =
    let fixed = fixed server_to_client in
    if tag == b'K'
    then fixed "BackendKeyData (key material omitted)" "backend-key-data"
    else if tag == b'1'
    then fixed "ParseComplete" "parse-complete"
    else if tag == b'2'
    then fixed "BindComplete" "bind-complete"
    else if tag == b'3'
    then fixed "CloseComplete" "close-complete"
    else if tag == b'n'
    then fixed "NoData" "no-data"
    else if tag == b's'
    then with_boundary (fixed "PortalSuspended" "portal-suspended") "response"
    else if tag == b'I'
    then with_boundary (fixed "EmptyQueryResponse" "empty-query") "response"
    else if tag == b'A'
    then fixed "NotificationResponse (payload omitted)" "notification"
    else if tag == b'G' || tag == b'H' || tag == b'W'
    then fixed "CopyResponse" "copy-response"
    else if tag == b'd'
    then fixed "CopyData (payload omitted)" "copy-data"
    else if tag == b'c'
    then with_boundary (fixed "CopyDone" "copy-done") "response"
    else unknown server_to_client (str "BackendMessage") tag len

unfoldable pub backend : ℕ → Bytes → ℕ → Result DecodedMessage
unfolding authentication parameter_status command_complete error_response notice_response
    row_description data_row backend_line
backend tag payload max_body =
    if tag == b'R'
    then authentication payload
    else if tag == b'S'
    then parameter_status payload
    else if tag == b'Z'
    then ok (ready payload)
    else if tag == b'C'
    then command_complete payload
    else if tag == b'E'
    then error_response payload max_body
    else if tag == b'N'
    then notice_response payload max_body
    else if tag == b'T'
    then row_description payload
    else if tag == b'D'
    then data_row payload
    else ok (backend_line tag (length payload))

unfoldable pub decode_backend : ℕ → Bytes → ℕ → Result DecodedMessage
unfolding backend
decode_backend tag payload max_body = do m ← backend tag payload max_body; wire_bytes payload m

unfoldable pub decode_typed : Direction → ℕ → Bytes → ℕ → Result DecodedMessage
unfolding decode_frontend decode_backend
decode_typed client_to_server tag payload max_body = decode_frontend tag payload max_body
decode_typed server_to_client tag payload max_body = decode_backend tag payload max_body
