-- ===== src/Postgres/Decoder.antt =====
-- crates/lens-proto-postgres/src/lib.rs: `PostgresDecoder`. `new` asserts that `max_body` is
-- positive.
use lens.Core.{Direction, client_to_server, server_to_client}
use lens.Postgres.Backend.{decode_typed}
use lens.Postgres.Message.{message, startup_message, hex_byte}
use lens.Postgres.Wire.{from_be_bytes, be32}
use lens.Prelude.{
  ℕ, zero, suc, ◌+◌, ◌*◌, Bool, true, false, not, ◌&&◌, [], ◌∷◌, ◌++◌, some, ltb, leb, ◌==◌,
  if◌then◌else◌, length, take, drop,
}
use lens.Protocol
use lens.Protocol.{DecodedMessage, DecodeBatch, push_message, StreamingDecoder}
use lens.Text.{Bytes, str}
use lens.Text.Number.{show}
use lens.Text.Result.{Result, ok, err}

abbrev pub max_frame_bytes : ℕ
max_frame_bytes = 16 * 1024 * 1024

abbrev pub ssl_request_code : ℕ
ssl_request_code = 80877103

abbrev pub cancel_request_code : ℕ
cancel_request_code = 80877102

abbrev pub gssenc_request_code : ℕ
gssenc_request_code = 80877104

pub data Phase : Type 0 where
  startup : Phase
  awaiting_encryption_response : Phase
  typed : Phase
  opaque : Phase

pub record PostgresDecoder : Type 0 where
  pub max_body : ℕ
  pub client : Bytes
  pub server : Bytes
  pub phase : Phase

abbrev pub new : ℕ → PostgresDecoder
new max_body = record { max_body = max_body; client = []; server = []; phase = startup }

-- `buffer_mut`, to read and to write
abbrev pub buffer : PostgresDecoder → Direction → Bytes
buffer d client_to_server = d.client
buffer d server_to_client = d.server

abbrev pub set_buffer : PostgresDecoder → Direction → Bytes → PostgresDecoder
set_buffer d client_to_server bytes = record d { client = bytes }
set_buffer d server_to_client bytes = record d { server = bytes }

pub data Step : Type 0 where
  need_more : Step
  decoded : DecodedMessage → Step
  decoded_and_phase : DecodedMessage → Phase → Step
  desynchronized : Bytes → Step

abbrev pub after_startup : Result DecodedMessage → Step
after_startup (ok m) = decoded_and_phase m typed
after_startup (err reason) = desynchronized reason

-- What a startup frame asks for.
unfoldable pub startup_frame : Bytes → Step
unfolding startup_message from_be_bytes
startup_frame frame =
    let code = be32 (drop 4 frame) in
    if code == ssl_request_code
    then decoded_and_phase (message client_to_server (str "SSLRequest"))
        awaiting_encryption_response
    else if code == gssenc_request_code
    then decoded_and_phase (message client_to_server (str "GSSENCRequest"))
        awaiting_encryption_response
    else if code == cancel_request_code
    then decoded_and_phase (message client_to_server (str "CancelRequest (key material omitted)"))
        opaque
    else after_startup (startup_message code (drop 8 frame))

-- `(low..=MAX_FRAME_BYTES).contains(&length)`
abbrev pub in_frame : ℕ → ℕ → Bool
in_frame low len = leb low len && leb len max_frame_bytes

-- Each step returns what is left of the direction's buffer.
unfoldable pub step_startup : Bytes → Bytes × Step
unfolding startup_frame from_be_bytes
step_startup bytes =
    let len = be32 bytes in
    if ltb (length bytes) 4
    then (bytes, need_more)
    else if not (in_frame 8 len)
    then (bytes, desynchronized (str "invalid PostgreSQL startup frame length " ++ show len))
    else if ltb (length bytes) len
    then (bytes, need_more)
    else (drop len bytes, startup_frame (take len bytes))

unfoldable pub encryption_response : ℕ → Step
encryption_response response =
    if response == b'S'
    then decoded_and_phase
        (message server_to_client (str "EncryptionResponse accepted (traffic opaque)")) opaque
    else if response == b'G'
    then decoded_and_phase
        (message server_to_client (str "GSSENCResponse accepted (traffic opaque)")) opaque
    else if response == b'N'
    then decoded_and_phase (message server_to_client (str "EncryptionResponse rejected")) startup
    else desynchronized (str "invalid PostgreSQL encryption response")

unfoldable pub step_encryption_response : Bytes → Bytes × Step
unfolding encryption_response
step_encryption_response [] = ([], need_more)
step_encryption_response (response ∷ bytes) = (bytes, encryption_response response)

abbrev pub after_typed : Result DecodedMessage → Step
after_typed (ok m) = decoded m
after_typed (err reason) = desynchronized reason

abbrev pub invalid_length : ℕ → ℕ → Bytes
invalid_length len tag =
    str "invalid PostgreSQL message length " ++ (show len ++ (str " for tag 0x" ++ hex_byte tag))

-- A frame of the typed protocol: its tag, its length, which counts itself, and its payload.
unfoldable pub step_typed : Direction → ℕ → Bytes → Bytes × Step
unfolding decode_typed from_be_bytes
step_typed direction max_body [] = ([], need_more)
step_typed direction max_body (tag ∷ bytes) =
    let len = be32 bytes in
    if ltb (suc (length bytes)) 5
    then (tag ∷ bytes, need_more)
    else if not (in_frame 4 len)
    then (tag ∷ bytes, desynchronized (invalid_length len tag))
    else if ltb (suc (length bytes)) (len + 1)
    then (tag ∷ bytes, need_more)
    else (
      drop len bytes,
      after_typed (decode_typed direction tag (drop 4 (take len bytes)) max_body),
    )

-- The match on the phase and the direction.
unfoldable pub step : Phase → Direction → ℕ → Bytes → Bytes × Step
unfolding step_startup step_encryption_response step_typed
step startup client_to_server max_body bytes = step_startup bytes
step startup server_to_client max_body bytes = (bytes, need_more)
step awaiting_encryption_response client_to_server max_body bytes = (bytes, need_more)
step awaiting_encryption_response server_to_client max_body bytes = step_encryption_response bytes
step typed direction max_body bytes = step_typed direction max_body bytes
step opaque direction max_body bytes = (bytes, need_more)

abbrev pub turn_opaque : PostgresDecoder → PostgresDecoder
turn_opaque d = record d { client = []; server = []; phase = opaque }

abbrev pub enter : PostgresDecoder → Phase → PostgresDecoder
enter d startup = record d { phase = startup }
enter d awaiting_encryption_response = record d { phase = awaiting_encryption_response }
enter d typed = record d { phase = typed }
enter d opaque = turn_opaque d

-- What a round changes: the decoder, without the bytes that the step took, and the batch.
abbrev pub after_step : PostgresDecoder × DecodeBatch → Step → PostgresDecoder × DecodeBatch
after_step (d, batch) need_more = (d, batch)
after_step (d, batch) (decoded m) = (d, push_message batch m)
after_step (d, batch) (decoded_and_phase m phase) = (enter d phase, push_message batch m)
after_step (d, batch) (desynchronized reason) =
    (turn_opaque d, record batch { desynchronized = some reason })

abbrev pub is_opaque : Phase → Bool
is_opaque opaque = true
is_opaque _ = false

abbrev pub goes_on : Step → Bool
goes_on need_more = false
goes_on (decoded m) = true
goes_on (decoded_and_phase m phase) = not (is_opaque phase)
goes_on (desynchronized reason) = false

-- A round that goes on takes a byte from the buffer, so more rounds than it has bytes are enough.
unfoldable pub process_loop :
    ℕ → Direction → PostgresDecoder × DecodeBatch → PostgresDecoder × DecodeBatch
unfolding step
process_loop zero direction l = l
process_loop (suc fuel) direction (d, batch) =
    let (bytes, s) = step d.phase direction d.max_body (buffer d direction) in
    let next = after_step (set_buffer d direction bytes, batch) s in
    let rest = process_loop fuel direction next in elim (goes_on s) [ true ↦ rest | false ↦ next ]

abbrev pub too_large : DecodeBatch
too_large = record {
  messages = [];
  desynchronized = some (str "PostgreSQL buffered data exceeds 16777221 bytes");
}

unfoldable pub process : PostgresDecoder → Direction → Bytes → PostgresDecoder × DecodeBatch
unfolding process_loop
process d direction bytes =
    let all_bytes = buffer d direction ++ bytes in
    if is_opaque d.phase
    then (d, Protocol.need_more)
    else if ltb (max_frame_bytes + 5) (length all_bytes)
    then (turn_opaque d, too_large)
    else process_loop (suc (length all_bytes)) direction
        (set_buffer d direction all_bytes, Protocol.need_more)

unfoldable pub push : PostgresDecoder → Direction → Bytes → PostgresDecoder × DecodeBatch
unfolding process
push d direction bytes = process d direction bytes

unfoldable pub finish : PostgresDecoder → Direction → PostgresDecoder × DecodeBatch
finish d direction =
    let remaining = length (buffer d direction) in
    (
      set_buffer d direction [],
      if remaining == 0
          then Protocol.need_more
          else if is_opaque d.phase
          then Protocol.need_more
          else record {
            messages = [];
            desynchronized = some (
                str "PostgreSQL stream ended with " ++ (show remaining ++ str " incomplete bytes"));
          },
    )

abbrev pub postgres : StreamingDecoder PostgresDecoder
postgres = record { protocol = str "postgres"; push = push; finish = finish }
