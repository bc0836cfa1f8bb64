-- ===== src/Http1/Body.antt =====
-- crates/lens-proto-http1/src/lib.rs: `DirectionState` and the bodies it waits for.
use lens.Http1.Head
use lens.Http1.Head.{ParsedHead}
use lens.Text.Result.{ok, err}
use lens.Prelude.{
  ℕ, zero, suc, ◌+◌, ◌-◌, ◌*◌, Bool, true, false, not, ◌||◌, List, [], ◌∷◌, ◌++◌, Option, none,
  some, ltb, ◌==◌, if◌then◌else◌, length, take, drop, min, ◌≡◌, refl, ◌⊎◌, inl, inr,
}
use lens.Core.{Direction}
use lens.Protocol.{DecodedMessage}
use lens.Text.{Bytes, str, eq_bytes, starts_with}
use lens.Text.Number.{parse_hex}
use lens.Text.Utf8.{from_utf8}
use lens.Text.Words.{trim, split_byte, find_bytes}

abbrev pub max_head_bytes : ℕ
max_head_bytes = 64 * 1024

abbrev pub max_chunk_line_bytes : ℕ
max_chunk_line_bytes = 1024

abbrev pub crlf : Bytes
crlf = b'\r' ∷ b'\n' ∷ []

abbrev pub blank_line : Bytes
blank_line = b'\r' ∷ b'\n' ∷ b'\r' ∷ b'\n' ∷ []

-- `Data { remaining }` is `chunk_data remaining`.
pub data ChunkPhase : Type 0 where
  size : ChunkPhase
  chunk_data : ℕ → ChunkPhase
  data_crlf : ChunkPhase
  trailers : ChunkPhase

pub data PendingBody : Type 0 where
  fixed : DecodedMessage → ℕ → PendingBody
  chunked : DecodedMessage → ChunkPhase → PendingBody
  until_eof : DecodedMessage → PendingBody

abbrev pub into_message : PendingBody → DecodedMessage
into_message (fixed message remaining) = message
into_message (chunked message phase) = message
into_message (until_eof message) = message

pub record DirectionState : Type 0 where
  pub buffer : Bytes
  pub pending : Option PendingBody

abbrev pub empty_state : DirectionState
empty_state = record { buffer = []; pending = none }

pub data Step : Type 0 where
  need_more : Step
  progress : Step
  message : DecodedMessage → Step
  desynchronized : Bytes → Step

abbrev pub waiting : Bytes → Option PendingBody → DirectionState
waiting buffer pending = record { buffer = buffer; pending = pending }

-- `buffer.clear()` and the reason, with no body pending
abbrev pub lose : Bytes → DirectionState × Step
lose reason = (empty_state, desynchronized reason)

unfoldable pub capture : DecodedMessage → Bytes → ℕ → DecodedMessage
capture m bytes max_body =
    let captured = min (max_body - length m.body) (length bytes) in
    record m {
      body = m.body ++ take captured bytes;
      truncated = m.truncated || ltb captured (length bytes);
    }

-- `PendingBody::Fixed`
unfoldable pub consume_fixed : DecodedMessage → ℕ → Bytes → ℕ → DirectionState × Step
unfolding capture
consume_fixed m remaining buffer max_body =
    let consumed = min remaining (length buffer) in
    let m' = capture m (take consumed buffer) max_body in
    let buffer' = drop consumed buffer in
    if remaining - consumed == 0
    then (waiting buffer' none, message m')
    else (waiting buffer' (some (fixed m' (remaining - consumed))), need_more)

-- `PendingBody::UntilEof`
unfoldable pub consume_until_eof : DecodedMessage → Bytes → ℕ → DirectionState × Step
unfolding capture
consume_until_eof m buffer max_body =
    (waiting [] (some (until_eof (capture m buffer max_body))), need_more)

-- What one round of the loop over a chunked body does: go on in a phase, or return.
pub data Round : Type 0 where
  continue : DecodedMessage → ChunkPhase → Bytes → Round
  return : DirectionState × Step → Round

pub Round-cases :
    (r : Round)
    → ((m : DecodedMessage) × (phase : ChunkPhase) × (buffer : Bytes) × (r
          ≡ continue m phase buffer))
      ⊎ ((result : DirectionState × Step) × (r ≡ return result))
Round-cases (continue m phase buffer) = inl (m, phase, buffer, refl)
Round-cases (return result) = inr (result, refl)

abbrev first_piece : List Bytes → Bytes
first_piece [] = []
first_piece (piece ∷ pieces) = piece

unfoldable pub chunk_size : Bytes → Option ℕ
unfolding parse_hex trim split_byte
chunk_size line = parse_hex (trim (first_piece (split_byte b';' [] line)))

abbrev pub phase_of_size : ℕ → ChunkPhase
phase_of_size zero = trailers
phase_of_size (suc n) = chunk_data (suc n)

-- The line of a chunk's size, and the buffer behind it.
unfoldable pub read_size : DecodedMessage → Bytes → Bytes → Round
unfolding from_utf8 chunk_size
read_size m line rest = elim (from_utf8 line) [
  | none ↦ return (lose (str "HTTP chunk-size line is not ASCII"))
  | some text ↦ elim (chunk_size text) [
    | none ↦ return (lose (str "invalid HTTP chunk size"))
    | some n ↦ continue m (phase_of_size n) rest
  ]
]

abbrev pub pause : DecodedMessage → ChunkPhase → Bytes → Round
pause m phase buffer = return (waiting buffer (some (chunked m phase)), need_more)

unfoldable pub round_size : DecodedMessage → Bytes → Round
unfolding find_bytes read_size
round_size m buffer = elim (find_bytes buffer crlf) [
  | none ↦
      if ltb max_chunk_line_bytes (length buffer)
      then return (lose (str "HTTP chunk-size line exceeds 1024 bytes"))
      else pause m size buffer
  | some line_end ↦ read_size m (take line_end buffer) (drop (line_end + 2) buffer)
]

unfoldable pub round_data : DecodedMessage → ℕ → Bytes → ℕ → Round
unfolding capture
round_data m remaining buffer max_body =
    let consumed = min remaining (length buffer) in
    let m' = capture m (take consumed buffer) max_body in
    let buffer' = drop consumed buffer in
    if ltb 0 (remaining - consumed)
    then pause m' (chunk_data (remaining - consumed)) buffer'
    else continue m' data_crlf buffer'

unfoldable pub round_data_crlf : DecodedMessage → Bytes → Round
unfolding eq_bytes
round_data_crlf m buffer =
    if ltb (length buffer) 2
    then pause m data_crlf buffer
    else if not (eq_bytes (take 2 buffer) crlf)
    then return (lose (str "HTTP chunk data is missing CRLF"))
    else continue m size (drop 2 buffer)

unfoldable pub round_trailers : DecodedMessage → Bytes → Round
unfolding find_bytes starts_with
round_trailers m buffer =
    if starts_with buffer crlf
    then return (waiting (drop 2 buffer) none, message m)
    else elim (find_bytes buffer blank_line) [
      | some end ↦ return (waiting (drop (end + 4) buffer) none, message m)
      | none ↦
          if ltb max_head_bytes (length buffer)
          then return (lose (str "HTTP chunk trailers exceed 65536 bytes"))
          else pause m trailers buffer
    ]

unfoldable pub chunk_round : DecodedMessage → ChunkPhase → Bytes → ℕ → Round
unfolding round_size round_data round_data_crlf round_trailers
chunk_round m size buffer max_body = round_size m buffer
chunk_round m (chunk_data remaining) buffer max_body = round_data m remaining buffer max_body
chunk_round m data_crlf buffer max_body = round_data_crlf m buffer
chunk_round m trailers buffer max_body = round_trailers m buffer

-- The loop over a chunked body. A round that goes on consumes a byte of the buffer, so more rounds
-- than it has bytes are enough.
unfoldable pub chunk_loop : ℕ → DecodedMessage → ChunkPhase → Bytes → ℕ → DirectionState × Step
unfolding chunk_round
chunk_loop zero m phase buffer max_body = (waiting buffer (some (chunked m phase)), need_more)
chunk_loop (suc fuel) m phase buffer max_body = elim (chunk_round m phase buffer max_body) [
  | continue m' phase' buffer' ↦ chunk_loop fuel m' phase' buffer' max_body
  | return r ↦ r
]

unfoldable pub consume_pending : PendingBody → Bytes → ℕ → DirectionState × Step
unfolding consume_fixed consume_until_eof chunk_loop
consume_pending (fixed m remaining) buffer max_body = consume_fixed m remaining buffer max_body
consume_pending (until_eof m) buffer max_body = consume_until_eof m buffer max_body
consume_pending (chunked m phase) buffer max_body =
    chunk_loop (suc (length buffer)) m phase buffer max_body

abbrev pub new_message : Direction → ParsedHead → DecodedMessage
new_message direction head = record {
  direction = direction;
  start_line = head.start_line;
  headers = head.headers;
  body = [];
  truncated = false;
}

-- With a declared length, or none.
abbrev pub begin_length : DecodedMessage → Bool → Bytes → Option ℕ → DirectionState × Step
begin_length m is_response buffer (some zero) = (waiting buffer none, message m)
begin_length m is_response buffer (some (suc n)) =
    (waiting buffer (some (fixed m (suc n))), progress)
begin_length m is_response buffer none =
    if is_response
    then (waiting buffer (some (until_eof m)), progress)
    else (waiting buffer none, message m)

-- The part of `step` behind a head that parsed.
unfoldable pub begin_body : Direction → ParsedHead → Bool → Bytes → DirectionState × Step
begin_body direction head response_to_head buffer =
    let m = new_message direction head in
    if response_to_head || head.no_body_status
    then (waiting buffer none, message m)
    else if head.chunked
    then (waiting buffer (some (chunked m size)), progress)
    else begin_length m head.is_response buffer head.content_length

unfoldable pub step_head : Direction → Bool → Bytes → DirectionState × Step
unfolding find_bytes Head.parse begin_body
step_head direction response_to_head buffer = elim (find_bytes buffer blank_line) [
  | none ↦
      if ltb max_head_bytes (length buffer)
      then lose (str "HTTP headers exceed 65536 bytes")
      else (waiting buffer none, need_more)
  | some head_end ↦ elim (Head.parse (take head_end buffer)) [
    | err reason ↦ lose reason
    | ok head ↦ begin_body direction head response_to_head (drop (head_end + 4) buffer)
  ]
]

-- `DirectionState::step`
unfoldable pub step : Direction → ℕ → Bool → DirectionState → DirectionState × Step
unfolding step_head consume_pending
step direction max_body response_to_head s = elim s.pending [
  | some pending ↦ consume_pending pending s.buffer max_body
  | none ↦ step_head direction response_to_head s.buffer
]

abbrev is_until_eof : PendingBody → Bool
is_until_eof (until_eof m) = true
is_until_eof _ = false

-- `DirectionState::finish`
unfoldable pub finish_state : DirectionState → DirectionState × Option (DecodedMessage × Bool)
finish_state s = elim s.pending [
  | none ↦ (s, none)
  | some pending ↦
      let incomplete = not (is_until_eof pending) in
      let m = into_message pending in
      (empty_state, some (record m { truncated = m.truncated || incomplete }, incomplete))
]
