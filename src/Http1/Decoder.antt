-- ===== src/Http1/Decoder.antt =====
-- crates/lens-proto-http1/src/lib.rs: `Http1Decoder`. `new` asserts that `max_body` is positive.
use lens.Core.{Direction, client_to_server, server_to_client}
use lens.Http1.Body.{DirectionState, Step, empty_state, step, finish_state}
use lens.Prelude.{
  ℕ, zero, suc, Bool, true, false, ◌||◌, List, [], ◌∷◌, ◌++◌, Option, none, some, leb, ◌==◌,
  if◌then◌else◌, length, get_elem?,
}
use lens.Protocol.{DecodedMessage, DecodeBatch, need_more, push_message, StreamingDecoder}
use lens.Text.{Bytes, str, eq_ignore_ascii_case}
use lens.Text.Number.{parse_unsigned}
use lens.Text.Words.{split_whitespace}
use mathlib.Core.Option

pub record Http1Decoder : Type 0 where
  pub max_body : ℕ
  pub client : DirectionState
  pub server : DirectionState
  pub request_methods : List Bytes

abbrev pub new : ℕ → Http1Decoder
new max_body = record {
  max_body = max_body;
  client = empty_state;
  server = empty_state;
  request_methods = [];
}

-- `state_mut`, to read and to write
abbrev pub state : Http1Decoder → Direction → DirectionState
state d client_to_server = d.client
state d server_to_client = d.server

abbrev pub set_state : Http1Decoder → Direction → DirectionState → Http1Decoder
set_state d client_to_server s = record d { client = s }
set_state d server_to_client s = record d { server = s }

abbrev is_head_method : List Bytes → Bool
is_head_method [] = false
is_head_method (method ∷ methods) = eq_ignore_ascii_case method (str "HEAD")

unfoldable pub response_to_head : Direction → List Bytes → Bool
unfolding eq_ignore_ascii_case
response_to_head client_to_server methods = false
response_to_head server_to_client methods = is_head_method methods

abbrev pop_front : List Bytes → List Bytes
pop_front [] = []
pop_front (method ∷ methods) = methods

abbrev push_method : List Bytes → List Bytes → List Bytes
push_method methods [] = methods
push_method methods (method ∷ words) = methods ++ method ∷ []

abbrev is_final : Option ℕ → Bool
is_final none = false
is_final (some status) = leb 200 status || status == 101

-- `track_exchange`, on the queue of methods. The message has the direction of the state it is from.
unfoldable pub track_exchange : Direction → Bytes → List Bytes → List Bytes
unfolding split_whitespace parse_unsigned Option.bind
track_exchange client_to_server start_line methods =
    push_method methods (split_whitespace start_line)
track_exchange server_to_client start_line methods =
    let status = Option.bind (get_elem? (split_whitespace start_line) 1) (parse_unsigned 65535) in
    if is_final status then pop_front methods else methods

-- What the loop of `process` changes: the direction's state, the methods and the batch.
pub record Loop : Type 0 where
  pub inner : DirectionState
  pub methods : List Bytes
  pub batch : DecodeBatch

abbrev pub after_step : Direction → Loop → DirectionState × Step → Loop
after_step direction l (s, Step.need_more) = record l { inner = s }
after_step direction l (s, Step.progress) = record l { inner = s }
after_step direction l (s, Step.message m) = record {
  inner = s;
  methods = track_exchange m.direction m.start_line l.methods;
  batch = push_message l.batch m;
}
after_step direction l (s, Step.desynchronized reason) = record l {
  inner = s;
  batch = record l.batch { desynchronized = some reason };
}

abbrev pub goes_on : Step → Bool
goes_on Step.need_more = false
goes_on Step.progress = true
goes_on (Step.message m) = true
goes_on (Step.desynchronized reason) = false

abbrev pub next_step : Direction → ℕ → Loop → DirectionState × Step
next_step direction max_body l =
    step direction max_body (response_to_head direction l.methods) l.inner

-- A round that goes on takes a byte from the buffer, so more rounds than it has bytes are enough.
unfoldable pub process_loop : ℕ → Direction → ℕ → Loop → Loop
unfolding step response_to_head track_exchange
process_loop zero direction max_body l = l
process_loop (suc fuel) direction max_body l =
    let r = next_step direction max_body l in
    let rest = process_loop fuel direction max_body (after_step direction l r) in
    elim (goes_on r.1) [ true ↦ rest | false ↦ after_step direction l r ]

abbrev pub receive : DirectionState → Bytes → DirectionState
receive s bytes = record s { buffer = s.buffer ++ bytes }

unfoldable pub push : Http1Decoder → Direction → Bytes → Http1Decoder × DecodeBatch
unfolding process_loop
push d direction bytes =
    let s = receive (state d direction) bytes in
    let l =
      process_loop (suc (length s.buffer)) direction d.max_body
        (record { inner = s; methods = d.request_methods; batch = need_more }) in
    (record (set_state d direction l.inner) { request_methods = l.methods }, l.batch)

abbrev finished : DecodedMessage → Bool → DecodeBatch
finished m incomplete = record {
  messages = m ∷ [];
  desynchronized =
      if incomplete then some (str "HTTP message ended before its declared body") else none;
}

abbrev pub after_finish :
    Http1Decoder
    → Direction
    → DirectionState × Option (DecodedMessage × Bool)
    → Http1Decoder × DecodeBatch
after_finish d direction (s, none) = (set_state d direction s, need_more)
after_finish d direction (s, some (m, incomplete)) = (
  record (set_state d direction s) {
    request_methods = track_exchange m.direction m.start_line d.request_methods;
  },
  finished m incomplete,
)

unfoldable pub finish : Http1Decoder → Direction → Http1Decoder × DecodeBatch
unfolding finish_state track_exchange
finish d direction = after_finish d direction (finish_state (state d direction))

abbrev pub http1_decoder : StreamingDecoder Http1Decoder
http1_decoder = record { protocol = str "http1"; push = push; finish = finish }
