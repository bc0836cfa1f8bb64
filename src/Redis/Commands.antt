-- ===== src/Redis/Commands.antt =====
-- A pipeline of commands, as a client library writes it, is decoded command by command.
use lens.Core.{client_to_server}
use lens.Prelude.{
  ℕ, zero, suc, ◌+◌, ◌≤◌, ◌<◌, List, [], ◌∷◌, ◌++◌, append_assoc, append-nil, none, some, length,
  drop, All, length-append, drop_all, drop-drop, ◌≡◌, refl, ◌∙◌, arith, le→ltb, ap, sym, map, true,
}
use lens.Prelude.Int.{pos}
use lens.Protocol.{DecodedMessage, DecodeBatch, need_more, push_message}
use lens.Redis.Decoder
use lens.Redis.Decoder.{decode_loop}
use lens.Redis.Message.{to_message}
use lens.Redis.Parse.{
  parse_items, max_aggregate_items, bounded_items, aggregate_of_count, parse_aggregate, frame_of,
  parse_frame, parse_at, array_of, crlf, parse_value, parse_signed, line,
}
use lens.Redis.RoundTrip.{
  encode_bulk, encode_bulks, encode_command, bulks, Fits, blob-bulk, with_line-some,
  parse_signed-show, show-no_cr, line-text,
}
use lens.Redis.Value.{bulk, array, Parse, ParseItems}
use lens.Text.{Bytes}
use lens.Text.Number.{show}

parse_at-bulk :
    (levels : ℕ) (value rest : Bytes)
    → Fits (encode_bulk value)
    → parse_at (suc levels) (encode_bulk value ++ rest)
      ≡ Parse.complete (bulk (some value)) (length (encode_bulk value))
unfolding parse_at parse_frame frame_of encode_bulk
parse_at-bulk levels value rest h = blob-bulk value rest h

parse_items-bulks :
    (levels : ℕ) (values : List Bytes) (bytes rest : Bytes) (start : ℕ)
    → drop start bytes ≡ encode_bulks values ++ rest
    → Fits (encode_bulks values)
    → parse_items (parse_at (suc levels)) (length values) bytes start
      ≡ ParseItems.complete (bulks values) (start + length (encode_bulks values))
unfolding parse_items encode_bulks
parse_items-bulks levels [] bytes rest start e h = ground arith
parse_items-bulks levels (value ∷ values) bytes rest start e h =
    let l = length-append (encode_bulk value) (encode_bulks values) in
    let here : drop start bytes ≡ encode_bulk value ++ (encode_bulks values ++ rest) =
      e ∙ append_assoc (encode_bulk value) (encode_bulks values) rest in
    let there : drop (start + length (encode_bulk value)) bytes ≡ encode_bulks values ++ rest =
      drop-drop start (length (encode_bulk value)) bytes
      ∙ ap (drop (length (encode_bulk value))) here
      ∙ drop_all (encode_bulk value) (encode_bulks values ++ rest) in
    let first = parse_at-bulk levels value (encode_bulks values ++ rest) (omega arith) in
    let later =
      parse_items-bulks levels values bytes rest (start + length (encode_bulk value)) there
        (omega arith) in
    rw (here, first, parse_items, later) (ground (arith, l))

aggregate-complete :
    (bytes digits : Bytes) (arguments : List Bytes) (start c : ℕ)
    → length arguments ≤ max_aggregate_items
    → line bytes ≡ some (digits, start)
    → parse_signed digits ≡ some (pos (length arguments))
    → parse_items (parse_at 31) (length arguments) bytes start
      ≡ ParseItems.complete (bulks arguments) c
    → parse_aggregate (parse_at 31) bytes array_of true ≡ Parse.complete (array (bulks arguments)) c
unfolding parse_aggregate aggregate_of_count bounded_items
aggregate-complete bytes digits arguments start c h first count items =
    with_line-some bytes _ digits start first
    ∙ rw (count, aggregate_of_count)
        (rw (items, bounded_items, le→ltb max_aggregate_items (length arguments) h))

abbrev head : List Bytes → Bytes
head arguments = b'*' ∷ (show (length arguments) ++ crlf)

-- A command with what follows it, cut in two ways.
encode_command-parts :
    (arguments : List Bytes) (rest : Bytes)
    → (encode_command arguments ++ rest
        ≡ b'*' ∷ (show (length arguments) ++ (crlf ++ (encode_bulks arguments ++ rest))))
      × (encode_command arguments ++ rest ≡ head arguments ++ (encode_bulks arguments ++ rest))
      × (length (encode_command arguments)
          ≡ length (show (length arguments)) + 3 + length (encode_bulks arguments))
unfolding encode_command
encode_command-parts arguments rest = (
  simp append_assoc,
  simp append_assoc,
  omega (arith, length-append (show (length arguments)) (crlf ++ encode_bulks arguments)),
)

-- A command is read back as an array of bulk strings, with anything behind it.
pub parse_value-encode_command :
    (arguments : List Bytes) (rest : Bytes)
    → length arguments ≤ max_aggregate_items
    → Fits (encode_command arguments)
    → parse_value (encode_command arguments ++ rest) 0
      ≡ Parse.complete (array (bulks arguments)) (length (encode_command arguments))
parse_value-encode_command arguments rest h k =
    let n = length arguments in
    let bytes = encode_command arguments ++ rest in
    let start = length (show n) + 3 in
    let (parts, at_bulks, l) = encode_command-parts arguments rest in
    let len_head : length (head arguments) ≡ start = omega (arith, length-append (show n) crlf) in
    let first : line bytes ≡ some (show n, start) =
      rw parts (line-text b'*' (show n) (encode_bulks arguments ++ rest) (show-no_cr n)) in
    let behind : drop start bytes ≡ encode_bulks arguments ++ rest =
      rw (at_bulks, ← len_head) (drop_all (head arguments) (encode_bulks arguments ++ rest)) in
    dispatch arguments rest
    ∙ aggregate-complete bytes (show n) arguments start _ h first
        (parse_signed-show n (omega arith))
        (parse_items-bulks 30 arguments bytes rest start behind (omega arith))
    ∙ ap (Parse.complete (array (bulks arguments))) (sym l)
  where
    dispatch :
        (arguments : List Bytes) (rest : Bytes)
        → parse_value (encode_command arguments ++ rest) 0
          ≡ parse_aggregate (parse_at 31) (encode_command arguments ++ rest) array_of true
    dispatch arguments rest =
        unfold parse_value parse_at parse_frame frame_of encode_command in refl

-- A command that the decoder accepts: the item limit, and a frame that fits in memory.
abbrev pub IsCommand : List Bytes → Type 0
IsCommand arguments = (length arguments ≤ max_aggregate_items) × Fits (encode_command arguments)

unfoldable pub encode_pipeline : List (List Bytes) → Bytes
encode_pipeline [] = []
encode_pipeline (command ∷ commands) = encode_command command ++ encode_pipeline commands

encode_command_pos : (command : List Bytes) → 0 < length (encode_command command)
unfolding encode_command
encode_command_pos command = omega arith

module _ (max_body : ℕ) where
  abbrev pub decoded : List Bytes → DecodedMessage
  decoded command = to_message client_to_server (array (bulks command)) max_body

  decode_loop-encode_command :
      (f : ℕ) (command : List Bytes) (rest : Bytes) (batch : DecodeBatch)
      → IsCommand command
      → decode_loop (suc f) client_to_server max_body (encode_command command ++ rest) batch
        ≡ decode_loop f client_to_server max_body rest (push_message batch (decoded command))
  unfolding decode_loop encode_command
  decode_loop-encode_command f command rest batch h =
      rw (parse_value-encode_command command rest h.0 h.1, decode_loop)
        (rw (drop_all (encode_command command) rest))

  decode_loop-encode_pipeline :
      (f : ℕ) (commands : List (List Bytes)) (batch : DecodeBatch)
      → length (encode_pipeline commands) < f
      → All IsCommand commands
      → decode_loop f client_to_server max_body (encode_pipeline commands) batch
        ≡ ([], record batch { messages = batch.messages ++ map decoded commands })
  unfolding encode_pipeline
  decode_loop-encode_pipeline zero commands batch h k = absurd (omega arith)
  decode_loop-encode_pipeline (suc f) [] batch h k = unfold decode_loop in rw append-nil
  decode_loop-encode_pipeline (suc f) (command ∷ commands) batch h k =
      let l = length-append (encode_command command) (encode_pipeline commands) in
      decode_loop-encode_command f command (encode_pipeline commands) batch k.0
      ∙ decode_loop-encode_pipeline f commands (push_message batch (decoded command))
          (omega (arith, encode_command_pos command)) k.1
      ∙ rw append_assoc

-- A new decoder reads a pipeline of commands as one request for each, in order, and is new again.
pub push-encode_pipeline :
    (max_body : ℕ) (commands : List (List Bytes))
    → All IsCommand commands
    → Decoder.push (Decoder.new max_body) client_to_server (encode_pipeline commands) ≡ (
      Decoder.new max_body,
      record { messages = map (decoded max_body) commands; desynchronized = none },
    )
unfolding Decoder.push
push-encode_pipeline max_body commands h = rw (
    decode_loop-encode_pipeline max_body (suc (length (encode_pipeline commands))) commands
      need_more (omega arith) h)
