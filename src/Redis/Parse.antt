-- ===== src/Redis/Parse.antt =====
-- crates/lens-proto-redis/src/lib.rs: `parse_value` and what it calls.
use lens.Prelude.{
  ℕ, zero, suc, ◌+◌, ◌-◌, ◌*◌, Bool, true, false, not, ◌&&◌, List, [], ◌∷◌, ◌++◌, Option, none,
  some, ltb, ◌==◌, if◌then◌else◌, length, take, drop, slice, any,
}
use lens.Prelude.Int.{ℤ, pos, negsuc}
use lens.Redis.Value.{
  RespValue, Values, nil, cons, Parse, ParseItems, simple, error, integer, bulk, array, array_null,
  null, boolean, double, big_number, bulk_error, verbatim, map, set, push, attribute, inline,
}
use lens.Text.{Bytes, str, eq_bytes, is_ascii_control, is_ascii_whitespace}
use lens.Text.Number.{parse_i64, usize_mod}
use lens.Text.Utf8.{from_utf8}
use mathlib.Core.Option

abbrev pub max_nesting : ℕ
max_nesting = 32

abbrev pub max_aggregate_items : ℕ
max_aggregate_items = 4096

abbrev pub crlf : Bytes
crlf = b'\r' ∷ b'\n' ∷ []

unfoldable pub find_crlf : Bytes → Option ℕ
find_crlf [] = none
find_crlf (a ∷ []) = none
find_crlf (a ∷ b ∷ rest) =
    let later = Option.map suc (find_crlf (b ∷ rest)) in
    if a == b'\r' && b == b'\n' then some 0 else later

-- The line behind the type byte, and the bytes up to and with its CRLF.
unfoldable pub line : Bytes → Option (Bytes × ℕ)
unfolding find_crlf
line [] = none
line (tag ∷ rest) =
    Option.map (λ found. (slice 1 (found + 1) (tag ∷ rest), found + 1 + 2)) (find_crlf rest)

unfoldable pub expect_empty_line : Bytes → Option Bool
unfolding eq_bytes
expect_empty_line bytes =
    if ltb (length bytes) 3 then none else some (eq_bytes (slice 1 3 bytes) crlf)

unfoldable pub parse_signed : Bytes → Option ℤ
unfolding from_utf8 parse_i64
parse_signed bytes = Option.bind (from_utf8 bytes) parse_i64

unfoldable pub checked_add : ℕ → ℕ → Option ℕ
checked_add a b = if ltb (a + b) usize_mod then some (a + b) else none

unfoldable pub checked_mul : ℕ → ℕ → Option ℕ
checked_mul a b = if ltb (a * b) usize_mod then some (a * b) else none

-- `let Some((value, consumed)) = line(bytes) else { return Parse::Incomplete }`
unfoldable pub with_line : Bytes → (Bytes → ℕ → Parse) → Parse
unfolding line
with_line bytes then_ = elim (line bytes) [
  | none ↦ Parse.incomplete
  | some (value, consumed) ↦ then_ value consumed
]

unfoldable pub parse_line_value : Bytes → (Bytes → RespValue) → Parse
unfolding with_line
parse_line_value bytes constructor =
    with_line bytes (λ value consumed. Parse.complete (constructor value) consumed)

unfoldable pub parse_null : Bytes → Parse
unfolding expect_empty_line
parse_null bytes = elim (expect_empty_line bytes) [
  | none ↦ Parse.incomplete
  | some true ↦ Parse.complete null 3
  | some false ↦ Parse.invalid (str "invalid RESP3 null frame")
]

abbrev boolean_of : Bytes → ℕ → Parse
boolean_of value consumed =
    if eq_bytes value (b't' ∷ [])
    then Parse.complete (boolean true) consumed
    else if eq_bytes value (b'f' ∷ [])
    then Parse.complete (boolean false) consumed
    else Parse.invalid (str "invalid RESP3 boolean frame")

unfoldable pub parse_boolean : Bytes → Parse
unfolding with_line eq_bytes
parse_boolean bytes = with_line bytes boolean_of

-- The part of `parse_blob` behind the length, which ends the blob at `total`.
unfoldable pub blob_body : Bytes → (Bytes → RespValue) → ℕ → ℕ → ℕ → Parse
unfolding eq_bytes
blob_body bytes constructor header end total =
    if ltb (length bytes) total
    then Parse.incomplete
    else if not (eq_bytes (slice end total bytes) crlf)
    then Parse.invalid (str "Redis blob is missing its CRLF terminator")
    else Parse.complete (constructor (slice header end bytes)) total

unfoldable pub blob_of_length : Bytes → (Bytes → RespValue) → ℕ → ℕ → Parse
unfolding checked_add blob_body
blob_of_length bytes constructor header len = elim (checked_add header len) [
  | none ↦ Parse.invalid (str "Redis blob length overflow")
  | some end ↦ elim (checked_add end 2) [
    | none ↦ Parse.invalid (str "Redis blob length overflow")
    | some total ↦ blob_body bytes constructor header end total
  ]
]

-- The part of `parse_blob` behind its length: the test against -1 and `usize::try_from`.
unfoldable pub blob_of_count : Bytes → (Bytes → RespValue) → RespValue → ℕ → Option ℤ → Parse
unfolding blob_of_length
blob_of_count bytes constructor null_value header none =
    Parse.invalid (str "invalid Redis blob length")
blob_of_count bytes constructor null_value header (some (negsuc n)) =
    if n == 0
    then Parse.complete null_value header
    else Parse.invalid (str "negative Redis blob length")
blob_of_count bytes constructor null_value header (some (pos len)) =
    blob_of_length bytes constructor header len

unfoldable pub parse_blob : Bytes → (Bytes → RespValue) → RespValue → Parse
unfolding with_line parse_signed blob_of_count
parse_blob bytes constructor null_value =
    with_line bytes
      λ digits header. blob_of_count bytes constructor null_value header (parse_signed digits)

-- `parse` is `parse_value` one level deeper.
unfoldable pub parse_items : (Bytes → Parse) → ℕ → Bytes → ℕ → ParseItems
parse_items parse zero bytes consumed = ParseItems.complete nil consumed
parse_items parse (suc n) bytes consumed = elim (parse (drop consumed bytes)) [
  | Parse.complete value used ↦ elim (parse_items parse n bytes (consumed + used)) [
    | ParseItems.complete values consumed' ↦ ParseItems.complete (cons value values) consumed'
    | ParseItems.incomplete ↦ ParseItems.incomplete
    | ParseItems.invalid reason ↦ ParseItems.invalid reason
  ]
  | Parse.incomplete ↦ ParseItems.incomplete
  | Parse.invalid reason ↦ ParseItems.invalid reason
]

abbrev pub finish_items : (Values → RespValue) → ParseItems → Parse
finish_items constructor (ParseItems.complete values consumed) =
    Parse.complete (constructor values) consumed
finish_items constructor ParseItems.incomplete = Parse.incomplete
finish_items constructor (ParseItems.invalid reason) = Parse.invalid reason

-- `RespValue::Array`
abbrev pub array_of : Option Values → RespValue
array_of (some values) = array values
array_of none = array_null

-- The item limit and the loop, which both kinds of aggregate share.
unfoldable pub bounded_items :
    (Bytes → Parse) → Bytes → (Values → RespValue) → Bytes → ℕ → ℕ → Parse
unfolding parse_items
bounded_items parse bytes constructor too_many consumed items =
    if ltb max_aggregate_items items
    then Parse.invalid too_many
    else finish_items constructor (parse_items parse items bytes consumed)

-- The part of `parse_aggregate` behind its count.
unfoldable pub aggregate_of_count :
    (Bytes → Parse) → Bytes → (Option Values → RespValue) → Bool → ℕ → Option ℤ → Parse
unfolding bounded_items
aggregate_of_count parse bytes constructor nullable consumed none =
    Parse.invalid (str "invalid Redis aggregate length")
aggregate_of_count parse bytes constructor nullable consumed (some (negsuc n)) =
    if nullable && n == 0
    then Parse.complete (constructor none) consumed
    else Parse.invalid (str "negative Redis aggregate length")
aggregate_of_count parse bytes constructor nullable consumed (some (pos items)) =
    bounded_items parse bytes (λ values. constructor (some values))
      (str "Redis aggregate exceeds the item limit") consumed items

unfoldable pub parse_aggregate :
    (Bytes → Parse) → Bytes → (Option Values → RespValue) → Bool → Parse
unfolding with_line parse_signed aggregate_of_count
parse_aggregate parse bytes constructor nullable = with_line bytes λ digits consumed.
    aggregate_of_count parse bytes constructor nullable consumed (parse_signed digits)

unfoldable pub flat_of_items : (Bytes → Parse) → Bytes → (Values → RespValue) → ℕ → Option ℕ → Parse
unfolding bounded_items
flat_of_items parse bytes constructor consumed none =
    Parse.invalid (str "RESP3 aggregate length overflow")
flat_of_items parse bytes constructor consumed (some items) =
    bounded_items parse bytes constructor (str "RESP3 aggregate exceeds the item limit") consumed
      items

-- The part of `parse_flat_aggregate` behind its count.
unfoldable pub flat_of_count :
    (Bytes → Parse) → Bytes → (Values → RespValue) → ℕ → ℕ → Option ℤ → Parse
unfolding checked_mul flat_of_items
flat_of_count parse bytes constructor multiplier consumed none =
    Parse.invalid (str "invalid RESP3 aggregate length")
flat_of_count parse bytes constructor multiplier consumed (some (negsuc n)) =
    Parse.invalid (str "negative RESP3 aggregate length")
flat_of_count parse bytes constructor multiplier consumed (some (pos pairs)) =
    flat_of_items parse bytes constructor consumed (checked_mul pairs multiplier)

unfoldable pub parse_flat_aggregate : (Bytes → Parse) → Bytes → (Values → RespValue) → ℕ → Parse
unfolding with_line parse_signed flat_of_count
parse_flat_aggregate parse bytes constructor multiplier = with_line bytes λ digits consumed.
    flat_of_count parse bytes constructor multiplier consumed (parse_signed digits)

-- `split(is_ascii_whitespace).filter(not empty)`; `word` is the word being read.
unfoldable pub words_from : Bytes → Bytes → List Bytes
words_from [] [] = []
words_from (w ∷ ws) [] = (w ∷ ws) ∷ []
words_from word (c ∷ cs) = elim (is_ascii_whitespace c) [
  | true ↦ elim word [ [] ↦ words_from [] cs | w ∷ ws ↦ (w ∷ ws) ∷ words_from [] cs ]
  | false ↦ words_from (word ++ c ∷ []) cs
]

abbrev is_refused : ℕ → Bool
is_refused c = is_ascii_control c && not (c == b'\t')

abbrev pub inline_words : List Bytes → ℕ → Parse
inline_words [] end = Parse.invalid (str "empty inline Redis command")
inline_words (w ∷ ws) end = Parse.complete (inline (w ∷ ws)) (end + 2)

-- The part of `parse_inline` behind the search for the line's end.
unfoldable pub inline_of_line : Bytes → ℕ → Parse
unfolding words_from
inline_of_line text end =
    if any is_refused text
    then Parse.invalid (str "invalid inline Redis command")
    else inline_words (words_from [] text) end

unfoldable pub parse_inline : Bytes → Parse
unfolding find_crlf inline_of_line
parse_inline bytes = elim (find_crlf bytes) [
  | none ↦ Parse.incomplete
  | some end ↦ inline_of_line (take end bytes) end
]

-- The arms of the `match bytes[0]` of `parse_value`, with the arguments that each one passes on.
pub data Frame : Type 0 where
  line_value : (Bytes → RespValue) → Frame
  null_frame boolean_frame inline_frame : Frame
  blob : (Bytes → RespValue) → RespValue → Frame
  aggregate : (Option Values → RespValue) → Bool → Frame
  flat_aggregate : (Values → RespValue) → ℕ → Frame

unfoldable pub frame_of : ℕ → Frame
frame_of tag =
    if tag == b'+'
    then line_value simple
    else if tag == b'-'
    then line_value error
    else if tag == b':'
    then line_value integer
    else if tag == b','
    then line_value double
    else if tag == b'('
    then line_value big_number
    else if tag == b'_'
    then null_frame
    else if tag == b'#'
    then boolean_frame
    else if tag == b'$'
    then blob (λ value. bulk (some value)) (bulk none)
    else if tag == b'!'
    then blob bulk_error (bulk_error [])
    else if tag == b'='
    then blob verbatim (verbatim [])
    else if tag == b'*'
    then aggregate array_of true
    else if tag == b'%'
    then flat_aggregate map 2
    else if tag == b'~'
    then flat_aggregate set 1
    else if tag == b'>'
    then flat_aggregate push 1
    else if tag == b'|'
    then flat_aggregate attribute 2
    else inline_frame

unfoldable pub parse_frame : (Bytes → Parse) → Frame → Bytes → Parse
unfolding parse_line_value parse_null parse_boolean parse_blob parse_aggregate parse_flat_aggregate
    parse_inline
parse_frame parse (line_value constructor) bytes = parse_line_value bytes constructor
parse_frame parse null_frame bytes = parse_null bytes
parse_frame parse boolean_frame bytes = parse_boolean bytes
parse_frame parse inline_frame bytes = parse_inline bytes
parse_frame parse (blob constructor null_value) bytes = parse_blob bytes constructor null_value
parse_frame parse (aggregate constructor nullable) bytes =
    parse_aggregate parse bytes constructor nullable
parse_frame parse (flat_aggregate constructor multiplier) bytes =
    parse_flat_aggregate parse bytes constructor multiplier

-- `levels` is `MAX_NESTING - depth`, and `zero` is `depth >= MAX_NESTING`.
unfoldable pub parse_at : ℕ → Bytes → Parse
unfolding parse_frame frame_of
parse_at levels [] = Parse.incomplete
parse_at zero (tag ∷ rest) = Parse.invalid (str "Redis nesting exceeds the decoder limit")
parse_at (suc levels) (tag ∷ rest) = parse_frame (parse_at levels) (frame_of tag) (tag ∷ rest)

unfoldable pub parse_value : Bytes → ℕ → Parse
unfolding parse_at
parse_value bytes depth = parse_at (max_nesting - depth) bytes
