-- ===== src/Http1/Head.antt =====
-- crates/lens-proto-http1/src/lib.rs: `ParsedHead::parse`.
use lens.Prelude.{
  ℕ, ◌-◌, Bool, true, false, not, ◌&&◌, ◌||◌, List, [], ◌∷◌, ◌++◌, Option, none, some, ltb, leb,
  ◌==◌, if◌then◌else◌, any, get_elem?,
}
use lens.Protocol.{Headers}
use lens.Text.{Bytes, str, starts_with, eq_ignore_ascii_case}
use lens.Text.Number.{parse_unsigned, usize_mod}
use lens.Text.Result.{Result, ok, err}
use lens.Text.Utf8.{from_utf8}
use lens.Text.Words.{split_whitespace, trim, split_byte, split_crlf, split_once}
use mathlib.Core.Option

pub record ParsedHead : Type 0 where
  pub start_line : Bytes
  pub headers : Headers
  pub is_response : Bool
  pub no_body_status : Bool
  pub content_length : Option ℕ
  pub chunked : Bool

abbrev http_1 : Bytes
http_1 = str "HTTP/1."

-- A method, a target and a version, and nothing else.
unfoldable pub is_request_line : List Bytes → Bool
unfolding starts_with
is_request_line (method ∷ target ∷ version ∷ []) = starts_with version http_1
is_request_line _ = false

-- `split_whitespace().nth(1)` parsed as a u16
unfoldable pub status_of : Bytes → Option ℕ
unfolding split_whitespace parse_unsigned Option.bind
status_of start_line =
    Option.bind (get_elem? (split_whitespace start_line) 1) (parse_unsigned 65535)

-- The first line: whether it begins a response, and its status, which is 0 for a request.
unfoldable pub parse_start_line : Bytes → Result (Bool × ℕ)
unfolding is_request_line split_whitespace starts_with status_of
parse_start_line start_line =
    if starts_with start_line http_1
    then elim (status_of start_line) [
      | none ↦ err (str "invalid HTTP/1 status line")
      | some status ↦ ok (true, status)
    ]
    else if is_request_line (split_whitespace start_line)
    then ok (false, 0)
    else err (str "invalid HTTP/1 request line")

abbrev pub is_no_body_status : Bool → ℕ → Bool
is_no_body_status is_response status =
    is_response && ((leb 100 status && ltb status 200) || status == 204 || status == 304)

-- The variables of the loop over the header lines.
pub record Fields : Type 0 where
  pub headers : Headers
  pub content_length : Option ℕ
  pub chunked : Bool

unfoldable pub names_chunked : Bytes → Bool
unfolding split_byte trim eq_ignore_ascii_case
names_chunked value =
    any (λ coding. eq_ignore_ascii_case (trim coding) (str "chunked")) (split_byte b',' [] value)

-- `content_length.is_some_and(|current| current != parsed)`
abbrev pub conflicts : Option ℕ → ℕ → Bool
conflicts none parsed = false
conflicts (some current) parsed = not (current == parsed)

unfoldable pub set_length : Fields → Bytes → Result (Option ℕ)
unfolding parse_unsigned
set_length fields value = elim (parse_unsigned (usize_mod - 1) value) [
  | none ↦ err (str "invalid HTTP Content-Length")
  | some parsed ↦
      if conflicts fields.content_length parsed
      then err (str "conflicting HTTP Content-Length values")
      else ok (some parsed)
]

unfoldable pub new_length : Fields → Bytes → Bytes → Result (Option ℕ)
unfolding set_length eq_ignore_ascii_case
new_length fields name value =
    if eq_ignore_ascii_case name (str "content-length")
    then set_length fields value
    else ok fields.content_length

unfoldable pub add_field : Fields → Bytes → Bytes → Result Fields
unfolding new_length names_chunked
add_field fields name value = elim (new_length fields name value) [
  | err reason ↦ err reason
  | ok length ↦ ok (record {
    headers = fields.headers ++ (name, value) ∷ [];
    content_length = length;
    chunked =
        fields.chunked
        || (eq_ignore_ascii_case name (str "transfer-encoding") && names_chunked value);
  })
]

unfoldable pub add_line : Fields → Bytes → Result Fields
unfolding add_field split_once trim
add_line fields line = elim (split_once b':' line) [
  | none ↦ err (str "invalid HTTP header line")
  | some (name, value) ↦ add_field fields (trim name) (trim value)
]

unfoldable pub add_lines : Fields → List Bytes → Result Fields
unfolding add_line
add_lines fields [] = ok fields
add_lines fields (line ∷ lines) = elim (add_line fields line) [
  | err reason ↦ err reason
  | ok fields' ↦ add_lines fields' lines
]

abbrev pub no_fields : Fields
no_fields = record { headers = []; content_length = none; chunked = false }

abbrev head_of : Bytes → Bool → ℕ → Fields → ParsedHead
head_of start_line is_response status fields = record {
  start_line = start_line;
  headers = fields.headers;
  is_response = is_response;
  no_body_status = is_no_body_status is_response status;
  content_length = fields.content_length;
  chunked = fields.chunked;
}

-- The part behind the first line, which is `start_line` once trimmed.
unfoldable pub parse_lines : Bytes → List Bytes → Result ParsedHead
unfolding parse_start_line add_lines
parse_lines [] lines = err (str "HTTP start line is empty")
parse_lines (c ∷ cs) lines = elim (parse_start_line (c ∷ cs)) [
  | err reason ↦ err reason
  | ok (is_response, status) ↦ elim (add_lines no_fields lines) [
    | err reason ↦ err reason
    | ok fields ↦ ok (head_of (c ∷ cs) is_response status fields)
  ]
]

abbrev pub first_and_rest : List Bytes → Bytes × List Bytes
first_and_rest [] = ([], [])
first_and_rest (first ∷ rest) = (first, rest)

unfoldable pub parse : Bytes → Result ParsedHead
unfolding from_utf8 split_crlf trim parse_lines
parse bytes = elim (from_utf8 bytes) [
  | none ↦ err (str "HTTP headers are not valid UTF-8")
  | some text ↦
      let (first, lines) = first_and_rest (split_crlf [] text) in parse_lines (trim first) lines
]
