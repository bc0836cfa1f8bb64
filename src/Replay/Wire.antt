-- ===== src/Replay/Wire.antt =====
-- crates/lens-replay/src/lib.rs: the captured text of a message, and the headers that are sent again.
use lens.Prelude.{
  ℕ, ◌+◌, Bool, not, ◌||◌, List, [], ◌∷◌, ◌++◌, map, Option, none, some, if◌then◌else◌, any, take,
  drop,
}
use lens.Protocol.{Headers}
use lens.Replay.Packages.{Packages}
use lens.Text.{Bytes, str, eq_bytes, eq_ignore_ascii_case, starts_with, to_ascii_lowercase}
use lens.Text.Result.{Result, ok, err, ◌>>=◌, ◌>>◌, refuse_if}
use lens.Text.Utf8.{from_utf8}
use lens.Text.Words.{find_bytes, split_byte, split_crlf, split_once, trim}

abbrev pub boundary : Bytes
boundary = str "\r\n\r\n"

abbrev pub header_of : Option (Bytes × Bytes) → Result (Bytes × Bytes)
header_of none = err (str "captured header line is invalid")
header_of (some (name, value)) = ok (trim name, trim value)

unfoldable pub parse_header_lines : List Bytes → Result Headers
unfolding split_once trim
parse_header_lines [] = ok []
parse_header_lines (line ∷ lines) = do
  header ← header_of (split_once b':' line)
  headers ← parse_header_lines lines
  ok (header ∷ headers)

-- The headers of a head that is UTF-8.
abbrev pub parse_wire_head : Option Bytes → Result Headers
parse_wire_head none = err (str "captured headers are not valid UTF-8")
parse_wire_head (some []) = ok []
parse_wire_head (some (c ∷ cs)) = parse_header_lines (split_crlf [] (c ∷ cs))

abbrev pub parse_wire_at : Bytes → Option ℕ → Result (Headers × Bytes)
parse_wire_at wire none = err (str "captured message has no header/body boundary")
parse_wire_at wire (some i) = do
  headers ← parse_wire_head (from_utf8 (take i wire))
  ok (headers, drop (i + 4) wire)

unfoldable pub parse_wire : Bytes → Result (Headers × Bytes)
unfolding parse_header_lines find_bytes from_utf8 split_crlf str
parse_wire wire = parse_wire_at wire (find_bytes wire boundary)

abbrev pub hop_by_hop_names : List Bytes
hop_by_hop_names =
    str "connection"
    ∷ str "content-length"
    ∷ str "host"
    ∷ str "keep-alive"
    ∷ str "proxy-authenticate"
    ∷ str "proxy-authorization"
    ∷ str "proxy-connection"
    ∷ str "te"
    ∷ str "trailer"
    ∷ str "transfer-encoding"
    ∷ str "upgrade"
    ∷ []

unfoldable pub is_hop_by_hop : Bytes → Bool
unfolding eq_bytes str
is_hop_by_hop name = any (eq_bytes name) hop_by_hop_names

-- The names in the values of `Connection`, in lower case.
unfoldable pub connection_tokens : Headers → List Bytes
unfolding split_byte trim to_ascii_lowercase eq_ignore_ascii_case
connection_tokens [] = []
connection_tokens ((name, value) ∷ headers) =
    let rest = connection_tokens headers in
    if eq_ignore_ascii_case name (str "connection")
    then map (λ token. to_ascii_lowercase (trim token)) (split_byte b',' [] value) ++ rest
    else rest

-- The test on a name in lower case.
unfoldable pub is_left_out : List Bytes → Bytes → Bool
unfolding is_hop_by_hop eq_bytes starts_with str
is_left_out tokens lower =
    is_hop_by_hop lower || any (eq_bytes lower) tokens || starts_with lower (str "lens-")

module _ (packages : Packages) where
  unfoldable pub replay_headers_from : List Bytes → Headers → Result Headers
  unfolding is_left_out to_ascii_lowercase
  replay_headers_from tokens [] = ok []
  replay_headers_from tokens ((name, value) ∷ headers) =
      let rest = replay_headers_from tokens headers in
      if is_left_out tokens (to_ascii_lowercase name) then rest else do
        refuse_if (not (packages.is_header_name name))
            (str "invalid captured header name: " ++ name)
        refuse_if (not (packages.is_header_value value))
            (str "invalid captured value for header " ++ name)
        replayable ← rest
        ok ((name, value) ∷ replayable)

  unfoldable pub replay_headers : Headers → Result Headers
  unfolding replay_headers_from connection_tokens
  replay_headers headers = replay_headers_from (connection_tokens headers) headers
