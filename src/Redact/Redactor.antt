-- ===== src/Redact/Redactor.antt =====
-- crates/lens-redact/src/lib.rs: `Redactor::redact`.
use lens.Prelude.{
  Bool, true, false, not, ◌&&◌, ◌||◌, [], ◌∷◌, ◌++◌, Option, none, some, ◌==◌, if◌then◌else◌, any,
}
use lens.Protocol.{DecodedMessage, Headers, header_value}
use lens.Redact.Names.{replacement, is_one_of, is_sensitive_name}
use lens.Redact.Pairs.{redact_pairs, redact_start_line}
use lens.Redact.Redis.{redact_redis}
use lens.Redact.Sql.{redact_sql_literals}
use lens.Text.{Bytes, str, eq_bytes, eq_ignore_ascii_case, to_ascii_lowercase}
use lens.Text.Utf8.{from_utf8}
use lens.Text.Words.{find_bytes}
use mathlib.Core.Option.{get_or}

pub record RedactionOutcome : Type 0 where
  pub safe : DecodedMessage
  pub was_redacted : Bool

-- The regular expression `json_secret`, of the regex package: whether it matches a text, and the
-- text with each match replaced by what a function makes of the match's first group.
pub record JsonSecret : Type 0 where
  pub is_match : Bytes → Bool
  pub replace_all : Bytes → (Bytes → Bytes) → Bytes

abbrev pub has_header : Bytes → Bytes → Headers → Bool
has_header wanted expected headers =
    any (λ h. eq_ignore_ascii_case h.0 wanted && eq_ignore_ascii_case h.1 expected) headers

abbrev pub is_protocol : Bytes → DecodedMessage → Bool
is_protocol protocol m = has_header (str "lens-protocol") protocol m.headers

abbrev pub is_content : Bytes → DecodedMessage → Bool
is_content content m = has_header (str "lens-content") content m.headers

abbrev pub is_sql_field : Bytes → Bool
is_sql_field name =
    is_one_of (str "message" ∷ str "detail" ∷ str "hint" ∷ str "where" ∷ [])
      (to_ascii_lowercase name)

-- `(safe, changed)`, or the text that is there
abbrev pub if_changed : Bytes → Bytes × Bool → Bytes × Bool
if_changed text (safe, changed) = if changed then (safe, true) else (text, false)

unfoldable pub redact_header : Bool → Bytes → Bytes → Bytes × Bool
unfolding is_sensitive_name redact_sql_literals is_one_of
redact_header postgres name value =
    if is_sensitive_name name && not (eq_bytes value replacement)
    then (replacement, true)
    else if postgres && is_sql_field name
    then if_changed value (redact_sql_literals value)
    else (value, false)

unfoldable pub redact_headers : Bool → Headers → Headers × Bool
unfolding redact_header
redact_headers postgres [] = ([], false)
redact_headers postgres ((name, value) ∷ headers) =
    let (safe, changed) = redact_header postgres name value in
    let (rest, more) = redact_headers postgres headers in ((name, safe) ∷ rest, changed || more)

abbrev pub on_text : (Bytes → Bytes × Bool) → Bytes → Option Bytes → Bytes × Bool
on_text redact body none = (body, false)
on_text redact body (some text) = if_changed body (redact text)

abbrev pub replace_body : Bytes → Bytes × Bool
replace_body [] = ([], false)
replace_body (byte ∷ bytes) = (replacement, true)

abbrev pub is_empty : Bytes → Bool
is_empty [] = true
is_empty (byte ∷ bytes) = false

abbrev pub contains : Bytes → Bytes → Bool
contains text needle = elim (find_bytes text needle) [ none ↦ false | some i ↦ true ]

abbrev pub begins_json : Bytes → Bool
begins_json [] = false
begins_json (byte ∷ bytes) = byte == b'{' || byte == b'['

abbrev pub is_postgres_sql : DecodedMessage → Bool
is_postgres_sql m = is_protocol (str "postgres") m && is_content (str "sql") m

abbrev pub redact_line : DecodedMessage → DecodedMessage × Bool
redact_line m =
    let (start_line, changed) = redact_start_line m.start_line in
    (record m { start_line = start_line }, changed)

-- The start line and the headers. The message's protocol is read before anything is changed.
unfoldable pub redact_head : DecodedMessage → DecodedMessage × Bool
unfolding redact_redis redact_start_line redact_headers eq_ignore_ascii_case str
redact_head m =
    let (m', changed) = if is_protocol (str "redis") m then redact_redis m else redact_line m in
    let (headers, more) = redact_headers (is_protocol (str "postgres") m) m'.headers in
    (record m' { headers = headers }, changed || more)

module _ (json_secret : JsonSecret) where
  abbrev pub hide_group : Bytes → Bytes
  hide_group group = group ++ (b'"' ∷ (replacement ++ b'"' ∷ []))

  unfoldable pub redact_json : Bytes → Bytes × Bool
  unfolding str
  redact_json body =
      if json_secret.is_match body
      then (json_secret.replace_all body hide_group, true)
      else (body, false)

  unfoldable pub redact_content : Bytes → Bytes → Bytes × Bool
  unfolding redact_json redact_pairs from_utf8 find_bytes
  redact_content content_type body =
      if contains content_type (str "application/x-www-form-urlencoded")
      then on_text (λ text. redact_pairs text b'&') body (from_utf8 body)
      else if contains content_type (str "json") || begins_json body
      then on_text redact_json body (from_utf8 body)
      else (body, false)

  abbrev pub content_type_of : Headers → Bytes
  content_type_of headers =
      to_ascii_lowercase (get_or (header_value (str "content-type") headers) [])

  -- What becomes of the body. The first message is the one that `redact` was given, the second the
  -- one behind its headers' redaction.
  unfoldable pub redact_body : DecodedMessage → DecodedMessage → Bytes × Bool
  unfolding redact_content redact_sql_literals from_utf8 eq_ignore_ascii_case header_value
      to_ascii_lowercase
  redact_body m m' =
      if is_postgres_sql m
      then on_text redact_sql_literals m'.body (from_utf8 m'.body)
      else if is_protocol (str "redis") m
      then (if is_content (str "redis-value") m' then replace_body m'.body else (m'.body, false))
      else if is_protocol (str "grpc") m && is_content (str "protobuf") m' && not (is_empty m'.body)
      then (replacement, true)
      else redact_content (content_type_of m'.headers) m'.body

  unfoldable pub redact : Bool → DecodedMessage → RedactionOutcome
  unfolding redact_head redact_body
  redact true m = record { safe = m; was_redacted = false }
  redact false m =
      let (m', changed) = redact_head m in
      let (body, more) = redact_body m m' in
      record { safe = record m' { body = body }; was_redacted = changed || more }
