-- ===== src/Redact/Unchanged.antt =====
-- What redaction leaves as it is, if it reports no change.
use lens.Prelude.{
  Bool, true, false, not, ◌&&◌, ◌||◌, List, [], ◌∷◌, ◌++◌, Option, none, some, if◌then◌else◌, ◌≡◌,
  refl, sym, subst, inl, inr, ◌⊎◌, arith,
}
use lens.Protocol.{DecodedMessage, Headers}
use lens.Redact.Names.{replacement, is_sensitive_name}
use lens.Redact.Pairs.{
  redact_pairs, redact_start_line, redact_request, redact_target, redact_query, split_fragment,
}
use lens.Redact.Redactor.{
  JsonSecret, redact, redact_head, redact_body, redact_headers, redact_header, if_changed, on_text,
  replace_body, redact_json, redact_content, is_protocol, hide_group, contains, begins_json,
  content_type_of, is_sql_field,
}
use lens.Redact.Sql.{redact_sql_literals}
use lens.Text.{Bytes, str, eq_bytes, starts_with}
use lens.Text.Utf8.{from_utf8}
use lens.Text.Words.{split_once, split_whitespace}

-- Nothing is reported, or the text is another; without a report it is as it was.
abbrev pub Honest : Bytes → Bytes × Bool → Type 0
Honest text (safe, changed) = (changed ≡ true) ⊎ (safe ≡ text)

if_changed-Honest : (text : Bytes) (r : Bytes × Bool) → Honest text (if_changed text r)
if_changed-Honest text (safe, true) = inl refl
if_changed-Honest text (safe, false) = inr refl

on_text-Honest :
    (f : Bytes → Bytes × Bool) (body : Bytes) (o : Option Bytes) → Honest body (on_text f body o)
on_text-Honest f body none = inr refl
on_text-Honest f body (some text) = if_changed-Honest body (f text)

replace_body-Honest : (body : Bytes) → Honest body (replace_body body)
replace_body-Honest [] = inr refl
replace_body-Honest (byte ∷ bytes) = inl refl

if-Honest :
    (text : Bytes) (b : Bool) (x y : Bytes × Bool)
    → Honest text x
    → Honest text y
    → Honest text (if b then x else y)
if-Honest text true x y h k = h
if-Honest text false x y h k = k

redact_query-Honest :
    (line method path version : Bytes) (parts : Bytes × Bytes)
    → Honest line (redact_query line method path version parts)
redact_query-Honest line method path version (query, fragment) =
    let (safe, changed) = redact_pairs query b'&' in
    if-Honest line changed
      (method ++ (b' ' ∷ (path ++ (b'?' ∷ (safe ++ (fragment ++ (b' ' ∷ version)))))), true)
      (line, false) (inl refl) (inr refl)

redact_target-Honest :
    (line method target version : Bytes) (o : Option (Bytes × Bytes))
    → split_once b'?' target ≡ o
    → Honest line (redact_target line method target version)
redact_target-Honest line method target version none e = rw (e, redact_target) (inr refl)
redact_target-Honest line method target version (some (path, query)) e =
    let same : redact_target line method target version
        ≡ redact_query line method path version (split_fragment query) =
      rw (e, redact_target) in
    subst (Honest line) (sym same)
      (redact_query-Honest line method path version (split_fragment query))

redact_request-Honest :
    (line : Bytes) (words : List Bytes) → Honest line (redact_request line words)
redact_request-Honest line [] = inr refl
redact_request-Honest line (method ∷ []) = inr refl
redact_request-Honest line (method ∷ target ∷ []) = inr refl
redact_request-Honest line (method ∷ target ∷ version ∷ more) =
    if-Honest line (starts_with method (str "HTTP/") || not (starts_with version (str "HTTP/"))) _ _
      (inr refl) (redact_target-Honest line method target version (split_once b'?' target) refl)

redact_start_line-Honest : (line : Bytes) → Honest line (redact_start_line line)
unfolding redact_start_line
redact_start_line-Honest line = redact_request-Honest line (split_whitespace line)

redact_header-Honest :
    (postgres : Bool) (name value : Bytes) → Honest value (redact_header postgres name value)
unfolding redact_header
redact_header-Honest postgres name value =
    let sql = if_changed value (redact_sql_literals value) in
    let rest = if postgres && is_sql_field name then sql else (value, false) in
    if-Honest value (is_sensitive_name name && not (eq_bytes value replacement)) (replacement, true)
      rest (inl refl)
      (if-Honest value (postgres && is_sql_field name) sql (value, false)
        (if_changed-Honest value (redact_sql_literals value)) (inr refl))

abbrev pub HonestHeaders : Headers → Headers × Bool → Type 0
HonestHeaders headers (safe, changed) = (changed ≡ true) ⊎ (safe ≡ headers)

cons-HonestHeaders :
    (name value : Bytes) (headers : Headers) (r : Bytes × Bool) (rest : Headers × Bool)
    → Honest value r
    → HonestHeaders headers rest
    → HonestHeaders ((name, value) ∷ headers) ((name, r.0) ∷ rest.0, r.1 || rest.1)
cons-HonestHeaders name value headers (safe, true) rest h k = inl refl
cons-HonestHeaders name value headers (safe, false) (hs, true) h k = inl refl
cons-HonestHeaders name value headers (safe, false) (hs, false) (inl h) k = absurd (cc h)
cons-HonestHeaders name value headers (safe, false) (hs, false) (inr h) (inl k) = absurd (cc k)
cons-HonestHeaders name value headers (safe, false) (hs, false) (inr h) (inr k) = inr (cc (h, k))

redact_headers-Honest :
    (postgres : Bool) (headers : Headers) → HonestHeaders headers (redact_headers postgres headers)
unfolding redact_headers
redact_headers-Honest postgres [] = inr refl
redact_headers-Honest postgres ((name, value) ∷ headers) =
    cons-HonestHeaders name value headers (redact_header postgres name value)
      (redact_headers postgres headers) (redact_header-Honest postgres name value)
      (redact_headers-Honest postgres headers)

abbrev HonestMessage : DecodedMessage → DecodedMessage × Bool → Type 0
HonestMessage m (m', changed) = (changed ≡ true) ⊎ (m' ≡ m)

-- What the second of two changes leaves of what the first one does.
head-HonestMessage :
    (m : DecodedMessage) (line : Bytes × Bool) (headers : Headers × Bool)
    → Honest m.start_line line
    → HonestHeaders m.headers headers
    → HonestMessage m (record m { start_line = line.0; headers = headers.0 }, line.1 || headers.1)
head-HonestMessage m (l, true) headers h k = inl refl
head-HonestMessage m (l, false) (hs, true) h k = inl refl
head-HonestMessage m (l, false) (hs, false) (inl h) k = absurd (cc h)
head-HonestMessage m (l, false) (hs, false) (inr h) (inl k) = absurd (cc k)
head-HonestMessage m (l, false) (hs, false) (inr h) (inr k) = inr (rw (h, k) refl)

redact_head-HonestMessage :
    (m : DecodedMessage) → is_protocol (str "redis") m ≡ false → HonestMessage m (redact_head m)
unfolding redact_head
redact_head-HonestMessage m e =
    let line = redact_start_line m.start_line in
    let headers = redact_headers (is_protocol (str "postgres") m) m.headers in
    let same : redact_head m
        ≡ (record m { start_line = line.0; headers = headers.0 }, line.1 || headers.1) =
      rw (e, redact_head) refl in
    subst (HonestMessage m) (sym same) (
      head-HonestMessage m line headers (redact_start_line-Honest m.start_line)
        (redact_headers-Honest (is_protocol (str "postgres") m) m.headers))

module _ (json_secret : JsonSecret) where
  redact_json-Honest : (body : Bytes) → Honest body (redact_json json_secret body)
  unfolding redact_json
  redact_json-Honest body =
      if-Honest body (json_secret.is_match body)
        (json_secret.replace_all body (hide_group json_secret), true) (body, false) (inl refl)
        (inr refl)

  redact_content-Honest :
      (content_type body : Bytes) → Honest body (redact_content json_secret content_type body)
  unfolding redact_content
  redact_content-Honest content_type body =
      let form = on_text (λ text. redact_pairs text b'&') body (from_utf8 body) in
      let json = on_text (redact_json json_secret) body (from_utf8 body) in
      let json_like = contains content_type (str "json") || begins_json body in
      if-Honest body (contains content_type (str "application/x-www-form-urlencoded")) form
        (if json_like then json else (body, false))
        (on_text-Honest (λ text. redact_pairs text b'&') body (from_utf8 body))
        (if-Honest body json_like json (body, false)
          (on_text-Honest (redact_json json_secret) body (from_utf8 body)) (inr refl))

  redact_body-Honest : (m m' : DecodedMessage) → Honest m'.body (redact_body json_secret m m')
  unfolding redact_body
  redact_body-Honest m m' = ground (
    arith,
    on_text-Honest redact_sql_literals m'.body (from_utf8 m'.body),
    replace_body-Honest m'.body,
    redact_content-Honest (content_type_of json_secret m'.headers) m'.body,
  )

  finish-HonestMessage :
      (m : DecodedMessage) (head : DecodedMessage × Bool) (body : Bytes × Bool)
      → HonestMessage m head
      → Honest head.0.body body
      → (head.1 || body.1) ≡ false
      → record head.0 { body = body.0 } ≡ m
  finish-HonestMessage m (m', changed) (b, more) (inl h) k e = absurd (cc (h, e))
  finish-HonestMessage m (m', true) (b, more) (inr h) k e = absurd (cc e)
  finish-HonestMessage m (m', false) (b, more) (inr h) (inl k) e = absurd (cc (k, e))
  finish-HonestMessage m (m', false) (b, more) (inr h) (inr k) e = rw k h

  -- If redaction of a message that is not of Redis reports no change, it returned the message as it
  -- was.
  pub redact_unchanged :
      (m : DecodedMessage)
      → is_protocol (str "redis") m ≡ false
      → (redact json_secret false m).was_redacted ≡ false
      → (redact json_secret false m).safe ≡ m
  unfolding redact
  redact_unchanged m p e =
      finish-HonestMessage m (redact_head m) (redact_body json_secret m (redact_head m).0)
        (redact_head-HonestMessage m p) (redact_body-Honest m (redact_head m).0) e
