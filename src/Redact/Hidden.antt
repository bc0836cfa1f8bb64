-- ===== src/Redact/Hidden.antt =====
-- Which headers redaction hides, and what a Redis command's summary shows.
use lens.Prelude.{
  ℕ, suc, Bool, true, false, not, ◌&&◌, List, [], ◌∷◌, Option, none, some, if◌then◌else◌, map, All,
  ◌≡◌, refl, sym, ap, ◌∙◌, Bool-cases, inl, inr, ◌⊎◌,
}
use lens.Protocol.{DecodedMessage, Headers, header_value}
use lens.Redact.Names.{replacement, is_sensitive_name}
use lens.Redact.Redactor.{
  JsonSecret, redact, redact_head, redact_headers, redact_header, if_changed, is_protocol,
  is_sql_field, redact_line,
}
use lens.Redact.Redis.{
  redact_redis, redact_command, redact_arguments, redis_argument_is_sensitive, conceal,
  argument_values, is_argument, redis_line, next_header,
}
use lens.Redact.Sql.{redact_sql_literals}
use lens.Text.{Bytes, str, eq_bytes, eq_bytes_iff, to_ascii_uppercase, eq_bytes_refl}
use mathlib.Core.Option

-- A header that is not sensitive by its name, or shows the replacement only.
abbrev pub Hidden : Bytes × Bytes → Type 0
Hidden (name, value) = (is_sensitive_name name ≡ false) ⊎ (value ≡ replacement)

replacement-redact_sql_literals : redact_sql_literals replacement ≡ (replacement, false)
unfolding redact_sql_literals str
replacement-redact_sql_literals = refl

replacement_kept :
    (sensitive sql : Bool)
    → (if sensitive && not true
        then (replacement, true)
        else if sql
        then if_changed replacement (replacement, false)
        else (replacement, false)).0
      ≡ replacement
replacement_kept true true = refl
replacement_kept true false = refl
replacement_kept false true = refl
replacement_kept false false = refl

redact_header-replacement :
    (postgres : Bool) (name : Bytes) → (redact_header postgres name replacement).0 ≡ replacement
unfolding redact_header
redact_header-replacement postgres name =
    rw (eq_bytes_refl replacement, replacement-redact_sql_literals)
      (replacement_kept (is_sensitive_name name) (postgres && is_sql_field name))

redact_header-Hidden :
    (postgres : Bool) (name value : Bytes) → Hidden (name, (redact_header postgres name value).0)
unfolding redact_header
redact_header-Hidden postgres name value = elim (Bool-cases (is_sensitive_name name)) [
  | inr e ↦ inl e
  | inl e ↦ elim (Bool-cases (eq_bytes value replacement)) [
    | inl same ↦
        let v : value ≡ replacement = (eq_bytes_iff value replacement).0 same in
        inr
          (ap (λ x. (redact_header postgres name x).0) v ∙ redact_header-replacement postgres name)
    | inr other ↦ inr (rw (e, other, redact_header) refl)
  ]
]

redact_headers-Hidden :
    (postgres : Bool) (headers : Headers) → All Hidden (redact_headers postgres headers).0
unfolding redact_headers
redact_headers-Hidden postgres [] = tt
redact_headers-Hidden postgres ((name, value) ∷ headers) =
    (redact_header-Hidden postgres name value, redact_headers-Hidden postgres headers)

abbrev pub names : Headers → List Bytes
names headers = map (λ (h : Bytes × Bytes). h.0) headers

names-redact_headers :
    (postgres : Bool) (headers : Headers)
    → names (redact_headers postgres headers).0 ≡ names headers
unfolding redact_headers
names-redact_headers postgres [] = refl
names-redact_headers postgres ((name, value) ∷ headers) =
    ap (name ∷◌) (names-redact_headers postgres headers)

-- The arguments as they are shown, from the one at `position` on: those that are sensitive by their
-- command, position and neighbours are replaced.
unfoldable pub shown_arguments : Bytes → List Bytes → ℕ → List Bytes → List Bytes
shown_arguments command arguments position [] = []
shown_arguments command arguments position (value ∷ values) =
    (if redis_argument_is_sensitive command position arguments then replacement else value)
    ∷ shown_arguments command arguments (suc position) values

conceal_lem :
    (command : Bytes) (position : ℕ) (arguments : List Bytes) (value : Bytes)
    → (if conceal command position arguments value then replacement else value)
      ≡ (if redis_argument_is_sensitive command position arguments then replacement else value)
conceal_lem command position arguments value =
    elim (Bool-cases (redis_argument_is_sensitive command position arguments)) [
      | inr e ↦ rw e refl
      | inl e ↦ elim (Bool-cases (eq_bytes value replacement)) [
        | inl same ↦ rw (e, same) ((eq_bytes_iff value replacement).0 same)
        | inr other ↦ rw (e, other) refl
      ]
    ]

names-next_header :
    (b : Bool) (name value : Bytes) (r : Headers × Bool)
    → names (next_header b name value r).0 ≡ name ∷ names r.0
names-next_header true name value r = refl
names-next_header false name value r = refl

names-redact_arguments :
    (command : Bytes) (arguments : List Bytes) (position : ℕ) (headers : Headers)
    → names (redact_arguments command arguments position headers).0 ≡ names headers
unfolding redact_arguments
names-redact_arguments command arguments position [] = refl
names-redact_arguments command arguments position ((name, value) ∷ headers) =
    names-next_header (is_argument name && conceal command position arguments value) name value (
      redact_arguments command arguments (if is_argument name then suc position else position)
        headers)
    ∙ ap (name ∷◌) (
        names-redact_arguments command arguments
          (if is_argument name then suc position else position) headers)

module _ (name value : Bytes) (headers : Headers) where
  argument_values_other :
      is_argument name ≡ false → argument_values ((name, value) ∷ headers) ≡ argument_values headers
  unfolding argument_values
  argument_values_other e = rw (e, argument_values) refl

  argument_values_argument :
      is_argument name ≡ true
      → argument_values ((name, value) ∷ headers) ≡ value ∷ argument_values headers
  unfolding argument_values
  argument_values_argument e = rw (e, argument_values) refl

  module _ (command : Bytes) (arguments : List Bytes) (position : ℕ) where
    redact_arguments_other :
        is_argument name ≡ false
        → redact_arguments command arguments position ((name, value) ∷ headers)
          ≡ next_header false name value (redact_arguments command arguments position headers)
    unfolding redact_arguments
    redact_arguments_other e = rw (e, redact_arguments) refl

    redact_arguments_argument :
        is_argument name ≡ true
        → redact_arguments command arguments position ((name, value) ∷ headers)
          ≡ next_header
              (conceal command position arguments value)
              name
              value
              (redact_arguments command arguments (suc position) headers)
    unfolding redact_arguments
    redact_arguments_argument e = rw (e, redact_arguments) refl

argument_values-next_header :
    (conceals : Bool) (name value : Bytes) (r : Headers × Bool)
    → is_argument name ≡ true
    → argument_values (next_header conceals name value r).0
      ≡ (if conceals then replacement else value) ∷ argument_values r.0
argument_values-next_header true name value r e = argument_values_argument name replacement r.0 e
argument_values-next_header false name value r e = argument_values_argument name value r.0 e

argument_values-redact_arguments :
    (command : Bytes) (arguments : List Bytes) (position : ℕ) (headers : Headers)
    → argument_values (redact_arguments command arguments position headers).0
      ≡ shown_arguments command arguments position (argument_values headers)
unfolding redact_arguments argument_values shown_arguments
argument_values-redact_arguments command arguments position [] = refl
argument_values-redact_arguments command arguments position ((name, value) ∷ headers) =
    elim (Bool-cases (is_argument name)) [
      | inr e ↦
          let r = redact_arguments command arguments position headers in
          ap (λ x. argument_values x.0)
            (redact_arguments_other name value headers command arguments position e)
          ∙ argument_values_other name value r.0 e
          ∙ argument_values-redact_arguments command arguments position headers
          ∙ ap (shown_arguments command arguments position)
              (sym (argument_values_other name value headers e))
      | inl e ↦
          let conceals = conceal command position arguments value in
          let r = redact_arguments command arguments (suc position) headers in
          let rest = argument_values-redact_arguments command arguments (suc position) headers in
          ap (λ x. argument_values x.0)
            (redact_arguments_argument name value headers command arguments position e)
          ∙ argument_values-next_header conceals name value r e
          ∙ ap (◌∷ argument_values r.0) (conceal_lem command position arguments value)
          ∙ ap
              ((if redis_argument_is_sensitive command position arguments
                  then replacement
                  else value)
                ∷◌)
              rest
          ∙ ap (shown_arguments command arguments position)
              (sym (argument_values_argument name value headers e))
    ]

names-redact_command :
    (m : DecodedMessage) (o : Option Bytes) → names (redact_command m o).0.headers ≡ names m.headers
names-redact_command m none = refl
names-redact_command m (some command) =
    names-redact_arguments command (argument_values m.headers) 0 m.headers

names-redact_redis : (m : DecodedMessage) → names (redact_redis m).0.headers ≡ names m.headers
unfolding redact_redis
names-redact_redis m =
    names-redact_command m
      (Option.map to_ascii_uppercase (header_value (str "redis-command") m.headers))

redact_redis-redis_line :
    (m : DecodedMessage) (command : Bytes)
    → header_value (str "redis-command") m.headers ≡ some command
    → (redact_redis m).0.start_line
      ≡ redis_line (to_ascii_uppercase command) (
          shown_arguments
            (to_ascii_uppercase command)
            (argument_values m.headers)
            0
            (argument_values m.headers))
unfolding redact_redis
redact_redis-redis_line m command e =
    let upper = to_ascii_uppercase command in
    let found : Option.map to_ascii_uppercase (header_value (str "redis-command") m.headers)
        ≡ some upper =
      ap (Option.map to_ascii_uppercase) e in
    ap (λ o. (redact_command m o).0.start_line) found
    ∙ ap (redis_line upper)
        (argument_values-redact_arguments upper (argument_values m.headers) 0 m.headers)

module _ (json_secret : JsonSecret) where
  -- Redaction keeps the names of the headers, in their order, and every header with a sensitive
  -- name shows the replacement only.
  pub redact-Hidden :
      (m : DecodedMessage)
      → let safe = (redact json_secret false m).safe in
        All Hidden safe.headers × (names safe.headers ≡ names m.headers)
  unfolding redact redact_head
  redact-Hidden m =
      let redis = is_protocol (str "redis") m in
      let m' = (if redis then redact_redis m else redact_line m).0 in
      let postgres = is_protocol (str "postgres") m in
      let same : names m'.headers ≡ names m.headers = elim (Bool-cases redis) [
        | inl e ↦
            ap (λ b. names (if b then redact_redis m else redact_line m).0.headers) e
            ∙ names-redact_redis m
        | inr e ↦ ap (λ b. names (if b then redact_redis m else redact_line m).0.headers) e
      ] in
      (redact_headers-Hidden postgres m'.headers, names-redact_headers postgres m'.headers ∙ same)

  -- The start line of a redacted Redis request, by the arguments that the code finds sensitive.
  pub redact-redis_line :
      (m : DecodedMessage) (command : Bytes)
      → is_protocol (str "redis") m ≡ true
      → header_value (str "redis-command") m.headers ≡ some command
      → (redact json_secret false m).safe.start_line
        ≡ redis_line (to_ascii_uppercase command) (
            shown_arguments
              (to_ascii_uppercase command)
              (argument_values m.headers)
              0
              (argument_values m.headers))
  unfolding redact redact_head redact_redis
  redact-redis_line m command p e =
      ap (λ b. (if b then redact_redis m else redact_line m).0.start_line) p
      ∙ redact_redis-redis_line m command e
