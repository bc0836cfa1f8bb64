-- ===== src/Redact/Commands.antt =====
-- What is shown of the arguments of Redis commands, command by command.
use lens.Prelude.{
  ℕ, zero, suc, ◌≤◌, ◌+◌, ◌%◌, Bool, true, false, ◌&&◌, List, [], ◌∷◌, ◌++◌, map, ltb, leb, ◌==◌,
  ◌≡◌, some, refl, sym, ap, ◌∙◌, if◌then◌else◌, Bool-cases, inl, inr, arith,
}
use lens.Protocol.{DecodedMessage, header_value}
use lens.Redact.Hidden.{shown_arguments, redact-redis_line}
use lens.Redact.Names.{replacement}
use lens.Redact.Redactor.{JsonSecret, redact, is_protocol}
use lens.Redact.Redis.{redis_argument_is_sensitive, argument_values, redis_line}
use lens.Text.{Bytes, str, join, eq_ignore_ascii_case, to_ascii_uppercase}

abbrev pub hide_all : List Bytes → List Bytes
hide_all = map (λ value. replacement)

-- The first arguments are shown, and the others are not.
unfoldable pub keep : ℕ → List Bytes → List Bytes
keep zero values = hide_all values
keep (suc n) [] = []
keep (suc n) (value ∷ values) = value ∷ keep n values

-- Names and values in turn, of which the values are hidden.
unfoldable pub hide_values : List Bytes → List Bytes
hide_values [] = []
hide_values (name ∷ []) = name ∷ []
hide_values (name ∷ value ∷ values) = name ∷ replacement ∷ hide_values values

abbrev pub hide_fields : List Bytes → List Bytes
hide_fields [] = []
hide_fields (key ∷ values) = key ∷ hide_values values

abbrev pub hide_setting : List Bytes → List Bytes
hide_setting [] = []
hide_setting (operation ∷ values) =
    if eq_ignore_ascii_case operation (str "SET")
    then operation ∷ keep 1 values
    else operation ∷ values

-- What is shown of the arguments of a command.
pub data Shows : Bytes → (List Bytes → List Bytes) → Type 0 where
  auth : Shows (str "AUTH") hide_all
  eval : Shows (str "EVAL") hide_all
  evalsha : Shows (str "EVALSHA") hide_all
  fcall : Shows (str "FCALL") hide_all
  fcall_ro : Shows (str "FCALL_RO") hide_all
  set : Shows (str "SET") (keep 1)
  setnx : Shows (str "SETNX") (keep 1)
  getset : Shows (str "GETSET") (keep 1)
  append : Shows (str "APPEND") (keep 1)
  setrange : Shows (str "SETRANGE") (keep 1)
  setex : Shows (str "SETEX") (keep 1)
  psetex : Shows (str "PSETEX") (keep 1)
  json_set : Shows (str "JSON.SET") (keep 2)
  mset : Shows (str "MSET") hide_values
  msetnx : Shows (str "MSETNX") hide_values
  hset : Shows (str "HSET") hide_fields
  hsetnx : Shows (str "HSETNX") hide_fields
  hmset : Shows (str "HMSET") hide_fields
  config : Shows (str "CONFIG") hide_setting

-- The arguments where those are replaced whose position passes a test.
shown_by : (ℕ → Bool) → ℕ → List Bytes → List Bytes
shown_by test position [] = []
shown_by test position (value ∷ values) =
    (if test position then replacement else value) ∷ shown_by test (suc position) values

shown_arguments-shown_by :
    (command : Bytes) (arguments : List Bytes) (test : ℕ → Bool)
    → ((position : ℕ) → redis_argument_is_sensitive command position arguments ≡ test position)
    → (position : ℕ) (values : List Bytes)
    → shown_arguments command arguments position values ≡ shown_by test position values
unfolding shown_arguments shown_by
shown_arguments-shown_by command arguments test h position [] = refl
shown_arguments-shown_by command arguments test h position (value ∷ values) =
    ap
      (λ b.
        (if b then replacement else value)
        ∷ shown_arguments command arguments (suc position) values)
      (h position)
    ∙ ap ((if test position then replacement else value) ∷◌)
        (shown_arguments-shown_by command arguments test h (suc position) values)

always : ℕ → Bool
always position = true

never : ℕ → Bool
never position = false

shown_by-always :
    (position : ℕ) (values : List Bytes) → shown_by always position values ≡ hide_all values
unfolding shown_by always
shown_by-always position [] = refl
shown_by-always position (value ∷ values) =
    ap (replacement ∷◌) (shown_by-always (suc position) values)

shown_by-never : (position : ℕ) (values : List Bytes) → shown_by never position values ≡ values
unfolding shown_by never
shown_by-never position [] = refl
shown_by-never position (value ∷ values) = ap (value ∷◌) (shown_by-never (suc position) values)

shown_by-above :
    (least position : ℕ) (values : List Bytes)
    → least ≤ position
    → shown_by (leb least) position values ≡ hide_all values
unfolding shown_by
shown_by-above least position [] h = refl
shown_by-above least position (value ∷ values) h =
    let later = shown_by-above least (suc position) values (omega (arith, h)) in
    ground (arith, h, later)

shown_by-keep :
    (n position : ℕ) (values : List Bytes)
    → shown_by (leb (n + position)) position values ≡ keep n values
unfolding shown_by keep
shown_by-keep zero position values =
    let same : 0 + position ≡ position = omega arith in
    ap (λ m. shown_by (leb m) position values) same
    ∙ shown_by-above position position values (omega arith)
shown_by-keep (suc n) position [] = refl
shown_by-keep (suc n) position (value ∷ values) =
    let moved : suc n + position ≡ n + suc position = omega arith in
    let later =
      ap (λ m. shown_by (leb m) (suc position) values) moved
      ∙ shown_by-keep n (suc position) values in
    ground (arith, later)

is_odd : ℕ → Bool
is_odd position = position % 2 == 1

shown_by-hide_values :
    (position : ℕ) (values : List Bytes)
    → position % 2 ≡ 0
    → shown_by is_odd position values ≡ hide_values values
unfolding shown_by hide_values is_odd
shown_by-hide_values position [] h = refl
shown_by-hide_values position (name ∷ []) h = ground (arith, h)
shown_by-hide_values position (name ∷ value ∷ values) h =
    let later = shown_by-hide_values (suc (suc position)) values (omega (arith, h)) in
    ground (arith, h, later)

is_field : ℕ → Bool
is_field position = leb 2 position && position % 2 == 0

shown_by-hide_fields :
    (position : ℕ) (values : List Bytes)
    → position % 2 ≡ 1
    → shown_by is_field position values ≡ hide_values values
unfolding shown_by hide_values is_field
shown_by-hide_fields position [] h = refl
shown_by-hide_fields position (name ∷ []) h = ground (arith, h)
shown_by-hide_fields position (name ∷ value ∷ values) h =
    let later = shown_by-hide_fields (suc (suc position)) values (omega (arith, h)) in
    ground (arith, h, later)

module _ (command : Bytes) (values : List Bytes) where
  Sensitive : (ℕ → Bool) → Type 0
  Sensitive test =
      (position : ℕ) → redis_argument_is_sensitive command position values ≡ test position

  shown-hide_all : Sensitive always → shown_arguments command values 0 values ≡ hide_all values
  unfolding Sensitive
  shown-hide_all h =
      shown_arguments-shown_by command values always h 0 values ∙ shown_by-always 0 values

  shown-keep : (n : ℕ) → Sensitive (leb n) → shown_arguments command values 0 values ≡ keep n values
  unfolding Sensitive
  shown-keep n h =
      let same : n + 0 ≡ n = omega arith in
      shown_arguments-shown_by command values (leb n) h 0 values
      ∙ ap (λ m. shown_by (leb m) 0 values) (sym same)
      ∙ shown_by-keep n 0 values

  shown-hide_values :
      Sensitive is_odd → shown_arguments command values 0 values ≡ hide_values values
  unfolding Sensitive
  shown-hide_values h =
      shown_arguments-shown_by command values is_odd h 0 values ∙ shown_by-hide_values 0 values refl

fields_by : (values : List Bytes) → shown_by is_field 0 values ≡ hide_fields values
unfolding shown_by is_field
fields_by [] = refl
fields_by (key ∷ values) = ap (key ∷◌) (shown_by-hide_fields 1 values refl)

settings_by :
    (operation : Bytes) (values : List Bytes)
    → shown_by
        (λ position. eq_ignore_ascii_case operation (str "SET") && leb 2 position)
        0
        (operation ∷ values)
      ≡ hide_setting (operation ∷ values)
unfolding shown_by never
settings_by operation values =
    let shown = λ (b : Bool). shown_by (λ position. b && leb 2 position) 0 (operation ∷ values) in
    let choose = λ (b : Bool). if b then operation ∷ keep 1 values else operation ∷ values in
    elim (Bool-cases (eq_ignore_ascii_case operation (str "SET"))) [
      | inl e ↦ ap shown e ∙ ap (operation ∷◌) (shown_by-keep 1 1 values) ∙ sym (ap choose e)
      | inr e ↦ ap shown e ∙ ap (operation ∷◌) (shown_by-never 1 values) ∙ sym (ap choose e)
    ]

positive : (position : ℕ) → ltb 0 position ≡ leb 1 position
positive position = ground arith

Shows-shown_arguments :
    {command : Bytes} {rule : List Bytes → List Bytes}
    → Shows command rule
    → (values : List Bytes) → shown_arguments command values 0 values ≡ rule values
unfolding shown_arguments redis_argument_is_sensitive str is_odd is_field Sensitive always
Shows-shown_arguments auth values = shown-hide_all (str "AUTH") values (λ p. refl)
Shows-shown_arguments eval values = shown-hide_all (str "EVAL") values (λ p. refl)
Shows-shown_arguments evalsha values = shown-hide_all (str "EVALSHA") values (λ p. refl)
Shows-shown_arguments fcall values = shown-hide_all (str "FCALL") values (λ p. refl)
Shows-shown_arguments fcall_ro values = shown-hide_all (str "FCALL_RO") values (λ p. refl)
Shows-shown_arguments set values = shown-keep (str "SET") values 1 positive
Shows-shown_arguments setnx values = shown-keep (str "SETNX") values 1 positive
Shows-shown_arguments getset values = shown-keep (str "GETSET") values 1 positive
Shows-shown_arguments append values = shown-keep (str "APPEND") values 1 positive
Shows-shown_arguments setrange values = shown-keep (str "SETRANGE") values 1 positive
Shows-shown_arguments setex values = shown-keep (str "SETEX") values 1 positive
Shows-shown_arguments psetex values = shown-keep (str "PSETEX") values 1 positive
Shows-shown_arguments json_set values = shown-keep (str "JSON.SET") values 2 (λ p. refl)
Shows-shown_arguments mset values = shown-hide_values (str "MSET") values (λ p. refl)
Shows-shown_arguments msetnx values = shown-hide_values (str "MSETNX") values (λ p. refl)
Shows-shown_arguments hset values =
    shown_arguments-shown_by (str "HSET") values is_field (λ p. refl) 0 values ∙ fields_by values
Shows-shown_arguments hsetnx values =
    shown_arguments-shown_by (str "HSETNX") values is_field (λ p. refl) 0 values ∙ fields_by values
Shows-shown_arguments hmset values =
    shown_arguments-shown_by (str "HMSET") values is_field (λ p. refl) 0 values ∙ fields_by values
Shows-shown_arguments config [] = refl
Shows-shown_arguments config (operation ∷ values) =
    shown_arguments-shown_by (str "CONFIG") (operation ∷ values)
      (λ position. eq_ignore_ascii_case operation (str "SET") && leb 2 position) (λ p. refl) 0
      (operation ∷ values)
    ∙ settings_by operation values

redis_line-join :
    (command : Bytes) (arguments : List Bytes)
    → redis_line command arguments ≡ str "Redis " ++ join (str " ") (command ∷ arguments)
unfolding str join
redis_line-join command [] = refl
redis_line-join command (argument ∷ arguments) = refl

-- The start line of a request that AUTH, EVAL, EVALSHA, FCALL or FCALL_RO begins, in any case, is
-- once redacted the command in upper case, with the replacement for each argument. SET, SETNX,
-- GETSET, APPEND, SETRANGE, SETEX and PSETEX show the first argument only, JSON.SET the first two,
-- MSET and MSETNX every other one from the first on, HSET, HSETNX and HMSET the first and then every
-- other one from the second on, CONFIG SET the first two, and CONFIG with another word all. HELLO,
-- ACL and the commands that the redactor does not name are not covered.
pub redact-Shows :
    (json_secret : JsonSecret) (m : DecodedMessage) (command : Bytes)
    (rule : List Bytes → List Bytes)
    → is_protocol (str "redis") m ≡ true
    → header_value (str "redis-command") m.headers ≡ some command
    → Shows (to_ascii_uppercase command) rule
    → (redact json_secret false m).safe.start_line
      ≡ str "Redis "
        ++ join (str " ") (to_ascii_uppercase command ∷ rule (argument_values m.headers))
redact-Shows json_secret m command rule p e shows =
    redact-redis_line json_secret m command p e
    ∙ ap (redis_line (to_ascii_uppercase command))
        (Shows-shown_arguments shows (argument_values m.headers))
    ∙ redis_line-join (to_ascii_uppercase command) (rule (argument_values m.headers))
