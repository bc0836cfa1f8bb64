-- ===== src/Redact/Redis.antt =====
-- crates/lens-redact/src/lib.rs: `redact_redis`.
use lens.Prelude.{
  ℕ, suc, ◌-◌, ◌%◌, Bool, true, false, not, ◌&&◌, ◌||◌, List, [], ◌∷◌, ◌++◌, Option, none, some,
  ltb, leb, ◌==◌, if◌then◌else◌, get_elem?,
}
use lens.Protocol.{DecodedMessage, Headers, header_value}
use lens.Redact.Names.{replacement, is_one_of, is_sensitive_name}
use lens.Text.{Bytes, str, join, eq_bytes, eq_ignore_ascii_case, starts_with, to_ascii_uppercase}
use mathlib.Core.Option
use mathlib.Core.Option.{get_or}

abbrev pub is_argument : Bytes → Bool
is_argument name = eq_ignore_ascii_case name (str "redis-arg")

unfoldable pub argument_values : Headers → List Bytes
argument_values [] = []
argument_values ((name, value) ∷ headers) =
    let rest = argument_values headers in if is_argument name then value ∷ rest else rest

abbrev pub argument_at : List Bytes → ℕ → Bytes
argument_at arguments i = get_or (get_elem? arguments i) []

-- `is_some_and` on an argument
abbrev pub argument_is : (Bytes → Bool) → List Bytes → ℕ → Bool
argument_is test arguments i = elim (get_elem? arguments i) [
  | none ↦ false
  | some value ↦ test value
]

abbrev pub named : Bytes → Bytes → Bool
named name value = eq_ignore_ascii_case value name

abbrev pub previous_argument : ℕ → List Bytes → Bytes
previous_argument position arguments =
    if ltb 0 position then argument_at arguments (position - 1) else []

abbrev pub is_secret_mark : Bytes → Bool
is_secret_mark value =
    starts_with value (str ">") || starts_with value (str "#") || starts_with value (str "<")

-- The commands without an arm of their own
unfoldable pub is_sensitive_argument : ℕ → List Bytes → Bool
unfolding is_sensitive_name is_one_of str to_ascii_uppercase
is_sensitive_argument position arguments =
    let previous = previous_argument position arguments in
    is_sensitive_name (argument_at arguments position)
    || is_sensitive_name previous
    || is_one_of (str "AUTH" ∷ str "AUTH2" ∷ []) (to_ascii_uppercase previous)

abbrev pub write_commands : List Bytes
write_commands =
    str "SET"
    ∷ str "SETNX"
    ∷ str "GETSET"
    ∷ str "APPEND"
    ∷ str "SETRANGE"
    ∷ str "SETEX"
    ∷ str "PSETEX"
    ∷ []

abbrev pub script_commands : List Bytes
script_commands = str "EVAL" ∷ str "EVALSHA" ∷ str "FCALL" ∷ str "FCALL_RO" ∷ []

unfoldable pub redis_argument_is_sensitive : Bytes → ℕ → List Bytes → Bool
unfolding is_sensitive_argument eq_bytes eq_ignore_ascii_case starts_with
redis_argument_is_sensitive command position arguments =
    if eq_bytes command (str "AUTH")
    then true
    else if eq_bytes command (str "HELLO")
    then ltb 0 position && argument_is (named (str "AUTH")) arguments (position - 2)
    else if is_one_of write_commands command
    then ltb 0 position
    else if is_one_of (str "MSET" ∷ str "MSETNX" ∷ []) command
    then position % 2 == 1
    else if is_one_of (str "HSET" ∷ str "HSETNX" ∷ str "HMSET" ∷ []) command
    then leb 2 position && position % 2 == 0
    else if eq_bytes command (str "JSON.SET")
    then leb 2 position
    else if is_one_of script_commands command
    then true
    else if eq_bytes command (str "CONFIG")
    then argument_is (named (str "SET")) arguments 0 && leb 2 position
    else if eq_bytes command (str "ACL")
    then argument_is (named (str "SETUSER")) arguments 0
      && argument_is is_secret_mark arguments position
    else is_sensitive_argument position arguments

abbrev pub conceal : Bytes → ℕ → List Bytes → Bytes → Bool
conceal command position arguments value =
    redis_argument_is_sensitive command position arguments && not (eq_bytes value replacement)

abbrev pub next_header : Bool → Bytes → Bytes → Headers × Bool → Headers × Bool
next_header true name value (headers, changed) = ((name, replacement) ∷ headers, true)
next_header false name value (headers, changed) = ((name, value) ∷ headers, changed)

-- The headers, where the next argument is the one at `position`, and whether one changes.
unfoldable pub redact_arguments : Bytes → List Bytes → ℕ → Headers → Headers × Bool
redact_arguments command arguments position [] = ([], false)
redact_arguments command arguments position ((name, value) ∷ headers) =
    next_header (is_argument name && conceal command position arguments value) name value (
      redact_arguments command arguments (if is_argument name then suc position else position)
        headers)

abbrev pub redis_line : Bytes → List Bytes → Bytes
redis_line command [] = str "Redis " ++ command
redis_line command (argument ∷ arguments) =
    str "Redis " ++ (command ++ (b' ' ∷ join (str " ") (argument ∷ arguments)))

abbrev pub redact_command : DecodedMessage → Option Bytes → DecodedMessage × Bool
redact_command m none = (m, false)
redact_command m (some command) =
    let (headers, changed) = redact_arguments command (argument_values m.headers) 0 m.headers in
    (
      record m { start_line = redis_line command (argument_values headers); headers = headers },
      changed,
    )

unfoldable pub redact_redis : DecodedMessage → DecodedMessage × Bool
unfolding redact_arguments header_value to_ascii_uppercase join str
redact_redis m =
    redact_command m (Option.map to_ascii_uppercase (header_value (str "redis-command") m.headers))
