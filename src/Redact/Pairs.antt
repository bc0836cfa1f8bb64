-- ===== src/Redact/Pairs.antt =====
-- crates/lens-redact/src/lib.rs: `redact_pairs`, on queries and forms, and `redact_start_line`.
use lens.Prelude.{
  ℕ, ◌+◌, ◌-◌, ◌*◌, Bool, true, false, not, ◌&&◌, ◌||◌, List, [], ◌∷◌, ◌++◌, Option, none, some,
  ◌==◌, if◌then◌else◌, map, any, leb,
}
use lens.Redact.Names.{replacement, is_sensitive_name}
use lens.Text.{Bytes, str, join, starts_with, is_ascii_digit}
use lens.Text.Utf8.{from_utf8_lossy}
use lens.Text.Words.{split_byte, split_once, split_whitespace}

unfoldable pub hex : ℕ → Option ℕ
hex byte =
    if is_ascii_digit byte
    then some (byte - b'0')
    else if leb b'a' byte && leb byte b'f'
    then some (byte - b'a' + 10)
    else if leb b'A' byte && leb byte b'F'
    then some (byte - b'A' + 10)
    else none

abbrev pub both_digits : Option ℕ → Option ℕ → Option ℕ
both_digits (some high) (some low) = some (high * 16 + low)
both_digits _ _ = none

-- The byte that a percent sign and two digits stand for.
unfoldable pub escaped_byte : ℕ → ℕ → ℕ → Option ℕ
unfolding hex
escaped_byte c high low = if c == b'%' then both_digits (hex high) (hex low) else none

abbrev pub plus_as_space : ℕ → ℕ
plus_as_space c = if c == b'+' then b' ' else c

-- The loop of `percent_decode_name`
unfoldable pub percent_decode : Bytes → Bytes
unfolding escaped_byte
percent_decode [] = []
percent_decode (c ∷ []) = plus_as_space c ∷ []
percent_decode (c ∷ d ∷ []) = plus_as_space c ∷ plus_as_space d ∷ []
percent_decode (c ∷ d ∷ e ∷ rest) = elim (escaped_byte c d e) [
  | some byte ↦ byte ∷ percent_decode rest
  | none ↦ plus_as_space c ∷ percent_decode (d ∷ e ∷ rest)
]

unfoldable pub percent_decode_name : Bytes → Bytes
unfolding percent_decode from_utf8_lossy
percent_decode_name value = from_utf8_lossy (percent_decode value)

unfoldable pub is_sensitive_key : Bytes → Bool
unfolding percent_decode_name is_sensitive_name
is_sensitive_key name = is_sensitive_name (percent_decode_name name)

-- A pair's name, and its value if it has an equals sign.
abbrev pub pair_parts : Bytes → Option (Bytes × Bytes) → Bytes × Option Bytes
pair_parts pair none = (pair, none)
pair_parts pair (some (name, value)) = (name, some value)

abbrev pub split_pair : Bytes → Bytes × Option Bytes
split_pair pair = pair_parts pair (split_once b'=' pair)

abbrev pub with_value : Bytes → Bytes → Bytes
with_value name value = name ++ b'=' ∷ value

-- What becomes of a pair, of its name and its value.
abbrev pub redact_parts : Bytes × Option Bytes → Bytes
redact_parts (name, none) = if is_sensitive_key name then with_value name replacement else name
redact_parts (name, some value) =
    if is_sensitive_key name then with_value name replacement else with_value name value

unfoldable pub redact_pair : Bytes → Bytes
unfolding is_sensitive_key split_once
redact_pair pair = redact_parts (split_pair pair)

unfoldable pub redact_pairs : Bytes → ℕ → Bytes × Bool
unfolding redact_pair split_byte join
redact_pairs value separator =
    let pairs = split_byte separator [] value in
    (
      join (separator ∷ []) (map redact_pair pairs),
      any (λ pair. is_sensitive_key (split_pair pair).0) pairs,
    )

abbrev pub split_fragment : Bytes → Bytes × Bytes
split_fragment query = elim (split_once b'#' query) [
  | none ↦ (query, [])
  | some (q, fragment) ↦ (q, b'#' ∷ fragment)
]

-- The request's target behind the question mark. The second text is the fragment with its sign.
abbrev pub redact_query : Bytes → Bytes → Bytes → Bytes → Bytes × Bytes → Bytes × Bool
redact_query start_line method path version (query, fragment) =
    let (safe, changed) = redact_pairs query b'&' in
    if changed
    then (method ++ (b' ' ∷ (path ++ (b'?' ∷ (safe ++ (fragment ++ (b' ' ∷ version)))))), true)
    else (start_line, false)

abbrev pub redact_target : Bytes → Bytes → Bytes → Bytes → Bytes × Bool
redact_target start_line method target version = elim (split_once b'?' target) [
  | none ↦ (start_line, false)
  | some (path, query) ↦ redact_query start_line method path version (split_fragment query)
]

abbrev pub redact_request : Bytes → List Bytes → Bytes × Bool
redact_request start_line (method ∷ target ∷ version ∷ more) =
    if starts_with method (str "HTTP/") || not (starts_with version (str "HTTP/"))
    then (start_line, false)
    else redact_target start_line method target version
redact_request start_line _ = (start_line, false)

unfoldable pub redact_start_line : Bytes → Bytes × Bool
unfolding redact_pairs split_whitespace starts_with str
redact_start_line start_line = redact_request start_line (split_whitespace start_line)
