-- ===== src/Redact/Sql.antt =====
-- crates/lens-redact/src/lib.rs: `redact_sql_literals`. The text is its UTF-8 bytes: a byte of a
-- character beyond ASCII passes no test and is copied, as the source copies the whole character.
use lens.Prelude.{
  ℕ, zero, suc, ◌+◌, ◌-◌, Bool, true, false, not, ◌&&◌, ◌||◌, [], ◌∷◌, ◌++◌, Option, none, some,
  ◌==◌, if◌then◌else◌, length, take, drop, get_elem?,
}
use lens.Text.{Bytes, str, starts_with, is_ascii_digit, is_ascii_alphabetic, is_ascii_alphanumeric}
use lens.Text.Words.{find_bytes, position}

-- What one round of the loop writes, how many bytes it passes, and whether it hides something.
pub record Token : Type 0 where
  pub written : Bytes
  pub width : ℕ
  pub hides : Bool

abbrev pub copied : ℕ → Bytes → Token
copied width bytes = record { written = take width bytes; width = width; hides = false }

abbrev pub hidden : Bytes → ℕ → Token
hidden written width = record { written = written; width = width; hides = true }

-- The bytes behind an opening quote, up to the closing one with it. A doubled quote goes on: the
-- flag says that the byte before may have closed the text.
unfoldable pub quoted_width : ℕ → Bool → Bytes → ℕ
quoted_width quote closed [] = 0
quoted_width quote true (c ∷ cs) = if c == quote then suc (quoted_width quote false cs) else 0
quoted_width quote false (c ∷ cs) = suc (quoted_width quote (c == quote) cs)

abbrev pub comment_token : Bytes → Option ℕ → Token
comment_token bytes none = hidden (str "-- [REDACTED]") (length bytes)
comment_token bytes (some end) = hidden (str "-- [REDACTED]\n") (end + 1)

abbrev pub block_token : Bytes → Option ℕ → Token
block_token bytes none = hidden (str "/* [REDACTED] */") (length bytes)
block_token bytes (some offset) = hidden (str "/* [REDACTED] */") (2 + offset + 2)

abbrev pub is_tag_byte : ℕ → Bool
is_tag_byte c = is_ascii_alphanumeric c || c == b'_'

-- The loop of `dollar_delimiter_end`, behind the first dollar sign.
unfoldable pub delimiter_end_from : ℕ → Bytes → Option ℕ
delimiter_end_from offset [] = none
delimiter_end_from offset (c ∷ cs) =
    let rest = delimiter_end_from (suc offset) cs in
    if c == b'$' then some (suc offset) else if is_tag_byte c then rest else none

unfoldable pub dollar_delimiter_end : Bytes → Option ℕ
unfolding delimiter_end_from
dollar_delimiter_end [] = none
dollar_delimiter_end (c ∷ cs) = if c == b'$' then delimiter_end_from 1 cs else none

abbrev pub dollar_content : Bytes → ℕ → Option ℕ → Option Token
dollar_content bytes end none = none
dollar_content bytes end (some content_len) =
    let delimiter = take end bytes in
    some (hidden (delimiter ++ (b'?' ∷ delimiter)) (end + content_len + length delimiter))

-- A dollar-quoted literal at the front of the bytes, if its closing delimiter is there.
unfoldable pub dollar_token : Bytes → Option Token
unfolding dollar_delimiter_end find_bytes
dollar_token bytes = elim (dollar_delimiter_end bytes) [
  | none ↦ none
  | some end ↦ dollar_content bytes end (find_bytes (drop end bytes) (take end bytes))
]

abbrev pub none_or : (ℕ → Bool) → Option ℕ → Bool
none_or test none = false
none_or test (some c) = test c

abbrev pub is_word_or_dollar : ℕ → Bool
is_word_or_dollar c = is_ascii_alphanumeric c || c == b'_' || c == b'$'

abbrev pub is_letter_or_dollar : ℕ → Bool
is_letter_or_dollar c = is_ascii_alphabetic c || c == b'_' || c == b'$'

-- By the byte before, the byte itself and the byte behind.
unfoldable pub is_number_start : Option ℕ → ℕ → Option ℕ → Bool
is_number_start previous c next =
    is_ascii_digit c
    && not (none_or is_word_or_dollar previous)
    && not (none_or is_letter_or_dollar next)

abbrev pub is_number_byte : ℕ → Bool
is_number_byte c = is_ascii_digit c || c == b'.' || c == b'e' || c == b'E' || c == b'+' || c == b'-'

unfoldable pub number_width : Bytes → ℕ
number_width [] = 0
number_width (c ∷ cs) = let rest = number_width cs in if is_number_byte c then suc rest else 0

-- The tests behind that for a dollar quote.
abbrev pub plain_token : Option ℕ → Bytes → Token
plain_token previous [] = copied 0 []
plain_token previous (c ∷ cs) =
    if is_number_start previous c (get_elem? cs 0)
    then hidden (b'?' ∷ []) (suc (number_width cs))
    else copied 1 (c ∷ cs)

abbrev pub dollar_or_plain : Option ℕ → Bytes → Option Token → Token
dollar_or_plain previous bytes none = plain_token previous bytes
dollar_or_plain previous bytes (some token) = token

-- One round of the loop, at bytes that are not empty, behind the byte `previous`.
unfoldable pub sql_token : Option ℕ → Bytes → Token
unfolding quoted_width position dollar_token is_number_start number_width find_bytes starts_with str
sql_token previous [] = copied 0 []
sql_token previous (c ∷ cs) =
    if c == b'"'
    then copied (suc (quoted_width b'"' false cs)) (c ∷ cs)
    else if c == b'\''
    then hidden (str "'?'") (suc (quoted_width b'\'' false cs))
    else if starts_with (c ∷ cs) (str "--")
    then comment_token (c ∷ cs) (position b'\n' (c ∷ cs))
    else if starts_with (c ∷ cs) (str "/*")
    then block_token (c ∷ cs) (find_bytes (drop 2 (c ∷ cs)) (str "*/"))
    else dollar_or_plain previous (c ∷ cs) (dollar_token (c ∷ cs))

-- A round passes a byte at least, so as many rounds as there are bytes are enough.
unfoldable pub sql_loop : ℕ → Option ℕ → Bytes → Bytes × Bool
unfolding sql_token
sql_loop zero previous bytes = ([], false)
sql_loop (suc fuel) previous [] = ([], false)
sql_loop (suc fuel) previous (c ∷ cs) =
    let token = sql_token previous (c ∷ cs) in
    let (safe, changed) =
      sql_loop fuel (get_elem? (c ∷ cs) (token.width - 1)) (drop token.width (c ∷ cs)) in
    (token.written ++ safe, token.hides || changed)

unfoldable pub redact_sql_literals : Bytes → Bytes × Bool
unfolding sql_loop
redact_sql_literals sql = sql_loop (length sql) none sql
