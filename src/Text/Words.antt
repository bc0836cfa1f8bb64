-- ===== src/Text/Words.antt =====
-- Splitting and trimming of `str`, on valid UTF-8 bytes. White space is Unicode's, as in the
-- standard library: a lead byte decides where a character begins, so no test can match inside one.
use lens.Prelude.{
  ℕ, zero, suc, Bool, true, false, ◌&&◌, ◌||◌, List, [], ◌∷◌, ◌++◌, Option, none, some, leb, ◌==◌,
  if◌then◌else◌,
}
use lens.Text.{Bytes, starts_with}
use mathlib.Core.Option

-- The third byte of the characters U+2000 to U+200A, U+2028, U+2029 and U+202F
abbrev general_space : ℕ → Bool
general_space c = (leb 0x80 c && leb c 0x8a) || c == 0xa8 || c == 0xa9 || c == 0xaf

three_byte_space : ℕ → ℕ → ℕ → Bool
three_byte_space a b c =
    (a == 0xe1 && b == 0x9a && c == 0x80)
    || (a == 0xe2 && b == 0x80 && general_space c)
    || (a == 0xe2 && b == 0x81 && c == 0x9f)
    || (a == 0xe3 && b == 0x80 && c == 0x80)

-- How many bytes the white space at the front of the text takes: 0 where there is none.
unfoldable pub space_width : Bytes → ℕ
unfolding three_byte_space
space_width [] = 0
space_width (a ∷ []) = if (leb 9 a && leb a 13) || a == 32 then 1 else 0
space_width (a ∷ b ∷ []) =
    if (leb 9 a && leb a 13) || a == 32
    then 1
    else if a == 0xc2 && (b == 0x85 || b == 0xa0)
    then 2
    else 0
space_width (a ∷ b ∷ c ∷ _) =
    if (leb 9 a && leb a 13) || a == 32
    then 1
    else if a == 0xc2 && (b == 0x85 || b == 0xa0)
    then 2
    else if three_byte_space a b c
    then 3
    else 0

abbrev emit : Bytes → List Bytes → List Bytes
emit [] ws = ws
emit (c ∷ cs) ws = (c ∷ cs) ∷ ws

-- `word` is the word being read, and the number the bytes of white space still to be passed over.
words_from : ℕ → Bytes → Bytes → List Bytes
words_from n word [] = emit word []
words_from (suc n) word (c ∷ cs) = words_from n word cs
words_from zero word (c ∷ cs) = elim (space_width (c ∷ cs)) [
  | zero ↦ words_from zero (word ++ c ∷ []) cs
  | suc n ↦ emit word (words_from n [] cs)
]

unfoldable pub split_whitespace : Bytes → List Bytes
unfolding words_from space_width
split_whitespace = words_from 0 []

trim_start_from : ℕ → Bytes → Bytes
trim_start_from n [] = []
trim_start_from (suc n) (c ∷ cs) = trim_start_from n cs
trim_start_from zero (c ∷ cs) = elim (space_width (c ∷ cs)) [
  | zero ↦ c ∷ cs
  | suc n ↦ trim_start_from n cs
]

is_blank_from : ℕ → Bytes → Bool
is_blank_from n [] = true
is_blank_from (suc n) (c ∷ cs) = is_blank_from n cs
is_blank_from zero (c ∷ cs) = elim (space_width (c ∷ cs)) [
  | zero ↦ false
  | suc n ↦ is_blank_from n cs
]

trim_end : Bytes → Bytes
trim_end [] = []
trim_end (c ∷ cs) = if is_blank_from 0 (c ∷ cs) then [] else c ∷ trim_end cs

unfoldable pub trim : Bytes → Bytes
unfolding trim_start_from is_blank_from trim_end space_width
trim text = trim_end (trim_start_from 0 text)

-- `split(separator)` for a one-byte separator
unfoldable pub split_byte : ℕ → Bytes → Bytes → List Bytes
split_byte separator piece [] = piece ∷ []
split_byte separator piece (c ∷ cs) = elim (c == separator) [
  | true ↦ piece ∷ split_byte separator [] cs
  | false ↦ split_byte separator (piece ++ c ∷ []) cs
]

-- `split("\r\n")`
unfoldable pub split_crlf : Bytes → Bytes → List Bytes
split_crlf piece [] = piece ∷ []
split_crlf piece (c ∷ []) = (piece ++ c ∷ []) ∷ []
split_crlf piece (c ∷ d ∷ cs) = elim (c == b'\r' && d == b'\n') [
  | true ↦ piece ∷ split_crlf [] cs
  | false ↦ split_crlf (piece ++ c ∷ []) (d ∷ cs)
]

-- `split_once(separator)`
unfoldable pub split_once : ℕ → Bytes → Option (Bytes × Bytes)
split_once separator [] = none
split_once separator (c ∷ cs) =
    let later = Option.map (λ p. (c ∷ p.0, p.1)) (split_once separator cs) in
    if c == separator then some ([], cs) else later

-- `windows(needle.len()).position(|window| window == needle)`, for a needle that is not empty
unfoldable pub find_bytes : Bytes → Bytes → Option ℕ
unfolding starts_with
find_bytes [] needle = none
find_bytes (b ∷ bs) needle =
    let later = Option.map suc (find_bytes bs needle) in
    if starts_with (b ∷ bs) needle then some 0 else later

-- `position(|byte| byte == wanted)`
unfoldable pub position : ℕ → Bytes → Option ℕ
position wanted [] = none
position wanted (c ∷ cs) =
    let later = Option.map suc (position wanted cs) in if c == wanted then some 0 else later
