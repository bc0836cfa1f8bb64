-- ===== src/Text.antt =====
-- Rust text as its UTF-8 bytes, and the byte tests of the standard library that the crates use.
pub mod Number
pub mod Utf8
pub mod Words
pub mod Find
pub mod Split
pub mod Result
use Prim.Native.Char.{code}
use lens.Prelude.{
  ℕ, ◌+◌, ◌-◌, String, Bool, true, false, ◌&&◌, ◌||◌, List, [], ◌∷◌, ◌++◌, map, ◌≡◌, refl, ◌↔◌,
  arith, leb, ◌==◌, if◌then◌else◌, length, drop, ==_iff,
}

-- `[u8]`, and `str` by its bytes
abbrev pub Bytes : Type 0
Bytes = List ℕ

-- A literal of the source. The literals are ASCII, so the code points are the bytes.
unfoldable pub str : String → Bytes
str String.[] = []
str (String.◌∷◌ c s) = code c ∷ str s

unfoldable pub eq_bytes : Bytes → Bytes → Bool
eq_bytes [] [] = true
eq_bytes (a ∷ as') (b ∷ bs) = a == b && eq_bytes as' bs
eq_bytes _ _ = false

pub eq_bytes_iff : (a b : Bytes) → (eq_bytes a b ≡ true) ↔ (a ≡ b)
unfolding eq_bytes
eq_bytes_iff (x ∷ a) (y ∷ b) = ground (arith, eq_bytes_iff a b)
eq_bytes_iff _ _ = ground arith

pub eq_bytes_refl : (a : Bytes) → eq_bytes a a ≡ true
eq_bytes_refl a = (eq_bytes_iff a a).1 refl

abbrev pub is_ascii_digit : ℕ → Bool
is_ascii_digit c = leb b'0' c && leb c b'9'

abbrev pub is_ascii_alphabetic : ℕ → Bool
is_ascii_alphabetic c = (leb b'a' c && leb c b'z') || (leb b'A' c && leb c b'Z')

abbrev pub is_ascii_alphanumeric : ℕ → Bool
is_ascii_alphanumeric c = is_ascii_alphabetic c || is_ascii_digit c

abbrev pub is_ascii_control : ℕ → Bool
is_ascii_control c = leb c 31 || c == 127

-- space, tab, line feed, form feed, carriage return
abbrev pub is_ascii_whitespace : ℕ → Bool
is_ascii_whitespace c = c == 32 || c == 9 || c == 10 || c == 12 || c == 13

abbrev pub to_ascii_upper : ℕ → ℕ
to_ascii_upper c = if leb b'a' c && leb c b'z' then c - 32 else c

abbrev pub to_ascii_lower : ℕ → ℕ
to_ascii_lower c = if leb b'A' c && leb c b'Z' then c + 32 else c

unfoldable pub to_ascii_uppercase : Bytes → Bytes
to_ascii_uppercase = map to_ascii_upper

unfoldable pub to_ascii_lowercase : Bytes → Bytes
to_ascii_lowercase = map to_ascii_lower

unfoldable pub eq_ignore_ascii_case : Bytes → Bytes → Bool
unfolding eq_bytes to_ascii_lowercase
eq_ignore_ascii_case a b = eq_bytes (to_ascii_lowercase a) (to_ascii_lowercase b)

-- `[String]::join`
unfoldable pub join : Bytes → List Bytes → Bytes
join sep [] = []
join sep (x ∷ []) = x
join sep (x ∷ y ∷ ys) = x ++ (sep ++ join sep (y ∷ ys))

-- `starts_with`
unfoldable pub starts_with : Bytes → Bytes → Bool
starts_with text [] = true
starts_with [] (p ∷ ps) = false
starts_with (t ∷ ts) (p ∷ ps) = t == p && starts_with ts ps

-- `ends_with`
unfoldable pub ends_with : Bytes → Bytes → Bool
unfolding eq_bytes
ends_with text suffix =
    leb (length suffix) (length text) && eq_bytes (drop (length text - length suffix) text) suffix
