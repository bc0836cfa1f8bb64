-- ===== src/Redact/SqlItems.antt =====
-- SQL as a sequence of items, and how much of it may be seen.
use lens.Prelude.{
  ℕ, ◌-◌, Bool, true, false, ◌||◌, none, some, List, [], ◌∷◌, ◌++◌, Option, ◌==◌, if◌then◌else◌,
  length, get_elem?, All, ◌≡◌, ◌⊎◌,
}
use lens.Text.{Bytes, str, starts_with, is_ascii_digit, is_ascii_alphabetic}
use lens.Text.Split.{Free}

-- A byte by itself, an identifier or a literal in quotes, a number, or a comment up to the end of
-- its line.
pub data Item : Type 0 where
  plain : ℕ → Item
  identifier : Bytes → Item
  literal : Bytes → Item
  numeral : ℕ → Bytes → Item
  line_comment : Bytes → Item

-- A text with each quote in it doubled.
unfoldable pub doubled : ℕ → Bytes → Bytes
doubled quote [] = []
doubled quote (c ∷ cs) =
    if c == quote then quote ∷ quote ∷ doubled quote cs else c ∷ doubled quote cs

abbrev pub in_quotes : ℕ → Bytes → Bytes
in_quotes quote content = quote ∷ (doubled quote content ++ quote ∷ [])

abbrev pub item_text : Item → Bytes
item_text (plain c) = c ∷ []
item_text (identifier content) = in_quotes b'"' content
item_text (literal content) = in_quotes b'\'' content
item_text (numeral d ds) = d ∷ ds
item_text (line_comment content) = b'-' ∷ b'-' ∷ (content ++ b'\n' ∷ [])

abbrev pub shown_text : Item → Bytes
shown_text (plain c) = c ∷ []
shown_text (identifier content) = in_quotes b'"' content
shown_text (literal content) = str "'?'"
shown_text (numeral d ds) = b'?' ∷ []
shown_text (line_comment content) = str "-- [REDACTED]\n"

abbrev pub is_hidden : Item → Bool
is_hidden (plain c) = false
is_hidden (identifier content) = false
is_hidden _ = true

unfoldable pub sql_text : List Item → Bytes
sql_text [] = []
sql_text (i ∷ is) = item_text i ++ sql_text is

unfoldable pub shown_sql : List Item → Bytes × Bool
shown_sql [] = ([], false)
shown_sql (i ∷ is) =
    let (safe, changed) = shown_sql is in (shown_text i ++ safe, is_hidden i || changed)

-- A test on a byte that may not be there.
abbrev pub if_there : (ℕ → Bool) → Option ℕ → Bool
if_there test none = false
if_there test (some c) = test c

abbrev pub in_name : ℕ → Bool
in_name c = (is_ascii_alphabetic c || is_ascii_digit c) || c == b'_'

abbrev pub in_word : ℕ → Bool
in_word c = (is_ascii_alphabetic c || is_ascii_digit c) || c == b'_' || c == b'$'

abbrev pub begins_word : ℕ → Bool
begins_word c = is_ascii_alphabetic c || c == b'_' || c == b'$'

abbrev pub Digits : Bytes → Type 0
Digits = All (λ c. is_ascii_digit c ≡ true)

-- Nothing, or a point and digits.
abbrev pub IsFraction : Bytes → Type 0
IsFraction text = (text ≡ []) ⊎ ((digits : Bytes) × (text ≡ b'.' ∷ digits) × Digits digits)

-- Nothing, or an e in either case, perhaps a sign, and a digit or more.
abbrev pub IsExponent : Bytes → Type 0
IsExponent text =
    (text ≡ [])
    ⊎ ((e : ℕ) × (sign : Bytes) × (digit : ℕ) × (digits : Bytes) × (text
          ≡ e ∷ (sign ++ digit ∷ digits))
        × ((e ≡ b'e') ⊎ (e ≡ b'E'))
        × ((sign ≡ []) ⊎ ((sign ≡ b'+' ∷ []) ⊎ (sign ≡ b'-' ∷ [])))
        × Digits (digit ∷ digits))

-- What stands behind the first digit of a number without a sign.
abbrev pub IsNumberTail : Bytes → Type 0
IsNumberTail text =
    (whole : Bytes) × (fraction : Bytes) × (exponent : Bytes) × (text
      ≡ whole ++ (fraction ++ exponent))
    × Digits whole
    × IsFraction fraction
    × IsExponent exponent

-- A byte that may not stand right behind a number.
abbrev pub touches_number : ℕ → Bool
touches_number c = is_ascii_digit c || c == b'.' || c == b'e' || c == b'E' || c == b'+' || c == b'-'

-- A dollar sign begins no quote: the letters and digits behind it are followed by no dollar sign.
abbrev pub NoDollarQuote : Bytes → Type 0
NoDollarQuote rest =
    (tag : Bytes) × (end : Bytes) × (rest ≡ tag ++ end)
    × All (λ c. (in_name c ≡ true) × ((c == b'$') ≡ false)) tag
    × (if_there (λ c. in_name c || c == b'$') (get_elem? end 0) ≡ false)

-- What an item may stand between: the byte before it, and the text behind it.
abbrev pub IsItem : Option ℕ → Item → Bytes → Type 0
IsItem previous (plain c) rest =
    ((c == b'"') ≡ false)
    × ((c == b'\'') ≡ false)
    × (starts_with (c ∷ rest) (str "--") ≡ false)
    × (starts_with (c ∷ rest) (str "/*") ≡ false)
    × (((c == b'$') ≡ false) ⊎ NoDollarQuote rest)
    × ((is_ascii_digit c ≡ false) ⊎ (if_there in_word previous ≡ true))
IsItem previous (identifier content) rest = if_there (λ c. c == b'"') (get_elem? rest 0) ≡ false
IsItem previous (literal content) rest = if_there (λ c. c == b'\'') (get_elem? rest 0) ≡ false
IsItem previous (numeral d ds) rest =
    (is_ascii_digit d ≡ true)
    × IsNumberTail ds
    × (if_there in_word previous ≡ false)
    × (if_there begins_word (get_elem? (ds ++ rest) 0) ≡ false)
    × (if_there touches_number (get_elem? rest 0) ≡ false)
IsItem previous (line_comment content) rest = Free b'\n' content

abbrev pub last_byte : Bytes → Option ℕ
last_byte bytes = get_elem? bytes (length bytes - 1)

unfoldable pub IsSql : Option ℕ → List Item → Type 0
unfolding sql_text
IsSql previous [] = Unit {0}
IsSql previous (i ∷ is) = IsItem previous i (sql_text is) × IsSql (last_byte (item_text i)) is
