-- ===== src/Text/Number.antt =====
-- Decimal text: `u64::to_string`, and `str::parse` for i64, u16 and usize, on a 64-bit target.
use lens.Prelude.{
  All, ℕ, zero, suc, ◌+◌, ◌-◌, ◌*◌, ◌/◌, ◌%◌, ◌≤◌, ◌<◌, Bool, true, ◌&&◌, List, [], ◌∷◌, Option,
  none, some, ◌≡◌, arith, ltb, leb, ◌==◌, if◌then◌else◌, Bool-cases, ltb-false→le, inl, inr,
}
use lens.Prelude.Int.{ℤ, pos, negsuc}
use mathlib.Core.Option

abbrev is_digit : ℕ → Bool
is_digit c = leb b'0' c && leb c b'9'

show_loop : ℕ → ℕ → List ℕ → List ℕ
show_loop zero n acc = acc
show_loop (suc fuel) n acc =
    let acc' = (b'0' + n % 10) ∷ acc in
    let more = show_loop fuel (n / 10) acc' in if ltb n 10 then acc' else more

-- One digit for each round, so `n + 1` rounds are more than enough.
unfoldable pub show : ℕ → List ℕ
unfolding show_loop
show n = show_loop (suc n) n []

digits_value : ℕ → List ℕ → Option ℕ
digits_value acc [] = some acc
digits_value acc (c ∷ cs) = if is_digit c then digits_value (acc * 10 + (c - b'0')) cs else none

-- One digit at least. A value out of range is refused by the callers.
parse_digits : List ℕ → Option ℕ
parse_digits [] = none
parse_digits (c ∷ cs) = digits_value 0 (c ∷ cs)

abbrev i64_max : ℕ
i64_max = 9_223_372_036_854_775_807

abbrev pub usize_mod : ℕ
usize_mod = 18_446_744_073_709_551_616

at_most : ℕ → Option ℕ → Option ℕ
at_most limit o = elim o [ none ↦ none | some n ↦ if leb n limit then some n else none ]

negate : ℕ → ℤ
negate zero = pos 0
negate (suc n) = negsuc n

unfoldable pub parse_i64 : List ℕ → Option ℤ
unfolding parse_digits digits_value at_most negate
parse_i64 [] = none
parse_i64 (c ∷ cs) =
    if c == b'-'
    then Option.map negate (at_most (i64_max + 1) (parse_digits cs))
    else if c == b'+'
    then Option.map pos (at_most i64_max (parse_digits cs))
    else Option.map pos (at_most i64_max (parse_digits (c ∷ cs)))

-- An unsigned type takes a plus sign, and no minus sign.
unfoldable pub parse_unsigned : ℕ → List ℕ → Option ℕ
unfolding parse_digits digits_value at_most
parse_unsigned limit [] = none
parse_unsigned limit (c ∷ cs) =
    if c == b'+' then at_most limit (parse_digits cs) else at_most limit (parse_digits (c ∷ cs))

abbrev hex_value : ℕ → Option ℕ
hex_value c =
    if is_digit c
    then some (c - b'0')
    else if leb b'a' c && leb c b'f'
    then some (c - b'a' + 10)
    else if leb b'A' c && leb c b'F'
    then some (c - b'A' + 10)
    else none

hex_digits : ℕ → List ℕ → Option ℕ
hex_digits acc [] = some acc
hex_digits acc (c ∷ cs) = elim (hex_value c) [ none ↦ none | some d ↦ hex_digits (acc * 16 + d) cs ]

-- One digit at least.
parse_hex_digits : List ℕ → Option ℕ
parse_hex_digits [] = none
parse_hex_digits (c ∷ cs) = hex_digits 0 (c ∷ cs)

-- `usize::from_str_radix(text, 16)`
unfoldable pub parse_hex : List ℕ → Option ℕ
unfolding parse_hex_digits hex_digits at_most
parse_hex [] = none
parse_hex (c ∷ cs) =
    if c == b'+'
    then at_most (usize_mod - 1) (parse_hex_digits cs)
    else at_most (usize_mod - 1) (parse_hex_digits (c ∷ cs))

digits_value-show_loop :
    (fuel n : ℕ) (acc : List ℕ)
    → n < fuel
    → digits_value 0 (show_loop fuel n acc) ≡ digits_value n acc
unfolding show_loop digits_value
digits_value-show_loop zero n acc h = absurd (omega arith)
digits_value-show_loop (suc fuel) n acc h =
    ground (arith, digits_value-show_loop fuel (n / 10) ((b'0' + n % 10) ∷ acc))

-- `show` begins with a digit, so with no sign.
show_loop-head :
    (fuel n : ℕ) (acc : List ℕ)
    → n < fuel
    → (c : ℕ) × (cs : List ℕ) × (show_loop fuel n acc ≡ c ∷ cs) × (is_digit c ≡ true)
unfolding show_loop
show_loop-head zero n acc h = absurd (omega arith)
show_loop-head (suc fuel) n acc h = elim (Bool-cases (ltb n 10)) [
  | inl small ↦ (b'0' + n % 10, acc, rw small, ground arith)
  | inr large ↦ rw large (
      show_loop-head fuel (n / 10) ((b'0' + n % 10) ∷ acc) (omega (arith, ltb-false→le n 10 large)))
]

pub show-head : (n : ℕ) → (c : ℕ) × (cs : List ℕ) × (show n ≡ c ∷ cs) × (is_digit c ≡ true)
unfolding show
show-head n = show_loop-head (suc n) n [] (omega arith)

digits_value-show : (n : ℕ) → digits_value 0 (show n) ≡ some n
unfolding digits_value show
digits_value-show n = digits_value-show_loop (suc n) n [] (omega arith)

parse_i64-digits :
    (c : ℕ) (cs : List ℕ) (n : ℕ)
    → is_digit c ≡ true
    → n ≤ i64_max
    → digits_value 0 (c ∷ cs) ≡ some n
    → parse_i64 (c ∷ cs) ≡ some (pos n)
unfolding parse_i64 parse_digits at_most
parse_i64-digits c cs n d h e = ground arith

-- Printing and parsing an i64 that is not negative gives it back.
pub parse_i64-show : (n : ℕ) → n ≤ i64_max → parse_i64 (show n) ≡ some (pos n)
parse_i64-show n h =
    let (c, cs, e, d) = show-head n in
    rw e (parse_i64-digits c cs n d h (rw e at (digits_value-show n)))

-- A decimal digit
abbrev pub IsDigit : ℕ → Type 0
IsDigit c = (b'0' ≤ c) × (c ≤ b'9')

show_loop-IsDigit :
    (fuel n : ℕ) (acc : List ℕ) → All IsDigit acc → All IsDigit (show_loop fuel n acc)
unfolding show_loop
show_loop-IsDigit zero n acc h = h
show_loop-IsDigit (suc fuel) n acc h =
    let d : IsDigit (b'0' + n % 10) = omega arith in
    elim (Bool-cases (ltb n 10)) [
      | inl small ↦ rw (small, All) (d, h)
      | inr large ↦ rw (large, All) (show_loop-IsDigit fuel (n / 10) ((b'0' + n % 10) ∷ acc) (d, h))
    ]

pub show-IsDigit : (n : ℕ) → All IsDigit (show n)
unfolding show
show-IsDigit n = show_loop-IsDigit (suc n) n [] tt

-- A digit of `{:x}`.
abbrev pub hex_digit : ℕ → ℕ
hex_digit n = if ltb n 10 then b'0' + n else b'a' + (n - 10)
