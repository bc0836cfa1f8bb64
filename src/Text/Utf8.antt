-- ===== src/Text/Utf8.antt =====
-- UTF-8 as `std::str::from_utf8`, `String::from_utf8_lossy` and `str::is_char_boundary` read it.
use lens.Prelude.{
  ℕ, zero, suc, ◌-◌, Bool, true, false, not, ◌&&◌, ◌||◌, List, [], ◌∷◌, ◌++◌, Option, none, some,
  ◌≡◌, refl, arith, ltb, leb, ◌==◌, if◌then◌else◌, length, get_elem?, All, ◌<◌, lt→ltb,
}
use mathlib.Core.Option.{get_or}

abbrev byte_at : List ℕ → ℕ → ℕ
byte_at bytes i = get_or (get_elem? bytes i) 0

abbrev within : ℕ → ℕ → ℕ → Bool
within lo hi c = leb lo c && leb c hi

abbrev is_continuation : ℕ → Bool
is_continuation = within 0x80 0xbf

-- The second byte that a three-byte or a four-byte sequence admits after its first byte.
second_of_three : ℕ → ℕ → Bool
second_of_three b c =
    (b == 0xe0 && within 0xa0 0xbf c)
    || (within 0xe1 0xec b && within 0x80 0xbf c)
    || (b == 0xed && within 0x80 0x9f c)
    || (within 0xee 0xef b && within 0x80 0xbf c)

second_of_four : ℕ → ℕ → Bool
second_of_four b c =
    (b == 0xf0 && within 0x90 0xbf c)
    || (within 0xf1 0xf3 b && within 0x80 0xbf c)
    || (b == 0xf4 && within 0x80 0x8f c)

three_bytes : ℕ → List ℕ → Bool × ℕ
three_bytes b rest =
    if second_of_three b (byte_at rest 0)
    then (if is_continuation (byte_at rest 1) then (true, 3) else (false, 2))
    else (false, 1)

four_bytes : ℕ → List ℕ → Bool × ℕ
four_bytes b rest =
    if second_of_four b (byte_at rest 0)
    then (if is_continuation (byte_at rest 1)
        then (if is_continuation (byte_at rest 2) then (true, 4) else (false, 3))
        else (false, 2))
    else (false, 1)

-- What stands at the front of `b ∷ rest`: a character or a broken sequence, and its width.
utf8_step : ℕ → List ℕ → Bool × ℕ
unfolding three_bytes four_bytes second_of_three second_of_four
utf8_step b rest =
    if ltb b 0x80
    then (true, 1)
    else if within 0xc2 0xdf b
    then (if is_continuation (byte_at rest 0) then (true, 2) else (false, 1))
    else if within 0xe0 0xef b
    then three_bytes b rest
    else if within 0xf0 0xf4 b
    then four_bytes b rest
    else (false, 1)

-- The number is how many bytes of the current character are still to be passed over.
utf8_from : ℕ → List ℕ → Bool
utf8_from n [] = true
utf8_from (suc n) (b ∷ rest) = utf8_from n rest
utf8_from zero (b ∷ rest) =
    let (valid, width) = utf8_step b rest in valid && utf8_from (width - 1) rest

-- `from_utf8(bytes).is_ok()`
unfoldable pub is_utf8 : List ℕ → Bool
unfolding utf8_from utf8_step
is_utf8 = utf8_from 0

unfoldable pub from_utf8 : List ℕ → Option (List ℕ)
unfolding is_utf8
from_utf8 bytes = if is_utf8 bytes then some bytes else none

-- U+FFFD
abbrev replacement : List ℕ
replacement = 0xef ∷ 0xbf ∷ 0xbd ∷ []

-- The flag says whether the bytes passed over are copied or belong to a broken sequence.
lossy_from : Bool → ℕ → List ℕ → List ℕ
lossy_from keep n [] = []
lossy_from keep (suc n) (b ∷ rest) = (if keep then b ∷ [] else []) ++ lossy_from keep n rest
lossy_from keep zero (b ∷ rest) =
    let (valid, width) = utf8_step b rest in
    (if valid then b ∷ [] else replacement) ++ lossy_from valid (width - 1) rest

unfoldable pub from_utf8_lossy : List ℕ → List ℕ
unfolding lossy_from utf8_step
from_utf8_lossy = lossy_from false 0

lossy_from-id :
    (n : ℕ) (bytes : List ℕ) → utf8_from n bytes ≡ true → lossy_from true n bytes ≡ bytes
unfolding utf8_from lossy_from
lossy_from-id n [] h = refl
lossy_from-id (suc n) (b ∷ rest) h = ground (arith, lossy_from-id n rest h)
lossy_from-id zero (b ∷ rest) h = ground (arith, lossy_from-id ((utf8_step b rest).1 - 1) rest)

-- On valid text the lossy conversion changes nothing.
pub from_utf8_lossy-id : (bytes : List ℕ) → is_utf8 bytes ≡ true → from_utf8_lossy bytes ≡ bytes
unfolding from_utf8_lossy is_utf8
from_utf8_lossy-id [] h = refl
from_utf8_lossy-id (b ∷ rest) h = lossy_from-id 0 (b ∷ rest) h

-- `str::is_char_boundary`: the ends, and every byte that is no continuation byte
unfoldable pub is_char_boundary : List ℕ → ℕ → Bool
is_char_boundary text i =
    i == 0 || i == length text || (ltb i (length text) && not (is_continuation (byte_at text i)))

-- A byte of ASCII text
abbrev pub IsAscii : ℕ → Type 0
IsAscii c = c < 0x80

utf8_from-ascii : (bytes : List ℕ) → All IsAscii bytes → utf8_from 0 bytes ≡ true
unfolding utf8_from utf8_step
utf8_from-ascii [] h = refl
utf8_from-ascii (b ∷ rest) h = rw (lt→ltb b 0x80 h.0) (utf8_from-ascii rest h.1)

-- ASCII text is valid UTF-8.
pub from_utf8-ascii : (bytes : List ℕ) → All IsAscii bytes → from_utf8 bytes ≡ some bytes
unfolding from_utf8 is_utf8
from_utf8-ascii bytes h = rw (utf8_from-ascii bytes h)
