-- ===== src/Text/Find.antt =====
-- Where `find_bytes` finds its needle.
use lens.Prelude.{ℕ, ◌+◌, ◌-◌, ◌≤◌, true, [], ◌∷◌, some, length, ◌≡◌, arith}
use lens.Text.{Bytes, starts_with}
use lens.Text.Words.{find_bytes}

pub starts_with-length :
    (text needle : Bytes) → starts_with text needle ≡ true → length needle ≤ length text
unfolding starts_with
starts_with-length text [] h = omega arith
starts_with-length [] (p ∷ ps) h = cc
starts_with-length (t ∷ ts) (p ∷ ps) h = ground (arith, starts_with-length ts ps)

-- The needle lies inside the text.
pub find_bytes_bound :
    (text needle : Bytes) (i : ℕ)
    → find_bytes text needle ≡ some i
    → i + length needle ≤ length text
unfolding find_bytes
find_bytes_bound [] needle i h = cc
find_bytes_bound (b ∷ bs) needle i h =
    ground (arith, starts_with-length (b ∷ bs) needle, find_bytes_bound bs needle (i - 1))
