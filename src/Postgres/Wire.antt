-- ===== src/Postgres/Wire.antt =====
-- crates/lens-proto-postgres/src/lib.rs: numbers, strings and lists of strings of the protocol.
use lens.Prelude.{
  ℕ, zero, suc, ◌+◌, ◌*◌, Bool, false, List, [], ◌∷◌, Option, none, some, ◌==◌, if◌then◌else◌,
  length, take, drop,
}
use lens.Text.{Bytes, str}
use lens.Text.Result.{Result, ok, err, ◌>>=◌}
use lens.Text.Words.{position}

-- `from_be_bytes`, of as many bytes as the number has
unfoldable pub from_be_bytes : ℕ → Bytes → ℕ
from_be_bytes high [] = high
from_be_bytes high (b ∷ bs) = from_be_bytes (high * 256 + b) bs

abbrev pub be16 : Bytes → ℕ
be16 bytes = from_be_bytes 0 (take 2 bytes)

abbrev pub be32 : Bytes → ℕ
be32 bytes = from_be_bytes 0 (take 4 bytes)

abbrev pub cstring_at : Bytes → Option ℕ → Result (Bytes × Bytes)
cstring_at payload none = err (str "unterminated PostgreSQL string")
cstring_at payload (some end) = ok (take end payload, drop (end + 1) payload)

unfoldable pub take_cstring : Bytes → Result (Bytes × Bytes)
unfolding position
take_cstring payload = cstring_at payload (position 0 payload)

unfoldable pub first_cstring : Bytes → Result Bytes
unfolding take_cstring
first_cstring payload = do (value, rest) ← take_cstring payload; ok value

-- `payload == [0]`
abbrev pub is_terminator : Bytes → Bool
is_terminator (b ∷ []) = b == 0
is_terminator _ = false

-- A string takes a byte at least, so as many rounds as there are bytes are enough.
unfoldable pub cstrings_loop : ℕ → Bytes → Result (List Bytes)
unfolding take_cstring
cstrings_loop zero payload = ok []
cstrings_loop (suc fuel) [] = ok []
cstrings_loop (suc fuel) (b ∷ bs) = if is_terminator (b ∷ bs) then ok [] else do
  (value, rest) ← take_cstring (b ∷ bs)
  values ← cstrings_loop fuel rest
  ok (value ∷ values)

unfoldable pub cstrings : Bytes → Result (List Bytes)
unfolding cstrings_loop
cstrings payload = cstrings_loop (length payload) payload

abbrev pub unterminated_fields : Result (List (ℕ × Bytes))
unterminated_fields = err (str "unterminated PostgreSQL error fields")

unfoldable pub error_fields_loop : ℕ → Bytes → Result (List (ℕ × Bytes))
unfolding take_cstring
error_fields_loop zero payload = unterminated_fields
error_fields_loop (suc fuel) [] = unterminated_fields
error_fields_loop (suc fuel) (code ∷ rest) = if code == 0 then ok [] else do
  (value, remaining) ← take_cstring rest
  fields ← error_fields_loop fuel remaining
  ok ((code, value) ∷ fields)

unfoldable pub error_fields : Bytes → Result (List (ℕ × Bytes))
unfolding error_fields_loop
error_fields payload = error_fields_loop (length payload) payload
