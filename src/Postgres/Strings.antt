-- ===== src/Postgres/Strings.antt =====
-- The loops over the strings of a payload end.
use lens.Postgres.Wire.{
  cstrings, error_fields, cstring_at, take_cstring, is_terminator, cstrings_loop, error_fields_loop,
}
use lens.Prelude.{
  ℕ, zero, suc, ◌+◌, ◌<◌, ◌≤◌, List, [], ◌∷◌, Option, none, some, ◌==◌, length, length-drop, ◌≡◌,
  refl, ap, arith, Bool-cases, inl, inr,
}
use lens.Text.{Bytes}
use lens.Text.Result.{Result, Result-cases, ok, err, ◌>>=◌}
use lens.Text.Words.{position}

-- What follows a string, if there is one.
abbrev Follows : Bytes → Result (Bytes × Bytes) → Type 0
Follows payload (ok (value, rest)) = (length rest < length payload)
Follows payload (err reason) = Unit {0}

cstring_at-Follows : (b : ℕ) (bs : Bytes) (o : Option ℕ) → Follows (b ∷ bs) (cstring_at (b ∷ bs) o)
cstring_at-Follows b bs none = tt
cstring_at-Follows b bs (some end) = omega (arith, length-drop (end + 1) (b ∷ bs))

take_cstring-Follows : (b : ℕ) (bs : Bytes) → Follows (b ∷ bs) (take_cstring (b ∷ bs))
unfolding take_cstring
take_cstring-Follows b bs = cstring_at-Follows b bs (position 0 (b ∷ bs))

-- As many rounds as there are bytes are enough for the strings of a payload: with more of them the
-- same is read.
pub cstrings_loop_fuel :
    (f g : ℕ) (payload : Bytes)
    → length payload ≤ f
    → length payload ≤ g
    → cstrings_loop f payload ≡ cstrings_loop g payload
unfolding cstrings_loop
cstrings_loop_fuel zero zero payload h k = refl
cstrings_loop_fuel zero (suc g) [] h k = refl
cstrings_loop_fuel (suc f) zero [] h k = refl
cstrings_loop_fuel (suc f) (suc g) [] h k = refl
cstrings_loop_fuel zero (suc g) (b ∷ bs) h k = absurd (omega arith)
cstrings_loop_fuel (suc f) zero (b ∷ bs) h k = absurd (omega arith)
cstrings_loop_fuel (suc f) (suc g) (b ∷ bs) h k = elim (Bool-cases (is_terminator (b ∷ bs))) [
  | inl t ↦ rw (t, cstrings_loop) refl
  | inr t ↦ elim (Result-cases (take_cstring (b ∷ bs))) [
    | inr (reason, e) ↦ rw (t, e, cstrings_loop) refl
    | inl ((value, rest), e) ↦
        let fewer : length rest < length (b ∷ bs) =
          rw (e, Follows) at (take_cstring-Follows b bs) in
        let later = cstrings_loop_fuel f g rest (omega arith) (omega arith) in
        rw (t, e, cstrings_loop)
          (ap (λ r. r >>= λ (values : List Bytes). ok (value ∷ values)) later)
  ]
]

abbrev Shrinks : Bytes → Result (Bytes × Bytes) → Type 0
Shrinks payload (ok (value, rest)) = (length rest ≤ length payload)
Shrinks payload (err reason) = Unit {0}

cstring_at-Shrinks : (payload : Bytes) (o : Option ℕ) → Shrinks payload (cstring_at payload o)
cstring_at-Shrinks payload none = tt
cstring_at-Shrinks payload (some end) = omega (arith, length-drop (end + 1) payload)

take_cstring-Shrinks : (payload : Bytes) → Shrinks payload (take_cstring payload)
unfolding take_cstring
take_cstring-Shrinks payload = cstring_at-Shrinks payload (position 0 payload)

error_fields_loop_fuel :
    (f g : ℕ) (payload : Bytes)
    → length payload ≤ f
    → length payload ≤ g
    → error_fields_loop f payload ≡ error_fields_loop g payload
unfolding error_fields_loop
error_fields_loop_fuel zero zero payload h k = refl
error_fields_loop_fuel zero (suc g) [] h k = refl
error_fields_loop_fuel (suc f) zero [] h k = refl
error_fields_loop_fuel (suc f) (suc g) [] h k = refl
error_fields_loop_fuel zero (suc g) (b ∷ bs) h k = absurd (omega arith)
error_fields_loop_fuel (suc f) zero (b ∷ bs) h k = absurd (omega arith)
error_fields_loop_fuel (suc f) (suc g) (code ∷ bs) h k = elim (Bool-cases (code == 0)) [
  | inl t ↦ rw (t, error_fields_loop) refl
  | inr t ↦ elim (Result-cases (take_cstring bs)) [
    | inr (reason, e) ↦ rw (t, e, error_fields_loop) refl
    | inl ((value, rest), e) ↦
        let fewer : length rest ≤ length bs = rw (e, Shrinks) at (take_cstring-Shrinks bs) in
        let later = error_fields_loop_fuel f g rest (omega arith) (omega arith) in
        rw (t, e, error_fields_loop)
          (ap (λ r. r >>= λ (fields : List (ℕ × Bytes)). ok ((code, value) ∷ fields)) later)
  ]
]

-- The loops over the strings and over the error fields of a payload end within as many rounds as it
-- has bytes: with more rounds they read the same.
pub strings_end :
    (f : ℕ) (payload : Bytes)
    → length payload ≤ f
    → (cstrings_loop f payload ≡ cstrings payload)
      × (error_fields_loop f payload ≡ error_fields payload)
unfolding cstrings error_fields
strings_end f payload h = (
  cstrings_loop_fuel f (length payload) payload h (omega arith),
  error_fields_loop_fuel f (length payload) payload h (omega arith),
)
