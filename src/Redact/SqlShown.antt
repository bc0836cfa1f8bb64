-- ===== src/Redact/SqlShown.antt =====
-- What the scanner makes of a sequence of items.
use lens.Prelude.{
  Option-cases, length-drop, take, some, inl, inr, ℕ, zero, suc, ◌-◌, ◌<◌, ◌≤◌, Bool, ◌||◌, [], ◌∷◌,
  ◌++◌, Option, none, length, drop, get_elem?, ◌≡◌, refl, ap, arith,
}
use lens.Redact.Sql.{
  delimiter_end_from, dollar_delimiter_end, dollar_content, dollar_token, dollar_or_plain,
  comment_token, block_token, Token, sql_token, sql_loop,
}
use lens.Text.{str, Bytes}
use lens.Text.Words.{find_bytes, position}

-- One round, and those behind it.
abbrev then_rest : Token → Bytes × Bool → Bytes × Bool
then_rest token (safe, changed) = (token.written ++ safe, token.hides || changed)

abbrev round : ℕ → Bytes → Token → Bytes × Bool
round fuel bytes token =
    then_rest token (sql_loop fuel (get_elem? bytes (token.width - 1)) (drop token.width bytes))

delimiter_end_from-lt :
    (offset : ℕ) (bytes : Bytes) (end : ℕ)
    → delimiter_end_from offset bytes ≡ some end
    → offset < end
unfolding delimiter_end_from
delimiter_end_from-lt offset [] end h = cc
delimiter_end_from-lt offset (c ∷ cs) end h =
    ground (arith, delimiter_end_from-lt (suc offset) cs end)

delimiter_positive :
    (c : ℕ) (cs : Bytes) (end : ℕ) → dollar_delimiter_end (c ∷ cs) ≡ some end → 0 < end
unfolding dollar_delimiter_end
delimiter_positive c cs end h = ground (arith, delimiter_end_from-lt 1 cs end)

-- A token that passes a byte.
abbrev Passes : Token → Type 0
Passes token = 0 < token.width

abbrev PassesIfAny : Option Token → Type 0
PassesIfAny none = Unit {0}
PassesIfAny (some token) = Passes token

dollar_content-Passes :
    (bytes : Bytes) (end : ℕ) (o : Option ℕ) → 0 < end → PassesIfAny (dollar_content bytes end o)
dollar_content-Passes bytes end none h = tt
dollar_content-Passes bytes end (some n) h = omega arith

dollar_token-Passes : (c : ℕ) (cs : Bytes) → PassesIfAny (dollar_token (c ∷ cs))
unfolding dollar_token
dollar_token-Passes c cs = elim (Option-cases (dollar_delimiter_end (c ∷ cs))) [
  | inl e ↦ rw (e, dollar_token) tt
  | inr (end, e) ↦
      rw (e, dollar_token)
        (dollar_content-Passes (c ∷ cs) end (find_bytes (drop end (c ∷ cs)) (take end (c ∷ cs)))
          (delimiter_positive c cs end e))
]

dollar_or_plain-Passes :
    (previous : Option ℕ) (c : ℕ) (cs : Bytes) (o : Option Token)
    → PassesIfAny o
    → Passes (dollar_or_plain previous (c ∷ cs) o)
dollar_or_plain-Passes previous c cs none h = ground arith
dollar_or_plain-Passes previous c cs (some token) h = h

comment_token-Passes :
    (bytes : Bytes) (o : Option ℕ) → 0 < length bytes → Passes (comment_token bytes o)
comment_token-Passes bytes none h = h
comment_token-Passes bytes (some end) h = omega arith

block_token-Passes :
    (bytes : Bytes) (o : Option ℕ) → 0 < length bytes → Passes (block_token bytes o)
block_token-Passes bytes none h = h
block_token-Passes bytes (some offset) h = omega arith

sql_token-Passes : (previous : Option ℕ) (c : ℕ) (cs : Bytes) → Passes (sql_token previous (c ∷ cs))
unfolding sql_token
sql_token-Passes previous c cs =
    let bytes = c ∷ cs in
    ground (
      arith,
      comment_token-Passes bytes (position b'\n' bytes),
      block_token-Passes bytes (find_bytes (drop 2 bytes) (str "*/")),
      dollar_or_plain-Passes previous c cs (dollar_token bytes) (dollar_token-Passes c cs),
    )

-- As many rounds as there are bytes are enough: with more of them, the scanner writes the same.
pub sql_loop_fuel :
    (f g : ℕ) (previous : Option ℕ) (bytes : Bytes)
    → length bytes ≤ f
    → length bytes ≤ g
    → sql_loop f previous bytes ≡ sql_loop g previous bytes
unfolding sql_loop
sql_loop_fuel zero zero previous bytes h k = refl
sql_loop_fuel zero (suc g) previous [] h k = refl
sql_loop_fuel (suc f) zero previous [] h k = refl
sql_loop_fuel (suc f) (suc g) previous [] h k = refl
sql_loop_fuel zero (suc g) previous (c ∷ cs) h k = absurd (omega arith)
sql_loop_fuel (suc f) zero previous (c ∷ cs) h k = absurd (omega arith)
sql_loop_fuel (suc f) (suc g) previous (c ∷ cs) h k =
    let token = sql_token previous (c ∷ cs) in
    let passes = sql_token-Passes previous c cs in
    let l = length-drop token.width (c ∷ cs) in
    ap (then_rest token) (
      sql_loop_fuel f g (get_elem? (c ∷ cs) (token.width - 1)) (drop token.width (c ∷ cs))
        (omega arith) (omega arith))
