-- ===== src/Redact/SqlTokens.antt =====
-- The token that the scanner makes of each item.
use lens.Prelude.{
  ◌&&◌, ℕ, suc, Bool, true, false, ◌||◌, [], ◌∷◌, ◌++◌, append_assoc, Option, none, some, ◌==◌,
  if◌then◌else◌, length, get_elem?, length-append, take_all, All, All-append, ◌≡◌, refl, sym, subst,
  ap, ◌∙◌, ◌⊎◌, inl, inr, arith, Bool-cases,
}
use lens.Redact.Sql.{
  Token, copied, hidden, comment_token, is_tag_byte, delimiter_end_from, dollar_token, none_or,
  is_word_or_dollar, is_letter_or_dollar, is_number_start, is_number_byte, number_width,
  plain_token, sql_token,
}
use lens.Text.{Bytes, str, starts_with, is_ascii_digit}
use lens.Text.Split.{position-Free}
use lens.Text.Words.{position}
use mathlib.Core.Option
use lens.Redact.SqlItems.{
  Item, plain, identifier, literal, numeral, line_comment, in_quotes, item_text, shown_text,
  is_hidden, Digits, IsFraction, IsExponent, IsNumberTail, NoDollarQuote, IsItem,
}
use lens.Redact.SqlQuotes.{quoted_width-in_quotes}

abbrev hidden_not : Bytes → ℕ → Token
hidden_not written width = record { written = written; width = width; hides = false }

-- The token that the scanner makes of an item.
abbrev pub token_of : Item → Token
token_of i = record { written = shown_text i; width = length (item_text i); hides = is_hidden i }

number_width-append :
    (ds rest : Bytes)
    → All (λ c. is_number_byte c ≡ true) ds
    → none_or is_number_byte (get_elem? rest 0) ≡ false
    → number_width (ds ++ rest) ≡ length ds
unfolding number_width
number_width-append [] [] h k = refl
number_width-append [] (c ∷ rest) h k = ap (λ b. if b then suc (number_width rest) else 0) k
number_width-append (d ∷ ds) rest h k =
    ap (λ b. if b then suc (number_width (ds ++ rest)) else 0) h.0
    ∙ ap suc (number_width-append ds rest h.1 k)

abbrev InNumber : Bytes → Type 0
InNumber = All (λ c. is_number_byte c ≡ true)

Digits-InNumber : (ds : Bytes) → Digits ds → InNumber ds
Digits-InNumber [] h = tt
Digits-InNumber (d ∷ ds) h = (ground (arith, h.0), Digits-InNumber ds h.1)

IsFraction-InNumber : (text : Bytes) → IsFraction text → InNumber text
IsFraction-InNumber text (inl e) = subst InNumber (sym e) tt
IsFraction-InNumber text (inr (digits, e, h)) =
    subst InNumber (sym e) (refl, Digits-InNumber digits h)

sign-InNumber :
    (sign : Bytes) → (sign ≡ []) ⊎ ((sign ≡ b'+' ∷ []) ⊎ (sign ≡ b'-' ∷ [])) → InNumber sign
sign-InNumber sign (inl e) = subst InNumber (sym e) tt
sign-InNumber sign (inr (inl e)) = subst InNumber (sym e) (refl, tt)
sign-InNumber sign (inr (inr e)) = subst InNumber (sym e) (refl, tt)

IsExponent-InNumber : (text : Bytes) → IsExponent text → InNumber text
IsExponent-InNumber text (inl e) = subst InNumber (sym e) tt
IsExponent-InNumber text (inr (e, sign, digit, digits, same, letter, signs, h)) =
    subst InNumber (sym same) (
      ground (arith, letter),
      All-append (λ c. is_number_byte c ≡ true) sign (digit ∷ digits) (sign-InNumber sign signs)
          (Digits-InNumber (digit ∷ digits) h),
    )

IsNumberTail-InNumber : (text : Bytes) → IsNumberTail text → InNumber text
IsNumberTail-InNumber text (whole, fraction, exponent, same, w, f, x) =
    let passes = λ (c : ℕ). is_number_byte c ≡ true in
    subst InNumber (sym same) (
      All-append passes whole (fraction ++ exponent) (Digits-InNumber whole w) (
        All-append passes fraction exponent (IsFraction-InNumber fraction f)
          (IsExponent-InNumber exponent x)))

delimiter_end_from-none :
    (offset : ℕ) (tag end : Bytes)
    → All (λ c. (is_tag_byte c ≡ true) × ((c == b'$') ≡ false)) tag
    → none_or (λ c. is_tag_byte c || c == b'$') (get_elem? end 0) ≡ false
    → delimiter_end_from offset (tag ++ end) ≡ none
unfolding delimiter_end_from
delimiter_end_from-none offset [] [] h k = refl
delimiter_end_from-none offset [] (c ∷ end) h k = ground arith
delimiter_end_from-none offset (c ∷ tag) end h k =
    let later = delimiter_end_from-none (suc offset) tag end h.1 k in
    rw (h.0.1, h.0.0, delimiter_end_from) later

dollar_token-none :
    (c : ℕ) (rest : Bytes)
    → ((c == b'$') ≡ false) ⊎ NoDollarQuote rest
    → dollar_token (c ∷ rest) ≡ none
unfolding dollar_token
dollar_token-none c rest (inl e) = rw (e, dollar_token) refl
dollar_token-none c rest (inr (tag, end, same, tags, stop)) =
    let d : delimiter_end_from 1 rest ≡ none =
      ap (delimiter_end_from 1) same ∙ delimiter_end_from-none 1 tag end tags stop in
    elim (Bool-cases (c == b'$')) [
      | inl e ↦ rw (e, d, dollar_token) refl
      | inr e ↦ rw (e, dollar_token) refl
    ]

digit-starts_with :
    (d : ℕ) (cs : Bytes)
    → is_ascii_digit d ≡ true
    → (starts_with (d ∷ cs) (str "--") ≡ false) × (starts_with (d ∷ cs) (str "/*") ≡ false)
unfolding starts_with str
digit-starts_with d cs h =
    let dash : (d == b'-') ≡ false = ground arith in
    let slash : (d == b'/') ≡ false = ground arith in
    (ap (λ b. b && starts_with cs (str "-")) dash, ap (λ b. b && starts_with cs (str "*")) slash)

module _ (previous : Option ℕ) where
  literal-token_of :
      (content rest : Bytes)
      → IsItem previous (literal content) rest
      → sql_token previous (item_text (literal content) ++ rest) ≡ token_of (literal content)
  unfolding sql_token
  literal-token_of content rest h =
      ap (λ n. hidden (str "'?'") (suc n)) (quoted_width-in_quotes b'\'' content rest h)

  identifier-token_of :
      (content rest : Bytes)
      → IsItem previous (identifier content) rest
      → sql_token previous (item_text (identifier content) ++ rest) ≡ token_of (identifier content)
  unfolding sql_token
  identifier-token_of content rest h =
      let quoted = in_quotes b'"' content in
      ap (λ n. copied (suc n) (quoted ++ rest)) (quoted_width-in_quotes b'"' content rest h)
      ∙ ap (λ (t : Bytes). hidden_not t (length quoted)) (take_all quoted rest)

  line_comment-token_of :
      (content rest : Bytes)
      → IsItem previous (line_comment content) rest
      → sql_token previous (item_text (line_comment content) ++ rest)
        ≡ token_of (line_comment content)
  unfolding sql_token
  line_comment-token_of content rest h =
      let bytes = item_text (line_comment content) ++ rest in
      let end : position b'\n' ((content ++ b'\n' ∷ []) ++ rest) ≡ some (length content) =
        ap (position b'\n') (append_assoc content (b'\n' ∷ []) rest)
        ∙ position-Free b'\n' content rest h in
      ap (λ o. comment_token bytes (Option.map suc (Option.map suc o))) end
      ∙ ap (hidden (str "-- [REDACTED]\n")) (omega (arith, length-append content (b'\n' ∷ [])))

  sql_token_plain :
      (c : ℕ) (cs : Bytes)
      → (c == b'"') ≡ false
      → (c == b'\'') ≡ false
      → starts_with (c ∷ cs) (str "--") ≡ false
      → starts_with (c ∷ cs) (str "/*") ≡ false
      → dollar_token (c ∷ cs) ≡ none
      → sql_token previous (c ∷ cs) ≡ plain_token previous (c ∷ cs)
  unfolding sql_token
  sql_token_plain c cs a b d e f = rw (a, b, d, e, f, sql_token) refl

  no_number_start :
      (c : ℕ) (next : Option ℕ)
      → (is_ascii_digit c ≡ false) ⊎ (none_or is_word_or_dollar previous ≡ true)
      → is_number_start previous c next ≡ false
  unfolding is_number_start
  no_number_start c next (inl e) = rw (e, is_number_start) refl
  no_number_start c next (inr e) = elim (Bool-cases (is_ascii_digit c)) [
    | inl d ↦ rw (d, e, is_number_start) refl
    | inr d ↦ rw (d, is_number_start) refl
  ]

  number_start :
      (c : ℕ) (next : Option ℕ)
      → is_ascii_digit c ≡ true
      → none_or is_word_or_dollar previous ≡ false
      → none_or is_letter_or_dollar next ≡ false
      → is_number_start previous c next ≡ true
  unfolding is_number_start
  number_start c next a b d = rw (a, b, d, is_number_start) refl

  -- What `plain_token` does by its test.
  abbrev by_number_start : ℕ → Bytes → Bool → Token
  by_number_start c cs t =
      if t then hidden (b'?' ∷ []) (suc (number_width cs)) else copied 1 (c ∷ cs)

  plain-token_of :
      (c : ℕ) (rest : Bytes)
      → IsItem previous (plain c) rest
      → sql_token previous (c ∷ rest) ≡ token_of (plain c)
  plain-token_of c rest (a, b, d, e, f, g) =
      sql_token_plain c rest a b d e (dollar_token-none c rest f)
      ∙ ap (by_number_start c rest) (no_number_start c (get_elem? rest 0) g)

  numeral-token_of :
      (d : ℕ) (ds rest : Bytes)
      → IsItem previous (numeral d ds) rest
      → sql_token previous (d ∷ (ds ++ rest)) ≡ token_of (numeral d ds)
  numeral-token_of d ds rest (digit, digits, before, next, end) =
      let cs = ds ++ rest in
      sql_token_plain d cs (ground arith) (ground arith) (digit-starts_with d cs digit).0
        (digit-starts_with d cs digit).1 (dollar_token-none d cs (inl (ground arith)))
      ∙ ap (by_number_start d cs) (number_start d (get_elem? cs 0) digit before next)
      ∙ ap (λ n. hidden (b'?' ∷ []) (suc n))
          (number_width-append ds rest (IsNumberTail-InNumber ds digits) end)

  pub sql_token-token_of :
      (i : Item) (rest : Bytes)
      → IsItem previous i rest
      → sql_token previous (item_text i ++ rest) ≡ token_of i
  sql_token-token_of (plain c) rest h = plain-token_of c rest h
  sql_token-token_of (identifier content) rest h = identifier-token_of content rest h
  sql_token-token_of (literal content) rest h = literal-token_of content rest h
  sql_token-token_of (numeral d ds) rest h = numeral-token_of d ds rest h
  sql_token-token_of (line_comment content) rest h = line_comment-token_of content rest h
