-- ===== src/Redact/SqlQuotes.antt =====
-- Text in quotes, with the quotes in it doubled, and how far the scanner passes it.
use lens.Prelude.{
  ℕ, suc, true, false, [], ◌∷◌, ◌++◌, append_assoc, ◌==◌, ==_iff, if◌then◌else◌, length, get_elem?,
  length-append, ◌≡◌, refl, sym, ap, ◌∙◌, inl, inr, arith, Bool-cases,
}
use lens.Redact.Sql.{quoted_width, none_or}
use lens.Text.{Bytes}
use lens.Redact.SqlItems.{doubled}

module _ (quote : ℕ) where
  same_quote : (quote == quote) ≡ true
  same_quote = (==_iff quote quote).1 refl

  quoted_width_end :
      (rest : Bytes)
      → none_or (λ c. c == quote) (get_elem? rest 0) ≡ false
      → quoted_width quote true rest ≡ 0
  unfolding quoted_width
  quoted_width_end [] h = refl
  quoted_width_end (c ∷ rest) h = rw (h, quoted_width) refl

  quoted_width_other :
      (c : ℕ) (rest : Bytes)
      → (c == quote) ≡ false
      → quoted_width quote false (c ∷ rest) ≡ suc (quoted_width quote false rest)
  unfolding quoted_width
  quoted_width_other c rest e = ap (λ b. suc (quoted_width quote b rest)) e

  quoted_width_quote :
      (rest : Bytes) → quoted_width quote false (quote ∷ rest) ≡ suc (quoted_width quote true rest)
  unfolding quoted_width
  quoted_width_quote rest = ap (λ b. suc (quoted_width quote b rest)) same_quote

  quoted_width_again :
      (rest : Bytes) → quoted_width quote true (quote ∷ rest) ≡ suc (quoted_width quote false rest)
  unfolding quoted_width
  quoted_width_again rest =
      ap (λ b. if b then suc (quoted_width quote false rest) else 0) same_quote

  doubled_quote :
      (c : ℕ) (content : Bytes)
      → (c == quote) ≡ true
      → doubled quote (c ∷ content) ≡ quote ∷ quote ∷ doubled quote content
  unfolding doubled
  doubled_quote c content e =
      ap (λ b. if b then quote ∷ quote ∷ doubled quote content else c ∷ doubled quote content) e

  doubled_other :
      (c : ℕ) (content : Bytes)
      → (c == quote) ≡ false
      → doubled quote (c ∷ content) ≡ c ∷ doubled quote content
  unfolding doubled
  doubled_other c content e =
      ap (λ b. if b then quote ∷ quote ∷ doubled quote content else c ∷ doubled quote content) e

  -- The scanner passes the quoted text up to its closing quote.
  quoted_width-doubled :
      (content rest : Bytes)
      → none_or (λ c. c == quote) (get_elem? rest 0) ≡ false
      → quoted_width quote false (doubled quote content ++ quote ∷ rest)
        ≡ suc (length (doubled quote content))
  unfolding doubled
  quoted_width-doubled [] rest h = quoted_width_quote rest ∙ ap suc (quoted_width_end rest h)
  quoted_width-doubled (c ∷ content) rest h =
      let later = quoted_width-doubled content rest h in
      let whole = λ (b : Bytes). quoted_width quote false (b ++ quote ∷ rest) in
      elim (Bool-cases (c == quote)) [
        | inl e ↦
            ap whole (doubled_quote c content e)
            ∙ quoted_width_quote (quote ∷ (doubled quote content ++ quote ∷ rest))
            ∙ ap suc (quoted_width_again (doubled quote content ++ quote ∷ rest))
            ∙ ap (λ n. suc (suc n)) later
            ∙ sym (ap (λ b. suc (length b)) (doubled_quote c content e))
        | inr e ↦
            ap whole (doubled_other c content e)
            ∙ quoted_width_other c (doubled quote content ++ quote ∷ rest) e
            ∙ ap suc later
            ∙ sym (ap (λ b. suc (length b)) (doubled_other c content e))
      ]

  pub quoted_width-in_quotes :
      (content rest : Bytes)
      → none_or (λ c. c == quote) (get_elem? rest 0) ≡ false
      → quoted_width quote false ((doubled quote content ++ quote ∷ []) ++ rest)
        ≡ length (doubled quote content ++ quote ∷ [])
  quoted_width-in_quotes content rest h =
      ap (quoted_width quote false) (append_assoc (doubled quote content) (quote ∷ []) rest)
      ∙ quoted_width-doubled content rest h
      ∙ omega (arith, length-append (doubled quote content) (quote ∷ []))
