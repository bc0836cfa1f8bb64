-- ===== src/Http1/Length.antt =====
-- The Content-Length that a head records.
use lens.Http1.Head
use lens.Http1.Head.{
  ParsedHead, Fields, conflicts, set_length, new_length, add_field, add_line, add_lines,
  parse_start_line, parse_lines, first_and_rest,
}
use lens.Text.Result.{Result, ok, err, Result-cases}
use lens.Prelude.{
  ℕ, ◌-◌, false, List, [], ◌∷◌, Option, none, some, All, All-append, ◌≡◌, refl, sym, ◌∙◌, subst,
  ◌⊎◌, inl, inr, arith, Option-cases, Bool-cases, if◌then◌else◌,
}
use lens.Text.{Bytes, str, eq_ignore_ascii_case}
use lens.Text.Number.{parse_unsigned, usize_mod}
use lens.Text.Utf8.{from_utf8}
use lens.Text.Words.{split_once, split_crlf, trim}

abbrev pub content_length_name : Bytes
content_length_name = str "content-length"

-- A header that is no Content-Length, or declares this length.
abbrev pub Agrees : Option ℕ → Bytes × Bytes → Type 0
Agrees len (name, value) =
    (eq_ignore_ascii_case name content_length_name ≡ false)
    ⊎ ((n : ℕ) × (len ≡ some n) × (parse_unsigned (usize_mod - 1) value ≡ some n))

abbrev Kept : Option ℕ → Option ℕ → Type 0
Kept len len' = (len ≡ none) ⊎ (len' ≡ len)

Agrees-Kept :
    (len len' : Option ℕ) (h : Bytes × Bytes) → Agrees len h → Kept len len' → Agrees len' h
Agrees-Kept len len' h (inl e) k = inl e
Agrees-Kept len len' h (inr (n, e, p)) (inl k) = absurd (cc (e, k))
Agrees-Kept len len' h (inr (n, e, p)) (inr k) = inr (n, k ∙ e, p)

All-Kept :
    (len len' : Option ℕ) (hs : List (Bytes × Bytes))
    → Kept len len'
    → All (Agrees len) hs
    → All (Agrees len') hs
All-Kept len len' [] k a = tt
All-Kept len len' (h ∷ hs) k a = (Agrees-Kept len len' h a.0 k, All-Kept len len' hs k a.1)

abbrev LengthInv : Option ℕ → Bytes → Bytes → Result (Option ℕ) → Type 0
LengthInv old name value (err reason) = Unit
LengthInv old name value (ok len) = Agrees len (name, value) × Kept old len

abbrev FieldsInv : Result Fields → Type 0
FieldsInv (err reason) = Unit
FieldsInv (ok fields) = All (Agrees fields.content_length) fields.headers

abbrev pub HeadInv : Result ParsedHead → Type 0
HeadInv (err reason) = Unit
HeadInv (ok head) = All (Agrees head.content_length) head.headers

agree-LengthInv :
    (old : Option ℕ) (name value : Bytes) (n : ℕ)
    → parse_unsigned (usize_mod - 1) value ≡ some n
    → LengthInv old name value (
        if conflicts old n then err (str "conflicting HTTP Content-Length values") else ok (some n))
agree-LengthInv none name value n e = (inr (n, refl, e), inl refl)
agree-LengthInv (some current) name value n e = ground (arith, e)

set_length-LengthInv :
    (fields : Fields) (name value : Bytes)
    → LengthInv fields.content_length name value (set_length fields value)
unfolding set_length
set_length-LengthInv fields name value =
    elim (Option-cases (parse_unsigned (usize_mod - 1) value)) [
      | inl e ↦ rw (e, set_length, LengthInv) tt
      | inr (n, e) ↦
          let same : set_length fields value ≡ (
              if conflicts fields.content_length n
              then err (str "conflicting HTTP Content-Length values")
              else ok (some n)) =
            rw (e, set_length) in
          subst (LengthInv fields.content_length name value) (sym same)
            (agree-LengthInv fields.content_length name value n e)
    ]

new_length-LengthInv :
    (fields : Fields) (name value : Bytes)
    → LengthInv fields.content_length name value (new_length fields name value)
unfolding new_length
new_length-LengthInv fields name value =
    elim (Bool-cases (eq_ignore_ascii_case name content_length_name)) [
      | inl e ↦
          let same : new_length fields name value ≡ set_length fields value = rw (e, new_length) in
          subst (LengthInv fields.content_length name value) (sym same)
            (set_length-LengthInv fields name value)
      | inr e ↦
          let same : new_length fields name value ≡ ok fields.content_length = rw (e, new_length) in
          subst (LengthInv fields.content_length name value) (sym same) (inl e, inr refl)
    ]

add_field-FieldsInv :
    (fields : Fields) (name value : Bytes)
    → FieldsInv (ok fields)
    → FieldsInv (add_field fields name value)
unfolding add_field
add_field-FieldsInv fields name value h = elim (Result-cases (new_length fields name value)) [
  | inl (len, e) ↦
      let (agrees, kept) = rw (e, LengthInv) at (new_length-LengthInv fields name value) in
      rw (e, add_field, FieldsInv)
        (All-append (Agrees len) fields.headers ((name, value) ∷ [])
          (All-Kept fields.content_length len fields.headers kept h) (agrees, tt))
  | inr (reason, e) ↦ rw (e, add_field, FieldsInv) tt
]

add_line-FieldsInv :
    (fields : Fields) (line : Bytes) → FieldsInv (ok fields) → FieldsInv (add_line fields line)
unfolding add_line
add_line-FieldsInv fields line h = elim (Option-cases (split_once b':' line)) [
  | inl e ↦ rw (e, add_line, FieldsInv) tt
  | inr ((name, value), e) ↦
      let same : add_line fields line ≡ add_field fields (trim name) (trim value) =
        rw (e, add_line) in
      subst FieldsInv (sym same) (add_field-FieldsInv fields (trim name) (trim value) h)
]

add_lines-FieldsInv :
    (fields : Fields) (lines : List Bytes)
    → FieldsInv (ok fields)
    → FieldsInv (add_lines fields lines)
unfolding add_lines
add_lines-FieldsInv fields [] h = h
add_lines-FieldsInv fields (line ∷ lines) h = elim (Result-cases (add_line fields line)) [
  | inl (fields', e) ↦
      let same : add_lines fields (line ∷ lines) ≡ add_lines fields' lines = rw (e, add_lines) in
      subst FieldsInv (sym same) (
        add_lines-FieldsInv fields' lines (rw (e, FieldsInv) at (add_line-FieldsInv fields line h)))
  | inr (reason, e) ↦ rw (e, add_lines, FieldsInv) tt
]

parse_lines-HeadInv : (first : Bytes) (lines : List Bytes) → HeadInv (parse_lines first lines)
unfolding parse_lines
parse_lines-HeadInv [] lines = tt
parse_lines-HeadInv (c ∷ cs) lines = elim (Result-cases (parse_start_line (c ∷ cs))) [
  | inl ((is_response, status), e) ↦ elim (Result-cases (add_lines Head.no_fields lines)) [
    | inl (fields, f) ↦
        rw (e, f, parse_lines, HeadInv)
          (rw (f, FieldsInv) at (add_lines-FieldsInv Head.no_fields lines tt))
    | inr (reason, f) ↦ rw (e, f, parse_lines, HeadInv) tt
  ]
  | inr (reason, e) ↦ rw (e, parse_lines, HeadInv) tt
]

pub parse-HeadInv : (bytes : Bytes) → HeadInv (Head.parse bytes)
unfolding Head.parse
parse-HeadInv bytes = elim (Option-cases (from_utf8 bytes)) [
  | inl e ↦ rw (e, Head.parse, HeadInv) tt
  | inr (text, e) ↦
      rw (e, Head.parse, HeadInv)
        (parse_lines-HeadInv (trim (first_and_rest (split_crlf [] text)).0)
          (first_and_rest (split_crlf [] text)).1)
]
