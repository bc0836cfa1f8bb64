-- ===== src/Http1/Lines.antt =====
-- The header lines of a head, and the one length that they declare.
use lens.Http1.Head
use lens.Http1.Head.{
  ParsedHead, Fields, new_length, add_field, add_line, add_lines, parse_start_line, parse_lines,
  first_and_rest,
}
use lens.Http1.Length.{Agrees, HeadInv, parse-HeadInv}
use lens.Text.Result.{Result, ok, err, Result-cases}
use lens.Prelude.{
  List, [], ◌∷◌, ◌++◌, append-nil, append_assoc, some, All, ◌≡◌, refl, sym, ap, ◌∙◌, subst, inl,
  inr, Option-cases,
}
use lens.Protocol.{Headers}
use lens.Text.{Bytes}
use lens.Text.Split.{Free, SplitOnce, split_once-SplitOnce}
use lens.Text.Utf8.{from_utf8}
use lens.Text.Words.{split_once, split_crlf, trim}

-- The line is the name, a colon and the value, with any space around each.
abbrev pub IsField : Bytes → Bytes × Bytes → Type 0
IsField line (name, value) =
    (before : Bytes) × (behind : Bytes) × (line ≡ before ++ b':' ∷ behind)
    × Free b':' before
    × (name ≡ trim before)
    × (value ≡ trim behind)

-- Each line is the header in its place.
unfoldable pub AreFields : List Bytes → Headers → Type 0
AreFields [] [] = Unit
AreFields (line ∷ lines) (header ∷ headers) = IsField line header × AreFields lines headers
AreFields _ _ = ⊥

abbrev Adds : Headers → List Bytes → Result Fields → Type 0
Adds old lines (err reason) = Unit
Adds old lines (ok fields) =
    (headers : Headers) × (fields.headers ≡ old ++ headers) × AreFields lines headers

add_field-headers :
    (fields fields' : Fields) (name value : Bytes)
    → add_field fields name value ≡ ok fields'
    → fields'.headers ≡ fields.headers ++ (name, value) ∷ []
unfolding add_field
add_field-headers fields fields' name value h = elim (Result-cases (new_length fields name value)) [
  | inl (len, e) ↦ cc (rw (e, add_field) at h)
  | inr (reason, e) ↦ cc (rw (e, add_field) at h)
]

add_line-IsField :
    (fields fields' : Fields) (line : Bytes)
    → add_line fields line ≡ ok fields'
    → (header : Bytes × Bytes) × (fields'.headers ≡ fields.headers ++ header ∷ [])
      × IsField line header
unfolding add_line
add_line-IsField fields fields' line h = elim (Option-cases (split_once b':' line)) [
  | inl e ↦ cc (rw (e, add_line) at h)
  | inr ((name, value), e) ↦
      let (parts, free) = subst (SplitOnce b':' line) e (split_once-SplitOnce b':' line) in
      (
        (trim name, trim value),
        add_field-headers fields fields' (trim name) (trim value) (rw (e, add_line) at h),
        (name, value, parts, free, refl, refl),
      )
]

Adds-cons :
    (fields fields' : Fields) (line : Bytes) (lines : List Bytes)
    → add_line fields line ≡ ok fields'
    → (r : Result Fields) → Adds fields'.headers lines r
    → Adds fields.headers (line ∷ lines) r
unfolding AreFields
Adds-cons fields fields' line lines e (err reason) h = tt
Adds-cons fields fields' line lines e (ok last) (headers, same, are) =
    let (header, first, is) = add_line-IsField fields fields' line e in
    (
      header ∷ headers,
      same ∙ ap (◌++ headers) first ∙ append_assoc fields.headers (header ∷ []) headers,
      (is, are),
    )

add_lines-Adds :
    (fields : Fields) (lines : List Bytes) → Adds fields.headers lines (add_lines fields lines)
unfolding add_lines AreFields
add_lines-Adds fields [] = ([], sym (append-nil fields.headers), tt)
add_lines-Adds fields (line ∷ lines) = elim (Result-cases (add_line fields line)) [
  | inr (reason, e) ↦ rw (e, add_lines, Adds) tt
  | inl (fields', e) ↦
      let same : add_lines fields (line ∷ lines) ≡ add_lines fields' lines = rw (e, add_lines) in
      subst (Adds fields.headers (line ∷ lines)) (sym same) (
        Adds-cons fields fields' line lines e (add_lines fields' lines)
          (add_lines-Adds fields' lines))
]

-- The lines behind the first are the headers of the head.
abbrev LinesInv : List Bytes → Result ParsedHead → Type 0
LinesInv lines (err reason) = Unit
LinesInv lines (ok head) = AreFields lines head.headers

parse_lines-LinesInv :
    (first : Bytes) (lines : List Bytes) → LinesInv lines (parse_lines first lines)
unfolding parse_lines
parse_lines-LinesInv [] lines = tt
parse_lines-LinesInv (c ∷ cs) lines = elim (Result-cases (parse_start_line (c ∷ cs))) [
  | inr (reason, e) ↦ rw (e, parse_lines, LinesInv) tt
  | inl ((is_response, status), e) ↦ elim (Result-cases (add_lines Head.no_fields lines)) [
    | inr (reason, f) ↦ rw (e, f, parse_lines, LinesInv) tt
    | inl (fields, f) ↦
        let (headers, same, are) = rw (f, Adds) at (add_lines-Adds Head.no_fields lines) in
        rw (e, f, parse_lines, LinesInv) (subst (AreFields lines) (sym same) are)
  ]
]

-- A head that is not empty, by its first line and the others.
Splits : List Bytes → ParsedHead → Type 0
Splits pieces head =
    (first : Bytes) × (lines : List Bytes) × (pieces ≡ first ∷ lines) × AreFields lines head.headers

pieces-Splits :
    (pieces : List Bytes) (head : ParsedHead)
    → parse_lines (trim (first_and_rest pieces).0) (first_and_rest pieces).1 ≡ ok head
    → Splits pieces head
unfolding Splits parse_lines trim
pieces-Splits [] head h = cc h
pieces-Splits (first ∷ lines) head h =
    (first, lines, refl, rw (h, LinesInv) at (parse_lines-LinesInv (trim first) lines))

text-Splits :
    (bytes text : Bytes) (head : ParsedHead)
    → from_utf8 bytes ≡ some text
    → Head.parse bytes ≡ ok head
    → Splits (split_crlf [] text) head
unfolding Head.parse
text-Splits bytes text head e h = pieces-Splits (split_crlf [] text) head (rw (e, Head.parse) at h)

-- A head that parses is text, and each of its lines behind the first, split at CR LF, is the header
-- in its place: the name, a colon and the value, trimmed. Every one of these whose name is
-- Content-Length, in any case, declares the one length that the head records.
pub parse-Agrees :
    (bytes : Bytes) (head : ParsedHead)
    → Head.parse bytes ≡ ok head
    → ((text : Bytes) × (first : Bytes) × (lines : List Bytes) × (from_utf8 bytes ≡ some text)
        × (split_crlf [] text ≡ first ∷ lines)
        × AreFields lines head.headers)
      × All (Agrees head.content_length) head.headers
unfolding Splits Head.parse
parse-Agrees bytes head h = elim (Option-cases (from_utf8 bytes)) [
  | inl e ↦ cc (rw (e, Head.parse) at h)
  | inr (text, e) ↦
      let (first, lines, split, are) = text-Splits bytes text head e h in
      ((text, first, lines, e, split, are), rw (h, HeadInv) at (parse-HeadInv bytes))
]
