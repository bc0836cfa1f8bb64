-- ===== src/Redis/RoundTrip.antt =====
-- Commands as a client writes them, and what the decoder reads of them.
use lens.Prelude.{
  ℕ, ◌+◌, ◌≤◌, List, [], ◌∷◌, ◌++◌, append_assoc, none, some, length, slice, All, All-map,
  length-append, slice-middle, ◌≡◌, ◌≢◌, refl, ◌∙◌, arith, ap, sym,
}
use lens.Prelude.Int.{pos}
use lens.Redis.Parse.{
  find_crlf, line, checked_add, with_line, blob_body, blob_of_length, blob_of_count, parse_blob,
  crlf, parse_signed,
}
use lens.Redis.Value.{RespValue, Values, nil, cons, bulk, Parse}
use lens.Text.{Bytes, eq_bytes_iff}
use lens.Text.Number.{show, parse_i64-show, show-IsDigit, IsDigit}
use lens.Text.Utf8.{from_utf8-ascii}
use mathlib.Core.Option
use native.Mathlib.Nat.{add_assoc}

-- The `command` of the crate's tests: an array of bulk strings.
unfoldable pub encode_bulk : Bytes → Bytes
encode_bulk value = b'$' ∷ (show (length value) ++ (crlf ++ (value ++ crlf)))

unfoldable pub encode_bulks : List Bytes → Bytes
unfolding encode_bulk
encode_bulks [] = []
encode_bulks (value ∷ values) = encode_bulk value ++ encode_bulks values

unfoldable pub encode_command : List Bytes → Bytes
unfolding encode_bulks
encode_command arguments = b'*' ∷ (show (length arguments) ++ (crlf ++ encode_bulks arguments))

abbrev pub bulks : List Bytes → Values
bulks [] = nil
bulks (value ∷ values) = cons (bulk (some value)) (bulks values)

find_crlf-text :
    (text rest : Bytes)
    → All (λ c. c ≢ b'\r') text
    → find_crlf (text ++ (crlf ++ rest)) ≡ some (length text)
unfolding find_crlf
find_crlf-text [] rest h = refl
find_crlf-text (c ∷ []) rest h = ground arith
find_crlf-text (c ∷ d ∷ text) rest h = ground (arith, find_crlf-text (d ∷ text) rest)

pub line-text :
    (tag : ℕ) (text rest : Bytes)
    → All (λ c. c ≢ b'\r') text
    → line (tag ∷ (text ++ (crlf ++ rest))) ≡ some (text, length text + 3)
unfolding line
line-text tag text rest h = rw (find_crlf-text text rest h) (
    cc (
      slice-middle 1 (length text + 1) _ (tag ∷ []) text (crlf ++ rest) refl refl (omega arith),
      add_assoc (length text) 1 2,
    ))

pub parse_signed-show :
    (n : ℕ) → n ≤ 9_223_372_036_854_775_807 → parse_signed (show n) ≡ some (pos n)
unfolding parse_signed Option.bind
parse_signed-show n h =
    rw
      (from_utf8-ascii (show n)
        (All-map (λ c (d : IsDigit c). omega arith) (show n) (show-IsDigit n)))
      (parse_i64-show n h)

pub show-no_cr : (n : ℕ) → All (λ c. c ≢ b'\r') (show n)
show-no_cr n = All-map (λ c (d : IsDigit c). omega arith) (show n) (show-IsDigit n)

-- A frame that fits in memory
abbrev pub Fits : Bytes → Type 0
Fits bytes = length bytes ≤ 9_223_372_036_854_775_807

pub frame_length :
    (value : Bytes) → length (encode_bulk value) ≡ length (show (length value)) + 5 + length value
unfolding encode_bulk
frame_length value = omega (
  arith,
  length-append {0} (show (length value)) (crlf ++ (value ++ crlf)),
  length-append {0} value crlf,
)

pub with_line-some :
    (bytes : Bytes) (k : Bytes → ℕ → Parse) (v : Bytes) (n : ℕ)
    → line bytes ≡ some (v, n)
    → with_line bytes k ≡ k v n
unfolding with_line
with_line-some bytes k v n e = rw (e, with_line)

blob_of_length-complete :
    (bytes value : Bytes) (c : Bytes → RespValue) (header len : ℕ)
    → header + len + 2 ≤ 9_223_372_036_854_775_807
    → header + len + 2 ≤ length bytes
    → slice header (header + len) bytes ≡ value
    → slice (header + len) (header + len + 2) bytes ≡ crlf
    → blob_of_length bytes c header len ≡ Parse.complete (c value) (header + len + 2)
unfolding blob_of_length checked_add blob_body
blob_of_length-complete bytes value c header len h k e f =
    ground (arith, eq_bytes_iff (slice (header + len) (header + len + 2) bytes) crlf)

abbrev head : Bytes → Bytes
head value = b'$' ∷ (show (length value) ++ crlf)

-- A frame with what follows it, cut in three ways.
encode_bulk-parts :
    (value rest : Bytes)
    → (encode_bulk value ++ rest
        ≡ b'$' ∷ (show (length value) ++ (crlf ++ (value ++ (crlf ++ rest)))))
      × (encode_bulk value ++ rest ≡ head value ++ (value ++ (crlf ++ rest)))
      × (encode_bulk value ++ rest ≡ (head value ++ value) ++ (crlf ++ rest))
unfolding encode_bulk
encode_bulk-parts value rest = (simp append_assoc, simp append_assoc, simp append_assoc)

-- A bulk string is read back, with anything behind it.
pub blob-bulk :
    (value rest : Bytes)
    → Fits (encode_bulk value)
    → parse_blob (encode_bulk value ++ rest) (λ v. bulk (some v)) (bulk none)
      ≡ Parse.complete (bulk (some value)) (length (encode_bulk value))
unfolding parse_blob
blob-bulk value rest h =
    let n = length value in
    let header = length (show n) + 3 in
    let bytes = encode_bulk value ++ rest in
    let (parts, at_body, at_end) = encode_bulk-parts value rest in
    let l = frame_length value in
    let first : line bytes ≡ some (show n, header) =
      rw parts (line-text b'$' (show n) (value ++ (crlf ++ rest)) (show-no_cr n)) in
    let len_head : length (head value) ≡ header = omega (arith, length-append (show n) crlf) in
    let body : slice header (header + n) bytes ≡ value =
      slice-middle header (header + n) bytes (head value) value (crlf ++ rest) at_body
        (sym len_head) refl in
    let ending : slice (header + n) (header + n + 2) bytes ≡ crlf =
      slice-middle (header + n) (header + n + 2) bytes (head value ++ value) crlf rest at_end
        (omega (arith, length-append (head value) value)) refl in
    with_line-some bytes _ (show n) header first
    ∙ rw (parse_signed-show n (omega arith), blob_of_count)
        (blob_of_length-complete bytes value (λ v. bulk (some v)) header n (omega arith)
            (omega (arith, length-append (encode_bulk value) rest)) body ending
          ∙ ap (Parse.complete (bulk (some value))) (omega arith))
