-- ===== src/Redis/Bounds.antt =====
-- What the parser consumes lies inside its input, so no slice and no drain of the source is out of
-- range, and every frame has a byte at least.
use lens.Prelude.{
  ℕ, zero, suc, ◌+◌, ◌-◌, ◌≤◌, ◌<◌, Bool, [], ◌∷◌, Option, none, some, ltb, length, take, drop,
  length-drop, ◌≡◌, arith, Option-cases, Bool-cases, inl, inr,
}
use lens.Prelude.Int.{ℤ, pos, negsuc}
use lens.Redis.Parse.{
  parse_signed, find_crlf, line, expect_empty_line, checked_add, checked_mul, with_line, parse_null,
  blob_body, blob_of_length, blob_of_count, parse_items, finish_items, max_aggregate_items,
  bounded_items, aggregate_of_count, flat_of_items, flat_of_count, inline_of_line, parse_inline,
  Frame, line_value, null_frame, boolean_frame, inline_frame, blob, aggregate, flat_aggregate,
  frame_of, parse_frame, parse_at, max_nesting, parse_value,
}
use lens.Redis.Value.{RespValue, Values, Parse, ParseItems, Parse-cases}
use lens.Text.{Bytes}

-- A complete frame has a byte at least, and lies inside the input.
abbrev pub Within : Bytes → Parse → Type 0
Within bytes (Parse.complete value consumed) = (0 < consumed) × (consumed ≤ length bytes)
Within bytes _ = Unit

abbrev pub WithinItems : Bytes → ℕ → ParseItems → Type 0
WithinItems bytes start (ParseItems.complete values consumed) =
    (start ≤ consumed) × (consumed ≤ length bytes)
WithinItems bytes start _ = Unit

pub find_crlf_bound : (bytes : Bytes) (i : ℕ) → find_crlf bytes ≡ some i → i + 2 ≤ length bytes
unfolding find_crlf
find_crlf_bound [] i h = cc
find_crlf_bound (a ∷ []) i h = cc
find_crlf_bound (a ∷ b ∷ rest) i h = ground (arith, find_crlf_bound (b ∷ rest) (i - 1))

pub line_bound :
    (bytes value : Bytes) (n : ℕ) → line bytes ≡ some (value, n) → (2 < n) × (n ≤ length bytes)
unfolding line
line_bound [] value n h = cc
line_bound (tag ∷ rest) value n h = ground (arith, find_crlf_bound rest (n - 3))

with_line-Within :
    (bytes : Bytes) (k : Bytes → ℕ → Parse)
    → ((v : Bytes) (n : ℕ) → 2 < n → n ≤ length bytes → Within bytes (k v n))
    → Within bytes (with_line bytes k)
unfolding with_line
with_line-Within bytes k h = elim (Option-cases (line bytes)) [
  | inl e ↦ rw (e, with_line, Within) tt
  | inr ((v, n), e) ↦ let b = line_bound bytes v n e in rw (e, with_line, Within) (h v n b.0 b.1)
]

parse_null-Within : (bytes : Bytes) → Within bytes (parse_null bytes)
unfolding parse_null expect_empty_line
parse_null-Within bytes = ground arith

blob_body-Within :
    (bytes : Bytes) (c : Bytes → RespValue) (header end total : ℕ)
    → 0 < total
    → Within bytes (blob_body bytes c header end total)
unfolding blob_body
blob_body-Within bytes c header end total h = ground arith

blob_of_length-Within :
    (bytes : Bytes) (c : Bytes → RespValue) (header len : ℕ)
    → Within bytes (blob_of_length bytes c header len)
unfolding blob_of_length checked_add
blob_of_length-Within bytes c header len =
    ground (arith, blob_body-Within bytes c header (header + len) (header + len + 2))

blob_of_count-Within :
    (bytes : Bytes) (c : Bytes → RespValue) (v : RespValue) (header : ℕ) (n : Option ℤ)
    → 2 < header
    → header ≤ length bytes
    → Within bytes (blob_of_count bytes c v header n)
unfolding blob_of_count
blob_of_count-Within bytes c v header none h k = tt
blob_of_count-Within bytes c v header (some (negsuc n)) h k = ground arith
blob_of_count-Within bytes c v header (some (pos n)) h k = blob_of_length-Within bytes c header n

inline_of_line-Within :
    (bytes text : Bytes) (end : ℕ) → end + 2 ≤ length bytes → Within bytes (inline_of_line text end)
unfolding inline_of_line
inline_of_line-Within bytes text end h = ground arith

parse_inline-Within : (bytes : Bytes) → Within bytes (parse_inline bytes)
unfolding parse_inline
parse_inline-Within bytes = elim (Option-cases (find_crlf bytes)) [
  | inl e ↦ rw (e, parse_inline, Within) tt
  | inr (end, e) ↦
      rw (e, parse_inline, Within)
        (inline_of_line-Within bytes (take end bytes) end (find_crlf_bound bytes end e))
]

module _ (parse : Bytes → Parse) (within : (bytes : Bytes) → Within bytes (parse bytes)) where
  parse_items-WithinItems :
      (n : ℕ) (bytes : Bytes) (start : ℕ)
      → start ≤ length bytes
      → WithinItems bytes start (parse_items parse n bytes start)
  unfolding parse_items
  parse_items-WithinItems zero bytes start h = omega arith
  parse_items-WithinItems (suc n) bytes start h = elim (Parse-cases (parse (drop start bytes))) [
    | inl (v, used, e) ↦
        let b : (0 < used) × (used ≤ length (drop start bytes)) =
          rw (e, Within) at (within (drop start bytes)) in
        rw (e, parse_items, WithinItems)
          (ground (
            arith,
            length-drop start bytes,
            parse_items-WithinItems n bytes (start + used) (omega (arith, length-drop start bytes)),
          ))
    | inr (inl e) ↦ rw (e, parse_items, WithinItems) tt
    | inr (inr (r, e)) ↦ rw (e, parse_items, WithinItems) tt
  ]

  finish_items-Within :
      (n : ℕ) (bytes : Bytes) (start : ℕ) (c : Values → RespValue)
      → 2 < start
      → start ≤ length bytes
      → Within bytes (finish_items c (parse_items parse n bytes start))
  finish_items-Within n bytes start c h k = ground (arith, parse_items-WithinItems n bytes start k)

  bounded_items-Within :
      (bytes : Bytes) (c : Values → RespValue) (too_many : Bytes) (start n : ℕ)
      → 2 < start
      → start ≤ length bytes
      → Within bytes (bounded_items parse bytes c too_many start n)
  unfolding bounded_items
  bounded_items-Within bytes c too_many start n h k =
      elim (Bool-cases (ltb max_aggregate_items n)) [
        | inl e ↦ rw (e, bounded_items, Within) tt
        | inr e ↦ rw (e, bounded_items, Within) (finish_items-Within n bytes start c h k)
      ]

  aggregate_of_count-Within :
      (bytes : Bytes) (c : Option Values → RespValue) (nullable : Bool) (start : ℕ) (n : Option ℤ)
      → 2 < start
      → start ≤ length bytes
      → Within bytes (aggregate_of_count parse bytes c nullable start n)
  unfolding aggregate_of_count
  aggregate_of_count-Within bytes c nullable start none h k = tt
  aggregate_of_count-Within bytes c nullable start (some (negsuc n)) h k = ground arith
  aggregate_of_count-Within bytes c nullable start (some (pos n)) h k =
      bounded_items-Within bytes _ _ start n h k

  flat_of_items-Within :
      (bytes : Bytes) (c : Values → RespValue) (start : ℕ) (n : Option ℕ)
      → 2 < start
      → start ≤ length bytes
      → Within bytes (flat_of_items parse bytes c start n)
  unfolding flat_of_items
  flat_of_items-Within bytes c start none h k = tt
  flat_of_items-Within bytes c start (some n) h k = bounded_items-Within bytes c _ start n h k

  flat_of_count-Within :
      (bytes : Bytes) (c : Values → RespValue) (multiplier start : ℕ) (n : Option ℤ)
      → 2 < start
      → start ≤ length bytes
      → Within bytes (flat_of_count parse bytes c multiplier start n)
  unfolding flat_of_count
  flat_of_count-Within bytes c multiplier start none h k = tt
  flat_of_count-Within bytes c multiplier start (some (negsuc n)) h k = tt
  flat_of_count-Within bytes c multiplier start (some (pos n)) h k =
      flat_of_items-Within bytes c start (checked_mul n multiplier) h k

  parse_frame-Within :
      (frame : Frame) (bytes : Bytes) → Within bytes (parse_frame parse frame bytes)
  unfolding parse_frame
  parse_frame-Within (line_value c) bytes = with_line-Within bytes _ λ v n h k. (omega arith, k)
  parse_frame-Within null_frame bytes = parse_null-Within bytes
  parse_frame-Within boolean_frame bytes = with_line-Within bytes _ λ v n h k. ground arith
  parse_frame-Within inline_frame bytes = parse_inline-Within bytes
  parse_frame-Within (blob c v) bytes =
      with_line-Within bytes _
        λ digits header. blob_of_count-Within bytes c v header (parse_signed digits)
  parse_frame-Within (aggregate c nullable) bytes =
      with_line-Within bytes _
        λ digits start. aggregate_of_count-Within bytes c nullable start (parse_signed digits)
  parse_frame-Within (flat_aggregate c multiplier) bytes =
      with_line-Within bytes _
        λ digits start. flat_of_count-Within bytes c multiplier start (parse_signed digits)

pub parse_at-Within : (levels : ℕ) (bytes : Bytes) → Within bytes (parse_at levels bytes)
unfolding parse_at
parse_at-Within levels [] = tt
parse_at-Within zero (tag ∷ rest) = tt
parse_at-Within (suc levels) (tag ∷ rest) =
    parse_frame-Within (parse_at levels) (parse_at-Within levels) (frame_of tag) (tag ∷ rest)

-- A frame that `parse_value` returns has a byte at least and ends inside its input, at every depth:
-- no slice and no drain of the decoder is out of range, and each round of its loop makes progress.
pub parse_value-Within : (bytes : Bytes) (depth : ℕ) → Within bytes (parse_value bytes depth)
unfolding parse_value
parse_value-Within bytes depth = parse_at-Within (max_nesting - depth) bytes
