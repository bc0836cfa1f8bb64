-- ===== src/Redis/Extend.antt =====
-- Once the parser has decided, more input behind what it read changes nothing.
use lens.Prelude.{
  ℕ, zero, suc, ◌+◌, ◌-◌, ◌≤◌, ◌<◌, Bool, [], ◌∷◌, ◌++◌, Option, none, some, ltb, length, drop,
  length-drop, length-append, drop-append, take-append, slice-append, ◌≡◌, ◌≢◌, refl, ◌∙◌, arith,
  Option-cases, Bool-cases, inl, inr,
}
use lens.Prelude.Int.{ℤ, pos, negsuc}
use lens.Redis.Bounds.{Within, find_crlf_bound, line_bound, parse_at-Within}
use lens.Redis.Parse.{
  find_crlf, line, expect_empty_line, checked_add, checked_mul, with_line, parse_null, blob_body,
  blob_of_length, blob_of_count, parse_items, finish_items, max_aggregate_items, bounded_items,
  aggregate_of_count, flat_of_items, flat_of_count, parse_inline, Frame, line_value, null_frame,
  boolean_frame, inline_frame, blob, aggregate, flat_aggregate, frame_of, parse_frame, parse_at,
  max_nesting, parse_value, parse_signed,
}
use lens.Redis.Value.{RespValue, Values, Parse, ParseItems, Parse-cases}
use lens.Text.{Bytes}

-- `p` on more input is what it was, if that was a decision.
abbrev Extends : Parse → Parse → Type 0
Extends longer shorter = shorter ≢ Parse.incomplete → longer ≡ shorter

module _ (more : Bytes) where
  find_crlf-append :
      (bytes : Bytes) (i : ℕ) → find_crlf bytes ≡ some i → find_crlf (bytes ++ more) ≡ some i
  unfolding find_crlf
  find_crlf-append [] i h = cc
  find_crlf-append (a ∷ []) i h = cc
  find_crlf-append (a ∷ b ∷ rest) i h = ground (arith, find_crlf-append (b ∷ rest) (i - 1))

  line-append :
      (bytes value : Bytes) (n : ℕ)
      → line bytes ≡ some (value, n)
      → line (bytes ++ more) ≡ some (value, n)
  unfolding line
  line-append [] value n h = cc
  line-append (tag ∷ rest) value n h = elim (Option-cases (find_crlf rest)) [
    | inl e ↦ cc
    | inr (i, e) ↦ rw (find_crlf-append rest i e) (
        rw
          (slice-append 1 (i + 1) (tag ∷ rest) more (omega arith)
            (omega (arith, find_crlf_bound rest i e)))
          (rw e at h))
  ]

  with_line-append :
      (bytes : Bytes) (k k' : Bytes → ℕ → Parse)
      → ((v : Bytes) (n : ℕ) → 2 < n → n ≤ length bytes → Extends (k' v n) (k v n))
      → Extends (with_line (bytes ++ more) k') (with_line bytes k)
  unfolding with_line
  with_line-append bytes k k' h = elim (Option-cases (line bytes)) [
    | inl e ↦ λ d. absurd (d (rw (e, with_line)))
    | inr ((v, n), e) ↦
        let b = line_bound bytes v n e in rw (e, line-append bytes v n e, with_line) (h v n b.0 b.1)
  ]

  parse_null-append : (bytes : Bytes) → Extends (parse_null (bytes ++ more)) (parse_null bytes)
  unfolding parse_null expect_empty_line
  parse_null-append bytes = ground (arith, length-append bytes more, slice-append 1 3 bytes more)

  blob_body-append :
      (bytes : Bytes) (c : Bytes → RespValue) (header end total : ℕ)
      → header ≤ end
      → end ≤ total
      → Extends (blob_body (bytes ++ more) c header end total) (blob_body bytes c header end total)
  unfolding blob_body
  blob_body-append bytes c header end total h k = ground (
    arith,
    length-append bytes more,
    slice-append header end bytes more,
    slice-append end total bytes more,
  )

  blob_of_length-append :
      (bytes : Bytes) (c : Bytes → RespValue) (header len : ℕ)
      → Extends (blob_of_length (bytes ++ more) c header len) (blob_of_length bytes c header len)
  unfolding blob_of_length checked_add
  blob_of_length-append bytes c header len =
      ground (arith, blob_body-append bytes c header (header + len) (header + len + 2))

  blob_of_count-append :
      (bytes : Bytes) (c : Bytes → RespValue) (v : RespValue) (header : ℕ) (n : Option ℤ)
      → Extends (blob_of_count (bytes ++ more) c v header n) (blob_of_count bytes c v header n)
  unfolding blob_of_count
  blob_of_count-append bytes c v header none d = refl
  blob_of_count-append bytes c v header (some (negsuc n)) d = refl
  blob_of_count-append bytes c v header (some (pos n)) d = blob_of_length-append bytes c header n d

  parse_inline-append :
      (bytes : Bytes) → Extends (parse_inline (bytes ++ more)) (parse_inline bytes)
  unfolding parse_inline
  parse_inline-append bytes = elim (Option-cases (find_crlf bytes)) [
    | inl e ↦ λ d. absurd (d (rw (e, parse_inline)))
    | inr (end, e) ↦ λ d.
        rw (e, find_crlf-append bytes end e, parse_inline)
          (rw (take-append end bytes more (omega (arith, find_crlf_bound bytes end e))))
  ]

  module _ (parse : Bytes → Parse) (within : (bytes : Bytes) → Within bytes (parse bytes))
      (stable : (bytes : Bytes) → Extends (parse (bytes ++ more)) (parse bytes)) where
    parse_items-append :
        (n : ℕ) (bytes : Bytes) (start : ℕ)
        → start ≤ length bytes
        → parse_items parse n bytes start ≢ ParseItems.incomplete
        → parse_items parse n (bytes ++ more) start ≡ parse_items parse n bytes start
    unfolding parse_items
    parse_items-append zero bytes start h d = refl
    parse_items-append (suc n) bytes start h d = elim (Parse-cases (parse (drop start bytes))) [
      | inl (v, used, e) ↦
          let b : (0 < used) × (used ≤ length (drop start bytes)) =
            rw (e, Within) at (within (drop start bytes)) in
          let same : parse (drop start (bytes ++ more)) ≡ Parse.complete v used =
            rw (drop-append start bytes more h) (stable (drop start bytes) (λ w. cc (e, w)) ∙ e) in
          let later =
            parse_items-append n bytes (start + used) (omega (arith, length-drop start bytes)) in
          rw (e, same, parse_items)
            (rw (later (λ w. d (rw (e, parse_items) (rw (w, parse_items))))))
      | inr (inl e) ↦ absurd (d (rw (e, parse_items)))
      | inr (inr (r, e)) ↦
          let same : parse (drop start (bytes ++ more)) ≡ Parse.invalid r =
            rw (drop-append start bytes more h) (stable (drop start bytes) (λ w. cc (e, w)) ∙ e) in
          rw (e, same, parse_items)
    ]

    finish_items-append :
        (n : ℕ) (bytes : Bytes) (start : ℕ) (c : Values → RespValue)
        → start ≤ length bytes
        → Extends
            (finish_items c (parse_items parse n (bytes ++ more) start))
            (finish_items c (parse_items parse n bytes start))
    finish_items-append n bytes start c h d =
        rw (parse_items-append n bytes start h (λ w. d (rw (w, finish_items))))

    bounded_items-append :
        (bytes : Bytes) (c : Values → RespValue) (too_many : Bytes) (start n : ℕ)
        → start ≤ length bytes
        → Extends
            (bounded_items parse (bytes ++ more) c too_many start n)
            (bounded_items parse bytes c too_many start n)
    unfolding bounded_items
    bounded_items-append bytes c too_many start n h =
        elim (Bool-cases (ltb max_aggregate_items n)) [
          | inl e ↦ λ d. rw (e, bounded_items)
          | inr e ↦ rw (e, bounded_items) (finish_items-append n bytes start c h)
        ]

    aggregate_of_count-append :
        (bytes : Bytes) (c : Option Values → RespValue) (nullable : Bool) (start : ℕ) (n : Option ℤ)
        → start ≤ length bytes
        → Extends
            (aggregate_of_count parse (bytes ++ more) c nullable start n)
            (aggregate_of_count parse bytes c nullable start n)
    unfolding aggregate_of_count
    aggregate_of_count-append bytes c nullable start none h d = refl
    aggregate_of_count-append bytes c nullable start (some (negsuc n)) h d = refl
    aggregate_of_count-append bytes c nullable start (some (pos n)) h d =
        bounded_items-append bytes _ _ start n h d

    flat_of_items-append :
        (bytes : Bytes) (c : Values → RespValue) (start : ℕ) (n : Option ℕ)
        → start ≤ length bytes
        → Extends
            (flat_of_items parse (bytes ++ more) c start n)
            (flat_of_items parse bytes c start n)
    unfolding flat_of_items
    flat_of_items-append bytes c start none h d = refl
    flat_of_items-append bytes c start (some n) h d = bounded_items-append bytes c _ start n h d

    flat_of_count-append :
        (bytes : Bytes) (c : Values → RespValue) (multiplier start : ℕ) (n : Option ℤ)
        → start ≤ length bytes
        → Extends
            (flat_of_count parse (bytes ++ more) c multiplier start n)
            (flat_of_count parse bytes c multiplier start n)
    unfolding flat_of_count
    flat_of_count-append bytes c multiplier start none h d = refl
    flat_of_count-append bytes c multiplier start (some (negsuc n)) h d = refl
    flat_of_count-append bytes c multiplier start (some (pos n)) h d =
        flat_of_items-append bytes c start (checked_mul n multiplier) h d

    parse_frame-append :
        (frame : Frame) (bytes : Bytes)
        → Extends (parse_frame parse frame (bytes ++ more)) (parse_frame parse frame bytes)
    unfolding parse_frame
    parse_frame-append (line_value c) bytes = with_line-append bytes _ _ λ v n h k d. refl
    parse_frame-append null_frame bytes = parse_null-append bytes
    parse_frame-append boolean_frame bytes = with_line-append bytes _ _ λ v n h k d. refl
    parse_frame-append inline_frame bytes = parse_inline-append bytes
    parse_frame-append (blob c v) bytes =
        with_line-append bytes _ _
          λ digits header h k. blob_of_count-append bytes c v header (parse_signed digits)
    parse_frame-append (aggregate c nullable) bytes =
        with_line-append bytes _ _
          λ digits start h. aggregate_of_count-append bytes c nullable start (parse_signed digits)
    parse_frame-append (flat_aggregate c multiplier) bytes =
        with_line-append bytes _ _
          λ digits start h. flat_of_count-append bytes c multiplier start (parse_signed digits)

  pub parse_at-append :
      (levels : ℕ) (bytes : Bytes)
      → Extends (parse_at levels (bytes ++ more)) (parse_at levels bytes)
  unfolding parse_at
  parse_at-append levels [] d = absurd (d refl)
  parse_at-append zero (tag ∷ rest) d = refl
  parse_at-append (suc levels) (tag ∷ rest) d =
      parse_frame-append (parse_at levels) (parse_at-Within levels) (parse_at-append levels)
        (frame_of tag) (tag ∷ rest) d

-- What `parse_value` decides on a buffer, a frame and its length or a refusal and its reason, it
-- decides on every buffer that begins with it: only `Incomplete` can change when bytes arrive.
pub parse_value-append :
    (bytes more : Bytes) (depth : ℕ)
    → parse_value bytes depth ≢ Parse.incomplete
    → parse_value (bytes ++ more) depth ≡ parse_value bytes depth
unfolding parse_value
parse_value-append bytes more depth = parse_at-append more (max_nesting - depth) bytes
