-- ===== src/Redis/Capture.antt =====
-- What a message keeps of a command's arguments and of a reply: never more than the cap, and the
-- flag says whether anything was cut.
use lens.Core.{saturating_add, u64_mod}
use lens.Prelude.{
  ℕ, zero, suc, ◌+◌, ◌-◌, ◌≤◌, ◌<◌, Bool, true, false, ◌||◌, List, [], ◌∷◌, ◌++◌, append_assoc,
  append-nil, length, take, min, map, length-take, take_whole, ◌≡◌, refl, ◌∙◌, ◌⊎◌, inl, inr, arith,
  ap, sym, ltb, leb, Bool-cases, ltb→lt,
}
use lens.Protocol.{Headers}
use lens.Redis.Message.{
  render_bytes, render_value, boundary_below, truncate_utf8, capture_arguments, argument_values,
  request_message, request_arguments, response_message, skip_first, request_headers, command_of,
}
use lens.Redis.Value.{RespValue}
use lens.Text.{Bytes, str, eq_bytes_refl}

boundary_below-le : (text : Bytes) (end : ℕ) → boundary_below text end ≤ end
unfolding boundary_below
boundary_below-le text zero = omega arith
boundary_below-le text (suc end) = ground (arith, boundary_below-le text end)

length-truncate_utf8 : (text : Bytes) (n : ℕ) → length (truncate_utf8 text n) ≤ n
unfolding truncate_utf8
length-truncate_utf8 text n =
    ground (arith, length-take (boundary_below text n) text, boundary_below-le text n)

-- The capture is the text, or shorter than it.
truncate_utf8-cases :
    (text : Bytes) (n : ℕ)
    → ((truncate_utf8 text n ≡ text) × (ltb (length (truncate_utf8 text n)) (length text) ≡ false))
      ⊎ ((length (truncate_utf8 text n) < length text)
          × (ltb (length (truncate_utf8 text n)) (length text) ≡ true))
unfolding truncate_utf8
truncate_utf8-cases text n = elim (Bool-cases (leb (length text) n)) [
  | inl e ↦ rw (e, truncate_utf8) (inl (refl, ground arith))
  | inr e ↦
      let short : length (take (boundary_below text n) text) < length text =
        ground (arith, length-take (boundary_below text n) text, boundary_below-le text n) in
      rw (e, truncate_utf8) (inr (short, ground arith))
]

abbrev pub total : List Bytes → ℕ
total [] = 0
total (x ∷ xs) = length x + total xs

argument_values-append :
    (hs : Headers) (value : Bytes)
    → argument_values (hs ++ (str "redis-arg", value) ∷ []) ≡ argument_values hs ++ value ∷ []
unfolding argument_values
argument_values-append [] value = rw (eq_bytes_refl (str "redis-arg"))
argument_values-append ((name, v) ∷ hs) value = ground (arith, argument_values-append hs value)

module _ (max_body : ℕ) (fits : max_body < u64_mod) where
  -- What the loop appends to the arguments so far.
  abbrev Captured : List Bytes → ℕ → Bool → Headers → Headers × Bool → Type 0
  Captured arguments retained cut hs (hs', cut') =
      (new : List Bytes) × (argument_values hs' ≡ argument_values hs ++ new)
      × (retained + total new ≤ max_body)
      × ((((cut' ≡ cut) × (new ≡ map render_bytes arguments)))
          ⊎ ((cut' ≡ true) × (total new < total (map render_bytes arguments))))

  saturating_add-small : (n k : ℕ) → n + k ≤ max_body → saturating_add n k ≡ n + k
  unfolding saturating_add
  saturating_add-small n k h = omega arith

  Captured-cons :
      (a : Bytes) (arguments : List Bytes) (retained : ℕ) (cut : Bool) (hs : Headers)
      (r : Headers × Bool)
      → retained ≤ max_body
      → let c = truncate_utf8 (render_bytes a) (max_body - retained) in
        Captured arguments
          (retained + length c)
          (cut || ltb (length c) (length (render_bytes a)))
          (hs ++ (str "redis-arg", c) ∷ [])
          r
        → Captured (a ∷ arguments) retained cut hs r
  Captured-cons a arguments retained cut hs r h (new, values, fits, flag) =
      let c = truncate_utf8 (render_bytes a) (max_body - retained) in
      (
        c ∷ new,
        values ∙ rw argument_values-append (append_assoc (argument_values hs) (c ∷ []) new),
        omega arith,
        ground (arith, truncate_utf8-cases (render_bytes a) (max_body - retained)),
      )

  capture_arguments-Captured :
      (arguments : List Bytes) (retained : ℕ) (cut : Bool) (hs : Headers)
      → retained ≤ max_body
      → Captured arguments retained cut hs (capture_arguments max_body arguments retained cut hs)
  unfolding capture_arguments
  capture_arguments-Captured [] retained cut hs h =
      ([], sym (append-nil (argument_values hs)), omega arith, inl (refl, refl))
  capture_arguments-Captured (a ∷ arguments) retained cut hs h =
      let c = truncate_utf8 (render_bytes a) (max_body - retained) in
      let room : retained + length c ≤ max_body =
        omega (arith, length-truncate_utf8 (render_bytes a) (max_body - retained)) in
      Captured-cons a arguments retained cut hs _ h (
        rw (capture_arguments, saturating_add-small retained (length c) room)
          (capture_arguments-Captured arguments (retained + length c) _ _ room))

-- The arguments of a request after its command, as text.
abbrev pub rendered_arguments : RespValue → List Bytes
rendered_arguments value = map render_bytes (skip_first (request_arguments value))

argument_values-request_headers : (command : Bytes) → argument_values (request_headers command) ≡ []
unfolding argument_values str
argument_values-request_headers command = refl

-- A request keeps at most `max_body` bytes, a u64, of the arguments of its command, the name of
-- the command aside. If it is not marked as truncated it
-- keeps every argument, rendered, in order; if it is, it keeps less than all.
pub request_message-Captured :
    (value : RespValue) (max_body : ℕ)
    → max_body < u64_mod
    → let m = request_message value max_body in
      (total (argument_values m.headers) ≤ max_body)
      × (((m.truncated ≡ false) × (argument_values m.headers ≡ rendered_arguments value))
          ⊎ ((m.truncated ≡ true)
              × (total (argument_values m.headers) < total (rendered_arguments value))))
unfolding request_message
request_message-Captured value max_body h =
    let arguments = skip_first (request_arguments value) in
    let first = request_headers (command_of (request_arguments value)) in
    let (new, values, small, flag) =
      capture_arguments-Captured max_body h arguments 0 false first (omega arith) in
    let kept : argument_values (capture_arguments max_body arguments 0 false first).0 ≡ new =
      values ∙ rw argument_values-request_headers in
    (rw kept (omega arith), rw kept flag)

-- A reply keeps the first `max_body` bytes of its rendering, and is marked as truncated exactly when
-- that is not all of it.
pub response_message_body :
    (value : RespValue) (max_body : ℕ)
    → let m = response_message value max_body in
      ((m.truncated ≡ false) × (m.body ≡ render_value value) × (length m.body ≤ max_body))
      ⊎ ((m.truncated ≡ true)
          × (m.body ≡ take max_body (render_value value))
          × (length m.body ≡ max_body)
          × (max_body < length (render_value value)))
unfolding response_message
response_message_body value max_body =
    let text = render_value value in
    elim (Bool-cases (ltb max_body (length text))) [
      | inl e ↦ inr (
        e,
        ap (λ n. take n text) (ground arith),
        ground (arith, length-take (min (length text) max_body) text),
        ltb→lt max_body (length text) e,
      )
      | inr e ↦ inl (
        e,
        take_whole text {k = min (length text) max_body} (ground arith),
        omega (arith, length-take (min (length text) max_body) text),
      )
    ]
