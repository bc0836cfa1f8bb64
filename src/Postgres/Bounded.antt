-- ===== src/Postgres/Bounded.antt =====
-- What a decoder holds, however it was used.
use lens.Core.{Direction, client_to_server, server_to_client}
use lens.Postgres.Decoder
use lens.Postgres.Decoder.{
  Phase, opaque, PostgresDecoder, buffer, set_buffer, Step, need_more, decoded, decoded_and_phase,
  desynchronized, startup, awaiting_encryption_response, typed, is_opaque, goes_on, process_loop,
  process, push, finish, step, max_frame_bytes,
}
use lens.Postgres.Fragments.{extend}
use lens.Postgres.Rounds.{Loop, taken, after, process_loop_preserves, length-taken}
use lens.Prelude.{
  ℕ, suc, ◌+◌, ◌≤◌, true, false, [], ◌∷◌, ◌++◌, length, ltb, ltb-false→le, ◌≡◌, refl, ap, ◌⊎◌, inl,
  inr, arith, Bool-cases,
}
use lens.Protocol
use lens.Protocol.{DecodedMessage, DecodeBatch}
use lens.Text.{Bytes}

abbrev pub max_buffer : ℕ
max_buffer = max_frame_bytes + 5

abbrev pub Emptied : PostgresDecoder → Type 0
Emptied d = (is_opaque d.phase ≡ false) ⊎ ((d.client ≡ []) × (d.server ≡ []))

abbrev pub BuffersInv : PostgresDecoder → Type 0
BuffersInv d = (length d.client ≤ max_buffer) × (length d.server ≤ max_buffer) × Emptied d

no_bytes : (bytes : Bytes) → length bytes ≤ 0 → bytes ≡ []
no_bytes [] h = refl
no_bytes (b ∷ bs) h = absurd (omega arith)

Emptied-shorter :
    (d : PostgresDecoder) (direction : Direction) (rest : Bytes)
    → length rest ≤ length (buffer d direction)
    → Emptied d
    → Emptied (set_buffer d direction rest)
Emptied-shorter d client_to_server rest h (inl e) = inl e
Emptied-shorter d server_to_client rest h (inl e) = inl e
Emptied-shorter d client_to_server rest h (inr (c, s)) =
    inr (no_bytes rest (omega (arith, ap length c)), s)
Emptied-shorter d server_to_client rest h (inr (c, s)) =
    inr (c, no_bytes rest (omega (arith, ap length s)))

set_buffer-BuffersInv :
    (d : PostgresDecoder) (direction : Direction) (rest : Bytes)
    → length rest ≤ length (buffer d direction)
    → BuffersInv d
    → BuffersInv (set_buffer d direction rest)
set_buffer-BuffersInv d client_to_server rest h (c, s, e) =
    (omega arith, s, Emptied-shorter d client_to_server rest h e)
set_buffer-BuffersInv d server_to_client rest h (c, s, e) =
    (c, omega arith, Emptied-shorter d server_to_client rest h e)

after_step-BuffersInv :
    (l : Loop) (s : Step) → BuffersInv l.0 → BuffersInv (Decoder.after_step l s).0
after_step-BuffersInv l need_more h = h
after_step-BuffersInv l (decoded m) h = h
after_step-BuffersInv l (decoded_and_phase m startup) h = (h.0, h.1, inl refl)
after_step-BuffersInv l (decoded_and_phase m awaiting_encryption_response) h = (h.0, h.1, inl refl)
after_step-BuffersInv l (decoded_and_phase m typed) h = (h.0, h.1, inl refl)
after_step-BuffersInv l (decoded_and_phase m opaque) h =
    (omega arith, omega arith, inr (refl, refl))
after_step-BuffersInv l (desynchronized reason) h = (omega arith, omega arith, inr (refl, refl))

round-BuffersInv :
    (direction : Direction) (l : Loop)
    → BuffersInv l.0
    → BuffersInv (after direction l (taken direction l.0)).0
round-BuffersInv direction l h =
    let r = taken direction l.0 in
    after_step-BuffersInv (set_buffer l.0 direction r.0, l.1) r.1
      (set_buffer-BuffersInv l.0 direction r.0 (length-taken direction l.0) h)

extend-BuffersInv :
    (d : PostgresDecoder) (direction : Direction) (bytes : Bytes)
    → is_opaque d.phase ≡ false
    → length (buffer d direction ++ bytes) ≤ max_buffer
    → BuffersInv d
    → BuffersInv (extend direction bytes d)
extend-BuffersInv d client_to_server bytes e h (c, s, _) = (h, s, inl e)
extend-BuffersInv d server_to_client bytes e h (c, s, _) = (c, h, inl e)

module _ (d : PostgresDecoder) (direction : Direction) (bytes : Bytes) where
  -- The three ways through `process`.
  pub process_cases :
      (P : Loop → Type 0)
      → (is_opaque d.phase ≡ true → P (d, Protocol.need_more))
      → P (Decoder.turn_opaque d, Decoder.too_large)
      → (is_opaque d.phase ≡ false
          → length (buffer d direction ++ bytes) ≤ max_buffer
          → P (
              process_loop
                (suc (length (buffer d direction ++ bytes)))
                direction
                (extend direction bytes d, Protocol.need_more)))
      → P (process d direction bytes)
  unfolding process
  process_cases P closed large rest = elim (Bool-cases (is_opaque d.phase)) [
    | inl e ↦ rw (e, process) (closed e)
    | inr e ↦ elim (Bool-cases (ltb max_buffer (length (buffer d direction ++ bytes)))) [
      | inl f ↦ rw (e, f, process) large
      | inr f ↦ rw (e, f, process) (rest e (ltb-false→le _ _ f))
    ]
  ]

  push-BuffersInv : BuffersInv d → BuffersInv (push d direction bytes).0
  unfolding push
  push-BuffersInv h =
      process_cases (λ l. BuffersInv l.0) (λ e. h) (omega arith, omega arith, inr (refl, refl))
        (λ e k.
          process_loop_preserves direction (λ l. BuffersInv l.0) (round-BuffersInv direction)
            (suc (length (buffer d direction ++ bytes)))
            (extend direction bytes d, Protocol.need_more)
            (extend-BuffersInv d direction bytes e k h))

finish-BuffersInv :
    (d : PostgresDecoder) (direction : Direction) → BuffersInv d → BuffersInv (finish d direction).0
unfolding finish
finish-BuffersInv d direction h = set_buffer-BuffersInv d direction [] (omega arith) h

pub data Reachable (max_body : ℕ) : PostgresDecoder → Type 0 where
  created : Reachable max_body (Decoder.new max_body)
  pushed :
      {d : PostgresDecoder} (direction : Direction) (bytes : Bytes)
      → Reachable max_body d
      → Reachable max_body (push d direction bytes).0
  ended :
      {d : PostgresDecoder} (direction : Direction)
      → Reachable max_body d
      → Reachable max_body (finish d direction).0

-- However a decoder was used, each of its buffers has at most 16777221 bytes, and once it is opaque
-- both of them are empty.
pub Reachable-BuffersInv :
    (max_body : ℕ) (d : PostgresDecoder) → Reachable max_body d → BuffersInv d
Reachable-BuffersInv max_body d created = (omega arith, omega arith, inl refl)
Reachable-BuffersInv max_body d (pushed {d = d'} direction bytes r) =
    push-BuffersInv d' direction bytes (Reachable-BuffersInv max_body d' r)
Reachable-BuffersInv max_body d (ended {d = d'} direction r) =
    finish-BuffersInv d' direction (Reachable-BuffersInv max_body d' r)
