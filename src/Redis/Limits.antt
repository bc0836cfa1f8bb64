-- ===== src/Redis/Limits.antt =====
-- What a call leaves in the decoder's buffers.
use lens.Core.{Direction, client_to_server, server_to_client, saturating_add, opposite}
use lens.Prelude.{
  ℕ, zero, suc, ◌≤◌, ◌<◌, [], ◌∷◌, ◌++◌, none, some, length, drop, length-drop, append-nil, ◌≡◌,
  ◌≢◌, refl, ◌⊎◌, inl, inr, arith,
}
use lens.Protocol.{DecodeBatch, need_more}
use lens.Redis.Bounds.{Within, parse_value-Within}
use lens.Redis.Decoder
use lens.Redis.Decoder.{
  RedisDecoder, decode_loop, wait_for_more, decode_available, flush, state, set_state,
  frame_overhead_budget,
}
use lens.Redis.Parse.{parse_value}
use lens.Redis.Value.{Parse, Parse-cases}
use lens.Text.{Bytes, str}
use native.Mathlib.Nat.{le_refl}

-- A buffer that a call leaves: empty, or the beginning of a frame within the bound.
abbrev pub Settled : ℕ → Bytes → Type 0
Settled max_body buffer =
    (buffer ≡ [])
    ⊎ ((parse_value buffer 0 ≡ Parse.incomplete)
        × (length buffer ≤ saturating_add max_body frame_overhead_budget))

-- Framing that was lost empties the buffer.
abbrev pub Cleared : DecodeBatch → Bytes → Type 0
Cleared batch buffer = (batch.desynchronized ≡ none) ⊎ (buffer ≡ [])

module _ (direction : Direction) (max_body : ℕ) where
  wait_for_more-Settled :
      (buffer : Bytes) (batch : DecodeBatch)
      → parse_value buffer 0 ≡ Parse.incomplete
      → batch.desynchronized ≡ none
      → Settled max_body (wait_for_more max_body buffer batch).0
        × Cleared (wait_for_more max_body buffer batch).1 (wait_for_more max_body buffer batch).0
  unfolding wait_for_more
  wait_for_more-Settled buffer batch e h = ground arith

  decode_loop-Settled :
      (f : ℕ) (buffer : Bytes) (batch : DecodeBatch)
      → length buffer < f
      → batch.desynchronized ≡ none
      → Settled max_body (decode_loop f direction max_body buffer batch).0
        × Cleared
            (decode_loop f direction max_body buffer batch).1
            (decode_loop f direction max_body buffer batch).0
  unfolding decode_loop
  decode_loop-Settled zero buffer batch h d = absurd (omega arith)
  decode_loop-Settled (suc f) [] batch h d = (inl refl, inr refl)
  decode_loop-Settled (suc f) (byte ∷ rest) batch h d =
      elim (Parse-cases (parse_value (byte ∷ rest) 0)) [
        | inl (v, n, e) ↦
            let b : (0 < n) × (n ≤ length (byte ∷ rest)) =
              rw (e, Within) at (parse_value-Within (byte ∷ rest) 0) in
            let l = length-drop n (byte ∷ rest) in
            rw (e, decode_loop, Settled, Cleared)
              (decode_loop-Settled f (drop n (byte ∷ rest)) _ (omega arith) d)
        | inr (inl e) ↦
            rw (e, decode_loop, Settled, Cleared) (wait_for_more-Settled (byte ∷ rest) batch e d)
        | inr (inr (r, e)) ↦ rw (e, decode_loop, Settled, Cleared) (inl refl, inr refl)
      ]

-- After a call the buffer of its direction is empty or holds the beginning of one frame, of at most
-- `max_body` and 65536 bytes; it is empty if the call lost the framing; and the other direction's
-- buffer and the cap are as they were.
pub push-Settled :
    (d : RedisDecoder) (direction : Direction) (bytes : Bytes)
    → let (d', batch) = Decoder.push d direction bytes in
      Settled d.max_body (state d' direction)
      × Cleared batch (state d' direction)
      × (state d' (opposite direction) ≡ state d (opposite direction))
      × (d'.max_body ≡ d.max_body)
unfolding Decoder.push
push-Settled d client_to_server bytes =
    let s =
      decode_loop-Settled client_to_server d.max_body _ (d.client ++ bytes) need_more (le_refl _)
        refl in
    (s.0, s.1, refl, refl)
push-Settled d server_to_client bytes =
    let s =
      decode_loop-Settled server_to_client d.max_body _ (d.server ++ bytes) need_more (le_refl _)
        refl in
    (s.0, s.1, refl, refl)

abbrev pub ended_inside : Bytes
ended_inside = str "Redis stream ended inside a RESP frame"

flush_lem :
    (r : RedisDecoder × DecodeBatch) (direction : Direction) (buffer : Bytes)
    → state r.0 direction ≡ buffer
    → let (d', batch) = flush r direction buffer in
      (state d' direction ≡ [])
      × (state d' (opposite direction) ≡ state r.0 (opposite direction))
      × (batch.messages ≡ r.1.messages)
      × (((state r.0 direction ≡ []) × (batch.desynchronized ≡ r.1.desynchronized))
          ⊎ ((state r.0 direction ≢ []) × (batch.desynchronized ≡ some ended_inside)))
flush_lem r direction [] e = (e, refl, refl, inl (e, refl))
flush_lem (d, batch) client_to_server (byte ∷ rest) e =
    (refl, refl, refl, inr (λ w. cc (e, w), refl))
flush_lem (d, batch) server_to_client (byte ∷ rest) e =
    (refl, refl, refl, inr (λ w. cc (e, w), refl))

-- At the end of a stream the direction's buffer is emptied and the other one kept; the messages are
-- those that a call with no bytes returns; and if that call leaves the beginning of a frame, the end
-- inside a frame is what is reported, else the refusal of that call, if any.
pub finish_lem :
    (d : RedisDecoder) (direction : Direction)
    → let (d', batch) = Decoder.finish d direction in
      let (waiting, flushed) = Decoder.push d direction [] in
      (state d' direction ≡ [])
      × (state d' (opposite direction) ≡ state d (opposite direction))
      × (batch.messages ≡ flushed.messages)
      × (((state waiting direction ≡ []) × (batch.desynchronized ≡ flushed.desynchronized))
          ⊎ ((state waiting direction ≢ []) × (batch.desynchronized ≡ some ended_inside)))
unfolding Decoder.finish Decoder.push
finish_lem d client_to_server =
    rw append-nil (flush_lem (decode_available d client_to_server) client_to_server _ refl)
finish_lem d server_to_client =
    rw append-nil (flush_lem (decode_available d server_to_client) server_to_client _ refl)
