-- ===== src/Http1/Bounded.antt =====
-- Bounds on what the decoder keeps, and on what it returns.
use lens.Core.{Direction, client_to_server, server_to_client}
use lens.Http1.Body.{
  DirectionState, Step, empty_state, waiting, finish_state, max_head_bytes, PendingBody, fixed,
  chunked, until_eof,
}
use lens.Http1.Decoder
use lens.Http1.Decoder.{
  Http1Decoder, Loop, after_step, goes_on, next_step, process_loop, receive, state, set_state,
  response_to_head, after_finish,
}
use lens.Http1.Limits.{BodyFits, PendingInv, StepInv}
use lens.Http1.Steps.{step-StepInv}
use lens.Prelude.{
  ℕ, zero, suc, ◌≤◌, ◌<◌, Bool, true, false, [], ◌∷◌, ◌++◌, Option, none, some, length, All,
  All-append, ◌≡◌, refl, ◌⊎◌, inl, inr, arith, subst, ◌∙◌,
}
use lens.Protocol.{DecodedMessage, DecodeBatch, need_more}
use lens.Text.{Bytes}
use native.Mathlib.Nat.{le_refl}

-- What a direction keeps between calls.
abbrev pub StateInv : ℕ → DirectionState → Type 0
StateInv max_body s = PendingInv max_body s.pending × (length s.buffer ≤ max_head_bytes)

-- What a call returns: every body within the cap, and no refusal but with the state reset.
abbrev pub BatchInv : ℕ → DirectionState → DecodeBatch → Type 0
BatchInv max_body s batch =
    All (BodyFits max_body) batch.messages × ((batch.desynchronized ≡ none) ⊎ (s ≡ empty_state))

module _ (direction : Direction) (max_body : ℕ) where
  abbrev LoopInv : Loop → Type 0
  LoopInv l =
      PendingInv max_body l.inner.pending
      × All (BodyFits max_body) l.batch.messages
      × (l.batch.desynchronized ≡ none)

  abbrev LoopDone : Loop → Type 0
  LoopDone l = StateInv max_body l.inner × BatchInv max_body l.inner l.batch

  -- A round, with what the rounds behind it make of a loop that goes on.
  round-LoopDone :
      (l rest : Loop) (r : DirectionState × Step)
      → StepInv max_body (length l.inner.buffer) r
      → LoopInv l
      → (LoopInv (after_step direction l r)
          → length (after_step direction l r).inner.buffer < length l.inner.buffer
          → LoopDone rest)
      → LoopDone (elim (goes_on r.1) [ true ↦ rest | false ↦ after_step direction l r ])
  round-LoopDone l rest (s, Step.need_more) h i go = (h, (i.1, inl i.2))
  round-LoopDone l rest (s, Step.progress) h i go = go (h.0, i.1, i.2) h.1
  round-LoopDone l rest (s, Step.message m) h i go =
      go (h.0, All-append (BodyFits max_body) l.batch.messages (m ∷ []) i.1 (h.2, tt), i.2) h.1
  round-LoopDone l rest (s, Step.desynchronized reason) h i go =
      rw h ((tt, omega arith), (i.1, inr refl))

  process_loop-LoopDone :
      (fuel : ℕ) (l : Loop)
      → length l.inner.buffer < fuel
      → LoopInv l
      → LoopDone (process_loop fuel direction max_body l)
  unfolding process_loop
  process_loop-LoopDone zero l h i = absurd (omega arith)
  process_loop-LoopDone (suc fuel) l h i =
      let r = next_step direction max_body l in
      round-LoopDone l (process_loop fuel direction max_body (after_step direction l r)) r
        (step-StepInv max_body direction (response_to_head direction l.methods) l.inner i.0) i
        (λ i' lt. process_loop-LoopDone fuel (after_step direction l r) (omega arith) i')

-- The states that calls lead to from a new decoder.
pub data Reachable (max_body : ℕ) : Http1Decoder → Type 0 where
  created : Reachable max_body (Decoder.new max_body)
  pushed :
      {d : Http1Decoder} (direction : Direction) (bytes : Bytes)
      → Reachable max_body d
      → Reachable max_body (Decoder.push d direction bytes).0
  ended :
      {d : Http1Decoder} (direction : Direction)
      → Reachable max_body d
      → Reachable max_body (Decoder.finish d direction).0

abbrev pub DecoderInv : Http1Decoder → Type 0
DecoderInv d = StateInv d.max_body d.client × StateInv d.max_body d.server

push-DecoderInv :
    (d : Http1Decoder) (direction : Direction) (bytes : Bytes)
    → DecoderInv d
    → let (d', batch) = Decoder.push d direction bytes in
      DecoderInv d' × BatchInv d.max_body (state d' direction) batch × (d'.max_body ≡ d.max_body)
unfolding Decoder.push
push-DecoderInv d client_to_server bytes h =
    let done =
      process_loop-LoopDone client_to_server d.max_body (suc (length (d.client.buffer ++ bytes)))
        (record { inner = receive d.client bytes; methods = d.request_methods; batch = need_more })
        (le_refl _) (h.0.0, tt, refl) in
    ((done.0, h.1), done.1, refl)
push-DecoderInv d server_to_client bytes h =
    let done =
      process_loop-LoopDone server_to_client d.max_body (suc (length (d.server.buffer ++ bytes)))
        (record { inner = receive d.server bytes; methods = d.request_methods; batch = need_more })
        (le_refl _) (h.1.0, tt, refl) in
    ((h.0, done.0), done.1, refl)

abbrev EndInv : ℕ → DirectionState × Option (DecodedMessage × Bool) → Type 0
EndInv max_body (s, none) = StateInv max_body s
EndInv max_body (s, some (m, incomplete)) = StateInv max_body s × BodyFits max_body m

finish_state-EndInv :
    (max_body : ℕ) (buffer : Bytes) (pending : Option PendingBody)
    → StateInv max_body (waiting buffer pending)
    → EndInv max_body (finish_state (waiting buffer pending))
unfolding finish_state
finish_state-EndInv max_body buffer none h = h
finish_state-EndInv max_body buffer (some (fixed m remaining)) h = ground (arith, h)
finish_state-EndInv max_body buffer (some (chunked m phase)) h = ground (arith, h)
finish_state-EndInv max_body buffer (some (until_eof m)) h = ground (arith, h)

after_finish-DecoderInv :
    (d : Http1Decoder) (direction : Direction) (r : DirectionState × Option (DecodedMessage × Bool))
    → DecoderInv d
    → EndInv d.max_body r
    → let (d', batch) = after_finish d direction r in
      DecoderInv d' × All (BodyFits d.max_body) batch.messages × (d'.max_body ≡ d.max_body)
after_finish-DecoderInv d client_to_server (s, none) h k = ((k, h.1), tt, refl)
after_finish-DecoderInv d server_to_client (s, none) h k = ((h.0, k), tt, refl)
after_finish-DecoderInv d client_to_server (s, some (m, incomplete)) h k =
    ((k.0, h.1), (k.1, tt), refl)
after_finish-DecoderInv d server_to_client (s, some (m, incomplete)) h k =
    ((h.0, k.0), (k.1, tt), refl)

finish-DecoderInv :
    (d : Http1Decoder) (direction : Direction)
    → DecoderInv d
    → let (d', batch) = Decoder.finish d direction in
      DecoderInv d' × All (BodyFits d.max_body) batch.messages × (d'.max_body ≡ d.max_body)
unfolding Decoder.finish
finish-DecoderInv d client_to_server h =
    after_finish-DecoderInv d client_to_server (finish_state d.client) h
      (finish_state-EndInv d.max_body d.client.buffer d.client.pending h.0)
finish-DecoderInv d server_to_client h =
    after_finish-DecoderInv d server_to_client (finish_state d.server) h
      (finish_state-EndInv d.max_body d.server.buffer d.server.pending h.1)

-- However a decoder of cap `max_body` was used, each of its directions holds at most 65536 bytes
-- that it cannot read yet, and at most `max_body` bytes of a body that it waits for the end of; and a
-- declared length, or chunk, that it waits for has bytes to come.
pub Reachable-DecoderInv :
    (max_body : ℕ) (d : Http1Decoder)
    → Reachable max_body d
    → (d.max_body ≡ max_body) × DecoderInv d
Reachable-DecoderInv max_body d created = (refl, ((tt, omega arith), (tt, omega arith)))
Reachable-DecoderInv max_body d (pushed {d = d'} direction bytes r) =
    let (e, h) = Reachable-DecoderInv max_body d' r in
    let p = push-DecoderInv d' direction bytes h in (p.2 ∙ e, p.0)
Reachable-DecoderInv max_body d (ended {d = d'} direction r) =
    let (e, h) = Reachable-DecoderInv max_body d' r in
    let p = finish-DecoderInv d' direction h in (p.2 ∙ e, p.0)

-- However a decoder of cap `max_body` was used before, the bodies that push returns have at most
-- `max_body` bytes each, and if push gives the stream up, it leaves its direction as it is in a new
-- decoder; the bodies that finish returns have at most `max_body` bytes each.
pub Reachable-BatchInv :
    (max_body : ℕ) (d : Http1Decoder) (direction : Direction) (bytes : Bytes)
    → Reachable max_body d
    → let (d', batch) = Decoder.push d direction bytes in
      BatchInv max_body (state d' direction) batch
      × All (BodyFits max_body) (Decoder.finish d direction).1.messages
Reachable-BatchInv max_body d direction bytes r =
    let (e, h) = Reachable-DecoderInv max_body d r in
    let (d', batch) = Decoder.push d direction bytes in
    (
      subst (λ n. BatchInv n (state d' direction) batch) e (push-DecoderInv d direction bytes h).1,
      subst (λ n. All (BodyFits n) (Decoder.finish d direction).1.messages) e
          (finish-DecoderInv d direction h).1,
    )
