-- ===== src/Http1/Limits.antt =====
-- Bounds on what one step of a direction leaves: what waits for a body, and the chunked bodies.
use lens.Http1.Body.{
  ChunkPhase, size, chunk_data, data_crlf, trailers, PendingBody, fixed, chunked, until_eof,
  DirectionState, empty_state, Step, need_more, progress, message, desynchronized, Round,
  Round-cases, continue, return, capture, consume_fixed, read_size, phase_of_size, chunk_size,
  round_size, round_data, round_data_crlf, round_trailers, chunk_round, chunk_loop, max_head_bytes,
  crlf, blank_line,
}
use lens.Prelude.{
  ℕ, zero, suc, ◌+◌, ◌-◌, ◌≤◌, ◌<◌, Option, none, some, length, take, drop, min, length-append,
  length-take, length-drop, ◌≡◌, refl, sym, subst, arith, Bool-cases, Option-cases, inl, inr,
}
use lens.Protocol.{DecodedMessage}
use lens.Text.{Bytes, starts_with}
use lens.Text.Find.{find_bytes_bound, starts_with-length}
use lens.Text.Utf8.{from_utf8}
use lens.Text.Words.{find_bytes}

-- A chunk that is being read has bytes to come.
abbrev pub PhaseInv : ChunkPhase → Type 0
PhaseInv (chunk_data remaining) = 0 < remaining
PhaseInv _ = Unit

phase_of_size-PhaseInv : (n : ℕ) → PhaseInv (phase_of_size n)
phase_of_size-PhaseInv zero = tt
phase_of_size-PhaseInv (suc n) = omega arith

module _ (max_body : ℕ) where
  abbrev pub BodyFits : DecodedMessage → Type 0
  BodyFits m = length m.body ≤ max_body

  abbrev pub PendingInv : Option PendingBody → Type 0
  PendingInv none = Unit
  PendingInv (some (fixed m remaining)) = BodyFits m × (0 < remaining)
  PendingInv (some (chunked m phase)) = BodyFits m × PhaseInv phase
  PendingInv (some (until_eof m)) = BodyFits m

  -- What a step may return from a buffer of `n` bytes.
  abbrev pub StepInv : ℕ → DirectionState × Step → Type 0
  StepInv n (s, need_more) = PendingInv s.pending × (length s.buffer ≤ max_head_bytes)
  StepInv n (s, progress) = PendingInv s.pending × (length s.buffer < n)
  StepInv n (s, message m) = PendingInv s.pending × (length s.buffer < n) × BodyFits m
  StepInv n (s, desynchronized reason) = s ≡ empty_state

  abbrev RoundInv : ℕ → Round → Type 0
  RoundInv n (continue m phase buffer) = BodyFits m × PhaseInv phase × (length buffer < n)
  RoundInv n (return r) = StepInv n r

  pub capture-BodyFits :
      (m : DecodedMessage) (bytes : Bytes) → BodyFits m → BodyFits (capture m bytes max_body)
  unfolding capture
  capture-BodyFits m bytes h =
      let n = min (max_body - length m.body) (length bytes) in
      omega (arith, length-append m.body (take n bytes), length-take n bytes)

  pub consume_fixed-StepInv :
      (m : DecodedMessage) (remaining : ℕ) (buffer : Bytes)
      → BodyFits m
      → 0 < remaining
      → StepInv (length buffer) (consume_fixed m remaining buffer max_body)
  unfolding consume_fixed
  consume_fixed-StepInv m remaining buffer h k =
      let n = min remaining (length buffer) in
      ground (arith, capture-BodyFits m (take n buffer) h, length-drop n buffer)

  read_size-RoundInv :
      (m : DecodedMessage) (line rest : Bytes) (n : ℕ)
      → BodyFits m
      → length rest < n
      → RoundInv n (read_size m line rest)
  unfolding read_size
  read_size-RoundInv m line rest n h k = elim (Option-cases (from_utf8 line)) [
    | inl e ↦ rw (e, read_size, RoundInv) refl
    | inr (text, e) ↦ elim (Option-cases (chunk_size text)) [
      | inl f ↦ rw (e, read_size, RoundInv) (rw (f, read_size, RoundInv) refl)
      | inr (i, f) ↦
          rw (e, read_size, RoundInv) (rw (f, read_size, RoundInv) (h, phase_of_size-PhaseInv i, k))
    ]
  ]

  round_data-RoundInv :
      (m : DecodedMessage) (remaining : ℕ) (buffer : Bytes)
      → BodyFits m
      → 0 < remaining
      → RoundInv (length buffer) (round_data m remaining buffer max_body)
  unfolding round_data
  round_data-RoundInv m remaining buffer h k =
      let n = min remaining (length buffer) in
      ground (arith, capture-BodyFits m (take n buffer) h, length-drop n buffer)

  round_data_crlf-RoundInv :
      (m : DecodedMessage) (buffer : Bytes)
      → BodyFits m
      → RoundInv (length buffer) (round_data_crlf m buffer)
  unfolding round_data_crlf
  round_data_crlf-RoundInv m buffer h = ground (arith, length-drop 2 buffer)

  round_size-RoundInv :
      (m : DecodedMessage) (buffer : Bytes)
      → BodyFits m
      → RoundInv (length buffer) (round_size m buffer)
  unfolding round_size
  round_size-RoundInv m buffer h = elim (Option-cases (find_bytes buffer crlf)) [
    | inl e ↦ rw (e, round_size, RoundInv) (ground arith)
    | inr (i, e) ↦
        rw (e, round_size, RoundInv)
          (read_size-RoundInv m (take i buffer) (drop (i + 2) buffer) (length buffer) h
            (omega (arith, length-drop (i + 2) buffer, find_bytes_bound buffer crlf i e)))
  ]

  round_trailers-RoundInv :
      (m : DecodedMessage) (buffer : Bytes)
      → BodyFits m
      → RoundInv (length buffer) (round_trailers m buffer)
  unfolding round_trailers
  round_trailers-RoundInv m buffer h = elim (Bool-cases (starts_with buffer crlf)) [
    | inl e ↦
        rw (e, round_trailers, RoundInv)
          (tt, omega (arith, length-drop 2 buffer, starts_with-length buffer crlf e), h)
    | inr e ↦ elim (Option-cases (find_bytes buffer blank_line)) [
      | inl f ↦ rw (e, round_trailers, RoundInv) (rw (f, round_trailers, RoundInv) (ground arith))
      | inr (i, f) ↦
          rw (e, f, round_trailers, RoundInv)
            (
              tt,
              omega (arith, length-drop (i + 4) buffer, find_bytes_bound buffer blank_line i f),
              h,
            )
    ]
  ]

  chunk_round-RoundInv :
      (m : DecodedMessage) (phase : ChunkPhase) (buffer : Bytes)
      → BodyFits m
      → PhaseInv phase
      → RoundInv (length buffer) (chunk_round m phase buffer max_body)
  unfolding chunk_round
  chunk_round-RoundInv m size buffer h k = round_size-RoundInv m buffer h
  chunk_round-RoundInv m (chunk_data remaining) buffer h k =
      round_data-RoundInv m remaining buffer h k
  chunk_round-RoundInv m data_crlf buffer h k = round_data_crlf-RoundInv m buffer h
  chunk_round-RoundInv m trailers buffer h k = round_trailers-RoundInv m buffer h

  -- A bound on the buffer that a step began with may grow.
  StepInv-mono : (n k : ℕ) (r : DirectionState × Step) → n ≤ k → StepInv n r → StepInv k r
  StepInv-mono n k (s, need_more) le h = h
  StepInv-mono n k (s, progress) le h = (h.0, omega arith)
  StepInv-mono n k (s, message m) le h = (h.0, omega arith, h.2)
  StepInv-mono n k (s, desynchronized reason) le h = h

  pub chunk_loop-StepInv :
      (fuel : ℕ) (m : DecodedMessage) (phase : ChunkPhase) (buffer : Bytes)
      → length buffer < fuel
      → BodyFits m
      → PhaseInv phase
      → StepInv (length buffer) (chunk_loop fuel m phase buffer max_body)
  unfolding chunk_loop
  chunk_loop-StepInv zero m phase buffer l h k = absurd (omega arith)
  chunk_loop-StepInv (suc fuel) m phase buffer l h k =
      elim (Round-cases (chunk_round m phase buffer max_body)) [
        | inl (m', phase', buffer', e) ↦
            let (h', k', l') = rw (e, RoundInv) at (chunk_round-RoundInv m phase buffer h k) in
            let same : chunk_loop (suc fuel) m phase buffer max_body
                ≡ chunk_loop fuel m' phase' buffer' max_body =
              rw (e, chunk_loop) in
            subst (StepInv (length buffer)) (sym same) (
              StepInv-mono (length buffer') (length buffer) _ (omega arith)
                (chunk_loop-StepInv fuel m' phase' buffer' (omega arith) h' k'))
        | inr (r, e) ↦
            let same : chunk_loop (suc fuel) m phase buffer max_body ≡ r = rw (e, chunk_loop) in
            subst (StepInv (length buffer)) (sym same)
              (rw (e, RoundInv) at (chunk_round-RoundInv m phase buffer h k))
      ]
