-- ===== src/Postgres/Rounds.antt =====
-- The rounds of the loop of `process`, with more bytes behind those in the buffer.
use lens.Core.{Direction, client_to_server, server_to_client}
use lens.Postgres.Decoder.{
  Phase, startup, awaiting_encryption_response, typed, opaque, PostgresDecoder, buffer, set_buffer,
  Step, need_more, decoded, decoded_and_phase, desynchronized, step, is_opaque, goes_on, after_step,
  process_loop,
}
use lens.Postgres.Steps.{waits, Waits, step-StepInv}
use lens.Prelude.{
  none, ◌≤◌, ℕ, zero, suc, ◌<◌, true, false, length, ◌≡◌, refl, sym, ap, ◌∙◌, subst, ◌⊎◌, inl, inr,
  arith, Bool-cases,
}
use lens.Protocol.{DecodeBatch}
use lens.Text.{Bytes}

-- What the loop changes.
abbrev pub Loop : Type 0
Loop = PostgresDecoder × DecodeBatch

abbrev pub taken : Direction → PostgresDecoder → Bytes × Step
taken direction d = step d.phase direction d.max_body (buffer d direction)

abbrev pub after : Direction → Loop → Bytes × Step → Loop
after direction (d, batch) (rest, s) = after_step (set_buffer d direction rest, batch) s

module _ (direction : Direction) where
  -- The rest of a round, and of those behind it.
  abbrev pub continue : ℕ → Loop → Bytes × Step → Loop
  continue fuel l r =
      let rest = process_loop fuel direction (after direction l r) in
      elim (goes_on r.1) [ true ↦ rest | false ↦ after direction l r ]

  pub process_loop-continue :
      (fuel : ℕ) (l : Loop)
      → process_loop (suc fuel) direction l ≡ continue fuel l (taken direction l.0)
  unfolding process_loop
  process_loop-continue fuel l = refl

  pub continue_on :
      (fuel : ℕ) (l : Loop) (r : Bytes × Step)
      → goes_on r.1 ≡ true
      → continue fuel l r ≡ process_loop fuel direction (after direction l r)
  continue_on fuel l r e = rw (e, continue) refl

  pub continue_stop :
      (fuel : ℕ) (l : Loop) (r : Bytes × Step)
      → goes_on r.1 ≡ false
      → continue fuel l r ≡ after direction l r
  continue_stop fuel l r e = rw (e, continue) refl

pub buffer-set_buffer :
    (d : PostgresDecoder) (direction : Direction) (bytes : Bytes)
    → buffer (set_buffer d direction bytes) direction ≡ bytes
buffer-set_buffer d client_to_server bytes = refl
buffer-set_buffer d server_to_client bytes = refl

pub set_buffer_kept :
    (d : PostgresDecoder) (direction : Direction) → set_buffer d direction (buffer d direction) ≡ d
set_buffer_kept d client_to_server = refl
set_buffer_kept d server_to_client = refl

-- A step that goes on leaves what it did not take in its buffer.
buffer-after :
    (direction : Direction) (l : Loop) (rest : Bytes) (s : Step)
    → goes_on s ≡ true
    → buffer (after direction l (rest, s)).0 direction ≡ rest
buffer-after client_to_server l rest (decoded m) h = refl
buffer-after client_to_server l rest (decoded_and_phase m startup) h = refl
buffer-after client_to_server l rest (decoded_and_phase m awaiting_encryption_response) h = refl
buffer-after client_to_server l rest (decoded_and_phase m typed) h = refl
buffer-after server_to_client l rest (decoded m) h = refl
buffer-after server_to_client l rest (decoded_and_phase m startup) h = refl
buffer-after server_to_client l rest (decoded_and_phase m awaiting_encryption_response) h = refl
buffer-after server_to_client l rest (decoded_and_phase m typed) h = refl
buffer-after _ l rest _ h = cc

after_waits :
    (direction : Direction) (l : Loop) → after direction l (buffer l.0 direction, need_more) ≡ l
after_waits direction (d, batch) = ap (λ x. (x, batch)) (set_buffer_kept d direction)

-- What a round does: it waits, it goes on with fewer bytes, or it stops.
abbrev pub Goes : Direction → PostgresDecoder → Bytes × Step → Type 0
Goes direction d (rest, s) =
    (goes_on s ≡ true) × (waits s ≡ false) × (length rest < length (buffer d direction))

abbrev pub Stops : Bytes × Step → Type 0
Stops (rest, s) = (goes_on s ≡ false) × (waits s ≡ false)

pub round_cases :
    (direction : Direction) (d : PostgresDecoder)
    → Waits (buffer d direction) (taken direction d)
      ⊎ (Goes direction d (taken direction d) ⊎ Stops (taken direction d))
round_cases direction d =
    let r = taken direction d in
    elim (step-StepInv d.phase direction d.max_body (buffer d direction)) [
      | inl e ↦ inl e
      | inr (inl (fewer, w)) ↦ elim (Bool-cases (goes_on r.1)) [
        | inl e ↦ inr (inl (e, w, fewer))
        | inr e ↦ inr (inr (e, w))
      ]
      | inr (inr (reason, e)) ↦ inr (inr (ap (λ x. goes_on x.1) e, ap (λ x. waits x.1) e))
    ]

module _ (direction : Direction) where
  -- The three ways in which the loop's first round ends.
  pub loop_idle :
      (f : ℕ) (l : Loop)
      → Waits (buffer l.0 direction) (taken direction l.0)
      → process_loop (suc f) direction l ≡ l
  loop_idle f l e =
      process_loop-continue direction f l ∙ ap (continue direction f l) e ∙ after_waits direction l

  pub loop_goes :
      (f : ℕ) (l : Loop)
      → goes_on (taken direction l.0).1 ≡ true
      → process_loop (suc f) direction l
        ≡ process_loop f direction (after direction l (taken direction l.0))
  loop_goes f l e =
      process_loop-continue direction f l ∙ continue_on direction f l (taken direction l.0) e

  pub loop_stops :
      (f : ℕ) (l : Loop)
      → goes_on (taken direction l.0).1 ≡ false
      → process_loop (suc f) direction l ≡ after direction l (taken direction l.0)
  loop_stops f l e =
      process_loop-continue direction f l ∙ continue_stop direction f l (taken direction l.0) e

  -- A round that goes on leaves fewer bytes.
  pub length-after :
      (l : Loop)
      → Goes direction l.0 (taken direction l.0)
      → length (buffer (after direction l (taken direction l.0)).0 direction)
        < length (buffer l.0 direction)
  length-after l (e, w, fewer) =
      let r = taken direction l.0 in
      subst (λ (b : Bytes). length b < length (buffer l.0 direction))
        (sym (buffer-after direction l r.0 r.1 e)) fewer

  -- With more rounds than the buffer has bytes, their number does not matter.
  pub process_loop_fuel :
      (f g : ℕ) (l : Loop)
      → length (buffer l.0 direction) < f
      → length (buffer l.0 direction) < g
      → process_loop f direction l ≡ process_loop g direction l
  process_loop_fuel zero g l h k = absurd (omega arith)
  process_loop_fuel (suc f) zero l h k = absurd (omega arith)
  process_loop_fuel (suc f) (suc g) l h k = elim (round_cases direction l.0) [
    | inl e ↦ loop_idle f l e ∙ sym (loop_idle g l e)
    | inr (inl goes) ↦
        let fewer = length-after l goes in
        loop_goes f l goes.0
        ∙ process_loop_fuel f g (after direction l (taken direction l.0)) (omega arith)
            (omega arith)
        ∙ sym (loop_goes g l goes.0)
    | inr (inr stops) ↦ loop_stops f l stops.0 ∙ sym (loop_stops g l stops.0)
  ]

  -- What every round preserves, the loop preserves.
  pub process_loop_preserves :
      (P : Loop → Type 0)
      → ((l : Loop) → P l → P (after direction l (taken direction l.0)))
      → (f : ℕ) (l : Loop) → P l
      → P (process_loop f direction l)
  unfolding process_loop
  process_loop_preserves P kept zero l h = h
  process_loop_preserves P kept (suc f) l h = elim (Bool-cases (goes_on (taken direction l.0).1)) [
    | inl on ↦
        subst P (sym (loop_goes f l on))
          (process_loop_preserves P kept f (after direction l (taken direction l.0)) (kept l h))
    | inr off ↦ subst P (sym (loop_stops f l off)) (kept l h)
  ]

-- A refusal is reported by a decoder that is opaque from then on.
abbrev pub Reported : Loop → Type 0
Reported l = (l.1.desynchronized ≡ none) ⊎ (is_opaque l.0.phase ≡ true)

pub taken_opaque :
    (direction : Direction) (phase : Phase) (max_body : ℕ) (bytes : Bytes)
    → is_opaque phase ≡ true
    → step phase direction max_body bytes ≡ (bytes, need_more)
unfolding step
taken_opaque direction opaque max_body bytes h = refl
taken_opaque direction _ max_body bytes h = cc

pub after_opaque :
    (direction : Direction) (l : Loop)
    → is_opaque l.0.phase ≡ true
    → after direction l (taken direction l.0) ≡ l
after_opaque direction l h =
    ap (after direction l) (taken_opaque direction l.0.phase l.0.max_body (buffer l.0 direction) h)
    ∙ after_waits direction l

after-Reported :
    (direction : Direction) (l : Loop) (r : Bytes × Step)
    → l.1.desynchronized ≡ none
    → Reported (after direction l r)
after-Reported direction l (rest, need_more) h = inl h
after-Reported direction l (rest, decoded m) h = inl h
after-Reported direction l (rest, decoded_and_phase m phase) h = inl h
after-Reported direction l (rest, desynchronized reason) h = inr refl

pub round-Reported :
    (direction : Direction) (l : Loop)
    → Reported l
    → Reported (after direction l (taken direction l.0))
round-Reported direction l (inl h) = after-Reported direction l (taken direction l.0) h
round-Reported direction l (inr h) = subst Reported (sym (after_opaque direction l h)) (inr h)

-- What no step leaves longer than it was.
after_shorter :
    (direction : Direction) (l : Loop) (r : Bytes × Step)
    → length (buffer (after direction l r).0 direction) ≤ length r.0
after_shorter client_to_server l (rest, decoded_and_phase m opaque) = omega arith
after_shorter client_to_server l (rest, desynchronized reason) = omega arith
after_shorter server_to_client l (rest, decoded_and_phase m opaque) = omega arith
after_shorter server_to_client l (rest, desynchronized reason) = omega arith
after_shorter client_to_server l (rest, _) = omega arith
after_shorter server_to_client l (rest, _) = omega arith

pub length-taken :
    (direction : Direction) (d : PostgresDecoder)
    → length (taken direction d).0 ≤ length (buffer d direction)
length-taken direction d = elim (step-StepInv d.phase direction d.max_body (buffer d direction)) [
  | inl e ↦ omega (arith, ap (λ x. length x.0) e)
  | inr (inl (fewer, w)) ↦ omega (arith, fewer)
  | inr (inr (reason, e)) ↦ omega (arith, ap (λ x. length x.0) e)
]

pub round_shorter :
    (direction : Direction) (l : Loop)
    → length (buffer (after direction l (taken direction l.0)).0 direction)
      ≤ length (buffer l.0 direction)
round_shorter direction l =
    omega (arith, after_shorter direction l (taken direction l.0), length-taken direction l.0)
