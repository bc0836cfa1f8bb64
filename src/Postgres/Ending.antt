-- ===== src/Postgres/Ending.antt =====
-- Decoders that gave the stream up, and where a push ends.
use lens.Core.{Direction, client_to_server, server_to_client}
use lens.Postgres.Decoder
use lens.Postgres.Decoder.{
  Phase, opaque, PostgresDecoder, buffer, set_buffer, Step, need_more, decoded, decoded_and_phase,
  desynchronized, startup, awaiting_encryption_response, typed, is_opaque, goes_on, process_loop,
  process, push, finish, step, max_frame_bytes,
}
use lens.Postgres.Fragments.{extend}
use lens.Postgres.Rounds.{
  Loop, taken, after, Stops, taken_opaque, round_cases, loop_idle, loop_goes, loop_stops,
  length-after, process_loop_preserves, buffer-set_buffer, Reported, round-Reported,
}
use lens.Postgres.Steps.{Waits}
use lens.Postgres.Joined.{process_opaque}
use lens.Prelude.{
  ℕ, zero, suc, ◌<◌, true, List, [], ◌∷◌, ◌++◌, some, length, All, ◌≡◌, refl, sym, ap, ◌∙◌, subst,
  inl, inr, arith,
}
use lens.Protocol
use lens.Protocol.{DecodedMessage, DecodeBatch}
use lens.Text.{Bytes}
use lens.Postgres.Bounded.{Emptied, Reachable, pushed, Reachable-BuffersInv, process_cases}

Emptied-opaque :
    (d : PostgresDecoder) → Emptied d → is_opaque d.phase ≡ true → (d.client ≡ []) × (d.server ≡ [])
Emptied-opaque d (inl e) h = absurd (cc (e, h))
Emptied-opaque d (inr e) h = e

finish_opaque :
    (d : PostgresDecoder) (direction : Direction)
    → is_opaque d.phase ≡ true
    → d.client ≡ []
    → d.server ≡ []
    → finish d direction ≡ (d, Protocol.need_more)
unfolding finish
finish_opaque d client_to_server e c s = rw c refl
finish_opaque d server_to_client e c s = rw s refl

pub data Call : Type 0 where
  push_call : Direction → Bytes → Call
  finish_call : Direction → Call

unfoldable pub call : PostgresDecoder → Call → PostgresDecoder × DecodeBatch
unfolding push finish
call d (push_call direction bytes) = push d direction bytes
call d (finish_call direction) = finish d direction

-- The decoder behind a sequence of calls, and the batches that they return.
unfoldable pub calls : PostgresDecoder → List Call → PostgresDecoder × List DecodeBatch
unfolding call
calls d [] = (d, [])
calls d (c ∷ cs) =
    let (d', batch) = call d c in let (last, batches) = calls d' cs in (last, batch ∷ batches)

abbrev pub Silent : DecodeBatch → Type 0
Silent batch = batch ≡ Protocol.need_more

module _ (max_body : ℕ) (d : PostgresDecoder) where
  opaque_call :
      (c : Call)
      → Reachable max_body d
      → is_opaque d.phase ≡ true
      → call d c ≡ (d, Protocol.need_more)
  unfolding call push
  opaque_call (push_call direction bytes) r e = process_opaque d direction bytes e
  opaque_call (finish_call direction) r e =
      let (c, s) = Emptied-opaque d (Reachable-BuffersInv max_body d r).2 e in
      finish_opaque d direction e c s

  -- A reachable decoder that is opaque stays as it is and returns nothing, whatever it is called with.
  pub calls-Silent :
      (cs : List Call)
      → Reachable max_body d
      → is_opaque d.phase ≡ true
      → ((calls d cs).0 ≡ d) × All Silent (calls d cs).1
  unfolding calls
  calls-Silent [] r e = (refl, tt)
  calls-Silent (c ∷ cs) r e =
      let same = opaque_call c r e in
      let (last, silent) = calls-Silent cs r e in
      (
        ap (λ x. (calls x.0 cs).0) same ∙ last,
        (
          ap (λ x. x.1) same,
          subst (λ (x : PostgresDecoder). All Silent (calls x cs).1) (sym (ap (λ x. x.0) same))
              silent,
        ),
      )

push-Reported :
    (d : PostgresDecoder) (direction : Direction) (bytes : Bytes)
    → Reported (push d direction bytes)
unfolding push
push-Reported d direction bytes =
    process_cases d direction bytes Reported (λ e. inl refl) (inr refl)
      (λ e k.
        process_loop_preserves direction Reported (round-Reported direction)
          (suc (length (buffer d direction ++ bytes)))
          (extend direction bytes d, Protocol.need_more) (inl refl))

Reported-opaque :
    (l : Loop) (reason : Bytes)
    → Reported l
    → l.1.desynchronized ≡ some reason
    → is_opaque l.0.phase ≡ true
Reported-opaque l reason (inl e) h = absurd (cc (e, h))
Reported-opaque l reason (inr e) h = e

-- If a push to a reachable decoder gives the stream up, for whatever reason, it leaves it opaque, without a byte
-- in either buffer.
pub push-gives_up :
    (max_body : ℕ) (d : PostgresDecoder) (direction : Direction) (bytes reason : Bytes)
    → Reachable max_body d
    → (push d direction bytes).1.desynchronized ≡ some reason
    → let d' = (push d direction bytes).0 in
      (is_opaque d'.phase ≡ true) × (d'.client ≡ []) × (d'.server ≡ [])
push-gives_up max_body d direction bytes reason r h =
    let l = push d direction bytes in
    let e = Reported-opaque l reason (push-Reported d direction bytes) h in
    let (c, s) =
      Emptied-opaque l.0 (Reachable-BuffersInv max_body l.0 (pushed direction bytes r)).2 e in
    (e, c, s)

stopped-Waits :
    (direction : Direction) (l : Loop) (r : Bytes × Step)
    → Stops r
    → let d = (after direction l r).0 in Waits (buffer d direction) (taken direction d)
unfolding step
stopped-Waits client_to_server l (rest, decoded_and_phase m opaque) h = refl
stopped-Waits client_to_server l (rest, desynchronized reason) h = refl
stopped-Waits server_to_client l (rest, decoded_and_phase m opaque) h = refl
stopped-Waits server_to_client l (rest, desynchronized reason) h = refl
stopped-Waits _ l (rest, _) h = cc

loop-Waits :
    (direction : Direction) (f : ℕ) (l : Loop)
    → length (buffer l.0 direction) < f
    → let d = (process_loop f direction l).0 in Waits (buffer d direction) (taken direction d)
loop-Waits direction zero l h = absurd (omega arith)
loop-Waits direction (suc f) l h =
    let Idle = λ (x : Loop). Waits (buffer x.0 direction) (taken direction x.0) in
    elim (round_cases direction l.0) [
      | inl e ↦ subst Idle (sym (loop_idle direction f l e)) e
      | inr (inl goes) ↦
          let fewer = length-after direction l goes in
          subst Idle (sym (loop_goes direction f l goes.0))
            (loop-Waits direction f (after direction l (taken direction l.0)) (omega arith))
      | inr (inr stops) ↦
          subst Idle (sym (loop_stops direction f l stops.0))
            (stopped-Waits direction l (taken direction l.0) stops)
    ]

-- A push runs its loop to the end: in the state that it leaves, the step of its direction waits for
-- more bytes and takes none.
pub push-Waits :
    (d : PostgresDecoder) (direction : Direction) (bytes : Bytes)
    → let d' = (push d direction bytes).0 in
      step d'.phase direction d'.max_body (buffer d' direction) ≡ (buffer d' direction, need_more)
unfolding push
push-Waits d direction bytes =
    process_cases d direction bytes (λ l. Waits (buffer l.0 direction) (taken direction l.0))
      (λ e. taken_opaque direction d.phase d.max_body (buffer d direction) e)
      (taken_opaque direction opaque d.max_body (buffer (Decoder.turn_opaque d) direction) refl)
      (λ e k.
        loop-Waits direction (suc (length (buffer d direction ++ bytes)))
          (extend direction bytes d, Protocol.need_more)
          (omega (arith, ap length (buffer-set_buffer d direction (buffer d direction ++ bytes)))))
