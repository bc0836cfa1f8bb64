-- ===== src/Postgres/Joined.antt =====
-- What calls return in all, and the ways through `process`.
use lens.Core.{Direction}
use lens.Postgres.Decoder.{
  PostgresDecoder, Step, need_more, decoded, decoded_and_phase, desynchronized, goes_on, enter,
  turn_opaque, buffer, set_buffer, is_opaque, process_loop, process, max_frame_bytes,
}
use lens.Postgres.Fragments.{extend}
use lens.Postgres.Rounds.{Loop, taken, after, loop_goes, loop_stops}
use mathlib.Core.Path.{Path}
use lens.Prelude.{
  ℕ, zero, suc, ◌+◌, ◌≤◌, true, false, List, [], ◌∷◌, ◌++◌, Option, none, some, append_assoc,
  append-nil, length, le→ltb, ◌≡◌, refl, sym, ap, ◌∙◌, inl, inr, Bool-cases, Option-cases,
}
use lens.Protocol
use lens.Protocol.{DecodedMessage, DecodeBatch, push_message}
use lens.Text.{Bytes}

abbrev pub first_reason : Option Bytes → Option Bytes → Option Bytes
first_reason none later = later
first_reason (some reason) later = some reason

-- What two calls return in all.
abbrev pub joined : DecodeBatch → DecodeBatch → DecodeBatch
joined first second = record {
  messages = first.messages ++ second.messages;
  desynchronized = first_reason first.desynchronized second.desynchronized;
}

abbrev pub behind : DecodeBatch → Loop → Loop
behind batch (d, later) = (d, joined batch later)

same_batch :
    (ms ms' : List DecodedMessage) (o o' : Option Bytes)
    → ms ≡ ms'
    → o ≡ o'
    → Path DecodeBatch
        (record { messages = ms; desynchronized = o })
        (record { messages = ms'; desynchronized = o' })
same_batch ms ms' o o' h k = cc (h, k)

after-behind :
    (direction : Direction) (batch : DecodeBatch) (l : Loop) (r : Bytes × Step)
    → batch.desynchronized ≡ none
    → after direction (behind batch l) r ≡ behind batch (after direction l r)
after-behind direction batch l (rest, need_more) h = refl
after-behind direction batch (d, later) (rest, decoded m) h =
    ap
      (λ ms. (
        set_buffer d direction rest,
        record {
          messages = ms;
          desynchronized = first_reason batch.desynchronized later.desynchronized;
        },
      ))
      (append_assoc batch.messages later.messages (m ∷ []))
after-behind direction batch (d, later) (rest, decoded_and_phase m phase) h =
    ap
      (λ ms. (
        enter (set_buffer d direction rest) phase,
        record {
          messages = ms;
          desynchronized = first_reason batch.desynchronized later.desynchronized;
        },
      ))
      (append_assoc batch.messages later.messages (m ∷ []))
after-behind direction batch (d, later) (rest, desynchronized reason) h =
    ap
      (λ o. (
        turn_opaque (set_buffer d direction rest),
        record { messages = batch.messages ++ later.messages; desynchronized = o },
      ))
      (sym (ap (λ o. first_reason o (some reason)) h))

-- The batch so far is only carried along.
pub process_loop-behind :
    (direction : Direction) (f : ℕ) (batch : DecodeBatch) (l : Loop)
    → batch.desynchronized ≡ none
    → process_loop f direction (behind batch l) ≡ behind batch (process_loop f direction l)
unfolding process_loop
process_loop-behind direction zero batch l h = refl
process_loop-behind direction (suc f) batch l h =
    let r = taken direction l.0 in
    elim (Bool-cases (goes_on r.1)) [
      | inl on ↦
          loop_goes direction f (behind batch l) on
          ∙ ap (process_loop f direction) (after-behind direction batch l r h)
          ∙ process_loop-behind direction f batch (after direction l r) h
          ∙ ap (behind batch) (sym (loop_goes direction f l on))
      | inr off ↦
          loop_stops direction f (behind batch l) off
          ∙ after-behind direction batch l r h
          ∙ ap (behind batch) (sym (loop_stops direction f l off))
    ]

pub joined-need_more : (batch : DecodeBatch) → joined batch Protocol.need_more ≡ batch
joined-need_more batch = elim (Option-cases batch.desynchronized) [
  | inl e ↦ cc (e, append-nil batch.messages)
  | inr (reason, e) ↦ cc (e, append-nil batch.messages)
]

module _ (d : PostgresDecoder) (direction : Direction) (bytes : Bytes) where
  pub process_opaque :
      is_opaque d.phase ≡ true → process d direction bytes ≡ (d, Protocol.need_more)
  unfolding process
  process_opaque e = rw (e, process) refl

  pub process_open :
      is_opaque d.phase ≡ false
      → length (buffer d direction ++ bytes) ≤ max_frame_bytes + 5
      → process d direction bytes
        ≡ process_loop
            (suc (length (buffer d direction ++ bytes)))
            direction
            (extend direction bytes d, Protocol.need_more)
  unfolding process
  process_open e h = rw (e, le→ltb _ _ h, process) refl
