-- ===== src/Postgres/Whole.antt =====
-- Calls of `push` on the fragments of a stream, and one call on the whole of it.
use lens.Core.{Direction, client_to_server, server_to_client}
use lens.Postgres.Decoder.{
  PostgresDecoder, buffer, set_buffer, is_opaque, process_loop, process, push, max_frame_bytes,
}
use lens.Postgres.Fragments.{
  extend, with_more, resume, resume_open, resume_opaque, process_loop-append,
}
use lens.Postgres.Rounds.{
  Loop, process_loop_preserves, process_loop_fuel, buffer-set_buffer, Reported, round-Reported,
  round_shorter,
}
use lens.Prelude.{
  suc, ◌+◌, ◌≤◌, true, false, List, [], ◌∷◌, ◌++◌, flatten, append_assoc, append-nil, length,
  length-append, ◌≡◌, refl, sym, ap, ◌∙◌, inl, inr, arith, Bool-cases,
}
use lens.Protocol
use lens.Protocol.{DecodedMessage, DecodeBatch, push_message}
use lens.Text.{Bytes}
use lens.Postgres.Joined.{
  joined, behind, joined-need_more, process_loop-behind, process_opaque, process_open,
}

-- The second call goes on from the first one's result.
abbrev next_call : Direction → Bytes → Loop → Loop
next_call direction b l = behind l.1 (process l.0 direction b)

opaque_resume :
    (direction : Direction) (b : Bytes) (l : Loop)
    → is_opaque l.0.phase ≡ true
    → resume direction b l ≡ next_call direction b l
opaque_resume direction b l e =
    resume_opaque direction b l e
    ∙ sym (
        ap (behind l.1) (process_opaque l.0 direction b e)
        ∙ ap (λ x. (l.0, x)) (joined-need_more l.1))

loop-next_call :
    (direction : Direction) (b : Bytes) (l : Loop)
    → Reported l
    → length (buffer l.0 direction ++ b) ≤ max_frame_bytes + 5
    → resume direction b l ≡ next_call direction b l
loop-next_call direction b l reported h = elim (Bool-cases (is_opaque l.0.phase)) [
  | inl e ↦ opaque_resume direction b l e
  | inr e ↦ elim reported [
    | inr k ↦ opaque_resume direction b l k
    | inl none_yet ↦
        let whole = buffer l.0 direction ++ b in
        let d' = extend direction b l.0 in
        let f = suc (length whole) in
        let same = ap (λ bytes. length bytes) (buffer-set_buffer l.0 direction whole) in
        resume_open direction b l e
        ∙ process_loop_fuel direction _ f (with_more direction b l) (omega arith) (omega arith)
        ∙ ap (λ x. process_loop f direction (d', x)) (sym (joined-need_more l.1))
        ∙ process_loop-behind direction f l.1 (d', Protocol.need_more) none_yet
        ∙ ap (behind l.1) (sym (process_open l.0 direction b e h))
  ]
]

extend-append :
    (direction : Direction) (a b : Bytes) (d : PostgresDecoder)
    → extend direction (a ++ b) d ≡ extend direction b (extend direction a d)
extend-append client_to_server a b d =
    ap (set_buffer d client_to_server) (sym (append_assoc d.client a b))
extend-append server_to_client a b d =
    ap (set_buffer d server_to_client) (sym (append_assoc d.server a b))

open_extend :
    (direction : Direction) (a : Bytes) (d : PostgresDecoder)
    → is_opaque d.phase ≡ false
    → is_opaque (extend direction a d).phase ≡ false
open_extend client_to_server a d h = h
open_extend server_to_client a d h = h

module _ (d : PostgresDecoder) (direction : Direction) (a : Bytes) where
  abbrev waiting : Bytes
  waiting = buffer d direction ++ a

  abbrev first_rounds : Loop
  first_rounds =
      process_loop (suc (length waiting)) direction (extend direction a d, Protocol.need_more)

  first_rounds_shorter : length (buffer first_rounds.0 direction) ≤ length waiting
  first_rounds_shorter =
      process_loop_preserves direction (λ l. length (buffer l.0 direction) ≤ length waiting)
        (λ l h. omega (arith, h, round_shorter direction l)) (suc (length waiting))
        (extend direction a d, Protocol.need_more)
        (omega (arith, ap length (buffer-set_buffer d direction waiting)))

  first_rounds-Reported : Reported first_rounds
  first_rounds-Reported =
      process_loop_preserves direction Reported (round-Reported direction) (suc (length waiting))
        (extend direction a d, Protocol.need_more) (inl refl)

  -- A call leaves no more bytes in its buffer than there were with the new ones.
  process_shorter :
      length waiting ≤ max_frame_bytes + 5
      → length (buffer (process d direction a).0 direction) ≤ length waiting
  process_shorter h = elim (Bool-cases (is_opaque d.phase)) [
    | inl e ↦ omega (
      arith,
      ap (λ l. length (buffer l.0 direction)) (process_opaque d direction a e),
      length-append (buffer d direction) a,
    )
    | inr e ↦ omega (
      arith,
      ap (λ l. length (buffer l.0 direction)) (process_open d direction a e h),
      first_rounds_shorter,
    )
  ]

  process-process :
      (b : Bytes)
      → length (buffer d direction ++ (a ++ b)) ≤ max_frame_bytes + 5
      → process d direction (a ++ b) ≡ next_call direction b (process d direction a)
  process-process b h = elim (Bool-cases (is_opaque d.phase)) [
    | inl e ↦
        process_opaque d direction (a ++ b) e
        ∙ ap (λ x. (d, x)) (sym (joined-need_more Protocol.need_more))
        ∙ ap (behind Protocol.need_more) (sym (process_opaque d direction b e))
        ∙ ap (next_call direction b) (sym (process_opaque d direction a e))
    | inr e ↦
        let whole = buffer d direction ++ (a ++ b) in
        let d' = extend direction a d in
        let n = length-append (buffer d direction) (a ++ b) in
        let n' = length-append a b in
        let n'' = length-append (buffer d direction) a in
        let same = ap length (buffer-set_buffer d direction waiting) in
        let same' = ap length (buffer-set_buffer d' direction (buffer d' direction ++ b)) in
        let m = length-append (buffer d' direction) b in
        let k = length-append (buffer first_rounds.0 direction) b in
        let short = first_rounds_shorter in
        process_open d direction (a ++ b) e h
        ∙ ap (λ x. process_loop (suc (length whole)) direction (x, Protocol.need_more))
            (extend-append direction a b d)
        ∙ process_loop-append direction b (suc (length waiting)) (suc (length whole))
            (d', Protocol.need_more) (open_extend direction a d e) (omega arith) (omega arith)
        ∙ loop-next_call direction b first_rounds first_rounds-Reported (omega arith)
        ∙ ap (next_call direction b) (sym (process_open d direction a e (omega arith)))
  ]

module _ (direction : Direction) where
  -- A stream that arrives as `first` and then the fragments behind it: the last state, and all that
  -- the calls return.
  pub push_each : PostgresDecoder → Bytes → List Bytes → PostgresDecoder × DecodeBatch
  push_each d first [] = push d direction first
  push_each d first (second ∷ more) =
      let (d', batch) = push d direction first in
      let (last, batch') = push_each d' second more in (last, joined batch batch')

  -- However a stream that fits into the buffer is cut into fragments, the calls leave the decoder in
  -- the state, and return in all the messages and the refusal, of one call on the whole stream.
  pub push_each-flatten :
      (d : PostgresDecoder) (first : Bytes) (more : List Bytes)
      → length (buffer d direction ++ (first ++ flatten more)) ≤ max_frame_bytes + 5
      → push_each d first more ≡ push d direction (first ++ flatten more)
  unfolding push_each flatten push
  push_each-flatten d first [] h = ap (push d direction) (sym (append-nil first))
  push_each-flatten d first (second ∷ more) h =
      let rest = second ++ flatten more in
      let d' = (push d direction first).0 in
      let n = length-append (buffer d direction) (first ++ rest) in
      let n' = length-append first rest in
      let n'' = length-append (buffer d direction) first in
      let m = length-append (buffer d' direction) rest in
      let short = process_shorter d direction first (omega arith) in
      ap (behind (push d direction first).1) (push_each-flatten d' second more (omega arith))
      ∙ sym (process-process d direction first rest h)
