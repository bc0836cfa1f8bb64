-- ===== src/Postgres/Fragments.antt =====
-- The fragments in which a stream arrives do not matter.
use lens.Core.{Direction, client_to_server, server_to_client}
use lens.Postgres.Decoder.{
  startup, awaiting_encryption_response, typed, opaque, PostgresDecoder, buffer, set_buffer, Step,
  decoded, decoded_and_phase, desynchronized, is_opaque, goes_on, process_loop,
}
use lens.Postgres.Rounds.{
  Loop, taken, after, Stops, round_cases, loop_idle, loop_goes, loop_stops, length-after,
  process_loop_fuel, buffer-set_buffer,
}
use lens.Postgres.Steps.{waits, extended, step-append}
use lens.Prelude.{
  ℕ, zero, suc, ◌+◌, ◌<◌, true, false, ◌++◌, length, length-append, ◌≡◌, refl, sym, ap, ◌∙◌, inl,
  inr, arith, if◌then◌else◌,
}
use lens.Text.{Bytes}

module _ (direction : Direction) (more : Bytes) where
  abbrev pub extend : PostgresDecoder → PostgresDecoder
  extend d = set_buffer d direction (buffer d direction ++ more)

  abbrev pub with_more : Loop → Loop
  with_more (d, batch) = (extend d, batch)

abbrev pub rounds : Direction → Loop → Loop
rounds direction l = process_loop (suc (length (buffer l.0 direction))) direction l

abbrev pub resume : Direction → Bytes → Loop → Loop
resume direction more l =
    if is_opaque l.0.phase then l else rounds direction (with_more direction more l)

taken-extend :
    (direction : Direction) (more : Bytes) (d : PostgresDecoder)
    → waits (taken direction d).1 ≡ false
    → taken direction (extend direction more d) ≡ extended more (taken direction d)
taken-extend client_to_server more d w =
    step-append more d.phase client_to_server d.max_body d.client w
taken-extend server_to_client more d w =
    step-append more d.phase server_to_client d.max_body d.server w

after-extended :
    (direction : Direction) (more : Bytes) (l : Loop) (rest : Bytes) (s : Step)
    → goes_on s ≡ true
    → after direction (with_more direction more l) (rest ++ more, s)
      ≡ with_more direction more (after direction l (rest, s))
after-extended client_to_server more l rest (decoded m) h = refl
after-extended client_to_server more l rest (decoded_and_phase m startup) h = refl
after-extended client_to_server more l rest (decoded_and_phase m awaiting_encryption_response) h =
    refl
after-extended client_to_server more l rest (decoded_and_phase m typed) h = refl
after-extended server_to_client more l rest (decoded m) h = refl
after-extended server_to_client more l rest (decoded_and_phase m startup) h = refl
after-extended server_to_client more l rest (decoded_and_phase m awaiting_encryption_response) h =
    refl
after-extended server_to_client more l rest (decoded_and_phase m typed) h = refl
after-extended _ more l rest _ h = cc

after_stopped :
    (direction : Direction) (more : Bytes) (l : Loop) (rest : Bytes) (s : Step)
    → Stops (rest, s)
    → (after direction (with_more direction more l) (rest ++ more, s) ≡ after direction l (rest, s))
      × (is_opaque (after direction l (rest, s)).0.phase ≡ true)
after_stopped client_to_server more l rest (decoded_and_phase m opaque) h = (refl, refl)
after_stopped client_to_server more l rest (desynchronized reason) h = (refl, refl)
after_stopped server_to_client more l rest (decoded_and_phase m opaque) h = (refl, refl)
after_stopped server_to_client more l rest (desynchronized reason) h = (refl, refl)
after_stopped _ more l rest _ h = cc

after_open :
    (direction : Direction) (l : Loop) (rest : Bytes) (s : Step)
    → goes_on s ≡ true
    → is_opaque l.0.phase ≡ false
    → is_opaque (after direction l (rest, s)).0.phase ≡ false
after_open client_to_server l rest (decoded m) h k = k
after_open client_to_server l rest (decoded_and_phase m startup) h k = refl
after_open client_to_server l rest (decoded_and_phase m awaiting_encryption_response) h k = refl
after_open client_to_server l rest (decoded_and_phase m typed) h k = refl
after_open server_to_client l rest (decoded m) h k = k
after_open server_to_client l rest (decoded_and_phase m startup) h k = refl
after_open server_to_client l rest (decoded_and_phase m awaiting_encryption_response) h k = refl
after_open server_to_client l rest (decoded_and_phase m typed) h k = refl
after_open _ l rest _ h k = cc

module _ (direction : Direction) (more : Bytes) where
  pub resume_open :
      (l : Loop)
      → is_opaque l.0.phase ≡ false
      → resume direction more l ≡ rounds direction (with_more direction more l)
  resume_open l e = rw e refl

  pub resume_opaque : (l : Loop) → is_opaque l.0.phase ≡ true → resume direction more l ≡ l
  resume_opaque l e = rw e refl

  length-extend :
      (d : PostgresDecoder)
      → length (buffer (extend direction more d) direction)
        ≡ length (buffer d direction) + length more
  length-extend d =
      ap length (buffer-set_buffer d direction (buffer d direction ++ more))
      ∙ length-append (buffer d direction) more

  pub process_loop-append :
      (f g : ℕ) (l : Loop)
      → is_opaque l.0.phase ≡ false
      → length (buffer l.0 direction) < f
      → length (buffer (extend direction more l.0) direction) < g
      → process_loop g direction (with_more direction more l)
        ≡ resume direction more (process_loop f direction l)
  process_loop-append zero g l o h k = absurd (omega arith)
  process_loop-append (suc f) zero l o h k = absurd (omega arith)
  process_loop-append (suc f) (suc g) l o h k = elim (round_cases direction l.0) [
    | inl e ↦
        process_loop_fuel direction (suc g) _ (with_more direction more l) k (omega arith)
        ∙ sym (resume_open l o)
        ∙ ap (resume direction more) (sym (loop_idle direction f l e))
    | inr (inl (on, w, fewer)) ↦
        let r = taken direction l.0 in
        let e = taken-extend direction more l.0 w in
        let on' : goes_on (taken direction (extend direction more l.0)).1 ≡ true =
          ap (λ x. goes_on x.1) e ∙ on in
        let l' = after direction l r in
        let less = length-after direction l (on, w, fewer) in
        let n = length-extend l.0 in
        let n' = length-extend l'.0 in
        loop_goes direction g (with_more direction more l) on'
        ∙ ap (λ x. process_loop g direction (after direction (with_more direction more l) x)) e
        ∙ ap (process_loop g direction) (after-extended direction more l r.0 r.1 on)
        ∙ process_loop-append f g l' (after_open direction l r.0 r.1 on o) (omega arith)
            (omega arith)
        ∙ ap (resume direction more) (sym (loop_goes direction f l on))
    | inr (inr (off, w)) ↦
        let r = taken direction l.0 in
        let e = taken-extend direction more l.0 w in
        let off' : goes_on (taken direction (extend direction more l.0)).1 ≡ false =
          ap (λ x. goes_on x.1) e ∙ off in
        let stopped = after_stopped direction more l r.0 r.1 (off, w) in
        loop_stops direction g (with_more direction more l) off'
        ∙ ap (after direction (with_more direction more l)) e
        ∙ stopped.0
        ∙ sym (resume_opaque (after direction l r) stopped.1)
        ∙ ap (resume direction more) (sym (loop_stops direction f l off))
  ]
