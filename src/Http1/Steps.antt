-- ===== src/Http1/Steps.antt =====
-- Bounds on what one step of a direction leaves: bodies and heads.
use lens.Core.{Direction}
use lens.Http1.Body.{
  PendingBody, fixed, chunked, until_eof, DirectionState, consume_until_eof, lose, consume_pending,
  begin_body, begin_length, new_message, step_head, step, blank_line,
}
use lens.Http1.Head
use lens.Http1.Head.{ParsedHead}
use lens.Text.Result.{Result-cases}
use lens.Prelude.{
  ℕ, zero, suc, ◌+◌, ◌<◌, Bool, Option, none, some, length, take, drop, length-drop, ◌≡◌, refl, sym,
  subst, arith, Option-cases, inl, inr,
}
use lens.Protocol.{DecodedMessage}
use lens.Text.{Bytes}
use lens.Text.Find.{find_bytes_bound}
use lens.Text.Words.{find_bytes}
use lens.Http1.Limits.{
  BodyFits, PendingInv, StepInv, capture-BodyFits, consume_fixed-StepInv, chunk_loop-StepInv,
}

module _ (max_body : ℕ) where
  consume_pending-StepInv :
      (p : PendingBody) (buffer : Bytes)
      → PendingInv max_body (some p)
      → StepInv max_body (length buffer) (consume_pending p buffer max_body)
  unfolding consume_pending consume_until_eof
  consume_pending-StepInv (fixed m remaining) buffer h =
      consume_fixed-StepInv max_body m remaining buffer h.0 h.1
  consume_pending-StepInv (chunked m phase) buffer h =
      chunk_loop-StepInv max_body (suc (length buffer)) m phase buffer (omega arith) h.0 h.1
  consume_pending-StepInv (until_eof m) buffer h =
      (capture-BodyFits max_body m buffer h, omega arith)

  begin_length-StepInv :
      (m : DecodedMessage) (is_response : Bool) (buffer : Bytes) (len : Option ℕ) (n : ℕ)
      → BodyFits max_body m
      → length buffer < n
      → StepInv max_body n (begin_length m is_response buffer len)
  begin_length-StepInv m is_response buffer none n h k = ground arith
  begin_length-StepInv m is_response buffer (some zero) n h k = (tt, k, h)
  begin_length-StepInv m is_response buffer (some (suc r)) n h k = ((h, omega arith), k)

  begin_body-StepInv :
      (direction : Direction) (head : ParsedHead) (to_head : Bool) (buffer : Bytes) (n : ℕ)
      → length buffer < n
      → StepInv max_body n (begin_body direction head to_head buffer)
  unfolding begin_body
  begin_body-StepInv direction head to_head buffer n k = ground (
    arith,
    begin_length-StepInv (new_message direction head) head.is_response buffer head.content_length n,
  )

  step_head-StepInv :
      (direction : Direction) (to_head : Bool) (buffer : Bytes)
      → StepInv max_body (length buffer) (step_head direction to_head buffer)
  unfolding step_head
  step_head-StepInv direction to_head buffer = elim (Option-cases (find_bytes buffer blank_line)) [
    | inl e ↦ rw (e, step_head, StepInv) (ground arith)
    | inr (i, e) ↦ elim (Result-cases (Head.parse (take i buffer))) [
      | inl (head, f) ↦
          let same : step_head direction to_head buffer
              ≡ begin_body direction head to_head (drop (i + 4) buffer) =
            rw (e, step_head) (rw (f, step_head)) in
          subst (StepInv max_body (length buffer)) (sym same) (
            begin_body-StepInv direction head to_head (drop (i + 4) buffer) (length buffer)
              (omega (arith, length-drop (i + 4) buffer, find_bytes_bound buffer blank_line i e)))
      | inr (reason, f) ↦
          let same : step_head direction to_head buffer ≡ lose reason =
            rw (e, step_head) (rw (f, step_head)) in
          subst (StepInv max_body (length buffer)) (sym same) refl
    ]
  ]

  pub step-StepInv :
      (direction : Direction) (to_head : Bool) (s : DirectionState)
      → PendingInv max_body s.pending
      → StepInv max_body (length s.buffer) (step direction max_body to_head s)
  unfolding step
  step-StepInv direction to_head s h = elim (Option-cases s.pending) [
    | inl e ↦
        let same : step direction max_body to_head s ≡ step_head direction to_head s.buffer =
          rw (e, step) in
        subst (StepInv max_body (length s.buffer)) (sym same)
          (step_head-StepInv direction to_head s.buffer)
    | inr (p, e) ↦
        let same : step direction max_body to_head s ≡ consume_pending p s.buffer max_body =
          rw (e, step) in
        subst (StepInv max_body (length s.buffer)) (sym same)
          (consume_pending-StepInv p s.buffer (rw (e, PendingInv) at h))
  ]
