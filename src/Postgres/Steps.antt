-- ===== src/Postgres/Steps.antt =====
-- One step of the decoder: it waits, takes bytes from its buffer, or gives the stream up.
use lens.Core.{Direction, client_to_server, server_to_client}
use lens.Postgres.Backend.{decode_typed}
use lens.Postgres.Decoder.{
  Phase, startup, awaiting_encryption_response, typed, opaque, Step, need_more, desynchronized,
  after_startup, startup_frame, in_frame, step_startup, encryption_response,
  step_encryption_response, after_typed, step_typed, step,
}
use lens.Postgres.Message.{startup_message}
use lens.Postgres.Wire.{from_be_bytes, be32}
use lens.Prelude.{
  ℕ, suc, ◌+◌, ◌<◌, Bool, true, false, [], ◌∷◌, ◌++◌, ltb, length, take, drop, length-drop,
  length-append, take-append, drop-append, le→ltb, ltb-false→le, ◌≤◌, ◌≢◌, ◌≡◌, refl, ap, ◌⊎◌, inl,
  inr, arith, Bool-cases,
}
use lens.Protocol.{DecodedMessage}
use lens.Text.{Bytes}
use lens.Text.Result.{Result, ok, err}

abbrev pub waits : Step → Bool
waits need_more = true
waits _ = false

abbrev pub Waits : Bytes → Bytes × Step → Type 0
Waits bytes r = r ≡ (bytes, need_more)

abbrev pub Takes : Bytes → Bytes × Step → Type 0
Takes bytes (rest, s) = (length rest < length bytes) × (waits s ≡ false)

abbrev pub Fails : Bytes → Bytes × Step → Type 0
Fails bytes r = (reason : Bytes) × (r ≡ (bytes, desynchronized reason))

abbrev pub StepInv : Bytes → Bytes × Step → Type 0
StepInv bytes r = Waits bytes r ⊎ (Takes bytes r ⊎ Fails bytes r)

true≢false : true ≢ false
true≢false = cc

waits-after_startup : (r : Result DecodedMessage) → waits (after_startup r) ≡ false
waits-after_startup (ok m) = refl
waits-after_startup (err reason) = refl

waits-after_typed : (r : Result DecodedMessage) → waits (after_typed r) ≡ false
waits-after_typed (ok m) = refl
waits-after_typed (err reason) = refl

waits-startup_frame : (frame : Bytes) → waits (startup_frame frame) ≡ false
unfolding startup_frame
waits-startup_frame frame =
    ground (arith, waits-after_startup (startup_message (be32 (drop 4 frame)) (drop 8 frame)))

waits-encryption_response : (response : ℕ) → waits (encryption_response response) ≡ false
unfolding encryption_response
waits-encryption_response response = ground arith

-- The length that is not too short, nor too long.
in_frame_low : (low len : ℕ) → in_frame low len ≡ true → low ≤ len
in_frame_low low len h = ground arith

step_startup-StepInv : (bytes : Bytes) → StepInv bytes (step_startup bytes)
unfolding step_startup
step_startup-StepInv bytes = elim (Bool-cases (ltb (length bytes) 4)) [
  | inl few ↦ rw (few, step_startup) (inl refl)
  | inr e ↦ elim (Bool-cases (in_frame 8 (be32 bytes))) [
    | inr bad ↦ rw (e, bad, step_startup) (inr (inr (_, refl)))
    | inl good ↦ elim (Bool-cases (ltb (length bytes) (be32 bytes))) [
      | inl few ↦ rw (e, good, few, step_startup) (inl refl)
      | inr f ↦
          let low = in_frame_low 8 (be32 bytes) good in
          let l = length-drop (be32 bytes) bytes in
          let k = ltb-false→le (length bytes) (be32 bytes) f in
          rw (e, good, f, step_startup)
            (inr (inl (omega arith, waits-startup_frame (take (be32 bytes) bytes))))
    ]
  ]
]

step_typed-StepInv :
    (direction : Direction) (max_body : ℕ) (bytes : Bytes)
    → StepInv bytes (step_typed direction max_body bytes)
unfolding step_typed
step_typed-StepInv direction max_body [] = inl refl
step_typed-StepInv direction max_body (tag ∷ bytes) =
    elim (Bool-cases (ltb (suc (length bytes)) 5)) [
      | inl few ↦ rw (few, step_typed) (inl refl)
      | inr e ↦ elim (Bool-cases (in_frame 4 (be32 bytes))) [
        | inr bad ↦ rw (e, bad, step_typed) (inr (inr (_, refl)))
        | inl good ↦ elim (Bool-cases (ltb (suc (length bytes)) (be32 bytes + 1))) [
          | inl few ↦ rw (e, good, few, step_typed) (inl refl)
          | inr f ↦
              let l = length-drop (be32 bytes) bytes in
              rw (e, good, f, step_typed)
                (inr (
                  inl (
                    omega arith,
                    waits-after_typed
                        (decode_typed direction tag (drop 4 (take (be32 bytes) bytes)) max_body),
                  )))
        ]
      ]
    ]

-- A step waits and takes nothing, takes bytes, or gives the stream up.
pub step-StepInv :
    (phase : Phase) (direction : Direction) (max_body : ℕ) (bytes : Bytes)
    → StepInv bytes (step phase direction max_body bytes)
unfolding step step_encryption_response
step-StepInv startup client_to_server max_body bytes = step_startup-StepInv bytes
step-StepInv startup server_to_client max_body bytes = inl refl
step-StepInv awaiting_encryption_response client_to_server max_body bytes = inl refl
step-StepInv awaiting_encryption_response server_to_client max_body [] = inl refl
step-StepInv awaiting_encryption_response server_to_client max_body (response ∷ bytes) =
    inr (inl (omega arith, waits-encryption_response response))
step-StepInv typed direction max_body bytes = step_typed-StepInv direction max_body bytes
step-StepInv opaque direction max_body bytes = inl refl

module _ (more : Bytes) where
  -- What a step does that does not wait, it does whatever follows.
  abbrev pub extended : Bytes × Step → Bytes × Step
  extended (rest, s) = (rest ++ more, s)

  be32-append : (bytes : Bytes) → 4 ≤ length bytes → be32 (bytes ++ more) ≡ be32 bytes
  be32-append bytes h = ap (from_be_bytes 0) (take-append 4 bytes more h)

  step_startup-append :
      (bytes : Bytes)
      → waits (step_startup bytes).1 ≡ false
      → step_startup (bytes ++ more) ≡ extended (step_startup bytes)
  unfolding step_startup
  step_startup-append bytes w = elim (Bool-cases (ltb (length bytes) 4)) [
    | inl few ↦ absurd (true≢false (rw (few, step_startup) at w))
    | inr e ↦
        let l = length-append bytes more in
        let k = ltb-false→le (length bytes) 4 e in
        let same = be32-append bytes k in
        let e' : ltb (length (bytes ++ more)) 4 ≡ false = le→ltb _ _ (omega arith) in
        elim (Bool-cases (in_frame 8 (be32 bytes))) [
          | inr bad ↦ rw (e, e', same, bad, step_startup) refl
          | inl good ↦ elim (Bool-cases (ltb (length bytes) (be32 bytes))) [
            | inl few ↦ absurd (true≢false (rw (e, good, few, step_startup) at w))
            | inr f ↦
                let f' : ltb (length (bytes ++ more)) (be32 bytes) ≡ false =
                  le→ltb _ _ (omega (arith, ltb-false→le _ _ f)) in
                let j = ltb-false→le (length bytes) (be32 bytes) f in
                rw
                  (
                    e,
                    e',
                    same,
                    good,
                    f,
                    f',
                    drop-append (be32 bytes) bytes more j,
                    take-append (be32 bytes) bytes more j,
                    step_startup,
                  )
                  refl
          ]
        ]
  ]

  step_typed-append :
      (direction : Direction) (max_body : ℕ) (bytes : Bytes)
      → waits (step_typed direction max_body bytes).1 ≡ false
      → step_typed direction max_body (bytes ++ more)
        ≡ extended (step_typed direction max_body bytes)
  unfolding step_typed
  step_typed-append direction max_body [] w = absurd (true≢false w)
  step_typed-append direction max_body (tag ∷ bytes) w =
      elim (Bool-cases (ltb (suc (length bytes)) 5)) [
        | inl few ↦ absurd (true≢false (rw (few, step_typed) at w))
        | inr e ↦
            let l = length-append bytes more in
            let k = ltb-false→le (suc (length bytes)) 5 e in
            let same = be32-append bytes (omega arith) in
            let e' : ltb (suc (length (bytes ++ more))) 5 ≡ false = le→ltb _ _ (omega arith) in
            elim (Bool-cases (in_frame 4 (be32 bytes))) [
              | inr bad ↦ rw (e, e', same, bad, step_typed) refl
              | inl good ↦ elim (Bool-cases (ltb (suc (length bytes)) (be32 bytes + 1))) [
                | inl few ↦ absurd (true≢false (rw (e, good, few, step_typed) at w))
                | inr f ↦
                    let j = ltb-false→le (suc (length bytes)) (be32 bytes + 1) f in
                    let f' : ltb (suc (length (bytes ++ more))) (be32 bytes + 1) ≡ false =
                      le→ltb _ _ (omega arith) in
                    let i : be32 bytes ≤ length bytes = omega arith in
                    rw
                      (
                        e,
                        e',
                        same,
                        good,
                        f,
                        f',
                        drop-append (be32 bytes) bytes more i,
                        take-append (be32 bytes) bytes more i,
                        step_typed,
                      )
                      refl
              ]
            ]
      ]

  pub step-append :
      (phase : Phase) (direction : Direction) (max_body : ℕ) (bytes : Bytes)
      → waits (step phase direction max_body bytes).1 ≡ false
      → step phase direction max_body (bytes ++ more)
        ≡ extended (step phase direction max_body bytes)
  unfolding step step_encryption_response
  step-append startup client_to_server max_body bytes w = step_startup-append bytes w
  step-append startup server_to_client max_body bytes w = absurd (true≢false w)
  step-append awaiting_encryption_response client_to_server max_body bytes w = absurd (true≢false w)
  step-append awaiting_encryption_response server_to_client max_body [] w = absurd (true≢false w)
  step-append awaiting_encryption_response server_to_client max_body (response ∷ bytes) w = refl
  step-append typed direction max_body bytes w = step_typed-append direction max_body bytes w
  step-append opaque direction max_body bytes w = absurd (true≢false w)
