-- ===== src/Postgres/Frames.antt =====
-- The frames of the typed protocol, written one behind the other, and what a decoder shows of them.
use lens.Core.{Direction, client_to_server, server_to_client}
use lens.Postgres.Backend.{decode_typed}
use lens.Postgres.Bounded.{max_buffer}
use lens.Postgres.Decoder.{
  goes_on, Phase, typed, PostgresDecoder, buffer, set_buffer, Step, decoded, desynchronized,
  in_frame, step, step_typed, after_typed, process_loop, push, max_frame_bytes, is_opaque,
  turn_opaque,
}
use lens.Postgres.Rounds.{
  set_buffer_kept, Loop, taken, after, loop_idle, loop_goes, loop_stops, buffer-set_buffer,
}
use lens.Postgres.Joined.{joined, behind, process_loop-behind, process_open}
use lens.Postgres.Wire.{from_be_bytes, be32}
use lens.Prelude.{
  ℕ, zero, suc, ◌+◌, ◌/◌, ◌%◌, ◌<◌, ◌≤◌, true, false, List, [], ◌∷◌, ◌++◌, length, length-append,
  take_all, drop_all, ltb, le→ltb, All, none, some, ◌≡◌, refl, sym, ap, ◌∙◌, subst, inl, inr, arith,
  take, drop,
}
use lens.Protocol
use lens.Protocol.{DecodedMessage, DecodeBatch}
use lens.Text.{Bytes}
use lens.Text.Result.{Result, ok, err, Result-cases}

-- A tag and a payload.
abbrev pub Frame : Type 0
Frame = ℕ × Bytes

abbrev pub to_be_bytes : ℕ → Bytes
to_be_bytes n = (n / 16777216 % 256) ∷ (n / 65536 % 256) ∷ (n / 256 % 256) ∷ (n % 256) ∷ []

-- A frame as it is sent. Its length counts itself, but not the tag.
abbrev pub encode : Frame → Bytes
encode (tag, payload) = tag ∷ (to_be_bytes (length payload + 4) ++ payload)

unfoldable pub encode_all : List Frame → Bytes
encode_all [] = []
encode_all (frame ∷ frames) = encode frame ++ encode_all frames

abbrev pub Sized : Frame → Type 0
Sized (tag, payload) = length payload + 4 ≤ max_frame_bytes

be32_roundtrip : (n : ℕ) (rest : Bytes) → n ≤ max_frame_bytes → be32 (to_be_bytes n ++ rest) ≡ n
unfolding from_be_bytes
be32_roundtrip n rest h = omega arith

module _ (direction : Direction) (max_body : ℕ) where
  -- A step on a frame that has arrived.
  step_typed_whole :
      (tag n : ℕ) (bytes : Bytes)
      → be32 bytes ≡ n
      → in_frame 4 n ≡ true
      → n ≤ length bytes
      → 4 ≤ n
      → step_typed direction max_body (tag ∷ bytes)
        ≡ (drop n bytes, after_typed (decode_typed direction tag (drop 4 (take n bytes)) max_body))
  unfolding step_typed
  step_typed_whole tag n bytes e good h k =
      let few : ltb (suc (length bytes)) 5 ≡ false = le→ltb _ _ (omega arith) in
      let whole : ltb (suc (length bytes)) (n + 1) ≡ false = le→ltb _ _ (omega arith) in
      rw (e, few, good, whole, step_typed) refl

  step_typed-encode :
      (tag : ℕ) (payload rest : Bytes)
      → Sized (tag, payload)
      → step_typed direction max_body (encode (tag, payload) ++ rest)
        ≡ (rest, after_typed (decode_typed direction tag payload max_body))
  step_typed-encode tag payload rest h =
      let n = length payload + 4 in
      let body = to_be_bytes n ++ (payload ++ rest) in
      let l = length-append payload rest in
      let good : in_frame 4 n ≡ true = ground arith in
      let four : n ≡ suc (suc (suc (suc (length payload)))) = omega arith in
      let behind_size : drop n body ≡ rest = ap (λ k. drop k body) four ∙ drop_all payload rest in
      let content : drop 4 (take n body) ≡ payload =
        ap (λ k. drop 4 (take k body)) four ∙ take_all payload rest in
      step_typed_whole tag n body (be32_roundtrip n (payload ++ rest) h) good (omega arith)
        (omega arith)
      ∙ ap (λ x. (x, after_typed (decode_typed direction tag (drop 4 (take n body)) max_body)))
          behind_size
      ∙ ap (λ x. (rest, after_typed (decode_typed direction tag x max_body))) content

-- One frame, and then those behind it.
abbrev pub shown :
    PostgresDecoder
    → Result DecodedMessage
    → PostgresDecoder × DecodeBatch
    → PostgresDecoder × DecodeBatch
shown d (ok m) (last, batch) =
    (last, joined (record { messages = m ∷ []; desynchronized = none }) batch)
shown d (err reason) later = (turn_opaque d, record { messages = []; desynchronized = some reason })

-- What is shown of frames: each frame by itself, in their order, up to the first one that cannot be
-- decoded, with which the decoder gives the stream up.
unfoldable pub received : Direction → PostgresDecoder → List Frame → PostgresDecoder × DecodeBatch
received direction d [] = (d, Protocol.need_more)
received direction d ((tag, payload) ∷ frames) =
    shown d (decode_typed direction tag payload d.max_body) (received direction d frames)

module _ (direction : Direction) where
  received_nil : (d : PostgresDecoder) → received direction d [] ≡ (d, Protocol.need_more)
  unfolding received
  received_nil d = refl

  received_ok :
      (d : PostgresDecoder) (tag : ℕ) (payload : Bytes) (frames : List Frame) (m : DecodedMessage)
      → decode_typed direction tag payload d.max_body ≡ ok m
      → received direction d ((tag, payload) ∷ frames)
        ≡ behind (record { messages = m ∷ []; desynchronized = none }) (received direction d frames)
  unfolding received
  received_ok d tag payload frames m e = rw (e, received) refl

  received_err :
      (d : PostgresDecoder) (tag : ℕ) (payload : Bytes) (frames : List Frame) (reason : Bytes)
      → decode_typed direction tag payload d.max_body ≡ err reason
      → received direction d ((tag, payload) ∷ frames)
        ≡ (turn_opaque d, record { messages = []; desynchronized = some reason })
  unfolding received
  received_err d tag payload frames reason e = rw (e, received) refl

set_buffer_twice :
    (d : PostgresDecoder) (direction : Direction) (a b : Bytes)
    → set_buffer (set_buffer d direction a) direction b ≡ set_buffer d direction b
set_buffer_twice d client_to_server a b = refl
set_buffer_twice d server_to_client a b = refl

opaque_anyway :
    (d : PostgresDecoder) (direction : Direction) (a b : Bytes)
    → turn_opaque (set_buffer (set_buffer d direction a) direction b) ≡ turn_opaque d
opaque_anyway d client_to_server a b = refl
opaque_anyway d server_to_client a b = refl

step_of_typed :
    (phase : Phase) (direction : Direction) (max_body : ℕ) (bytes : Bytes)
    → phase ≡ typed
    → step phase direction max_body bytes ≡ step_typed direction max_body bytes
unfolding step
step_of_typed phase direction max_body bytes e =
    subst (λ p. step p direction max_body bytes ≡ step_typed direction max_body bytes) (sym e) refl

-- A step on the bytes of one direction of a typed decoder.
taken_typed :
    (d : PostgresDecoder) (direction : Direction) (bytes : Bytes)
    → d.phase ≡ typed
    → taken direction (set_buffer d direction bytes) ≡ step_typed direction d.max_body bytes
taken_typed d client_to_server bytes e = step_of_typed d.phase client_to_server d.max_body bytes e
taken_typed d server_to_client bytes e = step_of_typed d.phase server_to_client d.max_body bytes e

module _ (direction : Direction) (d : PostgresDecoder) (is_typed : d.phase ≡ typed) where
  abbrev with_bytes : Bytes → Loop
  with_bytes bytes = (set_buffer d direction bytes, Protocol.need_more)

  no_frames :
      (f : ℕ)
      → buffer d direction ≡ []
      → process_loop (suc f) direction (with_bytes []) ≡ (d, Protocol.need_more)
  unfolding step_typed
  no_frames f e =
      loop_idle direction f (with_bytes []) (
        taken_typed d direction [] is_typed
        ∙ ap (λ b. (b, Step.need_more)) (sym (buffer-set_buffer d direction [])))
      ∙ ap with_bytes (sym e)
      ∙ ap (λ x. (x, Protocol.need_more)) (set_buffer_kept d direction)

  taken-encode :
      (tag : ℕ) (payload rest : Bytes)
      → Sized (tag, payload)
      → taken direction (set_buffer d direction (encode (tag, payload) ++ rest))
        ≡ (rest, after_typed (decode_typed direction tag payload d.max_body))
  taken-encode tag payload rest h =
      taken_typed d direction (encode (tag, payload) ++ rest) is_typed
      ∙ step_typed-encode direction d.max_body tag payload rest h

  loop-received :
      (f : ℕ) (frames : List Frame)
      → buffer d direction ≡ []
      → All Sized frames
      → length (encode_all frames) < f
      → process_loop f direction (with_bytes (encode_all frames)) ≡ received direction d frames
  unfolding encode_all
  loop-received zero frames e h k = absurd (omega arith)
  loop-received (suc f) [] e h k = no_frames f e ∙ sym (received_nil direction d)
  loop-received (suc f) ((tag, payload) ∷ frames) e h k =
      let rest = encode_all frames in
      let l = with_bytes (encode (tag, payload) ++ rest) in
      let n = length-append (encode (tag, payload)) rest in
      let t = taken-encode tag payload rest h.0 in
      elim (Result-cases (decode_typed direction tag payload d.max_body)) [
        | inl (m, ok_m) ↦
            let one : DecodeBatch = record { messages = m ∷ []; desynchronized = none } in
            let t' : taken direction l.0 ≡ (rest, decoded m) =
              t ∙ ap (λ r. (rest, after_typed r)) ok_m in
            loop_goes direction f l (ap (λ r. goes_on r.1) t')
            ∙ ap (λ r. process_loop f direction (after direction l r)) t'
            ∙ ap (λ x. process_loop f direction (x, one))
                (set_buffer_twice d direction (encode (tag, payload) ++ rest) rest)
            ∙ process_loop-behind direction f one (with_bytes rest) refl
            ∙ ap (behind one) (loop-received f frames e h.1 (omega arith))
            ∙ sym (received_ok direction d tag payload frames m ok_m)
        | inr (reason, failed) ↦
            let t' : taken direction l.0 ≡ (rest, desynchronized reason) =
              t ∙ ap (λ r. (rest, after_typed r)) failed in
            let refusal : DecodeBatch = record { messages = []; desynchronized = some reason } in
            loop_stops direction f l (ap (λ r. goes_on r.1) t')
            ∙ ap (after direction l) t'
            ∙ ap (λ x. (x, refusal))
                (opaque_anyway d direction (encode (tag, payload) ++ rest) rest)
            ∙ sym (received_err direction d tag payload frames reason failed)
      ]

-- A typed decoder that has read all it was given takes frames of a valid length that fit into its
-- buffer, written one behind the other, as those frames: it shows each by itself, in their order, up
-- to the first that cannot be decoded.
pub push-encode_all :
    (d : PostgresDecoder) (direction : Direction) (frames : List Frame)
    → d.phase ≡ typed
    → buffer d direction ≡ []
    → All Sized frames
    → length (encode_all frames) ≤ max_buffer
    → push d direction (encode_all frames) ≡ received direction d frames
unfolding push
push-encode_all d direction frames is_typed e h k =
    let bytes = encode_all frames in
    let whole : buffer d direction ++ bytes ≡ bytes = ap (◌++ bytes) e in
    process_open d direction bytes (ap is_opaque is_typed)
      (subst (λ (b : Bytes). length b ≤ max_buffer) (sym whole) k)
    ∙ ap
        (λ b.
          process_loop (suc (length b)) direction (set_buffer d direction b, Protocol.need_more))
        whole
    ∙ loop-received direction d is_typed (suc (length bytes)) frames e h (omega arith)
