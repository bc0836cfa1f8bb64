-- ===== src/Redis/Fragments.antt =====
-- How the decoder's loop ends, and that the fragments in which a stream arrives do not matter.
use lens.Core.{Direction, client_to_server, server_to_client}
use lens.Prelude.{
  ℕ, zero, suc, ◌≤◌, ◌<◌, List, [], ◌∷◌, ◌++◌, append_assoc, append-nil, flatten, none, some,
  length, drop, length-drop, length-append, drop-append, ◌≡◌, ◌≢◌, refl, ◌∙◌, inl, inr, arith, ap,
  sym,
}
use lens.Protocol.{prepend, DecodedMessage, DecodeBatch, need_more, push_message}
use lens.Redis.Bounds.{Within, parse_value-Within}
use lens.Redis.Decoder
use lens.Redis.Decoder.{
  RedisDecoder, decode_loop, wait_for_more, decode_available, state, set_state,
}
use lens.Redis.Extend.{parse_value-append}
use lens.Redis.Message.{to_message}
use lens.Redis.Parse.{parse_value}
use lens.Redis.Value.{RespValue, Parse, Parse-cases}
use lens.Text.{Bytes}

abbrev set_pair : RedisDecoder → Direction → Bytes × DecodeBatch → RedisDecoder × DecodeBatch
set_pair d direction (buffer, batch) = (set_state d direction buffer, batch)

some-ne-none : {r : Bytes} → some r ≢ none
some-ne-none = cc

module _ (direction : Direction) (max_body : ℕ) where
  -- A round drains a byte at least.
  drain :
      (byte : ℕ) (rest : Bytes) (v : RespValue) (n : ℕ)
      → parse_value (byte ∷ rest) 0 ≡ Parse.complete v n
      → (0 < n) × (n ≤ length (byte ∷ rest))
  drain byte rest v n e = rw (e, Within) at (parse_value-Within (byte ∷ rest) 0)

  -- With more rounds than the buffer has bytes, their number does not matter.
  pub decode_loop_fuel :
      (f g : ℕ) (buffer : Bytes) (batch : DecodeBatch)
      → length buffer < f
      → length buffer < g
      → decode_loop f direction max_body buffer batch
        ≡ decode_loop g direction max_body buffer batch
  unfolding decode_loop
  decode_loop_fuel zero g buffer batch h k = absurd (omega arith)
  decode_loop_fuel (suc f) zero buffer batch h k = absurd (omega arith)
  decode_loop_fuel (suc f) (suc g) [] batch h k = refl
  decode_loop_fuel (suc f) (suc g) (byte ∷ rest) batch h k =
      elim (Parse-cases (parse_value (byte ∷ rest) 0)) [
        | inl (v, n, e) ↦
            let b = drain byte rest v n e in
            let l = length-drop n (byte ∷ rest) in
            rw (e, decode_loop) (decode_loop_fuel f g _ _ (omega arith) (omega arith))
        | inr (inl e) ↦ rw (e, decode_loop)
        | inr (inr (r, e)) ↦ rw (e, decode_loop)
      ]

  -- The messages so far are only carried along.
  decode_loop-prepend :
      (f : ℕ) (buffer : Bytes) (ms : List DecodedMessage) (batch : DecodeBatch)
      → decode_loop f direction max_body buffer (prepend ms batch) ≡ (
        (decode_loop f direction max_body buffer batch).0,
        prepend ms (decode_loop f direction max_body buffer batch).1,
      )
  unfolding decode_loop
  decode_loop-prepend zero buffer ms batch = refl
  decode_loop-prepend (suc f) [] ms batch = refl
  decode_loop-prepend (suc f) (byte ∷ rest) ms batch =
      elim (Parse-cases (parse_value (byte ∷ rest) 0)) [
        | inl (v, n, e) ↦
            rw (e, decode_loop, append_assoc)
              (decode_loop-prepend f _ ms (push_message batch (to_message direction v max_body)))
        | inr (inl e) ↦ rw (e, decode_loop) (ground arith)
        | inr (inr (r, e)) ↦ rw (e, decode_loop)
      ]

  -- The branch `Incomplete` that keeps the stream changes nothing.
  wait_for_more_lem :
      (buffer : Bytes) (batch : DecodeBatch)
      → (wait_for_more max_body buffer batch).1.desynchronized ≡ none
      → wait_for_more max_body buffer batch ≡ (buffer, batch)
  unfolding wait_for_more
  wait_for_more_lem buffer batch h = ground arith

  decode_loop-append :
      (f : ℕ) (buffer more : Bytes) (batch : DecodeBatch) (g h : ℕ)
      → length buffer < f
      → (decode_loop f direction max_body buffer batch).1.desynchronized ≡ none
      → length (buffer ++ more) < g
      → length ((decode_loop f direction max_body buffer batch).0 ++ more) < h
      → decode_loop g direction max_body (buffer ++ more) batch
        ≡ decode_loop h direction max_body
            ((decode_loop f direction max_body buffer batch).0 ++ more)
            (decode_loop f direction max_body buffer batch).1
  unfolding decode_loop
  decode_loop-append zero buffer more batch g h i d j k = absurd (omega arith)
  decode_loop-append (suc f) [] more batch g h i d j k = decode_loop_fuel g h more batch j k
  decode_loop-append (suc f) (byte ∷ rest) more batch zero h i d j k = absurd (omega arith)
  decode_loop-append (suc f) (byte ∷ rest) more batch (suc g) h i d j k =
      elim (Parse-cases (parse_value (byte ∷ rest) 0)) [
        | inl (v, n, e) ↦
            let b = drain byte rest v n e in
            let e' : parse_value (byte ∷ (rest ++ more)) 0 ≡ Parse.complete v n =
              parse_value-append (byte ∷ rest) more 0 (λ w. cc (e, w)) ∙ e in
            let l = length-drop n (byte ∷ rest) in
            let l' = length-append (drop n (byte ∷ rest)) more in
            let l'' = length-append rest more in
            rw (e, e', decode_loop)
              (rw (drop-append n (byte ∷ rest) more b.1) (
                decode_loop-append f (drop n (byte ∷ rest)) more _ g h (omega arith)
                  (rw (e, decode_loop) at d) (omega arith) (rw (e, decode_loop) at k)))
        | inr (inl e) ↦
            let w = wait_for_more_lem (byte ∷ rest) batch (rw (e, decode_loop) at d) in
            rw (e, decode_loop, w)
              (decode_loop_fuel (suc g) h _ batch j (rw (e, decode_loop, w) at k))
        | inr (inr (r, e)) ↦ absurd (some-ne-none (rw (e, decode_loop) at d))
      ]

  -- What a call of `decode_available` makes of a buffer.
  abbrev rounds : Bytes → Bytes × DecodeBatch
  rounds buffer = decode_loop (suc (length buffer)) direction max_body buffer need_more

  need_more-prepend : (b : DecodeBatch) → b.desynchronized ≡ none → b ≡ prepend b.messages need_more
  need_more-prepend b h = ground (arith, append-nil b.messages)

  rounds-append :
      (buffer more : Bytes)
      → (rounds buffer).1.desynchronized ≡ none
      → rounds (buffer ++ more) ≡ (
        (rounds ((rounds buffer).0 ++ more)).0,
        prepend (rounds buffer).1.messages (rounds ((rounds buffer).0 ++ more)).1,
      )
  rounds-append buffer more h =
      let r = rounds buffer in
      decode_loop-append (suc (length buffer)) buffer more need_more _ (suc (length (r.0 ++ more)))
        (omega arith) h (omega arith) (omega arith)
      ∙ ap (decode_loop (suc (length (r.0 ++ more))) direction max_body (r.0 ++ more))
          (need_more-prepend r.1 h)
      ∙ decode_loop-prepend (suc (length (r.0 ++ more))) (r.0 ++ more) r.1.messages need_more

-- Where the first fragment loses no framing, the second call goes on where one call on both
-- fragments would: the same messages in the same order, the same refusal, the same state.
pub push-push :
    (d : RedisDecoder) (direction : Direction) (a b : Bytes)
    → (Decoder.push d direction a).1.desynchronized ≡ none
    → Decoder.push d direction (a ++ b) ≡ (
      (Decoder.push (Decoder.push d direction a).0 direction b).0,
      prepend
          (Decoder.push d direction a).1.messages
          (Decoder.push (Decoder.push d direction a).0 direction b).1,
    )
unfolding Decoder.push
push-push d client_to_server a b h =
    let F = λ (r : Bytes × DecodeBatch). set_pair d client_to_server r in
    ap (λ buffer. F (rounds client_to_server d.max_body buffer)) (sym (append_assoc d.client a b))
    ∙ ap F (rounds-append client_to_server d.max_body (d.client ++ a) b h)
push-push d server_to_client a b h =
    let F = λ (r : Bytes × DecodeBatch). set_pair d server_to_client r in
    ap (λ buffer. F (rounds server_to_client d.max_body buffer)) (sym (append_assoc d.server a b))
    ∙ ap F (rounds-append server_to_client d.max_body (d.server ++ a) b h)

module _ (direction : Direction) where
  -- A stream that arrives as `first` and then the fragments behind it: the last state, and all that
  -- the calls return.
  pub push_all : RedisDecoder → Bytes → List Bytes → RedisDecoder × DecodeBatch
  push_all d first [] = Decoder.push d direction first
  push_all d first (second ∷ more) =
      let (d', batch) = Decoder.push d direction first in
      let (last, batch') = push_all d' second more in (last, prepend batch.messages batch')

  -- No fragment but the last loses the framing.
  abbrev pub InSync : RedisDecoder → Bytes → List Bytes → Type 0
  InSync d first [] = Unit
  InSync d first (second ∷ more) =
      ((Decoder.push d direction first).1.desynchronized ≡ none)
      × InSync (Decoder.push d direction first).0 second more

  -- However a stream is cut into fragments, if none of them but the last loses the framing, the
  -- calls leave the decoder in the state, and return in all the messages and the refusal, of one
  -- call on the whole stream.
  pub push_all-flatten :
      (d : RedisDecoder) (first : Bytes) (more : List Bytes)
      → InSync d first more
      → push_all d first more ≡ Decoder.push d direction (first ++ flatten more)
  unfolding push_all flatten
  push_all-flatten d first [] h = ap (Decoder.push d direction) (sym (append-nil first))
  push_all-flatten d first (second ∷ more) h =
      rw (push-push d direction first (second ++ flatten more) h.0)
        (rw (push_all-flatten (Decoder.push d direction first).0 second more h.1))
