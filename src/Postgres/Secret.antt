-- ===== src/Postgres/Secret.antt =====
-- What of a frame never reaches a message.
use lens.Core.{Direction, client_to_server, server_to_client}
use lens.Postgres.Backend.{decode_typed, decode_backend, backend, backend_line, data_row}
use lens.Postgres.Bounded.{max_buffer}
use lens.Postgres.Decoder.{PostgresDecoder, typed, buffer, push}
use lens.Postgres.Frames.{Frame, Sized, encode_all, received, push-encode_all}
use lens.Postgres.Message.{
  push_header, decode_frontend, frontend, frontend_line, bind, bind_counts, bind_line, wire_bytes,
  message, with_kind,
}
use lens.Postgres.Wire.{be16, from_be_bytes, cstring_at, take_cstring}
use lens.Prelude.{
  ℕ, suc, ◌+◌, ◌*◌, ◌≤◌, false, List, [], ◌∷◌, ◌++◌, ltb, length, drop, length-append, length-drop,
  take-append, drop-append, take_all, drop_all, drop-drop, le→ltb, All, ◌≡◌, refl, sym, ap, ◌∙◌,
  arith,
}
use lens.Protocol.{DecodedMessage}
use lens.Text.{Bytes, str}
use lens.Text.Number.{show}
use lens.Text.Result.{Result, ok, ◌>>=◌}
use lens.Text.Split.{Free, position-Free}

take_cstring-Free :
    (text rest : Bytes) → Free 0 text → take_cstring (text ++ 0 ∷ rest) ≡ ok (text, rest)
unfolding take_cstring
take_cstring-Free text rest h =
    ap (cstring_at (text ++ 0 ∷ rest)) (position-Free 0 text rest h)
    ∙ ap (λ (t : Bytes). ok (t, drop (length text + 1) (text ++ 0 ∷ rest)))
        (take_all text (0 ∷ rest))
    ∙ ap (λ (t : Bytes). ok (text, t))
        (drop-drop (length text) 1 (text ++ 0 ∷ rest) ∙ ap (drop 1) (drop_all text (0 ∷ rest)))

-- The counts of a Bind message up to the values: the format codes with their number, and the number
-- of the parameters.
abbrev pub IsCounts : Bytes → Type 0
IsCounts counts = length counts ≡ be16 counts * 2 + 4

module _ (portal statement counts values : Bytes) where
  abbrev bound : Result DecodedMessage
  bound =
      let parameter_count = be16 (drop (be16 counts * 2 + 2) counts) in
      ok (with_kind (message client_to_server (bind_line portal statement parameter_count)) "bind")

  bind_counts-IsCounts : IsCounts counts → bind_counts portal statement (counts ++ values) ≡ bound
  unfolding bind_counts
  bind_counts-IsCounts h =
      let n = be16 counts * 2 + 2 in
      let l = length-append counts values in
      let few : ltb (length (counts ++ values)) 2 ≡ false = le→ltb _ _ (omega arith) in
      let same : be16 (counts ++ values) ≡ be16 counts =
        ap (from_be_bytes 0) (take-append 2 counts values (omega arith)) in
      let whole : ltb (length (counts ++ values)) (n + 2) ≡ false = le→ltb _ _ (omega arith) in
      let k = length-drop n counts in
      let count : be16 (drop n (counts ++ values)) ≡ be16 (drop n counts) =
        ap be16 (drop-append n counts values (omega arith))
        ∙ ap (from_be_bytes 0) (take-append 2 (drop n counts) values (omega arith)) in
      rw (few, same, whole, count, bind_counts) refl

  bind-IsCounts :
      Free 0 portal
      → Free 0 statement
      → IsCounts counts
      → bind (portal ++ 0 ∷ (statement ++ 0 ∷ (counts ++ values))) ≡ bound
  unfolding bind
  bind-IsCounts p s h =
      ap
        (λ r. r >>= λ (x : Bytes × Bytes).
          take_cstring x.1 >>= λ (y : Bytes × Bytes). bind_counts x.0 y.0 y.1)
        (take_cstring-Free portal (statement ++ 0 ∷ (counts ++ values)) p)
      ∙ ap (λ r. r >>= λ (y : Bytes × Bytes). bind_counts portal y.0 y.1)
          (take_cstring-Free statement (counts ++ values) s)
      ∙ bind_counts-IsCounts h

-- Payloads that differ in nothing but what is to be kept secret: credentials, key material, the
-- arguments of a function call, the rows of a COPY, the detail of its failure, a notification, the
-- values that are bound to parameters, and the values of a row.
pub data SameShown : Direction → ℕ → Bytes → Bytes → Type 0 where
  same_payload : (direction : Direction) (tag : ℕ) (p : Bytes) → SameShown direction tag p p
  credentials : (p q : Bytes) → length p ≡ length q → SameShown client_to_server b'p' p q
  function_arguments : (p q : Bytes) → length p ≡ length q → SameShown client_to_server b'F' p q
  copied_in : (p q : Bytes) → length p ≡ length q → SameShown client_to_server b'd' p q
  copy_failure : (p q : Bytes) → length p ≡ length q → SameShown client_to_server b'f' p q
  key_data : (p q : Bytes) → length p ≡ length q → SameShown server_to_client b'K' p q
  notification : (p q : Bytes) → length p ≡ length q → SameShown server_to_client b'A' p q
  copied_out : (p q : Bytes) → length p ≡ length q → SameShown server_to_client b'd' p q
  bound_values :
      (portal statement counts p q : Bytes)
      → Free 0 portal
      → Free 0 statement
      → IsCounts counts
      → length p ≡ length q
      → SameShown client_to_server b'B'
          (portal ++ 0 ∷ (statement ++ 0 ∷ (counts ++ p)))
          (portal ++ 0 ∷ (statement ++ 0 ∷ (counts ++ q)))
  row_values :
      (high low : ℕ) (p q : Bytes)
      → length p ≡ length q
      → SameShown server_to_client b'D' (high ∷ low ∷ p) (high ∷ low ∷ q)

same_length :
    (portal statement counts p q : Bytes)
    → length p ≡ length q
    → length (portal ++ 0 ∷ (statement ++ 0 ∷ (counts ++ p)))
      ≡ length (portal ++ 0 ∷ (statement ++ 0 ∷ (counts ++ q)))
same_length portal statement counts p q h = omega (
  arith,
  length-append portal (0 ∷ (statement ++ 0 ∷ (counts ++ p))),
  length-append portal (0 ∷ (statement ++ 0 ∷ (counts ++ q))),
  length-append statement (0 ∷ (counts ++ p)),
  length-append statement (0 ∷ (counts ++ q)),
  length-append counts p,
  length-append counts q,
)

length-SameShown :
    (direction : Direction) (tag : ℕ) (p q : Bytes)
    → SameShown direction tag p q
    → length p ≡ length q
length-SameShown direction tag p q (same_payload _ _ _) = refl
length-SameShown direction tag p q (credentials _ _ h) = h
length-SameShown direction tag p q (function_arguments _ _ h) = h
length-SameShown direction tag p q (copied_in _ _ h) = h
length-SameShown direction tag p q (copy_failure _ _ h) = h
length-SameShown direction tag p q (key_data _ _ h) = h
length-SameShown direction tag p q (notification _ _ h) = h
length-SameShown direction tag p q (copied_out _ _ h) = h
length-SameShown direction tag p q (bound_values portal statement counts v w _ _ _ h) =
    same_length portal statement counts v w h
length-SameShown direction tag p q (row_values high low v w h) = ap (λ n. suc (suc n)) h

module _ (max_body : ℕ) where
  decode_typed-SameShown :
      (direction : Direction) (tag : ℕ) (p q : Bytes)
      → SameShown direction tag p q
      → decode_typed direction tag p max_body ≡ decode_typed direction tag q max_body
  unfolding decode_typed decode_frontend decode_backend frontend backend frontend_line backend_line
      data_row
  decode_typed-SameShown direction tag p q (same_payload _ _ _) = refl
  decode_typed-SameShown direction tag p q (credentials _ _ h) = rw h refl
  decode_typed-SameShown direction tag p q (function_arguments _ _ h) = rw h refl
  decode_typed-SameShown direction tag p q (copied_in _ _ h) = rw h refl
  decode_typed-SameShown direction tag p q (copy_failure _ _ h) = rw h refl
  decode_typed-SameShown direction tag p q (key_data _ _ h) = rw h refl
  decode_typed-SameShown direction tag p q (notification _ _ h) = rw h refl
  decode_typed-SameShown direction tag p q (copied_out _ _ h) = rw h refl
  decode_typed-SameShown direction tag p q (bound_values portal statement counts v w a b c h) =
      let e = bind-IsCounts portal statement counts v a b c in
      let f = bind-IsCounts portal statement counts w a b c in
      let k = same_length portal statement counts v w h in
      ap (λ r. r >>= wire_bytes p) e
      ∙ ap
          (λ n. bound portal statement counts v >>= λ (m : DecodedMessage).
            ok (push_header m (str "wire-bytes") (show (n + 5))))
          k
      ∙ sym (ap (λ r. r >>= wire_bytes q) f)
  decode_typed-SameShown direction tag p q (row_values high low v w h) = rw h refl

-- Frames that differ in nothing but what is to be kept secret, each with the one in its place.
pub data SameFrames (direction : Direction) : List Frame → List Frame → Type 0 where
  none_left : SameFrames direction [] []
  same_frame :
      (tag : ℕ) (p q : Bytes) (fs gs : List Frame)
      → SameShown direction tag p q
      → SameFrames direction fs gs
      → SameFrames direction ((tag, p) ∷ fs) ((tag, q) ∷ gs)

module _ (direction : Direction) where
  received-SameFrames :
      (d : PostgresDecoder) (fs gs : List Frame)
      → SameFrames direction fs gs
      → received direction d fs ≡ received direction d gs
  unfolding received
  received-SameFrames d fs gs none_left = refl
  received-SameFrames d fs gs (same_frame tag p q fs' gs' s rest) =
      rw
        (
          decode_typed-SameShown d.max_body direction tag p q s,
          received-SameFrames d fs' gs' rest,
          received,
        )
        refl

  Sized-SameFrames : (fs gs : List Frame) → SameFrames direction fs gs → All Sized fs → All Sized gs
  Sized-SameFrames fs gs none_left h = tt
  Sized-SameFrames fs gs (same_frame tag p q fs' gs' s rest) h =
      let e = length-SameShown direction tag p q s in
      (omega (arith, h.0), Sized-SameFrames fs' gs' rest h.1)

  length-SameFrames :
      (fs gs : List Frame)
      → SameFrames direction fs gs
      → length (encode_all fs) ≡ length (encode_all gs)
  unfolding encode_all
  length-SameFrames fs gs none_left = refl
  length-SameFrames fs gs (same_frame tag p q fs' gs' s rest) = omega (
    arith,
    length-append p (encode_all fs'),
    length-append q (encode_all gs'),
    length-SameShown direction tag p q s,
    length-SameFrames fs' gs' rest,
  )

-- Credentials, key material, the arguments of function calls, COPY data, notifications, bound values
-- and the values of rows reach no message: two streams of frames of a valid length that fit into the
-- buffer, and differ in those only, byte for byte, leave a typed decoder that has read all it was
-- given in the same state and give the same batch.
pub push-SameFrames :
    (d : PostgresDecoder) (direction : Direction) (fs gs : List Frame)
    → d.phase ≡ typed
    → buffer d direction ≡ []
    → SameFrames direction fs gs
    → All Sized fs
    → length (encode_all fs) ≤ max_buffer
    → push d direction (encode_all fs) ≡ push d direction (encode_all gs)
push-SameFrames d direction fs gs is_typed e s h k =
    push-encode_all d direction fs is_typed e h k
    ∙ received-SameFrames direction d fs gs s
    ∙ sym (
        push-encode_all d direction gs is_typed e (Sized-SameFrames direction fs gs s h)
          (omega (arith, length-SameFrames direction fs gs s)))
