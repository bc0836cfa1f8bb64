-- ===== src/Postgres/Bodies.antt =====
-- How long the bodies are that a decoder returns.
use lens.Core.{Direction, client_to_server, server_to_client}
use lens.Postgres.Backend.{
  decode_typed, decode_backend, backend, authentication, parameter_status, status_message,
  command_complete, error_response, notice_response, add_error_fields, add_named, row_description,
  with_columns, data_row, backend_line, field_name, column_names,
}
use lens.Postgres.Bounded.{process_cases}
use lens.Postgres.Decoder
use lens.Postgres.Decoder.{
  Phase, startup, awaiting_encryption_response, typed, opaque, PostgresDecoder, buffer, set_buffer,
  Step, need_more, decoded, decoded_and_phase, desynchronized, after_startup, after_typed,
  startup_frame, step_startup, step_encryption_response, encryption_response, step_typed, step,
  process, push,
}
use lens.Postgres.Fragments.{extend}
use lens.Postgres.Rounds.{Loop, taken, after, process_loop_preserves}
use lens.Postgres.Message.{
  decode_frontend, frontend, query, parse, bind, bind_counts, execute, frontend_line,
  startup_message, wire_bytes, fixed,
}
use lens.Postgres.Wire.{be16, be32, take_cstring, first_cstring, cstrings, error_fields}
use lens.Prelude.{
  ◌∙◌, ap, sym, All, All-append, suc, ◌/◌, ltb, ◌==◌, drop, subst, Bool-cases, inl, inr, ℕ, ◌≤◌,
  List, [], ◌∷◌, ◌++◌, Option, none, some, length, take, length-take, ◌≡◌, refl, arith,
}
use lens.Protocol
use lens.Protocol.{DecodedMessage, DecodeBatch}
use lens.Text.{Bytes}
use lens.Text.Result.{Result, ok, err, ◌>>=◌}

module _ (max_body : ℕ) where
  abbrev pub Fits : DecodedMessage → Type 0
  Fits m = length m.body ≤ max_body

  abbrev pub Yields : Result DecodedMessage → Type 0
  Yields (ok m) = Fits m
  Yields (err reason) = Unit {0}

  >>=-Yields :
      {A : Type 0} (r : Result A) (f : A → Result DecodedMessage)
      → ((a : A) → Yields (f a))
      → Yields (r >>= f)
  >>=-Yields (ok a) f h = h a
  >>=-Yields (err reason) f h = tt

  query-Yields : (payload : Bytes) → Yields (query payload max_body)
  unfolding query
  query-Yields payload =
      >>=-Yields (first_cstring payload) _ (λ text. omega (arith, length-take max_body text))

  parse-Yields : (payload : Bytes) → Yields (parse payload max_body)
  unfolding parse
  parse-Yields payload =
      >>=-Yields (take_cstring payload) _
        (λ p. >>=-Yields (take_cstring p.1) _ (λ q. omega (arith, length-take max_body q.0)))

  bind_counts-Yields : (portal statement rest : Bytes) → Yields (bind_counts portal statement rest)
  unfolding bind_counts
  bind_counts-Yields portal statement rest = ground arith

  bind-Yields : (payload : Bytes) → Yields (bind payload)
  unfolding bind
  bind-Yields payload =
      >>=-Yields (take_cstring payload) _
        (λ p. >>=-Yields (take_cstring p.1) _ (λ q. bind_counts-Yields p.0 q.0 q.1))

  execute-Yields : (payload : Bytes) → Yields (execute payload)
  unfolding execute
  execute-Yields payload = >>=-Yields (take_cstring payload) _ (λ p. ground arith)

  frontend_line-Fits : (tag len : ℕ) → Fits (frontend_line tag len)
  unfolding frontend_line
  frontend_line-Fits tag len = ground arith

  frontend-Yields : (tag : ℕ) (payload : Bytes) → Yields (frontend tag payload max_body)
  unfolding frontend
  frontend-Yields tag payload = ground (
    arith,
    query-Yields payload,
    parse-Yields payload,
    bind-Yields payload,
    execute-Yields payload,
    frontend_line-Fits tag (length payload),
  )

  status_message-Yields : (fields : List Bytes) → Yields (status_message fields)
  status_message-Yields [] = tt
  status_message-Yields (name ∷ []) = tt
  status_message-Yields (name ∷ value ∷ fields) = omega arith

  add_named-body :
      (m : DecodedMessage) (value : Bytes) (o : Option Bytes)
      → (add_named max_body m value o).body ≡ m.body
  add_named-body m value none = refl
  add_named-body m value (some name) = refl

  add_error_fields-body :
      (m : DecodedMessage) (fields : List (ℕ × Bytes))
      → (add_error_fields max_body m fields).body ≡ m.body
  unfolding add_error_fields
  add_error_fields-body m [] = refl
  add_error_fields-body m ((code, value) ∷ fields) =
      add_error_fields-body (add_named max_body m value (field_name code)) fields
      ∙ add_named-body m value (field_name code)

  error_response-Yields : (payload : Bytes) → Yields (error_response payload max_body)
  unfolding error_response
  error_response-Yields payload = >>=-Yields (error_fields payload) _ (λ fields. omega (
    arith,
    ap length (add_error_fields-body (fixed server_to_client "ErrorResponse" "error") fields),
  ))

  notice_response-Yields : (payload : Bytes) → Yields (notice_response payload max_body)
  unfolding notice_response
  notice_response-Yields payload = >>=-Yields (error_fields payload) _ (λ fields. omega (
    arith,
    ap length (add_error_fields-body (fixed server_to_client "NoticeResponse" "notice") fields),
  ))

  with_columns-Fits :
      (m : DecodedMessage) (names : List Bytes) → Fits m → Fits (with_columns m names)
  with_columns-Fits m [] h = h
  with_columns-Fits m (name ∷ names) h = h

  row_description-Yields : (payload : Bytes) → Yields (row_description payload)
  unfolding row_description
  row_description-Yields payload = elim (Bool-cases (ltb (length payload) 2)) [
    | inl few ↦ rw (few, row_description) tt
    | inr e ↦
        rw (e, row_description)
          (>>=-Yields (column_names (be16 payload) (drop 2 payload)) _
            (λ names. with_columns-Fits _ (take 32 names) (omega arith)))
  ]

  authentication-Yields : (payload : Bytes) → Yields (authentication payload)
  unfolding authentication
  authentication-Yields payload = ground arith

  parameter_status-Yields : (payload : Bytes) → Yields (parameter_status payload)
  unfolding parameter_status
  parameter_status-Yields payload =
      >>=-Yields (cstrings payload) status_message status_message-Yields

  command_complete-Yields : (payload : Bytes) → Yields (command_complete payload)
  unfolding command_complete
  command_complete-Yields payload = >>=-Yields (first_cstring payload) _ (λ tag. omega arith)

  data_row-Yields : (payload : Bytes) → Yields (data_row payload)
  unfolding data_row
  data_row-Yields payload = ground arith

  backend_line-Fits : (tag len : ℕ) → Fits (backend_line tag len)
  unfolding backend_line
  backend_line-Fits tag len = ground arith

  backend-Yields : (tag : ℕ) (payload : Bytes) → Yields (backend tag payload max_body)
  unfolding backend
  backend-Yields tag payload = ground (
    arith,
    authentication-Yields payload,
    parameter_status-Yields payload,
    command_complete-Yields payload,
    error_response-Yields payload,
    notice_response-Yields payload,
    row_description-Yields payload,
    data_row-Yields payload,
    backend_line-Fits tag (length payload),
  )

  wire_bytes-Yields :
      (payload : Bytes) (r : Result DecodedMessage) → Yields r → Yields (r >>= wire_bytes payload)
  wire_bytes-Yields payload (ok m) h = h
  wire_bytes-Yields payload (err reason) h = tt

  decode_typed-Yields :
      (direction : Direction) (tag : ℕ) (payload : Bytes)
      → Yields (decode_typed direction tag payload max_body)
  unfolding decode_typed decode_frontend decode_backend
  decode_typed-Yields client_to_server tag payload =
      wire_bytes-Yields payload (frontend tag payload max_body) (frontend-Yields tag payload)
  decode_typed-Yields server_to_client tag payload =
      wire_bytes-Yields payload (backend tag payload max_body) (backend-Yields tag payload)

  startup_message-Yields :
      (version : ℕ) (payload : Bytes) → Yields (startup_message version payload)
  unfolding startup_message
  startup_message-Yields version payload = elim (Bool-cases (version / 65536 == 3)) [
    | inr e ↦ rw (e, startup_message) tt
    | inl e ↦ rw (e, startup_message) (>>=-Yields (cstrings payload) _ (λ fields. ground arith))
  ]

  abbrev pub StepFits : Step → Type 0
  StepFits need_more = Unit {0}
  StepFits (decoded m) = Fits m
  StepFits (decoded_and_phase m phase) = Fits m
  StepFits (desynchronized reason) = Unit {0}

  after_startup-StepFits : (r : Result DecodedMessage) → Yields r → StepFits (after_startup r)
  after_startup-StepFits (ok m) h = h
  after_startup-StepFits (err reason) h = tt

  after_typed-StepFits : (r : Result DecodedMessage) → Yields r → StepFits (after_typed r)
  after_typed-StepFits (ok m) h = h
  after_typed-StepFits (err reason) h = tt

  startup_frame-StepFits : (frame : Bytes) → StepFits (startup_frame frame)
  unfolding startup_frame
  startup_frame-StepFits frame =
      let code = be32 (drop 4 frame) in
      ground (
        arith,
        after_startup-StepFits (startup_message code (drop 8 frame))
            (startup_message-Yields code (drop 8 frame)),
      )

  step-StepFits :
      (phase : Phase) (direction : Direction) (bytes : Bytes)
      → StepFits (step phase direction max_body bytes).1
  unfolding step step_startup step_encryption_response encryption_response step_typed
  step-StepFits startup client_to_server bytes =
      ground (arith, startup_frame-StepFits (take (be32 bytes) bytes))
  step-StepFits startup server_to_client bytes = tt
  step-StepFits awaiting_encryption_response client_to_server bytes = tt
  step-StepFits awaiting_encryption_response server_to_client [] = tt
  step-StepFits awaiting_encryption_response server_to_client (response ∷ bytes) = ground arith
  step-StepFits typed direction [] = tt
  step-StepFits typed direction (tag ∷ bytes) =
      let payload = drop 4 (take (be32 bytes) bytes) in
      ground (
        arith,
        after_typed-StepFits (decode_typed direction tag payload max_body)
            (decode_typed-Yields direction tag payload),
      )
  step-StepFits opaque direction bytes = tt

  abbrev LoopFits : Loop → Type 0
  LoopFits (d, batch) = (d.max_body ≡ max_body) × All Fits batch.messages

  after_step-LoopFits :
      (l : Loop) (s : Step) → StepFits s → LoopFits l → LoopFits (Decoder.after_step l s)
  after_step-LoopFits l need_more h k = k
  after_step-LoopFits l (decoded m) h k = (k.0, All-append Fits l.1.messages (m ∷ []) k.1 (h, tt))
  after_step-LoopFits l (decoded_and_phase m startup) h k =
      (k.0, All-append Fits l.1.messages (m ∷ []) k.1 (h, tt))
  after_step-LoopFits l (decoded_and_phase m awaiting_encryption_response) h k =
      (k.0, All-append Fits l.1.messages (m ∷ []) k.1 (h, tt))
  after_step-LoopFits l (decoded_and_phase m typed) h k =
      (k.0, All-append Fits l.1.messages (m ∷ []) k.1 (h, tt))
  after_step-LoopFits l (decoded_and_phase m opaque) h k =
      (k.0, All-append Fits l.1.messages (m ∷ []) k.1 (h, tt))
  after_step-LoopFits l (desynchronized reason) h k = k

  set_buffer-LoopFits :
      (direction : Direction) (d : PostgresDecoder) (bytes : Bytes) (batch : DecodeBatch)
      → LoopFits (d, batch)
      → LoopFits (set_buffer d direction bytes, batch)
  set_buffer-LoopFits client_to_server d bytes batch h = h
  set_buffer-LoopFits server_to_client d bytes batch h = h

  round-LoopFits :
      (direction : Direction) (l : Loop)
      → LoopFits l
      → LoopFits (after direction l (taken direction l.0))
  round-LoopFits direction l h =
      let r = taken direction l.0 in
      after_step-LoopFits (set_buffer l.0 direction r.0, l.1) r.1
        (subst (λ n. StepFits (step l.0.phase direction n (buffer l.0 direction)).1) (sym h.0)
          (step-StepFits l.0.phase direction (buffer l.0 direction)))
        (set_buffer-LoopFits direction l.0 r.0 l.1 h)

-- A message that a push returns has a body of at most max_body bytes.
pub push-Fits :
    (d : PostgresDecoder) (direction : Direction) (bytes : Bytes)
    → All (Fits d.max_body) (push d direction bytes).1.messages
unfolding push
push-Fits d direction bytes =
    process_cases d direction bytes (λ l. All (Fits d.max_body) l.1.messages) (λ e. tt) tt
      (λ e k.
        (process_loop_preserves direction (LoopFits d.max_body)
          (round-LoopFits d.max_body direction) (suc (length (buffer d direction ++ bytes)))
          (extend direction bytes d, Protocol.need_more)
          (set_buffer-LoopFits d.max_body direction d (buffer d direction ++ bytes)
            Protocol.need_more (refl, tt))).1)
