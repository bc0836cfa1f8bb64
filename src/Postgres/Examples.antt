-- ===== src/Postgres/Examples.antt =====
-- The properties of the PostgreSQL decoder, applied to concrete streams.
use lens.Core.{client_to_server, server_to_client}
use lens.Postgres.Bodies.{Fits, push-Fits}
use lens.Postgres.Bounded.{max_buffer, BuffersInv, Reachable, created, pushed, Reachable-BuffersInv}
use lens.Postgres.Decoder
use lens.Postgres.Decoder.{
  PostgresDecoder, Step, push, finish, step, buffer, typed, is_opaque, max_frame_bytes,
}
use lens.Postgres.Ending.{
  Call, push_call, finish_call, calls, Silent, calls-Silent, push-gives_up, push-Waits,
}
use lens.Postgres.Frames.{Frame, Sized, encode, encode_all, received, push-encode_all}
use lens.Postgres.Secret.{
  SameFrames, none_left, same_frame, same_payload, credentials, push-SameFrames,
}
use lens.Postgres.Strings.{strings_end}
use lens.Postgres.Wire.{cstrings, cstrings_loop, error_fields, error_fields_loop}
use lens.Postgres.Tests.{started, startup_bytes, query_frame, program}
use lens.Postgres.Whole.{push_each, push_each-flatten}
use lens.Prelude.{
  ◌≡◌, refl, List, [], ◌∷◌, ◌++◌, All, length, ◌≤◌, flatten, arith, some, true, drop, take,
}
use lens.Text.{Bytes, str}

abbrev fresh : PostgresDecoder
fresh = Decoder.new 64

push_each-flatten_example :
    push_each client_to_server fresh (take 3 startup_bytes) (drop 3 startup_bytes ∷ [])
    ≡ push fresh client_to_server (take 3 startup_bytes ++ flatten (drop 3 startup_bytes ∷ []))
unfolding program flatten
push_each-flatten_example =
    push_each-flatten client_to_server fresh (take 3 startup_bytes) (drop 3 startup_bytes ∷ [])
      (omega arith)

started-Reachable : Reachable 64 started
started-Reachable = pushed client_to_server startup_bytes created

Reachable-BuffersInv_example : BuffersInv started
Reachable-BuffersInv_example = Reachable-BuffersInv 64 started started-Reachable

-- A request for SSL, which the server accepts.
abbrev ssl_request : Bytes
ssl_request = 0 ∷ 0 ∷ 0 ∷ 8 ∷ 4 ∷ 210 ∷ 22 ∷ 47 ∷ []

abbrev requested : PostgresDecoder
requested = (push fresh client_to_server ssl_request).0

abbrev encrypted : PostgresDecoder
encrypted = (push requested server_to_client (str "S")).0

encrypted-Reachable : Reachable 64 encrypted
encrypted-Reachable =
    pushed server_to_client (str "S") (pushed client_to_server ssl_request created)

encrypted_opaque : is_opaque encrypted.phase ≡ true
unfolding program
encrypted_opaque = refl

abbrev later_calls : List Call
later_calls = push_call client_to_server (str "secret") ∷ finish_call client_to_server ∷ []

calls-Silent_example :
    ((calls encrypted later_calls).0 ≡ encrypted) × All Silent (calls encrypted later_calls).1
calls-Silent_example = calls-Silent 64 encrypted later_calls encrypted-Reachable encrypted_opaque

gives_up_report :
    (push requested server_to_client (str "X")).1.desynchronized
    ≡ some (str "invalid PostgreSQL encryption response")
unfolding program
gives_up_report = refl

push-gives_up_example :
    let d' = (push requested server_to_client (str "X")).0 in
    (is_opaque d'.phase ≡ true) × (d'.client ≡ []) × (d'.server ≡ [])
push-gives_up_example =
    push-gives_up 64 requested server_to_client (str "X")
      (str "invalid PostgreSQL encryption response") (pushed client_to_server ssl_request created)
      gives_up_report

push-Waits_example :
    let d' = (push started client_to_server (encode query_frame)).0 in
    step d'.phase client_to_server d'.max_body (buffer d' client_to_server)
    ≡ (buffer d' client_to_server, Step.need_more)
push-Waits_example = push-Waits started client_to_server (encode query_frame)

push-Fits_example :
    All (Fits started.max_body) (push started client_to_server (encode query_frame)).1.messages
push-Fits_example = push-Fits started client_to_server (encode query_frame)

abbrev session : List Frame
session = (b'p', str "hunter2" ++ 0 ∷ []) ∷ query_frame ∷ []

started_typed : started.phase ≡ typed
unfolding program
started_typed = refl

started_read : buffer started client_to_server ≡ []
unfolding program
started_read = refl

session-Sized : All Sized session
unfolding str
session-Sized = (omega arith, (omega arith, tt))

length-session : length (encode_all session) ≤ max_buffer
unfolding encode_all str
length-session = omega arith

push-encode_all_example :
    push started client_to_server (encode_all session) ≡ received client_to_server started session
push-encode_all_example =
    push-encode_all started client_to_server session started_typed started_read session-Sized
      length-session

abbrev other_session : List Frame
other_session = (b'p', str "passw0r" ++ 0 ∷ []) ∷ query_frame ∷ []

sessions-SameFrames : SameFrames client_to_server session other_session
unfolding str
sessions-SameFrames =
    same_frame _ _ _ _ _ (credentials _ _ refl)
      (same_frame _ _ _ _ _ (same_payload _ _ _) none_left)

push-SameFrames_example :
    push started client_to_server (encode_all session)
    ≡ push started client_to_server (encode_all other_session)
push-SameFrames_example =
    push-SameFrames started client_to_server session other_session started_typed started_read
      sessions-SameFrames session-Sized length-session

abbrev two_strings : Bytes
two_strings = str "user" ++ 0 ∷ (str "ann" ++ 0 ∷ 0 ∷ [])

strings_end_example :
    (cstrings_loop 20 two_strings ≡ cstrings two_strings)
    × (error_fields_loop 20 two_strings ≡ error_fields two_strings)
unfolding str
strings_end_example = strings_end 20 two_strings (omega arith)
