-- ===== src/Postgres/Tests.antt =====
-- Runs of the decoder, after the tests of crates/lens-proto-postgres/src/lib.rs.
use lens.Core.{client_to_server, server_to_client}
use lens.Postgres.Decoder
use lens.Postgres.Decoder.{PostgresDecoder, push}
use lens.Postgres.Frames.{Frame, encode}
use lens.Prelude.{◌≡◌, refl, [], ◌∷◌, ◌++◌, map}
use lens.Protocol.{DecodedMessage}
use lens.Text.{Bytes, str}
use lens.Text.Number.{show}
use lens.Text.Utf8.{from_utf8_lossy}

unfoldable pub program : Unit {0}
unfolding push str show from_utf8_lossy
program = tt

-- The startup frame of protocol 3.0 with a user's name.
abbrev pub startup_bytes : Bytes
startup_bytes = 0 ∷ 0 ∷ 0 ∷ 18 ∷ 0 ∷ 3 ∷ 0 ∷ 0 ∷ (str "user" ++ 0 ∷ (str "ann" ++ 0 ∷ 0 ∷ []))

abbrev pub started : PostgresDecoder
started = (push (Decoder.new 64) client_to_server startup_bytes).0

run-startup :
    map
      (λ (m : DecodedMessage). m.start_line)
      (push (Decoder.new 64) client_to_server startup_bytes).1.messages
    ≡ str "StartupMessage protocol=3.0" ∷ []
unfolding program
run-startup = refl

abbrev pub query_frame : Frame
query_frame = (b'Q', str "SELECT 1" ++ 0 ∷ [])

run-query :
    map
      (λ (m : DecodedMessage). m.body)
      (push started client_to_server (encode query_frame)).1.messages
    ≡ str "SELECT 1" ∷ []
unfolding program
run-query = refl

run-ready :
    map
      (λ (m : DecodedMessage). m.start_line)
      (push started server_to_client (encode (b'Z', str "I"))).1.messages
    ≡ str "ReadyForQuery status=I" ∷ []
unfolding program
run-ready = refl
