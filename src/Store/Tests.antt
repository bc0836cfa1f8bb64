-- ===== src/Store/Tests.antt =====
-- Runs of the store, after the tests of crates/lens-store/src/lib.rs.
use lens.Core.{
  ObservationEvent, ObservationKind, opened, bytes_seen, MessageRecord, client_to_server,
  server_to_client,
}
use lens.Prelude.{ℕ, ◌*◌, ◌≡◌, refl, [], ◌∷◌, ◌++◌, map, filter_map, none, some, List, Option}
use lens.Protocol.{StreamingDecoder, need_more}
use lens.Redact.Tests as Redaction
use lens.Redact.Tests.{no_match}
use lens.Redis.Parse.{parse_value}
use lens.Redis.Message.{to_message}
use lens.Store.Actor.{run}
use lens.Store.Decoders.{Parts}
use lens.Store.Flow.{StoredFlow, update_flow}
use lens.Store.Messages
use lens.Store.Messages.{StoreActor}
use lens.Text.{str}

unfoldable program : Unit {0}
unfolding run str
program = tt

-- A decoder that returns nothing.
abbrev silent : StreamingDecoder Unit
silent = record {
  protocol = str "silent";
  push = λ s direction bytes. (s, need_more);
  finish = λ s direction. (s, need_more);
}

-- Decoders that return nothing, and a redactor that finds no secret in JSON.
abbrev pub hiding : Parts Unit
hiding = record {
  http2_new = λ max_body. tt;
  http2 = silent;
  json_secret = no_match;
  process = none;
}

abbrev pub at : ℕ → ℕ → ObservationKind → ObservationEvent
at flow_id nanos kind = record {
  flow_id = flow_id;
  timestamp = record { mono_nanos = nanos; wall_nanos = nanos * 2 };
  kind = kind;
}

abbrev pub opening : ℕ → ObservationEvent
opening flow_id = at flow_id (flow_id * 10) (
    opened (record { host = str "127.0.0.1"; port = 5001 })
      (record { host = str "example.test"; port = 6379 }) (some (str "redis")))

abbrev pub ping : List ObservationEvent
ping =
    opening 1
    ∷ at 1 20 (bytes_seen client_to_server (str "*1\r\n$4\r\nPI"))
    ∷ at 1 25 (bytes_seen client_to_server (str "NG\r\n"))
    ∷ at 1 65 (bytes_seen server_to_client (str "+PONG\r\n"))
    ∷ []

abbrev latencies : StoredFlow → List (Option ℕ)
latencies flow = map (λ (m : MessageRecord). m.latency_nanos) flow.messages

run-ping :
    map latencies (run hiding (Messages.new 2 7) ping).state.flows ≡ (none ∷ some 40 ∷ []) ∷ []
unfolding program Redaction.program parse_value update_flow to_message filter_map
run-ping = refl

run-evict :
    map
      (λ (f : StoredFlow). f.record_of.envelope.flow_id)
      (run hiding (Messages.new 2 7) (ping ++ opening 2 ∷ opening 3 ∷ [])).state.flows
    ≡ some 2 ∷ some 3 ∷ []
unfolding program Redaction.program parse_value update_flow to_message filter_map
run-evict = refl
