-- ===== src/Replay/Tests.antt =====
-- Runs of the replay functions, after the tests of crates/lens-replay/src/lib.rs.
use lens.Core.{client_to_server}
use lens.Prelude.{◌≡◌, refl, true, false, none, some, [], ◌∷◌}
use lens.Protocol.{DecodedMessage, Headers, render}
use lens.Replay.Guard.{ReplayPlan, validate_execution, default_policy}
use lens.Replay.Packages.{Packages}
use lens.Replay.Plan.{CaptureMessage, CaptureFlow, plan_from_flows}
use lens.Replay.Wire.{parse_wire, replay_headers}
use lens.Text.{str}
use lens.Text.Result.{ok, err}

unfoldable pub program : Unit {0}
unfolding plan_from_flows validate_execution replay_headers parse_wire render str
program = tt

-- Packages that accept every name, and read every URI as this origin.
abbrev pub lenient : Packages
lenient = record {
  is_method = λ method. true;
  is_header_name = λ name. true;
  is_header_value = λ value. true;
  parse_uri = λ text. some (record {
    scheme = some (str "http");
    authority = some (str "localhost:3000");
    path_and_query = none;
    host = some (str "localhost");
  });
  is_loopback = λ host. false;
  decode_base64 = λ text. ok text;
}

abbrev pub get_plan : ReplayPlan
get_plan = record {
  flow_id = 1;
  request = 1;
  method = str "GET";
  path_and_query = str "/items";
  headers = (str "Accept", str "text/plain") ∷ [];
  body = [];
  truncated = false;
  sensitivity = str "public";
  was_redacted = false;
  legacy_text_encoding = false;
  captured_response = none;
}

abbrev get_message : CaptureMessage
get_message = record {
  direction = some (str "client_to_server");
  summary = str "GET /items HTTP/1.1";
  body = [];
  wire_base64 = some (str "Accept: text/plain\r\nHost: shop\r\n\r\n");
  truncated = false;
  sensitivity = str "public";
}

abbrev get_flow : CaptureFlow
get_flow = record { flow_id = 1; protocol = some (str "http1"); messages = get_message ∷ [] }

run-plan_from_flows :
    plan_from_flows lenient (get_flow ∷ []) (record { flow_id = none; request = 1 }) ≡ ok get_plan
unfolding program
run-plan_from_flows = refl

run-validate_execution :
    validate_execution lenient get_plan (str "http://localhost:3000") default_policy
    ≡ ok (str "http://localhost:3000/items")
unfolding program
run-validate_execution = refl

abbrev pub captured_headers : Headers
captured_headers =
    (str "Connection", str "keep-alive, X-Trace")
    ∷ (str "x-trace", str "1")
    ∷ (str "Accept", str "text/plain")
    ∷ []

run-replay_headers :
    replay_headers lenient captured_headers ≡ ok ((str "Accept", str "text/plain") ∷ [])
unfolding program
run-replay_headers = refl

-- The store writes a message without headers without the empty line that is looked for here.
abbrev bare_request : DecodedMessage
bare_request = record {
  direction = client_to_server;
  start_line = str "GET / HTTP/1.0";
  headers = [];
  body = [];
  truncated = false;
}

run-parse_wire :
    parse_wire (render bare_request) ≡ err (str "captured message has no header/body boundary")
unfolding program
run-parse_wire = refl
