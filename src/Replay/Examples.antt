-- ===== src/Replay/Examples.antt =====
-- The properties of replays, applied to concrete plans and headers.
use lens.Prelude.{◌≡◌, ◌↔◌, false, some, [], ◌∷◌}
use lens.Protocol.{Headers}
use lens.Replay.Guard.{CapturedResponse, validate_execution, default_policy}
use lens.Replay.Kept.{Sent, replay_headers_iff}
use lens.Replay.Permitted.{Permitted, validate_execution_iff, SameBody, compare_body_iff}
use lens.Replay.Plan.{compare_body, matching}
use lens.Replay.Tests.{lenient, get_plan, captured_headers}
use lens.Replay.Wire.{replay_headers}
use lens.Text.{str}
use lens.Text.Result.{ok}

validate_execution_iff_example :
    (validate_execution lenient get_plan (str "http://localhost:3000") default_policy
      ≡ ok (str "http://localhost:3000/items"))
    ↔ Permitted lenient get_plan
        (str "http://localhost:3000")
        default_policy
        (str "http://localhost:3000/items")
validate_execution_iff_example =
    validate_execution_iff lenient get_plan (str "http://localhost:3000") default_policy
      (str "http://localhost:3000/items")

abbrev kept_headers : Headers
kept_headers = (str "Accept", str "text/plain") ∷ []

replay_headers_iff_example :
    (replay_headers lenient captured_headers ≡ ok kept_headers)
    ↔ Sent lenient captured_headers captured_headers kept_headers
replay_headers_iff_example = replay_headers_iff lenient captured_headers kept_headers

abbrev response : CapturedResponse
response = record {
  status = 200;
  body = str "ok";
  truncated = false;
  was_redacted = false;
  legacy_text_encoding = false;
}

compare_body_iff_example :
    (compare_body (some response) (str "ok") false ≡ matching)
    ↔ SameBody (some response) (str "ok") false
compare_body_iff_example = compare_body_iff (some response) (str "ok") false
