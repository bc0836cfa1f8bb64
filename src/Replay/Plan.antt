-- ===== src/Replay/Plan.antt =====
-- crates/lens-replay/src/lib.rs: from the flows of a capture to a plan, and the comparison of bodies.
use lens.Prelude.{
  ℕ, ◌*◌, ◌-◌, Bool, true, false, not, ◌||◌, List, [], ◌∷◌, ◌++◌, Option, none, some, if◌then◌else◌,
  leb, ltb, ◌==◌, length, get_elem?, find?,
}
use lens.Replay.Guard.{ReplayPlan, CapturedResponse, contains, is_http}
use lens.Replay.Packages.{Packages, Uri}
use lens.Replay.Wire.{parse_wire, replay_headers}
use lens.Text.{Bytes, str, eq_bytes, starts_with}
use lens.Text.Number.{show, parse_unsigned}
use lens.Text.Result.{Result, ok, err, ◌>>=◌, ◌>>◌, refuse_if}
use lens.Text.Words.{find_bytes, split_whitespace}

-- Of the structs below, with the defaults that serde fills in.
pub record CaptureMessage : Type 0 where
  pub direction : Option Bytes
  pub summary : Bytes
  pub body : Bytes
  pub wire_base64 : Option Bytes
  pub truncated : Bool
  pub sensitivity : Bytes

pub record CaptureFlow : Type 0 where
  pub flow_id : ℕ
  pub protocol : Option Bytes
  pub messages : List CaptureMessage

pub record ReplaySelection : Type 0 where
  pub flow_id : Option ℕ
  pub request : ℕ

abbrev pub max_replay_body_bytes : ℕ
max_replay_body_bytes = 1024 * 1024

abbrev pub is_text : Bytes → Option Bytes → Bool
is_text wanted none = false
is_text wanted (some text) = eq_bytes text wanted

unfoldable pub with_direction : Bytes → List CaptureMessage → List CaptureMessage
unfolding eq_bytes
with_direction wanted [] = []
with_direction wanted (m ∷ ms) =
    let rest = with_direction wanted ms in if is_text wanted m.direction then m ∷ rest else rest

unfoldable pub http_flows : List CaptureFlow → List CaptureFlow
unfolding eq_bytes str
http_flows [] = []
http_flows (flow ∷ flows) =
    let rest = http_flows flows in if is_text (str "http1") flow.protocol then flow ∷ rest else rest

abbrev pub found_flow : ℕ → Option CaptureFlow → Result CaptureFlow
found_flow flow_id none = err (str "HTTP flow " ++ (show flow_id ++ str " was not found"))
found_flow flow_id (some flow) = ok flow

abbrev pub only_flow : List CaptureFlow → Result CaptureFlow
only_flow [] = err (str "capture contains no HTTP/1 flows")
only_flow (flow ∷ []) = ok flow
only_flow _ = err (str "capture contains multiple HTTP/1 flows; select one with --flow")

abbrev pub select_flow : Option ℕ → List CaptureFlow → Result CaptureFlow
select_flow none candidates = only_flow candidates
select_flow (some flow_id) candidates =
    found_flow flow_id (find? (λ (flow : CaptureFlow). flow.flow_id == flow_id) candidates)

abbrev pub status_of_words : List Bytes → Option ℕ
status_of_words (version ∷ status ∷ words) =
    if starts_with version (str "HTTP/1.") then parse_unsigned 65535 status else none
status_of_words _ = none

unfoldable pub status_from_line : Bytes → Option ℕ
unfolding split_whitespace parse_unsigned starts_with str
status_from_line summary = status_of_words (split_whitespace summary)

abbrev pub is_terminal : Option ℕ → Bool
is_terminal none = false
is_terminal (some status) = leb 200 status || status == 101

unfoldable pub terminal : List CaptureMessage → List CaptureMessage
unfolding status_from_line
terminal [] = []
terminal (m ∷ ms) =
    let rest = terminal ms in if is_terminal (status_from_line m.summary) then m ∷ rest else rest

abbrev pub terminal_responses : CaptureFlow → List CaptureMessage
terminal_responses flow = terminal (with_direction (str "server_to_client") flow.messages)

abbrev pub replacement_text : Bytes
replacement_text = str "[REDACTED]"

abbrev pub invalid_target : Bytes
invalid_target = str "captured request is not an origin-form or absolute-form HTTP request"

abbrev pub status_or_refuse : Option ℕ → Result ℕ
status_or_refuse none = err (str "captured response has an invalid status line")
status_or_refuse (some status) = ok status

module _ (packages : Packages) where
  abbrev pub decode_wire_of : Bytes → Option Bytes → Result (Bytes × Bool)
  decode_wire_of body none = ok (body, true)
  decode_wire_of body (some encoded) = do bytes ← packages.decode_base64 encoded; ok (bytes, false)

  abbrev pub decode_wire : CaptureMessage → Result (Bytes × Bool)
  decode_wire m = decode_wire_of m.body m.wire_base64

  abbrev pub path_of_uri : Option Uri → Result Bytes
  path_of_uri none = err (str "captured request target is invalid")
  path_of_uri (some uri) = do
    refuse_if (not (is_http uri.scheme)) invalid_target
    refuse_if (elim uri.authority [ none ↦ true | some text ↦ false ]) invalid_target
    elim uri.path_and_query [
      | none ↦ err (str "captured request has no path")
      | some path ↦ ok path
    ]

  abbrev pub path_of_target : Bytes → Result Bytes
  path_of_target target =
      if starts_with target (str "/") then ok target else path_of_uri (packages.parse_uri target)

  abbrev pub request_of_words : List Bytes → Result (Bytes × Bytes)
  request_of_words (method ∷ target ∷ version ∷ []) = do
    refuse_if (not (starts_with version (str "HTTP/1."))) (str "captured request line is invalid")
    refuse_if (not (packages.is_method method)) (str "captured HTTP method is invalid")
    path ← path_of_target target
    refuse_if (not (starts_with path (str "/"))) invalid_target
    ok (method, path)
  request_of_words _ = err (str "captured request line is invalid")

  unfoldable pub parse_request_line : Bytes → Result (Bytes × Bytes)
  unfolding split_whitespace starts_with eq_bytes str
  parse_request_line summary = request_of_words (split_whitespace summary)

  unfoldable pub captured_response : CaptureMessage → Result CapturedResponse
  unfolding status_from_line parse_wire find_bytes eq_bytes str
  captured_response m = do
    status ← status_or_refuse (status_from_line m.summary)
    (wire, legacy) ← decode_wire m
    (headers, body) ← parse_wire wire
    ok (record {
      status = status;
      body = body;
      truncated = m.truncated;
      was_redacted = eq_bytes m.sensitivity (str "redacted") || contains wire replacement_text;
      legacy_text_encoding = legacy;
    })

  abbrev pub response_of : Option CaptureMessage → Result (Option CapturedResponse)
  response_of none = ok none
  response_of (some m) = do response ← captured_response m; ok (some response)

  abbrev pub missing_request : CaptureFlow → ℕ → ℕ → Bytes
  missing_request flow requests index =
      str "HTTP flow "
      ++ (show flow.flow_id
          ++ (str " has "
              ++ (show requests
                  ++ (str " request(s); request " ++ (show index ++ str " does not exist")))))

  abbrev pub request_or_refuse : Bytes → Option CaptureMessage → Result CaptureMessage
  request_or_refuse reason none = err reason
  request_or_refuse reason (some m) = ok m

  unfoldable pub plan_from_flow : CaptureFlow → ℕ → Result ReplayPlan
  unfolding parse_request_line captured_response parse_wire replay_headers with_direction terminal
      eq_bytes find_bytes
  plan_from_flow flow request_index = do
    refuse_if (request_index == 0) (str "request index must be at least 1")
    let requests = with_direction (str "client_to_server") flow.messages
    request ←
        request_or_refuse (missing_request flow (length requests) request_index)
          (get_elem? requests (request_index - 1))
    (method, path_and_query) ← parse_request_line request.summary
    (wire, legacy) ← decode_wire request
    (all_headers, body) ← parse_wire wire
    refuse_if (ltb max_replay_body_bytes (length body))
        (str "captured request body exceeds the 1 MiB replay limit")
    headers ← replay_headers packages all_headers
    response ← response_of (get_elem? (terminal_responses flow) (request_index - 1))
    ok (record {
      flow_id = flow.flow_id;
      request = request_index;
      method = method;
      path_and_query = path_and_query;
      headers = headers;
      body = body;
      truncated = request.truncated;
      sensitivity = request.sensitivity;
      was_redacted =
          eq_bytes request.sensitivity (str "redacted")
          || contains request.summary replacement_text
          || contains wire replacement_text;
      legacy_text_encoding = legacy;
      captured_response = response;
    })

  -- `parse_plan`, behind `parse_flows`.
  unfoldable pub plan_from_flows : List CaptureFlow → ReplaySelection → Result ReplayPlan
  unfolding plan_from_flow http_flows
  plan_from_flows flows selection = do
    flow ← select_flow selection.flow_id (http_flows flows)
    plan_from_flow flow selection.request

pub data MatchState : Type 0 where
  matching : MatchState
  different : MatchState
  unavailable : Bytes → MatchState

abbrev pub compare_response : CapturedResponse → Bytes → Bool → MatchState
compare_response captured replayed replayed_truncated =
    if captured.truncated || replayed_truncated
    then unavailable (str "a response body is truncated")
    else if captured.was_redacted
    then unavailable (str "captured response is redacted")
    else if captured.legacy_text_encoding
    then unavailable (str "capture uses legacy text encoding")
    else if eq_bytes captured.body replayed
    then matching
    else different

unfoldable pub compare_body : Option CapturedResponse → Bytes → Bool → MatchState
unfolding eq_bytes
compare_body none replayed replayed_truncated = unavailable (str "capture has no terminal response")
compare_body (some captured) replayed replayed_truncated =
    compare_response captured replayed replayed_truncated
