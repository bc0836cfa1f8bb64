-- ===== src/Core/Event.antt =====
-- crates/lens-core/src/lib.rs: identifiers, classifications and `EventEnvelope`.
use lens.Prelude.{ℕ, Bool, true, false, Option, none, some, ◌++◌, ◌∷◌}
use lens.Text.{Bytes, str}
use lens.Text.Number.{show}

-- The identifiers are `u64` newtypes whose `new` and `get` are the identity.
abbrev pub SessionId : Type 0
SessionId = ℕ

abbrev pub FlowId : Type 0
FlowId = ℕ

abbrev pub MessageId : Type 0
MessageId = ℕ

abbrev pub RunId : Type 0
RunId = ℕ

pub record SchemaVersion : Type 0 where
  pub major : ℕ
  pub minor : ℕ

abbrev pub current : SchemaVersion
current = record { major = 0; minor = 1 }

pub schema_text : SchemaVersion → Bytes
schema_text v = show v.major ++ (b'.' ∷ show v.minor)

pub data Direction : Type 0 where
  client_to_server server_to_client : Direction

-- The derived `==` of `Direction`
unfoldable pub same_direction : Direction → Direction → Bool
same_direction client_to_server client_to_server = true
same_direction server_to_client server_to_client = true
same_direction _ _ = false

abbrev pub opposite : Direction → Direction
opposite client_to_server = server_to_client
opposite server_to_client = client_to_server

unfoldable pub direction_text : Direction → Bytes
direction_text client_to_server = str "client_to_server"
direction_text server_to_client = str "server_to_client"

pub data Severity : Type 0 where
  info warning error : Severity

pub severity_text : Severity → Bytes
severity_text info = str "info"
severity_text warning = str "warning"
severity_text error = str "error"

pub data Sensitivity : Type 0 where
  public redacted secret : Sensitivity

unfoldable pub sensitivity_text : Sensitivity → Bytes
sensitivity_text public = str "public"
sensitivity_text redacted = str "redacted"
sensitivity_text secret = str "secret"

pub data EventSource : Type 0 where
  proxy tls decoder store ui cli plugin benchmark : EventSource

pub source_text : EventSource → Bytes
source_text proxy = str "proxy"
source_text tls = str "tls"
source_text decoder = str "decoder"
source_text store = str "store"
source_text ui = str "ui"
source_text cli = str "cli"
source_text plugin = str "plugin"
source_text benchmark = str "benchmark"

pub record EventEnvelope : Type 0 where
  pub event_type : Bytes
  pub schema_version : SchemaVersion
  pub run_id : RunId
  pub session_id : Option SessionId
  pub flow_id : Option FlowId
  pub message_id : Option MessageId
  pub direction : Option Direction
  pub ts_mono_nanos : ℕ
  pub ts_wall_nanos : ℕ
  pub source : EventSource
  pub severity : Severity
  pub sensitivity : Sensitivity

abbrev pub new_envelope : Bytes → RunId → EventSource → EventEnvelope
new_envelope event_type run_id source = record {
  event_type = event_type;
  schema_version = current;
  run_id = run_id;
  session_id = none;
  flow_id = none;
  message_id = none;
  direction = none;
  ts_mono_nanos = 0;
  ts_wall_nanos = 0;
  source = source;
  severity = info;
  sensitivity = public;
}

abbrev pub with_session_id : SessionId → EventEnvelope → EventEnvelope
with_session_id id e = record e { session_id = some id }

abbrev pub with_flow_id : FlowId → EventEnvelope → EventEnvelope
with_flow_id id e = record e { flow_id = some id }

abbrev pub with_message_id : MessageId → EventEnvelope → EventEnvelope
with_message_id id e = record e { message_id = some id }

abbrev pub with_direction : Direction → EventEnvelope → EventEnvelope
with_direction d e = record e { direction = some d }

abbrev pub with_timestamps : ℕ → ℕ → EventEnvelope → EventEnvelope
with_timestamps mono wall e = record e { ts_mono_nanos = mono; ts_wall_nanos = wall }

abbrev pub with_severity : Severity → EventEnvelope → EventEnvelope
with_severity s e = record e { severity = s }

abbrev pub with_sensitivity : Sensitivity → EventEnvelope → EventEnvelope
with_sensitivity s e = record e { sensitivity = s }

abbrev pub default_envelope : EventEnvelope
default_envelope = new_envelope (str "event.unknown") 0 cli
