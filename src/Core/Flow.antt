-- ===== src/Core/Flow.antt =====
-- crates/lens-core/src/lib.rs: endpoints, observations, flow and message records.
use lens.Prelude.{ℕ, Bool, true, false, Option, none, some, List, ◌++◌, [], ◌∷◌}
use lens.Core.Event.{FlowId, MessageId, Direction, EventEnvelope}
use lens.Text.{Bytes, str}
use lens.Text.Number.{show}
use mathlib.Core.Option.{get_or}

pub record Endpoint : Type 0 where
  pub host : Bytes
  pub port : ℕ

unfoldable pub endpoint_text : Endpoint → Bytes
endpoint_text e = e.host ++ (b':' ∷ show e.port)

pub record TimestampPair : Type 0 where
  pub mono_nanos : ℕ
  pub wall_nanos : ℕ

pub timestamp_text : TimestampPair → Bytes
timestamp_text t =
    str "mono=" ++ (show t.mono_nanos ++ (str "ns wall=" ++ (show t.wall_nanos ++ str "ns")))

pub record ServiceIdentity : Type 0 where
  pub pid : Option ℕ
  pub process : Option Bytes
  pub service : Option Bytes
  pub container : Option Bytes

abbrev pub new_identity : ServiceIdentity
new_identity = record { pid = none; process = none; service = none; container = none }

abbrev pub with_pid : ℕ → ServiceIdentity → ServiceIdentity
with_pid pid i = record i { pid = some pid }

abbrev pub with_process : Bytes → ServiceIdentity → ServiceIdentity
with_process process i = record i { process = some process }

abbrev pub with_service : Bytes → ServiceIdentity → ServiceIdentity
with_service service i = record i { service = some service }

abbrev pub with_container : Bytes → ServiceIdentity → ServiceIdentity
with_container container i = record i { container = some container }

-- `Option::or`
abbrev or_else {ℓ} : {A : Type ℓ} → Option A → Option A → Option A
or_else (some a) o = some a
or_else none o = o

unfoldable pub display_name : ServiceIdentity → Bytes
display_name i = get_or (or_else i.service i.process) (str "unknown")

pub data ObservationKind : Type 0 where
  opened : Endpoint → Endpoint → Option Bytes → ObservationKind
  identified : ServiceIdentity → ObservationKind
  protocol_detected : Bytes → ObservationKind
  transferred : Direction → ℕ → ObservationKind
  bytes_seen : Direction → Bytes → ObservationKind
  closed : ObservationKind
  failed : Bytes → ObservationKind

pub record ObservationEvent : Type 0 where
  pub flow_id : FlowId
  pub timestamp : TimestampPair
  pub kind : ObservationKind

abbrev pub new_observation : FlowId → TimestampPair → ObservationKind → ObservationEvent
new_observation flow_id timestamp kind = record {
  flow_id = flow_id;
  timestamp = timestamp;
  kind = kind;
}

pub data FlowState : Type 0 where
  open_flow closed_flow failed_flow : FlowState

-- The derived `==` of `FlowState`
unfoldable pub same_state : FlowState → FlowState → Bool
same_state open_flow open_flow = true
same_state closed_flow closed_flow = true
same_state failed_flow failed_flow = true
same_state _ _ = false

unfoldable pub flow_state_text : FlowState → Bytes
flow_state_text open_flow = str "open"
flow_state_text closed_flow = str "closed"
flow_state_text failed_flow = str "failed"

pub record FlowRecord : Type 0 where
  pub envelope : EventEnvelope
  pub client : Endpoint
  pub upstream : Endpoint
  pub identity : Option ServiceIdentity
  pub protocol : Option Bytes
  pub state : FlowState
  pub message_ids : List MessageId

abbrev pub new_flow_record : EventEnvelope → Endpoint → Endpoint → FlowRecord
new_flow_record envelope client upstream = record {
  envelope = envelope;
  client = client;
  upstream = upstream;
  identity = none;
  protocol = none;
  state = open_flow;
  message_ids = [];
}

abbrev pub with_protocol : Bytes → FlowRecord → FlowRecord
with_protocol protocol r = record r { protocol = some protocol }

abbrev pub with_identity : ServiceIdentity → FlowRecord → FlowRecord
with_identity identity r = record r { identity = some identity }

abbrev pub with_state : FlowState → FlowRecord → FlowRecord
with_state state r = record r { state = state }

abbrev pub push_message_id : MessageId → FlowRecord → FlowRecord
push_message_id id r = record r { message_ids = r.message_ids ++ id ∷ [] }

pub record MessageRecord : Type 0 where
  pub envelope : EventEnvelope
  pub summary : Bytes
  pub body : Bytes
  pub truncated : Bool
  pub latency_nanos : Option ℕ

abbrev pub new_message : EventEnvelope → Bytes → Bytes → MessageRecord
new_message envelope summary body = record {
  envelope = envelope;
  summary = summary;
  body = body;
  truncated = false;
  latency_nanos = none;
}

abbrev pub with_truncated : Bool → MessageRecord → MessageRecord
with_truncated truncated m = record m { truncated = truncated }

abbrev pub with_latency_nanos : Option ℕ → MessageRecord → MessageRecord
with_latency_nanos latency m = record m { latency_nanos = latency }
