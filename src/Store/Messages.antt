-- ===== src/Store/Messages.antt =====
-- crates/lens-store/src/lib.rs: `StoreActor` and `store_batch`. A step of the actor holds the store's lock for
-- writing, and it is the only writer, so the steps are functions on the state. `with_inspection`
-- asserts that `max_flows` and `max_body` are positive.
use lens.Core.{
  FlowId, RunId, MessageId, Sensitivity, public, redacted, secret, EventSource, EventEnvelope,
  new_envelope, with_flow_id, with_message_id, with_direction, with_timestamps, with_sensitivity,
  TimestampPair, push_message_id, MessageRecord, new_message, with_truncated, with_latency_nanos,
  saturating_add,
}
use lens.Prelude.{
  ℕ, ◌-◌, Bool, false, ◌&&◌, List, [], ◌∷◌, ◌++◌, Option, none, some, ◌==◌, if◌then◌else◌,
}
use lens.Protocol.{DecodedMessage, DecodeBatch, header_value, summary, render}
use lens.Redact.Redactor.{RedactionOutcome, redact}
use lens.Store.Decoders.{Parts, ProtocolDecoder}
use lens.Store.Flow.{
  StoredFlow, StoreState, PluginRunReport, empty_store, update_flows, set_protocol, add_report,
}
use lens.Store.Json.{plugin_event_json}
use lens.Store.Table.{get, insert}
use lens.Text.{Bytes, str, eq_bytes}
use mathlib.Core.Option
use mathlib.Core.Option.{get_or}

-- The times of the requests of a flow's stream that no response answered yet, the oldest first.
abbrev pub Pending : Type 0
Pending = List ((FlowId × Bytes) × List ℕ)

pub record StoreActor (H : Type 0) : Type 0 where
  pub state : StoreState
  pub max_flows : ℕ
  pub run_id : RunId
  pub max_body : ℕ
  pub reveal : Bool
  pub decoders : List (FlowId × ProtocolDecoder H)
  pub pending_requests : Pending

abbrev pub with_inspection : {H : Type 0} → ℕ → RunId → ℕ → Bool → StoreActor H
with_inspection max_flows run_id max_body reveal = record {
  state = empty_store;
  max_flows = max_flows;
  run_id = run_id;
  max_body = max_body;
  reveal = reveal;
  decoders = [];
  pending_requests = [];
}

abbrev pub new : {H : Type 0} → ℕ → RunId → StoreActor H
new max_flows run_id = with_inspection max_flows run_id 262_144 false

abbrev pub same_key : FlowId × Bytes → FlowId × Bytes → Bool
same_key (flow_id, stream_id) (f, s) = f == flow_id && eq_bytes s stream_id

abbrev pub of_flow : FlowId → FlowId × Bytes → Bool
of_flow flow_id (f, s) = f == flow_id

unfoldable pub start_request : FlowId × Bytes → ℕ → Pending → Pending
unfolding eq_bytes
start_request key mono pending =
    insert (same_key key) key (get_or (get (same_key key) pending) [] ++ mono ∷ []) pending

abbrev pub take_request : FlowId × Bytes → ℕ → Pending → Option (List ℕ) → Pending × Option ℕ
take_request key mono pending none = (pending, none)
take_request key mono pending (some []) = (pending, none)
take_request key mono pending (some (started ∷ later)) =
    (insert (same_key key) key later pending, some (mono - started))

-- `latency_nanos`, by the message's boundary
unfoldable pub track_latency : Option Bytes → FlowId × Bytes → ℕ → Pending → Pending × Option ℕ
unfolding start_request eq_bytes
track_latency none key mono pending = (pending, none)
track_latency (some boundary) key mono pending =
    if eq_bytes boundary (str "request")
    then (start_request key mono pending, none)
    else if eq_bytes boundary (str "response")
    then take_request key mono pending (get (same_key key) pending)
    else (pending, none)

abbrev pub stream_key : FlowId → DecodedMessage → FlowId × Bytes
stream_key flow_id m = (flow_id, get_or (header_value (str "lens-stream-id") m.headers) [])

abbrev pub sensitivity_of : Bool → RedactionOutcome → Sensitivity
sensitivity_of reveal outcome =
    if reveal then secret else if outcome.was_redacted then redacted else public

abbrev pub record_message : EventEnvelope → RedactionOutcome → Bool → Option ℕ → MessageRecord
record_message envelope outcome truncated latency =
    with_latency_nanos latency
      (with_truncated truncated (new_message envelope (summary outcome.safe) (render outcome.safe)))

abbrev pub message_envelope :
    RunId → FlowId → MessageId → TimestampPair → DecodedMessage → EventEnvelope
message_envelope run_id flow_id message_id timestamp m =
    with_timestamps timestamp.mono_nanos timestamp.wall_nanos (
      with_direction m.direction (
        with_message_id message_id
          (with_flow_id flow_id (new_envelope (str "message.decoded") run_id EventSource.decoder))))

abbrev pub mark_grpc : Option Bytes → StoredFlow → StoredFlow
mark_grpc none flow = flow
mark_grpc (some protocol) flow =
    if eq_bytes protocol (str "grpc") then set_protocol (str "grpc") flow else flow

-- What a message changes of its flow.
unfoldable pub add_message :
    Option Bytes → MessageId → MessageRecord → Option PluginRunReport → StoredFlow → StoredFlow
unfolding eq_bytes add_report
add_message protocol message_id message report flow =
    let marked = mark_grpc protocol flow in
    add_report report (record marked {
      record_of = push_message_id message_id marked.record_of;
      messages = marked.messages ++ message ∷ [];
    })

abbrev pub note_error : FlowId → Option Bytes → StoreState → StoreState
note_error flow_id none s = s
note_error flow_id (some reason) s =
    update_flows flow_id (λ flow. record flow { decoder_error = some reason }) s

module _ {H : Type 0} where
  abbrev pub latency_of :
      StoreActor H → FlowId → TimestampPair → DecodedMessage → Pending × Option ℕ
  latency_of a flow_id timestamp m =
      track_latency (header_value (str "lens-boundary") m.headers) (stream_key flow_id m)
        timestamp.mono_nanos a.pending_requests

  abbrev pub next_id : StoreActor H → MessageId
  next_id a = saturating_add a.state.next_message_id 1

module _ {H : Type 0} (parts : Parts H) where
  -- The report of the plugins, which are given what the redactor that never reveals makes of the
  -- message.
  unfoldable pub plugin_report :
      FlowId → EventEnvelope → DecodedMessage → Option ℕ → Option PluginRunReport
  unfolding plugin_event_json render
  plugin_report flow_id envelope m latency =
      Option.map
        (λ process.
          let outcome = redact parts.json_secret false m in
          process (
            plugin_event_json flow_id (
              record_message (with_sensitivity (sensitivity_of false outcome) envelope) outcome
                m.truncated latency)))
        parts.process

  abbrev pub envelope_for : StoreActor H → FlowId → TimestampPair → DecodedMessage → EventEnvelope
  envelope_for a flow_id timestamp m =
      with_sensitivity (sensitivity_of a.reveal (redact parts.json_secret a.reveal m))
        (message_envelope a.run_id flow_id (next_id a) timestamp m)

  -- The message as it is retained.
  abbrev pub retained : StoreActor H → FlowId → TimestampPair → DecodedMessage → MessageRecord
  retained a flow_id timestamp m =
      record_message (envelope_for a flow_id timestamp m) (redact parts.json_secret a.reveal m)
        m.truncated (latency_of a flow_id timestamp m).1

  abbrev pub message_change :
      StoreActor H → FlowId → TimestampPair → DecodedMessage → StoredFlow → StoredFlow
  message_change a flow_id timestamp m =
      add_message (header_value (str "lens-protocol") m.headers) (next_id a)
        (retained a flow_id timestamp m)
        (plugin_report flow_id (envelope_for a flow_id timestamp m) m
          (latency_of a flow_id timestamp m).1)

  unfoldable pub store_message :
      StoreActor H → FlowId → TimestampPair → DecodedMessage → StoreActor H
  unfolding track_latency header_value add_message plugin_report render
  store_message a flow_id timestamp m = record a {
    pending_requests = (latency_of a flow_id timestamp m).0;
    state =
        update_flows flow_id (message_change a flow_id timestamp m)
          (record a.state { next_message_id = next_id a });
  }

  unfoldable pub store_messages :
      StoreActor H → FlowId → TimestampPair → List DecodedMessage → StoreActor H
  unfolding store_message
  store_messages a flow_id timestamp [] = a
  store_messages a flow_id timestamp (m ∷ ms) =
      store_messages (store_message a flow_id timestamp m) flow_id timestamp ms

  unfoldable pub store_batch : StoreActor H → FlowId → TimestampPair → DecodeBatch → StoreActor H
  unfolding store_messages
  store_batch a flow_id timestamp batch =
      store_messages (record a { state = note_error flow_id batch.desynchronized a.state }) flow_id
        timestamp batch.messages
