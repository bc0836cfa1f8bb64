-- ===== src/Store/Actor.antt =====
-- crates/lens-store/src/lib.rs: `StoreActor::apply` and `run`.
use lens.Core.{
  FlowId, RunId, EventSource, new_envelope, with_flow_id, with_timestamps, Endpoint, TimestampPair,
  ObservationEvent, opened, identified, protocol_detected, transferred, bytes_seen, closed, failed,
  closed_flow, new_flow_record, with_protocol, FlowRecord, saturating_add, client_to_server,
  server_to_client,
}
use lens.Prelude.{List, [], ◌∷◌, ◌++◌, Option, none, some, ◌==◌, if◌then◌else◌, length}
use lens.Protocol.{DecodeBatch}
use lens.Store.Decoders
use lens.Store.Decoders.{Parts, ProtocolDecoder, decoder_for}
use lens.Store.Flow.{
  StoredFlow, update_flows, set_identity, set_protocol, set_flow_state, set_failed, add_bytes,
  flow_id_of,
}
use lens.Store.Table.{get, insert, remove}
use lens.Text.{Bytes, str}
use mathlib.Core.Option
use mathlib.Core.Option.{get_or}
use lens.Store.Messages.{StoreActor, store_batch, of_flow}

abbrev pub named : Option Bytes → FlowRecord → FlowRecord
named none r = r
named (some protocol) r = with_protocol protocol r

abbrev pub opened_flow :
    RunId → FlowId → TimestampPair → Endpoint → Endpoint → Option Bytes → StoredFlow
opened_flow run_id flow_id timestamp client upstream protocol = record {
  record_of = named protocol (
      new_flow_record
        (with_timestamps timestamp.mono_nanos timestamp.wall_nanos
          (with_flow_id flow_id (new_envelope (str "flow.opened") run_id EventSource.proxy)))
        client upstream);
  client_to_upstream_bytes = 0;
  upstream_to_client_bytes = 0;
  failure = none;
  decoder_error = none;
  messages = [];
  plugin_annotations = [];
  plugin_failures = 0;
}

module _ {H : Type 0} where
  abbrev pub keep_decoder : FlowId → ProtocolDecoder H → StoreActor H → StoreActor H
  keep_decoder flow_id d a = record a { decoders = insert (λ f. f == flow_id) flow_id d a.decoders }

  abbrev pub drop_decoder : FlowId → StoreActor H → StoreActor H
  drop_decoder flow_id a = record a { decoders = remove (λ f. f == flow_id) a.decoders }

  abbrev pub drop_requests : FlowId → StoreActor H → StoreActor H
  drop_requests flow_id a = record a {
    pending_requests = remove (of_flow flow_id) a.pending_requests;
  }

  -- The decoder for a protocol takes the place of the flow's decoder.
  abbrev pub set_decoder : FlowId → Option (ProtocolDecoder H) → StoreActor H → StoreActor H
  set_decoder flow_id none a = drop_decoder flow_id a
  set_decoder flow_id (some d) a = keep_decoder flow_id d a

  abbrev pub forget : Option FlowId → StoreActor H → StoreActor H
  forget none a = a
  forget (some flow_id) a = drop_requests flow_id (drop_decoder flow_id a)

  -- `pop_front` of the oldest flow
  abbrev pub pop_oldest : StoreActor H → List StoredFlow → StoreActor H
  pop_oldest a [] = a
  pop_oldest a (oldest ∷ flows) =
      forget (flow_id_of oldest) (record a { state = record a.state { flows = flows } })

  unfoldable pub evict : StoreActor H → StoreActor H
  evict a =
      if length a.state.flows == a.max_flows
      then (let popped = pop_oldest a a.state.flows in
          record popped {
            state = record popped.state { evicted = saturating_add popped.state.evicted 1 };
          })
      else a

  -- A flow that opens with no known protocol leaves the decoders as they are.
  abbrev pub first_decoder : FlowId → Option (ProtocolDecoder H) → StoreActor H → StoreActor H
  first_decoder flow_id none a = a
  first_decoder flow_id (some d) a = keep_decoder flow_id d a

  abbrev pub push_flow : StoredFlow → StoreActor H → StoreActor H
  push_flow flow a = record a { state = record a.state { flows = a.state.flows ++ flow ∷ [] } }

  abbrev pub change_flow : FlowId → (StoredFlow → StoredFlow) → StoreActor H → StoreActor H
  change_flow flow_id change a = record a { state = update_flows flow_id change a.state }

module _ {H : Type 0} (parts : Parts H) where
  abbrev pub on_bytes :
      StoreActor H
      → FlowId
      → TimestampPair
      → Option (ProtocolDecoder H × DecodeBatch)
      → StoreActor H
  on_bytes a flow_id timestamp none = a
  on_bytes a flow_id timestamp (some (d, batch)) =
      store_batch parts (keep_decoder flow_id d a) flow_id timestamp batch

  abbrev pub flush_decoder :
      StoreActor H → FlowId → TimestampPair → Option (ProtocolDecoder H) → StoreActor H
  flush_decoder a flow_id timestamp none = a
  flush_decoder a flow_id timestamp (some d) =
      let (d', client) = Decoders.finish parts d client_to_server in
      let (d'', server) = Decoders.finish parts d' server_to_client in
      store_batch parts (store_batch parts (drop_decoder flow_id a) flow_id timestamp client)
        flow_id timestamp server

  -- What `Closed` and `Failed` do before the flow is marked.
  unfoldable pub end_flow : StoreActor H → FlowId → TimestampPair → StoreActor H
  unfolding store_batch Decoders.finish
  end_flow a flow_id timestamp =
      drop_requests flow_id (flush_decoder a flow_id timestamp (get (λ f. f == flow_id) a.decoders))

  unfoldable pub apply : StoreActor H → ObservationEvent → StoreActor H
  unfolding evict end_flow store_batch Decoders.push decoder_for add_bytes Option.bind
  apply a e = elim e.kind [
    | bytes_seen direction bytes ↦ on_bytes a e.flow_id e.timestamp (
        Option.map (λ d. Decoders.push parts d direction bytes)
          (get (λ f. f == e.flow_id) a.decoders))
    | opened client upstream protocol ↦
        first_decoder e.flow_id (Option.bind protocol (decoder_for parts a.max_body)) (
          push_flow (opened_flow a.run_id e.flow_id e.timestamp client upstream protocol) (evict a))
    | identified identity ↦ change_flow e.flow_id (set_identity identity) a
    | protocol_detected protocol ↦
        set_decoder e.flow_id (decoder_for parts a.max_body protocol)
          (change_flow e.flow_id (set_protocol protocol) a)
    | transferred direction bytes ↦ change_flow e.flow_id (add_bytes direction bytes) a
    | closed ↦ change_flow e.flow_id (set_flow_state closed_flow) (end_flow a e.flow_id e.timestamp)
    | failed reason ↦ change_flow e.flow_id (set_failed reason) (end_flow a e.flow_id e.timestamp)
  ]

  -- `run`: the observations that are received until every sender is dropped
  unfoldable pub run : StoreActor H → List ObservationEvent → StoreActor H
  unfolding apply
  run a [] = a
  run a (e ∷ es) = run (apply a e) es
