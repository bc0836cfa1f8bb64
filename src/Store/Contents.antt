-- ===== src/Store/Contents.antt =====
-- What the retained flows hold.
use lens.Core.{
  new_observation, FlowId, RunId, Endpoint, Direction, TimestampPair, ObservationEvent,
  ObservationKind, opened, identified, protocol_detected, transferred, bytes_seen, closed, failed,
  client_to_server, server_to_client, closed_flow,
}
use lens.Prelude.{
  ℕ, Bool, List, [], ◌∷◌, Option, none, some, ◌==◌, length, ◌≡◌, refl, ap, All, All-append,
  Bool-cases, inl, inr, arith,
}
use lens.Protocol.{DecodedMessage, DecodeBatch, header_value, summary, render}
use lens.Store.Actor.{
  apply, run, evict, forget, pop_oldest, push_flow, first_decoder, set_decoder, change_flow,
  on_bytes, keep_decoder, drop_decoder, opened_flow, end_flow, flush_decoder,
}
use lens.Redact.Redactor.{redact}
use lens.Store.Decoders
use lens.Store.Decoders.{Parts, ProtocolDecoder, decoder_for}
use lens.Store.Flow.{
  StoredFlow, StoreState, add_bytes, set_identity, set_protocol, set_flow_state, set_failed,
  flow_id_of,
}
use lens.Store.Frame.{update_flow-All}
use lens.Store.Messages
use lens.Store.Messages.{
  StoreActor, store_message, store_messages, store_batch, note_error, add_message, mark_grpc,
  message_change, next_id, retained, plugin_report, envelope_for, latency_of, sensitivity_of,
}
use lens.Store.Shown.{Shows, FlowInv, add_message-FlowInv}
use lens.Store.Table.{get}
use lens.Text.{Bytes, str}
use mathlib.Core.Option

module _ {H : Type 0} (parts : Parts H) (reveal : Bool) where
  abbrev pub ActorInv : StoreActor H → Type 0
  ActorInv a = (a.reveal ≡ reveal) × All (FlowInv parts reveal) a.state.flows

  store_message-ActorInv :
      (a : StoreActor H) (flow_id : FlowId) (t : TimestampPair) (m : DecodedMessage)
      → ActorInv a
      → ActorInv (store_message parts a flow_id t m)
  unfolding store_message
  store_message-ActorInv a flow_id t m h =
      let shown : Shows parts reveal (retained parts a flow_id t m) m = (
        ap (λ r. summary (redact parts.json_secret r m).safe) h.0,
        ap (λ r. render (redact parts.json_secret r m).safe) h.0,
        ap (λ r. sensitivity_of r (redact parts.json_secret r m)) h.0,
        refl,
      ) in
      (
        h.0,
        update_flow-All (FlowInv parts reveal) flow_id (message_change parts a flow_id t m)
            (λ flow k.
              add_message-FlowInv parts reveal (header_value (str "lens-protocol") m.headers)
                (next_id a) (retained parts a flow_id t m)
                (plugin_report parts flow_id (envelope_for parts a flow_id t m) m
                  (latency_of a flow_id t m).1)
                flow (m, shown) refl k)
            a.state.flows h.1,
      )

  store_messages-ActorInv :
      (a : StoreActor H) (flow_id : FlowId) (t : TimestampPair) (ms : List DecodedMessage)
      → ActorInv a
      → ActorInv (store_messages parts a flow_id t ms)
  unfolding store_messages
  store_messages-ActorInv a flow_id t [] h = h
  store_messages-ActorInv a flow_id t (m ∷ ms) h =
      store_messages-ActorInv (store_message parts a flow_id t m) flow_id t ms
        (store_message-ActorInv a flow_id t m h)

  note_error-FlowInv :
      (flow_id : FlowId) (reason : Option Bytes) (s : StoreState)
      → All (FlowInv parts reveal) s.flows
      → All (FlowInv parts reveal) (note_error flow_id reason s).flows
  note_error-FlowInv flow_id none s h = h
  note_error-FlowInv flow_id (some reason) s h =
      update_flow-All (FlowInv parts reveal) flow_id _ (λ flow k. k) s.flows h

  store_batch-ActorInv :
      (a : StoreActor H) (flow_id : FlowId) (t : TimestampPair) (batch : DecodeBatch)
      → ActorInv a
      → ActorInv (store_batch parts a flow_id t batch)
  unfolding store_batch
  store_batch-ActorInv a flow_id t batch h =
      store_messages-ActorInv (record a { state = note_error flow_id batch.desynchronized a.state })
        flow_id t batch.messages (h.0, note_error-FlowInv flow_id batch.desynchronized a.state h.1)

  on_bytes-ActorInv :
      (a : StoreActor H) (flow_id : FlowId) (t : TimestampPair)
      (r : Option (ProtocolDecoder H × DecodeBatch))
      → ActorInv a
      → ActorInv (on_bytes parts a flow_id t r)
  on_bytes-ActorInv a flow_id t none h = h
  on_bytes-ActorInv a flow_id t (some (d, batch)) h =
      store_batch-ActorInv (keep_decoder flow_id d a) flow_id t batch h

  flush_decoder-ActorInv :
      (a : StoreActor H) (flow_id : FlowId) (t : TimestampPair) (d : Option (ProtocolDecoder H))
      → ActorInv a
      → ActorInv (flush_decoder parts a flow_id t d)
  flush_decoder-ActorInv a flow_id t none h = h
  flush_decoder-ActorInv a flow_id t (some d) h =
      let (d', client) = Decoders.finish parts d client_to_server in
      let (d'', server) = Decoders.finish parts d' server_to_client in
      store_batch-ActorInv (store_batch parts (drop_decoder flow_id a) flow_id t client) flow_id t
        server (store_batch-ActorInv (drop_decoder flow_id a) flow_id t client h)

  end_flow-ActorInv :
      (a : StoreActor H) (flow_id : FlowId) (t : TimestampPair)
      → ActorInv a
      → ActorInv (end_flow parts a flow_id t)
  unfolding end_flow
  end_flow-ActorInv a flow_id t h =
      flush_decoder-ActorInv a flow_id t (get (λ f. f == flow_id) a.decoders) h

  forget-ActorInv : (o : Option FlowId) (a : StoreActor H) → ActorInv a → ActorInv (forget o a)
  forget-ActorInv none a h = h
  forget-ActorInv (some flow_id) a h = h

  pop_oldest-ActorInv :
      (a : StoreActor H) (flows : List StoredFlow)
      → ActorInv a
      → All (FlowInv parts reveal) flows
      → ActorInv (pop_oldest a flows)
  pop_oldest-ActorInv a [] h k = h
  pop_oldest-ActorInv a (oldest ∷ flows) h k =
      forget-ActorInv (flow_id_of oldest) (record a { state = record a.state { flows = flows } })
        (h.0, k.1)

  evict-ActorInv : (a : StoreActor H) → ActorInv a → ActorInv (evict a)
  unfolding evict
  evict-ActorInv a h = elim (Bool-cases (length a.state.flows == a.max_flows)) [
    | inl e ↦ rw (e, evict, ActorInv) (pop_oldest-ActorInv a a.state.flows h h.1)
    | inr e ↦ rw (e, evict, ActorInv) h
  ]

  first_decoder-ActorInv :
      (flow_id : FlowId) (d : Option (ProtocolDecoder H)) (a : StoreActor H)
      → ActorInv a
      → ActorInv (first_decoder flow_id d a)
  first_decoder-ActorInv flow_id none a h = h
  first_decoder-ActorInv flow_id (some d) a h = h

  set_decoder-ActorInv :
      (flow_id : FlowId) (d : Option (ProtocolDecoder H)) (a : StoreActor H)
      → ActorInv a
      → ActorInv (set_decoder flow_id d a)
  set_decoder-ActorInv flow_id none a h = h
  set_decoder-ActorInv flow_id (some d) a h = h

  change-ActorInv :
      (flow_id : FlowId) (change : StoredFlow → StoredFlow) (a : StoreActor H)
      → ((flow : StoredFlow) → FlowInv parts reveal flow → FlowInv parts reveal (change flow))
      → ActorInv a
      → ActorInv (change_flow flow_id change a)
  change-ActorInv flow_id change a keeps h =
      (h.0, update_flow-All (FlowInv parts reveal) flow_id change keeps a.state.flows h.1)

  add_bytes-FlowInv :
      (d : Direction) (bytes : ℕ) (flow : StoredFlow)
      → FlowInv parts reveal flow
      → FlowInv parts reveal (add_bytes d bytes flow)
  unfolding add_bytes
  add_bytes-FlowInv client_to_server bytes flow h = h
  add_bytes-FlowInv server_to_client bytes flow h = h

  opened_flow-FlowInv :
      (run_id : RunId) (flow_id : FlowId) (t : TimestampPair) (client upstream : Endpoint)
      (protocol : Option Bytes)
      → FlowInv parts reveal (opened_flow run_id flow_id t client upstream protocol)
  opened_flow-FlowInv run_id flow_id t client upstream none = (tt, refl, omega arith)
  opened_flow-FlowInv run_id flow_id t client upstream (some protocol) = (tt, refl, omega arith)

  kind-ActorInv :
      (a : StoreActor H) (flow_id : FlowId) (t : TimestampPair) (kind : ObservationKind)
      → ActorInv a
      → ActorInv (apply parts a (new_observation flow_id t kind))
  unfolding apply
  kind-ActorInv a flow_id t (bytes_seen direction bytes) h =
      on_bytes-ActorInv a flow_id t
        (Option.map (λ d. Decoders.push parts d direction bytes)
          (get (λ f. f == flow_id) a.decoders))
        h
  kind-ActorInv a flow_id t (opened client upstream protocol) h =
      let flow = opened_flow a.run_id flow_id t client upstream protocol in
      let (same, all) = evict-ActorInv a h in
      first_decoder-ActorInv flow_id (Option.bind protocol (decoder_for parts a.max_body))
        (push_flow flow (evict a))
        (
          same,
          All-append (FlowInv parts reveal) (evict a).state.flows (flow ∷ []) all
              (opened_flow-FlowInv a.run_id flow_id t client upstream protocol, tt),
        )
  kind-ActorInv a flow_id t (identified identity) h =
      change-ActorInv flow_id (set_identity identity) a (λ flow k. k) h
  kind-ActorInv a flow_id t (protocol_detected protocol) h =
      set_decoder-ActorInv flow_id (decoder_for parts a.max_body protocol)
        (change_flow flow_id (set_protocol protocol) a)
        (change-ActorInv flow_id (set_protocol protocol) a (λ flow k. k) h)
  kind-ActorInv a flow_id t (transferred direction bytes) h =
      change-ActorInv flow_id (add_bytes direction bytes) a (add_bytes-FlowInv direction bytes) h
  kind-ActorInv a flow_id t closed h =
      change-ActorInv flow_id (set_flow_state closed_flow) (end_flow parts a flow_id t)
        (λ flow k. k) (end_flow-ActorInv a flow_id t h)
  kind-ActorInv a flow_id t (failed reason) h =
      change-ActorInv flow_id (set_failed reason) (end_flow parts a flow_id t) (λ flow k. k)
        (end_flow-ActorInv a flow_id t h)

  run-ActorInv :
      (a : StoreActor H) (es : List ObservationEvent) → ActorInv a → ActorInv (run parts a es)
  unfolding run
  run-ActorInv a [] h = h
  run-ActorInv a (e ∷ es) h =
      run-ActorInv (apply parts a e) es (kind-ActorInv a e.flow_id e.timestamp e.kind h)

-- Whatever is observed, every retained flow shows of each of its messages what the redactor, with
-- the reveal setting of the store, made of a decoded message, under the sensitivity that this
-- outcome calls for; it lists its messages' identifiers in their order; and it keeps at most 32
-- annotations of plugins.
pub run-FlowInv :
    {H : Type 0} (parts : Parts H) (max_flows run_id max_body : ℕ) (reveal : Bool)
    (es : List ObservationEvent)
    → All
        (FlowInv parts reveal)
        (run parts (Messages.with_inspection max_flows run_id max_body reveal) es).state.flows
run-FlowInv parts max_flows run_id max_body reveal es =
    (run-ActorInv parts reveal (Messages.with_inspection max_flows run_id max_body reveal) es
      (refl, tt)).1
