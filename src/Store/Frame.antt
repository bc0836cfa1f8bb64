-- ===== src/Store/Frame.antt =====
-- What the messages and the end of a flow leave of the store as it was.
use lens.Core.{FlowId, MessageId, MessageRecord, TimestampPair, client_to_server, server_to_client}
use lens.Prelude.{
  List, [], ◌∷◌, Option, none, some, ◌==◌, map, ◌≡◌, refl, ap, ◌∙◌, All, Bool-cases, inl, inr,
}
use lens.Protocol.{DecodedMessage, DecodeBatch, header_value}
use lens.Store.Actor.{end_flow, flush_decoder, drop_decoder}
use lens.Store.Decoders
use lens.Store.Decoders.{Parts, ProtocolDecoder}
use lens.Store.Flow.{
  StoredFlow, StoreState, PluginRunReport, update_flow, flow_id_of, is_some_id, add_report,
}
use lens.Store.Messages.{
  StoreActor, store_message, store_messages, store_batch, note_error, add_message, mark_grpc,
  message_change, next_id, retained, plugin_report, envelope_for, latency_of,
}
use lens.Store.Table.{get}
use lens.Text.{Bytes, str, eq_bytes}

-- The flow that `update_flow` changes has the property still, and so have all.
pub update_flow-All {ℓ} :
    (P : StoredFlow → Type ℓ) (flow_id : FlowId) (change : StoredFlow → StoredFlow)
    → ((flow : StoredFlow) → P flow → P (change flow))
    → (flows : List StoredFlow) → All P flows
    → All P (update_flow flow_id change flows)
unfolding update_flow
update_flow-All P flow_id change keeps [] h = tt
update_flow-All P flow_id change keeps (flow ∷ flows) h =
    elim (Bool-cases (is_some_id flow_id (flow_id_of flow))) [
      | inl e ↦ rw (e, update_flow) (keeps flow h.0, h.1)
      | inr e ↦ rw (e, update_flow) (h.0, update_flow-All P flow_id change keeps flows h.1)
    ]

pub update_flow-ids :
    (flow_id : FlowId) (change : StoredFlow → StoredFlow)
    → ((flow : StoredFlow) → flow_id_of (change flow) ≡ flow_id_of flow)
    → (flows : List StoredFlow)
    → map flow_id_of (update_flow flow_id change flows) ≡ map flow_id_of flows
unfolding update_flow
update_flow-ids flow_id change keeps [] = refl
update_flow-ids flow_id change keeps (flow ∷ flows) =
    elim (Bool-cases (is_some_id flow_id (flow_id_of flow))) [
      | inl e ↦ rw (e, update_flow) (ap (◌∷ map flow_id_of flows) (keeps flow))
      | inr e ↦
          rw (e, update_flow) (ap (flow_id_of flow ∷◌) (update_flow-ids flow_id change keeps flows))
    ]

add_report-id :
    (report : Option PluginRunReport) (flow : StoredFlow)
    → flow_id_of (add_report report flow) ≡ flow_id_of flow
unfolding add_report
add_report-id none flow = refl
add_report-id (some report) flow = refl

mark_grpc-id :
    (protocol : Option Bytes) (flow : StoredFlow)
    → flow_id_of (mark_grpc protocol flow) ≡ flow_id_of flow
mark_grpc-id none flow = refl
mark_grpc-id (some protocol) flow = elim (Bool-cases (eq_bytes protocol (str "grpc"))) [
  | inl e ↦ rw (e, mark_grpc) refl
  | inr e ↦ rw (e, mark_grpc) refl
]

pub add_message-id :
    (protocol : Option Bytes) (id : MessageId) (m : MessageRecord) (report : Option PluginRunReport)
    (flow : StoredFlow)
    → flow_id_of (add_message protocol id m report flow) ≡ flow_id_of flow
unfolding add_message
add_message-id protocol id m report flow = add_report-id report _ ∙ mark_grpc-id protocol flow

module _ {H : Type 0} where
  -- The second actor differs from the first one only in what its flows hold, in the requests
  -- that wait, and in the identifier of the next message.
  abbrev pub Framed : StoreActor H → StoreActor H → Type 0
  Framed a a' =
      (map flow_id_of a'.state.flows ≡ map flow_id_of a.state.flows)
      × (a'.state.evicted ≡ a.state.evicted)
      × (a'.max_flows ≡ a.max_flows)
      × (a'.reveal ≡ a.reveal)

  pub Framed-trans : (a b c : StoreActor H) → Framed a b → Framed b c → Framed a c
  Framed-trans a b c h k = (k.0 ∙ h.0, k.1 ∙ h.1, k.2 ∙ h.2, k.3 ∙ h.3)

module _ {H : Type 0} (parts : Parts H) where
  store_message-Framed :
      (a : StoreActor H) (flow_id : FlowId) (t : TimestampPair) (m : DecodedMessage)
      → Framed a (store_message parts a flow_id t m)
  unfolding store_message
  store_message-Framed a flow_id t m = (
    update_flow-ids flow_id (message_change parts a flow_id t m)
        (add_message-id (header_value (str "lens-protocol") m.headers) (next_id a)
          (retained parts a flow_id t m)
          (plugin_report parts flow_id (envelope_for parts a flow_id t m) m
            (latency_of a flow_id t m).1))
        a.state.flows,
    refl,
    refl,
    refl,
  )

  store_messages-Framed :
      (a : StoreActor H) (flow_id : FlowId) (t : TimestampPair) (ms : List DecodedMessage)
      → Framed a (store_messages parts a flow_id t ms)
  unfolding store_messages
  store_messages-Framed a flow_id t [] = (refl, refl, refl, refl)
  store_messages-Framed a flow_id t (m ∷ ms) =
      let next = store_message parts a flow_id t m in
      Framed-trans a next (store_messages parts next flow_id t ms)
        (store_message-Framed a flow_id t m) (store_messages-Framed next flow_id t ms)

  note_error-ids :
      (flow_id : FlowId) (reason : Option Bytes) (s : StoreState)
      → (map flow_id_of (note_error flow_id reason s).flows ≡ map flow_id_of s.flows)
        × ((note_error flow_id reason s).evicted ≡ s.evicted)
  note_error-ids flow_id none s = (refl, refl)
  note_error-ids flow_id (some reason) s = (update_flow-ids flow_id _ (λ flow. refl) s.flows, refl)

  pub store_batch-Framed :
      (a : StoreActor H) (flow_id : FlowId) (t : TimestampPair) (batch : DecodeBatch)
      → Framed a (store_batch parts a flow_id t batch)
  unfolding store_batch
  store_batch-Framed a flow_id t batch =
      let noted = record a { state = note_error flow_id batch.desynchronized a.state } in
      let n = note_error-ids flow_id batch.desynchronized a.state in
      Framed-trans a noted (store_messages parts noted flow_id t batch.messages)
        (n.0, n.1, refl, refl) (store_messages-Framed noted flow_id t batch.messages)

  -- Messages leave the decoders as they are.
  store_messages-decoders :
      (a : StoreActor H) (flow_id : FlowId) (t : TimestampPair) (ms : List DecodedMessage)
      → (store_messages parts a flow_id t ms).decoders ≡ a.decoders
  unfolding store_messages store_message
  store_messages-decoders a flow_id t [] = refl
  store_messages-decoders a flow_id t (m ∷ ms) =
      store_messages-decoders (store_message parts a flow_id t m) flow_id t ms

  pub store_batch-decoders :
      (a : StoreActor H) (flow_id : FlowId) (t : TimestampPair) (batch : DecodeBatch)
      → (store_batch parts a flow_id t batch).decoders ≡ a.decoders
  unfolding store_batch
  store_batch-decoders a flow_id t batch =
      store_messages-decoders (record a { state = note_error flow_id batch.desynchronized a.state })
        flow_id t batch.messages

  flush_decoder-Framed :
      (a : StoreActor H) (flow_id : FlowId) (t : TimestampPair) (d : Option (ProtocolDecoder H))
      → Framed a (flush_decoder parts a flow_id t d)
  flush_decoder-Framed a flow_id t none = (refl, refl, refl, refl)
  flush_decoder-Framed a flow_id t (some d) =
      let (d', client) = Decoders.finish parts d client_to_server in
      let (d'', server) = Decoders.finish parts d' server_to_client in
      let half = store_batch parts (drop_decoder flow_id a) flow_id t client in
      Framed-trans a half (store_batch parts half flow_id t server)
        (store_batch-Framed (drop_decoder flow_id a) flow_id t client)
        (store_batch-Framed half flow_id t server)

  pub end_flow-Framed :
      (a : StoreActor H) (flow_id : FlowId) (t : TimestampPair)
      → Framed a (end_flow parts a flow_id t)
  unfolding end_flow
  end_flow-Framed a flow_id t =
      flush_decoder-Framed a flow_id t (get (λ f. f == flow_id) a.decoders)
