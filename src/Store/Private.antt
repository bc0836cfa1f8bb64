-- ===== src/Store/Private.antt =====
-- What a store that does not reveal keeps of the messages of a flow.
use lens.Core.{FlowId, TimestampPair, MessageRecord}
use lens.Prelude.{
  ◌==◌, false, List, [], ◌∷◌, ◌++◌, append-nil, Option, none, some, ◌≡◌, refl, sym, ap, ◌∙◌, All,
}
use lens.Protocol.{DecodedMessage, DecodeBatch, header_value, summary, render}
use lens.Redact.Hidden.{Hidden, names, redact-Hidden}
use lens.Redact.Redactor.{redact}
use lens.Store.Decoders.{Parts}
use lens.Store.Flow.{StoredFlow, StoreState}
use lens.Store.Frame.{add_message-id}
use lens.Store.Messages.{
  StoreActor, store_message, store_messages, store_batch, note_error, add_message, message_change,
  next_id, retained, plugin_report, envelope_for, latency_of,
}
use lens.Text.{Bytes, str}
use mathlib.Core.Option
use lens.Store.Held.{
  held, then_held, then_held_nothing, then_held_twice, update_flow-held, update_flow-held_other,
  add_report-messages, mark_grpc-messages,
}

module _ {H : Type 0} (parts : Parts H) where
  -- The record is the text of what the redactor makes of the message: the headers are those of the
  -- message, in their order, and each with a sensitive name shows the replacement only.
  abbrev pub Conceals : DecodedMessage → MessageRecord → Type 0
  Conceals decoded m =
      (safe : DecodedMessage) × (safe ≡ (redact parts.json_secret false decoded).safe)
      × (m.summary ≡ summary safe)
      × (m.body ≡ render safe)
      × All Hidden safe.headers
      × (names safe.headers ≡ names decoded.headers)

  -- Message by message, in their order.
  unfoldable pub ConcealsEach : List DecodedMessage → List MessageRecord → Type 0
  ConcealsEach [] [] = Unit
  ConcealsEach (decoded ∷ ms) (m ∷ records) = Conceals decoded m × ConcealsEach ms records
  ConcealsEach _ _ = ⊥

  message_change-messages :
      (a : StoreActor H) (flow_id : FlowId) (t : TimestampPair) (m : DecodedMessage)
      (flow : StoredFlow)
      → (message_change parts a flow_id t m flow).messages
        ≡ flow.messages ++ retained parts a flow_id t m ∷ []
  unfolding add_message
  message_change-messages a flow_id t m flow =
      add_report-messages
        (plugin_report parts flow_id (envelope_for parts a flow_id t m) m
          (latency_of a flow_id t m).1)
        _
      ∙ ap (◌++ retained parts a flow_id t m ∷ [])
          (mark_grpc-messages (header_value (str "lens-protocol") m.headers) flow)

  store_message-held :
      (a : StoreActor H) (flow_id : FlowId) (t : TimestampPair) (m : DecodedMessage)
      → held flow_id (store_message parts a flow_id t m).state.flows
        ≡ then_held (retained parts a flow_id t m ∷ []) (held flow_id a.state.flows)
  unfolding store_message
  store_message-held a flow_id t m =
      update_flow-held flow_id (message_change parts a flow_id t m)
        (retained parts a flow_id t m ∷ [])
        (add_message-id (header_value (str "lens-protocol") m.headers) (next_id a)
          (retained parts a flow_id t m)
          (plugin_report parts flow_id (envelope_for parts a flow_id t m) m
            (latency_of a flow_id t m).1))
        (message_change-messages a flow_id t m) a.state.flows

  retained-Conceals :
      (a : StoreActor H) (flow_id : FlowId) (t : TimestampPair) (m : DecodedMessage)
      → a.reveal ≡ false
      → Conceals m (retained parts a flow_id t m)
  retained-Conceals a flow_id t m e =
      let hidden = redact-Hidden parts.json_secret m in
      (
        (redact parts.json_secret false m).safe,
        refl,
        ap (λ reveal. summary (redact parts.json_secret reveal m).safe) e,
        ap (λ reveal. render (redact parts.json_secret reveal m).safe) e,
        hidden.0,
        hidden.1,
      )

  abbrev Stores : StoreActor H → StoreActor H → FlowId → List DecodedMessage → Type 0
  Stores a a' flow_id ms =
      (records : List MessageRecord) × ConcealsEach ms records
      × (held flow_id a'.state.flows ≡ then_held records (held flow_id a.state.flows))

  store_messages-Stores :
      (a : StoreActor H) (flow_id : FlowId) (t : TimestampPair) (ms : List DecodedMessage)
      → a.reveal ≡ false
      → Stores a (store_messages parts a flow_id t ms) flow_id ms
  unfolding store_messages store_message ConcealsEach
  store_messages-Stores a flow_id t [] e =
      ([], tt, sym (then_held_nothing (held flow_id a.state.flows)))
  store_messages-Stores a flow_id t (m ∷ ms) e =
      let first = retained parts a flow_id t m in
      let (records, each, same) =
        store_messages-Stores (store_message parts a flow_id t m) flow_id t ms e in
      (
        first ∷ records,
        (retained-Conceals a flow_id t m e, each),
        same
            ∙ ap (then_held records) (store_message-held a flow_id t m)
            ∙ then_held_twice (first ∷ []) records (held flow_id a.state.flows),
      )

  note_error-held :
      (flow_id : FlowId) (reason : Option Bytes) (s : StoreState)
      → held flow_id (note_error flow_id reason s).flows ≡ held flow_id s.flows
  note_error-held flow_id none s = refl
  note_error-held flow_id (some reason) s =
      update_flow-held flow_id (λ flow. record flow { decoder_error = some reason }) []
        (λ flow. refl) (λ flow. sym (append-nil flow.messages)) s.flows
      ∙ then_held_nothing (held flow_id s.flows)

  store_message-held_other :
      (a : StoreActor H) (flow_id other : FlowId) (t : TimestampPair) (m : DecodedMessage)
      → (flow_id == other) ≡ false
      → held other (store_message parts a flow_id t m).state.flows ≡ held other a.state.flows
  unfolding store_message
  store_message-held_other a flow_id other t m apart =
      update_flow-held_other flow_id other (message_change parts a flow_id t m) apart
        (add_message-id (header_value (str "lens-protocol") m.headers) (next_id a)
          (retained parts a flow_id t m)
          (plugin_report parts flow_id (envelope_for parts a flow_id t m) m
            (latency_of a flow_id t m).1))
        a.state.flows

  store_messages-held_other :
      (a : StoreActor H) (flow_id other : FlowId) (t : TimestampPair) (ms : List DecodedMessage)
      → (flow_id == other) ≡ false
      → held other (store_messages parts a flow_id t ms).state.flows ≡ held other a.state.flows
  unfolding store_messages
  store_messages-held_other a flow_id other t [] apart = refl
  store_messages-held_other a flow_id other t (m ∷ ms) apart =
      store_messages-held_other (store_message parts a flow_id t m) flow_id other t ms apart
      ∙ store_message-held_other a flow_id other t m apart

  note_error-held_other :
      (flow_id other : FlowId) (reason : Option Bytes) (s : StoreState)
      → (flow_id == other) ≡ false
      → held other (note_error flow_id reason s).flows ≡ held other s.flows
  note_error-held_other flow_id other none s apart = refl
  note_error-held_other flow_id other (some reason) s apart =
      update_flow-held_other flow_id other (λ flow. record flow { decoder_error = some reason })
        apart (λ flow. refl) s.flows

  store_batch-held_other :
      (a : StoreActor H) (flow_id other : FlowId) (t : TimestampPair) (batch : DecodeBatch)
      → (flow_id == other) ≡ false
      → held other (store_batch parts a flow_id t batch).state.flows ≡ held other a.state.flows
  unfolding store_batch
  store_batch-held_other a flow_id other t batch apart =
      store_messages-held_other
        (record a { state = note_error flow_id batch.desynchronized a.state }) flow_id other t
        batch.messages apart
      ∙ note_error-held_other flow_id other batch.desynchronized a.state apart

  -- In a store that does not reveal, the messages of a batch leave one record each, in their order,
  -- behind those that their flow holds, if there is one, and the messages of any other flow stay as
  -- they are. The text of a record is that of the redacted message, which has the headers of the
  -- message, in their order, and shows for each with a sensitive name the replacement only.
  pub store_batch-Conceals :
      (a : StoreActor H) (flow_id other : FlowId) (t : TimestampPair) (batch : DecodeBatch)
      → a.reveal ≡ false
      → (flow_id == other) ≡ false
      → let a' = store_batch parts a flow_id t batch in
        ((records : List MessageRecord) × ConcealsEach batch.messages records
          × (held flow_id a'.state.flows
              ≡ Option.map (λ messages. messages ++ records) (held flow_id a.state.flows)))
        × (held other a'.state.flows ≡ held other a.state.flows)
  unfolding store_batch
  store_batch-Conceals a flow_id other t batch e apart =
      let noted = record a { state = note_error flow_id batch.desynchronized a.state } in
      let (records, each, same) = store_messages-Stores noted flow_id t batch.messages e in
      (
        (
          records,
          each,
          same ∙ ap (then_held records) (note_error-held flow_id batch.desynchronized a.state),
        ),
        store_batch-held_other a flow_id other t batch apart,
      )
