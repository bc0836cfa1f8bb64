-- ===== src/Store/Shown.antt =====
-- What a message that is decoded leaves in its flow.
use lens.Core.{MessageId, MessageRecord}
use lens.Prelude.{
  ◌-◌, ◌≤◌, Bool, [], ◌∷◌, ◌++◌, Option, none, some, length, take, length-append, length-take, map,
  ◌≡◌, ap, ◌∙◌, sym, All, All-append, Bool-cases, inl, inr, arith,
}
use lens.Protocol.{DecodedMessage, summary, render}
use lens.Redact.Redactor.{redact}
use lens.Store.Decoders.{Parts}
use lens.Store.Flow.{StoredFlow, PluginRunReport, max_annotations, add_report}
use lens.Store.Messages.{add_message, mark_grpc, sensitivity_of}
use lens.Text.{Bytes, str, eq_bytes}
use mathlib.Core.List.{map-append}

abbrev pub message_id_of : MessageRecord → Option MessageId
message_id_of m = m.envelope.message_id

module _ {H : Type 0} (parts : Parts H) (reveal : Bool) where
  -- The record shows what the redactor made of a decoded message, and nothing else of it.
  abbrev pub Shows : MessageRecord → DecodedMessage → Type 0
  Shows m decoded =
      let outcome = redact parts.json_secret reveal decoded in
      (m.summary ≡ summary outcome.safe)
      × (m.body ≡ render outcome.safe)
      × (m.envelope.sensitivity ≡ sensitivity_of reveal outcome)
      × (m.truncated ≡ decoded.truncated)

  abbrev pub FromRedactor : MessageRecord → Type 0
  FromRedactor m = (decoded : DecodedMessage) × Shows m decoded

  abbrev pub FlowInv : StoredFlow → Type 0
  FlowInv flow =
      All FromRedactor flow.messages
      × (map some flow.record_of.message_ids ≡ map message_id_of flow.messages)
      × (length flow.plugin_annotations ≤ max_annotations)

  mark_grpc-FlowInv :
      (protocol : Option Bytes) (flow : StoredFlow)
      → FlowInv flow
      → FlowInv (mark_grpc protocol flow)
  mark_grpc-FlowInv none flow h = h
  mark_grpc-FlowInv (some protocol) flow h = elim (Bool-cases (eq_bytes protocol (str "grpc"))) [
    | inl e ↦ rw (e, mark_grpc, FlowInv) h
    | inr e ↦ rw (e, mark_grpc, FlowInv) h
  ]

  add_report-FlowInv :
      (report : Option PluginRunReport) (flow : StoredFlow)
      → FlowInv flow
      → FlowInv (add_report report flow)
  unfolding add_report
  add_report-FlowInv none flow h = h
  add_report-FlowInv (some report) flow h =
      let n = max_annotations - length flow.plugin_annotations in
      (
        h.0,
        h.1,
        omega (
          arith,
          h.2,
          length-append flow.plugin_annotations (take n report.annotations),
          length-take n report.annotations,
        ),
      )

  pub add_message-FlowInv :
      (protocol : Option Bytes) (id : MessageId) (m : MessageRecord)
      (report : Option PluginRunReport) (flow : StoredFlow)
      → FromRedactor m
      → message_id_of m ≡ some id
      → FlowInv flow
      → FlowInv (add_message protocol id m report flow)
  unfolding add_message
  add_message-FlowInv protocol id m report flow shown e h =
      let marked = mark_grpc protocol flow in
      let (shows, ids, few) = mark_grpc-FlowInv protocol flow h in
      add_report-FlowInv report _ (
        All-append FromRedactor marked.messages (m ∷ []) shows (shown, tt),
        map-append some marked.record_of.message_ids (id ∷ [])
            ∙ ap (λ xs. xs ++ some id ∷ []) ids
            ∙ ap (λ i. map message_id_of marked.messages ++ i ∷ []) (sym e)
            ∙ sym (map-append message_id_of marked.messages (m ∷ [])),
        few,
      )
