-- ===== src/Store/Held.antt =====
-- The messages that a store holds of a flow, as its operations change them.
use lens.Core.{FlowId, MessageRecord}
use lens.Prelude.{
  ==_iff, ◌==◌, true, false, List, [], ◌∷◌, ◌++◌, append-nil, append_assoc, Option, none, some, ◌≡◌,
  refl, sym, ap, ◌∙◌, Bool-cases, inl, inr,
}
use lens.Store.Flow.{StoredFlow, PluginRunReport, update_flow, flow_id_of, is_some_id, add_report}
use lens.Store.Messages.{mark_grpc}
use lens.Text.{Bytes, str, eq_bytes}
use mathlib.Core.Option

-- The messages of the first flow with this identifier.
unfoldable pub held : FlowId → List StoredFlow → Option (List MessageRecord)
held flow_id [] = none
held flow_id (flow ∷ flows) =
    let rest = held flow_id flows in
    elim (is_some_id flow_id (flow_id_of flow)) [ true ↦ some flow.messages | false ↦ rest ]

abbrev pub then_held :
    List MessageRecord → Option (List MessageRecord) → Option (List MessageRecord)
then_held records = Option.map (λ messages. messages ++ records)

pub then_held_nothing : (o : Option (List MessageRecord)) → then_held [] o ≡ o
then_held_nothing none = refl
then_held_nothing (some messages) = ap some (append-nil messages)

pub then_held_twice :
    (xs ys : List MessageRecord) (o : Option (List MessageRecord))
    → then_held ys (then_held xs o) ≡ then_held (xs ++ ys) o
then_held_twice xs ys none = refl
then_held_twice xs ys (some messages) = ap some (append_assoc messages xs ys)

held_other :
    (flow_id : FlowId) (flow : StoredFlow) (flows : List StoredFlow)
    → is_some_id flow_id (flow_id_of flow) ≡ false
    → held flow_id (flow ∷ flows) ≡ held flow_id flows
unfolding held
held_other flow_id flow flows e = rw (e, held) refl

pub update_flow-held :
    (flow_id : FlowId) (change : StoredFlow → StoredFlow) (records : List MessageRecord)
    → ((flow : StoredFlow) → flow_id_of (change flow) ≡ flow_id_of flow)
    → ((flow : StoredFlow) → (change flow).messages ≡ flow.messages ++ records)
    → (flows : List StoredFlow)
    → held flow_id (update_flow flow_id change flows) ≡ then_held records (held flow_id flows)
unfolding update_flow held
update_flow-held flow_id change records ids adds [] = refl
update_flow-held flow_id change records ids adds (flow ∷ flows) =
    elim (Bool-cases (is_some_id flow_id (flow_id_of flow))) [
      | inl e ↦
          let same : is_some_id flow_id (flow_id_of (change flow)) ≡ true =
            ap (is_some_id flow_id) (ids flow) ∙ e in
          rw (e, same, update_flow, held) (ap some (adds flow))
      | inr e ↦
          let moved : update_flow flow_id change (flow ∷ flows)
              ≡ flow ∷ update_flow flow_id change flows =
            rw (e, update_flow) refl in
          ap (held flow_id) moved
          ∙ held_other flow_id flow (update_flow flow_id change flows) e
          ∙ update_flow-held flow_id change records ids adds flows
          ∙ ap (then_held records) (sym (held_other flow_id flow flows e))
    ]

is_some_id_apart :
    (flow_id other : FlowId) (o : Option FlowId)
    → (flow_id == other) ≡ false
    → is_some_id flow_id o ≡ true
    → is_some_id other o ≡ false
is_some_id_apart flow_id other none apart e = refl
is_some_id_apart flow_id other (some i) apart e =
    ap (λ n. n == other) ((==_iff i flow_id).0 e) ∙ apart

pub update_flow-held_other :
    (flow_id other : FlowId) (change : StoredFlow → StoredFlow)
    → (flow_id == other) ≡ false
    → ((flow : StoredFlow) → flow_id_of (change flow) ≡ flow_id_of flow)
    → (flows : List StoredFlow) → held other (update_flow flow_id change flows) ≡ held other flows
unfolding update_flow held
update_flow-held_other flow_id other change apart ids [] = refl
update_flow-held_other flow_id other change apart ids (flow ∷ flows) =
    elim (Bool-cases (is_some_id flow_id (flow_id_of flow))) [
      | inl e ↦
          let no : is_some_id other (flow_id_of flow) ≡ false =
            is_some_id_apart flow_id other (flow_id_of flow) apart e in
          let moved : update_flow flow_id change (flow ∷ flows) ≡ change flow ∷ flows =
            rw (e, update_flow) refl in
          ap (held other) moved
          ∙ held_other other (change flow) flows (ap (is_some_id other) (ids flow) ∙ no)
          ∙ sym (held_other other flow flows no)
      | inr e ↦
          let moved : update_flow flow_id change (flow ∷ flows)
              ≡ flow ∷ update_flow flow_id change flows =
            rw (e, update_flow) refl in
          let later = update_flow-held_other flow_id other change apart ids flows in
          ap (held other) moved
          ∙ ap
              (λ rest. elim (is_some_id other (flow_id_of flow)) [
                | true ↦ some flow.messages
                | false ↦ rest
              ])
              later
    ]

pub add_report-messages :
    (report : Option PluginRunReport) (flow : StoredFlow)
    → (add_report report flow).messages ≡ flow.messages
unfolding add_report
add_report-messages none flow = refl
add_report-messages (some report) flow = refl

pub mark_grpc-messages :
    (protocol : Option Bytes) (flow : StoredFlow)
    → (mark_grpc protocol flow).messages ≡ flow.messages
mark_grpc-messages none flow = refl
mark_grpc-messages (some protocol) flow = elim (Bool-cases (eq_bytes protocol (str "grpc"))) [
  | inl e ↦ rw (e, mark_grpc) refl
  | inr e ↦ rw (e, mark_grpc) refl
]
