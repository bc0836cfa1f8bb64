-- ===== src/Store/Flow.antt =====
-- crates/lens-store/src/lib.rs: the retained flows, and what is read of them.
use lens.Core.{
  FlowId, FlowRecord, MessageRecord, Direction, client_to_server, server_to_client, saturating_add,
  ServiceIdentity, FlowState, failed_flow,
}
use lens.Prelude.{
  ℕ, Bool, true, false, List, [], ◌∷◌, ◌++◌, Option, none, some, ◌==◌, length, take, ◌-◌,
}
use lens.Text.{Bytes}

-- crates/lens-plugin/src/lib.rs: what the plugins made of one event.
pub record PluginAnnotation : Type 0 where
  pub plugin_name : Bytes
  pub value : Bytes

pub record PluginRunReport : Type 0 where
  pub annotations : List PluginAnnotation
  pub failures : List (Bytes × Bytes)

pub record StoredFlow : Type 0 where
  pub record_of : FlowRecord
  pub client_to_upstream_bytes : ℕ
  pub upstream_to_client_bytes : ℕ
  pub failure : Option Bytes
  pub decoder_error : Option Bytes
  pub messages : List MessageRecord
  pub plugin_annotations : List PluginAnnotation
  pub plugin_failures : ℕ

-- The oldest flow first.
pub record StoreState : Type 0 where
  pub flows : List StoredFlow
  pub evicted : ℕ
  pub next_message_id : ℕ

abbrev pub empty_store : StoreState
empty_store = record { flows = []; evicted = 0; next_message_id = 0 }

pub record StoreSnapshot : Type 0 where
  pub flows : List StoredFlow
  pub evicted : ℕ

abbrev pub snapshot : StoreState → StoreSnapshot
snapshot s = record { flows = s.flows; evicted = s.evicted }

-- `option == Some(id)`
abbrev pub is_some_id : FlowId → Option FlowId → Bool
is_some_id flow_id none = false
is_some_id flow_id (some i) = i == flow_id

abbrev pub flow_id_of : StoredFlow → Option FlowId
flow_id_of flow = flow.record_of.envelope.flow_id

-- `find_flow_mut`, and the change that is made of the flow that it finds
unfoldable pub update_flow : FlowId → (StoredFlow → StoredFlow) → List StoredFlow → List StoredFlow
update_flow flow_id change [] = []
update_flow flow_id change (flow ∷ flows) =
    let rest = update_flow flow_id change flows in
    elim (is_some_id flow_id (flow_id_of flow)) [ true ↦ change flow ∷ flows | false ↦ flow ∷ rest ]

abbrev pub update_flows : FlowId → (StoredFlow → StoredFlow) → StoreState → StoreState
update_flows flow_id change s = record s { flows = update_flow flow_id change s.flows }

abbrev pub set_identity : ServiceIdentity → StoredFlow → StoredFlow
set_identity identity flow = record flow {
  record_of = record flow.record_of { identity = some identity };
}

abbrev pub set_protocol : Bytes → StoredFlow → StoredFlow
set_protocol protocol flow = record flow {
  record_of = record flow.record_of { protocol = some protocol };
}

abbrev pub set_flow_state : FlowState → StoredFlow → StoredFlow
set_flow_state state flow = record flow { record_of = record flow.record_of { state = state } }

abbrev pub set_failed : Bytes → StoredFlow → StoredFlow
set_failed reason flow = record (set_flow_state failed_flow flow) { failure = some reason }

unfoldable pub add_bytes : Direction → ℕ → StoredFlow → StoredFlow
unfolding saturating_add
add_bytes client_to_server bytes flow = record flow {
  client_to_upstream_bytes = saturating_add flow.client_to_upstream_bytes bytes;
}
add_bytes server_to_client bytes flow = record flow {
  upstream_to_client_bytes = saturating_add flow.upstream_to_client_bytes bytes;
}

abbrev pub max_annotations : ℕ
max_annotations = 32

unfoldable pub add_report : Option PluginRunReport → StoredFlow → StoredFlow
unfolding saturating_add
add_report none flow = flow
add_report (some report) flow = record flow {
  plugin_failures = saturating_add flow.plugin_failures (length report.failures);
  plugin_annotations =
      flow.plugin_annotations
      ++ take (max_annotations - length flow.plugin_annotations) report.annotations;
}
