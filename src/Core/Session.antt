-- ===== src/Core/Session.antt =====
-- crates/lens-core/src/lib.rs: sessions.
use lens.Prelude.{Option, none, List, ◌++◌, [], ◌∷◌}
use lens.Core.Event.{FlowId, EventEnvelope}
use lens.Text.{Bytes, str}

pub data SessionState : Type 0 where
  open_session closed_session failed_session : SessionState

pub session_state_text : SessionState → Bytes
session_state_text open_session = str "open"
session_state_text closed_session = str "closed"
session_state_text failed_session = str "failed"

pub record SessionIdentity : Type 0 where
  pub label : Option Bytes
  pub user : Option Bytes
  pub container : Option Bytes
  pub binary_path : Option Bytes

abbrev pub new_session_identity : SessionIdentity
new_session_identity = record { label = none; user = none; container = none; binary_path = none }

pub record SessionRecord : Type 0 where
  pub envelope : EventEnvelope
  pub identity : SessionIdentity
  pub state : SessionState
  pub flow_ids : List FlowId

abbrev pub new_session : EventEnvelope → SessionIdentity → SessionRecord
new_session envelope identity = record {
  envelope = envelope;
  identity = identity;
  state = open_session;
  flow_ids = [];
}

abbrev pub push_flow_id : FlowId → SessionRecord → SessionRecord
push_flow_id id s = record s { flow_ids = s.flow_ids ++ id ∷ [] }
