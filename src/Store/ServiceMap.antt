-- ===== src/Store/ServiceMap.antt =====
-- crates/lens-store/src/lib.rs: `StoreSnapshot::service_map`. A BTreeMap or a BTreeSet is the list of
-- its entries in ascending order.
use Prim.Native.Nat.{compare, Ordering}
use lens.Core.{
  ServiceIdentity, same_state, open_flow, failed_flow, display_name, endpoint_text, saturating_add,
}
use lens.Prelude.{ℕ, Bool, true, false, List, [], ◌∷◌, Option, none, some, map}
use lens.Store.Flow.{StoredFlow, StoreSnapshot}
use lens.Text.{Bytes, str}

unfoldable pub compare_bytes : Bytes → Bytes → Ordering
compare_bytes [] [] = Ordering.eq
compare_bytes [] (y ∷ ys) = Ordering.lt
compare_bytes (x ∷ xs) [] = Ordering.gt
compare_bytes (x ∷ xs) (y ∷ ys) =
    let rest = compare_bytes xs ys in
    elim (compare x y) [
      | Ordering.lt ↦ Ordering.lt
      | Ordering.eq ↦ rest
      | Ordering.gt ↦ Ordering.gt
    ]

-- `entry(key).or_default()`, and the change that is made of the entry
abbrev pub upsert {ℓ κ} :
    {K : Type ℓ} {V : Type κ} → (K → K → Ordering) → V → (V → V) → K → List (K × V) → List (K × V)
upsert cmp default change key [] = (key, change default) ∷ []
upsert cmp default change key ((k, v) ∷ entries) =
    let rest = upsert cmp default change key entries in
    elim (cmp key k) [
      | Ordering.lt ↦ (key, change default) ∷ (k, v) ∷ entries
      | Ordering.eq ↦ (k, change v) ∷ entries
      | Ordering.gt ↦ (k, v) ∷ rest
    ]

-- `BTreeSet::insert`
abbrev pub insert_ordered {ℓ} : {K : Type ℓ} → (K → K → Ordering) → K → List K → List K
insert_ordered cmp key [] = key ∷ []
insert_ordered cmp key (k ∷ keys) =
    let rest = insert_ordered cmp key keys in
    elim (cmp key k) [
      | Ordering.lt ↦ key ∷ k ∷ keys
      | Ordering.eq ↦ k ∷ keys
      | Ordering.gt ↦ k ∷ rest
    ]

pub record Aggregate : Type 0 where
  pub processes : List Bytes
  pub pids : List ℕ
  pub flows : ℕ
  pub open_flows : ℕ
  pub failed_flows : ℕ
  pub upstreams : List (Bytes × ℕ)

abbrev pub no_flows : Aggregate
no_flows = record {
  processes = [];
  pids = [];
  flows = 0;
  open_flows = 0;
  failed_flows = 0;
  upstreams = [];
}

pub record ServiceEdge : Type 0 where
  pub upstream : Bytes
  pub flows : ℕ

pub record ServiceNode : Type 0 where
  pub service : Bytes
  pub processes : List Bytes
  pub pids : List ℕ
  pub flows : ℕ
  pub open_flows : ℕ
  pub failed_flows : ℕ
  pub upstreams : List ServiceEdge

abbrev pub service_of : Option ServiceIdentity → Bytes
service_of none = str "unknown"
service_of (some identity) = display_name identity

abbrev pub process_of : Option ServiceIdentity → Option Bytes
process_of none = none
process_of (some identity) = identity.process

abbrev pub pid_of : Option ServiceIdentity → Option ℕ
pid_of none = none
pid_of (some identity) = identity.pid

abbrev pub insert_some {ℓ} : {K : Type ℓ} → (K → K → Ordering) → Option K → List K → List K
insert_some cmp none keys = keys
insert_some cmp (some key) keys = insert_ordered cmp key keys

-- `u64::from`
abbrev pub number : Bool → ℕ
number true = 1
number false = 0

abbrev pub count_edge : Bytes → List (Bytes × ℕ) → List (Bytes × ℕ)
count_edge upstream edges = upsert compare_bytes 0 (λ n. saturating_add n 1) upstream edges

unfoldable pub count_flow : StoredFlow → Aggregate → Aggregate
unfolding compare_bytes saturating_add same_state endpoint_text
count_flow flow a = record {
  processes = insert_some compare_bytes (process_of flow.record_of.identity) a.processes;
  pids = insert_some compare (pid_of flow.record_of.identity) a.pids;
  flows = saturating_add a.flows 1;
  open_flows = saturating_add a.open_flows (number (same_state flow.record_of.state open_flow));
  failed_flows =
      saturating_add a.failed_flows (number (same_state flow.record_of.state failed_flow));
  upstreams = count_edge (endpoint_text flow.record_of.upstream) a.upstreams;
}

abbrev pub Services : Type 0
Services = List (Bytes × Aggregate)

unfoldable pub count_flows : Services → List StoredFlow → Services
unfolding count_flow compare_bytes display_name str
count_flows services [] = services
count_flows services (flow ∷ flows) =
    count_flows
      (upsert compare_bytes no_flows (count_flow flow) (service_of flow.record_of.identity)
        services)
      flows

abbrev pub edge : Bytes × ℕ → ServiceEdge
edge (upstream, flows) = record { upstream = upstream; flows = flows }

abbrev pub node : Bytes × Aggregate → ServiceNode
node (service, a) = record {
  service = service;
  processes = a.processes;
  pids = a.pids;
  flows = a.flows;
  open_flows = a.open_flows;
  failed_flows = a.failed_flows;
  upstreams = map edge a.upstreams;
}

unfoldable pub service_map : StoreSnapshot → List ServiceNode
unfolding count_flows
service_map s = map node (count_flows [] s.flows)
