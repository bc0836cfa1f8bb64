-- ===== src/Store/Counts.antt =====
-- The counts of the service map.
use Prim.Native.Nat.{Ordering}
use lens.Core.{saturating_add, u64_mod, endpoint_text}
use lens.Prelude.{
  ℕ, suc, ◌+◌, ◌-◌, ◌<◌, min, List, [], ◌∷◌, length, map, All, ◌≡◌, refl, ap, ◌∙◌, arith, ◌⊎◌, inl,
  inr,
}
use lens.Store.Flow.{StoredFlow, StoreSnapshot}
use lens.Store.ServiceMap.{
  upsert, compare_bytes, count_flow, count_flows, no_flows, service_of, service_map, Aggregate,
  Services, ServiceNode, ServiceEdge, node, edge,
}

abbrev pub total {ℓ} : {A : Type ℓ} → (A → ℕ) → List A → ℕ
total f [] = 0
total f (x ∷ xs) = f x + total f xs

Ordering-cases : (o : Ordering) → (o ≡ Ordering.lt) ⊎ ((o ≡ Ordering.eq) ⊎ (o ≡ Ordering.gt))
Ordering-cases Ordering.lt = inl refl
Ordering-cases Ordering.eq = inr (inl refl)
Ordering-cases Ordering.gt = inr (inr refl)

module _ {ℓ κ} {K : Type ℓ} {V : Type κ} (cmp : K → K → Ordering) (count : V → ℕ) (default : V)
    (change : V → V) (empty : count default ≡ 0)
    (one_more : (v : V) → count (change v) ≡ min (count v + 1) (u64_mod - 1)) where
  total-upsert :
      (key : K) (entries : List (K × V))
      → suc (total (λ e. count e.1) entries) < u64_mod
      → total (λ e. count e.1) (upsert cmp default change key entries)
        ≡ suc (total (λ e. count e.1) entries)
  total-upsert key [] h = omega (arith, one_more default, empty)
  total-upsert key ((k, v) ∷ entries) h = elim (Ordering-cases (cmp key k)) [
    | inl e ↦ rw (e, upsert) (omega (arith, one_more default, empty))
    | inr (inl e) ↦ rw (e, upsert) (omega (arith, one_more v))
    | inr (inr e) ↦ rw (e, upsert) (omega (arith, total-upsert key entries (omega arith)))
  ]

  All-upsert {μ} :
      (P : V → Type μ) (key : K) (entries : List (K × V))
      → ((v : V) → suc (count v) < u64_mod → P v → P (change v))
      → P default
      → suc (total (λ e. count e.1) entries) < u64_mod
      → All (λ e. P e.1) entries
      → All (λ e. P e.1) (upsert cmp default change key entries)
  All-upsert P key [] keeps p h all = (keeps default (omega (arith, empty)) p, tt)
  All-upsert P key ((k, v) ∷ entries) keeps p h all = elim (Ordering-cases (cmp key k)) [
    | inl e ↦ rw (e, upsert) (keeps default (omega (arith, empty)) p, all)
    | inr (inl e) ↦ rw (e, upsert) (keeps v (omega arith) all.0, all.1)
    | inr (inr e) ↦ rw (e, upsert) (all.0, All-upsert P key entries keeps p (omega arith) all.1)
  ]

-- A service's flows are those of its edges.
abbrev Balanced : Aggregate → Type 0
Balanced a = total (λ e. e.1) a.upstreams ≡ a.flows

count_flow-Balanced :
    (flow : StoredFlow) (a : Aggregate)
    → suc a.flows < u64_mod
    → Balanced a
    → Balanced (count_flow flow a)
unfolding count_flow saturating_add
count_flow-Balanced flow a h b =
    let t =
      total-upsert compare_bytes (λ n. n) 0 (λ n. saturating_add n 1) refl (λ n. refl)
        (endpoint_text flow.record_of.upstream) a.upstreams (omega (arith, b)) in
    omega (arith, t, b)

-- The number of flows of all services together, and the edges of each.
abbrev Counted : ℕ → Services → Type 0
Counted n services = (total (λ e. e.1.flows) services ≡ n) × All (λ e. Balanced e.1) services

count_flows-Counted :
    (flows : List StoredFlow) (services : Services) (n : ℕ)
    → n + length flows < u64_mod
    → Counted n services
    → Counted (n + length flows) (count_flows services flows)
unfolding count_flows count_flow saturating_add
count_flows-Counted [] services n h c = (omega (arith, c.0), c.1)
count_flows-Counted (flow ∷ flows) services n h c =
    let key = service_of flow.record_of.identity in
    let bound : suc (total (λ e. e.1.flows) services) < u64_mod = omega (arith, c.0) in
    let services' = upsert compare_bytes no_flows (count_flow flow) key services in
    let t =
      total-upsert compare_bytes (λ a. a.flows) no_flows (count_flow flow) refl (λ a. refl) key
        services bound in
    let b =
      All-upsert compare_bytes (λ a. a.flows) no_flows (count_flow flow) refl (λ a. refl) Balanced
        key services (count_flow-Balanced flow) refl bound c.1 in
    let r = count_flows-Counted flows services' (suc n) (omega arith) (t ∙ ap suc c.0, b) in
    (omega (arith, r.0), r.1)

total-map {ℓ κ} :
    {A : Type ℓ} {B : Type κ} (f : B → ℕ) (g : A → B) (xs : List A)
    → total f (map g xs) ≡ total (λ x. f (g x)) xs
total-map f g [] = refl
total-map f g (x ∷ xs) = ap (λ n. f (g x) + n) (total-map f g xs)

-- A node whose edges count its flows.
abbrev pub NodeBalanced : ServiceNode → Type 0
NodeBalanced n = total (λ (e : ServiceEdge). e.flows) n.upstreams ≡ n.flows

All-node :
    (services : Services) → All (λ e. Balanced e.1) services → All NodeBalanced (map node services)
All-node [] h = tt
All-node ((service, a) ∷ services) h =
    (total-map (λ (e : ServiceEdge). e.flows) edge a.upstreams ∙ h.0, All-node services h.1)

-- In the service map of fewer than 2^64 flows the nodes' counts add up to the number of flows, and
-- the counts of a node's edges add up to the node's count.
pub service_map-counts :
    (s : StoreSnapshot)
    → length s.flows < u64_mod
    → (total (λ (n : ServiceNode). n.flows) (service_map s) ≡ length s.flows)
      × All NodeBalanced (service_map s)
unfolding service_map
service_map-counts s h =
    let c = count_flows-Counted s.flows [] 0 (omega arith) (refl, tt) in
    let services = count_flows [] s.flows in
    (
      total-map (λ (n : ServiceNode). n.flows) node services ∙ c.0 ∙ omega arith,
      All-node services c.1,
    )
