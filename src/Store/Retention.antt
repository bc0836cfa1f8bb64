-- ===== src/Store/Retention.antt =====
-- Which flows the store retains.
use lens.Core.{
  new_observation, FlowId, RunId, Endpoint, Direction, client_to_server, server_to_client,
  closed_flow, TimestampPair, ObservationEvent, ObservationKind, opened, identified,
  protocol_detected, transferred, bytes_seen, closed, failed, saturating_add, u64_mod,
}
use lens.Prelude.{
  ℕ, ◌-◌, ◌≤◌, ◌<◌, min, Bool, List, [], ◌∷◌, ◌++◌, append-nil, append_assoc, Option, none, some,
  ◌==◌, length, drop, length-append, drop-nil, map, subst, ◌≡◌, refl, ap, ◌∙◌, sym, Bool-cases,
  ==_iff, inl, inr, arith,
}
use lens.Store.Actor.{
  apply, run, evict, forget, pop_oldest, push_flow, first_decoder, set_decoder, change_flow,
  on_bytes, keep_decoder, opened_flow, end_flow,
}
use lens.Store.Decoders.{Parts, ProtocolDecoder, decoder_for}
use lens.Store.Flow.{
  StoredFlow, flow_id_of, add_bytes, set_identity, set_protocol, set_flow_state, set_failed,
}
use lens.Store.Frame.{Framed, store_batch-Framed, end_flow-Framed, update_flow-ids}
use lens.Store.Newest.{newest, length-map, length-newest, newest-full, newest-room}
use lens.Store.Table.{get}
use mathlib.Core.Option
use lens.Store.Decoders
use lens.Store.Messages
use lens.Store.Messages.{StoreActor}
use lens.Protocol.{DecodeBatch}
use lens.Text.{Bytes}
use mathlib.Core.List.{map-append}

-- The identifiers that flows were opened with, the first one first.
abbrev pub opened_ids : List ObservationEvent → List (Option FlowId)
opened_ids [] = []
opened_ids (e ∷ es) = elim e.kind [
  | opened client upstream protocol ↦ some e.flow_id ∷ opened_ids es
  | _ ↦ opened_ids es
]

opened_ids-cons :
    (e : ObservationEvent) (es : List ObservationEvent)
    → opened_ids (e ∷ es) ≡ opened_ids (e ∷ []) ++ opened_ids es
opened_ids-cons e es =
    elim e.kind
      as (λ kind.
        opened_ids (record e { kind = kind } ∷ es)
        ≡ opened_ids (record e { kind = kind } ∷ []) ++ opened_ids es) [
          | opened client upstream protocol ↦ refl
          | identified identity ↦ refl
          | protocol_detected protocol ↦ refl
          | transferred direction bytes ↦ refl
          | bytes_seen direction bytes ↦ refl
          | closed ↦ refl
          | failed reason ↦ refl
        ]

module _ {H : Type 0} where
  abbrev pub Retains : ℕ → List (Option FlowId) → StoreActor H → Type 0
  Retains n ids a =
      (map flow_id_of a.state.flows ≡ newest n ids)
      × (a.state.evicted ≡ min (length ids - n) (u64_mod - 1))
      × (a.max_flows ≡ n)

  Retains-Framed :
      (n : ℕ) (ids : List (Option FlowId)) (a a' : StoreActor H)
      → Framed a a'
      → Retains n ids a
      → Retains n ids a'
  Retains-Framed n ids a a' f h = (f.0 ∙ h.0, f.1 ∙ h.1, f.2 ∙ h.2)

  forget-state :
      (o : Option FlowId) (a : StoreActor H)
      → ((forget o a).state ≡ a.state) × ((forget o a).max_flows ≡ a.max_flows)
  forget-state none a = (refl, refl)
  forget-state (some flow_id) a = (refl, refl)

  pop_oldest_lem :
      (a : StoreActor H) (flows : List StoredFlow)
      → a.state.flows ≡ flows
      → (map flow_id_of (pop_oldest a flows).state.flows ≡ drop 1 (map flow_id_of flows))
        × ((pop_oldest a flows).state.evicted ≡ a.state.evicted)
        × ((pop_oldest a flows).max_flows ≡ a.max_flows)
  pop_oldest_lem a [] e = (rw e refl, refl, refl)
  pop_oldest_lem a (oldest ∷ flows) e =
      let f =
        forget-state (flow_id_of oldest) (record a { state = record a.state { flows = flows } }) in
      (ap (λ s. map flow_id_of s.flows) f.0, ap (λ s. s.evicted) f.0, f.1)

  -- With one more flow that opens behind the eviction.
  abbrev MakesRoom : ℕ → List (Option FlowId) → Option FlowId → StoreActor H → Type 0
  MakesRoom n ids id a =
      (map flow_id_of a.state.flows ++ id ∷ [] ≡ newest n (ids ++ id ∷ []))
      × (a.state.evicted ≡ min (length (ids ++ id ∷ []) - n) (u64_mod - 1))
      × (a.max_flows ≡ n)

  evict_lem :
      (a : StoreActor H) (n : ℕ) (ids : List (Option FlowId)) (id : Option FlowId)
      → 0 < n
      → Retains n ids a
      → MakesRoom n ids id (evict a)
  unfolding evict saturating_add
  evict_lem a n ids id p h =
      let count : length a.state.flows ≡ min n (length ids) =
        sym (length-map flow_id_of a.state.flows) ∙ ap length h.0 ∙ length-newest n ids in
      let more = length-append ids (id ∷ []) in
      elim (Bool-cases (length a.state.flows == a.max_flows)) [
        | inl e ↦
            let full : length a.state.flows ≡ a.max_flows =
              (==_iff (length a.state.flows) a.max_flows).0 e in
            let o = pop_oldest_lem a a.state.flows refl in
            let keeps : n ≤ length ids = omega (arith, full, h.2, count) in
            rw (e, evict)
              (
                ap (◌++ (id ∷ [])) (o.0 ∙ ap (drop 1) h.0) ∙ sym (newest-full n ids id p keeps),
                omega (arith, o.1, h.1, more, keeps),
                o.2 ∙ h.2,
              )
        | inr e ↦
            let room : length ids < n = ground (arith, e, h.2, count) in
            rw (e, evict)
              (
                ap (◌++ (id ∷ [])) h.0 ∙ sym (newest-room n ids id room),
                omega (arith, h.1, more, room),
                h.2,
              )
      ]

  push_flow-Retains :
      (a : StoreActor H) (n : ℕ) (ids : List (Option FlowId)) (flow : StoredFlow)
      → MakesRoom n ids (flow_id_of flow) a
      → Retains n (ids ++ flow_id_of flow ∷ []) (push_flow flow a)
  push_flow-Retains a n ids flow h =
      (map-append flow_id_of a.state.flows (flow ∷ []) ∙ h.0, h.1, h.2)

  change-Retains :
      (n : ℕ) (ids : List (Option FlowId)) (a : StoreActor H) (flow_id : FlowId)
      (change : StoredFlow → StoredFlow)
      → ((flow : StoredFlow) → flow_id_of (change flow) ≡ flow_id_of flow)
      → Retains n ids a
      → Retains n ids (change_flow flow_id change a)
  change-Retains n ids a flow_id change keeps h =
      (update_flow-ids flow_id change keeps a.state.flows ∙ h.0, h.1, h.2)

  first_decoder-Framed :
      (flow_id : FlowId) (d : Option (ProtocolDecoder H)) (a : StoreActor H)
      → Framed a (first_decoder flow_id d a)
  first_decoder-Framed flow_id none a = (refl, refl, refl, refl)
  first_decoder-Framed flow_id (some d) a = (refl, refl, refl, refl)

  set_decoder-Framed :
      (flow_id : FlowId) (d : Option (ProtocolDecoder H)) (a : StoreActor H)
      → Framed a (set_decoder flow_id d a)
  set_decoder-Framed flow_id none a = (refl, refl, refl, refl)
  set_decoder-Framed flow_id (some d) a = (refl, refl, refl, refl)

opened_flow-id :
    (run_id : RunId) (flow_id : FlowId) (t : TimestampPair) (client upstream : Endpoint)
    (protocol : Option Bytes)
    → flow_id_of (opened_flow run_id flow_id t client upstream protocol) ≡ some flow_id
opened_flow-id run_id flow_id t client upstream none = refl
opened_flow-id run_id flow_id t client upstream (some protocol) = refl

add_bytes-id :
    (d : Direction) (bytes : ℕ) (flow : StoredFlow)
    → flow_id_of (add_bytes d bytes flow) ≡ flow_id_of flow
unfolding add_bytes
add_bytes-id client_to_server bytes flow = refl
add_bytes-id server_to_client bytes flow = refl

module _ {H : Type 0} (parts : Parts H) where
  on_bytes-Framed :
      (a : StoreActor H) (flow_id : FlowId) (t : TimestampPair)
      (r : Option (ProtocolDecoder H × DecodeBatch))
      → Framed a (on_bytes parts a flow_id t r)
  on_bytes-Framed a flow_id t none = (refl, refl, refl, refl)
  on_bytes-Framed a flow_id t (some (d, batch)) =
      store_batch-Framed parts (keep_decoder flow_id d a) flow_id t batch

  kind-Retains :
      (n : ℕ) (ids : List (Option FlowId)) (a : StoreActor H) (flow_id : FlowId) (t : TimestampPair)
      (kind : ObservationKind)
      → 0 < n
      → Retains n ids a
      → Retains n
          (ids ++ opened_ids (new_observation flow_id t kind ∷ []))
          (apply parts a (new_observation flow_id t kind))
  unfolding apply
  kind-Retains n ids a flow_id t (bytes_seen direction bytes) p h =
      let r =
        Option.map (λ d. Decoders.push parts d direction bytes)
          (get (λ f. f == flow_id) a.decoders) in
      rw append-nil
        (Retains-Framed n ids a (on_bytes parts a flow_id t r) (on_bytes-Framed a flow_id t r) h)
  kind-Retains n ids a flow_id t (opened client upstream protocol) p h =
      let flow = opened_flow a.run_id flow_id t client upstream protocol in
      let room = evict_lem a n ids (flow_id_of flow) p h in
      let b = push_flow flow (evict a) in
      let d = Option.bind protocol (decoder_for parts a.max_body) in
      let r =
        Retains-Framed n (ids ++ flow_id_of flow ∷ []) b (first_decoder flow_id d b)
          (first_decoder-Framed flow_id d b) (push_flow-Retains (evict a) n ids flow room) in
      subst (λ i. Retains n (ids ++ i ∷ []) (first_decoder flow_id d b))
        (opened_flow-id a.run_id flow_id t client upstream protocol) r
  kind-Retains n ids a flow_id t (identified identity) p h =
      rw append-nil (change-Retains n ids a flow_id (set_identity identity) (λ flow. refl) h)
  kind-Retains n ids a flow_id t (protocol_detected protocol) p h =
      let b = change_flow flow_id (set_protocol protocol) a in
      let d = decoder_for parts a.max_body protocol in
      rw append-nil (
        Retains-Framed n ids b (set_decoder flow_id d b) (set_decoder-Framed flow_id d b)
          (change-Retains n ids a flow_id (set_protocol protocol) (λ flow. refl) h))
  kind-Retains n ids a flow_id t (transferred direction bytes) p h =
      rw append-nil (
        change-Retains n ids a flow_id (add_bytes direction bytes) (add_bytes-id direction bytes) h)
  kind-Retains n ids a flow_id t closed p h = rw append-nil (
      change-Retains n ids (end_flow parts a flow_id t) flow_id (set_flow_state closed_flow)
        (λ flow. refl)
        (Retains-Framed n ids a (end_flow parts a flow_id t) (end_flow-Framed parts a flow_id t) h))
  kind-Retains n ids a flow_id t (failed reason) p h = rw append-nil (
      change-Retains n ids (end_flow parts a flow_id t) flow_id (set_failed reason) (λ flow. refl)
        (Retains-Framed n ids a (end_flow parts a flow_id t) (end_flow-Framed parts a flow_id t) h))

  run-Retains :
      (n : ℕ) (ids : List (Option FlowId)) (a : StoreActor H) (es : List ObservationEvent)
      → 0 < n
      → Retains n ids a
      → Retains n (ids ++ opened_ids es) (run parts a es)
  unfolding run
  run-Retains n ids a [] p h = rw append-nil h
  run-Retains n ids a (e ∷ es) p h =
      subst (λ i. Retains n i (run parts (apply parts a e) es))
        (append_assoc ids (opened_ids (e ∷ [])) (opened_ids es)
          ∙ ap (ids ++◌) (sym (opened_ids-cons e es)))
        (run-Retains n (ids ++ opened_ids (e ∷ [])) (apply parts a e) es p
          (kind-Retains n ids a e.flow_id e.timestamp e.kind p h))

  -- Whatever is observed, a store of positive capacity retains the flows that opened last, in the
  -- order in which they opened, as many as its capacity allows; and it has counted the flows that
  -- it evicted, up to the greatest u64.
  pub run-newest :
      (max_flows run_id max_body : ℕ) (reveal : Bool) (es : List ObservationEvent)
      → 0 < max_flows
      → let a = run parts (Messages.with_inspection max_flows run_id max_body reveal) es in
        (map flow_id_of a.state.flows ≡ newest max_flows (opened_ids es))
        × (a.state.evicted ≡ min (length (opened_ids es) - max_flows) (u64_mod - 1))
  run-newest max_flows run_id max_body reveal es p =
      let r =
        run-Retains max_flows [] (Messages.with_inspection max_flows run_id max_body reveal) es p
          (rw drop-nil refl, omega arith, refl) in
      (r.0, r.1)
