-- ===== src/Store/Quiet.antt =====
-- What a store does after the end of a flow.
use lens.Core.{
  new_observation, FlowId, Direction, TimestampPair, ObservationKind, ObservationEvent, bytes_seen,
  closed, failed, opened, identified, protocol_detected, transferred, client_to_server,
  server_to_client,
}
use lens.Prelude.{
  Bool, false, List, [], ◌∷◌, Option, none, some, ◌==◌, ==_iff, ◌≡◌, refl, sym, ap, ◌∙◌, subst, All,
  ◌⊎◌, Bool-cases, inl, inr, length,
}
use lens.Store.Actor.{
  apply, run, end_flow, flush_decoder, drop_decoder, keep_decoder, first_decoder, set_decoder,
  evict, pop_oldest, forget, on_bytes,
}
use lens.Store.Decoders
use lens.Store.Decoders.{Parts, ProtocolDecoder, decoder_for}
use lens.Store.Ending.{ending, ending_lem, bytes_lem}
use lens.Store.Flow.{StoredFlow, flow_id_of}
use lens.Store.Frame.{store_batch-decoders}
use lens.Store.Messages.{StoreActor, store_batch, same_key}
use lens.Store.Table.{get, remove}
use lens.Text.{Bytes}
use mathlib.Core.Option

-- The flow is neither opened, nor is a protocol detected for it.
abbrev pub IsQuietKind : ObservationKind → Type 0
IsQuietKind (opened client upstream protocol) = ⊥
IsQuietKind (protocol_detected protocol) = ⊥
IsQuietKind _ = Unit

-- An observation of another flow, or one that gives this flow no decoder.
abbrev pub IsQuiet : FlowId → ObservationEvent → Type 0
IsQuiet flow_id e = ((e.flow_id == flow_id) ≡ false) ⊎ IsQuietKind e.kind

get-remove_absent {ℓ κ} :
    {K : Type ℓ} {V : Type κ} (p q : K → Bool) (entries : List (K × V))
    → get q entries ≡ none
    → get q (remove p entries) ≡ none
get-remove_absent p q [] h = refl
get-remove_absent p q ((k, v) ∷ entries) h = elim (Bool-cases (q k)) [
  | inl f ↦ cc (rw (f, get) at h)
  | inr f ↦
      let later = get-remove_absent p q entries (rw (f, get) at h) in
      elim (Bool-cases (p k)) [
        | inl e ↦ rw (e, remove) later
        | inr e ↦ rw (e, f, remove, get) later
      ]
]

module _ {H : Type 0} (parts : Parts H) (flow_id : FlowId) where
  NoDecoder : StoreActor H → Type 0
  NoDecoder a = get (λ f. f == flow_id) a.decoders ≡ none

  drop_decoder-NoDecoder :
      (a : StoreActor H) (f : FlowId) → NoDecoder a → NoDecoder (drop_decoder f a)
  unfolding NoDecoder
  drop_decoder-NoDecoder a f h = get-remove_absent (λ g. g == f) (λ g. g == flow_id) a.decoders h

  keep_decoder-NoDecoder :
      (a : StoreActor H) (f : FlowId) (d : ProtocolDecoder H)
      → (f == flow_id) ≡ false
      → NoDecoder a
      → NoDecoder (keep_decoder f d a)
  unfolding NoDecoder
  keep_decoder-NoDecoder a f d other h =
      rw (other, get) (get-remove_absent (λ g. g == f) (λ g. g == flow_id) a.decoders h)

  first_decoder-NoDecoder :
      (a : StoreActor H) (f : FlowId) (o : Option (ProtocolDecoder H))
      → (f == flow_id) ≡ false
      → NoDecoder a
      → NoDecoder (first_decoder f o a)
  first_decoder-NoDecoder a f none other h = h
  first_decoder-NoDecoder a f (some d) other h = keep_decoder-NoDecoder a f d other h

  set_decoder-NoDecoder :
      (a : StoreActor H) (f : FlowId) (o : Option (ProtocolDecoder H))
      → (f == flow_id) ≡ false
      → NoDecoder a
      → NoDecoder (set_decoder f o a)
  set_decoder-NoDecoder a f none other h = drop_decoder-NoDecoder a f h
  set_decoder-NoDecoder a f (some d) other h = keep_decoder-NoDecoder a f d other h

  forget-NoDecoder : (a : StoreActor H) (o : Option FlowId) → NoDecoder a → NoDecoder (forget o a)
  unfolding NoDecoder
  forget-NoDecoder a none h = h
  forget-NoDecoder a (some f) h = get-remove_absent (λ g. g == f) (λ g. g == flow_id) a.decoders h

  pop_oldest-NoDecoder :
      (a : StoreActor H) (flows : List StoredFlow) → NoDecoder a → NoDecoder (pop_oldest a flows)
  unfolding NoDecoder
  pop_oldest-NoDecoder a [] h = h
  pop_oldest-NoDecoder a (oldest ∷ flows) h =
      forget-NoDecoder (record a { state = record a.state { flows = flows } }) (flow_id_of oldest) h

  evict-NoDecoder : (a : StoreActor H) → NoDecoder a → NoDecoder (evict a)
  unfolding evict NoDecoder
  evict-NoDecoder a h = elim (Bool-cases (length a.state.flows == a.max_flows)) [
    | inl e ↦ rw (e, evict) (pop_oldest-NoDecoder a a.state.flows h)
    | inr e ↦ rw (e, evict) h
  ]

  store_batch-NoDecoder :
      (a : StoreActor H) (f : FlowId) (t : TimestampPair) (batch : _)
      → NoDecoder a
      → NoDecoder (store_batch parts a f t batch)
  unfolding NoDecoder
  store_batch-NoDecoder a f t batch h =
      ap (get (λ g. g == flow_id)) (store_batch-decoders parts a f t batch) ∙ h

  flush_decoder-NoDecoder :
      (a : StoreActor H) (f : FlowId) (t : TimestampPair) (o : Option (ProtocolDecoder H))
      → NoDecoder a
      → NoDecoder (flush_decoder parts a f t o)
  flush_decoder-NoDecoder a f t none h = h
  flush_decoder-NoDecoder a f t (some d) h =
      let (d', client) = Decoders.finish parts d client_to_server in
      let (d'', server) = Decoders.finish parts d' server_to_client in
      store_batch-NoDecoder (store_batch parts (drop_decoder f a) f t client) f t server
        (store_batch-NoDecoder (drop_decoder f a) f t client (drop_decoder-NoDecoder a f h))

  end_flow-NoDecoder :
      (a : StoreActor H) (f : FlowId) (t : TimestampPair)
      → NoDecoder a
      → NoDecoder (end_flow parts a f t)
  unfolding end_flow NoDecoder
  end_flow-NoDecoder a f t h = flush_decoder-NoDecoder a f t (get (λ g. g == f) a.decoders) h

  on_bytes-NoDecoder :
      (a : StoreActor H) (f : FlowId) (t : TimestampPair) (direction : Direction) (bytes : Bytes)
      (o : Option (ProtocolDecoder H))
      → (f == flow_id) ≡ false
      → NoDecoder a
      → NoDecoder (on_bytes parts a f t (Option.map (λ d. Decoders.push parts d direction bytes) o))
  on_bytes-NoDecoder a f t direction bytes none other h = h
  on_bytes-NoDecoder a f t direction bytes (some d) other h =
      let (d', batch) = Decoders.push parts d direction bytes in
      store_batch-NoDecoder (keep_decoder f d' a) f t batch (keep_decoder-NoDecoder a f d' other h)

  -- Bytes that are seen of any flow.
  bytes-NoDecoder :
      (a : StoreActor H) (f : FlowId) (t : TimestampPair) (direction : Direction) (bytes : Bytes)
      → NoDecoder a
      → NoDecoder (apply parts a (new_observation f t (bytes_seen direction bytes)))
  unfolding apply NoDecoder
  bytes-NoDecoder a f t direction bytes h = elim (Bool-cases (f == flow_id)) [
    | inr other ↦ on_bytes-NoDecoder a f t direction bytes (get (λ g. g == f) a.decoders) other h
    | inl e ↦
        let same : flow_id ≡ f = sym ((==_iff f flow_id).0 e) in
        let none_of_f : get (λ g. g == f) a.decoders ≡ none =
          subst (λ x. get (λ g. g == x) a.decoders ≡ none) same h in
        ap (λ (b : StoreActor H). get (λ g. g == flow_id) b.decoders)
          (bytes_lem parts a f t direction bytes none_of_f)
        ∙ h
  ]

  apply-NoDecoder :
      (a : StoreActor H) (f : FlowId) (t : TimestampPair) (kind : ObservationKind)
      → ((f == flow_id) ≡ false) ⊎ IsQuietKind kind
      → NoDecoder a
      → NoDecoder (apply parts a (new_observation f t kind))
  unfolding apply NoDecoder
  apply-NoDecoder a f t (bytes_seen direction bytes) q h = bytes-NoDecoder a f t direction bytes h
  apply-NoDecoder a f t (opened client upstream protocol) (inl other) h =
      first_decoder-NoDecoder _ f (Option.bind protocol (decoder_for parts a.max_body)) other
        (evict-NoDecoder a h)
  apply-NoDecoder a f t (protocol_detected protocol) (inl other) h =
      set_decoder-NoDecoder _ f (decoder_for parts a.max_body protocol) other h
  apply-NoDecoder a f t (opened client upstream protocol) (inr q) h = absurd q
  apply-NoDecoder a f t (protocol_detected protocol) (inr q) h = absurd q
  apply-NoDecoder a f t (identified identity) q h = h
  apply-NoDecoder a f t (transferred direction bytes) q h = h
  apply-NoDecoder a f t closed q h = end_flow-NoDecoder a f t h
  apply-NoDecoder a f t (failed reason) q h = end_flow-NoDecoder a f t h

  run-NoDecoder :
      (a : StoreActor H) (es : List ObservationEvent)
      → All (IsQuiet flow_id) es
      → NoDecoder a
      → NoDecoder (run parts a es)
  unfolding run
  run-NoDecoder a [] q h = h
  run-NoDecoder a (e ∷ es) q h =
      run-NoDecoder (apply parts a e) es q.1 (apply-NoDecoder a e.flow_id e.timestamp e.kind q.0 h)

-- Once a flow was closed or failed, the store keeps no decoder of it and no request of it that waits
-- for its response. As long as it is not opened again and no protocol is detected for it, whatever
-- else is observed, of this flow or of others, it has no decoder, and bytes that are seen of it
-- change nothing.
pub ending-IsFinal :
    {H : Type 0} (parts : Parts H) (a : StoreActor H) (flow_id : FlowId) (t later : TimestampPair)
    (end : Option Bytes) (stream_id : Bytes) (es : List ObservationEvent) (direction : Direction)
    (bytes : Bytes)
    → All (IsQuiet flow_id) es
    → let a' = apply parts a (new_observation flow_id t (ending end)) in
      let a'' = run parts a' es in
      (get (λ f. f == flow_id) a'.decoders ≡ none)
      × (get (same_key (flow_id, stream_id)) a'.pending_requests ≡ none)
      × (get (λ f. f == flow_id) a''.decoders ≡ none)
      × (apply parts a'' (new_observation flow_id later (bytes_seen direction bytes)) ≡ a'')
unfolding NoDecoder
ending-IsFinal parts a flow_id t later end stream_id es direction bytes q =
    let a' = apply parts a (new_observation flow_id t (ending end)) in
    let (decoders, requests) = ending_lem parts a flow_id t end stream_id in
    let still = run-NoDecoder parts flow_id a' es q decoders in
    (
      decoders,
      requests,
      still,
      bytes_lem parts (run parts a' es) flow_id later direction bytes still,
    )
