-- ===== src/Store/Ending.antt =====
-- The end of a flow.
use lens.Core.{
  new_observation, FlowId, Direction, TimestampPair, ObservationKind, bytes_seen, closed, failed,
  client_to_server, server_to_client,
}
use lens.Prelude.{
  Bool, true, List, [], ◌∷◌, Option, none, some, ◌==◌, ◌≡◌, refl, ap, ◌∙◌, Bool-cases, Option-cases,
  inl, inr, &&_true,
}
use lens.Store.Actor.{apply, end_flow, flush_decoder, drop_decoder}
use lens.Store.Decoders
use lens.Store.Decoders.{Parts, ProtocolDecoder}
use lens.Store.Frame.{store_batch-decoders}
use lens.Store.Messages.{StoreActor, store_batch, same_key, of_flow}
use lens.Store.Table.{get, remove}
use lens.Text.{Bytes, eq_bytes}

-- A key that passes a test is not found once the keys are removed that pass a test it implies.
pub get-remove {ℓ κ} :
    {K : Type ℓ} {V : Type κ} (p q : K → Bool)
    → ((k : K) → q k ≡ true → p k ≡ true)
    → (entries : List (K × V)) → get q (remove p entries) ≡ none
get-remove p q h [] = refl
get-remove p q h ((k, v) ∷ entries) = elim (Bool-cases (p k)) [
  | inl e ↦ rw (e, remove) (get-remove p q h entries)
  | inr e ↦ elim (Bool-cases (q k)) [
    | inl f ↦ absurd (cc (e, h k f))
    | inr f ↦ rw (e, f, remove, get) (get-remove p q h entries)
  ]
]

-- The two observations that end a flow: it was closed, or it failed for a reason.
abbrev pub ending : Option Bytes → ObservationKind
ending none = closed
ending (some reason) = failed reason

module _ {H : Type 0} (parts : Parts H) where
  flushed-decoders :
      (a : StoreActor H) (flow_id : FlowId) (t : TimestampPair) (d : ProtocolDecoder H)
      → get (λ f. f == flow_id) (flush_decoder parts a flow_id t (some d)).decoders ≡ none
  flushed-decoders a flow_id t d =
      let (d', client) = Decoders.finish parts d client_to_server in
      let (d'', server) = Decoders.finish parts d' server_to_client in
      let half = store_batch parts (drop_decoder flow_id a) flow_id t client in
      ap (get (λ f. f == flow_id)) (
        store_batch-decoders parts half flow_id t server
        ∙ store_batch-decoders parts (drop_decoder flow_id a) flow_id t client)
      ∙ get-remove (λ f. f == flow_id) (λ f. f == flow_id) (λ k h. h) a.decoders

  flush_decoder-decoders :
      (a : StoreActor H) (flow_id : FlowId) (t : TimestampPair)
      → get
          (λ f. f == flow_id)
          (flush_decoder parts a flow_id t (get (λ f. f == flow_id) a.decoders)).decoders
        ≡ none
  flush_decoder-decoders a flow_id t = elim (Option-cases (get (λ f. f == flow_id) a.decoders)) [
    | inl e ↦ rw (e, flush_decoder) e
    | inr (d, e) ↦ rw (e, flush_decoder) (flushed-decoders a flow_id t d)
  ]

  end_flow_lem :
      (a : StoreActor H) (flow_id : FlowId) (t : TimestampPair) (stream_id : Bytes)
      → let a' = end_flow parts a flow_id t in
        (get (λ f. f == flow_id) a'.decoders ≡ none)
        × (get (same_key (flow_id, stream_id)) a'.pending_requests ≡ none)
  unfolding end_flow
  end_flow_lem a flow_id t stream_id = (
    flush_decoder-decoders a flow_id t,
    get-remove (of_flow flow_id) (same_key (flow_id, stream_id))
        (λ k h. (&&_true (k.0 == flow_id) (eq_bytes k.1 stream_id) h).0)
        (flush_decoder parts a flow_id t (get (λ f. f == flow_id) a.decoders)).pending_requests,
  )

  pub ending_lem :
      (a : StoreActor H) (flow_id : FlowId) (t : TimestampPair) (end : Option Bytes)
      (stream_id : Bytes)
      → let a' = apply parts a (new_observation flow_id t (ending end)) in
        (get (λ f. f == flow_id) a'.decoders ≡ none)
        × (get (same_key (flow_id, stream_id)) a'.pending_requests ≡ none)
  unfolding apply
  ending_lem a flow_id t none stream_id = end_flow_lem a flow_id t stream_id
  ending_lem a flow_id t (some reason) stream_id = end_flow_lem a flow_id t stream_id

  pub bytes_lem :
      (a : StoreActor H) (flow_id : FlowId) (t : TimestampPair) (direction : Direction)
      (bytes : Bytes)
      → get (λ f. f == flow_id) a.decoders ≡ none
      → apply parts a (new_observation flow_id t (bytes_seen direction bytes)) ≡ a
  unfolding apply
  bytes_lem a flow_id t direction bytes h = rw h refl
