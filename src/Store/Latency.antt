-- ===== src/Store/Latency.antt =====
-- The requests that wait for a response, as one queue for each stream of a flow.
use lens.Core.{FlowId}
use lens.Prelude.{
  ℕ, ◌-◌, Bool, true, false, List, [], ◌∷◌, ◌++◌, Option, none, some, ◌==◌, if◌then◌else◌, ◌≡◌,
  refl, ap, ◌∙◌, Bool-cases, &&_true, ==_iff, inl, inr,
}
use lens.Store.Messages.{Pending, same_key, start_request, take_request, track_latency}
use lens.Store.Table.{get, insert, remove}
use lens.Text.{Bytes, str, eq_bytes, eq_bytes_iff, eq_bytes_refl}
use mathlib.Core.Option.{get_or}

-- The times of the requests of a key, the oldest first.
abbrev pub queue : FlowId × Bytes → Pending → List ℕ
queue key pending = get_or (get (same_key key) pending) []

abbrev answer : ℕ → List ℕ → List ℕ × Option ℕ
answer mono [] = ([], none)
answer mono (started ∷ later) = (later, some (mono - started))

-- A message on the queue of its key: a request is put behind the others, a response takes the
-- oldest request, and its latency is counted from there.
unfoldable pub on_queue : Option Bytes → ℕ → List ℕ → List ℕ × Option ℕ
unfolding eq_bytes str
on_queue none mono times = (times, none)
on_queue (some boundary) mono times =
    if eq_bytes boundary (str "request")
    then (times ++ mono ∷ [], none)
    else if eq_bytes boundary (str "response")
    then answer mono times
    else (times, none)

same_key_refl : (key : FlowId × Bytes) → same_key key key ≡ true
same_key_refl (flow_id, stream_id) =
    rw (eq_bytes_refl stream_id, (==_iff flow_id flow_id).1 refl) refl

same_key_eq : (key k : FlowId × Bytes) → same_key key k ≡ true → k ≡ key
same_key_eq (flow_id, stream_id) (f, s) h =
    let (e, d) = &&_true (f == flow_id) (eq_bytes s stream_id) h in
    ap (λ x. (x, s)) ((==_iff f flow_id).0 e)
    ∙ ap (λ x. (flow_id, x)) ((eq_bytes_iff s stream_id).0 d)

get-remove_other {ℓ κ} :
    {K : Type ℓ} {V : Type κ} (p q : K → Bool)
    → ((k : K) → p k ≡ true → q k ≡ false)
    → (entries : List (K × V)) → get q (remove p entries) ≡ get q entries
get-remove_other p q h [] = refl
get-remove_other p q h ((k, v) ∷ entries) = elim (Bool-cases (p k)) [
  | inl e ↦ rw (e, h k e, remove, get) (get-remove_other p q h entries)
  | inr e ↦ elim (Bool-cases (q k)) [
    | inl f ↦ rw (e, f, remove, get) refl
    | inr f ↦ rw (e, f, remove, get) (get-remove_other p q h entries)
  ]
]

queue-insert :
    (key : FlowId × Bytes) (times : List ℕ) (pending : Pending)
    → queue key (insert (same_key key) key times pending) ≡ times
queue-insert key times pending = rw (same_key_refl key, get) refl

queue-insert_other :
    (key other : FlowId × Bytes) (times : List ℕ) (pending : Pending)
    → same_key other key ≡ false
    → queue other (insert (same_key key) key times pending) ≡ queue other pending
queue-insert_other key other times pending h =
    let found : get (same_key other) (insert (same_key key) key times pending)
        ≡ get (same_key other) pending =
      rw (h, get)
        (get-remove_other (same_key key) (same_key other)
          (λ k e. ap (same_key other) (same_key_eq key k e) ∙ h) pending) in
    ap (λ o. get_or o []) found

-- What a message's tracking makes of the queue of its key, and of another key's.
abbrev Tracks :
    FlowId × Bytes → FlowId × Bytes → Pending → List ℕ × Option ℕ → Pending × Option ℕ → Type 0
Tracks key other pending (times, latency) (pending', latency') =
    (queue key pending' ≡ times)
    × (latency' ≡ latency)
    × (queue other pending' ≡ queue other pending)

take_request-Tracks :
    (key other : FlowId × Bytes) (mono : ℕ) (pending : Pending) (o : Option (List ℕ))
    → same_key other key ≡ false
    → get (same_key key) pending ≡ o
    → Tracks key other pending (answer mono (get_or o [])) (take_request key mono pending o)
take_request-Tracks key other mono pending none h e = (ap (λ o. get_or o []) e, refl, refl)
take_request-Tracks key other mono pending (some []) h e = (ap (λ o. get_or o []) e, refl, refl)
take_request-Tracks key other mono pending (some (started ∷ later)) h e =
    (queue-insert key later pending, refl, queue-insert_other key other later pending h)

-- Tracking a message acts on the queue of its flow and stream as on_queue does, which answers the
-- requests in their order, gives the latency that on_queue gives, and leaves the queue of every
-- other flow or stream as it is.
pub track_latency-queue :
    (boundary : Option Bytes) (key other : FlowId × Bytes) (mono : ℕ) (pending : Pending)
    → same_key other key ≡ false
    → let (pending', latency) = track_latency boundary key mono pending in
      let (times, expected) = on_queue boundary mono (queue key pending) in
      (queue key pending' ≡ times)
      × (latency ≡ expected)
      × (queue other pending' ≡ queue other pending)
unfolding track_latency on_queue start_request
track_latency-queue none key other mono pending h = (refl, refl, refl)
track_latency-queue (some boundary) key other mono pending h =
    elim (Bool-cases (eq_bytes boundary (str "request"))) [
      | inl e ↦
          rw (e, track_latency, on_queue)
            (
              queue-insert key (queue key pending ++ mono ∷ []) pending,
              refl,
              queue-insert_other key other (queue key pending ++ mono ∷ []) pending h,
            )
      | inr e ↦ elim (Bool-cases (eq_bytes boundary (str "response"))) [
        | inl f ↦
            rw (e, f, track_latency, on_queue)
              (take_request-Tracks key other mono pending (get (same_key key) pending) h refl)
        | inr f ↦ rw (e, f, track_latency, on_queue) (refl, refl, refl)
      ]
    ]
