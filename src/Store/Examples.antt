-- ===== src/Store/Examples.antt =====
-- The properties of the store, applied to the runs of its tests.
use lens.Core.{
  bytes_seen, client_to_server, new_observation, u64_mod, ObservationEvent, TimestampPair,
  MessageRecord,
}
use lens.Prelude.{
  refl, inl, inr, ◌<◌, filter_map, ◌≡◌, All, map, min, length, ◌-◌, arith, false, none, some, [],
  ◌∷◌, ◌++◌, List, ◌==◌,
}
use lens.Store.Actor.{apply, run}
use lens.Store.Contents.{run-FlowInv}
use lens.Store.Ending.{ending}
use lens.Store.Quiet.{ending-IsFinal}
use lens.Store.Flow.{flow_id_of, snapshot, update_flow}
use lens.Store.Messages
use lens.Store.Latency.{queue, on_queue, track_latency-queue}
use lens.Store.Messages.{store_batch, Pending, track_latency, StoreActor, same_key}
use lens.Store.Newest.{newest}
use lens.Store.Held.{held}
use lens.Store.Private.{ConcealsEach, store_batch-Conceals}
use lens.Protocol.{DecodeBatch, need_more}
use mathlib.Core.Option
use lens.Store.Retention.{opened_ids, run-newest}
use lens.Store.Shown.{FlowInv}
use lens.Store.Json.{quoted}
use lens.Store.ReadJson.{read_string, read_string-quoted}
use lens.Store.Counts.{total, NodeBalanced, service_map-counts}
use lens.Store.ServiceMap.{ServiceNode, service_map}
use lens.Store.Table.{get}
use lens.Redis.Parse.{parse_value}
use lens.Redis.Message.{to_message}
use lens.Store.Tests.{hiding, opening, ping}
use lens.Text.{str}

abbrev three_flows : List ObservationEvent
three_flows = ping ++ opening 2 ∷ opening 3 ∷ []

run-newest_example :
    (map flow_id_of (run hiding (Messages.with_inspection 2 7 1024 false) three_flows).state.flows
      ≡ newest 2 (opened_ids three_flows))
    × ((run hiding (Messages.with_inspection 2 7 1024 false) three_flows).state.evicted
        ≡ min (length (opened_ids three_flows) - 2) (u64_mod - 1))
run-newest_example = run-newest hiding 2 7 1024 false three_flows (omega arith)

run-FlowInv_example :
    All
      (FlowInv hiding false)
      (run hiding (Messages.with_inspection 2 7 1024 false) ping).state.flows
run-FlowInv_example = run-FlowInv hiding 2 7 1024 false ping

abbrev at_end : TimestampPair
at_end = record { mono_nanos = 90; wall_nanos = 180 }

abbrev hiding_store : StoreActor Unit
hiding_store = run hiding (Messages.new 2 7) (opening 1 ∷ [])

hiding_store-reveal : hiding_store.reveal ≡ false
unfolding run
hiding_store-reveal = refl

abbrev login : DecodeBatch
login = record need_more {
  messages =
      record {
        direction = client_to_server;
        start_line = str "GET / HTTP/1.1";
        headers = (str "Host", str "shop") ∷ (str "Authorization", str "Bearer abc") ∷ [];
        body = [];
        truncated = false;
      }
      ∷ [];
}

store_batch-Conceals_example :
    let stored = store_batch hiding hiding_store 1 at_end login in
    ((records : List MessageRecord) × ConcealsEach hiding login.messages records
      × (held 1 stored.state.flows
          ≡ Option.map (λ messages. messages ++ records) (held 1 hiding_store.state.flows)))
    × (held 2 stored.state.flows ≡ held 2 hiding_store.state.flows)
store_batch-Conceals_example =
    store_batch-Conceals hiding hiding_store 1 2 at_end login hiding_store-reveal refl

abbrev seen : StoreActor Unit
seen = run hiding (Messages.new 2 7) ping

abbrev later : TimestampPair
later = record { mono_nanos = 95; wall_nanos = 190 }

abbrev ended : StoreActor Unit
ended = apply hiding seen (new_observation 1 at_end (ending none))

-- Bytes of the flow that ended, and another flow that opens.
abbrev afterwards : List ObservationEvent
afterwards = new_observation 1 later (bytes_seen client_to_server (str "PING\r\n")) ∷ opening 2 ∷ []

ending-IsFinal_example :
    (get (λ f. f == 1) ended.decoders ≡ none)
    × (get (same_key (1, [])) ended.pending_requests ≡ none)
    × (get (λ f. f == 1) (run hiding ended afterwards).decoders ≡ none)
    × (apply hiding
          (run hiding ended afterwards)
          (new_observation 1 later (bytes_seen client_to_server (str "PING\r\n")))
        ≡ run hiding ended afterwards)
ending-IsFinal_example =
    ending-IsFinal hiding seen 1 at_end later none [] afterwards client_to_server (str "PING\r\n")
      (inr tt, (inl refl, tt))

read_string-quoted_example :
    read_string (quoted (str "say \"hi\"\n") ++ str ",") ≡ some (str "say \"hi\"\n", str ",")
read_string-quoted_example = read_string-quoted (str "say \"hi\"\n") (str ",")

length-seen : length (snapshot seen.state).flows < u64_mod
unfolding run update_flow parse_value to_message filter_map str
length-seen = omega arith

service_map-counts_example :
    (total (λ (n : ServiceNode). n.flows) (service_map (snapshot seen.state))
      ≡ length (snapshot seen.state).flows)
    × All NodeBalanced (service_map (snapshot seen.state))
service_map-counts_example = service_map-counts (snapshot seen.state) length-seen

-- Two requests wait in a stream of flow 1, and one in flow 2.
abbrev waiting : Pending
waiting = ((1, []), 20 ∷ 30 ∷ []) ∷ ((2, []), 25 ∷ []) ∷ []

track_latency-queue_example :
    (queue (1, []) (track_latency (some (str "response")) (1, []) 65 waiting).0
      ≡ (on_queue (some (str "response")) 65 (queue (1, []) waiting)).0)
    × ((track_latency (some (str "response")) (1, []) 65 waiting).1
        ≡ (on_queue (some (str "response")) 65 (queue (1, []) waiting)).1)
    × (queue (2, []) (track_latency (some (str "response")) (1, []) 65 waiting).0
        ≡ queue (2, []) waiting)
track_latency-queue_example =
    track_latency-queue (some (str "response")) (1, []) (2, []) 65 waiting refl
