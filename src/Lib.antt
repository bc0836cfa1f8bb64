-- ===== src/Lib.antt =====
-- Verification of the core logic of Lens, a local developer proxy. The proxy forwards connections,
-- observes them, decodes their bytes into messages, and keeps the newest flows for its user interface
-- and its exports. Modelled is the path from observed bytes to retained messages, and what of an export
-- is sent again.
--
-- Text      Rust text as its UTF-8 bytes, and the standard library's functions on text that the
--           crates use: UTF-8 itself, splitting and trimming, decimal and hexadecimal numbers.
-- Core      crates/lens-core/src/lib.rs: identifiers, the event envelope, endpoints, observations,
--           flow, message and session records, errors, the fixed clock. The builders `with_...` keep
--           their names; `EventEnvelope::new` is `new_envelope`, and so on.
-- Protocol  crates/lens-protocol/src/lib.rs: `DecodedMessage`, `DecodeBatch`, and the trait
--           `StreamingDecoder` as a record of operations.
-- Redis     crates/lens-proto-redis/src/lib.rs. `parse_value` is `Redis.Parse.parse_value`, which
--           unfolds into one function for each arm of its match; `to_message` and what it calls are in
--           Redis.Message; `RedisDecoder` is in Redis.Decoder, whose `push` and `finish` return the new
--           decoder with the batch, and whose `decode_loop` is the loop of `decode_available`.
-- Http1     crates/lens-proto-http1/src/lib.rs. `ParsedHead::parse` is `Http1.Head.parse`, with the
--           loop over the header lines as `add_lines`; `DirectionState::step`, `consume_pending` and
--           `finish` are in Http1.Body, where `chunk_round` is one round of the loop over a chunked
--           body; `Http1Decoder` is in Http1.Decoder, where `process_loop` is the loop of `process`.
-- Postgres  crates/lens-proto-postgres/src/lib.rs. Numbers and strings are in Postgres.Wire;
--           `decode_frontend` is in Postgres.Message and `decode_backend` in Postgres.Backend, with a
--           function for each arm that reads its payload; `PostgresDecoder` is in Postgres.Decoder,
--           where a step takes the direction's buffer and returns what is left of it, and
--           `process_loop` is the loop of `process`.
-- Redact    crates/lens-redact/src/lib.rs. `is_sensitive_name` is in Redact.Names, `redact_start_line`,
--           `redact_pairs` and `percent_decode_name` in Redact.Pairs, `redact_sql_literals` in
--           Redact.Sql, where `sql_token` is one round of its loop, `redact_redis` in Redact.Redis,
--           and `Redactor::redact` in Redact.Redactor. The regular expression for secrets in JSON, of
--           the regex package, is the parameter `JsonSecret`, of which nothing is assumed.
-- Replay    crates/lens-replay/src/lib.rs. `parse_wire` and `replay_headers` are in Replay.Wire, the plan
--           and its guards (`validate_execution`) in Replay.Guard, and `plan_from_flow`, the choice of
--           a flow in `parse_plan` (as `plan_from_flows`) and `compare_body` in Replay.Plan. The
--           packages http and base64 and the parser of addresses are the record `Packages`, of which
--           nothing is assumed.
-- Store     crates/lens-store/src/lib.rs. `StoreActor::apply`, `store_batch` and `run` are functions
--           from actor to actor in Store.Actor and Store.Messages; `find_flow_mut` with the change that
--           is made of what it finds is `update_flow`; a HashMap is a list of entries (Store.Table).
--           The JSON is in Store.Json, with the base64 package as a parameter, and `service_map` is
--           in Store.ServiceMap, where a BTreeMap is the list of its entries in order.
--
-- The store drives the Redis, HTTP/1 and PostgreSQL decoders and the redactor themselves. The decoder
-- of crates/lens-proto-http2, the redactor's regular expression and the plugin host of
-- crates/lens-plugin are fields of the record `Parts`, of which nothing is assumed.
--
-- Numbers are natural numbers; u64 additions saturate where the source says so, and usize has 64 bits.
-- Assertions of the source, that a capacity or a cap is positive, are conditions of theorems where they
-- matter. A parse of nested Redis values goes down at most 32 levels, as the source's MAX_NESTING says.
-- The loops of the decoders run on fuel, one more than the buffer has bytes; each round that goes on
-- takes a byte, so the fuel is never used up. The loops over SQL and over the strings of a PostgreSQL
-- message run on as much fuel as there are bytes.
--
-- Not modelled: the network and terminal parts (crates/lens-proxy, lens-tui, lens-cli), certificates
-- (lens-tls), system calls (lens-platform, lens-ebpf, drivers), the plugin host's WebAssembly engine
-- (lens-plugin), the files, the JSON and the network of replays (lens-replay), the HTTP/2 decoder, which
-- rests on the HPACK decoder of another package, the operating system's clock, and the lock and the
-- channel around the store, which has one writer.
pub mod Prelude
pub mod Text
pub mod Core
pub mod Protocol
pub mod Redis
pub mod Postgres
pub mod Redact
pub mod Replay
pub mod Store
pub mod Http1
