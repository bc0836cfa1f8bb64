-- ===== src/Store/Decoders.antt =====
-- crates/lens-store/src/lib.rs: `ProtocolDecoder`, and what the store is built from.
use lens.Core.{Direction}
use lens.Http1.Decoder as Http
use lens.Http1.Decoder.{Http1Decoder}
use lens.Postgres.Decoder as Postgres
use lens.Postgres.Decoder.{PostgresDecoder}
use lens.Prelude.{ℕ, ◌||◌, Option, none, some, if◌then◌else◌}
use lens.Protocol.{DecodeBatch, StreamingDecoder}
use lens.Redact.Redactor.{JsonSecret}
use lens.Redis.Decoder as Resp
use lens.Redis.Decoder.{RedisDecoder}
use lens.Store.Flow.{PluginRunReport}
use lens.Text.{Bytes, str, eq_bytes}

-- What the store uses of the crates that have no model here, and of other packages: the decoder of
-- crates/lens-proto-http2, the regular expression of crates/lens-redact, and `process` of the
-- plugin host of crates/lens-plugin, if plugins are enabled.
pub record Parts (H : Type 0) : Type 0 where
  pub http2_new : ℕ → H
  pub http2 : StreamingDecoder H
  pub json_secret : JsonSecret
  pub process : Option (Bytes → PluginRunReport)

pub data ProtocolDecoder (H : Type 0) : Type 0 where
  http1_with : Http1Decoder → ProtocolDecoder H
  http2_with : H → ProtocolDecoder H
  postgres_with : PostgresDecoder → ProtocolDecoder H
  redis_with : RedisDecoder → ProtocolDecoder H

module _ {H : Type 0} (parts : Parts H) where
  unfoldable pub push : ProtocolDecoder H → Direction → Bytes → ProtocolDecoder H × DecodeBatch
  unfolding Http.push Resp.push
  push (http1_with d) direction bytes =
      let (d', batch) = Http.push d direction bytes in (http1_with d', batch)
  push (http2_with d) direction bytes =
      let (d', batch) = parts.http2.push d direction bytes in (http2_with d', batch)
  push (postgres_with d) direction bytes =
      let (d', batch) = Postgres.push d direction bytes in (postgres_with d', batch)
  push (redis_with d) direction bytes =
      let (d', batch) = Resp.push d direction bytes in (redis_with d', batch)

  unfoldable pub finish : ProtocolDecoder H → Direction → ProtocolDecoder H × DecodeBatch
  unfolding Http.finish Resp.finish
  finish (http1_with d) direction =
      let (d', batch) = Http.finish d direction in (http1_with d', batch)
  finish (http2_with d) direction =
      let (d', batch) = parts.http2.finish d direction in (http2_with d', batch)
  finish (postgres_with d) direction =
      let (d', batch) = Postgres.finish d direction in (postgres_with d', batch)
  finish (redis_with d) direction =
      let (d', batch) = Resp.finish d direction in (redis_with d', batch)

  -- The decoder that `apply` makes for a protocol's name, when a flow opens with the protocol and
  -- when it is detected.
  unfoldable pub decoder_for : ℕ → Bytes → Option (ProtocolDecoder H)
  unfolding eq_bytes
  decoder_for max_body protocol =
      if eq_bytes protocol (str "http1")
      then some (http1_with (Http.new max_body))
      else if eq_bytes protocol (str "http2") || eq_bytes protocol (str "grpc")
      then some (http2_with (parts.http2_new max_body))
      else if eq_bytes protocol (str "postgres")
      then some (postgres_with (Postgres.new max_body))
      else if eq_bytes protocol (str "redis")
      then some (redis_with (Resp.new max_body))
      else none
