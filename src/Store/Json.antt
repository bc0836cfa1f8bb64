-- ===== src/Store/Json.antt =====
-- crates/lens-store/src/lib.rs: the JSON that the store writes.
use lens.Core.{
  FlowId, ServiceIdentity, MessageRecord, Direction, direction_text, sensitivity_text,
  endpoint_text, flow_state_text,
}
use lens.Prelude.{
  ℕ, ◌/◌, ◌%◌, Bool, true, false, ◌&&◌, List, [], ◌∷◌, ◌++◌, Option, none, some, leb, ◌==◌,
  if◌then◌else◌, map, flatten,
}
use lens.Store.Flow.{PluginAnnotation, StoredFlow, StoreSnapshot}
use lens.Text.{Bytes, str, is_ascii_control, join}
use lens.Text.Number.{hex_digit, show}
use lens.Text.Utf8.{from_utf8_lossy}
use mathlib.Core.Option
use mathlib.Core.Option.{get_or}

-- `\u` and the four hexadecimal digits of a control character, which is below 256
abbrev pub unicode_escape : ℕ → Bytes
unicode_escape c = str "\\u00" ++ (hex_digit (c / 16) ∷ hex_digit (c % 16) ∷ [])

abbrev pub escape_ascii : ℕ → Bytes
escape_ascii c =
    if c == b'"'
    then str "\\\""
    else if c == b'\\'
    then str "\\\\"
    else if c == b'\n'
    then str "\\n"
    else if c == b'\r'
    then str "\\r"
    else if c == b'\t'
    then str "\\t"
    else if is_ascii_control c
    then unicode_escape c
    else c ∷ []

-- On the UTF-8 bytes of the text. The control characters U+0080 to U+009F are the byte 0xC2 and the
-- character's number, and no other character has a control character's bytes in it; the flag says
-- that a byte 0xC2 is still to be written.
unfoldable pub escape_from : Bool → Bytes → Bytes
unfolding str
escape_from false [] = []
escape_from true [] = 0xc2 ∷ []
escape_from false (c ∷ rest) =
    let next = escape_from (c == 0xc2) rest in if c == 0xc2 then next else escape_ascii c ++ next
escape_from true (d ∷ rest) =
    let next = escape_from false rest in
    if leb 0x80 d && leb d 0x9f then unicode_escape d ++ next else 0xc2 ∷ (escape_ascii d ++ next)

unfoldable pub escape_json : Bytes → Bytes
unfolding escape_from
escape_json = escape_from false

unfoldable pub quoted : Bytes → Bytes
unfolding escape_json
quoted text = b'"' ∷ (escape_json text ++ str "\"")

unfoldable pub json_string : Option Bytes → Bytes
unfolding quoted
json_string none = str "null"
json_string (some text) = quoted text

unfoldable pub json_number : Option ℕ → Bytes
json_number none = str "null"
json_number (some n) = show n

unfoldable pub json_bool : Bool → Bytes
json_bool true = str "true"
json_bool false = str "false"

unfoldable pub identity_json : Option ServiceIdentity → Bytes
unfolding json_string json_number
identity_json none = str "null"
identity_json (some identity) = flatten (
    str "{\"pid\":"
    ∷ json_number identity.pid
    ∷ str ",\"process\":"
    ∷ json_string identity.process
    ∷ str ",\"service\":"
    ∷ json_string identity.service
    ∷ str ",\"container\":"
    ∷ json_string identity.container
    ∷ str "}"
    ∷ [])

-- `message.envelope.direction.map(|value| value.to_string()).as_deref()`
abbrev direction_json : Option Direction → Bytes
direction_json direction = json_string (Option.map direction_text direction)

unfoldable pub plugin_event_json : FlowId → MessageRecord → Bytes
unfolding json_string quoted from_utf8_lossy
plugin_event_json flow_id m = flatten (
    str "{\"schema_version\":\"1.0\",\"event\":\"message.decoded\",\"flow_id\":"
    ∷ show flow_id
    ∷ str ",\"message_id\":"
    ∷ show (get_or m.envelope.message_id 0)
    ∷ str ",\"direction\":"
    ∷ direction_json m.envelope.direction
    ∷ str ",\"summary\":"
    ∷ quoted m.summary
    ∷ str ",\"body\":"
    ∷ quoted (from_utf8_lossy m.body)
    ∷ str ",\"truncated\":"
    ∷ json_bool m.truncated
    ∷ str ",\"sensitivity\":\""
    ∷ sensitivity_text m.envelope.sensitivity
    ∷ str "\"}"
    ∷ [])

abbrev annotation_json : PluginAnnotation → Bytes
annotation_json a =
    flatten (
      str "{\"plugin\":" ∷ quoted a.plugin_name ∷ str ",\"value\":" ∷ quoted a.value ∷ str "}" ∷ [])

abbrev array_of : List Bytes → Bytes
array_of values = b'[' ∷ (join (str ",") values ++ str "]")

unfoldable pub plugin_annotations_json : List PluginAnnotation → Bytes
unfolding quoted join
plugin_annotations_json annotations = array_of (map annotation_json annotations)

-- `base64` is `BASE64.encode`.
module _ (base64 : Bytes → Bytes) where
  abbrev message_json : MessageRecord → Bytes
  message_json m = flatten (
      str "{\"message_id\":"
      ∷ show (get_or m.envelope.message_id 0)
      ∷ str ",\"direction\":"
      ∷ direction_json m.envelope.direction
      ∷ str ",\"summary\":"
      ∷ quoted m.summary
      ∷ str ",\"body\":"
      ∷ quoted (from_utf8_lossy m.body)
      ∷ str ",\"wire_base64\":\""
      ∷ base64 m.body
      ∷ str "\",\"truncated\":"
      ∷ json_bool m.truncated
      ∷ str ",\"latency_nanos\":"
      ∷ json_number m.latency_nanos
      ∷ str ",\"sensitivity\":\""
      ∷ sensitivity_text m.envelope.sensitivity
      ∷ str "\"}"
      ∷ [])

  unfoldable pub messages_json : List MessageRecord → Bytes
  unfolding quoted join from_utf8_lossy
  messages_json messages = array_of (map message_json messages)

  unfoldable pub to_json_line : StoredFlow → Bytes
  unfolding messages_json plugin_annotations_json identity_json json_string quoted
  to_json_line flow = flatten (
      str "{\"schema_version\":\"1.3\",\"flow_id\":"
      ∷ show (get_or flow.record_of.envelope.flow_id 0)
      ∷ str ",\"client\":"
      ∷ quoted (endpoint_text flow.record_of.client)
      ∷ str ",\"upstream\":"
      ∷ quoted (endpoint_text flow.record_of.upstream)
      ∷ str ",\"identity\":"
      ∷ identity_json flow.record_of.identity
      ∷ str ",\"protocol\":"
      ∷ json_string flow.record_of.protocol
      ∷ str ",\"state\":\""
      ∷ flow_state_text flow.record_of.state
      ∷ str "\",\"client_to_upstream_bytes\":"
      ∷ show flow.client_to_upstream_bytes
      ∷ str ",\"upstream_to_client_bytes\":"
      ∷ show flow.upstream_to_client_bytes
      ∷ str ",\"failure\":"
      ∷ json_string flow.failure
      ∷ str ",\"decoder_error\":"
      ∷ json_string flow.decoder_error
      ∷ str ",\"plugin_annotations\":"
      ∷ plugin_annotations_json flow.plugin_annotations
      ∷ str ",\"plugin_failures\":"
      ∷ show flow.plugin_failures
      ∷ str ",\"messages\":"
      ∷ messages_json flow.messages
      ∷ str "}"
      ∷ [])

  unfoldable pub to_jsonl : StoreSnapshot → Bytes
  unfolding to_json_line join
  to_jsonl s = join (str "\n") (map to_json_line s.flows)

  unfoldable pub to_json : StoreSnapshot → Bytes
  unfolding to_json_line join
  to_json s = flatten (
      str "{\"evicted\":"
      ∷ show s.evicted
      ∷ str ",\"flows\":["
      ∷ join (str ",") (map to_json_line s.flows)
      ∷ str "]}"
      ∷ [])
