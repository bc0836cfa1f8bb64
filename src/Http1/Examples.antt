-- ===== src/Http1/Examples.antt =====
-- The properties of the HTTP/1 decoder, applied to concrete streams.
use lens.Core.{client_to_server, server_to_client}
use lens.Http1.Bounded.{
  Reachable, created, pushed, DecoderInv, BatchInv, Reachable-DecoderInv, Reachable-BatchInv,
}
use lens.Http1.Decoder
use lens.Http1.Decoder.{Http1Decoder, state}
use lens.Http1.Head
use lens.Http1.Head.{ParsedHead}
use lens.Text.Result.{ok}
use lens.Http1.Length.{Agrees}
use lens.Http1.Lines.{AreFields, parse-Agrees}
use lens.Http1.Limits.{BodyFits}
use lens.Prelude.{List, All, ◌≡◌, refl, some, [], ◌∷◌, false}
use lens.Text.{Bytes, str}
use lens.Text.Utf8.{from_utf8}
use lens.Text.Words.{split_crlf}

abbrev request : Bytes
request = str "POST /a HTTP/1.1\r\nContent-Length: 12\r\n\r\nabc"

abbrev behind_request : Http1Decoder
behind_request = (Decoder.push (Decoder.new 8) client_to_server request).0

abbrev reply : Bytes
reply = str "HTTP/1.1 200 OK\r\nTransfer-Encoding: chunked\r\n\r\n5\r\nhello\r\n0\r\n\r\n"

behind_request-Reachable : Reachable 8 behind_request
behind_request-Reachable = pushed client_to_server request created

Reachable-DecoderInv_example : (behind_request.max_body ≡ 8) × DecoderInv behind_request
Reachable-DecoderInv_example = Reachable-DecoderInv 8 behind_request behind_request-Reachable

Reachable-BatchInv_example :
    BatchInv 8
      (state (Decoder.push behind_request server_to_client reply).0 server_to_client)
      (Decoder.push behind_request server_to_client reply).1
    × All (BodyFits 8) (Decoder.finish behind_request server_to_client).1.messages
Reachable-BatchInv_example =
    Reachable-BatchInv 8 behind_request server_to_client reply behind_request-Reachable

abbrev two_lengths : Bytes
two_lengths = str "POST /a HTTP/1.1\r\nContent-Length: 12\r\ncontent-length: 012"

abbrev two_lengths_head : ParsedHead
two_lengths_head = record {
  start_line = str "POST /a HTTP/1.1";
  headers = (str "Content-Length", str "12") ∷ (str "content-length", str "012") ∷ [];
  is_response = false;
  no_body_status = false;
  content_length = some 12;
  chunked = false;
}

two_lengths-parse : Head.parse two_lengths ≡ ok two_lengths_head
unfolding Head.parse str
two_lengths-parse = refl

parse-Agrees_example :
    ((text : Bytes) × (first : Bytes) × (lines : List Bytes) × (from_utf8 two_lengths ≡ some text)
      × (split_crlf [] text ≡ first ∷ lines)
      × AreFields lines two_lengths_head.headers)
    × All (Agrees two_lengths_head.content_length) two_lengths_head.headers
parse-Agrees_example = parse-Agrees two_lengths two_lengths_head two_lengths-parse
