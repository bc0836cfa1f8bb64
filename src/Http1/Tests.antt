-- ===== src/Http1/Tests.antt =====
-- Runs of the decoder, after the tests of crates/lens-proto-http1/src/lib.rs.
use lens.Core.{client_to_server, server_to_client}
use lens.Http1.Decoder
use lens.Http1.Decoder.{Http1Decoder}
use lens.Prelude.{◌≡◌, refl, [], ◌∷◌, map, List}
use lens.Protocol.{DecodedMessage, DecodeBatch}
use lens.Text.{Bytes, str}

unfoldable pub program : Unit {0}
unfolding Decoder.push Decoder.finish str
program = tt

abbrev bodies : DecodeBatch → List Bytes
bodies b = map (λ (m : DecodedMessage). m.body) b.messages

abbrev pub chunked_reply : Bytes
chunked_reply =
    str
      "HTTP/1.1 200 OK\r\nTransfer-Encoding: chunked\r\n\r\n4;x=y\r\nWiki\r\n5\r\npedia\r\n0\r\n\r\n"

chunked_run :
    bodies (Decoder.push (Decoder.new 6) server_to_client chunked_reply).1 ≡ str "Wikipe" ∷ []
unfolding program
chunked_run = refl

request_run :
    bodies
      (Decoder.push
        (Decoder.new 1024)
        client_to_server
        (str "POST /a HTTP/1.1\r\nContent-Length: 3\r\n\r\nabcGET / HTTP/1.1\r\n\r\n")).1
    ≡ str "abc" ∷ [] ∷ []
unfolding program
request_run = refl
