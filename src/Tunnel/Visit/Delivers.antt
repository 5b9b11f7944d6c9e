-- ===== src/Tunnel/Visit/Delivers.antt =====
-- A whole visit: the peer's message, then a request.
use wisper.Prelude.{
  ℕ, ◌≡◌, ap, ◌∙◌, true, false, some, List, ◌∷◌, ◌++◌, length, concat, Bytes, get_u16_be,
}
use wisper.Prelude.Int.{pos}
use wisper.Prelude.Text.{TextCodec}
use wisper.Relay.Feature.{feature_addr, Value}
use wisper.Relay.Message.{version1, status_ok, find_feature, relay_response_from_wire}
use wisper.Relay.Result.{ok}
use wisper.Tunnel.Buffer.{index_of}
use wisper.Tunnel.Bind.Peer.{read_relay_response-Answered}
use wisper.Tunnel.Request.{Parsed, parse_http_request, is_chunked, content_length}
use wisper.Tunnel.Request.Fixed.{blank_line, read_http-fixed}
use wisper.Tunnel.Visit.{delivered, after_http, after_response, handle_stream}

module _ (codec : TextCodec) where
  open codec use {decode}

  -- A stream with the peer's message of status OK, whose features take as many bytes as its length field
  -- says, then a head without a blank line in it, a blank line, and a body of as many bytes as the head's
  -- Content-Length says, one at least, without chunked encoding, and anything behind: however the bytes
  -- are cut into chunks, the handler gets the parsed head, exactly that body, and the peer's address.
  pub handle_stream-delivers :
      (hi lo : ℕ) (features : Bytes) (values : List Value) (p : Parsed) (head : Bytes) (x : ℕ)
      (xs rest : Bytes) (cs : List Bytes)
      → length features ≡ get_u16_be hi lo
      → relay_response_from_wire codec (version1 ∷ status_ok ∷ hi ∷ lo ∷ features)
        ≡ ok (record { version = version1; status = status_ok; features = values })
      → index_of blank_line (head ++ (blank_line ++ ((x ∷ xs) ++ rest))) ≡ some (length head)
      → parse_http_request codec (decode head) ≡ some p
      → is_chunked p.headers ≡ false
      → content_length p.headers ≡ some (pos (length (x ∷ xs)))
      → concat cs
        ≡ version1
          ∷ status_ok
          ∷ hi
          ∷ lo
          ∷ (features ++ (head ++ (blank_line ++ ((x ∷ xs) ++ rest))))
      → handle_stream codec true cs
        ≡ delivered
            (record { head = p; payload = some (x ∷ xs) })
            (find_feature feature_addr values)
  unfolding handle_stream after_response after_http
  handle_stream-delivers hi lo features values p head x xs rest cs size reads first parses plain n
        e =
      let a =
        read_relay_response-Answered codec hi lo features values
          (head ++ (blank_line ++ ((x ∷ xs) ++ rest))) cs size reads e in
      ap (after_response codec true) a.answer
      ∙ ap (after_http (find_feature feature_addr values)) (
          read_http-fixed codec p head x xs rest a.carry a.left first parses plain n a.nothing_lost)
