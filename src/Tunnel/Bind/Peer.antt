-- ===== src/Tunnel/Bind/Peer.antt =====
-- The peer's message in front of a stream, however it is cut.
use wisper.Prelude.{
  ℕ, ◌+◌, ◌≤◌, ◌≡◌, refl, ap, ◌∙◌, List, [], ◌∷◌, ◌++◌, arith, length, drop, concat, length-append,
  Bytes, get_u16_be,
}
use wisper.Prelude.Text.{TextCodec}
use wisper.Relay.Feature.{feature_addr, Value}
use wisper.Relay.Message.{version1, status_ok, find_feature, relay_response_from_wire}
use wisper.Relay.Result.{ok}
use wisper.Tunnel.Buffer.Cuts.{bytes_of, cut, fill-Filled}
use wisper.Tunnel.Bind.{
  PeerResponse, peer, check_status, read_features, read_header, read_relay_response,
}

-- What a reader gets when it has read a message: the address, and exactly the bytes that follow.
pub record Answered (features : List Value) (after : Bytes) (r : PeerResponse) : Type 0 where
  pub carry : Bytes
  pub left : List Bytes
  pub answer : r ≡ peer (find_feature feature_addr features) carry left
  pub nothing_lost : bytes_of carry left ≡ after

module _ (codec : TextCodec) (hi lo : ℕ) (features : Bytes) (values : List Value) where
  read_features-Answered :
      (after buf : Bytes) (cs : List Bytes)
      → length features ≡ get_u16_be hi lo
      → relay_response_from_wire codec (version1 ∷ status_ok ∷ hi ∷ lo ∷ features)
        ≡ ok (record { version = version1; status = status_ok; features = values })
      → bytes_of buf cs ≡ features ++ after
      → Answered values after (read_features codec version1 status_ok hi lo buf cs)
  unfolding read_features check_status
  read_features-Answered after buf cs size reads e =
      let total : length (bytes_of buf cs) ≡ length features + length after =
        ap length e ∙ length-append features after in
      let f = fill-Filled (get_u16_be hi lo) buf cs (omega arith) in
      let parts = cut features after f.buf (concat f.left) (f.same ∙ e) (omega arith) in
      record {
        carry = drop (get_u16_be hi lo) f.buf;
        left = f.left;
        answer = rw (f.is_some, read_features, ← size, parts.0, reads) refl;
        nothing_lost = rw size at parts.1;
      }

  read_header-Answered :
      (after buf : Bytes) (cs : List Bytes)
      → length features ≡ get_u16_be hi lo
      → relay_response_from_wire codec (version1 ∷ status_ok ∷ hi ∷ lo ∷ features)
        ≡ ok (record { version = version1; status = status_ok; features = values })
      → bytes_of buf cs ≡ version1 ∷ status_ok ∷ hi ∷ lo ∷ (features ++ after)
      → 4 ≤ length buf
      → Answered values after (read_header codec buf cs)
  unfolding read_header
  read_header-Answered after [] cs size reads e h = absurd (omega arith)
  read_header-Answered after (a ∷ []) cs size reads e h = absurd (omega arith)
  read_header-Answered after (a ∷ b ∷ []) cs size reads e h = absurd (omega arith)
  read_header-Answered after (a ∷ b ∷ c ∷ []) cs size reads e h = absurd (omega arith)
  read_header-Answered after (a ∷ b ∷ c ∷ d ∷ buf) cs size reads e h =
      let version : a ≡ version1 = cc e in
      let status : b ≡ status_ok = cc e in
      let high : c ≡ hi = cc e in
      let low : d ≡ lo = cc e in
      rw (version, status, high, low) (read_features-Answered after buf cs size reads (cc e))

  -- A message of the peer with the status OK, whose features take as many bytes as its length field
  -- says, and anything behind it: however the bytes are cut into the chunks of the stream,
  -- `_readRelayResponse` gives the address among the features, and what it carries over and what the
  -- stream has left are exactly the bytes behind the message.
  pub read_relay_response-Answered :
      (after : Bytes) (cs : List Bytes)
      → length features ≡ get_u16_be hi lo
      → relay_response_from_wire codec (version1 ∷ status_ok ∷ hi ∷ lo ∷ features)
        ≡ ok (record { version = version1; status = status_ok; features = values })
      → concat cs ≡ version1 ∷ status_ok ∷ hi ∷ lo ∷ (features ++ after)
      → Answered values after (read_relay_response codec cs)
  unfolding read_relay_response
  read_relay_response-Answered after cs size reads e =
      let f = fill-Filled 4 [] cs (omega (arith, ap length e)) in
      rw (f.is_some, read_relay_response)
        (read_header-Answered after f.buf f.left size reads (f.same ∙ e) f.enough)
