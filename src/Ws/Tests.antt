-- ===== src/Ws/Tests.antt =====
-- The theorems on WebSocket frames at concrete frames.
use wisper.Prelude.{
  ◌≡◌, refl, true, false, Option, none, some, List, [], ◌∷◌, ◌++◌, arith, concat, take, drop,
  append-nil, take-append-drop, Bytes,
}
use wisper.Ws.Frame.{op_cont, op_binary, MaskKey}
use wisper.Ws.Decoder.{dispatch, event, data_event}
use wisper.Ws.Decoder.Messages.{
  Message, text, ping, encode_all, events_of, continue, dispatch-fragments,
}
use wisper.Ws.Decoder.Cuts.{feed, feed-messages}
use wisper.Ws.Accept.{base64}

abbrev key : MaskKey
key = record { k0 = 17; k1 = 34; k2 = 51; k3 = 68 }

abbrev hello : Bytes
hello = b'h' ∷ b'e' ∷ b'l' ∷ b'l' ∷ b'o' ∷ []

abbrev two_messages : List (Message × Option MaskKey)
two_messages = (text hello, some key) ∷ (ping [], none) ∷ []

-- The first chunk ends in the payload of the first frame.
abbrev in_two_chunks : Bytes × Bytes
in_two_chunks = (take 8 (encode_all two_messages), drop 8 (encode_all two_messages))

in_two_chunks-concat : concat (in_two_chunks.0 ∷ in_two_chunks.1 ∷ []) ≡ encode_all two_messages
in_two_chunks-concat =
    rw (append-nil (drop 8 (encode_all two_messages)))
      (take-append-drop 8 (encode_all two_messages))

feed-messages_example :
    feed (in_two_chunks.0 ∷ in_two_chunks.1 ∷ []) (record { buf = []; frag = none })
    ≡ (events_of two_messages, record { buf = []; frag = none })
feed-messages_example =
    feed-messages (in_two_chunks.1 ∷ []) in_two_chunks.0 [] two_messages none
      (omega arith, (omega arith, tt)) in_two_chunks-concat

dispatch-fragments_example :
    dispatch true op_cont hello (continue (hello ∷ []) (dispatch false op_binary hello none).1)
    ≡ (event (data_event op_binary (hello ++ (concat (hello ∷ []) ++ hello))), none)
dispatch-fragments_example = dispatch-fragments op_binary hello hello (hello ∷ []) none refl

-- RFC 4648, section 10: the test vector `foob`.
base64-vector :
    base64 (b'f' ∷ b'o' ∷ b'o' ∷ b'b' ∷ [])
    ≡ b'Z' ∷ b'm' ∷ b'9' ∷ b'v' ∷ b'Y' ∷ b'g' ∷ b'=' ∷ b'=' ∷ []
unfolding base64
base64-vector = refl
