-- ===== src/Tunnel/Tests.antt =====
-- The theorems on the tunnel's reader at concrete streams, in a codec that knows ASCII only.
use wisper.Prelude.{
  ◌^◌, ◌<◌, ◌≡◌, refl, true, false, some, List, [], ◌∷◌, ◌++◌, arith, length, All, concat, Bytes,
  IsByte, get_u16_be,
}
use wisper.Tunnel.Visit.{handle_stream, delivered}
use wisper.Tunnel.Visit.Delivers.{handle_stream-delivers}
use wisper.Prelude.Int.{pos}
use wisper.Prelude.Text.{to_lower, Text, TextCodec, codes}
use wisper.Tunnel.Buffer.{index_of, starts_with, next_index}
use wisper.Tunnel.Chunked.{body, read_chunked_body}
use wisper.Tunnel.Chunked.Decodes.{read_chunked_body-pipe_body}
use wisper.Tunnel.Request.{
  Parsed, request, parse_http_request, is_chunked, content_length, read_http,
}
use wisper.Tunnel.Request.Fixed.{blank_line, read_http-fixed}
use wisper.Forward.Body.{pipe_body}
use wisper.Relay.Feature.{network_value, decode_network}
use wisper.Relay.Message.{
  version1, status_ok, relay_response_from_wire, decode_features, decode_feature, decode_payload,
}
use wisper.Relay.Message.{find_feature}
use wisper.Relay.Feature.{feature_addr}
use wisper.Relay.Result.{ok}
use wisper.Tunnel.Connection.{Connection, connecting, close, message, ws_closed, run}
use wisper.Tunnel.Connection.Closed.{IsOver, run-close-IsOver}
use wisper.Tunnel.Id.{strip_dashes, uuid_to_tunnel_id_bytes}
use wisper.Tunnel.Id.Hex.{show_bytes, uuid_to_tunnel_id_bytes-show_bytes}

abbrev ascii : TextCodec
ascii = record {
  encode = λ s. s;
  decode = λ s. s;
  IsWellFormed = λ s. All (λ c. c < 128) s;
  decode-encode = λ s w. refl;
  encode-ascii = λ s h. refl;
  decode-ascii = λ b h. refl;
  lower_case = to_lower;
  lower_case-ascii = λ s h. refl;
}

abbrev values : List Bytes
values = codes "hey" ∷ [] ∷ codes "ho" ∷ []

values-short : All (λ v. length v < 2 ^ 32) values
values-short = (omega arith, (omega arith, (omega arith, tt)))

-- What `pipeBody` writes, with `GET` behind it, cut into two pieces.
abbrev carry : Bytes
carry = 51 ∷ 13 ∷ []

abbrev pieces : List Bytes
pieces =
    (10 ∷ b'h' ∷ b'e' ∷ b'y' ∷ 13 ∷ 10 ∷ 50 ∷ 13 ∷ 10 ∷ b'h' ∷ [])
    ∷ (b'o' ∷ 13 ∷ 10 ∷ 48 ∷ 13 ∷ 10 ∷ 13 ∷ 10 ∷ b'G' ∷ b'E' ∷ b'T' ∷ [])
    ∷ []

pieces-cut : carry ++ concat pieces ≡ concat (pipe_body true (some values)) ++ codes "GET"
unfolding pipe_body
pieces-cut = refl

read_chunked_body-pipe_body_example :
    (left : List Bytes) × (read_chunked_body ascii carry pieces ≡ body (concat values) left)
read_chunked_body-pipe_body_example =
    read_chunked_body-pipe_body ascii values carry pieces (codes "GET") values-short pieces-cut

abbrev head : Bytes
head = codes "POST /x HTTP/1.1" ++ (13 ∷ 10 ∷ codes "Content-Length: 2")

abbrev parsed : Parsed
parsed = record {
  method = codes "POST";
  path = codes "/x";
  headers = (codes "content-length", codes "2" ∷ []) ∷ [];
}

head-parsed : parse_http_request ascii head ≡ some parsed
unfolding parse_http_request to_lower
head-parsed = refl

head-plain : is_chunked parsed.headers ≡ false
unfolding is_chunked
head-plain = refl

head-length : content_length parsed.headers ≡ some (pos 2)
unfolding content_length
head-length = refl

head-first :
    index_of blank_line (head ++ (blank_line ++ (codes "ok" ++ codes "more"))) ≡ some (length head)
unfolding index_of starts_with next_index
head-first = refl

abbrev post_pieces : List Bytes
post_pieces = (head ++ (13 ∷ 10 ∷ [])) ∷ (13 ∷ 10 ∷ b'o' ∷ []) ∷ codes "kmore" ∷ []

post-cut : [] ++ concat post_pieces ≡ head ++ (blank_line ++ (codes "ok" ++ codes "more"))
post-cut = refl

read_http-fixed_example :
    read_http ascii [] post_pieces ≡ request (record { head = parsed; payload = some (codes "ok") })
read_http-fixed_example =
    read_http-fixed ascii parsed head b'o' (codes "k") (codes "more") [] post_pieces head-first
      head-parsed head-plain head-length post-cut

-- A message of the peer with one feature, the network, in two pieces, and a request behind it.
abbrev network_feature : Bytes
network_feature = 4 ∷ 0 ∷ 2 ∷ 0 ∷ 0 ∷ []

peer-reads :
    relay_response_from_wire ascii (version1 ∷ status_ok ∷ 0 ∷ 5 ∷ network_feature)
    ≡ ok (record { version = version1; status = status_ok; features = network_value 0 ∷ [] })
unfolding relay_response_from_wire decode_features decode_feature decode_payload decode_network
peer-reads = refl

peer-size : length network_feature ≡ get_u16_be 0 5
peer-size = omega arith

abbrev visit_pieces : List Bytes
visit_pieces =
    (1 ∷ 0 ∷ 0 ∷ [])
    ∷ (5 ∷ 4 ∷ 0 ∷ 2 ∷ 0 ∷ 0 ∷ head)
    ∷ (13 ∷ 10 ∷ 13 ∷ 10 ∷ b'o' ∷ [])
    ∷ codes "kmore"
    ∷ []

visit-cut :
    concat visit_pieces
    ≡ version1
      ∷ status_ok
      ∷ 0
      ∷ 5
      ∷ (network_feature ++ (head ++ (blank_line ++ (codes "ok" ++ codes "more"))))
visit-cut = refl

handle_stream-delivers_example :
    handle_stream ascii true visit_pieces
    ≡ delivered
        (record { head = parsed; payload = some (codes "ok") })
        (find_feature feature_addr (network_value 0 ∷ []))
handle_stream-delivers_example =
    handle_stream-delivers ascii 0 5 network_feature (network_value 0 ∷ []) parsed head b'o'
      (codes "k") (codes "more") visit_pieces peer-size peer-reads head-first head-parsed head-plain
      head-length visit-cut

abbrev id16 : Bytes
id16 = 1 ∷ 2 ∷ 3 ∷ 4 ∷ 5 ∷ 6 ∷ 7 ∷ 8 ∷ 9 ∷ 10 ∷ 11 ∷ 12 ∷ 13 ∷ 14 ∷ 15 ∷ 171 ∷ []

id16-bytes : All IsByte id16
id16-bytes = (
  omega arith,
  (
    omega arith,
    (
      omega arith,
      (
        omega arith,
        (
          omega arith,
          (
            omega arith,
            (
              omega arith,
              (
                omega arith,
                (
                  omega arith,
                  (
                    omega arith,
                    (
                      omega arith,
                      (omega arith, (omega arith, (omega arith, (omega arith, (omega arith, tt))))),
                    ),
                  ),
                ),
              ),
            ),
          ),
        ),
      ),
    ),
  ),
)

abbrev uuid : Text
uuid = codes "01020304-0506-0708-090a-0b0c0d0e0fab"

uuid-digits : strip_dashes uuid ≡ show_bytes id16
unfolding strip_dashes
uuid-digits = refl

uuid_to_tunnel_id_bytes-show_bytes_example :
    uuid_to_tunnel_id_bytes uuid ≡ some (id16 ++ (0 ∷ 0 ∷ 0 ∷ 0 ∷ []))
uuid_to_tunnel_id_bytes-show_bytes_example =
    uuid_to_tunnel_id_bytes-show_bytes id16 uuid id16-bytes refl uuid-digits

abbrev fresh_connection : Connection
fresh_connection = connecting (some (codes "https://abc.gost.run"))

run-close-IsOver_example :
    IsOver fresh_connection.fed
      (run ascii (message (1 ∷ 0 ∷ 0 ∷ 0 ∷ []) ∷ ws_closed ∷ []) (close true fresh_connection))
run-close-IsOver_example =
    run-close-IsOver ascii (message (1 ∷ 0 ∷ 0 ∷ 0 ∷ []) ∷ ws_closed ∷ []) true fresh_connection
