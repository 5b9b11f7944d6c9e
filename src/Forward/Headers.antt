-- ===== src/Forward/Headers.antt =====
-- Headers in forwarder.js: look-ups, tokens, classification, and what goes on to the backend.
pub mod Allowed
use wisper.Prelude.{
  ℕ, zero, suc, ◌+◌, ◌-◌, ◌*◌, ◌/◌, ◌%◌, ◌^◌, ◌≤◌, ◌<◌, min, ◌≡◌, refl, sym, ap, ◌∙◌, ◌≢◌, ◌↔◌, ◌⊎◌,
  inl, inr, Bool, true, false, not, ◌&&◌, ◌||◌, Option, none, some, List, [], ◌∷◌, ◌++◌, map,
  append-nil, append_assoc, arith, ltb, leb, ◌==◌, if◌then◌else◌, ==_iff, Bool-cases, Option-cases,
  length, get_elem?, get_or, set, take, drop, All, concat, length-append, take-append-drop,
  length-take, length-drop, take-append_left, drop-append_left, take-append_le, drop-append_le,
  All-append, Bytes, IsByte, u8, u16_be, get_u16_be, u16_le, get_u16_le, u32_le, get_u32_le,
  get_u16_be-u16_be, get_u16_le-u16_le, get_u32_le-u32_le, subst, if-both,
}
use wisper.Prelude.Text.{Text, codes, text_eq, split, trim, to_lower}
use wisper.Tunnel.Request.{Headers, get_header}

-- `firstHeader(headers, name)`
unfoldable pub first_header : Headers → Text → Option Text
unfolding get_header
first_header hs name = elim (get_header name hs) [ none ↦ none | some vs ↦ get_elem? vs 0 ]

unfoldable pub has_part : Text → List Text → Bool
unfolding text_eq trim to_lower
has_part token [] = false
has_part token (p ∷ ps) = text_eq (to_lower (trim p)) token || has_part token ps

unfoldable pub has_token : Text → List Text → Bool
unfolding has_part split
has_token token [] = false
has_token token (v ∷ vs) = has_part token (split b',' v) || has_token token vs

-- `headerHasToken(headers, name, token)`
unfoldable pub header_has_token : Headers → Text → Text → Bool
unfolding get_header has_token to_lower
header_has_token hs name token = elim (get_header name hs) [
  | none ↦ false
  | some vs ↦ has_token (to_lower token) vs
]

-- `isWebSocketUpgrade(headers)`
unfoldable pub is_web_socket_upgrade : Headers → Bool
unfolding header_has_token first_header text_eq to_lower
is_web_socket_upgrade hs =
    header_has_token hs (codes "connection") (codes "upgrade")
    && elim (first_header hs (codes "upgrade")) [
      | none ↦ false
      | some v ↦ text_eq (to_lower v) (codes "websocket")
    ]

abbrev pub hop_by_hop : List Text
hop_by_hop =
    codes "connection"
    ∷ codes "keep-alive"
    ∷ codes "proxy-authorization"
    ∷ codes "proxy-authenticate"
    ∷ codes "te"
    ∷ codes "trailer"
    ∷ codes "transfer-encoding"
    ∷ codes "upgrade"
    ∷ []

unfoldable pub among : Text → List Text → Bool
unfolding text_eq
among name [] = false
among name (n ∷ ns) = text_eq n name || among name ns

-- `isHopByHopHeader(name)`
unfoldable pub is_hop_by_hop_header : Text → Bool
unfolding among to_lower
is_hop_by_hop_header name = among (to_lower name) hop_by_hop

abbrev pub pairs_of : Text → List Text → List (Text × Text)
pairs_of name [] = []
pairs_of name (v ∷ vs) = (name, v) ∷ pairs_of name vs

-- `fwdHeaders` of `forwardHTTP`: what is appended, in order
unfoldable pub forwarded_headers : Headers → List (Text × Text)
unfolding is_hop_by_hop_header text_eq to_lower
forwarded_headers [] = []
forwarded_headers ((name, vs) ∷ hs) =
    let rest = forwarded_headers hs in
    if is_hop_by_hop_header (to_lower name)
      || (text_eq (to_lower name) (codes "content-length")
          || text_eq (to_lower name) (codes "host"))
    then rest
    else pairs_of name vs ++ rest

-- `localEndpoint.lastIndexOf(':')` where it is behind the last `]`, as the text before and the text
-- behind that colon
unfoldable pub cut_port : Text → Option (Text × Text)
cut_port [] = none
cut_port (c ∷ cs) = elim (cut_port cs) [
  | some (host, port) ↦ some (c ∷ host, port)
  | none ↦ if (c == b':') && not (among_chars b']' cs) then some ([], cs) else none
]
  where
    among_chars : ℕ → Text → Bool
    among_chars k [] = false
    among_chars k (d ∷ ds) = (d == k) || among_chars k ds

abbrev with_port : Bool → Text → Text → Text
with_port secure host [] = host
with_port secure host (p ∷ ps) =
    if text_eq (p ∷ ps) (if secure then codes "443" else codes "80")
    then host
    else host ++ (b':' ∷ p ∷ ps)

-- `hostname || host`, and the port unless it is the scheme's own
abbrev authority : Bool → Text → Text → Text → Text
authority secure [] host port = with_port secure host port
authority secure (h ∷ hs) host port = with_port secure (h ∷ hs) port

-- `_urlAuthority(localEndpoint, hostname, scheme)`; `secure` is `https` or `wss`.
unfoldable pub url_authority : Text → Text → Bool → Text
unfolding cut_port
url_authority endpoint hostname secure = elim (cut_port endpoint) [
  | none ↦ authority secure hostname endpoint []
  | some (host, port) ↦ authority secure hostname host port
]
