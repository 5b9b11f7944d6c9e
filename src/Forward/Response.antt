-- ===== src/Forward/Response.antt =====
-- `handleRequest` and `forwardHTTP` of forwarder.js, and the head that StreamHttpWriter writes.
--   The stream takes every write. `fetch` and `new URL` belong to the browser and are parameters. A
-- response's headers are what the iterator over `Headers` gives, and what getSetCookie gives beside it.
use wisper.Prelude.{
  ℕ, zero, suc, ◌+◌, ◌-◌, ◌*◌, ◌/◌, ◌%◌, ◌^◌, ◌≤◌, ◌<◌, min, ◌≡◌, refl, sym, ap, ◌∙◌, ◌≢◌, ◌↔◌, ◌⊎◌,
  inl, inr, Bool, true, false, not, ◌&&◌, ◌||◌, Option, none, some, List, [], ◌∷◌, ◌++◌, map,
  append-nil, append_assoc, arith, ltb, leb, ◌==◌, if◌then◌else◌, ==_iff, Bool-cases, Option-cases,
  length, get_elem?, get_or, set, take, drop, All, concat, length-append, take-append-drop,
  length-take, length-drop, take-append_left, drop-append_left, take-append_le, drop-append_le,
  All-append, Bytes, IsByte, u8, u16_be, get_u16_be, u16_le, get_u16_le, u32_le, get_u32_le,
  get_u16_be-u16_be, get_u16_le-u16_le, get_u32_le-u32_le, subst, if-both,
}
use wisper.Prelude.Text.{Text, TextCodec, codes, text_eq, join, to_lower, show_number}
use wisper.Tunnel.Request.{Headers, Parsed, Request}
use wisper.Forward.Auth.{Credentials, is_authorized}
use wisper.Forward.Body.{pipe_body}
use wisper.Forward.Headers.{
  is_hop_by_hop_header, is_web_socket_upgrade, forwarded_headers, url_authority, among,
}
pub mod Framed

abbrev pub Field : Type 0
Field = Text × Text

-- `respHeaders`. Without getSetCookie there is `none` for the cookies.
pub record ResponseHeaders : Type 0 where
  pub cookies : Option (List Text)
  pub entries : List Field

-- `respHeaders.get(name)`, for a name in lower case
unfoldable pub get_entry : Text → List Field → Option Text
unfolding text_eq to_lower
get_entry name [] = none
get_entry name ((n, v) ∷ es) = if text_eq (to_lower n) name then some v else get_entry name es

-- `respHeaders.has(name)`
unfoldable pub has_entry : Text → List Field → Bool
unfolding get_entry
has_entry name es = elim (get_entry name es) [ none ↦ false | some v ↦ true ]

-- The tests of the loop over the headers, on a name in lower case.
unfoldable pub is_skipped : Text → List Text → Bool
unfolding is_hop_by_hop_header text_eq among
is_skipped name seen =
    is_hop_by_hop_header name
    || (text_eq name (codes "content-encoding")
        || (text_eq name (codes "content-length")
            || (text_eq name (codes "transfer-encoding") || among name seen)))

-- The loop over the headers, from the names seen before.
unfoldable pub kept_entries : List Text → List Field → List Field
unfolding is_skipped to_lower
kept_entries seen [] = []
kept_entries seen ((name, value) ∷ es) =
    let skipped = kept_entries seen es in
    let kept = (name, value) ∷ kept_entries (to_lower name ∷ seen) es in
    if is_skipped (to_lower name) seen then skipped else kept

abbrev pub cookie_fields : List Text → List Field
cookie_fields [] = []
cookie_fields (c ∷ cs) = (codes "Set-Cookie", c) ∷ cookie_fields cs

abbrev pub cookies_of : ResponseHeaders → List Text
cookies_of hs = elim hs.cookies [ none ↦ [] | some cs ↦ cs ]

abbrev pub seen_of : List Text → List Text
seen_of [] = []
seen_of (c ∷ cs) = codes "set-cookie" ∷ []

-- `keepClen ? backendLen : …`: the length that is kept; `none` is a chunked body.
unfoldable pub kept_length : ResponseHeaders → Option Text
unfolding has_entry get_entry
kept_length hs =
    if has_entry (codes "content-encoding") hs.entries
    then none
    else get_entry (codes "content-length") hs.entries

abbrev pub framing_field : Option Text → Field
framing_field none = (codes "Transfer-Encoding", codes "chunked")
framing_field (some len) = (codes "Content-Length", len)

abbrev pub is_none : Option Text → Bool
is_none none = true
is_none (some t) = false

-- The lines of `writeHead`, as names and values.
unfoldable pub head_fields : ResponseHeaders → List Field
unfolding kept_entries kept_length
head_fields hs =
    cookie_fields (cookies_of hs)
    ++ (kept_entries (seen_of (cookies_of hs)) hs.entries ++ (framing_field (kept_length hs) ∷ []))

-- `this._chunked`
unfoldable pub chunked_of : ResponseHeaders → Bool
unfolding kept_length
chunked_of hs = is_none (kept_length hs)

abbrev pub line_of : Field → Text
line_of (name, value) = name ++ (codes ": " ++ value)

unfoldable pub lines_of : List Field → List Text
lines_of [] = []
lines_of (f ∷ fs) = line_of f ∷ lines_of fs

abbrev pub crlf : Text
crlf = 13 ∷ 10 ∷ []

unfoldable pub head_text : ℕ → Text → List Field → Text
unfolding lines_of join show_number
head_text status reason fields =
    codes "HTTP/1.1 "
    ++ (show_number 10 status
        ++ (32 ∷ (reason ++ (crlf ++ (join crlf (lines_of fields) ++ (crlf ++ crlf))))))

pub record Response : Type 0 where
  pub status : ℕ
  pub status_text : Text
  pub headers : ResponseHeaders
  pub payload : Option (List Bytes)
  pub redirected : Bool
  pub url : Text

-- What `fetch` gives: a response, or an error with its message.
pub data Fetched : Type 0 where
  fetched : Response → Fetched
  unreachable : Text → Fetched

-- What the code reads of `new URL(…)`.
pub record Url : Type 0 where
  pub origin : Text
  pub pathname : Text
  pub search : Text
  pub href : Text

pub record FetchCall : Type 0 where
  pub url : Text
  pub method : Text
  pub headers : List Field
  pub payload : Option Bytes

pub record Config : Type 0 where
  pub local_endpoint : Text
  pub hostname : Text
  pub enable_tls : Bool
  pub auth : Option Credentials

unfoldable pub is_safe : Text → Bool
unfolding text_eq
is_safe method = text_eq method (codes "GET") || text_eq method (codes "HEAD")

-- `fetchOpts.body`
unfoldable pub fetch_payload : Bool → Option Bytes → Option Bytes
fetch_payload true b = none
fetch_payload false none = none
fetch_payload false (some []) = none
fetch_payload false (some (b ∷ bs)) = some (b ∷ bs)

unfoldable pub fetch_url : Config → Text → Text
unfolding url_authority
fetch_url config path =
    (if config.enable_tls then codes "https" else codes "http")
    ++ (codes "://"
        ++ (url_authority config.local_endpoint config.hostname config.enable_tls ++ path))

unfoldable pub fetch_call : Request → Config → FetchCall
unfolding fetch_url forwarded_headers is_safe fetch_payload
fetch_call req config = record {
  url = fetch_url config req.head.path;
  method = req.head.method;
  headers = forwarded_headers req.head.headers;
  payload = fetch_payload (is_safe req.head.method) req.payload;
}

-- `(finalUrl.pathname || '/') + finalUrl.search`, or the whole of another origin's
unfoldable pub location : Url → Url → Text
unfolding text_eq
location final asked =
    if text_eq final.origin asked.origin
    then (if length final.pathname == 0 then codes "/" else final.pathname) ++ final.search
    else final.href

-- An answer of the forwarder's own: one type of content, and a length.
abbrev pub own_fields : List Field → Bytes → List Field
own_fields first payload =
    first
    ++ ((codes "Content-Type", codes "text/plain")
        ∷ (codes "Content-Length", show_number 10 (length payload))
        ∷ [])

module _ (codec : TextCodec) where
  open codec use {encode}

  -- `writeHead(status, statusText, respHeaders)`
  unfoldable pub write_head : ℕ → Text → ResponseHeaders → Bytes
  unfolding head_text head_fields
  write_head status status_text hs = encode (head_text status status_text (head_fields hs))

  -- `writeUnauthorized(stream)`: head and body in one write
  unfoldable pub write_unauthorized : List Bytes
  unfolding head_text
  write_unauthorized =
      encode (
        head_text 401 (codes "Unauthorized")
          (own_fields ((codes "WWW-Authenticate", codes "Basic") ∷ []) (codes "Unauthorized"))
        ++ codes "Unauthorized")
      ∷ []

  -- The 502 behind a failed `fetch`
  unfoldable pub bad_gateway : Text → Text → List Bytes
  unfolding head_text
  bad_gateway endpoint message =
      let payload =
        encode (codes "backend unreachable: " ++ (endpoint ++ (codes " — " ++ message))) in
      encode (head_text 502 (codes "Bad Gateway") (own_fields [] payload)) ∷ payload ∷ []

  -- The 302 in the place of a redirection that `fetch` has followed
  unfoldable pub redirection : Text → List Bytes
  unfolding head_text
  redirection loc =
      let payload = encode (codes "redirected to " ++ loc) in
      (encode (head_text 302 (codes "Found") (own_fields ((codes "Location", loc) ∷ []) payload))
        ++ payload)
      ∷ []

  module _ (parse_url : Text → Url) where
    -- What is written for a response.
    unfoldable pub answer : Text → Text → Text → Fetched → List Bytes
    unfolding bad_gateway redirection location is_safe write_head pipe_body chunked_of
    answer endpoint url method (unreachable message) = bad_gateway endpoint message
    answer endpoint url method (fetched r) =
        if r.redirected && is_safe method
        then redirection (location (parse_url r.url) (parse_url url))
        else write_head r.status r.status_text r.headers
          ∷ pipe_body (chunked_of r.headers) r.payload

    module _ (fetch : FetchCall → Fetched) where
      -- `forwardHTTP(stream, req, config)`: what is written before the stream is closed
      unfoldable pub forward_http : Request → Config → List Bytes
      unfolding answer fetch_call fetch_url
      forward_http req config =
          answer config.local_endpoint (fetch_url config req.head.path) req.head.method
            (fetch (fetch_call req config))

      -- `handleRequest(stream, req, config)`: the bridge of a WebSocket is a matter of its own.
      unfoldable pub handle_request :
          (Text → Option Bytes) → (Request → Config → List Bytes) → Request → Config → List Bytes
      unfolding is_authorized write_unauthorized is_web_socket_upgrade forward_http
      handle_request atob forward_web_socket req config =
          if is_authorized codec atob req.head.headers config.auth
          then (if is_web_socket_upgrade req.head.headers
              then forward_web_socket req config
              else forward_http req config)
          else write_unauthorized
