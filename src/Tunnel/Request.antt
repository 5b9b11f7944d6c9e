-- ===== src/Tunnel/Request.antt =====
-- An HTTP request out of a stream: `_readHTTP`, `parseHTTPRequest` and `headerValue` of
-- tunnel-connection.js. Headers are an object of lists, by lower-case names, in the order of their
-- first lines (JavaScript would list names that are array indices first).
use wisper.Prelude.{
  ℕ, zero, suc, ◌+◌, ◌-◌, ◌*◌, ◌/◌, ◌%◌, ◌^◌, ◌≤◌, ◌<◌, min, ◌≡◌, refl, sym, ap, ◌∙◌, ◌≢◌, ◌↔◌, ◌⊎◌,
  inl, inr, Bool, true, false, not, ◌&&◌, ◌||◌, Option, none, some, List, [], ◌∷◌, ◌++◌, map,
  append-nil, append_assoc, arith, ltb, leb, ◌==◌, if◌then◌else◌, ==_iff, Bool-cases, Option-cases,
  length, get_elem?, get_or, set, take, drop, All, concat, length-append, take-append-drop,
  length-take, length-drop, take-append_left, drop-append_left, take-append_le, drop-append_le,
  All-append, Bytes, IsByte, u8, u16_be, get_u16_be, u16_le, get_u16_le, u32_le, get_u32_le,
  get_u16_be-u16_be, get_u16_le-u16_le, get_u32_le-u32_le, subst, if-both,
}
use wisper.Prelude.Int.{ℤ, pos, negsuc}
use wisper.Prelude.Text.{
  Text, TextCodec, codes, text_eq, cons_head, split, trim, to_lower, parse_int, show_number,
}
use wisper.Tunnel.Buffer.{index_of, fill_until}
use wisper.Tunnel.Chunked.{Body, body, closed_early, bad_size, out_of_fuel, read_chunked_body}
pub mod Fixed

abbrev pub Headers : Type 0
Headers = List (Text × List Text)

-- `raw.split('\r\n')`
unfoldable pub split_lines : Text → List Text
split_lines [] = [] ∷ []
split_lines (c ∷ []) = (c ∷ []) ∷ []
split_lines (c ∷ d ∷ cs) = elim ((c == 13) && (d == 10)) [
  | true ↦ [] ∷ split_lines cs
  | false ↦ cons_head c (split_lines (d ∷ cs))
]

-- `line.indexOf(':')`, as the text before the first colon and the text behind it
unfoldable pub cut_colon : Text → Option (Text × Text)
cut_colon [] = none
cut_colon (c ∷ cs) =
    if c == b':'
    then some ([], cs)
    else elim (cut_colon cs) [ none ↦ none | some (name, value) ↦ some (c ∷ name, value) ]

-- `headers[name]`, for the names that the object has itself
unfoldable pub get_header : Text → Headers → Option (List Text)
unfolding text_eq
get_header name [] = none
get_header name ((n, vs) ∷ hs) = if text_eq n name then some vs else get_header name hs

-- `headers[name] = values`
unfoldable pub set_header : Text → List Text → Headers → Headers
unfolding text_eq
set_header name values [] = (name, values) ∷ []
set_header name values ((n, vs) ∷ hs) =
    if text_eq n name then (name, values) ∷ hs else (n, vs) ∷ set_header name values hs

-- `delete headers[name]`
unfoldable pub delete_header : Text → Headers → Headers
unfolding text_eq
delete_header name [] = []
delete_header name ((n, vs) ∷ hs) = if text_eq n name then hs else (n, vs) ∷ delete_header name hs

-- The lower-case names that every object inherits. What `headers[name]` gives for them is no array.
unfoldable pub is_inherited : Text → Bool
unfolding text_eq
is_inherited name = text_eq name (codes "constructor") || text_eq name (codes "__proto__")

-- One header line: `headers[name]` is made or grows; `none` is the TypeError of `push` on what is
-- no array.
unfoldable pub add_header : Text → Text → Headers → Option Headers
unfolding is_inherited get_header set_header
add_header name value hs = elim (get_header name hs) [
  | some vs ↦ some (set_header name (vs ++ (value ∷ [])) hs)
  | none ↦ if is_inherited name then none else some (set_header name (value ∷ []) hs)
]

-- `words[i] || d`
abbrev word_or : Text → Option Text → Text
word_or d none = d
word_or d (some []) = d
word_or d (some (c ∷ cs)) = c ∷ cs

abbrev first_line : List Text → Text
first_line [] = []
first_line (l ∷ ls) = l

pub record Parsed : Type 0 where
  pub method : Text
  pub path : Text
  pub headers : Headers

with_headers : Text → Option Headers → Option Parsed
with_headers line none = none
with_headers line (some hs) =
    let words = split 32 line in
    some (record {
      method = word_or (codes "GET") (get_elem? words 0);
      path = word_or (codes "/") (get_elem? words 1);
      headers = hs;
    })

-- `headerValue(headers, name)`
unfoldable pub header_value : Headers → Text → Option Text
unfolding get_header
header_value hs name = elim (get_header name hs) [ none ↦ none | some vs ↦ get_elem? vs 0 ]

-- `parseInt(headerValue(headers, 'content-length'), 10)`
unfoldable pub content_length : Headers → Option ℤ
unfolding header_value parse_int
content_length hs = elim (header_value hs (codes "content-length")) [
  | none ↦ none
  | some v ↦ parse_int 10 v
]

-- `(headerValue(headers, 'transfer-encoding') || '').toLowerCase().includes('chunked')`
unfoldable pub is_chunked : Headers → Bool
unfolding header_value to_lower index_of
is_chunked hs = elim (header_value hs (codes "transfer-encoding")) [
  | none ↦ false
  | some v ↦ elim (index_of (codes "chunked") (to_lower v)) [ none ↦ false | some _ ↦ true ]
]

-- `while (bodyBytes.length < n)`, which ends early where the stream ends
unfoldable pub read_up_to : ℕ → Bytes → List Bytes → Bytes
read_up_to n buf [] = buf
read_up_to n buf (c ∷ cs) =
    let more = read_up_to n (buf ++ c) cs in if ltb (length buf) n then more else buf

pub record Request : Type 0 where
  pub head : Parsed
  pub payload : Option Bytes

-- What the promise of `_readHTTP` becomes: a request, null, or a rejection. `no_fuel` is no outcome
-- of the program.
pub data ReadHttp : Type 0 where
  request : Request → ReadHttp
  no_request : ReadHttp
  failed : ReadHttp
  no_fuel : ReadHttp

-- `body: bodyBytes.length > 0 ? bodyBytes : null`
abbrev pub non_empty : Bytes → Option Bytes
non_empty [] = none
non_empty (b ∷ bs) = some (b ∷ bs)

decoded : Parsed → Body → ReadHttp
unfolding delete_header set_header show_number
decoded p (body bytes left) = request (record {
  head = record p {
    headers =
        set_header (codes "content-length") (show_number 10 (length bytes) ∷ [])
          (delete_header (codes "transfer-encoding") p.headers);
  };
  payload = non_empty bytes;
})
decoded p closed_early = failed
decoded p bad_size = failed
decoded p out_of_fuel = no_fuel

-- The body by its `Content-Length`
unfoldable pub fixed_body : Option ℤ → Bytes → List Bytes → Bytes
unfolding read_up_to
fixed_body (some (pos (suc n))) buf cs = take (suc n) (read_up_to (suc n) buf cs)
fixed_body _ buf cs = buf

module _ (codec : TextCodec) where
  open codec use {decode, lower_case}

  -- The loop over the lines behind the first.
  unfoldable pub parse_headers : List Text → Headers → Option Headers
  unfolding add_header cut_colon trim
  parse_headers [] hs = some hs
  parse_headers (line ∷ lines) hs = elim (cut_colon line) [
    | none ↦ parse_headers lines hs
    | some (name, value) ↦ elim (add_header (lower_case (trim name)) (trim value) hs) [
      | none ↦ none
      | some hs' ↦ parse_headers lines hs'
    ]
  ]

  -- `parseHTTPRequest(raw)`
  unfoldable pub parse_http_request : Text → Option Parsed
  unfolding parse_headers split_lines with_headers split
  parse_http_request raw =
      let lines = split_lines raw in
      with_headers (first_line lines) (parse_headers (drop 1 lines) [])

  unfoldable pub read_body : Option Parsed → Bytes → List Bytes → ReadHttp
  unfolding decoded fixed_body
  read_body none buf cs = failed
  read_body (some p) buf cs =
      if is_chunked p.headers
      then decoded p (read_chunked_body codec buf cs)
      else request
          (record { head = p; payload = non_empty (fixed_body (content_length p.headers) buf cs) })

  -- `_readHTTP(stream, peerAddr, carry)`
  unfoldable pub read_http : Bytes → List Bytes → ReadHttp
  unfolding fill_until read_body parse_http_request
  read_http carry cs = elim (fill_until (13 ∷ 10 ∷ 13 ∷ 10 ∷ []) carry cs) [
    | none ↦ no_request
    | some (i, buf, left) ↦
        read_body (parse_http_request (decode (take i buf))) (drop (i + 4) buf) left
  ]
