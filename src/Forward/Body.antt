-- ===== src/Forward/Body.antt =====
-- The body of a response: `pipeBody` and `_chunkedWrap` of forwarder.js.
use wisper.Prelude.{
  Bool, Option, none, some, List, [], ◌∷◌, ◌++◌, ◌==◌, if◌then◌else◌, length, Bytes,
}
use wisper.Prelude.Text.{show_number}

-- `_CHUNKED_TERMINATOR`
abbrev pub chunked_terminator : Bytes
chunked_terminator = 48 ∷ 13 ∷ 10 ∷ 13 ∷ 10 ∷ []

-- `_chunkedWrap(data)`
unfoldable pub chunked_wrap : Bytes → Bytes
unfolding show_number
chunked_wrap payload = show_number 16 (length payload) ++ (13 ∷ 10 ∷ (payload ++ (13 ∷ 10 ∷ [])))

-- The loop of `pipeBody` over the values of the reader: what it writes, in order.
unfoldable pub pipe_values : Bool → List Bytes → List Bytes
unfolding chunked_wrap
pipe_values chunked [] = []
pipe_values chunked (value ∷ values) =
    let rest = pipe_values chunked values in
    if chunked
    then (if length value == 0 then rest else chunked_wrap value ∷ rest)
    else value ∷ rest

-- `pipeBody(body)` behind the check of `_wroteHead`, where the reader and the writes do not fail;
-- `none` is a response without a body.
unfoldable pub pipe_body : Bool → Option (List Bytes) → List Bytes
unfolding pipe_values
pipe_body chunked none = if chunked then chunked_terminator ∷ [] else []
pipe_body chunked (some values) =
    pipe_values chunked values ++ (if chunked then chunked_terminator ∷ [] else [])
