-- ===== src/Forward/Headers/Allowed.antt =====
-- What reaches the backend.
use wisper.Prelude.{
  ℕ, ◌≡◌, refl, ap, ◌∙◌, inl, inr, Bool, true, false, ◌||◌, List, [], ◌∷◌, ◌++◌, arith,
  if◌then◌else◌, Bool-cases,
}
use wisper.Prelude.Text.{Text, codes, text_eq, lower, to_lower}
use wisper.Prelude.Text.Equal.{text_eq_sym}
use wisper.Tunnel.Request.{Headers}
use wisper.Forward.Headers.{hop_by_hop, among, is_hop_by_hop_header}

-- Whether a name is one of a list, written apart from the code's own test.
abbrev pub is_one_of : Text → List Text → Bool
is_one_of name [] = false
is_one_of name (n ∷ ns) = if text_eq n name then true else is_one_of name ns

-- The headers of one connection, by RFC 9110, section 7.6.1, and RFC 7235.
abbrev pub of_connection : List Text
of_connection =
    codes "connection"
    ∷ codes "keep-alive"
    ∷ codes "proxy-authorization"
    ∷ codes "proxy-authenticate"
    ∷ codes "te"
    ∷ codes "trailer"
    ∷ codes "transfer-encoding"
    ∷ codes "upgrade"
    ∷ []

-- The headers that do not reach the backend: its own length and host are set by `fetch`.
abbrev pub not_forwarded : List Text
not_forwarded = of_connection ++ (codes "content-length" ∷ codes "host" ∷ [])

-- The values that a list of headers has for a name, in order.
abbrev pub given : Text → Headers → List Text
given name [] = []
given name ((n, vs) ∷ hs) = if text_eq (to_lower n) name then vs ++ given name hs else given name hs

-- The values that a list of pairs has for a name, in order.
abbrev pub sent_for : Text → List (Text × Text) → List Text
sent_for name [] = []
sent_for name ((n, v) ∷ ps) =
    if text_eq (to_lower n) name then v ∷ sent_for name ps else sent_for name ps

lower-lower : (c : ℕ) → lower (lower c) ≡ lower c
unfolding lower
lower-lower c = ground arith

to_lower-to_lower : (s : Text) → to_lower (to_lower s) ≡ to_lower s
unfolding to_lower
to_lower-to_lower [] = refl
to_lower-to_lower (c ∷ cs) = rw (lower-lower c, to_lower-to_lower cs) refl

pub among-is_one_of : (name : Text) (ns : List Text) → among name ns ≡ is_one_of name ns
unfolding among
among-is_one_of name [] = refl
among-is_one_of name (n ∷ ns) = elim (Bool-cases (text_eq n name)) [
  | inl same ↦ rw same refl
  | inr other ↦ rw other (among-is_one_of name ns)
]

pub is_one_of-append :
    (name : Text) (xs ys : List Text)
    → is_one_of name (xs ++ ys) ≡ (is_one_of name xs || is_one_of name ys)
is_one_of-append name [] ys = refl
is_one_of-append name (x ∷ xs) ys = elim (Bool-cases (text_eq x name)) [
  | inl same ↦ rw same refl
  | inr other ↦ rw other (is_one_of-append name xs ys)
]

-- The code's test, on a name in lower case.
pub is_hop_by_hop_header-lower :
    (name : Text) → is_hop_by_hop_header (to_lower name) ≡ is_one_of (to_lower name) of_connection
unfolding is_hop_by_hop_header
is_hop_by_hop_header-lower name =
    ap (λ n. among n hop_by_hop) (to_lower-to_lower name)
    ∙ among-is_one_of (to_lower name) of_connection

pub is_one_of-cons :
    (name n : Text) (ns : List Text)
    → is_one_of name (n ∷ ns) ≡ (text_eq name n || is_one_of name ns)
is_one_of-cons name n ns =
    rw (text_eq_sym name n)
      (elim (Bool-cases (text_eq n name)) [ inl same ↦ rw same refl | inr other ↦ rw other refl ])
