-- ===== src/Forward/Response/Framed.antt =====
-- What is in the head of a response.
use wisper.Prelude.{
  ◌≡◌, refl, sym, ap, ◌∙◌, inl, inr, Bool, true, false, ◌||◌, Option, none, some, List, [], ◌∷◌,
  ◌++◌, arith, if◌then◌else◌, Bool-cases, Option-cases, All,
}
use wisper.Prelude.Text.{Text, codes, text_eq, to_lower}
use wisper.Prelude.Text.Equal.{text_eq-eq}
use wisper.Forward.Headers.{is_hop_by_hop_header, among}
use wisper.Forward.Headers.Allowed.{
  of_connection, is_one_of, is_one_of-append, is_one_of-cons, among-is_one_of,
  is_hop_by_hop_header-lower,
}
use wisper.Forward.Response.{
  Field, ResponseHeaders, get_entry, has_entry, is_skipped, kept_entries, cookie_fields, cookies_of,
  seen_of, kept_length, framing_field, head_fields, is_none, chunked_of,
}

-- A name that is none of those given.
abbrev IsNew : List Text → Field → Type 0
IsNew seen f = among (to_lower f.0) seen ≡ false

-- No name stands twice, whatever its case.
unfoldable pub Apart : List Field → Type 0
unfolding text_eq to_lower
Apart [] = Unit {0}
Apart (f ∷ fs) = All (λ g. text_eq (to_lower f.0) (to_lower g.0) ≡ false) fs × Apart fs

-- The headers of a response that are not passed on: those of the connection, and what says how the
-- backend has encoded the body.
abbrev pub not_passed : List Text
not_passed =
    of_connection
    ++ (codes "content-encoding" ∷ codes "content-length" ∷ codes "transfer-encoding" ∷ [])

-- The names that are not in the middle of the head, `Set-Cookie` where cookies stand in front.
abbrev pub left_out : ResponseHeaders → List Text
left_out hs = not_passed ++ seen_of (cookies_of hs)

-- The lines of a head: the cookies, the headers that are passed on, and one that frames the body.
--   A look-up in the middle finds what the backend has for the name, if the name is not left out, and no
-- name stands there twice. The last line is the backend's length where it gives one and the body comes
-- undecoded, else it says that the body is chunked; and the body is written as it says.
pub record IsFramed (hs : ResponseHeaders) : Type 0 where
  pub middle : List Field
  pub last : Field
  pub lines : head_fields hs ≡ cookie_fields (cookies_of hs) ++ (middle ++ (last ∷ []))
  pub carries :
      (name : Text)
      → get_entry (to_lower name) middle ≡ (
          if is_one_of (to_lower name) (left_out hs)
          then none
          else get_entry (to_lower name) hs.entries)
  pub apart : Apart middle
  pub sized :
      (len : Text)
      → get_entry (codes "content-encoding") hs.entries ≡ none
      → get_entry (codes "content-length") hs.entries ≡ some len
      → (last ≡ (codes "Content-Length", len)) × (chunked_of hs ≡ false)
  pub decoded :
      (encoding : Text)
      → get_entry (codes "content-encoding") hs.entries ≡ some encoding
      → (last ≡ (codes "Transfer-Encoding", codes "chunked")) × (chunked_of hs ≡ true)
  pub unsized :
      get_entry (codes "content-length") hs.entries ≡ none
      → (last ≡ (codes "Transfer-Encoding", codes "chunked")) × (chunked_of hs ≡ true)

skipped-new : (a b c d e : Bool) → (a || (b || (c || (d || e)))) ≡ false → e ≡ false
skipped-new a b c d e h = ground arith

among-parts : (a b : Bool) → (a || b) ≡ false → (a ≡ false) × (b ≡ false)
among-parts a b h = ground arith

kept-IsNew : (seen : List Text) (f : Field) → is_skipped (to_lower f.0) seen ≡ false → IsNew seen f
unfolding is_skipped
kept-IsNew seen f h =
    skipped-new (is_hop_by_hop_header (to_lower f.0))
      (text_eq (to_lower f.0) (codes "content-encoding"))
      (text_eq (to_lower f.0) (codes "content-length"))
      (text_eq (to_lower f.0) (codes "transfer-encoding")) _ h

-- What is new behind another name is new, and is not that name.
weaken :
    (n : Text) (seen : List Text) (fs : List Field)
    → All (IsNew (n ∷ seen)) fs
    → All (IsNew seen) fs × All (λ g. text_eq n (to_lower g.0) ≡ false) fs
unfolding among
weaken n seen [] h = (tt, tt)
weaken n seen (f ∷ fs) h =
    let parts = among-parts (text_eq n (to_lower f.0)) _ h.0 in
    let rest = weaken n seen fs h.1 in ((parts.1, rest.0), (parts.0, rest.1))

no_entry : (t : Bool) → ◌≡◌ {A = Option Text} none (if t then none else none)
no_entry true = refl
no_entry false = refl

-- A name that is not the one just seen.
is_skipped-other :
    (name n : Text) (seen : List Text)
    → text_eq n name ≡ false
    → is_skipped name (n ∷ seen) ≡ is_skipped name seen
unfolding is_skipped among
is_skipped-other name n seen other = rw other refl

kept_entries-IsNew :
    (seen : List Text) (es : List Field)
    → All (IsNew seen) (kept_entries seen es) × Apart (kept_entries seen es)
unfolding kept_entries Apart
kept_entries-IsNew seen [] = (tt, tt)
kept_entries-IsNew seen ((name, value) ∷ es) = elim (Bool-cases (is_skipped (to_lower name) seen)) [
  | inl skipped ↦ rw skipped (kept_entries-IsNew seen es)
  | inr kept ↦
      let rest = kept_entries-IsNew (to_lower name ∷ seen) es in
      let both = weaken (to_lower name) seen (kept_entries (to_lower name ∷ seen) es) rest.0 in
      rw kept ((kept-IsNew seen (name, value) kept, both.0), (both.1, rest.1))
]

-- The code's tests, on a name in lower case.
is_skipped-lower :
    (name : Text) (seen : List Text)
    → is_skipped (to_lower name) seen ≡ is_one_of (to_lower name) (not_passed ++ seen)
unfolding is_skipped
is_skipped-lower name seen =
    rw
      (
        is_one_of-append (to_lower name) of_connection
            (codes "content-encoding" ∷ codes "content-length" ∷ codes "transfer-encoding" ∷ seen),
        is_hop_by_hop_header-lower name,
        is_one_of-cons (to_lower name) (codes "content-encoding")
            (codes "content-length" ∷ codes "transfer-encoding" ∷ seen),
        is_one_of-cons (to_lower name) (codes "content-length") (codes "transfer-encoding" ∷ seen),
        is_one_of-cons (to_lower name) (codes "transfer-encoding") seen,
        among-is_one_of (to_lower name) seen,
      )
      refl

-- A look-up behind the loop, from the names seen before.
get_entry-kept_entries :
    (name : Text) (seen : List Text) (es : List Field)
    → get_entry name (kept_entries seen es)
      ≡ (if is_skipped name seen then none else get_entry name es)
unfolding get_entry kept_entries
get_entry-kept_entries name seen [] = no_entry (is_skipped name seen)
get_entry-kept_entries name seen ((n, v) ∷ es) = elim (Bool-cases (is_skipped (to_lower n) seen)) [
  | inl skipped ↦ rw skipped (elim (Bool-cases (text_eq (to_lower n) name)) [
    | inl same ↦
        let gone : is_skipped name seen ≡ true =
          ap (λ t. is_skipped t seen) (sym (text_eq-eq (to_lower n) name same)) ∙ skipped in
        get_entry-kept_entries name seen es ∙ rw gone refl
    | inr other ↦ rw other (get_entry-kept_entries name seen es)
  ])
  | inr kept ↦ rw kept (elim (Bool-cases (text_eq (to_lower n) name)) [
    | inl same ↦
        let there : is_skipped name seen ≡ false =
          ap (λ t. is_skipped t seen) (sym (text_eq-eq (to_lower n) name same)) ∙ kept in
        rw (same, there) refl
    | inr other ↦ rw other (
        get_entry-kept_entries name (to_lower n ∷ seen) es
        ∙ ap (λ (t : Bool). if t then none else get_entry name es)
            (is_skipped-other name (to_lower n) seen other))
  ])
]

kept_length-by :
    (hs : ResponseHeaders) (encoding : Option Text)
    → get_entry (codes "content-encoding") hs.entries ≡ encoding
    → kept_length hs
      ≡ (elim encoding [ none ↦ get_entry (codes "content-length") hs.entries | some e ↦ none ])
unfolding kept_length has_entry
kept_length-by hs none h =
    let plain : has_entry (codes "content-encoding") hs.entries ≡ false =
      ap (λ (o : Option Text). elim o [ none ↦ false | some v ↦ true ]) h in
    rw plain refl
kept_length-by hs (some e) h =
    let coded : has_entry (codes "content-encoding") hs.entries ≡ true =
      ap (λ (o : Option Text). elim o [ none ↦ false | some v ↦ true ]) h in
    rw coded refl

-- Without a length none is kept, whatever the encoding.
kept_length-unsized :
    (hs : ResponseHeaders)
    → get_entry (codes "content-length") hs.entries ≡ none
    → kept_length hs ≡ none
kept_length-unsized hs missing =
    elim (Option-cases (get_entry (codes "content-encoding") hs.entries)) [
      | inl plain ↦ kept_length-by hs none plain ∙ missing
      | inr (e, coded) ↦ kept_length-by hs (some e) coded
    ]

framed :
    (len : Option Text) (hs : ResponseHeaders)
    → kept_length hs ≡ len
    → (framing_field (kept_length hs) ≡ framing_field len) × (chunked_of hs ≡ is_none len)
unfolding chunked_of
framed len hs h = (ap framing_field h, ap is_none h)

-- Whatever headers the backend sends, the head has the cookies line by line; then, each name once, what
-- the backend gives for every name but those of the connection, of the body's length and encoding, and
-- the cookies' where cookies stand before; and one header that frames the body: the backend's length if
-- the body comes undecoded and a length is given, else that it is chunked. The body is written in chunks
-- exactly if the head says so.
pub head_fields-IsFramed : (hs : ResponseHeaders) → IsFramed hs
unfolding head_fields
head_fields-IsFramed hs =
    let seen = seen_of (cookies_of hs) in
    record {
      middle = kept_entries seen hs.entries;
      last = framing_field (kept_length hs);
      lines = refl;
      carries = λ name.
          get_entry-kept_entries (to_lower name) seen hs.entries
          ∙ rw (is_skipped-lower name seen) refl;
      apart = (kept_entries-IsNew seen hs.entries).1;
      sized = λ len plain size. framed (some len) hs (kept_length-by hs none plain ∙ size);
      decoded = λ encoding e. framed none hs (kept_length-by hs (some encoding) e);
      unsized = λ missing. framed none hs (kept_length-unsized hs missing);
    }
