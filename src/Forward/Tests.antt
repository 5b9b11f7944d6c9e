-- ===== src/Forward/Tests.antt =====
-- The theorems on forwarded requests at concrete headers.
use wisper.Prelude.{
  take, drop, concat, append-nil, take-append-drop, ℕ, zero, suc, ◌<◌, ◌≡◌, refl, sym, ap, ◌∙◌, ◌≢◌,
  ◌↔◌, inl, inr, Bool, true, false, Option, none, some, List, [], ◌∷◌, arith, ◌==◌, if◌then◌else◌,
  ==_iff, Bool-cases, get_elem?, All, Bytes, subst,
}
use wisper.Prelude.Text.{to_lower, Text, TextCodec, codes, trim}
use wisper.Tunnel.Request.{Headers}
use wisper.Ws.Frame.{op_text, MaskKey}
use wisper.Ws.Decoder.{new_decoder, data_event}
use wisper.Ws.Decoder.Messages.{Message, text, ping, encode_all}
use wisper.Forward.Response.{ResponseHeaders}
use wisper.Forward.Response.Framed.{IsFramed, head_fields-IsFramed}
use wisper.Forward.Sockets.{
  Bridge, Sockets, as_string, outgoing, find, relay_events, chunk, backend_closed, ended, opened,
  step, run,
}
use wisper.Forward.Sockets.Keyed.{ids}
use wisper.Forward.Sockets.Isolated.{run-isolated}
use wisper.Forward.Sockets.Live.{IsLive, IsOngoing, delivered, ponged}
use wisper.Forward.Sockets.Delivered.{chunks, chunks-deliver, opened-crosses}
use wisper.Forward.Headers.{first_header}
use wisper.Forward.Auth.{Credentials, match_basic, is_authorized}
use wisper.Forward.Auth.Complete.{NoColon, is_authorized_iff}

abbrev ascii : TextCodec
ascii = record {
  encode = λ s. s;
  decode = λ s. s;
  IsWellFormed = λ s. All (λ c. c < 128) s;
  decode-encode = λ s w. refl;
  encode-ascii = λ s h. refl;
  decode-ascii = λ b h. refl;
  lower_case = to_lower;
  lower_case-ascii = λ s h. refl;
}

-- An `atob` that knows one token.
abbrev one_token : Text → Option Bytes
one_token s = some (codes "me:key")

abbrev visitor : Headers
visitor = (codes "host", codes "x" ∷ []) ∷ (codes "authorization", codes "Basic bWU6a2V5" ∷ []) ∷ []

abbrev keeper : Credentials
keeper = record { username = codes "me"; password = codes "key" }

visitor-header : first_header visitor (codes "authorization") ≡ some (codes "Basic bWU6a2V5")
unfolding first_header
visitor-header = refl

visitor-token : match_basic (trim (codes "Basic bWU6a2V5")) ≡ some (codes "bWU6a2V5")
unfolding match_basic trim
visitor-token = refl

me-NoColon : NoColon (codes "me")
me-NoColon = (refl, (refl, tt))

is_authorized_iff_example :
    (is_authorized ascii one_token visitor (some keeper) ≡ true)
    ↔ ((codes "me" ≡ keeper.username) × (codes "key" ≡ keeper.password))
is_authorized_iff_example =
    is_authorized_iff ascii one_token visitor keeper (codes "Basic bWU6a2V5") (codes "bWU6a2V5")
      (codes "me:key") (codes "me") (codes "key") refl visitor-header visitor-token refl refl
      me-NoColon

abbrev page : ResponseHeaders
page = record {
  cookies = some (codes "a=1" ∷ codes "b=2" ∷ []);
  entries =
      (codes "content-length", codes "5")
      ∷ (codes "content-type", codes "text/html")
      ∷ (codes "set-cookie", codes "a=1")
      ∷ (codes "connection", codes "close")
      ∷ [];
}

head_fields-IsFramed_example : IsFramed page
head_fields-IsFramed_example = head_fields-IsFramed page

abbrev bridge : ℕ → Bridge
bridge id = record {
  stream_id = id;
  url = codes "wss://localhost/";
  blocked = false;
  protocol = none;
  extensions = none;
  responded = true;
  relaying = true;
  decoder = new_decoder;
  backend_open = true;
  sent = [];
  written = [];
  closed = false;
}

-- Two bridges, and the map that has both.
abbrev pair : Sockets
pair = record { bridges = bridge 3 ∷ bridge 5 ∷ []; active = (3, 0) ∷ (5, 1) ∷ [] }

pair-own : (id k : ℕ) → find id pair.active ≡ some k → get_elem? (ids pair) k ≡ some id
unfolding find
pair-own id k h = elim (Bool-cases (3 == id)) [
  | inl three ↦
      let k-0 : ◌≡◌ {A = Option ℕ} (some 0) (some k) =
        ap (λ (t : Bool). if t then some 0 else if 5 == id then some 1 else none) (sym three) ∙ h in
      let same : 0 ≡ k = cc k-0 in
      subst (λ n. get_elem? (ids pair) n ≡ some id) same (ap some ((==_iff 3 id).0 three))
  | inr other ↦ elim (Bool-cases (5 == id)) [
    | inl five ↦
        let k-1 : ◌≡◌ {A = Option ℕ} (some 1) (some k) =
          ap (λ (t : Bool). if t then some 1 else none) (sym five)
          ∙ ap (λ (t : Bool). if t then some 0 else if 5 == id then some 1 else none) (sym other)
          ∙ h in
        let same : 1 ≡ k = cc k-1 in
        subst (λ n. get_elem? (ids pair) n ≡ some id) same (ap some ((==_iff 5 id).0 five))
    | inr neither ↦ absurd (cc (other, neither, h))
  ]
]

three_not_five :
    (id : ℕ) → ◌≡◌ {A = Option ℕ} (some 3) (some id) → ◌≡◌ {A = Option ℕ} (some 5) (some id) → ⊥
three_not_five id a b = let e : ◌≡◌ {A = Option ℕ} (some 3) (some 5) = a ∙ sym b in absurd (cc e)

pair-distinct :
    (id j k : ℕ) → get_elem? (ids pair) j ≡ some id → get_elem? (ids pair) k ≡ some id → j ≡ k
pair-distinct id zero zero a b = refl
pair-distinct id zero (suc zero) a b = absurd (three_not_five id a b)
pair-distinct id zero (suc (suc k)) a b = absurd (cc b)
pair-distinct id (suc zero) zero a b = absurd (three_not_five id b a)
pair-distinct id (suc zero) (suc zero) a b = refl
pair-distinct id (suc zero) (suc (suc k)) a b = absurd (cc b)
pair-distinct id (suc (suc j)) k a b = absurd (cc a)

run-isolated_example :
    get_elem?
      (run ascii ((0, chunk (1 ∷ [])) ∷ (0, backend_closed 1006) ∷ (0, ended) ∷ []) pair).bridges
      1
    ≡ some (bridge 5)
run-isolated_example =
    run-isolated ascii ((0, chunk (1 ∷ [])) ∷ (0, backend_closed 1006) ∷ (0, ended) ∷ []) 1 pair
      (one_not_zero, (one_not_zero, (one_not_zero, tt)))
      (record { own = pair-own; distinct = pair-distinct })
  where
    one_not_zero : ◌≢◌ {A = ℕ} 1 0
    one_not_zero h = absurd (omega arith)

abbrev greeting : List (Message × Option MaskKey)
greeting =
    (text (codes "hi"), some (record { k0 = 1; k1 = 2; k2 = 3; k3 = 4 }))
    ∷ (ping (7 ∷ []), none)
    ∷ []

bridge-IsLive : IsLive 0 (bridge 3) pair
unfolding find
bridge-IsLive = record { here = refl; found = refl; opened = refl; unclosed = refl }

greeting-IsOngoing : All IsOngoing greeting
greeting-IsOngoing = (λ p h. absurd (cc h), (λ p h. absurd (cc h), tt))

-- The greeting in two chunks, the first of which ends within the first frame.
abbrev first_part : Bytes
first_part = take 5 (encode_all greeting)

abbrev second_part : Bytes
second_part = drop 5 (encode_all greeting)

greeting-parts : concat (first_part ∷ second_part ∷ []) ≡ encode_all greeting
greeting-parts = rw (append-nil second_part) (take-append-drop 5 (encode_all greeting))

chunks-deliver_example :
    get_elem? (run ascii (chunks ascii 0 (first_part ∷ second_part ∷ [])) pair).bridges 0
    ≡ some (record (bridge 3) {
      decoder = record { buf = []; frag = none };
      sent = delivered ascii greeting;
      written = ponged greeting;
    })
chunks-deliver_example =
    chunks-deliver ascii 0 (bridge 3) pair first_part (second_part ∷ []) greeting bridge-IsLive refl
      greeting-parts (omega arith, (omega arith, tt)) greeting-IsOngoing

-- Two bridges with one stream id.
abbrev clash : Sockets
clash = record { bridges = bridge 3 ∷ bridge 3 ∷ []; active = (3, 0) ∷ [] }

opened-crosses_example :
    get_elem?
      (relay_events ascii 0 3
        (data_event op_text (codes "key") ∷ [])
        (step ascii (1, opened) clash)).bridges
      1
    ≡ some (record (bridge 3) { backend_open = true; sent = as_string (codes "key") ∷ [] })
unfolding outgoing
opened-crosses_example =
    opened-crosses ascii 0 1 (bridge 3) (bridge 3) clash op_text (codes "key") refl refl
