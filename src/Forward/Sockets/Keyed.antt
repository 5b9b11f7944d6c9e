-- ===== src/Forward/Sockets/Keyed.antt =====
-- What keeps the map of bridges keyed, and touches one bridge only.
use wisper.Prelude.{
  ℕ, zero, suc, ◌≡◌, refl, sym, ap, ◌∙◌, ◌≢◌, ◌⊎◌, inl, inr, Bool, true, false, Option, none, some,
  List, [], ◌∷◌, map, arith, ◌==◌, if◌then◌else◌, ==_iff, Bool-cases, Option-cases, get_elem?, set,
  Bytes, subst, if-both,
}
use wisper.Prelude.Text.{TextCodec}
use wisper.Ws.Decoder.{data_event, close_event, ping_event, pong_event, Event as WsEvent}
use wisper.Forward.Sockets.{
  Bridge, Sockets, find, put, remove, on_bridge, write, close_backend, stop_relay, close_visitor,
  relay_event, relay_events, is_open, end_relay,
}

abbrev pub ids : Sockets → List ℕ
ids s = map (λ b. b.stream_id) s.bridges

-- The map leads from an id to a bridge that has it, and no two bridges have the same.
pub record IsKeyed (s : Sockets) : Type 0 where
  pub own : (id k : ℕ) → find id s.active ≡ some k → get_elem? (ids s) k ≡ some id
  pub distinct :
      (id j k : ℕ) → get_elem? (ids s) j ≡ some id → get_elem? (ids s) k ≡ some id → j ≡ k

-- Only the bridge `i` may have changed, and all is keyed as it was.
pub record Only (i : ℕ) (s s' : Sockets) : Type 0 where
  pub others : (k : ℕ) → k ≢ i → get_elem? s'.bridges k ≡ get_elem? s.bridges k
  pub ids_same : ids s' ≡ ids s
  pub keyed : IsKeyed s'

pub Only-trans : {i : ℕ} {s s' s'' : Sockets} → Only i s s' → Only i s' s'' → Only i s s''
Only-trans a b = record {
  others = λ k ne. b.others k ne ∙ a.others k ne;
  ids_same = b.ids_same ∙ a.ids_same;
  keyed = b.keyed;
}

pub Only-refl : {i : ℕ} {s : Sockets} → IsKeyed s → Only i s s
Only-refl h = record { others = λ k ne. refl; ids_same = refl; keyed = h }

get-set_other :
    {A : Type 0} (xs : List A) (i k : ℕ) (v : A) → k ≢ i → get_elem? (set xs i v) k ≡ get_elem? xs k
get-set_other [] i k v ne = refl
get-set_other (x ∷ xs) zero zero v ne = absurd (ne refl)
get-set_other (x ∷ xs) zero (suc k) v ne = refl
get-set_other (x ∷ xs) (suc i) zero v ne = refl
get-set_other (x ∷ xs) (suc i) (suc k) v ne = get-set_other xs i k v (λ e. ne (ap suc e))

ids-set :
    (bs : List Bridge) (i : ℕ) (b c : Bridge)
    → get_elem? bs i ≡ some b
    → c.stream_id ≡ b.stream_id
    → map (λ (x : Bridge). x.stream_id) (set bs i c) ≡ map (λ (x : Bridge). x.stream_id) bs
ids-set [] i b c found same = refl
ids-set (x ∷ bs) zero b c found same =
    let x-b : x ≡ b = cc found in
    ap (λ n. n ∷ map (λ (y : Bridge). y.stream_id) bs) (same ∙ ap Bridge.stream_id (sym x-b))
ids-set (x ∷ bs) (suc i) b c found same = ap (λ ns. x.stream_id ∷ ns) (ids-set bs i b c found same)

-- A state with the same ids and map is keyed too.
rekeyed : (s s' : Sockets) → ids s' ≡ ids s → s'.active ≡ s.active → IsKeyed s → IsKeyed s'
rekeyed s s' same active h = record {
  own =
      λ id k found. ap (λ ns. get_elem? ns k) same ∙ h.own id k (ap (find id) (sym active) ∙ found);
  distinct = λ id j k at_j at_k.
      h.distinct id j k (ap (λ ns. get_elem? ns j) (sym same) ∙ at_j)
        (ap (λ ns. get_elem? ns k) (sym same) ∙ at_k);
}

pub on_bridge-Only :
    (i : ℕ) (f : Bridge → Bridge) (s : Sockets)
    → ((b : Bridge) → (f b).stream_id ≡ b.stream_id)
    → IsKeyed s
    → Only i s (on_bridge i f s)
unfolding on_bridge
on_bridge-Only i f s keeps h = elim (Option-cases (get_elem? s.bridges i)) [
  | inl missing ↦ rw (missing, on_bridge) (Only-refl h)
  | inr (b, found) ↦
      let same = ids-set s.bridges i b (f b) found (keeps b) in
      rw (found, on_bridge)
        (record {
          others = λ k ne. get-set_other s.bridges i k (f b) ne;
          ids_same = same;
          keyed = rekeyed s (record s { bridges = set s.bridges i (f b) }) same refl h;
        })
]

-- Looking up behind a removal, and behind a writing.
find-remove :
    (id j : ℕ) (m : List (ℕ × ℕ)) → find j (remove id m) ≡ (if id == j then none else find j m)
unfolding find remove
find-remove id j [] = if-both (λ (x : Option ℕ). none ≡ x) (id == j) {x = none} {y = none} refl refl
find-remove id j ((l, c) ∷ m) = elim (Bool-cases (l == id)) [
  | inl gone ↦ elim (Bool-cases (id == j)) [
    | inl e ↦ rw (gone, e) (find-remove id j m ∙ rw e refl)
    | inr e ↦
        let other : (l == j) ≡ false = ground arith in
        rw (gone, e, other) (find-remove id j m ∙ rw e refl)
  ]
  | inr kept ↦ elim (Bool-cases (l == j)) [
    | inl e ↦ let other : (id == j) ≡ false = ground arith in rw (kept, e, other) refl
    | inr e ↦ rw (kept, e) (find-remove id j m)
  ]
]

pub find-put :
    (id b j : ℕ) (m : List (ℕ × ℕ)) → find j (put id b m) ≡ (if id == j then some b else find j m)
unfolding find put
find-put id b j [] = refl
find-put id b j ((l, c) ∷ m) = elim (Bool-cases (l == id)) [
  | inl here ↦ elim (Bool-cases (id == j)) [
    | inl e ↦ rw (here, e) refl
    | inr e ↦ let other : (l == j) ≡ false = ground arith in rw (here, e, other) refl
  ]
  | inr off ↦ elim (Bool-cases (l == j)) [
    | inl e ↦ let other : (id == j) ≡ false = ground arith in rw (off, e, other) refl
    | inr e ↦ rw (off, e) (find-put id b j m)
  ]
]

if-some :
    (c : Bool) (x y : Option ℕ) (k : ℕ)
    → (if c then x else y) ≡ some k
    → ((c ≡ true) × (x ≡ some k)) ⊎ (y ≡ some k)
if-some true x y k h = inl (refl, h)
if-some false x y k h = inr h

remove-Only :
    (i id : ℕ) (s : Sockets) → IsKeyed s → Only i s (record s { active = remove id s.active })
remove-Only i id s h = record {
  others = λ k ne. refl;
  ids_same = refl;
  keyed = record {
    own = λ j k found. elim (if-some (id == j) none _ k (sym (find-remove id j s.active) ∙ found)) [
      | inl (gone, none_some) ↦ absurd (cc none_some)
      | inr there ↦ h.own j k there
    ];
    distinct = h.distinct;
  };
}

pub put-Only :
    (i id : ℕ) (s : Sockets)
    → get_elem? (ids s) i ≡ some id
    → IsKeyed s
    → Only i s (record s { active = put id i s.active })
put-Only i id s mine h = record {
  others = λ k ne. refl;
  ids_same = refl;
  keyed = record {
    own = λ j k found.
        elim (if-some (id == j) (some i) _ k (sym (find-put id i j s.active) ∙ found)) [
          | inl (same, here) ↦
              let id-j : id ≡ j = (==_iff id j).0 same in
              let i-k : i ≡ k = cc here in
              subst (λ x. get_elem? (ids s) x ≡ some j) i-k (mine ∙ ap some id-j)
          | inr there ↦ h.own j k there
        ];
    distinct = h.distinct;
  };
}

-- The bridge that the map has for the id of `i` is `i`.
own-same :
    (i id k : ℕ) (s : Sockets)
    → get_elem? (ids s) i ≡ some id
    → find id s.active ≡ some k
    → IsKeyed s
    → k ≡ i
own-same i id k s mine found h = h.distinct id k i (h.own id k found) mine

pub write-id : (bytes : Bytes) (b : Bridge) → (write bytes b).stream_id ≡ b.stream_id
unfolding write
write-id bytes b = if-both (λ (x : Bridge). x.stream_id ≡ b.stream_id) b.closed refl refl

pub close_visitor-Only :
    (i id code : ℕ) (s : Sockets) → IsKeyed s → Only i s (close_visitor i id code s)
unfolding close_visitor
close_visitor-Only i id code s h = elim (Option-cases (find id s.active)) [
  | inl missing ↦ rw (missing, close_visitor) (Only-refl h)
  | inr (k, found) ↦
      let removed = remove-Only i id s h in
      rw (found, close_visitor)
        (Only-trans removed (on_bridge-Only i (write _) _ (write-id _) removed.keyed))
]

relay_event-Only :
    (codec : TextCodec) (i id : ℕ) (e : WsEvent) (s : Sockets)
    → IsKeyed s
    → Only i s (relay_event codec i id i e s).0
unfolding relay_event
relay_event-Only codec i id (data_event opcode payload) s h = on_bridge-Only i _ s (λ b. refl) h
relay_event-Only codec i id (ping_event payload) s h = on_bridge-Only i (write _) s (write-id _) h
relay_event-Only codec i id (pong_event payload) s h = Only-refl h
relay_event-Only codec i id (close_event payload) s h =
    let removed = remove-Only i id s h in
    Only-trans removed (on_bridge-Only i _ _ (λ b. write-id _ (close_backend b)) removed.keyed)

pub relay_events-Only :
    (codec : TextCodec) (i id : ℕ) (es : List WsEvent) (s : Sockets)
    → get_elem? (ids s) i ≡ some id
    → IsKeyed s
    → Only i s (relay_events codec i id es s)
unfolding relay_events
relay_events-Only codec i id [] s mine h = Only-refl h
relay_events-Only codec i id (e ∷ es) s mine h = elim (Option-cases (find id s.active)) [
  | inl missing ↦ rw (missing, relay_events) (on_bridge-Only i stop_relay s (λ b. refl) h)
  | inr (k, found) ↦
      let k-i = own-same i id k s mine found h in
      let one = relay_event-Only codec i id e s h in
      rw (found, relay_events, k-i)
        (if-both (Only i s) (is_open (get_elem? s.bridges i))
          (if-both (Only i s) (relay_event codec i id i e s).1
            (Only-trans one (
              relay_events-Only codec i id es (relay_event codec i id i e s).0
                (ap (λ ns. get_elem? ns i) one.ids_same ∙ mine) one.keyed))
            (Only-trans one (on_bridge-Only i stop_relay _ (λ b. refl) one.keyed)))
          (on_bridge-Only i stop_relay s (λ b. refl) h))
]

pub end_relay-Only :
    (i id : ℕ) (s : Sockets)
    → get_elem? (ids s) i ≡ some id
    → IsKeyed s
    → Only i s (end_relay i id s)
unfolding end_relay
end_relay-Only i id s mine h = elim (Option-cases (find id s.active)) [
  | inl missing ↦ rw (missing, end_relay) (on_bridge-Only i stop_relay s (λ b. refl) h)
  | inr (k, found) ↦
      let removed = remove-Only i id s h in
      let shut = on_bridge-Only i close_backend _ (λ b. refl) removed.keyed in
      rw (found, end_relay, own-same i id k s mine found h)
        (Only-trans removed
          (Only-trans shut (on_bridge-Only i stop_relay _ (λ b. refl) shut.keyed)))
]
