-- ===== src/Offscreen/Tunnels/Backoff.antt =====
-- The delay before a tunnel connects again.
use wisper.Prelude.{
  Bytes, ℕ, zero, suc, ◌*◌, ◌^◌, min, ◌≡◌, refl, sym, ap, ◌∙◌, ◌⊎◌, inl, inr, Bool, true, false,
  ◌&&◌, Option, none, some, List, [], ◌∷◌, ◌++◌, arith, if◌then◌else◌, Bool-cases, Option-cases,
  length, get_elem?, set, All, All-append, subst, if-both,
}
use wisper.Prelude.Text.{Text}
use wisper.Offscreen.Tunnels.{
  Config, Entry, Conn, Status, stopped, connecting, reconnecting, running, error, Offscreen,
  new_entry, attempts_of, reconnect_delay, on_entry, is_conn, has, entry_closed, on_close,
  close_conn, close_connection, connection_id, connect_as, connect, clear_timer, forget, stop_entry,
  stop_tunnel, launch, start_tunnel, settled, bound, reset_entry, Event, start, stop, settle,
  closed, fire, reset_stats, step, run, is_pending, find, is_empty, remove,
}

-- An entry with a connection has counted no attempt.
abbrev pub Fresh : Entry → Type 0
Fresh e = (e.connection ≡ none) ⊎ (e.reconnect_attempts ≡ some 0)

-- A note of a reconnection says 1000 ms.
abbrev pub Soon : Text × Status → Type 0
Soon (id, stopped) = Unit {0}
Soon (id, connecting) = Unit {0}
Soon (id, reconnecting delay) = delay ≡ 1000
Soon (id, running) = Unit {0}
Soon (id, error) = Unit {0}

pub record Calm (o : Offscreen) : Type 0 where
  pub fresh : All Fresh o.entries
  pub soon : All Soon o.notes

All-get : (es : List Entry) (i : ℕ) {e : Entry} → All Fresh es → get_elem? es i ≡ some e → Fresh e
All-get [] i h g = absurd (cc g)
All-get (x ∷ es) zero {e} h g = let same : x ≡ e = cc g in subst Fresh same h.0
All-get (x ∷ es) (suc i) h g = All-get es i h.1 g

All-set : (es : List Entry) (i : ℕ) (e : Entry) → All Fresh es → Fresh e → All Fresh (set es i e)
All-set [] i e h f = tt
All-set (x ∷ es) zero e h f = (f, h.1)
All-set (x ∷ es) (suc i) e h f = (h.0, All-set es i e h.1 f)

-- A change of one entry that keeps it fresh.
on_entry-Calm :
    (h : ℕ) (f : Entry → Entry) (o : Offscreen)
    → ((e : Entry) → Fresh e → Fresh (f e))
    → Calm o
    → Calm (on_entry h f o)
unfolding on_entry
on_entry-Calm h f o keeps c = elim (Option-cases (get_elem? o.entries h)) [
  | inl missing ↦ rw (missing, on_entry) c
  | inr (e, found) ↦
      rw (found, on_entry)
        (record {
          fresh = All-set o.entries h (f e) c.fresh (keeps e (All-get o.entries h c.fresh found));
          soon = c.soon;
        })
]

-- A note that is no reconnection, or one after 1000 ms.
noted-Calm :
    (n : Text × Status) (o o' : Offscreen)
    → o'.entries ≡ o.entries
    → o'.notes ≡ o.notes ++ (n ∷ [])
    → Soon n
    → Calm o
    → Calm o'
noted-Calm n o o' es ns s c = record {
  fresh = subst (All Fresh) (sym es) c.fresh;
  soon = subst (All Soon) (sym ns) (All-append Soon o.notes (n ∷ []) c.soon (s, tt));
}

-- What leaves entries and notes alone.
elsewhere : (o o' : Offscreen) → o'.entries ≡ o.entries → o'.notes ≡ o.notes → Calm o → Calm o'
elsewhere o o' es ns c = record {
  fresh = subst (All Fresh) (sym es) c.fresh;
  soon = subst (All Soon) (sym ns) c.soon;
}

delay-first :
    (c : ℕ) (e : Entry) → Fresh e → is_conn c e.connection ≡ true → reconnect_delay e ≡ 1000
unfolding is_conn reconnect_delay
delay-first c e (inl gone) h = absurd (cc (ap (is_conn c) (sym gone) ∙ h))
delay-first c e (inr zeroth) h = ap (λ a. min (1000 * 2 ^ attempts_of a) 30000) zeroth

and-first : (a b : Bool) → (a && b) ≡ true → a ≡ true
and-first a b h = ground arith

entry_closed-Calm :
    (c h : ℕ) (e : Entry) (o : Offscreen) → Fresh e → Calm o → Calm (entry_closed c h (some e) o)
unfolding entry_closed
entry_closed-Calm c h e o f calm =
    elim (Bool-cases (is_conn c e.connection && has e.config.tunnel_id o.tunnels)) [
      | inr stale ↦ rw (stale, entry_closed) calm
      | inl current ↦
          rw (current, entry_closed)
            (noted-Calm (e.config.tunnel_id, reconnecting (reconnect_delay e)) _ _ refl refl
              (delay-first c e f (and-first _ _ current))
              (on_entry-Calm h _ o (λ e' f'. inl refl) calm))
    ]

on_close-Calm : (c : ℕ) (o : Offscreen) → Calm o → Calm (on_close c o)
unfolding on_close
on_close-Calm c o calm = elim (Option-cases (get_elem? o.conns c)) [
  | inl missing ↦ rw (missing, on_close) calm
  | inr (k, found) ↦ elim (Option-cases (get_elem? o.entries k.entry)) [
    | inl no_entry ↦ rw (found, on_close, no_entry, entry_closed) calm
    | inr (e, at_e) ↦
        rw (found, on_close, at_e)
          (entry_closed-Calm c k.entry e o (All-get o.entries k.entry calm.fresh at_e) calm)
  ]
]

close_conn-Calm : (c : ℕ) (o : Offscreen) → Calm o → Calm (close_conn c o)
unfolding close_conn
close_conn-Calm c o calm = elim (Option-cases (get_elem? o.conns c)) [
  | inl missing ↦ rw (missing, close_conn) calm
  | inr (k, found) ↦ elim (Bool-cases k.has_smux) [
    | inl smux ↦ rw (found, close_conn, smux) (on_close-Calm c _ (elsewhere o _ refl refl calm))
    | inr none_yet ↦ rw (found, close_conn, none_yet) (elsewhere o _ refl refl calm)
  ]
]

close_connection-Calm :
    (found : Option ℕ) (h : ℕ) (o : Offscreen) → Calm o → Calm (close_connection found h o)
unfolding close_connection
close_connection-Calm none h o calm = calm
close_connection-Calm (some c) h o calm =
    on_entry-Calm h _ (close_conn c o) (λ e f. inl refl) (close_conn-Calm c o calm)

connect_as-Calm :
    (id : Option Bytes) (from_start : Bool) (h : ℕ) (e : Entry) (o : Offscreen)
    → Calm o
    → Calm (connect_as id from_start h e o)
unfolding connect_as
connect_as-Calm none true h e o calm =
    noted-Calm (e.config.tunnel_id, connecting) o _ refl refl tt calm
connect_as-Calm none false h e o calm =
    noted-Calm (e.config.tunnel_id, connecting) o _ refl refl tt calm
connect_as-Calm (some id) from_start h e o calm =
    on_entry-Calm h _ _ (λ e' f. inr refl)
      (noted-Calm (e.config.tunnel_id, connecting) o _ refl refl tt calm)

connect-Calm : (from_start : Bool) (h : ℕ) (o : Offscreen) → Calm o → Calm (connect from_start h o)
unfolding connect
connect-Calm from_start h o calm = elim (Option-cases (get_elem? o.entries h)) [
  | inl missing ↦ rw (missing, connect) calm
  | inr (e, found) ↦
      rw (found, connect) (connect_as-Calm (connection_id e.config) from_start h e o calm)
]

clear_timer-Calm : (h : ℕ) (e : Entry) (o : Offscreen) → Calm o → Calm (clear_timer h e o)
unfolding clear_timer
clear_timer-Calm h e o calm =
    if-both Calm _ (on_entry-Calm h _ _ (λ e' f. f) (elsewhere o _ refl refl calm)) calm

forget-Calm : (id : Text) (o : Offscreen) → Calm o → Calm (forget id o)
unfolding forget
forget-Calm id o calm = elim (Bool-cases (is_empty (remove id o.tunnels))) [
  | inl last ↦ rw (last, forget) (elsewhere o _ refl refl calm)
  | inr more ↦ rw (more, forget) (elsewhere o _ refl refl calm)
]

stop_entry-Calm :
    (h : ℕ) (found : Option Entry) (id : Text) (o : Offscreen)
    → Calm o
    → Calm (stop_entry h found id o)
unfolding stop_entry
stop_entry-Calm h none id o calm = calm
stop_entry-Calm h (some e) id o calm =
    noted-Calm (id, stopped) _ _ refl refl tt
      (close_connection-Calm e.connection h _
        (forget-Calm id _ (on_entry-Calm h _ _ (λ e' f. f) (clear_timer-Calm h e o calm))))

stop_tunnel-Calm : (id : Text) (o : Offscreen) → Calm o → Calm (stop_tunnel id o)
unfolding stop_tunnel
stop_tunnel-Calm id o calm = elim (Option-cases (find id o.tunnels)) [
  | inl missing ↦ rw (missing, stop_tunnel) calm
  | inr (h, found) ↦ rw (found, stop_tunnel) (stop_entry-Calm h (get_elem? o.entries h) id o calm)
]

launch-Calm : (config : Config) (o : Offscreen) → Calm o → Calm (launch config o)
unfolding launch
launch-Calm config o calm = connect-Calm true (length o.entries) _ (record {
  fresh = All-append Fresh o.entries (new_entry config ∷ []) calm.fresh (inl refl, tt);
  soon = calm.soon;
})

start_tunnel-Calm : (config : Config) (o : Offscreen) → Calm o → Calm (start_tunnel config o)
unfolding start_tunnel
start_tunnel-Calm config o calm = elim (Bool-cases (is_pending config.tunnel_id o.pending_starts)) [
  | inl twice ↦ rw twice calm
  | inr once ↦ rw once (
      launch-Calm config
        (stop_tunnel config.tunnel_id
          (record o { pending_starts = config.tunnel_id ∷ o.pending_starts }))
        (stop_tunnel-Calm config.tunnel_id _ (elsewhere o _ refl refl calm)))
]

bound-Calm : (c : ℕ) (ok : Bool) (o : Offscreen) → Calm o → Calm (bound c ok o)
unfolding bound
bound-Calm c ok o calm = elim (Option-cases (get_elem? o.conns c)) [
  | inl missing ↦ rw (missing, bound) calm
  | inr (k, found) ↦ rw (found, bound) (elsewhere o _ refl refl calm)
]

outcome-Soon : (id : Text) (ok : Bool) → Soon (id, if ok then running else error)
outcome-Soon id true = tt
outcome-Soon id false = tt

settled-Calm :
    (found : Option Entry) (k : Conn) (ok : Bool) (o : Offscreen)
    → Calm o
    → Calm (settled found k ok o)
unfolding settled
settled-Calm none k ok o calm = calm
settled-Calm (some e) k ok o calm = elim (Bool-cases k.from_start) [
  | inl first ↦
      rw (first, settled)
        (noted-Calm (e.config.tunnel_id, if ok then running else error) o _ refl refl
          (outcome-Soon e.config.tunnel_id ok) calm)
  | inr again ↦
      rw (again, settled)
        (noted-Calm (e.config.tunnel_id, if ok then running else error) o _ refl refl
          (outcome-Soon e.config.tunnel_id ok) calm)
]

reset_entry-Calm : (found : Option ℕ) (o : Offscreen) → Calm o → Calm (reset_entry found o)
unfolding reset_entry
reset_entry-Calm none o calm = calm
reset_entry-Calm (some h) o calm = on_entry-Calm h _ o (λ e f. f) calm

step-Calm : (e : Event) (o : Offscreen) → Calm o → Calm (step e o)
unfolding step
step-Calm (start config) o calm = start_tunnel-Calm config o calm
step-Calm (stop id) o calm = stop_tunnel-Calm id o calm
step-Calm (settle c ok) o calm = elim (Option-cases (get_elem? o.conns c)) [
  | inl missing ↦ rw (missing, step) calm
  | inr (k, found) ↦
      rw (found, step)
        (settled-Calm (get_elem? o.entries k.entry) k ok (bound c ok o) (bound-Calm c ok o calm))
]
step-Calm (closed c) o calm = on_close-Calm c o calm
step-Calm (fire h) o calm = connect-Calm false h _ (elsewhere o _ refl refl calm)
step-Calm (reset_stats id) o calm = reset_entry-Calm (find id o.tunnels) o calm

-- After any events in any order, every reconnection that was announced is one after 1000 ms: the
-- delay never grows, because an entry with a connection has counted no attempt.
pub run-Calm : (es : List Event) (o : Offscreen) → Calm o → Calm (run es o)
unfolding run
run-Calm [] o calm = calm
run-Calm (e ∷ es) o calm = run-Calm es (step e o) (step-Calm e o calm)
