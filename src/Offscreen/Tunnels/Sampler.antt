-- ===== src/Offscreen/Tunnels/Sampler.antt =====
-- The sampling timer runs exactly while there are tunnels.
use wisper.Prelude.{
  Bytes, ℕ, ◌≡◌, refl, sym, ap, ◌∙◌, inl, inr, Bool, true, false, not, ◌&&◌, Option, none, some,
  List, [], ◌∷◌, if◌then◌else◌, Bool-cases, Option-cases, length, get_elem?,
}
use wisper.Prelude.Text.{Text, text_eq}
use wisper.Offscreen.Tunnels.{
  Config, Entry, Conn, Offscreen, put, is_empty, on_entry, entry_closed, on_close, close_conn,
  close_connection, connection_id, connect_as, connect, stop_entry, stop_tunnel, start_tunnel,
  settled, bound, clear_timer, forget, launch, remove, remove_timer, is_conn, reset_entry, Event,
  start, stop, settle, closed, fire, reset_stats, step, run, is_pending, has, find,
}

-- The timer runs, or there is no tunnel.
abbrev pub Samples : Offscreen → Type 0
Samples o = o.stats_timer ≡ not (is_empty o.tunnels)

-- What leaves the tunnels and the timer alone.
record Same (o o' : Offscreen) : Type 0 where
  tunnels : o'.tunnels ≡ o.tunnels
  timer : o'.stats_timer ≡ o.stats_timer

same : (o : Offscreen) → Same o o
same o = record { tunnels = refl; timer = refl }

Same-trans : {o o' o'' : Offscreen} → Same o o' → Same o' o'' → Same o o''
Same-trans a b = record { tunnels = b.tunnels ∙ a.tunnels; timer = b.timer ∙ a.timer }

Same-Samples : {o o' : Offscreen} → Same o o' → Samples o → Samples o'
Same-Samples s h = s.timer ∙ h ∙ ap (λ m. not (is_empty m)) (sym s.tunnels)

on_entry-Same : (h : ℕ) (f : Entry → Entry) (o : Offscreen) → Same o (on_entry h f o)
unfolding on_entry
on_entry-Same h f o = elim (Option-cases (get_elem? o.entries h)) [
  | inl missing ↦ rw (missing, on_entry) (same o)
  | inr (e, found) ↦ rw (found, on_entry) (record { tunnels = refl; timer = refl })
]

entry_closed-Same :
    (c h : ℕ) (found : Option Entry) (o : Offscreen) → Same o (entry_closed c h found o)
unfolding entry_closed
entry_closed-Same c h none o = same o
entry_closed-Same c h (some e) o =
    elim (Bool-cases (is_conn c e.connection && has e.config.tunnel_id o.tunnels)) [
      | inl current ↦
          rw (current, entry_closed)
            (record {
              tunnels = (on_entry-Same h _ o).tunnels;
              timer = (on_entry-Same h _ o).timer;
            })
      | inr stale ↦ rw (stale, entry_closed) (same o)
    ]

on_close-Same : (c : ℕ) (o : Offscreen) → Same o (on_close c o)
unfolding on_close
on_close-Same c o = elim (Option-cases (get_elem? o.conns c)) [
  | inl missing ↦ rw (missing, on_close) (same o)
  | inr (k, found) ↦
      rw (found, on_close) (entry_closed-Same c k.entry (get_elem? o.entries k.entry) o)
]

close_conn-Same : (c : ℕ) (o : Offscreen) → Same o (close_conn c o)
unfolding close_conn
close_conn-Same c o = elim (Option-cases (get_elem? o.conns c)) [
  | inl missing ↦ rw (missing, close_conn) (same o)
  | inr (k, found) ↦ elim (Bool-cases k.has_smux) [
    | inl smux ↦
        rw (found, close_conn, smux)
          (record { tunnels = (on_close-Same c _).tunnels; timer = (on_close-Same c _).timer })
    | inr none_yet ↦ rw (found, close_conn, none_yet) (record { tunnels = refl; timer = refl })
  ]
]

close_connection-Same :
    (found : Option ℕ) (h : ℕ) (o : Offscreen) → Same o (close_connection found h o)
unfolding close_connection
close_connection-Same none h o = same o
close_connection-Same (some c) h o =
    Same-trans (close_conn-Same c o) (on_entry-Same h _ (close_conn c o))

connect_as-Same :
    (id : Option Bytes) (from_start : Bool) (h : ℕ) (e : Entry) (o : Offscreen)
    → Same o (connect_as id from_start h e o)
unfolding connect_as
connect_as-Same none true h e o = record { tunnels = refl; timer = refl }
connect_as-Same none false h e o = record { tunnels = refl; timer = refl }
connect_as-Same (some id) from_start h e o = record {
  tunnels = (on_entry-Same h _ _).tunnels;
  timer = (on_entry-Same h _ _).timer;
}

connect-Same : (from_start : Bool) (h : ℕ) (o : Offscreen) → Same o (connect from_start h o)
unfolding connect
connect-Same from_start h o = elim (Option-cases (get_elem? o.entries h)) [
  | inl missing ↦ rw (missing, connect) (same o)
  | inr (e, found) ↦ rw (found, connect) (connect_as-Same (connection_id e.config) from_start h e o)
]

clear_timer_waiting :
    (h : ℕ) (e : Entry) (o : Offscreen)
    → e.reconnect_timer ≡ true
    → clear_timer h e o
      ≡ on_entry h
          (λ e'. record e' { reconnect_timer = false })
          (record o { timers = remove_timer h o.timers })
unfolding clear_timer
clear_timer_waiting h e o waits =
    ap
      (λ (t : Bool).
        if t
        then on_entry h (λ e'. record e' { reconnect_timer = false })
            (record o { timers = remove_timer h o.timers })
        else o)
      waits

clear_timer-Same : (h : ℕ) (e : Entry) (o : Offscreen) → Same o (clear_timer h e o)
unfolding clear_timer
clear_timer-Same h e o = elim (Bool-cases e.reconnect_timer) [
  | inl waits ↦
      rw (clear_timer_waiting h e o waits)
        (record { tunnels = (on_entry-Same h _ _).tunnels; timer = (on_entry-Same h _ _).timer })
  | inr idle ↦ rw idle (same o)
]

remove-not_empty :
    (id : Text) (m : List (Text × ℕ)) → is_empty (remove id m) ≡ false → is_empty m ≡ false
unfolding remove is_empty
remove-not_empty id [] h = h
remove-not_empty id (e ∷ m) h = refl

forget-Samples : (id : Text) (o : Offscreen) → Samples o → Samples (forget id o)
unfolding forget is_empty
forget-Samples id o h = elim (Bool-cases (is_empty (remove id o.tunnels))) [
  | inl last ↦ rw last (rw last refl)
  | inr more ↦ rw more (rw more (h ∙ ap not (remove-not_empty id o.tunnels more)))
]

stop_entry-Samples :
    (h : ℕ) (found : Option Entry) (id : Text) (o : Offscreen)
    → Samples o
    → Samples (stop_entry h found id o)
unfolding stop_entry
stop_entry-Samples h none id o s = s
stop_entry-Samples h (some e) id o s = Same-Samples (close_connection-Same e.connection h _) (
    forget-Samples id _ (
      Same-Samples (Same-trans (clear_timer-Same h e o) (on_entry-Same h _ (clear_timer h e o))) s))

stop_tunnel-Samples : (id : Text) (o : Offscreen) → Samples o → Samples (stop_tunnel id o)
unfolding stop_tunnel
stop_tunnel-Samples id o s = elim (Option-cases (find id o.tunnels)) [
  | inl missing ↦ rw (missing, stop_tunnel) s
  | inr (h, found) ↦ rw (found, stop_tunnel) (stop_entry-Samples h (get_elem? o.entries h) id o s)
]

put-not_empty : (id : Text) (h : ℕ) (m : List (Text × ℕ)) → is_empty (put id h m) ≡ false
unfolding put is_empty
put-not_empty id h [] = refl
put-not_empty id h ((j, g) ∷ m) = elim (Bool-cases (text_eq j id)) [
  | inl here ↦ rw here refl
  | inr other ↦ rw other refl
]

launch-Samples : (config : Config) (o : Offscreen) → Samples (launch config o)
unfolding launch
launch-Samples config o =
    Same-Samples (connect-Same true (length o.entries) _)
      (ap not (sym (put-not_empty config.tunnel_id (length o.entries) o.tunnels)))

start_tunnel-Samples :
    (config : Config) (o : Offscreen) → Samples o → Samples (start_tunnel config o)
unfolding start_tunnel
start_tunnel-Samples config o s = elim (Bool-cases (is_pending config.tunnel_id o.pending_starts)) [
  | inl twice ↦ rw twice s
  | inr once ↦ rw once (
      launch-Samples config (
        stop_tunnel config.tunnel_id
          (record o { pending_starts = config.tunnel_id ∷ o.pending_starts })))
]

bound-Same : (c : ℕ) (ok : Bool) (o : Offscreen) → Same o (bound c ok o)
unfolding bound
bound-Same c ok o = elim (Option-cases (get_elem? o.conns c)) [
  | inl missing ↦ rw (missing, bound) (same o)
  | inr (k, found) ↦ rw (found, bound) (record { tunnels = refl; timer = refl })
]

settled-Same :
    (found : Option Entry) (k : Conn) (ok : Bool) (o : Offscreen) → Same o (settled found k ok o)
unfolding settled
settled-Same none k ok o = same o
settled-Same (some e) k ok o = elim (Bool-cases k.from_start) [
  | inl first ↦ rw (first, settled) (record { tunnels = refl; timer = refl })
  | inr again ↦ rw (again, settled) (record { tunnels = refl; timer = refl })
]

reset_entry-Same : (found : Option ℕ) (o : Offscreen) → Same o (reset_entry found o)
unfolding reset_entry
reset_entry-Same none o = same o
reset_entry-Same (some h) o = on_entry-Same h _ o

step-Samples : (e : Event) (o : Offscreen) → Samples o → Samples (step e o)
unfolding step
step-Samples (start config) o s = start_tunnel-Samples config o s
step-Samples (stop id) o s = stop_tunnel-Samples id o s
step-Samples (settle c ok) o s = elim (Option-cases (get_elem? o.conns c)) [
  | inl missing ↦ rw (missing, step) s
  | inr (k, found) ↦
      rw (found, step)
        (Same-Samples
          (Same-trans (bound-Same c ok o)
            (settled-Same (get_elem? o.entries k.entry) k ok (bound c ok o)))
          s)
]
step-Samples (closed c) o s = Same-Samples (on_close-Same c o) s
step-Samples (fire h) o s = Same-Samples (connect-Same false h _) s
step-Samples (reset_stats id) o s = Same-Samples (reset_entry-Same (find id o.tunnels) o) s

-- After any events in any order, the sampling timer runs exactly if there is a tunnel.
pub run-Samples : (es : List Event) (o : Offscreen) → Samples o → Samples (run es o)
unfolding run
run-Samples [] o s = s
run-Samples (e ∷ es) o s = run-Samples es (step e o) (step-Samples e o s)
