-- ===== src/Offscreen/Tunnels.antt =====
-- extension/offscreen.js: the tunnels that run, and their connections.
--   Entries and connections are shared objects, in heaps; a handle is an index. An `await` is a later
-- event: `settle` when the promise of `conn.connect()` is settled, `fire` when a timeout has passed.
use wisper.Prelude.{
  ℕ, zero, suc, ◌+◌, ◌-◌, ◌*◌, ◌/◌, ◌%◌, ◌^◌, ◌≤◌, ◌<◌, min, ◌≡◌, refl, sym, ap, ◌∙◌, ◌≢◌, ◌↔◌, ◌⊎◌,
  inl, inr, Bool, true, false, not, ◌&&◌, ◌||◌, Option, none, some, List, [], ◌∷◌, ◌++◌, map,
  append-nil, append_assoc, arith, ltb, leb, ◌==◌, if◌then◌else◌, ==_iff, Bool-cases, Option-cases,
  length, get_elem?, get_or, set, take, drop, All, concat, length-append, take-append-drop,
  length-take, length-drop, take-append_left, drop-append_left, take-append_le, drop-append_le,
  All-append, Bytes, IsByte, u8, u16_be, get_u16_be, u16_le, get_u16_le, u32_le, get_u32_le,
  get_u16_be-u16_be, get_u16_le-u16_le, get_u32_le-u32_le, subst, if-both,
}
use wisper.Prelude.Text.{Text, text_eq}
use wisper.Tunnel.Id.{uuid_to_tunnel_id_bytes}
use wisper.Offscreen.Stats.{TunnelStats, new_stats, reset, sample, Snapshot}
pub mod Sampler
pub mod Backoff

-- What this module reads of a tunnel's configuration; the rest goes to the connection and the
-- forwarder as it is.
pub record Config : Type 0 where
  pub tunnel_id : Text
  pub tunnel_id_bytes : Option Bytes
  pub local_endpoint : Text

pub record Entry : Type 0 where
  pub config : Config
  pub connection : Option ℕ
  pub reconnect_timer : Bool
  pub reconnect_attempts : Option ℕ
  pub stats : TunnelStats

-- A `TunnelConnection`: the entry that its `onClose` is about, whether it has a multiplexer and whether
-- it was closed, and whether `startTunnel` waits for it.
pub record Conn : Type 0 where
  pub entry : ℕ
  pub has_smux : Bool
  pub closed : Bool
  pub from_start : Bool

pub data Status : Type 0 where
  stopped : Status
  connecting : Status
  reconnecting : ℕ → Status
  running : Status
  error : Status

pub record Offscreen : Type 0 where
  pub entries : List Entry
  pub conns : List Conn
  pub tunnels : List (Text × ℕ)
  pub pending_starts : List Text
  pub timers : List ℕ
  pub stats_timer : Bool
  pub notes : List (Text × Status)

abbrev pub new_offscreen : Offscreen
new_offscreen = record {
  entries = [];
  conns = [];
  tunnels = [];
  pending_starts = [];
  timers = [];
  stats_timer = false;
  notes = [];
}

unfoldable pub find : Text → List (Text × ℕ) → Option ℕ
unfolding text_eq
find k [] = none
find k ((j, h) ∷ m) = if text_eq j k then some h else find k m

unfoldable pub put : Text → ℕ → List (Text × ℕ) → List (Text × ℕ)
unfolding text_eq
put k h [] = (k, h) ∷ []
put k h ((j, g) ∷ m) = if text_eq j k then (k, h) ∷ m else (j, g) ∷ put k h m

unfoldable pub remove : Text → List (Text × ℕ) → List (Text × ℕ)
unfolding text_eq
remove k [] = []
remove k ((j, h) ∷ m) = if text_eq j k then m else (j, h) ∷ remove k m

unfoldable pub is_pending : Text → List Text → Bool
unfolding text_eq
is_pending k [] = false
is_pending k (j ∷ ks) = text_eq j k || is_pending k ks

unfoldable pub not_pending : Text → List Text → List Text
unfolding text_eq
not_pending k [] = []
not_pending k (j ∷ ks) = if text_eq j k then not_pending k ks else j ∷ not_pending k ks

-- `notifyStatus`
abbrev pub notify : Text → Status → Offscreen → Offscreen
notify id status o = record o { notes = o.notes ++ ((id, status) ∷ []) }

-- A change of an entry; a handle is never dangling.
unfoldable pub on_entry : ℕ → (Entry → Entry) → Offscreen → Offscreen
on_entry h f o = elim (get_elem? o.entries h) [
  | none ↦ o
  | some e ↦ record o { entries = set o.entries h (f e) }
]

unfoldable pub remove_timer : ℕ → List ℕ → List ℕ
remove_timer h [] = []
remove_timer h (t ∷ ts) = if t == h then remove_timer h ts else t ∷ remove_timer h ts

-- `Math.min(1000 * Math.pow(2, attempts || 0), 30000)`
abbrev pub attempts_of : Option ℕ → ℕ
attempts_of none = 0
attempts_of (some n) = n

unfoldable pub reconnect_delay : Entry → ℕ
reconnect_delay e = min (1000 * 2 ^ attempts_of e.reconnect_attempts) 30000

unfoldable pub is_conn : ℕ → Option ℕ → Bool
is_conn c none = false
is_conn c (some d) = c == d

unfoldable pub has : Text → List (Text × ℕ) → Bool
unfolding find
has k m = elim (find k m) [ none ↦ false | some _ ↦ true ]

-- `conn.onClose` of the connection `c` of the entry `h`
unfoldable pub entry_closed : ℕ → ℕ → Option Entry → Offscreen → Offscreen
unfolding on_entry is_conn has reconnect_delay
entry_closed c h none o = o
entry_closed c h (some e) o =
    if is_conn c e.connection && has e.config.tunnel_id o.tunnels
    then (let o' =
          on_entry h
            (λ e'. record e' {
              connection = none;
              reconnect_attempts = some (attempts_of e.reconnect_attempts + 1);
              reconnect_timer = true;
            })
            o in
        notify e.config.tunnel_id (reconnecting (reconnect_delay e))
          (record o' { timers = o'.timers ++ (h ∷ []) }))
    else o

unfoldable pub on_close : ℕ → Offscreen → Offscreen
unfolding entry_closed
on_close c o = elim (get_elem? o.conns c) [
  | none ↦ o
  | some k ↦ entry_closed c k.entry (get_elem? o.entries k.entry) o
]

-- `connection.close()`: with a multiplexer, closing it calls `onClose` at once.
unfoldable pub close_conn : ℕ → Offscreen → Offscreen
unfolding on_close
close_conn c o = elim (get_elem? o.conns c) [
  | none ↦ o
  | some k ↦
      let o' = record o { conns = set o.conns c (record k { has_smux = false; closed = true }) } in
      if k.has_smux then on_close c o' else o'
]

-- The tunnelId of the connection, given or made of the UUID; `none` where that throws.
unfoldable pub connection_id : Config → Option Bytes
unfolding uuid_to_tunnel_id_bytes
connection_id config = elim config.tunnel_id_bytes [
  | some bytes ↦ some bytes
  | none ↦ uuid_to_tunnel_id_bytes config.tunnel_id
]

-- `connect(entry)` up to its `await`. Where it throws before, the entry stays without a connection, the
-- promise is rejected, and `finally` in startTunnel runs at once.
unfoldable pub connect_as : Option Bytes → Bool → ℕ → Entry → Offscreen → Offscreen
unfolding on_entry not_pending
connect_as none from_start h e o =
    let noted = notify e.config.tunnel_id connecting o in
    if from_start
    then record noted { pending_starts = not_pending e.config.tunnel_id o.pending_starts }
    else noted
connect_as (some id) from_start h e o =
    let noted = notify e.config.tunnel_id connecting o in
    on_entry h (λ e'. record e' { connection = some (length o.conns); reconnect_attempts = some 0 })
      (record noted {
        conns =
            o.conns
            ++ (record { entry = h; has_smux = false; closed = false; from_start = from_start }
                ∷ []);
      })

unfoldable pub connect : Bool → ℕ → Offscreen → Offscreen
unfolding connect_as connection_id
connect from_start h o = elim (get_elem? o.entries h) [
  | none ↦ o
  | some e ↦ connect_as (connection_id e.config) from_start h e o
]

-- `stopStatsSampler()`
abbrev pub stop_sampler : Offscreen → Offscreen
stop_sampler o = record o { stats_timer = false }

unfoldable pub is_empty : List (Text × ℕ) → Bool
is_empty [] = true
is_empty (e ∷ m) = false

unfoldable pub close_connection : Option ℕ → ℕ → Offscreen → Offscreen
unfolding close_conn on_entry
close_connection none h o = o
close_connection (some c) h o = on_entry h (λ e. record e { connection = none }) (close_conn c o)

-- `if (entry.reconnectTimer) { clearTimeout(entry.reconnectTimer); entry.reconnectTimer = null; }`
unfoldable pub clear_timer : ℕ → Entry → Offscreen → Offscreen
unfolding on_entry remove_timer
clear_timer h e o =
    if e.reconnect_timer
    then on_entry h (λ e'. record e' { reconnect_timer = false })
        (record o { timers = remove_timer h o.timers })
    else o

-- `tunnels.delete(tunnelId); if (tunnels.size === 0) stopStatsSampler();`
unfoldable pub forget : Text → Offscreen → Offscreen
unfolding remove is_empty
forget id o =
    let o' = record o { tunnels = remove id o.tunnels } in
    if is_empty (remove id o.tunnels) then stop_sampler o' else o'

unfoldable pub stop_entry : ℕ → Option Entry → Text → Offscreen → Offscreen
unfolding on_entry clear_timer forget close_connection reset
stop_entry h none id o = o
stop_entry h (some e) id o =
    let cleared = clear_timer h e o in
    let zeroed = on_entry h (λ e'. record e' { stats = reset e'.stats }) cleared in
    notify id stopped (close_connection e.connection h (forget id zeroed))

-- `stopTunnel(tunnelId)`
unfoldable pub stop_tunnel : Text → Offscreen → Offscreen
unfolding stop_entry find
stop_tunnel id o = elim (find id o.tunnels) [
  | none ↦ o
  | some h ↦ stop_entry h (get_elem? o.entries h) id o
]

abbrev pub new_entry : Config → Entry
new_entry config = record {
  config = config;
  connection = none;
  reconnect_timer = false;
  reconnect_attempts = none;
  stats = new_stats;
}

-- `const entry = …; tunnels.set(tunnelId, entry); startStatsSampler(); connect(entry)`
unfoldable pub launch : Config → Offscreen → Offscreen
unfolding connect put
launch config o =
    let h = length o.entries in
    connect true h (record o {
      entries = o.entries ++ (new_entry config ∷ []);
      tunnels = put config.tunnel_id h o.tunnels;
      stats_timer = true;
    })

-- `startTunnel(config)`. (Without an entry `stop_tunnel` does nothing, so it stands for the test
-- `tunnels.has(tunnelId)` too.)
unfoldable pub start_tunnel : Config → Offscreen → Offscreen
unfolding stop_tunnel launch is_pending
start_tunnel config o =
    if is_pending config.tunnel_id o.pending_starts
    then o
    else launch config (
        stop_tunnel config.tunnel_id
          (record o { pending_starts = config.tunnel_id ∷ o.pending_starts }))

unfoldable pub settled : Option Entry → Conn → Bool → Offscreen → Offscreen
unfolding not_pending
settled none k ok o = o
settled (some e) k ok o =
    let o' = notify e.config.tunnel_id (if ok then running else error) o in
    if k.from_start
    then record o' { pending_starts = not_pending e.config.tunnel_id o'.pending_starts }
    else o'

-- What happens to the offscreen document.
pub data Event : Type 0 where
  start : Config → Event
  stop : Text → Event
  settle : ℕ → Bool → Event
  closed : ℕ → Event
  fire : ℕ → Event
  reset_stats : Text → Event

unfoldable pub bound : ℕ → Bool → Offscreen → Offscreen
bound c ok o = elim (get_elem? o.conns c) [
  | none ↦ o
  | some k ↦ record o { conns = set o.conns c (record k { has_smux = ok && not k.closed }) }
]

unfoldable pub reset_entry : Option ℕ → Offscreen → Offscreen
unfolding on_entry reset sample
reset_entry none o = o
reset_entry (some h) o = on_entry h (λ e. record e { stats = (sample 1 0 (reset e.stats)).0 }) o

unfoldable pub step : Event → Offscreen → Offscreen
unfolding start_tunnel stop_tunnel settled bound on_close connect remove_timer reset_entry find
step (start config) o = start_tunnel config o
step (stop id) o = stop_tunnel id o
step (settle c ok) o = elim (get_elem? o.conns c) [
  | none ↦ o
  | some k ↦ settled (get_elem? o.entries k.entry) k ok (bound c ok o)
]
step (closed c) o = on_close c o
step (fire h) o = connect false h (record o { timers = remove_timer h o.timers })
step (reset_stats id) o = reset_entry (find id o.tunnels) o

unfoldable pub run : List Event → Offscreen → Offscreen
unfolding step
run [] o = o
run (e ∷ es) o = run es (step e o)
