-- ===== src/Web/Polling.antt =====
-- web-src/src/store/stats-store.ts: the timer of the polls, and what a poll brings to the stores.
--   `setInterval` gives a new handle each time; the interval lives until it is cleared. `none` is a missing
-- value, and the answer of a poll that failed.
use wisper.Prelude.{
  ℕ, zero, suc, ◌+◌, ◌-◌, ◌*◌, ◌/◌, ◌%◌, ◌^◌, ◌≤◌, ◌<◌, min, ◌≡◌, refl, sym, ap, ◌∙◌, ◌≢◌, ◌↔◌, ◌⊎◌,
  inl, inr, Bool, true, false, not, ◌&&◌, ◌||◌, Option, none, some, List, [], ◌∷◌, ◌++◌, map,
  append-nil, append_assoc, arith, ltb, leb, ◌==◌, if◌then◌else◌, ==_iff, Bool-cases, Option-cases,
  length, get_elem?, get_or, set, take, drop, All, concat, length-append, take-append-drop,
  length-take, length-drop, take-append_left, drop-append_left, take-append_le, drop-append_le,
  All-append, Bytes, IsByte, u8, u16_be, get_u16_be, u16_le, get_u16_le, u32_le, get_u32_le,
  get_u16_be-u16_be, get_u16_le-u16_le, get_u32_le-u32_le, subst, if-both,
}
use wisper.Prelude.Text.{Text, text_eq}
use wisper.Web.Store.{Store, polled, step, Event as StoreEvent}
use wisper.Web.Items.{Tunnel, Entrypoint, tunnel_item, entrypoint_item}
pub mod Agrees
pub mod Timer

-- `StatsSnapshot`
pub record Snapshot (V : Type 0) : Type 0 where
  pub tunnels : List (Tunnel V)
  pub entrypoints : List (Entrypoint V)

pub record Polling (V : Type 0) : Type 0 where
  pub stats : List (Text × V)
  pub poll_timer : Option ℕ
  pub intervals : List (ℕ × ℕ)
  pub next_handle : ℕ
  pub tunnels : Store (Tunnel V)
  pub entrypoints : Store (Entrypoint V)

-- `stats.get(id)` and `stats.set(id, v)`
unfoldable pub get_stats : {V : Type 0} → Text → List (Text × V) → Option V
unfolding text_eq
get_stats id [] = none
get_stats id ((k, v) ∷ m) = let rest = get_stats id m in if text_eq k id then some v else rest

unfoldable pub set_stats : {V : Type 0} → Text → V → List (Text × V) → List (Text × V)
unfolding text_eq
set_stats id v [] = (id, v) ∷ []
set_stats id v ((k, w) ∷ m) =
    let rest = (k, w) ∷ set_stats id v m in if text_eq k id then (k, v) ∷ m else rest

unfoldable pub clear_interval : ℕ → List (ℕ × ℕ) → List (ℕ × ℕ)
clear_interval h [] = []
clear_interval h ((i, ms) ∷ is) =
    let rest = clear_interval h is in if i == h then rest else (i, ms) ∷ rest

-- The loops over the snapshot.
unfoldable pub collect_tunnels : {V : Type 0} → List (Tunnel V) → List (Text × V) → List (Text × V)
unfolding set_stats
collect_tunnels [] m = m
collect_tunnels (t ∷ ts) m = collect_tunnels ts (set_stats t.id t.stats m)

unfoldable pub collect_entrypoints :
    {V : Type 0} → List (Entrypoint V) → List (Text × V) → List (Text × V)
unfolding set_stats
collect_entrypoints [] m = m
collect_entrypoints (e ∷ es) m = collect_entrypoints es (set_stats e.id e.stats m)

-- The rest of `poll()`, when `backend.getStats()` is settled.
unfoldable pub poll_answer : {V : Type 0} → Option (Snapshot V) → Polling V → Polling V
unfolding step collect_tunnels collect_entrypoints tunnel_item entrypoint_item
poll_answer none p = p
poll_answer (some snapshot) p = record p {
  stats = collect_entrypoints snapshot.entrypoints (collect_tunnels snapshot.tunnels []);
  tunnels = step tunnel_item (polled snapshot.tunnels) p.tunnels;
  entrypoints = step entrypoint_item (polled snapshot.entrypoints) p.entrypoints;
}

-- `settings.stats_interval || 3`, in milliseconds
unfoldable pub interval_ms : ℕ → ℕ
interval_ms zero = 3000
interval_ms (suc n) = suc n * 1000

abbrev set_interval : {V : Type 0} → ℕ → Polling V → Polling V
set_interval ms p = record p {
  poll_timer = some p.next_handle;
  intervals = (p.next_handle, ms) ∷ p.intervals;
  next_handle = p.next_handle + 1;
}

unfoldable pub start_from : {V : Type 0} → Option ℕ → ℕ → Polling V → Polling V
unfolding interval_ms
start_from (some h) seconds p = p
start_from none seconds p = set_interval (interval_ms seconds) p

unfoldable pub stop_from : {V : Type 0} → Option ℕ → Polling V → Polling V
unfolding clear_interval
stop_from none p = p
stop_from (some h) p = record p { poll_timer = none; intervals = clear_interval h p.intervals }

unfoldable pub update_from : {V : Type 0} → Option ℕ → ℕ → Polling V → Polling V
unfolding clear_interval interval_ms
update_from none seconds p = p
update_from (some h) seconds p =
    set_interval (interval_ms seconds) (record p { intervals = clear_interval h p.intervals })

-- `startPolling()`; the first poll is an event of its own.
unfoldable pub start_polling : {V : Type 0} → ℕ → Polling V → Polling V
unfolding start_from
start_polling seconds p = start_from p.poll_timer seconds p

-- `stopPolling()`
unfoldable pub stop_polling : {V : Type 0} → Polling V → Polling V
unfolding stop_from
stop_polling p = stop_from p.poll_timer p

-- `updatePollingInterval(intervalSec)`; an interval of 0 or less is the default.
unfoldable pub update_polling_interval : {V : Type 0} → ℕ → Polling V → Polling V
unfolding update_from
update_polling_interval seconds p = update_from p.poll_timer seconds p

pub data Event (V : Type 0) : Type 0 where
  start : ℕ → Event V
  stop : Event V
  interval : ℕ → Event V
  answered : Option (Snapshot V) → Event V
  set_item : Text → V → Event V
  tunnel_event : StoreEvent (Tunnel V) → Event V
  entrypoint_event : StoreEvent (Entrypoint V) → Event V

unfoldable pub handle : {V : Type 0} → Event V → Polling V → Polling V
unfolding start_polling stop_polling update_polling_interval poll_answer set_stats step tunnel_item
    entrypoint_item
handle (start seconds) p = start_polling seconds p
handle stop p = stop_polling p
handle (interval seconds) p = update_polling_interval seconds p
handle (answered snapshot) p = poll_answer snapshot p
handle (set_item id v) p = record p { stats = set_stats id v p.stats }
handle (tunnel_event e) p = record p { tunnels = step tunnel_item e p.tunnels }
handle (entrypoint_event e) p = record p { entrypoints = step entrypoint_item e p.entrypoints }

unfoldable pub run : {V : Type 0} → List (Event V) → Polling V → Polling V
unfolding handle
run [] p = p
run (e ∷ es) p = run es (handle e p)
