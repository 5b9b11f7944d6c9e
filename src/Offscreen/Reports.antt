-- ===== src/Offscreen/Reports.antt =====
-- What extension/offscreen.js reports of its tunnels: samples of the statistics, and statuses.
use wisper.Prelude.{
  ℕ, Bool, false, not, ◌&&◌, Option, none, some, List, [], ◌∷◌, ◌++◌, if◌then◌else◌, get_elem?,
}
use wisper.Prelude.Text.{Text}
use wisper.Offscreen.Stats.{sample, Snapshot}
use wisper.Offscreen.Tunnels.{Entry, Conn, Status, running, connecting, Offscreen, on_entry}

-- `entry.connection?.connected`: an entry's connection is bound while it has its multiplexer.
unfoldable pub is_connected : List Conn → Option ℕ → Bool
is_connected conns none = false
is_connected conns (some c) = elim (get_elem? conns c) [
  | none ↦ false
  | some k ↦ k.has_smux && not k.closed
]

-- One round of `sampleAllStats`: the baseline is renewed in any case, a snapshot is sent if connected.
unfoldable pub sample_entry :
    ℕ → Text → ℕ → Option Entry → Offscreen → Offscreen × List (Text × Snapshot)
unfolding is_connected on_entry sample
sample_entry now id h none o = (o, [])
sample_entry now id h (some e) o =
    let (stats, snapshot) = sample 1 now e.stats in
    (
      on_entry h (λ e'. record e' { stats = stats }) o,
      if is_connected o.conns e.connection then (id, snapshot) ∷ [] else [],
    )

unfoldable pub sample_each : ℕ → List (Text × ℕ) → Offscreen → Offscreen × List (Text × Snapshot)
unfolding sample_entry
sample_each now [] o = (o, [])
sample_each now ((id, h) ∷ m) o =
    let (o', sent) = sample_entry now id h (get_elem? o.entries h) o in
    let (o'', more) = sample_each now m o' in (o'', sent ++ more)

-- `sampleAllStats()` at the time `now`, with the messages that it sends
unfoldable pub sample_all_stats : ℕ → Offscreen → Offscreen × List (Text × Snapshot)
unfolding sample_each
sample_all_stats now o = sample_each now o.tunnels o

-- What `getTunnelStatuses` says of a tunnel; the entry point is the connection's, if there is one.
pub record TunnelStatus : Type 0 where
  pub tunnel_id : Text
  pub local_endpoint : Text
  pub status : Status
  pub connection : Option ℕ

abbrev pub status_of : Option ℕ → Status
status_of none = connecting
status_of (some c) = running

unfoldable pub statuses_of : List Entry → List (Text × ℕ) → List TunnelStatus
statuses_of entries [] = []
statuses_of entries ((id, h) ∷ m) = elim (get_elem? entries h) [
  | none ↦ statuses_of entries m
  | some e ↦
      (record {
        tunnel_id = id;
        local_endpoint = e.config.local_endpoint;
        status = status_of e.connection;
        connection = e.connection;
      })
      ∷ statuses_of entries m
]

-- `getTunnelStatuses()`
unfoldable pub get_tunnel_statuses : Offscreen → List TunnelStatus
unfolding statuses_of
get_tunnel_statuses o = statuses_of o.entries o.tunnels
