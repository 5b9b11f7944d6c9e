-- ===== src/Web/Tests.antt =====
-- The theorems on the web interface at concrete items.
use wisper.Prelude.{ℕ, ◌≤◌, ◌≡◌, refl, false, none, some, List, [], ◌∷◌, All}
use wisper.Prelude.Text.{Text, codes}
use wisper.Web.Store.{
  Event, new_store, created, toggled, toggle_answered, updated, removed, polled, find_item, run,
}
use wisper.Web.Store.Refines.{IsAnswer, replay, table-run}
use wisper.Web.Items.{Tunnel, tunnel_item, entrypoint_item}
use wisper.Web.Polling.{
  Polling, Snapshot, start, stop, interval, answered, get_stats, poll_answer, run as run_polling,
}
use wisper.Web.Polling.Timer.{HasOneTimer, run-HasOneTimer}
use wisper.Web.Polling.Agrees.{poll_answer-agrees}
use wisper.Web.LanRefusal.{Refusal, lan_refusal_groups}
use wisper.Web.LanRefusal.Counts.{
  find_group, counted, first_about, occurrences, groups_of, find_group-lan_refusal_groups,
}

abbrev tunnel : Text → ℕ → Tunnel ℕ
tunnel id stats = record {
  id = id;
  name = codes "web";
  kind = codes "http";
  endpoint = codes "localhost:80";
  entrypoint = [];
  status = codes "running";
  favorite = false;
  created_at = [];
  error = [];
  options = 0;
  stats = stats;
  peer_stats = none;
  lan = none;
  peer_transport = none;
  share_effective = none;
  share_downgraded = none;
  events = none;
}

abbrev session : List (Event (Tunnel ℕ))
session =
    created (tunnel (codes "a") 0)
    ∷ toggled (codes "a")
    ∷ polled (tunnel (codes "a") 7 ∷ [])
    ∷ toggle_answered (codes "a") false none
    ∷ updated (codes "a") (tunnel (codes "a") 9)
    ∷ removed (codes "b")
    ∷ []

session-IsAnswer : All (IsAnswer tunnel_item) session
unfolding tunnel_item
session-IsAnswer = (tt, (tt, (tt, (tt, (refl, (tt, tt))))))

table-run_example :
    (λ i. find_item tunnel_item i (run tunnel_item session new_store).items)
    ≡ replay tunnel_item session (λ i. find_item tunnel_item i [])
table-run_example = table-run tunnel_item session new_store session-IsAnswer

abbrev polling : Polling ℕ
polling = record {
  stats = (codes "z", 4) ∷ [];
  poll_timer = none;
  intervals = [];
  next_handle = 1;
  tunnels = record new_store { items = tunnel (codes "a") 1 ∷ [] };
  entrypoints = new_store;
}

run-HasOneTimer_example :
    HasOneTimer
      (run_polling (start 3 ∷ start 5 ∷ interval 0 ∷ answered none ∷ stop ∷ start 3 ∷ []) polling)
run-HasOneTimer_example =
    run-HasOneTimer (start 3 ∷ start 5 ∷ interval 0 ∷ answered none ∷ stop ∷ start 3 ∷ []) polling
      refl

abbrev snapshot : Snapshot ℕ
snapshot = record { tunnels = tunnel (codes "a") 8 ∷ tunnel (codes "b") 2 ∷ []; entrypoints = [] }

listed : find_item tunnel_item (codes "a") polling.tunnels.items ≡ some (tunnel (codes "a") 1)
unfolding find_item tunnel_item
listed = refl

reported : find_item tunnel_item (codes "a") snapshot.tunnels ≡ some (tunnel (codes "a") 8)
unfolding find_item tunnel_item
reported = refl

no_entrypoint : find_item entrypoint_item (codes "a") snapshot.entrypoints ≡ none
unfolding find_item
no_entrypoint = refl

poll_answer-agrees_example :
    (u : Tunnel ℕ) × (find_item tunnel_item
        (codes "a")
        (poll_answer (some snapshot) polling).tunnels.items
      ≡ some u)
    × (get_stats (codes "a") (poll_answer (some snapshot) polling).stats ≡ some u.stats)
poll_answer-agrees_example =
    poll_answer-agrees snapshot polling (codes "a") (tunnel (codes "a") 1) (tunnel (codes "a") 8)
      listed reported no_entrypoint

abbrev refusal : Text → Refusal
refusal reason = record {
  peer = codes "p";
  prefix = codes "10.0.0.0/8";
  reason = reason;
  detail = none;
  at = [];
}

abbrev journal : List Refusal
journal = refusal (codes "empty-allow") ∷ refusal (codes "taken-by-peer") ∷ []

find_group-lan_refusal_groups_example :
    let groups = lan_refusal_groups (some (record { claims = []; rejected = some journal })) in
    (find_group (codes "p") (codes "10.0.0.0/8") groups
      ≡ counted []
          (first_about (codes "p") (codes "10.0.0.0/8") journal)
          (occurrences (codes "p") (codes "10.0.0.0/8") journal))
    × (groups_of (codes "p") (codes "10.0.0.0/8") groups ≤ 1)
find_group-lan_refusal_groups_example =
    find_group-lan_refusal_groups [] journal (codes "p") (codes "10.0.0.0/8")
