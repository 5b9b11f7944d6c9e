-- ===== src/Background/Tests.antt =====
-- The theorems on the service worker at concrete tunnels and messages.
use wisper.Prelude.{
  ◌+◌, ◌*◌, ◌≤◌, ◌≡◌, refl, true, false, none, some, List, [], ◌∷◌, ◌++◌, arith, if◌then◌else◌,
  length, All,
}
use wisper.Prelude.Text.{codes}
use wisper.Background.Json.{string, number, no_props, prop, Props}
use wisper.Background.Rules.{sync_hostname}
use wisper.Background.Rules.Cleared.{foreign, sync_hostname-foreign}
use wisper.Background.Storage.{Change, start, stop, report, count, apply, StatusMessage}
use wisper.Background.Storage.Refines.{table, replay, IsValid}
use wisper.Background.Document.{
  Event as Creation, ensure, answer as told, asleep, run as run_creations,
}
use wisper.Background.Document.Single.{IsSingle, run-IsSingle}
use wisper.Background.Worker.{Worker, rules_removed, stopped, closed, answer, run}
use wisper.Background.Worker.Serial.{handle, handle_all, table-handle_all, overlap, stored-overlap}
use wisper.Background.Worker.Stops.{effects-stop, is_last}
use wisper.Background.Worker.Throttle.{StatsMessage, handle_all_stats, handle_all_stats-throttled}

abbrev idle : Worker
idle = record { stored = []; jobs = []; last_persist = 0; effects = [] }

abbrev web : Props
web =
    prop (codes "tunnelId") (string (codes "a"))
      (prop (codes "hostname") (string (codes "h")) no_props)

abbrev working : StatusMessage
working = record {
  tunnel_id = codes "a";
  status = string (codes "running");
  error = none;
  entrypoint = some (string (codes "e"));
}

abbrev changes : List Change
changes =
    start (codes "a") web ∷ report working ∷ count (codes "a") (number 3) ∷ stop (codes "a") ∷ []

sync_hostname-foreign_example :
    sync_hostname
      (record { tunnel_id = codes "a"; hostname = true; active = true } ∷ [])
      (1 ∷ 10097 ∷ 20097 ∷ 15000 ∷ 30000 ∷ [])
    ≡ foreign (1 ∷ 10097 ∷ 20097 ∷ 15000 ∷ 30000 ∷ [])
sync_hostname-foreign_example =
    sync_hostname-foreign (record { tunnel_id = codes "a"; hostname = true; active = true } ∷ [])
      (1 ∷ 10097 ∷ 20097 ∷ 15000 ∷ 30000 ∷ [])

changes-IsValid : All IsValid changes
unfolding IsValid
changes-IsValid = (((refl, (refl, tt)), refl), (tt, (tt, (tt, tt))))

table-handle_all_example : table (handle_all changes idle).stored ≡ replay changes (table [])
table-handle_all_example = table-handle_all changes idle changes-IsValid

stored-overlap_example :
    (overlap (report working) (stop (codes "a")) (record idle { stored = web ∷ [] })).stored
    ≡ apply (stop (codes "a")) (web ∷ [])
stored-overlap_example =
    stored-overlap (report working) (stop (codes "a")) (record idle { stored = web ∷ [] })

effects-stop_example :
    (handle (stop (codes "a")) (record idle { stored = web ∷ [] })).effects
    ≡ (rules_removed (codes "a") ∷ [])
      ++ (stopped (codes "a") ∷ (if is_last (codes "a") (web ∷ []) then closed ∷ [] else []))
effects-stop_example = effects-stop (codes "a") (record idle { stored = web ∷ [] })

abbrev burst : List StatsMessage
burst =
    record { now = 5000; tunnel_id = codes "a"; stats = number 1 }
    ∷ record { now = 5001; tunnel_id = codes "b"; stats = number 2 }
    ∷ record { now = 9000; tunnel_id = codes "a"; stats = number 3 }
    ∷ []

handle_all_stats-throttled_example :
    3000 * length (handle_all_stats burst idle).jobs + 0 ≤ 3000 * 0 + 9000
handle_all_stats-throttled_example =
    handle_all_stats-throttled burst idle 9000 (omega arith, (omega arith, (omega arith, tt)))
      (omega arith)

-- Two calls are told that there is no document before either has made it.
abbrev two_calls : List Creation
two_calls = ensure ∷ ensure ∷ told 0 false ∷ told 1 false ∷ []

run-IsSingle_example : IsSingle (run_creations two_calls asleep)
run-IsSingle_example = run-IsSingle two_calls asleep (refl, tt)
