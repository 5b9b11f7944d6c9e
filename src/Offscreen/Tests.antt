-- ===== src/Offscreen/Tests.antt =====
-- The theorems on the offscreen document at concrete events.
use wisper.Prelude.{Bytes, ◌≤◌, ◌≡◌, refl, true, some, List, [], ◌∷◌, arith}
use wisper.Prelude.Int.{pos}
use wisper.Prelude.Text.{codes}
use wisper.Offscreen.Stats.{new_stats, sample}
use wisper.Offscreen.Stats.Rates.{
  Event, requested, received, sent, closed, run, received_bytes, sent_bytes, requests, sample-run,
}
use wisper.Offscreen.Tunnels.{
  Config, is_empty, new_offscreen, running, start, stop, settle, fire, closed as closed_of,
  run as run_events,
}
use wisper.Offscreen.Reports.{get_tunnel_statuses}
use wisper.Offscreen.Tunnels.Sampler.{Samples, run-Samples}
use wisper.Offscreen.Tunnels.Backoff.{Calm, run-Calm}

abbrev exchange : List Event
exchange = requested ∷ received (some (1 ∷ 2 ∷ [])) ∷ sent (3 ∷ []) ∷ closed ∷ []

sample-run_example :
    ((sample 1 9 (run exchange (sample 1 8 new_stats).0)).1.input_rate
      ≡ record { delta = pos (received_bytes exchange); interval = 1 })
    × ((sample 1 9 (run exchange (sample 1 8 new_stats).0)).1.output_rate
        ≡ record { delta = pos (sent_bytes exchange); interval = 1 })
    × ((sample 1 9 (run exchange (sample 1 8 new_stats).0)).1.conns_rate
        ≡ record { delta = pos (requests exchange); interval = 1 })
    × ((run exchange new_stats).current_conns ≤ (run exchange new_stats).total_conns)
sample-run_example = sample-run exchange new_stats 8 9 1 1 (omega arith)

abbrev id20 : Bytes
id20 = 1 ∷ 2 ∷ 3 ∷ 4 ∷ 5 ∷ 6 ∷ 7 ∷ 8 ∷ 9 ∷ 10 ∷ 11 ∷ 12 ∷ 13 ∷ 14 ∷ 15 ∷ 16 ∷ 0 ∷ 0 ∷ 0 ∷ 0 ∷ []

abbrev web : Config
web = record {
  tunnel_id = codes "a";
  tunnel_id_bytes = some id20;
  local_endpoint = codes "localhost:80";
}

no_tunnels-Samples : Samples new_offscreen
unfolding is_empty
no_tunnels-Samples = refl

run-Samples_example :
    Samples (run_events (start web ∷ settle 0 true ∷ stop (codes "a") ∷ []) new_offscreen)
run-Samples_example =
    run-Samples (start web ∷ settle 0 true ∷ stop (codes "a") ∷ []) new_offscreen no_tunnels-Samples

no_tunnels-Calm : Calm new_offscreen
no_tunnels-Calm = record { fresh = tt; soon = tt }

run-Calm_example :
    Calm (
      run_events
        (start web ∷ settle 0 true ∷ closed_of 0 ∷ fire 0 ∷ closed_of 1 ∷ [])
        new_offscreen)
run-Calm_example =
    run-Calm (start web ∷ settle 0 true ∷ closed_of 0 ∷ fire 0 ∷ closed_of 1 ∷ []) new_offscreen
      no_tunnels-Calm

-- A tunnel that has only begun to connect is reported as running.
statuses-start :
    get_tunnel_statuses (run_events (start web ∷ []) new_offscreen)
    ≡ (record {
      tunnel_id = codes "a";
      local_endpoint = codes "localhost:80";
      status = running;
      connection = some 0;
    })
      ∷ []
unfolding get_tunnel_statuses run_events
statuses-start = refl
