-- ===== src/Background/Worker/Keeps.antt =====
-- What every interleaving of the handlers keeps.
use wisper.Prelude.{All}
use wisper.Prelude.Text.{Text}
use wisper.Background.Json.{IsObject}
use wisper.Background.Storage.Refines.{IsValid}
use wisper.Background.Storage.Unique.{IsStore}
use wisper.Background.Worker.{
  change, restart, Job, reading, writing, done, Worker, Event, start_tunnel, stop_tunnel,
  tunnel_status, tunnel_stats, wake, answer, write,
}

-- A job has a valid change, and what it read is as the storage must be.
unfoldable pub IsSound : Job → Type 0
unfolding IsValid
IsSound (reading restart) = Unit {0}
IsSound (reading (change c)) = IsValid c
IsSound (writing c ts) = IsValid c × IsStore ts
IsSound done = Unit {0}

pub record IsConsistent (w : Worker) : Type 0 where
  pub store : IsStore w.stored
  pub jobs : All IsSound w.jobs

-- A configuration that comes in a message is an object.
unfoldable pub IsMessage : Event → Type 0
unfolding IsObject
IsMessage (start_tunnel uuid config) = IsObject config
IsMessage (stop_tunnel id) = Unit {0}
IsMessage (tunnel_status msg) = Unit {0}
IsMessage (tunnel_stats now id stats) = Unit {0}
IsMessage wake = Unit {0}
IsMessage (answer i) = Unit {0}
IsMessage (write i) = Unit {0}
