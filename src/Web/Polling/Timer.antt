-- ===== src/Web/Polling/Timer.antt =====
-- The timer of the polls.
use wisper.Prelude.{ℕ, ◌≡◌, refl, ap, ◌∙◌, true, Option, none, some, List, [], ◌∷◌, arith, ◌==◌}
use wisper.Web.Polling.{
  Polling, start_from, stop_from, update_from, clear_interval, interval_ms, start_polling,
  stop_polling, update_polling_interval, poll_answer, Event, start, stop, interval, answered,
  set_item, tunnel_event, entrypoint_event, handle, run,
}

-- The live intervals are none, or the one that the timer names.
abbrev pub IsTimed : Option ℕ → List (ℕ × ℕ) → Type 0
IsTimed none is = is ≡ []
IsTimed (some h) is = (ms : ℕ) × (is ≡ (h, ms) ∷ [])

clear-one : (h ms : ℕ) → clear_interval h ((h, ms) ∷ []) ≡ []
unfolding clear_interval
clear-one h ms = let same : (h == h) ≡ true = ground arith in rw same refl

module _ {V : Type 0} where
  abbrev pub HasOneTimer : Polling V → Type 0
  HasOneTimer p = IsTimed p.poll_timer p.intervals

  start_from-HasOneTimer :
      (timer : Option ℕ) (seconds : ℕ) (p : Polling V)
      → IsTimed timer p.intervals
      → HasOneTimer p
      → HasOneTimer (start_from timer seconds p)
  unfolding start_from
  start_from-HasOneTimer (some t) seconds p h now = now
  start_from-HasOneTimer none seconds p h now =
      (interval_ms seconds, ap (λ is. (p.next_handle, interval_ms seconds) ∷ is) h)

  stop_from-HasOneTimer :
      (timer : Option ℕ) (p : Polling V)
      → IsTimed timer p.intervals
      → HasOneTimer p
      → HasOneTimer (stop_from timer p)
  unfolding stop_from
  stop_from-HasOneTimer none p h now = now
  stop_from-HasOneTimer (some t) p h now = ap (clear_interval t) h.1 ∙ clear-one t h.0

  update_from-HasOneTimer :
      (timer : Option ℕ) (seconds : ℕ) (p : Polling V)
      → IsTimed timer p.intervals
      → HasOneTimer p
      → HasOneTimer (update_from timer seconds p)
  unfolding update_from
  update_from-HasOneTimer none seconds p h now = now
  update_from-HasOneTimer (some t) seconds p h now = (
    interval_ms seconds,
    ap (λ is. (p.next_handle, interval_ms seconds) ∷ is)
        (ap (clear_interval t) h.1 ∙ clear-one t h.0),
  )

  handle-HasOneTimer : (e : Event V) (p : Polling V) → HasOneTimer p → HasOneTimer (handle e p)
  unfolding handle start_polling stop_polling update_polling_interval poll_answer
  handle-HasOneTimer (start seconds) p h = start_from-HasOneTimer p.poll_timer seconds p h h
  handle-HasOneTimer stop p h = stop_from-HasOneTimer p.poll_timer p h h
  handle-HasOneTimer (interval seconds) p h = update_from-HasOneTimer p.poll_timer seconds p h h
  handle-HasOneTimer (answered none) p h = h
  handle-HasOneTimer (answered (some snapshot)) p h = h
  handle-HasOneTimer (set_item id v) p h = h
  handle-HasOneTimer (tunnel_event e) p h = h
  handle-HasOneTimer (entrypoint_event e) p h = h

  -- After any calls and answers, in any order, there is one live interval and the timer names it, or
  -- there is none and no timer: starting twice makes no second interval, and none is left behind.
  pub run-HasOneTimer :
      (es : List (Event V)) (p : Polling V) → HasOneTimer p → HasOneTimer (run es p)
  unfolding run
  run-HasOneTimer [] p h = h
  run-HasOneTimer (e ∷ es) p h = run-HasOneTimer es (handle e p) (handle-HasOneTimer e p h)
