-- ===== src/Background/Worker/Throttle.antt =====
-- How often statistics are stored.
use wisper.Prelude.{
  ℕ, ◌+◌, ◌-◌, ◌*◌, ◌≤◌, ◌≡◌, refl, sym, ◌⊎◌, inl, inr, List, [], ◌∷◌, arith, ltb, Bool-cases,
  length, All, length-append, subst,
}
use wisper.Prelude.Text.{Text}
use wisper.Background.Json.{Value}
use wisper.Background.Worker.{Worker, begin, handle_stats}

-- A message with statistics, and the clock when it comes.
pub record StatsMessage : Type 0 where
  pub now : ℕ
  pub tunnel_id : Text
  pub stats : Value

unfoldable pub handle_all_stats : List StatsMessage → Worker → Worker
unfolding handle_stats
handle_all_stats [] w = w
handle_all_stats (m ∷ ms) w = handle_all_stats ms (handle_stats m.now m.tunnel_id m.stats w)

-- A message starts no job, or one and the clock has gone on by 3 seconds.
handle_stats-cases :
    (m : StatsMessage) (w : Worker)
    → ((length (handle_stats m.now m.tunnel_id m.stats w).jobs ≡ length w.jobs)
        × ((handle_stats m.now m.tunnel_id m.stats w).last_persist ≡ w.last_persist))
      ⊎ ((length (handle_stats m.now m.tunnel_id m.stats w).jobs ≡ length w.jobs + 1)
          × ((handle_stats m.now m.tunnel_id m.stats w).last_persist ≡ m.now)
          × (w.last_persist + 3000 ≤ m.now))
unfolding handle_stats begin
handle_stats-cases m w = elim (Bool-cases (ltb (m.now - w.last_persist) 3000)) [
  | inl soon ↦ inl (rw soon refl, rw soon refl)
  | inr late ↦ inr (rw late (length-append w.jobs _), rw late refl, ground arith)
]

-- Up to a time that no message passes, there is at most one write of statistics for every 3 seconds
-- since the one before.
pub handle_all_stats-throttled :
    (ms : List StatsMessage) (w : Worker) (limit : ℕ)
    → All (λ m. m.now ≤ limit) ms
    → w.last_persist ≤ limit
    → 3000 * length (handle_all_stats ms w).jobs + w.last_persist ≤ 3000 * length w.jobs + limit
unfolding handle_all_stats
handle_all_stats-throttled [] w limit early h = omega arith
handle_all_stats-throttled (m ∷ ms) w limit early h =
    let w' = handle_stats m.now m.tunnel_id m.stats w in
    elim (handle_stats-cases m w) [
      | inl (jobs, last) ↦
          let rest =
            handle_all_stats-throttled ms w' limit early.1 (subst (λ t. t ≤ limit) (sym last) h) in
          omega arith
      | inr (jobs, last, later) ↦
          let rest =
            handle_all_stats-throttled ms w' limit early.1
              (subst (λ t. t ≤ limit) (sym last) early.0) in
          omega arith
    ]
