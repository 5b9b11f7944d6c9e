-- ===== src/Offscreen/Stats/Rates.antt =====
-- Between two samples the rates are what was counted, and there are never more connections than
-- requests.
use wisper.Prelude.{
  ℕ, ◌+◌, ◌≤◌, ◌≡◌, refl, ap, Option, none, some, List, [], ◌∷◌, arith, length, Bytes,
}
use wisper.Prelude.Int.{pos, sub_ℕ}
use wisper.Offscreen.Stats.{TunnelStats, mark_request, count_read, count_write, count_close, sample}

-- What happens to the counters of a tunnel.
pub data Event : Type 0 where
  requested : Event
  received : Option Bytes → Event
  sent : Bytes → Event
  closed : Event

unfoldable pub apply : Event → TunnelStats → TunnelStats
unfolding mark_request count_read count_write count_close
apply requested s = mark_request s
apply (received chunk) s = count_read chunk s
apply (sent payload) s = count_write payload s
apply closed s = count_close s

unfoldable pub run : List Event → TunnelStats → TunnelStats
unfolding apply
run [] s = s
run (e ∷ es) s = run es (apply e s)

abbrev pub size_of : Option Bytes → ℕ
size_of none = 0
size_of (some chunk) = length chunk

abbrev pub received_bytes : List Event → ℕ
received_bytes [] = 0
received_bytes (received c ∷ es) = size_of c + received_bytes es
received_bytes (_ ∷ es) = received_bytes es

abbrev pub sent_bytes : List Event → ℕ
sent_bytes [] = 0
sent_bytes (sent p ∷ es) = length p + sent_bytes es
sent_bytes (_ ∷ es) = sent_bytes es

abbrev pub requests : List Event → ℕ
requests [] = 0
requests (requested ∷ es) = 1 + requests es
requests (_ ∷ es) = requests es

record Counted (es : List Event) (s s' : TunnelStats) : Type 0 where
  input : s'.input_bytes ≡ s.input_bytes + received_bytes es
  output : s'.output_bytes ≡ s.output_bytes + sent_bytes es
  count : s'.request_count ≡ s.request_count + requests es
  last : s'.last ≡ s.last
  live : s.current_conns ≤ s.total_conns → s'.current_conns ≤ s'.total_conns

run-Counted : (es : List Event) (s : TunnelStats) → Counted es s (run es s)
unfolding run
run-Counted [] s = record {
  input = omega arith;
  output = omega arith;
  count = omega arith;
  last = refl;
  live = λ h. h;
}
run-Counted (requested ∷ es) s =
    let r = run-Counted es (mark_request s) in
    record {
      input = r.input;
      output = r.output;
      count = omega (arith, r.count);
      last = r.last;
      live = λ h. r.live (omega arith);
    }
run-Counted (received none ∷ es) s =
    let r = run-Counted es s in
    record {
      input = omega (arith, r.input);
      output = r.output;
      count = r.count;
      last = r.last;
      live = r.live;
    }
run-Counted (received (some c) ∷ es) s =
    let r = run-Counted es (count_read (some c) s) in
    record {
      input = omega (arith, r.input);
      output = r.output;
      count = r.count;
      last = r.last;
      live = r.live;
    }
run-Counted (sent p ∷ es) s =
    let r = run-Counted es (count_write p s) in
    record {
      input = r.input;
      output = omega (arith, r.output);
      count = r.count;
      last = r.last;
      live = r.live;
    }
run-Counted (closed ∷ es) s =
    let r = run-Counted es (count_close s) in
    record {
      input = r.input;
      output = r.output;
      count = r.count;
      last = r.last;
      live = λ h. r.live (omega arith);
    }

difference : (a b n : ℕ) → a ≡ b + n → sub_ℕ a b ≡ pos n
difference a b n e = ground arith

-- Between a sample and the next, whatever happens to the streams in between: the three rates are the
-- bytes received, the bytes sent and the requests of that time over the interval, and if there were
-- not more connections than requests before, then there are not after.
pub sample-run :
    (es : List Event) (s : TunnelStats) (before now interval interval' : ℕ)
    → s.current_conns ≤ s.total_conns
    → ((sample interval' now (run es (sample interval before s).0)).1.input_rate
        ≡ record { delta = pos (received_bytes es); interval = interval' })
      × ((sample interval' now (run es (sample interval before s).0)).1.output_rate
          ≡ record { delta = pos (sent_bytes es); interval = interval' })
      × ((sample interval' now (run es (sample interval before s).0)).1.conns_rate
          ≡ record { delta = pos (requests es); interval = interval' })
      × ((run es s).current_conns ≤ (run es s).total_conns)
unfolding sample
sample-run es s before now interval interval' h =
    let c = run-Counted es (sample interval before s).0 in
    rw c.last (
      ap (λ d. record { delta = d; interval = interval' }) (difference _ _ _ c.input),
      ap (λ d. record { delta = d; interval = interval' }) (difference _ _ _ c.output),
      ap (λ d. record { delta = d; interval = interval' }) (difference _ _ _ c.count),
      (run-Counted es s).live h,
    )
