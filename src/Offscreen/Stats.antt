-- ===== src/Offscreen/Stats.antt =====
-- extension/lib/tunnel-stats.js: the counters of a tunnel and the rates between samples.
use wisper.Prelude.{
  ℕ, zero, suc, ◌+◌, ◌-◌, ◌*◌, ◌/◌, ◌%◌, ◌^◌, ◌≤◌, ◌<◌, min, ◌≡◌, refl, sym, ap, ◌∙◌, ◌≢◌, ◌↔◌, ◌⊎◌,
  inl, inr, Bool, true, false, not, ◌&&◌, ◌||◌, Option, none, some, List, [], ◌∷◌, ◌++◌, map,
  append-nil, append_assoc, arith, ltb, leb, ◌==◌, if◌then◌else◌, ==_iff, Bool-cases, Option-cases,
  length, get_elem?, get_or, set, take, drop, All, concat, length-append, take-append-drop,
  length-take, length-drop, take-append_left, drop-append_left, take-append_le, drop-append_le,
  All-append, Bytes, IsByte, u8, u16_be, get_u16_be, u16_le, get_u16_le, u32_le, get_u32_le,
  get_u16_be-u16_be, get_u16_le-u16_le, get_u32_le-u32_le, subst, if-both,
}
use wisper.Prelude.Int.{ℤ, pos, sub_ℕ}
pub mod Rates

-- `_lastInputBytes`, `_lastOutputBytes`, `_lastRequestCount` and `_lastSampleTime`, which are null together.
pub record Baseline : Type 0 where
  pub input : ℕ
  pub output : ℕ
  pub requests : ℕ
  pub time : ℕ

pub record TunnelStats : Type 0 where
  pub input_bytes : ℕ
  pub output_bytes : ℕ
  pub total_conns : ℕ
  pub current_conns : ℕ
  pub request_count : ℕ
  pub last : Option Baseline

-- `new TunnelStats()`, and what `reset()` sets
abbrev pub new_stats : TunnelStats
new_stats = record {
  input_bytes = 0;
  output_bytes = 0;
  total_conns = 0;
  current_conns = 0;
  request_count = 0;
  last = none;
}

-- `markRequest()`
unfoldable pub mark_request : TunnelStats → TunnelStats
mark_request s = record s {
  request_count = s.request_count + 1;
  total_conns = s.total_conns + 1;
  current_conns = s.current_conns + 1;
}

-- `read()` of a wrapped stream, on what the stream gives; `none` is null.
unfoldable pub count_read : Option Bytes → TunnelStats → TunnelStats
count_read none s = s
count_read (some chunk) s = record s { input_bytes = s.input_bytes + length chunk }

-- `write(data)` of a wrapped stream
unfoldable pub count_write : Bytes → TunnelStats → TunnelStats
count_write payload s = record s { output_bytes = s.output_bytes + length payload }

-- `close()` of a wrapped stream: `Math.max(0, currentConns - 1)`
unfoldable pub count_close : TunnelStats → TunnelStats
count_close s = record s { current_conns = s.current_conns - 1 }

-- A quotient (current - last) / intervalSec, not divided.
pub record Rate : Type 0 where
  pub delta : ℤ
  pub interval : ℕ

pub record Snapshot : Type 0 where
  pub counters : TunnelStats
  pub input_rate : Rate
  pub output_rate : Rate
  pub conns_rate : Rate

abbrev rebased : ℕ → TunnelStats → TunnelStats
rebased now s = record s {
  last = some (record {
    input = s.input_bytes;
    output = s.output_bytes;
    requests = s.request_count;
    time = now;
  });
}

abbrev zero_rate : Rate
zero_rate = record { delta = pos 0; interval = 1 }

snapshot : Option Baseline → ℕ → TunnelStats → Snapshot
snapshot none interval s = record {
  counters = s;
  input_rate = zero_rate;
  output_rate = zero_rate;
  conns_rate = zero_rate;
}
snapshot (some b) interval s = record {
  counters = s;
  input_rate = record { delta = sub_ℕ s.input_bytes b.input; interval = interval };
  output_rate = record { delta = sub_ℕ s.output_bytes b.output; interval = interval };
  conns_rate = record { delta = sub_ℕ s.request_count b.requests; interval = interval };
}

-- `sample(intervalSec)` at the time `now`
unfoldable pub sample : ℕ → ℕ → TunnelStats → TunnelStats × Snapshot
unfolding snapshot
sample interval now s = (rebased now s, snapshot s.last interval s)

-- `reset()`
unfoldable pub reset : TunnelStats → TunnelStats
reset s = new_stats
