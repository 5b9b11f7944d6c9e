-- ===== src/Background/Worker.antt =====
-- The service worker: its handlers in interleaved steps.
--   `chrome.storage.local.get` and `set` are asynchronous. A handler is a job: it waits for what `get`
-- answers, then it writes. A step `answer` or `write` may come at any time after the one before it. The
-- storage holds the list of tunnels only, and no call of the browser fails.
use wisper.Prelude.{
  ℕ, zero, suc, ◌+◌, ◌-◌, ◌*◌, ◌/◌, ◌%◌, ◌^◌, ◌≤◌, ◌<◌, min, ◌≡◌, refl, sym, ap, ◌∙◌, ◌≢◌, ◌↔◌, ◌⊎◌,
  inl, inr, Bool, true, false, not, ◌&&◌, ◌||◌, Option, none, some, List, [], ◌∷◌, ◌++◌, map,
  append-nil, append_assoc, arith, ltb, leb, ◌==◌, if◌then◌else◌, ==_iff, Bool-cases, Option-cases,
  length, get_elem?, get_or, set, take, drop, All, concat, length-append, take-append-drop,
  length-take, length-drop, take-append_left, drop-append_left, take-append_le, drop-append_le,
  All-append, Bytes, IsByte, u8, u16_be, get_u16_be, u16_le, get_u16_le, u32_le, get_u32_le,
  get_u16_be-u16_be, get_u16_le-u16_le, get_u32_le-u32_le, subst, if-both,
}
use wisper.Prelude.Text.{Text, codes, show_number}
use wisper.Background.Json.{
  Value, null, boolean, number, string, array, object, item, Props, get, or_null,
}
use wisper.Background.Storage.{
  Change, start, start_other, stop, report, count, StatusMessage, start_change, apply, alive,
  connected,
}
pub mod Keeps
pub mod Serial
pub mod Stops
pub mod Throttle

-- What a job does when `get` has answered: it writes a change, or it starts the tunnels again.
pub data Task : Type 0 where
  change : Change → Task
  restart : Task

pub data Job : Type 0 where
  reading : Task → Job
  writing : Change → List Props → Job
  done : Job

-- What the worker asks of the browser and of the offscreen document. `rules_removed` is
-- removeHostnameDNR, `ensured` is ensureOffscreen, `closed` is closeOffscreen.
pub data Effect : Type 0 where
  rules_removed : Text → Effect
  ensured : Effect
  started : Props → Effect
  stopped : Text → Effect
  reported : StatusMessage → Effect
  counted : Text → Value → Effect
  closed : Effect

pub record Worker : Type 0 where
  pub stored : List Props
  pub jobs : List Job
  pub last_persist : ℕ
  pub effects : List Effect

-- `!v`
unfoldable pub is_falsy : Option Value → Bool
is_falsy none = true
is_falsy (some null) = true
is_falsy (some (boolean b)) = not b
is_falsy (some (number n)) = n == 0
is_falsy (some (string [])) = true
is_falsy (some (string (c ∷ cs))) = false
is_falsy (some (array vs)) = false
is_falsy (some (object o)) = false

-- What a handler does before it reads.
unfoldable pub before : Change → List Effect
before (start id config) = []
before (start_other id config) = []
before (stop id) = rules_removed id ∷ []
before (report msg) = reported msg ∷ []
before (count id stats) = counted id stats ∷ []

unfoldable pub close_idle : List Props → List Effect
close_idle [] = closed ∷ []
close_idle (t ∷ ts) = []

-- Whether the loops over the characters of an id throw, because it has a length and no `charCodeAt`: an
-- array that is not empty, or an object with a number for its length. For other ids that are no strings
-- they do nothing, as for the empty string.
unfoldable pub breaks_rules : Value → Bool
unfolding get
breaks_rules (array (item v vs)) = true
breaks_rules (object o) = elim (get (codes "length") o) [
  | none ↦ false
  | some v ↦ elim v [
    | null ↦ false
    | boolean b ↦ false
    | number n ↦ ltb 0 n
    | string s ↦ false
    | array vs ↦ false
    | object p ↦ false
  ]
]
breaks_rules v = false

-- What a handler does after it wrote the list.
unfoldable pub after : Change → List Props → List Effect
unfolding is_falsy breaks_rules get alive close_idle
after (start id config) saved =
    (if is_falsy (get (codes "hostname") config) then [] else rules_removed id ∷ [])
    ++ (ensured ∷ started config ∷ [])
after (start_other id config) saved =
    if is_falsy (get (codes "hostname") config)
    then ensured ∷ started config ∷ []
    else if breaks_rules id
    then []
    else rules_removed [] ∷ ensured ∷ started config ∷ []
after (stop id) saved = stopped id ∷ close_idle (alive saved)
after (report msg) saved = []
after (count id stats) saved = []

unfoldable pub begin : Change → Worker → Worker
unfolding before
begin c w = record w { jobs = w.jobs ++ (reading (change c) ∷ []); effects = w.effects ++ before c }

-- `handleTunnelStats`: at most one write in 3 seconds.
unfoldable pub handle_stats : ℕ → Text → Value → Worker → Worker
unfolding begin before
handle_stats now id stats w =
    if ltb (now - w.last_persist) 3000
    then record w { effects = w.effects ++ before (count id stats) }
    else begin (count id stats) (record w { last_persist = now })

-- `for (const t of running) handleStartTunnel(t)`; a stored tunnel has its id.
unfoldable pub start_all : List Props → Worker → Worker
unfolding begin start_change
start_all [] w = w
start_all (t ∷ ts) w = start_all ts (begin (start_change [] t) w)

-- The answer to `get`.
unfoldable pub answered : ℕ → Option Job → Worker → Worker
unfolding start_all alive
answered i none w = w
answered i (some done) w = w
answered i (some (writing c ts)) w = w
answered i (some (reading (change c))) w = record w { jobs = set w.jobs i (writing c w.stored) }
answered i (some (reading restart)) w =
    start_all (alive w.stored) (record w { jobs = set w.jobs i done })

-- `set`, and the rest of the handler.
unfoldable pub written : ℕ → Option Job → Worker → Worker
unfolding apply after
written i none w = w
written i (some done) w = w
written i (some (reading t)) w = w
written i (some (writing c ts)) w =
    let saved = apply c ts in
    record w { stored = saved; jobs = set w.jobs i done; effects = w.effects ++ after c saved }

-- What happens to the worker. `wake` is onInstalled, onStartup, or the alarm that finds no offscreen
-- document.
pub data Event : Type 0 where
  start_tunnel : Text → Props → Event
  stop_tunnel : Text → Event
  tunnel_status : StatusMessage → Event
  tunnel_stats : ℕ → Text → Value → Event
  wake : Event
  answer : ℕ → Event
  write : ℕ → Event

unfoldable pub step : Event → Worker → Worker
unfolding begin start_change handle_stats answered written
step (start_tunnel uuid config) w = begin (start_change uuid config) w
step (stop_tunnel id) w = begin (stop id) w
step (tunnel_status msg) w = begin (report msg) w
step (tunnel_stats now id stats) w = handle_stats now id stats w
step wake w = record w { jobs = w.jobs ++ (reading restart ∷ []) }
step (answer i) w = answered i (get_elem? w.jobs i) w
step (write i) w = written i (get_elem? w.jobs i) w

unfoldable pub run : List Event → Worker → Worker
unfolding step
run [] w = w
run (e ∷ es) w = run es (step e w)

-- `updateBadge`, to the text of the badge
unfoldable pub badge_text : List Props → Text
unfolding connected show_number
badge_text tunnels = if ltb 0 (connected tunnels) then show_number 10 (connected tunnels) else []
