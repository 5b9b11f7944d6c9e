-- ===== src/Background/Storage.antt =====
-- The stored tunnels, and what the handlers do to them between `get` and `set`.
use wisper.Prelude.{
  ℕ, zero, suc, ◌+◌, ◌-◌, ◌*◌, ◌/◌, ◌%◌, ◌^◌, ◌≤◌, ◌<◌, min, ◌≡◌, refl, sym, ap, ◌∙◌, ◌≢◌, ◌↔◌, ◌⊎◌,
  inl, inr, Bool, true, false, not, ◌&&◌, ◌||◌, Option, none, some, List, [], ◌∷◌, ◌++◌, map,
  append-nil, append_assoc, arith, ltb, leb, ◌==◌, if◌then◌else◌, ==_iff, Bool-cases, Option-cases,
  length, get_elem?, get_or, set, take, drop, All, concat, length-append, take-append-drop,
  length-take, length-drop, take-append_left, drop-append_left, take-append_le, drop-append_le,
  All-append, Bytes, IsByte, u8, u16_be, get_u16_be, u16_le, get_u16_le, u32_le, get_u32_le,
  get_u16_be-u16_be, get_u16_le-u16_le, get_u32_le-u32_le, subst, if-both,
}
use wisper.Prelude.Text.{Text, codes}
use wisper.Background.Json.{
  Value, null, boolean, number, string, array, object, Props, get, put, spread, or_null, is_string,
  is_same,
}
pub mod Refines
pub mod Unique

-- `t.tunnelId === tunnelId`
unfoldable pub is_tunnel : Text → Props → Bool
unfolding is_string get
is_tunnel id t = is_string id (get (codes "tunnelId") t)

-- `config.tunnelId || crypto.randomUUID()`
unfoldable pub start_id : Text → Option Value → Value
unfolding or_null
start_id uuid v = elim (or_null v) [
  | null ↦ string uuid
  | boolean b ↦ boolean b
  | number n ↦ number n
  | string s ↦ string s
  | array vs ↦ array vs
  | object o ↦ object o
]

-- `t.tunnelId === tunnelId` for any value
unfoldable pub has_id : Value → Props → Bool
unfolding is_same get
has_id id t = is_same id (get (codes "tunnelId") t)

-- The place that `findIndex` finds is overwritten; without one, the configuration is pushed.
unfoldable pub save_at : (Props → Bool) → Props → List Props → List Props
unfolding spread
save_at test config [] = config ∷ []
save_at test config (t ∷ ts) =
    let rest = t ∷ save_at test config ts in if test t then spread t config ∷ ts else rest

unfoldable pub save : Text → Props → List Props → List Props
unfolding save_at is_tunnel
save id config ts = save_at (is_tunnel id) config ts

-- `map(t => t.tunnelId === tunnelId ? … : t)`
unfoldable pub update_all : Text → (Props → Props) → List Props → List Props
unfolding is_tunnel
update_all id f [] = []
update_all id f (t ∷ ts) = (if is_tunnel id t then f t else t) ∷ update_all id f ts

-- `{ ...t, status: 'stopped', entrypoint: null, error: null }`
unfoldable pub mark_stopped : Props → Props
unfolding put
mark_stopped t =
    put (codes "error") null
      (put (codes "entrypoint") null (put (codes "status") (string (codes "stopped")) t))

-- A message of the offscreen document on a tunnel's status.
pub record StatusMessage : Type 0 where
  pub tunnel_id : Text
  pub status : Value
  pub error : Option Value
  pub entrypoint : Option Value

-- `{ ...t, status: msg.status, error: msg.error || null, entrypoint: msg.entrypoint || null }`
unfoldable pub mark_status : StatusMessage → Props → Props
unfolding put or_null
mark_status msg t =
    put (codes "entrypoint") (or_null msg.entrypoint)
      (put (codes "error") (or_null msg.error) (put (codes "status") msg.status t))

-- What the handlers change: the configuration has its tunnelId already, a string or another value.
pub data Change : Type 0 where
  start : Text → Props → Change
  start_other : Value → Props → Change
  stop : Text → Change
  report : StatusMessage → Change
  count : Text → Value → Change

abbrev pub start_with : Value → Props → Change
start_with (string id) config = start id config
start_with id config = start_other id config

-- `handleStartTunnel` up to its first `await`: the configuration gets its tunnelId.
unfoldable pub start_change : Text → Props → Change
unfolding start_id get put
start_change uuid config =
    let id = start_id uuid (get (codes "tunnelId") config) in
    start_with id (put (codes "tunnelId") id config)

-- The list that is written, from the list that was read.
unfoldable pub apply : Change → List Props → List Props
unfolding save save_at has_id update_all mark_stopped mark_status put
apply (start id config) ts = save id config ts
apply (start_other id config) ts = save_at (has_id id) config ts
apply (stop id) ts = update_all id mark_stopped ts
apply (report msg) ts = update_all msg.tunnel_id (mark_status msg) ts
apply (count id stats) ts = update_all id (put (codes "stats") stats) ts

-- The changes one after the other, each between its own reading and writing.
unfoldable pub run : List Change → List Props → List Props
unfolding apply
run [] ts = ts
run (c ∷ cs) ts = run cs (apply c ts)

-- `t.status !== 'stopped'`
unfoldable pub is_alive : Props → Bool
unfolding is_string get
is_alive t = not (is_string (codes "stopped") (get (codes "status") t))

-- `tunnels.filter(t => t.status !== 'stopped')`
unfoldable pub alive : List Props → List Props
unfolding is_alive
alive [] = []
alive (t ∷ ts) = let rest = alive ts in if is_alive t then t ∷ rest else rest

-- `tunnels.filter(t => t.status === 'running').length`
unfoldable pub connected : List Props → ℕ
unfolding is_string get
connected [] = 0
connected (t ∷ ts) =
    let rest = connected ts in
    if is_string (codes "running") (get (codes "status") t) then suc rest else rest
