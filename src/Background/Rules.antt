-- ===== src/Background/Rules.antt =====
-- The rules of declarativeNetRequest: their ids, and how the stale ones are removed.
--   Hashes are 32-bit words, as `>>> 0` gives them. A rule is its id.
pub mod Cleared
use wisper.Prelude.{
  ℕ, zero, suc, ◌+◌, ◌-◌, ◌*◌, ◌/◌, ◌%◌, ◌^◌, ◌≤◌, ◌<◌, min, ◌≡◌, refl, sym, ap, ◌∙◌, ◌≢◌, ◌↔◌, ◌⊎◌,
  inl, inr, Bool, true, false, not, ◌&&◌, ◌||◌, Option, none, some, List, [], ◌∷◌, ◌++◌, map,
  append-nil, append_assoc, arith, ltb, leb, ◌==◌, if◌then◌else◌, ==_iff, Bool-cases, Option-cases,
  length, get_elem?, get_or, set, take, drop, All, concat, length-append, take-append-drop,
  length-take, length-drop, take-append_left, drop-append_left, take-append_le, drop-append_le,
  All-append, Bytes, IsByte, u8, u16_be, get_u16_be, u16_le, get_u16_le, u32_le, get_u32_le,
  get_u16_be-u16_be, get_u16_le-u16_le, get_u32_le-u32_le, subst, if-both,
}
use wisper.Prelude.Text.{Text, codes, text_eq}

unfoldable pub hash : ℕ → Text → ℕ
hash h [] = h
hash h (c ∷ cs) = hash ((31 * h + c) % 2 ^ 32) cs

-- `_dnrRuleId`
unfoldable pub rule_id : Text → ℕ
unfolding hash
rule_id tunnel_id = 10000 + hash 0 tunnel_id % 10000

-- `_dnrFallbackRuleId`
unfoldable pub fallback_rule_id : Text → ℕ
unfolding hash
fallback_rule_id tunnel_id = 20000 + hash 0 tunnel_id % 10000

-- The last place of a character, counted from 1, as `lastIndexOf` plus 1 gives it.
unfoldable pub last_index : ℕ → ℕ → ℕ → Text → ℕ
last_index c i found [] = found
last_index c i found (x ∷ xs) = last_index c (i + 1) (if x == c then i + 1 else found) xs

-- `://${host}/` where the port is missing or the scheme's own
unfoldable pub url_filter : Text → Text → Bool → Text
unfolding text_eq
url_filter host port enable_tls =
    let default_port = if enable_tls then codes "443" else codes "80" in
    if text_eq port [] || text_eq port default_port
    then codes "://" ++ (host ++ codes "/")
    else codes "://" ++ (host ++ (b':' ∷ port))

-- `_fallbackUrlFilter`
unfoldable pub fallback_url_filter : Text → Bool → Text
unfolding last_index url_filter
fallback_url_filter local_endpoint enable_tls =
    let bracket = last_index b']' 0 0 local_endpoint in
    let colon = last_index b':' 0 0 local_endpoint in
    if ltb bracket colon
    then url_filter (take (colon - 1) local_endpoint) (drop colon local_endpoint) enable_tls
    else url_filter local_endpoint [] enable_tls

-- `_dnrMarker`
unfoldable pub marker : Text → Text
marker [] = []
marker (c ∷ cs) = if c == b'-' then marker cs else c ∷ marker cs

unfoldable pub contains : ℕ → List ℕ → Bool
contains i [] = false
contains i (j ∷ js) = (j == i) || contains i js

-- `updateDynamicRules({ removeRuleIds, addRules: [] })`
unfoldable pub remove_rules : List ℕ → List ℕ → List ℕ
unfolding contains
remove_rules ids [] = []
remove_rules ids (r ∷ rs) =
    let rest = remove_rules ids rs in if contains r ids then rest else r ∷ rest

-- `removeHostnameDNR`
unfoldable pub remove_hostname : Text → List ℕ → List ℕ
unfolding remove_rules rule_id fallback_rule_id
remove_hostname tunnel_id = remove_rules (rule_id tunnel_id ∷ fallback_rule_id tunnel_id ∷ [])

-- `setHostnameDNR`; `hostname` is whether there is one.
unfoldable pub set_hostname : Bool → Text → List ℕ → List ℕ
unfolding remove_hostname
set_hostname hostname tunnel_id rules = if hostname then remove_hostname tunnel_id rules else rules

-- What `syncHostnameDNR` reads of a stored tunnel.
pub record Stored : Type 0 where
  pub tunnel_id : Text
  pub hostname : Bool
  pub active : Bool

unfoldable pub active_hostname : List Stored → List Text
active_hostname [] = []
active_hostname (t ∷ ts) =
    let rest = active_hostname ts in if t.hostname && t.active then t.tunnel_id ∷ rest else rest

unfoldable pub is_stale : List ℕ → List ℕ → ℕ → Bool
unfolding contains
is_stale marker_ids fallback_ids r =
    if leb 10000 r && ltb r 20000
    then not (contains r marker_ids)
    else if leb 20000 r && ltb r 30000
    then not (contains r fallback_ids)
    else false

unfoldable pub stale_rules : List ℕ → List ℕ → List ℕ → List ℕ
unfolding is_stale
stale_rules marker_ids fallback_ids [] = []
stale_rules marker_ids fallback_ids (r ∷ rs) =
    let rest = stale_rules marker_ids fallback_ids rs in
    if is_stale marker_ids fallback_ids r then r ∷ rest else rest

unfoldable pub set_all : List Text → List ℕ → List ℕ
unfolding set_hostname
set_all [] rules = rules
set_all (t ∷ ts) rules = set_all ts (set_hostname true t rules)

-- `syncHostnameDNR`, to the dynamic rules that it leaves
unfoldable pub sync_hostname : List Stored → List ℕ → List ℕ
unfolding active_hostname stale_rules remove_rules set_all rule_id fallback_rule_id
sync_hostname tunnels rules =
    let active = active_hostname tunnels in
    set_all active
      (remove_rules (stale_rules (map rule_id active) (map fallback_rule_id active) rules) rules)
