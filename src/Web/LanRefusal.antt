-- ===== src/Web/LanRefusal.antt =====
-- web-src/src/utils/lan-refusal.ts: the hub's journal of refusals, one group for each claim.
--   A key joins the peer and the prefix by a NUL, which neither holds: it stands for the pair.
use wisper.Prelude.{
  ℕ, zero, suc, ◌+◌, ◌-◌, ◌*◌, ◌/◌, ◌%◌, ◌^◌, ◌≤◌, ◌<◌, min, ◌≡◌, refl, sym, ap, ◌∙◌, ◌≢◌, ◌↔◌, ◌⊎◌,
  inl, inr, Bool, true, false, not, ◌&&◌, ◌||◌, Option, none, some, List, [], ◌∷◌, ◌++◌, map,
  append-nil, append_assoc, arith, ltb, leb, ◌==◌, if◌then◌else◌, ==_iff, Bool-cases, Option-cases,
  length, get_elem?, get_or, set, take, drop, All, concat, length-append, take-append-drop,
  length-take, length-drop, take-append_left, drop-append_left, take-append_le, drop-append_le,
  All-append, Bytes, IsByte, u8, u16_be, get_u16_be, u16_le, get_u16_le, u32_le, get_u32_le,
  get_u16_be-u16_be, get_u16_le-u16_le, get_u32_le-u32_le, subst, if-both,
}
use wisper.Prelude.Text.{Text, codes, text_eq}
pub mod Counts

-- `LANRefusal`
pub record Refusal : Type 0 where
  pub peer : Text
  pub prefix : Text
  pub reason : Text
  pub detail : Option Text
  pub at : Text

-- `TunnelLAN`: the claims by peers, and the journal; `none` is a journal that is missing.
pub record Lan : Type 0 where
  pub claims : List (Text × List Text)
  pub rejected : Option (List Refusal)

-- `LANRefusalGroup`
pub record Group : Type 0 where
  pub peer : Text
  pub prefix : Text
  pub reason : Text
  pub detail : Option Text
  pub at : Text
  pub count : ℕ
  pub fixable_by_allow : Bool
  pub resolved : Bool

unfoldable pub contains : Text → List Text → Bool
unfolding text_eq
contains x [] = false
contains x (y ∷ ys) = text_eq y x || contains x ys

-- `ALLOW_ROW_REASONS`
abbrev pub allow_row_reasons : List Text
allow_row_reasons = codes "no-allow-row" ∷ codes "empty-allow" ∷ codes "outside-allow" ∷ []

-- `claimed.get(peer)?.has(prefix) === true`; the names of an object are all different.
unfoldable pub is_claimed : Text → Text → List (Text × List Text) → Bool
unfolding contains
is_claimed peer prefix [] = false
is_claimed peer prefix ((p, prefixes) ∷ claims) =
    let rest = is_claimed peer prefix claims in
    if text_eq p peer then contains prefix prefixes else rest

unfoldable pub new_group : List (Text × List Text) → Refusal → Group
unfolding contains is_claimed
new_group claims r = record {
  peer = r.peer;
  prefix = r.prefix;
  reason = r.reason;
  detail = r.detail;
  at = r.at;
  count = 1;
  fixable_by_allow = contains r.reason allow_row_reasons;
  resolved = is_claimed r.peer r.prefix claims;
}

-- Whether the group is the one that `byClaim` has for the refusal's key.
unfoldable pub is_same_claim : Refusal → Group → Bool
unfolding text_eq
is_same_claim r g = text_eq g.peer r.peer && text_eq g.prefix r.prefix

-- One round of the loop: the group of the claim counts the refusal, or a new group is pushed.
unfoldable pub add_refusal : List (Text × List Text) → Refusal → List Group → List Group
unfolding new_group is_same_claim
add_refusal claims r [] = new_group claims r ∷ []
add_refusal claims r (g ∷ gs) =
    let rest = g ∷ add_refusal claims r gs in
    if is_same_claim r g then record g { count = g.count + 1 } ∷ gs else rest

unfoldable pub add_refusals : List (Text × List Text) → List Refusal → List Group → List Group
unfolding add_refusal
add_refusals claims [] gs = gs
add_refusals claims (r ∷ rs) gs = add_refusals claims rs (add_refusal claims r gs)

-- `lanRefusalGroups(lan)`
unfoldable pub lan_refusal_groups : Option Lan → List Group
unfolding add_refusals
lan_refusal_groups none = []
lan_refusal_groups (some lan) = elim lan.rejected [
  | none ↦ []
  | some rs ↦ add_refusals lan.claims rs []
]
