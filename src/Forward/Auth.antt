-- ===== src/Forward/Auth.antt =====
-- Basic authentication in forwarder.js: `isAuthorized`. The browser's `atob` is the argument `atob`,
-- with `none` where it throws.
pub mod Complete
use wisper.Prelude.{
  ℕ, zero, suc, ◌+◌, ◌-◌, ◌*◌, ◌/◌, ◌%◌, ◌^◌, ◌≤◌, ◌<◌, min, ◌≡◌, refl, sym, ap, ◌∙◌, ◌≢◌, ◌↔◌, ◌⊎◌,
  inl, inr, Bool, true, false, not, ◌&&◌, ◌||◌, Option, none, some, List, [], ◌∷◌, ◌++◌, map,
  append-nil, append_assoc, arith, ltb, leb, ◌==◌, if◌then◌else◌, ==_iff, Bool-cases, Option-cases,
  length, get_elem?, get_or, set, take, drop, All, concat, length-append, take-append-drop,
  length-take, length-drop, take-append_left, drop-append_left, take-append_le, drop-append_le,
  All-append, Bytes, IsByte, u8, u16_be, get_u16_be, u16_le, get_u16_le, u32_le, get_u32_le,
  get_u16_be-u16_be, get_u16_le-u16_le, get_u32_le-u32_le, subst, if-both,
}
use wisper.Prelude.Text.{Text, TextCodec, codes, text_eq, trim, to_lower, drop_spaces, is_space}
use wisper.Tunnel.Request.{Headers, cut_colon}
use wisper.Forward.Headers.{first_header}

pub record Credentials : Type 0 where
  pub username : Text
  pub password : Text

unfoldable pub no_space : Text → Bool
unfolding is_space
no_space [] = true
no_space (c ∷ cs) = not (is_space c) && no_space cs

-- A token of one character at least and no space
unfoldable pub token_of : Text → Option Text
unfolding no_space
token_of [] = none
token_of (c ∷ cs) = if no_space (c ∷ cs) then some (c ∷ cs) else none

unfoldable pub after_scheme : Text → Option Text
unfolding is_space drop_spaces token_of
after_scheme [] = none
after_scheme (c ∷ cs) = if is_space c then token_of (drop_spaces cs) else none

-- `/^basic\s+(\S+)$/i`: the token
unfoldable pub match_basic : Text → Option Text
unfolding text_eq to_lower after_scheme
match_basic s =
    if text_eq (to_lower (take 5 s)) (codes "basic") then after_scheme (drop 5 s) else none

-- The comparison behind the decoding: the text is cut at its first colon.
unfoldable pub same_credentials : Credentials → Option (Text × Text) → Text → Bool
unfolding text_eq
same_credentials auth none whole = text_eq whole auth.username && text_eq [] auth.password
same_credentials auth (some (user, pass)) whole =
    text_eq user auth.username && text_eq pass auth.password

module _ (codec : TextCodec) (atob : Text → Option Bytes) where
  open codec use {decode}

  unfoldable pub check_token : Credentials → Option Text → Bool
  unfolding same_credentials cut_colon
  check_token auth none = false
  check_token auth (some token) = elim (atob token) [
    | none ↦ false
    | some bytes ↦ same_credentials auth (cut_colon (decode bytes)) (decode bytes)
  ]

  unfoldable pub check_header : Credentials → Option Text → Bool
  unfolding check_token match_basic trim
  check_header auth none = false
  check_header auth (some header) = check_token auth (match_basic (trim header))

  -- `isAuthorized(headers, auth)`; `none` is a configuration without credentials.
  unfoldable pub is_authorized : Headers → Option Credentials → Bool
  unfolding check_header first_header
  is_authorized hs none = true
  is_authorized hs (some auth) =
      if length auth.username == 0
      then true
      else check_header auth (first_header hs (codes "authorization"))
