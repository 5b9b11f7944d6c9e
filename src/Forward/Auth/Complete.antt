-- ===== src/Forward/Auth/Complete.antt =====
-- Who is let in.
use wisper.Prelude.{
  ◌≡◌, refl, ◌↔◌, true, false, Option, some, [], ◌∷◌, ◌++◌, ◌==◌, length, All, Bytes,
}
use wisper.Prelude.Text.{Text, TextCodec, codes, trim}
use wisper.Prelude.Text.Equal.{both-eq}
use wisper.Tunnel.Request.{Headers, cut_colon}
use wisper.Forward.Headers.{first_header}
use wisper.Forward.Auth.{
  Credentials, match_basic, same_credentials, check_token, check_header, is_authorized,
}

-- No colon in a text.
abbrev pub NoColon : Text → Type 0
NoColon s = All (λ c. (c == b':') ≡ false) s

cut_colon-first :
    (user pass : Text) → NoColon user → cut_colon (user ++ (b':' ∷ pass)) ≡ some (user, pass)
unfolding cut_colon
cut_colon-first [] pass h = refl
cut_colon-first (c ∷ user) pass h = rw (h.0, cut_colon-first user pass h.1) refl

module _ (codec : TextCodec) (atob : Text → Option Bytes) where
  open codec use {decode}

  -- With credentials configured: a first `Authorization` header in the form of basic authentication,
  -- whose token `atob` takes and which decodes to a user name without a colon, a colon and a
  -- password, is let in exactly if both are those of the configuration.
  pub is_authorized_iff :
      (hs : Headers) (auth : Credentials) (header token : Text) (bytes : Bytes) (user pass : Text)
      → (length auth.username == 0) ≡ false
      → first_header hs (codes "authorization") ≡ some header
      → match_basic (trim header) ≡ some token
      → atob token ≡ some bytes
      → decode bytes ≡ user ++ (b':' ∷ pass)
      → NoColon user
      → (is_authorized codec atob hs (some auth) ≡ true)
        ↔ ((user ≡ auth.username) × (pass ≡ auth.password))
  unfolding is_authorized check_header check_token same_credentials
  is_authorized_iff hs auth header token bytes user pass configured found matched taken reads nc =
      rw (configured, found, matched, check_token, taken, reads, cut_colon-first user pass nc)
        (both-eq user auth.username pass auth.password)
