-- ===== src/Relay/Result.antt =====
-- The errors that relay.js throws, and fallible code as values.
use mathlib.Core.Path.{◌≡◌, refl}
use wisper.Prelude.{ℕ, Bool, true, false}

-- `range_error` is the RangeError of a write behind the end of a buffer; the rest are `RelayError`s.
pub data RelayError : Type 0 where
  username_too_long password_too_long addr_too_long tunnel_id_length short_buffer : RelayError
  features_too_long range_error : RelayError
  bad_address_type : ℕ → RelayError
  bad_version : ℕ → RelayError

pub data Result {ℓ} (A : Type ℓ) : Type ℓ where
  ok : A → Result A
  err : RelayError → Result A

infixl 5 ◌>>=◌ ◌>>◌
-- A thrown error skips what follows.
abbrev pub ◌>>=◌ {κ ℓ} : {B : Type κ} {A : Type ℓ} → Result A → (A → Result B) → Result B
err thrown >>= next = err thrown
ok value >>= next = next value

abbrev pub ◌>>◌ {κ} : {B : Type κ} → Result (Unit {0}) → Result B → Result B
check >> next = check >>= λ _. next

-- `if (bad) throw e;`
abbrev pub throw_if : Bool → RelayError → Result (Unit {0})
throw_if true e = err e
throw_if false e = ok tt

-- A bind that succeeds, taken apart.
pub bind-eq-ok {κ ℓ} :
    {B : Type κ} {A : Type ℓ} (first : Result A) (next : A → Result B) {value : B}
    → (first >>= next) ≡ ok value
    → (made : A) × (first ≡ ok made) × (next made ≡ ok value)
bind-eq-ok (err thrown) next h = cc
bind-eq-ok (ok made) next h = (made, refl, h)
