-- ===== src/Prelude/Text/Equal.antt =====
-- The comparison of strings decides equality.
use mathlib.Core.Bool.{true, ◌&&◌}
use mathlib.Core.List.{[], ◌∷◌}
use mathlib.Core.Path.{◌≡◌, refl}
use mathlib.Core.Logic.{◌↔◌}
use native.Mathlib.Omega.{arith}
use wisper.Prelude.Tests.{◌==◌}
use wisper.Prelude.Text.{Text, text_eq}

pub text_eq-eq : (s t : Text) → text_eq s t ≡ true → s ≡ t
unfolding text_eq
text_eq-eq [] [] h = refl
text_eq-eq [] (y ∷ ys) h = absurd (cc h)
text_eq-eq (x ∷ xs) [] h = absurd (cc h)
text_eq-eq (x ∷ xs) (y ∷ ys) h =
    let heads : x ≡ y = ground arith in
    let tails : xs ≡ ys = text_eq-eq xs ys (ground arith) in cc (heads, tails)

pub text_eq_refl : (s : Text) → text_eq s s ≡ true
unfolding text_eq
text_eq_refl [] = refl
text_eq_refl (x ∷ xs) = let same : (x == x) ≡ true = ground arith in rw (same, text_eq_refl xs) refl

pub text_eq_sym : (s t : Text) → text_eq s t ≡ text_eq t s
unfolding text_eq
text_eq_sym [] [] = refl
text_eq_sym [] (y ∷ ys) = refl
text_eq_sym (x ∷ xs) [] = refl
text_eq_sym (x ∷ xs) (y ∷ ys) =
    let heads : (x == y) ≡ (y == x) = ground arith in cc (heads, text_eq_sym xs ys)

pub both-eq : (s s' t t' : Text) → ((text_eq s s' && text_eq t t') ≡ true) ↔ ((s ≡ s') × (t ≡ t'))
both-eq s s' t t' = (
  λ h. (text_eq-eq s s' (ground arith), text_eq-eq t t' (ground arith)),
  λ h. rw (h.0, h.1, text_eq_refl s', text_eq_refl t') refl,
)
