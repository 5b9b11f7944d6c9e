-- ===== src/Tunnel/Buffer/Cuts.antt =====
-- What is read does not depend on how the bytes are cut into chunks.
use wisper.Prelude.{
  ℕ, suc, ◌+◌, ◌≤◌, ◌≡◌, refl, sym, ap, ◌∙◌, inl, inr, true, false, ◌&&◌, Option, none, some, List,
  [], ◌∷◌, ◌++◌, append-nil, append_assoc, arith, ltb, ◌==◌, Bool-cases, Option-cases, length, take,
  drop, concat, Bytes,
}
use wisper.Tunnel.Buffer.{starts_with, next_index, index_of, fill, fill_until}

-- What a buffer and the chunks behind it hold together.
abbrev pub bytes_of : Bytes → List Bytes → Bytes
bytes_of buf cs = buf ++ concat cs

-- The buffer holds enough, and nothing is lost.
pub record Filled (n : ℕ) (whole : Bytes) (r : Option (Bytes × List Bytes)) : Type 0 where
  pub buf : Bytes
  pub left : List Bytes
  pub is_some : r ≡ some (buf, left)
  pub enough : n ≤ length buf
  pub same : bytes_of buf left ≡ whole

not-ltb : (n m : ℕ) → n ≤ m → ltb m n ≡ false
not-ltb n m h = ground arith

pub fill-Filled :
    (n : ℕ) (buf : Bytes) (cs : List Bytes)
    → n ≤ length (bytes_of buf cs)
    → Filled n (bytes_of buf cs) (fill n buf cs)
unfolding fill
fill-Filled n buf [] h =
    let long : n ≤ length buf = omega (arith, ap length (append-nil buf)) in
    record {
      buf = buf;
      left = [];
      is_some = rw (not-ltb n (length buf) long) refl;
      enough = long;
      same = refl;
    }
fill-Filled n buf (c ∷ cs) h = elim (Bool-cases (ltb (length buf) n)) [
  | inl short ↦
      let r =
        fill-Filled n (buf ++ c) cs (omega (arith, ap length (append_assoc buf c (concat cs)))) in
      record {
        buf = r.buf;
        left = r.left;
        is_some = rw short r.is_some;
        enough = r.enough;
        same = r.same ∙ append_assoc buf c (concat cs);
      }
  | inr long ↦ record {
    buf = buf;
    left = c ∷ cs;
    is_some = rw long refl;
    enough = ground arith;
    same = refl;
  }
]

starts_with-append :
    (seq b c : Bytes) → length seq ≤ length b → starts_with seq (b ++ c) ≡ starts_with seq b
unfolding starts_with
starts_with-append [] b c h = refl
starts_with-append (s ∷ seq) [] c h = absurd (omega arith)
starts_with-append (s ∷ seq) (x ∷ b) c h =
    ap (λ t. (x == s) && t) (starts_with-append seq b c (omega arith))

starts_with-length : (seq b : Bytes) → starts_with seq b ≡ true → length seq ≤ length b
unfolding starts_with
starts_with-length [] b h = omega arith
starts_with-length (s ∷ seq) [] h = absurd (cc h)
starts_with-length (s ∷ seq) (x ∷ b) h = omega (arith, starts_with-length seq b (ground arith))

next_index-some :
    (o : Option ℕ) {i : ℕ} → next_index o ≡ some i → (j : ℕ) × (o ≡ some j) × (i ≡ suc j)
unfolding next_index
next_index-some none e = absurd (cc e)
next_index-some (some j) e = (j, refl, cc e)

pub index_of-length : (seq b : Bytes) {i : ℕ} → index_of seq b ≡ some i → length seq + i ≤ length b
unfolding index_of starts_with
index_of-length [] [] {i} e =
    let first : some 0 ≡ some i = e in let zeroth : 0 ≡ i = cc first in omega arith
index_of-length (s ∷ seq) [] e = absurd (cc e)
index_of-length seq (x ∷ b) {i} e = elim (Bool-cases (starts_with seq (x ∷ b))) [
  | inl here ↦
      let first : i ≡ 0 = cc (rw here at e) in omega (arith, starts_with-length seq (x ∷ b) here)
  | inr other ↦
      let (j, found, eq) = next_index-some (index_of seq b) (rw other at e) in
      omega (arith, index_of-length seq b found)
]

-- What is found in a buffer is found in the same place with more bytes behind it.
pub index_of-append :
    (seq b c : Bytes) {i : ℕ} → index_of seq b ≡ some i → index_of seq (b ++ c) ≡ some i
unfolding index_of starts_with next_index
index_of-append [] [] [] e = e
index_of-append [] [] (y ∷ c) e = e
index_of-append (s ∷ seq) [] c e = absurd (cc e)
index_of-append seq (x ∷ b) c {i} e = elim (Bool-cases (starts_with seq (x ∷ b))) [
  | inl here ↦
      rw (starts_with-append seq (x ∷ b) c (starts_with-length seq (x ∷ b) here), here)
        (rw here at e)
  | inr other ↦
      let (j, found, eq) = next_index-some (index_of seq b) (rw other at e) in
      rw
        (
          starts_with-append seq (x ∷ b) c (omega (arith, index_of-length seq b found)),
          other,
          index_of-append seq b c found,
        )
        (cc eq)
]

-- The place was found, and nothing is lost.
pub record Found (seq : Bytes) (i : ℕ) (whole : Bytes) (r : Option (ℕ × Bytes × List Bytes))
    : Type 0 where
  pub buf : Bytes
  pub left : List Bytes
  pub is_some : r ≡ some (i, buf, left)
  pub in_buf : index_of seq buf ≡ some i
  pub same : bytes_of buf left ≡ whole

pub fill_until-Found :
    (seq : Bytes) (i : ℕ) (buf : Bytes) (cs : List Bytes)
    → index_of seq (bytes_of buf cs) ≡ some i
    → Found seq i (bytes_of buf cs) (fill_until seq buf cs)
unfolding fill_until
fill_until-Found seq i buf [] e =
    let found : index_of seq buf ≡ some i = rw append-nil at e in
    record {
      buf = buf;
      left = [];
      is_some = rw (found, fill_until) refl;
      in_buf = found;
      same = refl;
    }
fill_until-Found seq i buf (c ∷ cs) e = elim (Option-cases (index_of seq buf)) [
  | inl missing ↦
      let r =
        fill_until-Found seq i (buf ++ c) cs
          (ap (index_of seq) (append_assoc buf c (concat cs)) ∙ e) in
      record {
        buf = r.buf;
        left = r.left;
        is_some = rw (missing, fill_until) r.is_some;
        in_buf = r.in_buf;
        same = r.same ∙ append_assoc buf c (concat cs);
      }
  | inr (j, found) ↦
      let same_place : some j ≡ some i =
        sym (index_of-append seq buf (concat (c ∷ cs)) found) ∙ e in
      record {
        buf = buf;
        left = c ∷ cs;
        is_some = rw (found, fill_until) (cc same_place);
        in_buf = found ∙ same_place;
        same = refl;
      }
]

-- A buffer that reaches behind `a`, cut there.
pub cut :
    (a b buf tail : Bytes)
    → buf ++ tail ≡ a ++ b
    → length a ≤ length buf
    → (take (length a) buf ≡ a) × (drop (length a) buf ++ tail ≡ b)
cut [] b buf tail e h = (refl, e)
cut (x ∷ a) b [] tail e h = absurd (omega arith)
cut (x ∷ a) b (y ∷ buf) tail e h =
    let r = cut a b buf tail (cc e) (omega arith) in
    let same : y ≡ x = cc e in (cc (same, r.0), r.1)
