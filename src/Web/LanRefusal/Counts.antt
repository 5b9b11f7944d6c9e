-- ===== src/Web/LanRefusal/Counts.antt =====
-- What the groups say of the journal.
use wisper.Prelude.{
  ℕ, suc, ◌+◌, ◌≤◌, ◌≡◌, refl, sym, ap, ◌∙◌, ◌⊎◌, inl, inr, Bool, true, ◌&&◌, Option, none, some,
  List, [], ◌∷◌, arith, if◌then◌else◌, Bool-cases,
}
use wisper.Prelude.Text.{Text, text_eq}
use wisper.Prelude.Text.Equal.{both-eq}
use wisper.Web.LanRefusal.{
  Refusal, Group, new_group, is_same_claim, add_refusal, add_refusals, lan_refusal_groups,
}

-- Whether a refusal, or a group, is about the claim of a peer to a prefix.
unfoldable pub is_about : Text → Text → Refusal → Bool
unfolding text_eq
is_about peer prefix r = text_eq r.peer peer && text_eq r.prefix prefix

unfoldable pub is_group_of : Text → Text → Group → Bool
unfolding text_eq
is_group_of peer prefix g = text_eq g.peer peer && text_eq g.prefix prefix

-- The first entry of the journal on a claim, and how many there are.
unfoldable pub first_about : Text → Text → List Refusal → Option Refusal
unfolding is_about
first_about peer prefix [] = none
first_about peer prefix (r ∷ rs) =
    let rest = first_about peer prefix rs in if is_about peer prefix r then some r else rest

unfoldable pub occurrences : Text → Text → List Refusal → ℕ
unfolding is_about
occurrences peer prefix [] = 0
occurrences peer prefix (r ∷ rs) =
    let rest = occurrences peer prefix rs in if is_about peer prefix r then suc rest else rest

unfoldable pub find_group : Text → Text → List Group → Option Group
unfolding is_group_of
find_group peer prefix [] = none
find_group peer prefix (g ∷ gs) =
    let rest = find_group peer prefix gs in if is_group_of peer prefix g then some g else rest

-- What the first refusal on a claim starts, with a count.
abbrev pub counted : List (Text × List Text) → Option Refusal → ℕ → Option Group
counted claims none n = none
counted claims (some r) n = some (record (new_group claims r) { count = n })

-- A group that has counted another refusal, or a new one.
abbrev bumped : List (Text × List Text) → Refusal → Option Group → Option Group
bumped claims r none = some (new_group claims r)
bumped claims r (some g) = some (record g { count = g.count + 1 })

-- What is about one claim has its key.
about_same :
    (r : Refusal) (g : Group) (p x : Text)
    → is_group_of p x g ≡ true
    → is_about p x r ≡ true
    → is_same_claim r g ≡ true
unfolding is_group_of is_about is_same_claim
about_same r g p x here e =
    let g-p = (both-eq g.peer p g.prefix x).0 here in
    let r-p = (both-eq r.peer p r.prefix x).0 e in
    (both-eq g.peer r.peer g.prefix r.prefix).1 (g-p.0 ∙ sym r-p.0, g-p.1 ∙ sym r-p.1)

find-add_refusal :
    (claims : List (Text × List Text)) (r : Refusal) (gs : List Group) (p x : Text)
    → find_group p x (add_refusal claims r gs)
      ≡ (if is_about p x r then bumped claims r (find_group p x gs) else find_group p x gs)
unfolding find_group add_refusal is_group_of is_about new_group is_same_claim
find-add_refusal claims r [] p x = refl
find-add_refusal claims r (g ∷ gs) p x = elim (Bool-cases (is_same_claim r g)) [
  | inl same ↦
      let eqs = (both-eq g.peer r.peer g.prefix r.prefix).0 same in
      elim (Bool-cases (is_about p x r)) [
        | inl e ↦ rw (same, eqs.0, eqs.1, e) refl
        | inr e ↦ rw (same, eqs.0, eqs.1, e) refl
      ]
  | inr other ↦ elim (Bool-cases (is_group_of p x g)) [
    | inl here ↦ elim (Bool-cases (is_about p x r)) [
      | inl e ↦ absurd (cc (other, about_same r g p x here e))
      | inr e ↦ rw (other, here, e) refl
    ]
    | inr off ↦ rw (other, off) (find-add_refusal claims r gs p x)
  ]
]

-- What becomes of the group of a claim by refusals of which `n` are about the claim.
outcome : List (Text × List Text) → Option Group → Option Refusal → ℕ → Option Group
outcome claims none first n = counted claims first n
outcome claims (some g) first n = some (record g { count = g.count + n })

outcome-none :
    (claims : List (Text × List Text)) (found : Option Group) → found ≡ outcome claims found none 0
unfolding outcome
outcome-none claims none = refl
outcome-none claims (some g) =
    ap (λ n. some (record g { count = n })) (let e : g.count ≡ g.count + 0 = omega arith in e)

outcome-bumped :
    (claims : List (Text × List Text)) (r : Refusal) (found : Option Group) (first : Option Refusal)
    (n : ℕ)
    → outcome claims (bumped claims r found) first n ≡ outcome claims found (some r) (suc n)
unfolding outcome new_group
outcome-bumped claims r none first n =
    ap (λ m. some (record (new_group claims r) { count = m }))
      (let e : 1 + n ≡ suc n = omega arith in e)
outcome-bumped claims r (some g) first n =
    ap (λ m. some (record g { count = m }))
      (let e : g.count + 1 + n ≡ g.count + suc n = omega arith in e)

find-add_refusals :
    (claims : List (Text × List Text)) (rs : List Refusal) (gs : List Group) (p x : Text)
    → find_group p x (add_refusals claims rs gs)
      ≡ outcome claims (find_group p x gs) (first_about p x rs) (occurrences p x rs)
unfolding add_refusals first_about occurrences
find-add_refusals claims [] gs p x = outcome-none claims (find_group p x gs)
find-add_refusals claims (r ∷ rs) gs p x = elim (Bool-cases (is_about p x r)) [
  | inl e ↦
      find-add_refusals claims rs (add_refusal claims r gs) p x
      ∙ rw (find-add_refusal claims r gs p x, e)
          (outcome-bumped claims r (find_group p x gs) (first_about p x rs) (occurrences p x rs))
  | inr e ↦
      find-add_refusals claims rs (add_refusal claims r gs) p x
      ∙ rw (find-add_refusal claims r gs p x, e) refl
]

-- How many groups are about a claim.
unfoldable pub groups_of : Text → Text → List Group → ℕ
unfolding is_group_of
groups_of peer prefix [] = 0
groups_of peer prefix (g ∷ gs) =
    (if is_group_of peer prefix g then 1 else 0) + groups_of peer prefix gs

-- A refusal adds a group only where there was none.
groups_of-add_refusal :
    (claims : List (Text × List Text)) (r : Refusal) (gs : List Group) (p x : Text)
    → (groups_of p x (add_refusal claims r gs) ≡ groups_of p x gs)
      ⊎ ((is_about p x r ≡ true)
          × (groups_of p x gs ≡ 0)
          × (groups_of p x (add_refusal claims r gs) ≡ 1))
unfolding groups_of add_refusal is_group_of new_group is_about
groups_of-add_refusal claims r [] p x = elim (Bool-cases (is_about p x r)) [
  | inl e ↦ inr (e, refl, rw e refl)
  | inr e ↦ inl (rw e refl)
]
groups_of-add_refusal claims r (g ∷ gs) p x = elim (Bool-cases (is_same_claim r g)) [
  | inl same ↦ inl (rw same refl)
  | inr other ↦ elim (groups_of-add_refusal claims r gs p x) [
    | inl e ↦ inl (rw (other, e) refl)
    | inr (e, gone, one) ↦ elim (Bool-cases (is_group_of p x g)) [
      | inl here ↦ absurd (cc (other, about_same r g p x here e))
      | inr off ↦ inr (e, rw (off, gone) refl, rw (other, off, one) refl)
    ]
  ]
]

groups_of-add_refusals :
    (claims : List (Text × List Text)) (rs : List Refusal) (gs : List Group) (p x : Text)
    → groups_of p x gs ≤ 1
    → groups_of p x (add_refusals claims rs gs) ≤ 1
unfolding add_refusals
groups_of-add_refusals claims [] gs p x h = h
groups_of-add_refusals claims (r ∷ rs) gs p x h =
    groups_of-add_refusals claims rs (add_refusal claims r gs) p x
      (elim (groups_of-add_refusal claims r gs p x) [
        | inl same ↦ omega arith
        | inr (e, gone, one) ↦ omega arith
      ])

-- Whatever the hub has refused: a claim has one group at most. It has one exactly if the journal has an
-- entry on it; the group has what the first such entry says, and counts them all.
pub find_group-lan_refusal_groups :
    (claims : List (Text × List Text)) (rs : List Refusal) (p x : Text)
    → let groups = lan_refusal_groups (some (record { claims = claims; rejected = some rs })) in
      (find_group p x groups ≡ counted claims (first_about p x rs) (occurrences p x rs))
      × (groups_of p x groups ≤ 1)
unfolding lan_refusal_groups find_group outcome groups_of
find_group-lan_refusal_groups claims rs p x =
    (find-add_refusals claims rs [] p x, groups_of-add_refusals claims rs [] p x (omega arith))
