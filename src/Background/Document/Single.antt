-- ===== src/Background/Document/Single.antt =====
-- One creation at a time.
use wisper.Prelude.{
  ℕ, zero, suc, subst, ◌≡◌, refl, sym, ap, inl, inr, Bool, true, false, Option, none, some, List,
  [], ◌∷◌, map, arith, ◌==◌, if◌then◌else◌, get_elem?, set, All, All-append, Bool-cases,
}
use wisper.Background.Document.{
  Call, asks, awaits, returned, thrown, Document, create_or_join, has_document, settled, created,
  Event, ensure, answer, end, step, run,
}

abbrev in_progress : Option ℕ → List ℕ
in_progress none = []
in_progress (some i) = i ∷ []

-- What is awaited is the promise that is in progress.
abbrev Awaits : Option ℕ → Call → Type 0
Awaits creating (awaits j) = creating ≡ some j
Awaits creating c = Unit {0}

abbrev pub IsSingle : Document → Type 0
IsSingle d = (d.requests ≡ in_progress d.creating) × All (Awaits d.creating) d.calls

All-set :
    (P : Call → Type 0) (cs : List Call) (i : ℕ) (c : Call) → All P cs → P c → All P (set cs i c)
All-set P [] i c h p = tt
All-set P (x ∷ cs) zero c h p = (p, h.1)
All-set P (x ∷ cs) (suc i) c h p = (h.0, All-set P cs i c h.1 p)

or_zero : Option ℕ → ℕ
or_zero none = 0
or_zero (some i) = i

is_some : Option ℕ → Bool
is_some none = false
is_some (some i) = true

-- Where nothing is in progress, no call awaits anything, and so it stays true whatever comes.
free : (now : Option ℕ) (c : Call) → Awaits none c → Awaits now c
free now (awaits j) h =
    let e : false ≡ true = unfold is_some in ap is_some h in absurd (ground arith)
free now asks h = tt
free now returned h = tt
free now thrown h = tt

All-free : (now : Option ℕ) (cs : List Call) → All (Awaits none) cs → All (Awaits now) cs
All-free now [] h = tt
All-free now (c ∷ cs) h = (free now c h.0, All-free now cs h.1)

ended : (ok : Bool) (creating : Option ℕ) → Awaits creating (if ok then returned else thrown)
ended true creating = tt
ended false creating = tt

settled-Awaits : (i : ℕ) (ok : Bool) (c : Call) → Awaits (some i) c → Awaits none (settled i ok c)
settled-Awaits i ok asks h = tt
settled-Awaits i ok returned h = tt
settled-Awaits i ok thrown h = tt
settled-Awaits i ok (awaits j) h =
    let e : i ≡ j = unfold or_zero in ap or_zero h in
    let same : (j == i) ≡ true = ground arith in rw same (ended ok none)

All-settled :
    (i : ℕ) (ok : Bool) (cs : List Call)
    → All (Awaits (some i)) cs
    → All (Awaits none) (map (settled i ok) cs)
All-settled i ok [] h = tt
All-settled i ok (c ∷ cs) h = (settled-Awaits i ok c h.0, All-settled i ok cs h.1)

create_or_join-IsSingle :
    (i : ℕ) (cs : List Call) (now : Option ℕ) (rs : List ℕ)
    → IsSingle (record { calls = cs; creating = now; requests = rs })
    → IsSingle (create_or_join i (record { calls = cs; creating = now; requests = rs }) now)
unfolding create_or_join
create_or_join-IsSingle i cs (some j) rs h = (h.0, All-set _ cs i (awaits j) h.1 refl)
create_or_join-IsSingle i cs none rs h =
    (ap (λ rs. i ∷ rs) h.0, All-set _ cs i (awaits i) (All-free (some i) cs h.1) refl)

has_document-IsSingle :
    (i : ℕ) (has : Bool) (d : Document) (c : Option Call)
    → IsSingle d
    → IsSingle (has_document i has d c)
unfolding has_document
has_document-IsSingle i true d (some asks) h = (h.0, All-set _ d.calls i returned h.1 tt)
has_document-IsSingle i false d (some asks) h =
    create_or_join-IsSingle i d.calls d.creating d.requests h
has_document-IsSingle i has d (some (awaits j)) h = h
has_document-IsSingle i has d (some returned) h = h
has_document-IsSingle i has d (some thrown) h = h
has_document-IsSingle i has d none h = h

created-one :
    (i j : ℕ) (ok : Bool) (cs : List Call)
    → All (Awaits (some j)) cs
    → IsSingle (created i ok (record { calls = cs; creating = some j; requests = j ∷ [] }))
unfolding created
created-one i j ok cs h = elim (Bool-cases (j == i)) [
  | inl same ↦
      let e : j ≡ i = ground arith in
      rw same (refl, All-settled i ok cs (subst (λ k. All (Awaits (some k)) cs) e h))
  | inr other ↦ rw other (refl, h)
]

created-IsSingle :
    (i : ℕ) (ok : Bool) (cs : List Call) (now : Option ℕ) (rs : List ℕ)
    → IsSingle (record { calls = cs; creating = now; requests = rs })
    → IsSingle (created i ok (record { calls = cs; creating = now; requests = rs }))
created-IsSingle i ok cs none rs h =
    subst (λ rs. IsSingle (created i ok (record { calls = cs; creating = none; requests = rs })))
      (sym h.0) (unfold created in (refl, h.1))
created-IsSingle i ok cs (some j) rs h =
    subst (λ rs. IsSingle (created i ok (record { calls = cs; creating = some j; requests = rs })))
      (sym h.0) (created-one i j ok cs h.1)

step-IsSingle : (e : Event) (d : Document) → IsSingle d → IsSingle (step e d)
unfolding step
step-IsSingle ensure d h = (h.0, All-append _ d.calls (asks ∷ []) h.1 (tt, tt))
step-IsSingle (answer i has) d h = has_document-IsSingle i has d (get_elem? d.calls i) h
step-IsSingle (end i ok) d h = created-IsSingle i ok d.calls d.creating d.requests h

-- Whatever calls of ensureOffscreen are made, and in whatever order hasDocument answers them and the
-- creations end, well or not: at most one document is being created, offscreenCreating names just
-- that creation, and every call that waits for a creation waits for that one.
pub run-IsSingle : (es : List Event) (d : Document) → IsSingle d → IsSingle (run es d)
run-IsSingle [] d h = h
run-IsSingle (e ∷ es) d h = run-IsSingle es (step e d) (step-IsSingle e d h)
