-- ===== src/Background/Worker/Serial.antt =====
-- Handlers that do not overlap, and handlers that do.
use wisper.Prelude.{
  ℕ, suc, ◌≡◌, refl, sym, ap, ◌∙◌, some, List, [], ◌∷◌, ◌++◌, append_assoc, arith, length,
  get_elem?, set, All, length-append,
}
use wisper.Background.Json.{Props}
use wisper.Background.Storage.{Change, apply, run as run_changes}
use wisper.Background.Storage.Refines.{IsValid, table, replay, table-run}
use wisper.Background.Worker.{
  change, Job, reading, writing, done, Worker, begin, before, after, answered, written, answer,
  write, step,
}

get-last :
    (js : List Job) (j : Job) (ks : List Job) → get_elem? (js ++ (j ∷ ks)) (length js) ≡ some j
get-last [] j ks = refl
get-last (x ∷ js) j ks = get-last js j ks

set-last :
    (js : List Job) (j k : Job) (ks : List Job)
    → set (js ++ (j ∷ ks)) (length js) k ≡ js ++ (k ∷ ks)
set-last [] j k ks = refl
set-last (x ∷ js) j k ks = ap (λ t. x ∷ t) (set-last js j k ks)

-- The place of a job in the list.
record At (i : ℕ) (w : Worker) (j : Job) : Type 0 where
  front : List Job
  back : List Job
  here : length front ≡ i
  jobs : w.jobs ≡ front ++ (j ∷ back)

found : (i : ℕ) (w : Worker) (j : Job) → At i w j → get_elem? w.jobs i ≡ some j
found i w j at =
    ap (get_elem? w.jobs) (sym at.here)
    ∙ ap (λ js. get_elem? js (length at.front)) at.jobs
    ∙ get-last at.front j at.back

replaced :
    (i : ℕ) (w : Worker) (j k : Job) (at : At i w j) → set w.jobs i k ≡ at.front ++ (k ∷ at.back)
replaced i w j k at =
    ap (λ n. set w.jobs n k) (sym at.here)
    ∙ ap (λ js. set js (length at.front) k) at.jobs
    ∙ set-last at.front j k at.back

answer-at :
    (i : ℕ) (c : Change) (w : Worker) (at : At i w (reading (change c)))
    → step (answer i) w ≡ record w { jobs = at.front ++ (writing c w.stored ∷ at.back) }
unfolding step answered
answer-at i c w at =
    ap (λ g. answered i g w) (found i w (reading (change c)) at)
    ∙ ap (λ js. record w { jobs = js }) (replaced i w (reading (change c)) (writing c w.stored) at)

write-at :
    (i : ℕ) (c : Change) (ts : List Props) (w : Worker) (at : At i w (writing c ts))
    → step (write i) w ≡ record w {
      stored = apply c ts;
      jobs = at.front ++ (done ∷ at.back);
      effects = w.effects ++ after c (apply c ts);
    }
unfolding step written
write-at i c ts w at =
    ap (λ g. written i g w) (found i w (writing c ts) at)
    ∙ ap
        (λ js. record w {
          stored = apply c ts;
          jobs = js;
          effects = w.effects ++ after c (apply c ts);
        })
        (replaced i w (writing c ts) done at)

-- A handler from its start to its end, without another's step in between.
unfoldable pub handle : Change → Worker → Worker
unfolding begin step
handle c w = step (write (length w.jobs)) (step (answer (length w.jobs)) (begin c w))

pub handle_eq :
    (c : Change) (w : Worker)
    → handle c w ≡ record w {
      stored = apply c w.stored;
      jobs = w.jobs ++ (done ∷ []);
      effects = (w.effects ++ before c) ++ after c (apply c w.stored);
    }
unfolding handle begin
handle_eq c w =
    ap (step (write (length w.jobs))) (
      answer-at (length w.jobs) c (begin c w)
        (record { front = w.jobs; back = []; here = refl; jobs = refl }))
    ∙ write-at (length w.jobs) c w.stored _
        (record { front = w.jobs; back = []; here = refl; jobs = refl })

unfoldable pub handle_all : List Change → Worker → Worker
unfolding handle
handle_all [] w = w
handle_all (c ∷ cs) w = handle_all cs (handle c w)

stored-handle_all :
    (cs : List Change) (w : Worker) → (handle_all cs w).stored ≡ run_changes cs w.stored
unfolding handle_all run_changes
stored-handle_all [] w = refl
stored-handle_all (c ∷ cs) w =
    stored-handle_all cs (handle c w) ∙ ap (λ v. run_changes cs v.stored) (handle_eq c w)

-- Where no two handlers overlap, and the configurations are objects that have their tunnelId: what is
-- stored at the end shows the table that the specification makes of the table at the start.
pub table-handle_all :
    (cs : List Change) (w : Worker)
    → All IsValid cs
    → table (handle_all cs w).stored ≡ replay cs (table w.stored)
table-handle_all cs w h = ap table (stored-handle_all cs w) ∙ table-run cs w.stored h

-- Two handlers that have both read before one of them writes.
unfoldable pub overlap : Change → Change → Worker → Worker
unfolding begin step
overlap c d w =
    let i = length w.jobs in
    step (write (suc i))
      (step (write i) (step (answer (suc i)) (step (answer i) (begin d (begin c w)))))

first : (js : List Job) (v : Worker) (j k : Job) → v.jobs ≡ js ++ (j ∷ k ∷ []) → At (length js) v j
first js v j k e = record { front = js; back = k ∷ []; here = refl; jobs = e }

second :
    (js : List Job) (v : Worker) (j k : Job)
    → v.jobs ≡ js ++ (j ∷ k ∷ [])
    → At (suc (length js)) v k
second js v j k e = record {
  front = js ++ (j ∷ []);
  back = [];
  here = omega (arith, length-append js (j ∷ []));
  jobs = e ∙ sym (append_assoc js (j ∷ []) (k ∷ []));
}

-- If two handlers overlap, the change of the one that writes first is lost: what is stored is as if only
-- the second had run.
pub stored-overlap : (c d : Change) (w : Worker) → (overlap c d w).stored ≡ apply d w.stored
unfolding overlap begin first second
stored-overlap c d w =
    let i = length w.jobs in
    let both = begin d (begin c w) in
    let one = record both { jobs = w.jobs ++ (writing c w.stored ∷ reading (change d) ∷ []) } in
    let two = record both {
      jobs = (w.jobs ++ (writing c w.stored ∷ [])) ++ (writing d w.stored ∷ []);
    } in
    let three = record both {
      stored = apply c w.stored;
      jobs = w.jobs ++ (done ∷ writing d w.stored ∷ []);
      effects = both.effects ++ after c (apply c w.stored);
    } in
    ap Worker.stored (
      ap (λ v. step (write (suc i)) (step (write i) (step (answer (suc i)) v)))
        (answer-at i c both
          (first w.jobs both (reading (change c)) (reading (change d)) (append_assoc w.jobs _ _)))
      ∙ ap (λ v. step (write (suc i)) (step (write i) v))
          (answer-at (suc i) d one
            (second w.jobs one (writing c w.stored) (reading (change d)) refl))
      ∙ ap (step (write (suc i))) (
          write-at i c w.stored two
            (first w.jobs two (writing c w.stored) (writing d w.stored) (append_assoc w.jobs _ _)))
      ∙ write-at (suc i) d w.stored three (second w.jobs three done (writing d w.stored) refl))
