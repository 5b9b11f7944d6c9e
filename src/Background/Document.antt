-- ===== src/Background/Document.antt =====
-- The creation of the offscreen document by the service worker, extension/background.js: the calls
-- of ensureOffscreen under way, and the promise `offscreenCreating`. A promise is named by the call
-- that made it.
pub mod Single
use wisper.Prelude.{
  ℕ, ◌≡◌, Bool, true, false, Option, none, some, List, [], ◌∷◌, ◌++◌, map, ◌==◌, if◌then◌else◌,
  length, get_elem?, set,
}

-- Where a call of ensureOffscreen is: at `await chrome.offscreen.hasDocument()`, at the await of the
-- promise of a call (its own, or one that was there), or at its end.
pub data Call : Type 0 where
  asks : Call
  awaits : ℕ → Call
  returned : Call
  thrown : Call

-- `requests`: the calls of createDocument that the browser has not ended
pub record Document : Type 0 where
  pub calls : List Call
  pub creating : Option ℕ
  pub requests : List ℕ

abbrev pub asleep : Document
asleep = record { calls = []; creating = none; requests = [] }

-- Behind the `await` of hasDocument, in the i-th call.
unfoldable pub create_or_join : ℕ → Document → Option ℕ → Document
create_or_join i d (some j) = record d { calls = set d.calls i (awaits j) }
create_or_join i d none = record {
  calls = set d.calls i (awaits i);
  creating = some i;
  requests = i ∷ d.requests;
}

has_document : ℕ → Bool → Document → Option Call → Document
unfolding create_or_join
has_document i has d (some asks) =
    if has then record d { calls = set d.calls i returned } else create_or_join i d d.creating
has_document i has d _ = d

-- What the end of the i-th promise does to a call that awaits it.
abbrev settled : ℕ → Bool → Call → Call
settled i ok (awaits j) = if j == i then (if ok then returned else thrown) else awaits j
settled i ok c = c

abbrev is_requested : ℕ → List ℕ → Bool
is_requested i [] = false
is_requested i (r ∷ rs) = if r == i then true else is_requested i rs

abbrev without : ℕ → List ℕ → List ℕ
without i [] = []
without i (r ∷ rs) = if r == i then without i rs else r ∷ without i rs

-- The browser ends a createDocument: the call that made it runs its `finally`, and goes on or throws,
-- and so do the calls that await the same promise.
created : ℕ → Bool → Document → Document
created i ok d =
    if is_requested i d.requests
    then record {
      calls = map (settled i ok) d.calls;
      creating = none;
      requests = without i d.requests;
    }
    else d

pub data Event : Type 0 where
  ensure : Event
  answer : ℕ → Bool → Event
  end : ℕ → Bool → Event

unfoldable pub step : Event → Document → Document
unfolding has_document created
step ensure d = record d { calls = d.calls ++ (asks ∷ []) }
step (answer i has) d = has_document i has d (get_elem? d.calls i)
step (end i ok) d = created i ok d

abbrev pub run : List Event → Document → Document
run [] d = d
run (e ∷ es) d = run es (step e d)
