-- ===== src/Background/Worker/Stops.antt =====
-- When the last tunnel stops, the offscreen document is closed.
use wisper.Prelude.{
  ◌≡◌, refl, ap, ◌∙◌, inl, inr, Bool, true, false, not, ◌&&◌, ◌||◌, List, [], ◌∷◌, ◌++◌,
  if◌then◌else◌, Bool-cases,
}
use wisper.Prelude.Text.{Text, codes, text_eq}
use wisper.Background.Json.{Props, is_string}
use wisper.Background.Storage.{stop, apply, update_all, alive, is_alive, mark_stopped, is_tunnel}
use wisper.Background.Storage.Refines.{get-mark_stopped, stopped_row, field}
use wisper.Background.Worker.{closed, stopped, rules_removed, Worker, after, before, close_idle}
use wisper.Background.Worker.Serial.{handle, handle_eq}

-- Every tunnel but those with the id is stopped.
unfoldable pub is_last : Text → List Props → Bool
unfolding is_tunnel is_alive
is_last id [] = true
is_last id (t ∷ ts) = (is_tunnel id t || not (is_alive t)) && is_last id ts

mark_stopped-stopped : (t : Props) → is_alive (mark_stopped t) ≡ false
unfolding is_alive stopped_row field is_string text_eq
mark_stopped-stopped t =
    ap (λ v. not (is_string (codes "stopped") v)) (get-mark_stopped t (codes "status"))

close_idle-update_all :
    (id : Text) (ts : List Props)
    → close_idle (alive (update_all id mark_stopped ts))
      ≡ (if is_last id ts then closed ∷ [] else [])
unfolding close_idle alive update_all is_last
close_idle-update_all id [] = refl
close_idle-update_all id (t ∷ ts) = elim (Bool-cases (is_tunnel id t)) [
  | inl mine ↦ rw (mine, mark_stopped-stopped t) (close_idle-update_all id ts)
  | inr other ↦ elim (Bool-cases (is_alive t)) [
    | inl lives ↦ rw (other, lives) refl
    | inr rests ↦ rw (other, rests) (close_idle-update_all id ts)
  ]
]

-- Stopping a tunnel removes its rules, then tells the offscreen document to stop it, and closes the
-- document exactly if all other stored tunnels are stopped.
pub effects-stop :
    (id : Text) (w : Worker)
    → (handle (stop id) w).effects
      ≡ (w.effects ++ (rules_removed id ∷ []))
        ++ (stopped id ∷ (if is_last id w.stored then closed ∷ [] else []))
unfolding before after apply
effects-stop id w =
    ap Worker.effects (handle_eq (stop id) w)
    ∙ ap (λ es. (w.effects ++ (rules_removed id ∷ [])) ++ (stopped id ∷ es))
        (close_idle-update_all id w.stored)
