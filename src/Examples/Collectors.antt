-- ===== src/Examples/Collectors.antt =====
-- Concrete histories of the collector.
use tiny_state.Prelude.{ℕ, ◌≡◌, refl, true, Option, none, some, List, [], ◌∷◌}
use tiny_state.Collector.{
  World, Action, creates, copies, drops, climbs, collects, start, run, at_rest, is_stable, step,
  dropped, relref, relref_at, queued, listed, counted_down, reported, climb, addref, addref_at,
  swept, deleted_at, collect,
}
use tiny_state.Collector.Counts.{Counted}
use tiny_state.Collector.Bounds.{InRange, run-InRange}
use tiny_state.Collector.History.{run-Counted, stable-collected}

-- two objects, the second of them with an event at its last reference; both are given back
abbrev actions : List Action
actions =
    creates 1 0
    ∷ creates 203 1
    ∷ copies 203
    ∷ drops 1
    ∷ drops 203
    ∷ drops 203
    ∷ climbs 1
    ∷ collects
    ∷ collects
    ∷ collects
    ∷ collects
    ∷ climbs 1
    ∷ collects
    ∷ climbs 1
    ∷ collects
    ∷ collects
    ∷ collects
    ∷ collects
    ∷ []

abbrev reached : Option World → World
reached none = start
reached (some w) = w

abbrev final : World
final = reached (run actions start)

deletes_both : (final.ref 1 ≡ none) × (final.ref 203 ≡ none)
unfolding run step dropped relref relref_at queued listed counted_down reported climb addref
    addref_at swept deleted_at collect is_stable at_rest start
deletes_both = (refl, refl)

ends : run actions start ≡ some final
unfolding run step dropped relref relref_at queued listed counted_down reported climb addref
    addref_at swept deleted_at collect is_stable at_rest start
ends = refl

run-Counted_example : (w : World) × (run actions start ≡ some w) × ((x : ℕ) → Counted w x)
run-Counted_example = run-Counted actions

run-InRange_example : InRange final
run-InRange_example = run-InRange actions final ends

stable-collected_example :
    ((id : ℕ) → at_rest id final ≡ true) × ((x : ℕ) → final.held x ≡ 0 → final.ref x ≡ none)
unfolding run step dropped relref relref_at queued listed counted_down reported climb addref
    addref_at swept deleted_at collect is_stable at_rest start
stable-collected_example = stable-collected actions final ends refl refl refl
