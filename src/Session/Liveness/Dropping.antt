-- ===== src/Session/Liveness/Dropping.antt =====
-- What the drop of the watcher comes to.
use rust_plugin_sdk.Prelude.{
  ◌≡◌, refl, ap, ◌∙◌, Bool, true, false, Option, none, some, List, [], ◌∷◌, ◌++◌,
}
use rust_plugin_sdk.Session.Liveness.Defs.{
  IoResult, fine, Turn, turn_result, or_else, watch_descriptor, ParentLiveness, all_read_flag,
  unowned, joined, join, drop_parent,
}

-- How the loop had ended, and otherwise well.
abbrev pub or_fine : Option IoResult → IoResult
or_fine none = fine
or_fine (some result) = result

or_else_assoc : (a b c : Option IoResult) → or_else a (or_else b c) ≡ or_else (or_else a b) c
or_else_assoc none b c = refl
or_else_assoc (some result) b c = refl

watch_goes_on :
    (before after : List Turn)
    → watch_descriptor (before ++ after)
      ≡ or_else (watch_descriptor before) (watch_descriptor after)
unfolding watch_descriptor
watch_goes_on [] after = refl
watch_goes_on (t ∷ before) after =
    ap (or_else (turn_result t)) (watch_goes_on before after)
    ∙ or_else_assoc (turn_result t) (watch_descriptor before) (watch_descriptor after)

ended_or_fine : (o : Option IoResult) → or_else o (some fine) ≡ some (or_fine o)
ended_or_fine none = refl
ended_or_fine (some result) = refl

-- The drop sets the flag and takes the thread. If there is a thread, the drop joins it as soon as the
-- watcher makes one more turn, whatever the system answers: the loop had ended before, or ends well in that
-- turn. A second drop has nothing to join.
pub drop_parent_joins :
    (before : List Turn) (t : Turn) (after : List Turn) (stop : Bool)
    → let left : ParentLiveness = record { stop = true; thread = false } in
      (drop_parent before (t ∷ after) (record { stop = stop; thread = true })
        ≡ joined left (or_fine (watch_descriptor before)))
      × (drop_parent before (t ∷ after) left ≡ unowned left)
unfolding drop_parent watch_descriptor
drop_parent_joins before t after stop = (
  ap (join _) (
      watch_goes_on before (all_read_flag true (t ∷ after))
      ∙ ended_or_fine (watch_descriptor before)),
  refl,
)
