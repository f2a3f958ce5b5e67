-- ===== src/Tests/Parents.antt =====
-- The watch on the parent's pipe at one run: a quiet poll, an interrupted one, then the end of the pipe.
use rust_plugin_sdk.Prelude.{◌≡◌, ◌↔◌, refl, arith, false, true, some, List, [], ◌∷◌}
use rust_plugin_sdk.Session.Liveness.{
  ParentLiveness, drop_parent, joined, unowned, IoError, IoErrorKind, Turn, idle, ready,
  poll_failed, one_byte, end_of_file, fine, watch_descriptor, watch_stdin, reported,
}
use rust_plugin_sdk.Session.Liveness.Ends.{EndsIn, IsSticky, watch_descriptor_iff}
use rust_plugin_sdk.Session.Liveness.Dropping.{or_fine, drop_parent_joins}
use rust_plugin_sdk.Session.Liveness.Reports.{Outcome, watch_stdin-Outcome}

abbrev signal : IoError
signal = record { kind = IoErrorKind.interrupted; text = "interrupted system call" }

abbrev quiet : Turn
quiet = record { stopped = false; polled = idle; stopped_later = false; read = one_byte }

abbrev retried : Turn
retried = record {
  stopped = false;
  polled = poll_failed signal;
  stopped_later = false;
  read = one_byte;
}

abbrev stopped : Turn
stopped = record { stopped = true; polled = idle; stopped_later = true; read = one_byte }

abbrev closing : Turn
closing = record { stopped = false; polled = ready; stopped_later = false; read = end_of_file }

abbrev run : List Turn
run = quiet ∷ retried ∷ closing ∷ []

watch_descriptor_iff_example : (watch_descriptor run ≡ some fine) ↔ EndsIn run fine
watch_descriptor_iff_example = watch_descriptor_iff run fine

drop_parent_joins_example :
    let left : ParentLiveness = record { stop = true; thread = false } in
    (drop_parent (quiet ∷ []) (retried ∷ closing ∷ []) (record { stop = false; thread = true })
      ≡ joined left (or_fine (watch_descriptor (quiet ∷ []))))
    × (drop_parent (quiet ∷ []) (retried ∷ closing ∷ []) left ≡ unowned left)
drop_parent_joins_example = drop_parent_joins (quiet ∷ []) retried (closing ∷ []) false

run_reports : watch_stdin run false ≡ some (reported fine)
unfolding watch_stdin watch_descriptor
run_reports = refl

never_set : IsSticky run false
never_set = (ground arith, (ground arith, (ground arith, tt)))

watch_stdin-Outcome_example : Outcome run false (reported fine)
watch_stdin-Outcome_example = watch_stdin-Outcome run false (reported fine) never_set run_reports
