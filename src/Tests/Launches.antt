-- ===== src/Tests/Launches.antt =====
-- A plugin that is started, serves one session, and ends.
use rust_plugin_sdk.Prelude.{arith, String, ◌≡◌, ap, ◌∙◌, refl, false, Option, none, some, [], ◌∷◌}
use rust_plugin_sdk.Error.{Result, ok}
use rust_plugin_sdk.Host.Source.{IoCall, gives}
use rust_plugin_sdk.Session.Liveness.{Turn, idle, end_of_file, watch_stdin}
use rust_plugin_sdk.Session.Liveness.Ends.{IsSticky}
use rust_plugin_sdk.Session.Run.{select}
use rust_plugin_sdk.Session.Run.Whole.{GoesOnOrEnds}
use rust_plugin_sdk.Session.Launch.{World, run_plugin, run, on_endpoint}
use rust_plugin_sdk.Session.Launch.Ends.{RunsWell, run_plugin_never_panics, run_plugin-RunsWell}
use rust_plugin_sdk.Tests.Data.{two_uuids}
use rust_plugin_sdk.Tests.Addresses.{parse_one, accepts_local}
use rust_plugin_sdk.Tests.Openings.{plugin, connection, script, system_time, script_runs}

-- A turn in which the parent's pipe gives nothing.
abbrev silence : Turn
silence = record { stopped = false; polled = idle; stopped_later = false; read = end_of_file }

abbrev world : World
world = record {
  uuids = two_uuids;
  system_time = system_time;
  parse_uri = parse_one;
  connect = λ uri. connection;
  script = script;
  thread = gives tt;
  turns = silence ∷ [];
  parent_first = false;
}

abbrev variable : IoCall String
variable = gives "http://127.0.0.1:4100"

run_plugin_never_panics_example : GoesOnOrEnds (run_plugin world plugin variable)
run_plugin_never_panics_example = run_plugin_never_panics world plugin variable (tt, tt)

session_decides :
    (session : Option (Result (Unit {0})))
    → session ≡ some (ok tt)
    → select false session none ≡ some (ok tt)
unfolding select
session_decides session e = rw e refl

plugin_ends : run_plugin world plugin variable ≡ some (ok tt)
unfolding run_plugin run watch_stdin
plugin_ends = ap (on_endpoint world plugin) accepts_local ∙ session_decides _ script_runs

never_stopped : IsSticky world.turns false
never_stopped = (λ h. ground (arith, h), tt)

run_plugin-RunsWell_example : RunsWell world plugin variable
run_plugin-RunsWell_example = run_plugin-RunsWell world plugin variable never_stopped plugin_ends
