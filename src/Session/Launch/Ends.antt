-- ===== src/Session/Launch/Ends.antt =====
-- How a plugin ends.
use rust_plugin_sdk.Prelude.{
  if◌then◌else◌, String, Bool, true, false, ◌≡◌, ◌⊎◌, inl, inr, refl, ap, sym, ◌∙◌, Option, none,
  some, arith, All, Option-cases,
}
use rust_plugin_sdk.Error.{SdkError, Result, ok, err, panic, ◌>>=◌}
use rust_plugin_sdk.Async.{come_to}
use rust_plugin_sdk.Validation.Endpoint.{
  Uri, Parsed, parsed, unparsed, endpoint, check_uri, parse_result,
}
use rust_plugin_sdk.Validation.Loopback.{IsLocalEndpoint, endpoint_iff}
use rust_plugin_sdk.Plugin.{Plugin}
use rust_plugin_sdk.Host.Source.{IoCall, gives, breaks}
use rust_plugin_sdk.Session.Safety.{IsPossible}
use rust_plugin_sdk.Session.Liveness.{fine, failed, Report, reported, dropped, watch_stdin, wait}
use rust_plugin_sdk.Session.Liveness.Ends.{IsSticky}
use rust_plugin_sdk.Session.Liveness.Reports.{ClosesIn, Outcome, watch_stdin-Outcome}
use rust_plugin_sdk.Session.Run.{select, first_of}
use rust_plugin_sdk.Session.Run.Whole.{
  EndsWell, GoesOnOrEnds, run_session_never_panics, run_session-EndsWell,
}
use rust_plugin_sdk.Session.Launch.Defs.{
  World, waited, start_watcher, race, on_endpoint, run, run_plugin,
}

-- The plugin ended well: the variable holds a local endpoint, the watcher was started, and either the session
-- on that endpoint ended well, or the parent closed the pipe.
pub record RunsWell (w : World) (plugin : Plugin) (variable : IoCall String) : Type 0 where
  pub value : String
  pub given : variable ≡ gives value
  pub uri : Uri
  pub parses : w.parse_uri value ≡ parsed uri
  pub local : IsLocalEndpoint uri
  pub watched : w.thread ≡ gives tt
  pub ended : EndsWell w.uuids w.system_time plugin (w.connect uri) w.script ⊎ ClosesIn w.turns

-- Of two branches, whichever is polled first, one gave the result.
selected :
    (first : Bool) (a b : Option (Result (Unit {0}))) (r : Result (Unit {0}))
    → select first a b ≡ some r
    → (a ≡ some r) ⊎ (b ≡ some r)
unfolding select
selected true a none r h = inl h
selected true a (some x) r h = inr h
selected false none b r h = inr h
selected false (some x) b r h = inl h

first_calm :
    (a b : Option (Result (Unit {0})))
    → GoesOnOrEnds a
    → GoesOnOrEnds b
    → GoesOnOrEnds (first_of a b)
first_calm none b v w = w
first_calm (some r) b v w = v

calm_select :
    (first : Bool) (a b : Option (Result (Unit {0})))
    → GoesOnOrEnds a
    → GoesOnOrEnds b
    → GoesOnOrEnds (select first a b)
unfolding select
calm_select true a b v w = first_calm b a w v
calm_select false a b v w = first_calm a b v w

waited-calm : (o : Option Report) → GoesOnOrEnds (waited o)
unfolding wait
waited-calm none = inl refl
waited-calm (some dropped) = inr (inr (_, refl))
waited-calm (some (reported fine)) = inr (inl refl)
waited-calm (some (reported (failed e))) = inr (inr (_, refl))

told_closed : (w : World) (r : Report) → Outcome w.turns false r → wait r ≡ ok tt → ClosesIn w.turns
told_closed w r (inl (stopped, _)) h = ground (arith, stopped)
told_closed w r (inr (inl (_, closes, _))) h = closes
told_closed w r (inr (inr (_, (e, _, failing)))) h = ground (arith, h, failing)

parent_closed :
    (w : World)
    → IsSticky w.turns false
    → waited (watch_stdin w.turns false) ≡ some (ok tt)
    → ClosesIn w.turns
parent_closed w sticky h = elim (Option-cases (watch_stdin w.turns false)) [
  | inl waits ↦ ground (arith, h, waits)
  | inr (r, ends) ↦
      told_closed w r (watch_stdin-Outcome w.turns false r sticky ends)
        (come_to (sym (ap waited ends) ∙ h))
]

judged_calm :
    (b : Bool) (e : SdkError) (uri : Uri) (m : String) → ¬ ((if b then err e else ok uri) ≡ panic m)
judged_calm true e uri m h = ground (arith, h)
judged_calm false e uri m h = ground (arith, h)

checks_calm : (uri : Uri) (m : String) → ¬ (check_uri uri ≡ panic m)
unfolding check_uri
checks_calm uri m h = judged_calm _ _ uri m h

refused_calm : (r : Parsed) (m : String) → ¬ ((parse_result r >>= check_uri) ≡ panic m)
refused_calm (unparsed e) m h = ground (arith, h)
refused_calm (parsed uri) m h = checks_calm uri m h

module _ (w : World) (plugin : Plugin) where
  race_ends :
      (uri : Uri) (thread : IoCall (Unit {0}))
      → IsSticky w.turns false
      → race w plugin uri (start_watcher thread) ≡ some (ok tt)
      → (thread ≡ gives tt)
        × (EndsWell w.uuids w.system_time plugin (w.connect uri) w.script ⊎ ClosesIn w.turns)
  race_ends uri (gives t) sticky h = (
    refl,
    elim (selected _ _ _ _ h) [
      | inl session ↦
          inl (run_session-EndsWell w.uuids w.system_time plugin w.script (w.connect uri) session)
      | inr parent ↦ inr (parent_closed w sticky parent)
    ],
  )
  race_ends uri (breaks e) sticky h = ground (arith, h)

  race_calm :
      (uri : Uri) (thread : IoCall (Unit {0}))
      → All IsPossible w.script.events
      → GoesOnOrEnds (race w plugin uri (start_watcher thread))
  race_calm uri (gives t) possible =
      calm_select w.parent_first _ _
        (run_session_never_panics w.uuids w.system_time plugin w.script (w.connect uri) possible)
        (waited-calm (watch_stdin w.turns false))
  race_calm uri (breaks e) possible = inr (inr (_, refl))

  endpoint_calm : (value : String) (m : String) → ¬ (endpoint w.parse_uri value ≡ panic m)
  unfolding endpoint
  endpoint_calm value m h = refused_calm (w.parse_uri value) m h

  started_calm :
      (r : Result Uri)
      → ((m : String) → ¬ (r ≡ panic m))
      → All IsPossible w.script.events
      → GoesOnOrEnds (on_endpoint w plugin r)
  started_calm (ok uri) calm possible = race_calm uri w.thread possible
  started_calm (err e) calm possible = inr (inr (e, refl))
  started_calm (panic m) calm possible = absurd (calm m refl)

  started_ends :
      (value : String) (r : Result Uri)
      → endpoint w.parse_uri value ≡ r
      → IsSticky w.turns false
      → on_endpoint w plugin r ≡ some (ok tt)
      → RunsWell w plugin (gives value)
  started_ends value (ok uri) accepted sticky h =
      let (parses, local) = (endpoint_iff w.parse_uri value uri).0 accepted in
      let (watched, ended) = race_ends uri w.thread sticky h in
      record {
        value = value;
        given = refl;
        uri = uri;
        parses = parses;
        local = local;
        watched = watched;
        ended = ended;
      }
  started_ends value (err e) accepted sticky h = ground (arith, h)
  started_ends value (panic m) accepted sticky h = ground (arith, h)

  -- Whatever the environment holds, the host says and the parent does, as long as the artifacts that
  -- actions return have IDs, a plugin never panics: it goes on, returns, or ends in an error.
  pub run_plugin_never_panics :
      (variable : IoCall String)
      → All IsPossible w.script.events
      → GoesOnOrEnds (run_plugin w plugin variable)
  unfolding run_plugin run
  run_plugin_never_panics (gives value) possible =
      started_calm (endpoint w.parse_uri value) (endpoint_calm value) possible
  run_plugin_never_panics (breaks e) possible = inr (inr (_, refl))

  -- A plugin that returns well was given a local endpoint and has started the watch on its parent, and then
  -- either its session on that endpoint ended well, by a shutdown of the host, or the parent closed the
  -- pipe. No other end is without an error. The stop flag is not set before the end.
  pub run_plugin-RunsWell :
      (variable : IoCall String)
      → IsSticky w.turns false
      → run_plugin w plugin variable ≡ some (ok tt)
      → RunsWell w plugin variable
  unfolding run_plugin run
  run_plugin-RunsWell (gives value) sticky h =
      started_ends value (endpoint w.parse_uri value) refl sticky h
  run_plugin-RunsWell (breaks e) sticky h = ground (arith, h)
