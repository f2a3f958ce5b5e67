-- ===== src/Session/Run/Whole.antt =====
-- What holds of a whole session.
use rust_plugin_sdk.Prelude.{
  ◌⊎◌, inl, inr, ℕ, ◌≡◌, refl, sym, subst, ◌-◌, Option, none, some, List, arith, All, String,
}
use rust_plugin_sdk.Protocol.{Timestamp}
use rust_plugin_sdk.Error.{SdkError, Result, ok, err, panic}
use rust_plugin_sdk.Async.{come_to}
use rust_plugin_sdk.Validation.{UuidCrate}
use rust_plugin_sdk.Sender.{Wire}
use rust_plugin_sdk.Plugin.{Plugin}
use rust_plugin_sdk.Host.Source.{IoCall, gives, breaks}
use rust_plugin_sdk.Session.Serve.{Incoming, Event, Serving, serve}
use rust_plugin_sdk.Session.Ending.{EndsBy, serve-EndsBy}
use rust_plugin_sdk.Session.Safety.{IsPossible, IsServing, serve_never_panics}
use rust_plugin_sdk.Session.Steady.{Safe, returns, fails}
use rust_plugin_sdk.Session.Greeting.{start_session}
use rust_plugin_sdk.Session.Greeting.Greeted.{IsStarted, start_session-IsStarted}
use rust_plugin_sdk.Session.Closing.{Arrival, wait_for_host_close, closed, timeout, wait_until}
use rust_plugin_sdk.Session.Closing.Closed.{IsSilent, wait_for_host_close_iff}
use rust_plugin_sdk.Session.Run.Calm.{IsCalm, start_session-IsCalm}
use rust_plugin_sdk.Session.Run.Defs.{
  Script, Connection, after_loop, from_start, on_stream, on_channel, run_session,
}

-- The session ended well: both connections were made, the handshake was held, a shutdown request ended the
-- loop with its deadline and left no job, and no message came by that deadline.
pub record EndsWell (u : UuidCrate) (system_time : Timestamp → IoCall ℕ) (plugin : Plugin)
    (connection : Connection) (script : Script) : Type 0 where
  pub wire : Wire
  pub connected : connection.channel ≡ gives tt
  pub streamed : connection.stream ≡ gives wire
  pub start : Serving
  pub begins : start_session u plugin wire script.first script.second ≡ ok start
  pub started : IsStarted plugin wire script.first script.second start
  pub deadline : Timestamp
  pub served : (serve u script.events start).0 ≡ ok (some deadline)
  pub ended : EndsBy u script.events deadline start (serve u script.events start).1
  pub time : ℕ
  pub timed : system_time deadline ≡ gives time
  pub silent : IsSilent script.now time script.arrival

abbrev pub GoesOnOrEnds : Option (Result (Unit {0})) → Type 0
GoesOnOrEnds o = (o ≡ none) ⊎ (o ≡ some (ok tt)) ⊎ ((e : SdkError) × (o ≡ some (err e)))

ends_calmly :
    (o : Option (Result (Unit {0}))) → ((m : String) → ¬ (o ≡ some (panic m))) → GoesOnOrEnds o
ends_calmly none calm = inl refl
ends_calmly (some (ok t)) calm = inr (inl refl)
ends_calmly (some (err e)) calm = inr (inr (e, refl))
ends_calmly (some (panic m)) calm = absurd (calm m refl)

closed_calm : (o : Option Incoming) (m : String) → ¬ (closed o ≡ panic m)
closed_calm o m h = ground (arith, h)

closing_calm :
    (time : IoCall ℕ) (now : ℕ) (arrival : Arrival) (m : String)
    → ¬ (wait_until now arrival time ≡ panic m)
closing_calm (breaks e) now arrival m h = ground (arith, h)
closing_calm (gives d) now arrival m h = closed_calm (timeout (d - now) arrival) m h

module _ (system_time : Timestamp → IoCall ℕ) (script : Script) where
  loop_calm :
      (r : Result (Option Timestamp))
      → IsCalm r
      → (m : String) → ¬ (after_loop system_time script r ≡ some (panic m))
  unfolding wait_for_host_close
  loop_calm (ok none) calm m h = ground (arith, h)
  loop_calm (ok (some deadline)) calm m h =
      closing_calm (system_time deadline) script.now script.arrival m (ground (arith, h))
  loop_calm (err e) calm m h = ground (arith, h)
  loop_calm (panic n) calm m h = calm n refl

  loop_ends :
      (r : Result (Option Timestamp))
      → after_loop system_time script r ≡ some (ok tt)
      → (deadline : Timestamp) × (r ≡ ok (some deadline))
        × ((time : ℕ) × (system_time deadline ≡ gives time)
            × IsSilent script.now time script.arrival)
  loop_ends (ok none) h = ground (arith, h)
  loop_ends (ok (some deadline)) h = (
    deadline,
    refl,
    (wait_for_host_close_iff system_time deadline script.now script.arrival).0 (come_to h),
  )
  loop_ends (err e) h = ground (arith, h)
  loop_ends (panic m) h = ground (arith, h)

Safe-IsCalm : (r : Result (Option Timestamp) × Serving) → Safe IsServing r → IsCalm r.0
Safe-IsCalm r (returns a s e p) m h = ground (arith, e, h)
Safe-IsCalm r (fails x s e) m h = ground (arith, e, h)

served-IsCalm :
    (u : UuidCrate) (plugin : Plugin) (wire : Wire) (first second : Incoming) (events : List Event)
    (s : Serving)
    → All IsPossible events
    → IsStarted plugin wire first second s
    → IsCalm (serve u events s).0
served-IsCalm u plugin wire first second events s possible v =
    subst (λ x. IsCalm (serve u events x).0) (sym v.starts)
      (Safe-IsCalm _ (
        serve_never_panics u plugin.actions plugin.maximum_concurrent_jobs v.host v.end.session
          events possible))

module _ (u : UuidCrate) (system_time : Timestamp → IoCall ℕ) (plugin : Plugin)
    (script : Script) where
  from_calm :
      (wire : Wire) (r : Result Serving)
      → All IsPossible script.events
      → start_session u plugin wire script.first script.second ≡ r
      → (m : String) → ¬ (from_start u system_time script r ≡ some (panic m))
  from_calm wire (ok s) possible e m h =
      loop_calm system_time script (serve u script.events s).0
        (served-IsCalm u plugin wire script.first script.second script.events s possible
          (start_session-IsStarted u plugin wire script.first script.second s e))
        m h
  from_calm wire (err x) possible e m h = ground (arith, h)
  from_calm wire (panic n) possible e m h =
      start_session-IsCalm u plugin wire script.first script.second n e

  stream_calm :
      (stream : IoCall Wire)
      → All IsPossible script.events
      → (m : String) → ¬ (on_stream u system_time plugin script stream ≡ some (panic m))
  stream_calm (gives wire) possible = from_calm wire _ possible refl
  stream_calm (breaks e) possible = λ m h. ground (arith, h)

  channel_calm :
      (channel : IoCall (Unit {0})) (stream : IoCall Wire)
      → All IsPossible script.events
      → (m : String)
      → ¬ (
          on_channel u system_time plugin
            (record { channel = channel; stream = stream })
            script
            channel
          ≡ some (panic m))
  channel_calm (gives t) stream possible = stream_calm stream possible
  channel_calm (breaks e) stream possible = λ m h. ground (arith, h)

  started_ends :
      (connection : Connection) (wire : Wire) (r : Result Serving)
      → connection.channel ≡ gives tt
      → connection.stream ≡ gives wire
      → start_session u plugin wire script.first script.second ≡ r
      → from_start u system_time script r ≡ some (ok tt)
      → EndsWell u system_time plugin connection script
  started_ends connection wire (ok s) connected streamed e h =
      let (deadline, served, (time, timed, silent)) =
        loop_ends system_time script (serve u script.events s).0 h in
      record {
        wire = wire;
        connected = connected;
        streamed = streamed;
        start = s;
        begins = e;
        started = start_session-IsStarted u plugin wire script.first script.second s e;
        deadline = deadline;
        served = served;
        ended = serve-EndsBy u script.events s deadline served;
        time = time;
        timed = timed;
        silent = silent;
      }
  started_ends connection wire (err x) connected streamed e h = ground (arith, h)
  started_ends connection wire (panic m) connected streamed e h = ground (arith, h)

  ends :
      (connection : Connection) (channel : IoCall (Unit {0})) (stream : IoCall Wire)
      → connection.channel ≡ channel
      → connection.stream ≡ stream
      → on_channel u system_time plugin
          (record { channel = channel; stream = stream })
          script
          channel
        ≡ some (ok tt)
      → EndsWell u system_time plugin connection script
  ends connection (gives t) (gives wire) connected streamed h =
      started_ends connection wire _ connected streamed refl h
  ends connection (gives t) (breaks e) connected streamed h = ground (arith, h)
  ends connection (breaks e) stream connected streamed h = ground (arith, h)

  -- However the host answers, and whatever happens in between, as long as the artifacts that actions
  -- return have IDs, a session never panics: it goes on, returns, or ends in an error.
  pub run_session_never_panics :
      (connection : Connection)
      → All IsPossible script.events
      → GoesOnOrEnds (run_session u system_time plugin connection script)
  unfolding run_session
  run_session_never_panics connection possible =
      ends_calmly _ (channel_calm connection.channel connection.stream possible)

  -- A session that returns well has connected and held the whole handshake; a valid shutdown request of
  -- the host has ended its loop, with no job left, every pending cancellation acknowledged, and the
  -- acknowledgement of the shutdown as the last message, consumed by the stream; and no message came by
  -- the deadline of that request, which is a time of the system.
  pub run_session-EndsWell :
      (connection : Connection)
      → run_session u system_time plugin connection script ≡ some (ok tt)
      → EndsWell u system_time plugin connection script
  unfolding run_session
  run_session-EndsWell connection h = ends connection _ _ refl refl h
