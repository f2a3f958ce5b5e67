-- ===== src/Session/Liveness/Defs.antt =====
-- session/liveness.rs: the watch on the parent's pipe. The operating system's answers and the values
-- that the stop flag is read with are the turns of the loop.
use rust_plugin_sdk.Prelude.{
  true, false, String, Bool, Option, none, some, List, [], ◌∷◌, ◌++◌, if◌then◌else◌,
}
use rust_plugin_sdk.Error.{SdkError, Result, ok, err, ◌>>=◌}

pub data IoErrorKind : Type 0 where
  interrupted would_block other : IoErrorKind

pub record IoError : Type 0 where
  pub kind : IoErrorKind
  pub text : String

-- `std::io::Result<()>`.
pub data IoResult : Type 0 where
  fine : IoResult
  failed : IoError → IoResult

-- What `poll` returns: 0, more than 0, or less, with the last error.
pub data Polled : Type 0 where
  idle ready : Polled
  poll_failed : IoError → Polled

-- What a read of one byte returns, likewise.
pub data ReadByte : Type 0 where
  end_of_file one_byte : ReadByte
  read_failed : IoError → ReadByte

-- One turn of the loop; the flag is read at its top and again once the descriptor is ready.
pub record Turn : Type 0 where
  pub stopped : Bool
  pub polled : Polled
  pub stopped_later : Bool
  pub read : ReadByte

-- `none`: the loop goes on.
abbrev pub after_poll_error : IoError → IoErrorKind → Option IoResult
after_poll_error e IoErrorKind.interrupted = none
after_poll_error e IoErrorKind.would_block = some (failed e)
after_poll_error e IoErrorKind.other = some (failed e)

abbrev pub after_read_error : IoError → IoErrorKind → Option IoResult
after_read_error e IoErrorKind.interrupted = none
after_read_error e IoErrorKind.would_block = none
after_read_error e IoErrorKind.other = some (failed e)

abbrev pub after_read : ReadByte → Option IoResult
after_read end_of_file = some fine
after_read one_byte = none
after_read (read_failed e) = after_read_error e e.kind

abbrev pub after_poll : Polled → Bool → ReadByte → Option IoResult
after_poll idle stopped_later read = none
after_poll (poll_failed e) stopped_later read = after_poll_error e e.kind
after_poll ready stopped_later read = if stopped_later then some fine else after_read read

abbrev pub turn_result : Turn → Option IoResult
turn_result t = if t.stopped then some fine else after_poll t.polled t.stopped_later t.read

abbrev pub or_else : Option IoResult → Option IoResult → Option IoResult
or_else none rest = rest
or_else (some result) rest = some result

-- `none`: the turns are used up and the watch goes on.
unfoldable pub watch_descriptor : List Turn → Option IoResult
watch_descriptor [] = none
watch_descriptor (t ∷ ts) = or_else (turn_result t) (watch_descriptor ts)

-- The loop where there is no `poll`: the read blocks, and is retried when it is interrupted.
abbrev pub after_blocking_error : IoError → IoErrorKind → Option IoResult
after_blocking_error e IoErrorKind.interrupted = none
after_blocking_error e IoErrorKind.would_block = some (failed e)
after_blocking_error e IoErrorKind.other = some (failed e)

abbrev pub after_blocking_read : ReadByte → Option IoResult
after_blocking_read end_of_file = some fine
after_blocking_read one_byte = none
after_blocking_read (read_failed e) = after_blocking_error e e.kind

unfoldable pub watch_blocking : List Turn → Option IoResult
watch_blocking [] = none
watch_blocking (t ∷ ts) =
    or_else (if t.stopped then some fine else after_blocking_read t.read) (watch_blocking ts)

-- What comes through the one-shot channel: a result, or the loss of its sender.
pub data Report : Type 0 where
  reported : IoResult → Report
  dropped : Report

-- The end of `watch_stdin`, where the flag is read once more.
abbrev pub report : Bool → IoResult → Report
report stopped result = if stopped then dropped else reported result

abbrev pub report_of : Bool → Option IoResult → Option Report
report_of stopped none = none
report_of stopped (some result) = some (report stopped result)

unfoldable pub watch_stdin : List Turn → Bool → Option Report
unfolding watch_descriptor
watch_stdin turns stopped = report_of stopped (watch_descriptor turns)

unfoldable pub watch_stdin_blocking : List Turn → Bool → Option Report
unfolding watch_blocking
watch_stdin_blocking turns stopped = report_of stopped (watch_blocking turns)

abbrev pub received : Report → Result IoResult
received (reported result) = ok result
received dropped = err (SdkError.runtime "wait for parent-liveness watcher" "channel closed")

abbrev pub pipe_result : IoResult → Result (Unit {0})
pipe_result fine = ok tt
pipe_result (failed e) = err (SdkError.runtime "watch parent-liveness pipe" e.text)

-- `ParentLiveness::wait`.
unfoldable pub wait : Report → Result (Unit {0})
wait r = received r >>= pipe_result

-- `ParentLiveness`: its stop flag, and whether its thread is still its own.
pub record ParentLiveness : Type 0 where
  pub stop : Bool
  pub thread : Bool

-- A turn of the loop that reads the flag as it is.
abbrev pub reads_flag : Bool → Turn → Turn
reads_flag flag t = record t { stopped = flag; stopped_later = flag }

abbrev pub all_read_flag : Bool → List Turn → List Turn
all_read_flag flag [] = []
all_read_flag flag (t ∷ ts) = reads_flag flag t ∷ all_read_flag flag ts

-- What a drop comes to: there was no thread to join; the thread was joined, its loop having ended with a
-- result; or the join still waits for it.
pub data Dropped : Type 0 where
  unowned joining : ParentLiveness → Dropped
  joined : ParentLiveness → IoResult → Dropped

abbrev pub join : ParentLiveness → Option IoResult → Dropped
join parent none = joining parent
join parent (some result) = joined parent result

-- The drop's steps after the store: `take` of the thread, and the join of what was taken.
abbrev pub join_thread : List Turn → List Turn → ParentLiveness → Dropped
join_thread before after parent =
    if parent.thread
    then join (record parent { thread = false })
        (watch_descriptor (before ++ all_read_flag parent.stop after))
    else unowned parent

-- `ParentLiveness::drop` where there is `poll`. `before` are the turns of the watcher before the flag is
-- stored, `after` those that come then: they read the flag that was stored.
unfoldable pub drop_parent : List Turn → List Turn → ParentLiveness → Dropped
unfolding watch_descriptor
drop_parent before after parent = join_thread before after (record parent { stop = true })
