-- ===== src/Session/Jobs/Contract.antt =====
-- What a host may rely on, job by job: the table's order and its representation are forgotten, and so
-- are the tasks that run and the controllers.
use rust_plugin_sdk.Prelude.{
  String, ◌≡◌, Option, none, some, List, [], ◌∷◌, ◌++◌, string_eq, ◌==◌, if◌then◌else◌, ℕ, All,
}
use rust_plugin_sdk.Prelude.Map.{lookup}
use rust_plugin_sdk.Protocol.{TraceContext, Payload, ProtocolError, JobUpdate}
use rust_plugin_sdk.Sender.Effect.{Message, message}
use rust_plugin_sdk.Session.Jobs.Defs.{PendingCancellation, ActiveJob, FinishedAction, JobManager}
use rust_plugin_sdk.Session.Jobs.Says.{said, ack_messages}
use rust_plugin_sdk.Session.Jobs.Updates.{IsUpdateOf}

-- A job ID: not in use, or in use under a trace, with the cancellations that wait for its end.
pub data Phase : Type 0 where
  absent : Phase
  present : TraceContext → List PendingCancellation → Phase

-- The jobs, the outputs of the actions that have ended and are still to be told, and what was said.
pub record Outside : Type 0 where
  pub phase : String → Phase
  pub ended : List FinishedAction
  pub heard : List Message

abbrev pub phase_of : Option ActiveJob → Phase
phase_of none = absent
phase_of (some job) = present job.trace job.cancellations

abbrev pub outside : JobManager → Outside
outside j = record { phase = λ id. phase_of (lookup id j.active); ended = j.ended; heard = said j }

-- The phases of `v`, with that of one job set.
abbrev pub Sets : String → Phase → Outside → Outside → Type 0
Sets id phase v w =
    (other : String) → w.phase other ≡ (if id == other then phase else v.phase other)

abbrev pub Keeps : Outside → Outside → Type 0
Keeps v w = ((id : String) → w.phase id ≡ v.phase id) × (w.ended ≡ v.ended)

-- What closes a job whose action has ended: the terminal update of just this output, if no cancellation is
-- held, and otherwise an acknowledgement of each.
abbrev pub Closing :
    FinishedAction → TraceContext → List PendingCancellation → List Message → List Message → Type 0
Closing f trace [] before after =
    (update : JobUpdate) × IsUpdateOf f.job_id f.output update
    × (after ≡ before ++ message none trace (Payload.job_update update) ∷ [])
Closing f trace (c ∷ cs) before after = after ≡ before ++ ack_messages (c ∷ cs)

-- Messages that are about no job: no acceptance, no update, no acknowledgement of a cancellation, no error.
abbrev pub IsApart : Option Payload → Type 0
IsApart (some (Payload.job_accepted _)) = ⊥
IsApart (some (Payload.job_update _)) = ⊥
IsApart (some (Payload.cancel_job_acknowledged _)) = ⊥
IsApart (some (Payload.protocol_error _)) = ⊥
IsApart _ = Unit

abbrev pub AreApart : List Message → Type 0
AreApart ms = All (λ m. IsApart m.payload) ms

-- One move that the host sees: a request is accepted under a free ID, or refused; a cancellation of a job
-- in use is held until its end, one of any other job is acknowledged; an action ends; a job in use is
-- closed as the oldest of the outputs that wait demands; or something is said that is about no job.
pub data Moves (v w : Outside) : Type 0 where
  accepts :
      (id : String) (call : ℕ) (trace : TraceContext)
      → v.phase id ≡ absent
      → Sets id (present trace []) v w
      → w.ended ≡ v.ended
      → w.heard
        ≡ v.heard
          ++ message (some call) trace (Payload.job_accepted (some (record { value = id }))) ∷ []
      → Moves v w
  refuses :
      (call : ℕ) (trace : TraceContext) (error : ProtocolError)
      → Keeps v w
      → w.heard ≡ v.heard ++ message (some call) trace (Payload.protocol_error error) ∷ []
      → Moves v w
  holds :
      (c : PendingCancellation) (trace : TraceContext) (held : List PendingCancellation)
      → v.phase c.job_id.value ≡ present trace held
      → Sets c.job_id.value (present trace (held ++ c ∷ [])) v w
      → w.ended ≡ v.ended
      → w.heard ≡ v.heard
      → Moves v w
  acknowledges :
      (c : PendingCancellation)
      → v.phase c.job_id.value ≡ absent
      → Keeps v w
      → w.heard ≡ v.heard ++ ack_messages (c ∷ [])
      → Moves v w
  closes :
      (f : FinishedAction) (trace : TraceContext) (held : List PendingCancellation)
      → v.phase f.job_id ≡ present trace held
      → Sets f.job_id absent v w
      → v.ended ≡ f ∷ w.ended
      → Closing f trace held v.heard w.heard
      → Moves v w
  finishes :
      (f : FinishedAction)
      → ((id : String) → w.phase id ≡ v.phase id)
      → w.ended ≡ v.ended ++ f ∷ []
      → w.heard ≡ v.heard
      → Moves v w
  speaks : (ms : List Message) → Keeps v w → w.heard ≡ v.heard ++ ms → AreApart ms → Moves v w

pub data Lives (v : Outside) : Outside → Type 0 where
  here : Lives v v
  next : {w x : Outside} → Lives v w → Moves w x → Lives v x
