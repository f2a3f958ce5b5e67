-- ===== src/Session/Jobs/Frames.antt =====
-- What the steps of the job manager leave alone.
use Prim.Native.String.{◌++◌ as concat}
use rust_plugin_sdk.Prelude.{
  ℕ, String, ◌≡◌, refl, ◌∙◌, ◌⊎◌, inl, inr, Option, none, some, List, [], ◌∷◌, Bool-cases,
  string_eq,
}
use rust_plugin_sdk.Protocol.{TraceContext, Payload, PluginJobId, Timestamp}
use rust_plugin_sdk.Error.{SdkError, Result, ok, err, panic}
use rust_plugin_sdk.Validation
use rust_plugin_sdk.Validation.{UuidCrate}
use rust_plugin_sdk.Value.Domain.{valid_timestamp}
use rust_plugin_sdk.Exec.{Exec, ◌>>=◌, pure, lift, proceed}
use rust_plugin_sdk.Session.Jobs.Defs.{
  PendingCancellation, FinishedAction, JobManager, send_out, send_all,
  send_cancellation_acknowledgement,
}
use rust_plugin_sdk.Session.Jobs.Ops.{reject, settle_output}

-- A check gives a value or an error.
abbrev pub Checks {ℓ} : {A : Type ℓ} → Result A → Type ℓ
Checks {A} r = ((a : A) × (r ≡ ok a)) ⊎ ((e : SdkError) × (r ≡ err e))

pub job_id-Checks : (u : UuidCrate) (o : Option PluginJobId) → Checks (Validation.job_id u o)
unfolding Validation.job_id
job_id-Checks u none = inr (_, refl)
job_id-Checks u (some id) = elim (Bool-cases (Validation.canonical_uuid_v4 u id.value)) [
  | inl yes' ↦ inl (id.value, rw yes')
  | inr no' ↦ inr (SdkError.protocol "job ID must be a canonical UUID v4", rw no')
]

pub optional_timestamp-Checks :
    (o : Option Timestamp) (field : String) → Checks (Validation.optional_timestamp o field)
unfolding Validation.optional_timestamp Validation.timestamp
optional_timestamp-Checks none field = inl (tt, refl)
optional_timestamp-Checks (some t) field = elim (Bool-cases (valid_timestamp t)) [
  | inl good ↦ inl (tt, rw good)
  | inr bad ↦ inr (SdkError.protocol (concat field " must be a valid protobuf Timestamp"), rw bad)
]

-- All but the host's sender is as it was.
pub record SameJobs (j k : JobManager) : Type 0 where
  pub active : k.active ≡ j.active
  pub tasks : k.tasks ≡ j.tasks
  pub ended : k.ended ≡ j.ended
  pub maximum : k.maximum_concurrent_jobs ≡ j.maximum_concurrent_jobs
  pub actions : k.actions ≡ j.actions

SameJobs-trans : {j k l : JobManager} → SameJobs j k → SameJobs k l → SameJobs j l
SameJobs-trans a b = record {
  active = b.active ∙ a.active;
  tasks = b.tasks ∙ a.tasks;
  ended = b.ended ∙ a.ended;
  maximum = b.maximum ∙ a.maximum;
  actions = b.actions ∙ a.actions;
}

pub SameJobs-refl : (j : JobManager) → SameJobs j j
SameJobs-refl j = record {
  active = refl;
  tasks = refl;
  ended = refl;
  maximum = refl;
  actions = refl;
}

module _ {A : Type 0} where
  pub record Frames (m : Exec JobManager A) : Type 0 where
    pub at : (j : JobManager) → SameJobs j (m j).1

  pub Frames-pure : (a : A) → Frames (pure a)
  Frames-pure a = record { at = SameJobs-refl }

  pub Frames-lift : (r : Result A) → Frames (lift r)
  Frames-lift r = record { at = SameJobs-refl }

module _ {A B : Type 0} where
  Frames-proceed :
      (r : Result A) (f : A → Exec JobManager B) (j : JobManager)
      → ((a : A) → Frames (f a))
      → SameJobs j (proceed r f j).1
  Frames-proceed (ok a) f j k = (k a).at j
  Frames-proceed (err e) f j k = SameJobs-refl j
  Frames-proceed (panic m) f j k = SameJobs-refl j

  pub Frames-bind :
      (m : Exec JobManager A) (f : A → Exec JobManager B)
      → Frames m
      → ((a : A) → Frames (f a))
      → Frames (m >>= f)
  Frames-bind m f a b = record {
    at = λ j. SameJobs-trans (a.at j) (Frames-proceed (m j).0 f (m j).1 b);
  }

pub Frames-send_out :
    (reply_to : Option ℕ) (trace : TraceContext) (payload : Payload)
    → Frames (send_out reply_to trace payload)
Frames-send_out reply_to trace payload = record {
  at = λ j. record { active = refl; tasks = refl; ended = refl; maximum = refl; actions = refl };
}

pub Frames-ack : (c : PendingCancellation) → Frames (send_cancellation_acknowledgement c)
unfolding send_cancellation_acknowledgement
Frames-ack c = Frames-bind _ _ (Frames-send_out _ _ _) (λ _. Frames-pure tt)

-- Sending acknowledgements changes the sender alone.
pub Frames-send_all : (cs : List PendingCancellation) → Frames (send_all cs)
unfolding send_all
Frames-send_all [] = Frames-pure tt
Frames-send_all (c ∷ cs) = Frames-bind _ _ (Frames-ack c) (λ _. Frames-send_all cs)

pub Frames-reject : (message_id : ℕ) (trace : TraceContext) → Frames (reject message_id trace)
unfolding reject
Frames-reject message_id trace = record {
  at = λ j. (Frames-bind _ _ (Frames-send_out _ _ _) (λ _. Frames-pure tt)).at j;
}

pub Frames-settle_output :
    (f : FinishedAction) (trace : TraceContext) (cs : List PendingCancellation)
    → Frames (settle_output f trace cs)
unfolding send_all
Frames-settle_output f trace [] =
    Frames-bind _ _ (Frames-lift _)
      (λ u. Frames-bind _ _ (Frames-send_out _ _ _) (λ _. Frames-pure tt))
Frames-settle_output f trace (c ∷ cs) = Frames-send_all (c ∷ cs)
