-- ===== src/Host/Store/Defs.antt =====
-- The whole transfer of an artifact: the source is validated, the transfer announced, the bytes sent in
-- chunks and the end confirmed.
use rust_plugin_sdk.Prelude.{ℕ, ◌==◌, string_eq, some, List, if◌then◌else◌}
use rust_plugin_sdk.Protocol.{Payload, ArtifactDescriptor, PluginArtifactId}
use rust_plugin_sdk.Error.{SdkError, Result, ok, err}
use rust_plugin_sdk.Async.{Async, ◌>>=◌, ◌>>◌, lift, at_once, awaits}
use rust_plugin_sdk.Validation.{UuidCrate}
use rust_plugin_sdk.Cancellation.{Cancellation, ensure_active}
use rust_plugin_sdk.Host.Client.{HostClient}
use rust_plugin_sdk.Host.Context.{ActionContext}
use rust_plugin_sdk.Host.Artifact.{ArtifactPlan, validate_descriptor, artifact_plan}
use rust_plugin_sdk.Host.Source.{Source, validate_source}
use rust_plugin_sdk.Host.Transfer.{ChunkTurn, send_chunks}
use rust_plugin_sdk.Host.Request.{RequestTurn, request}
use rust_plugin_sdk.Host.Output.{StoredArtifact}
use rust_plugin_sdk.Host.Log.{on_sender}

-- What the source gives and what the controller is read as: at the start, while the source is validated,
-- after that, at the first request, at each chunk and at the last request. `content` is what the source
-- gives once it is rewound.
pub record StoreTurns : Type 0 where
  pub begun : Cancellation
  pub source : Source
  pub checked : Cancellation
  pub starting : RequestTurn
  pub chunks : ℕ → ChunkTurn
  pub content : List ℕ
  pub completing : RequestTurn

abbrev pub start_payload : ActionContext → ArtifactDescriptor → ArtifactPlan → Payload
start_payload c descriptor plan = Payload.artifact_start (record {
  job_id = some (record { value = c.job_id });
  artifact = some descriptor;
  chunk_count = plan.chunk_count;
})

abbrev pub not_accepted : SdkError
not_accepted = SdkError.protocol "host did not accept the same artifact transfer"

abbrev pub check_accepted : PluginArtifactId → Payload → Result (Unit {0})
check_accepted artifact_id (Payload.artifact_accepted (some accepted)) =
    if accepted.value == artifact_id.value then ok tt else err not_accepted
check_accepted artifact_id _ = err not_accepted

abbrev pub not_confirmed : SdkError
not_confirmed = SdkError.protocol "host did not confirm the same artifact ID"

abbrev pub check_stored : PluginArtifactId → StoredArtifact → Payload → Result StoredArtifact
check_stored artifact_id artifact (Payload.artifact_stored (some stored)) =
    if stored.value == artifact_id.value then ok artifact else err not_confirmed
check_stored artifact_id artifact _ = err not_confirmed

abbrev pub plan_transfer : ArtifactDescriptor → Async HostClient ArtifactPlan
plan_transfer descriptor h =
    (some (artifact_plan descriptor.size_bytes h.maximum_artifact_chunk_bytes), h)

module _ (c : ActionContext) where
  -- The exchange with the host, once the source is valid.
  unfoldable pub transfer :
      ArtifactDescriptor → PluginArtifactId → StoreTurns → Async HostClient StoredArtifact
  unfolding artifact_plan request send_chunks
  transfer descriptor artifact_id turns = do
    plan ← plan_transfer descriptor
    start ← request c (start_payload c descriptor plan) turns.starting
    lift (check_accepted artifact_id start)
    at_once (
        on_sender (
          send_chunks turns.chunks c.trace artifact_id plan.chunk_bytes plan.chunk_count 0
            descriptor.size_bytes turns.content))
    stored ← request c (Payload.artifact_complete (some artifact_id)) turns.completing
    lift (check_stored artifact_id (record { job_id = c.job_id; descriptor = descriptor }) stored)

module _ (u : UuidCrate) (sha256 : List ℕ → List ℕ) (c : ActionContext) where
  unfoldable pub store_artifact : ArtifactDescriptor → StoreTurns → Async HostClient StoredArtifact
  unfolding ensure_active validate_descriptor validate_source transfer
  store_artifact descriptor turns = do
    lift (ensure_active turns.begun)
    artifact_id ← lift (validate_descriptor u descriptor)
    awaits (λ _. validate_source sha256 descriptor turns.source)
    lift (ensure_active turns.checked)
    transfer c descriptor artifact_id turns
