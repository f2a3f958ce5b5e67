-- ===== src/Host/Store/Confirmed.antt =====
-- An artifact that `store_artifact` returns was transferred whole.
use rust_plugin_sdk.Prelude.{ℕ, ◌≡◌, ap, ◌∙◌, some, List, length}
use rust_plugin_sdk.Protocol.{ArtifactDescriptor, PluginArtifactId}
use rust_plugin_sdk.Error.{ok}
use rust_plugin_sdk.Async.{lift, awaits, returned, come_to}
use rust_plugin_sdk.Validation.{UuidCrate}
use rust_plugin_sdk.Cancellation.{active, ensure_active}
use rust_plugin_sdk.Host.Client.{HostClient}
use rust_plugin_sdk.Host.Context.{ActionContext}
use rust_plugin_sdk.Host.Context.Calls.{live_active}
use rust_plugin_sdk.Host.Artifact.{validate_descriptor}
use rust_plugin_sdk.Host.Artifact.Descriptor.{IsTransferable, validate_descriptor_iff}
use rust_plugin_sdk.Host.Source.{Source, validate_source}
use rust_plugin_sdk.Host.Source.Reading.{Reads}
use rust_plugin_sdk.Host.Source.Checked.{IsSourceOf, validate_source_iff}
use rust_plugin_sdk.Host.Transfer.Pieces.{together}
use rust_plugin_sdk.Host.Output.{StoredArtifact}
use rust_plugin_sdk.Host.Store.Defs.{StoreTurns, store_artifact}
use rust_plugin_sdk.Host.Store.Stored.{Transferred, transfer-Transferred}

-- A source that is read again from where it was rewound to gives the same bytes.
abbrev pub IsRepeatable : Source → List ℕ → Type 0
IsRepeatable source content =
    (pieces : List (List ℕ)) → Reads source.reads pieces → content ≡ together pieces

-- The bytes that went out are those of the descriptor, and the host has accepted and confirmed them.
pub record Stored (u : UuidCrate) (sha256 : List ℕ → List ℕ) (c : ActionContext)
    (descriptor : ArtifactDescriptor) (turns : StoreTurns) (h t : HostClient) : Type 0 where
  pub begun : turns.begun ≡ active
  pub checked : turns.checked ≡ active
  pub id : PluginArtifactId
  pub described : IsTransferable u descriptor id
  pub source : IsSourceOf sha256 descriptor turns.source
  pub sized : length turns.content ≡ descriptor.size_bytes
  pub digested : sha256 turns.content ≡ descriptor.sha256
  pub transferred : Transferred c descriptor id turns h t

module _ (u : UuidCrate) (sha256 : List ℕ → List ℕ) (c : ActionContext)
    (descriptor : ArtifactDescriptor) (turns : StoreTurns) where
  content_matches :
      IsRepeatable turns.source turns.content
      → IsSourceOf sha256 descriptor turns.source
      → (length turns.content ≡ descriptor.size_bytes) × (sha256 turns.content ≡ descriptor.sha256)
  content_matches again (start, pieces, end, at, reads, back, size, digest, small) =
      let same = again pieces reads in (ap length same ∙ size, ap sha256 same ∙ digest)

  -- If a source gives the same bytes when it is read again, then an artifact that `store_artifact` returns
  -- is the job's own with the descriptor that was asked for, which is a transferable one; the bytes have
  -- its size and digest; the host has accepted a start with this descriptor and the number of the chunks;
  -- then exactly these bytes went out in order, in chunks within the host's limit; and the host has
  -- confirmed the end for the same artifact ID. The controller was read as active at the start, at each
  -- call of the source while it was validated, after that, at both requests, and at every chunk.
  pub store_artifact-Stored :
      (stored : StoredArtifact) (h t : HostClient)
      → IsRepeatable turns.source turns.content
      → store_artifact u sha256 c descriptor turns h ≡ (some (ok stored), t)
      → (stored ≡ record { job_id = c.job_id; descriptor = descriptor })
        × Stored u sha256 c descriptor turns h t
  unfolding store_artifact
  store_artifact-Stored stored h t again e =
      let (_, begun, e1) = returned (lift (ensure_active turns.begun)) _ h e in
      let (id, valid, e2) = returned (lift (validate_descriptor u descriptor)) _ h e1 in
      let (_, read, e3) =
        returned (awaits (λ _. validate_source sha256 descriptor turns.source)) _ h e2 in
      let (_, checked, e4) = returned (lift (ensure_active turns.checked)) _ h e3 in
      let valid_source = (validate_source_iff sha256 descriptor turns.source).0 read in
      let (sized, digested) = content_matches again valid_source in
      let (mine, moved) = transfer-Transferred c descriptor id turns sized stored h t e4 in
      (
        mine,
        record {
          begun = live_active turns.begun (come_to begun);
          checked = live_active turns.checked (come_to checked);
          id = id;
          described = (validate_descriptor_iff u descriptor id).0 (come_to valid);
          source = valid_source;
          sized = sized;
          digested = digested;
          transferred = moved;
        },
      )
