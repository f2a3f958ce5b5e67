-- ===== src/Tests/Stores.antt =====
-- A source of three bytes that is validated and stored.
use rust_plugin_sdk.Prelude.{
  ℕ, zero, suc, ◌≡◌, ◌↔◌, refl, arith, false, some, Option, List, [], ◌∷◌,
}
use rust_plugin_sdk.Prelude.Text.{bytes}
use rust_plugin_sdk.Protocol.{Payload, ArtifactDescriptor, PluginArtifactId}
use rust_plugin_sdk.Error.{ok, Result}
use rust_plugin_sdk.Validation.{canonical_uuid_v4}
use rust_plugin_sdk.Cancellation.{active, ensure_active}
use rust_plugin_sdk.Sender
use rust_plugin_sdk.Sender.{enqueue}
use rust_plugin_sdk.Host.Client.{HostClient, new_client, route, issue, receive, register, answer}
use rust_plugin_sdk.Host.Artifact.{validate_descriptor, artifact_plan}
use rust_plugin_sdk.Host.Source.{
  Source, Attempt, gives, select_call, read_turn, read_all, validate_source,
}
use rust_plugin_sdk.Host.Source.Reading.{Reads}
use rust_plugin_sdk.Host.Source.Checked.{IsSourceOf, validate_source_iff}
use rust_plugin_sdk.Host.Transfer.{select_send, send_chunks}
use rust_plugin_sdk.Host.Transfer.Pieces.{together}
use rust_plugin_sdk.Host.Request.{Progress, RequestTurn, request_host, request}
use rust_plugin_sdk.Host.Output.{StoredArtifact}
use rust_plugin_sdk.Host.Store.{StoreTurns, transfer, store_artifact}
use rust_plugin_sdk.Host.Store.Confirmed.{Stored, store_artifact-Stored}
use rust_plugin_sdk.Tests.Data.{first_id, second_id, two_uuids, root_trace, client, context}

abbrev zeros : ℕ → List ℕ
zeros zero = []
zeros (suc n) = 0 ∷ zeros n

-- A digest of 32 bytes that begins with the first byte of its input.
abbrev digest : List ℕ → List ℕ
digest [] = zeros 32
digest (b ∷ bs) = b ∷ zeros 31

abbrev three_bytes : List ℕ
three_bytes = 10 ∷ 20 ∷ 30 ∷ []

abbrev live : {A : Type 0} → A → Attempt A
live a = record { now = active; call = gives a }

abbrev source : Source
source = record {
  position = live 0;
  reads = live (10 ∷ 20 ∷ []) ∷ live (30 ∷ []) ∷ live [] ∷ [];
  seek = λ start. live start;
}

abbrev artifact : PluginArtifactId
artifact = record { value = second_id }

abbrev descriptor : ArtifactDescriptor
descriptor = record {
  artifact_id = some artifact;
  file_name = "out.bin";
  media_type = "text/plain";
  size_bytes = 3;
  sha256 = 10 ∷ zeros 31;
}

validate_source_iff_example :
    (validate_source digest descriptor source ≡ some (ok tt)) ↔ IsSourceOf digest descriptor source
validate_source_iff_example = validate_source_iff digest descriptor source

-- The host answers each request with the artifact's ID.
abbrev answered : ℕ → Payload → RequestTurn
answered id payload = record {
  begun = active;
  ended = active;
  progress = Progress.unpolled;
  others = λ h. (route id root_trace payload h).1;
}

abbrev turns : StoreTurns
turns = record {
  begun = active;
  source = source;
  checked = active;
  starting = answered 1 (Payload.artifact_accepted (some artifact));
  chunks = λ index. record { top = active; reading = active; sending = active; polled = false };
  content = three_bytes;
  completing = answered 3 (Payload.artifact_stored (some artifact));
}

abbrev stored : StoredArtifact
stored = record { job_id = first_id; descriptor = descriptor }

abbrev run : Option (Result StoredArtifact) × HostClient
run = store_artifact two_uuids digest context descriptor turns client

run_stores : run ≡ (some (ok stored), run.1)
unfolding store_artifact transfer validate_descriptor canonical_uuid_v4 bytes validate_source
    select_call read_turn read_all artifact_plan request request_host issue register receive answer
    route send_chunks select_send Sender.send Sender.send_registered enqueue ensure_active
    Sender.new_sender new_client
run_stores = refl

pieces_whole : (pieces : List (List ℕ)) → Reads source.reads pieces → three_bytes ≡ together pieces
pieces_whole [] h = ground (arith, h)
pieces_whole (p ∷ []) h = ground (arith, h)
pieces_whole (p ∷ q ∷ []) (first, full, (second, filled, last)) = ground (arith, first, second)
pieces_whole (p ∷ q ∷ r ∷ []) (first, full, (second, filled, (third, more, none'))) = absurd none'
pieces_whole (p ∷ q ∷ r ∷ t ∷ rest) (first, full, (second, filled, (third, more, none'))) =
    absurd none'

store_artifact-Stored_example :
    (stored ≡ record { job_id = first_id; descriptor = descriptor })
    × Stored two_uuids digest context descriptor turns client run.1
store_artifact-Stored_example =
    store_artifact-Stored two_uuids digest context descriptor turns stored client run.1 pieces_whole
      run_stores
