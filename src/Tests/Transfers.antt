-- ===== src/Tests/Transfers.antt =====
-- The transfer of three bytes in two chunks.
use rust_plugin_sdk.Prelude.{ℕ, false, ◌≤◌, ◌≡◌, ◌++◌, refl, List, [], ◌∷◌, length, All}
use rust_plugin_sdk.Protocol.{PluginArtifactId}
use rust_plugin_sdk.Error.{ok}
use rust_plugin_sdk.Cancellation.{active, ensure_active}
use rust_plugin_sdk.Sender
use rust_plugin_sdk.Sender.{SessionSender, enqueue}
use rust_plugin_sdk.Sender.Effect.{transcript}
use rust_plugin_sdk.Host.Artifact.{ArtifactPlan, artifact_plan}
use rust_plugin_sdk.Host.Transfer.{ChunkTurn, send_chunks, select_send}
use rust_plugin_sdk.Host.Transfer.Pieces.{together}
use rust_plugin_sdk.Host.Transfer.Whole.{chunk_messages, transfer_is_whole}
use rust_plugin_sdk.Tests.Data.{first_id, root_trace, sender}

abbrev source : List ℕ
source = 10 ∷ 20 ∷ 30 ∷ []

abbrev artifact : PluginArtifactId
artifact = record { value = first_id }

abbrev two_chunks : ArtifactPlan
two_chunks = record { chunk_bytes = 2; chunk_count = 2 }

abbrev live_turn : ChunkTurn
live_turn = record { top = active; reading = active; sending = active; polled = false }

two_planned : artifact_plan 3 2 ≡ ok two_chunks
unfolding artifact_plan
two_planned = refl

all_sent : (send_chunks (λ index. live_turn) root_trace artifact 2 2 0 3 source sender).0 ≡ ok tt
unfolding send_chunks select_send ensure_active Sender.send enqueue Sender.new_sender
all_sent = refl

transfer_is_whole_example :
    (chunks : List (List ℕ)) × (transcript
        (send_chunks (λ index. live_turn) root_trace artifact 2 2 0 3 source sender).1
      ≡ transcript sender ++ chunk_messages root_trace artifact 0 chunks)
    × (together chunks ≡ source)
    × (length chunks ≡ 2)
    × All (λ chunk. length chunk ≤ 2) chunks
transfer_is_whole_example =
    transfer_is_whole (λ index. live_turn) root_trace artifact 2 source two_chunks sender
      two_planned all_sent
