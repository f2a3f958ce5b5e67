-- ===== src/Host/Transfer/Defs.antt =====
-- The loop of `store_artifact` that sends a validated source in chunks. The source is the bytes that are
-- left to read; no other task sends between two chunks.
use rust_plugin_sdk.Prelude.{
  ℕ, zero, suc, ◌+◌, ◌-◌, min, ltb, ◌==◌, nat_eq, Bool, true, false, Option, none, some, List, [],
  ◌∷◌, length, if◌then◌else◌,
}
use rust_plugin_sdk.Protocol.{TraceContext, Payload, PluginArtifactId}
use rust_plugin_sdk.Error.{SdkError, Result, ok, err, ensure}
use rust_plugin_sdk.Error
use rust_plugin_sdk.Exec.{Exec, ◌>>=◌, ◌>>◌, pure, lift}
use rust_plugin_sdk.Cancellation.{Cancellation, active, ensure_active}
use rust_plugin_sdk.Sender.{SessionSender, send, abandon, no_register, keep}

abbrev pub take : ℕ → List ℕ → List ℕ
take zero xs = []
take (suc n) [] = []
take (suc n) (x ∷ xs) = x ∷ take n xs

abbrev pub drop : ℕ → List ℕ → List ℕ
drop zero xs = xs
drop (suc n) [] = []
drop (suc n) (x ∷ xs) = drop n xs

-- `read_exact`.
abbrev pub read_exact : ℕ → List ℕ → Result (List ℕ)
read_exact n source =
    if ltb (length source) n
    then err (SdkError.runtime "read validated artifact source" "unexpected end of file")
    else ok (take n source)

abbrev pub chunk_payload : PluginArtifactId → ℕ → List ℕ → Payload
chunk_payload id index chunk =
    Payload.artifact_chunk (record { artifact_id = some id; chunk_index = index; chunk = chunk })

-- A send in a biased select with the end of the action. If the action has ended, the send is dropped:
-- before its first poll, or while it waits for room in the channel.
abbrev pub drop_send : Bool → SessionSender → SessionSender
drop_send false s = s
drop_send true s = let (t, _) = abandon no_register keep (s, tt) in t

unfoldable pub select_send :
    Cancellation → Bool → Option ℕ → TraceContext → Payload → Exec SessionSender ℕ
unfolding send abandon
select_send now polled reply_to trace payload s =
    if now == active
    then send reply_to trace payload s
    else (err SdkError.cancelled, drop_send polled s)

-- The controller as it is read at the top of the loop, at the read and at the send, and whether the send
-- was polled before the action ended.
pub record ChunkTurn : Type 0 where
  pub top : Cancellation
  pub reading : Cancellation
  pub sending : Cancellation
  pub polled : Bool

abbrev pub select_read : Cancellation → ℕ → List ℕ → Result (List ℕ)
select_read now n source =
    Error.◌>>◌ (ensure (now == active) SdkError.cancelled) (read_exact n source)

module _ (turns : ℕ → ChunkTurn) (trace : TraceContext) (id : PluginArtifactId)
    (chunk_bytes : ℕ) where
  -- `count` chunks are still to be sent, the next of which is `index`.
  unfoldable pub send_chunks : ℕ → ℕ → ℕ → List ℕ → Exec SessionSender (Unit {0})
  unfolding ensure_active select_send
  send_chunks zero index remaining source = pure tt
  send_chunks (suc count) index remaining source = do
    let turn = turns index
    lift (ensure_active turn.top)
    chunk ← lift (select_read turn.reading (min remaining chunk_bytes) source)
    select_send turn.sending turn.polled none trace (chunk_payload id index chunk)
    send_chunks count (index + 1) (remaining - min remaining chunk_bytes)
        (drop (min remaining chunk_bytes) source)
