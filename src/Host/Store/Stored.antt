-- ===== src/Host/Store/Stored.antt =====
-- What an artifact that was stored has gone through.
use rust_plugin_sdk.Prelude.{
  ℕ, arith, ◌<◌, ◌+◌, ◌≤◌, ◌≡◌, sym, subst, some, List, ◌++◌, length, All, string_eq,
}
use rust_plugin_sdk.Protocol.{Payload, ArtifactDescriptor, PluginArtifactId}
use rust_plugin_sdk.Error.{ok}
use rust_plugin_sdk.Exec.{Exec}
use rust_plugin_sdk.Async.{Async, ◌>>=◌, ◌>>◌, lift, at_once, returned, ended, come_to, lift-ok}
use rust_plugin_sdk.Sender.Effect.{transcript}
use rust_plugin_sdk.Host.Client.{HostClient}
use rust_plugin_sdk.Host.Context.{ActionContext}
use rust_plugin_sdk.Host.Artifact.{ArtifactPlan, artifact_plan}
use rust_plugin_sdk.Host.Transfer.{ChunkTurn, send_chunks}
use rust_plugin_sdk.Host.Transfer.Live.{IsLive, chunks_live}
use rust_plugin_sdk.Host.Transfer.Pieces.{together}
use rust_plugin_sdk.Host.Transfer.Whole.{chunk_messages, transfer_is_whole}
use rust_plugin_sdk.Host.Request.{request}
use rust_plugin_sdk.Host.Request.Asked.{Asked, request-Asked}
use rust_plugin_sdk.Host.Output.{StoredArtifact}
use rust_plugin_sdk.Host.Log.{on_sender}
use rust_plugin_sdk.Host.Store.Answers.{accepts_same, stores_same}
use rust_plugin_sdk.Host.Store.Defs.{
  StoreTurns, start_payload, check_accepted, check_stored, plan_transfer, transfer,
}

-- The bytes went out in chunks between the two requests, each while the action was active.
pub record Chunked (turns : ℕ → ChunkTurn) (c : ActionContext) (id : PluginArtifactId)
    (content : List ℕ) (plan : ArtifactPlan) (maximum : ℕ) (h t : HostClient) : Type 0 where
  pub chunks : List (List ℕ)
  pub sent : transcript t.sender ≡ transcript h.sender ++ chunk_messages c.trace id 0 chunks
  pub whole : together chunks ≡ content
  pub planned : length chunks ≡ plan.chunk_count
  pub bounded : All (λ chunk. length chunk ≤ maximum) chunks
  pub live : (i : ℕ) → i < plan.chunk_count → IsLive (turns i)

chunks_sent :
    (c : ActionContext) (id : PluginArtifactId) (size maximum : ℕ) (turns : StoreTurns)
    (plan : ArtifactPlan) (h : HostClient)
    → length turns.content ≡ size
    → artifact_plan size maximum ≡ ok plan
    → (send_chunks turns.chunks c.trace id plan.chunk_bytes plan.chunk_count 0 size turns.content
        h.sender).0
      ≡ ok tt
    → Chunked turns.chunks c id turns.content plan maximum h
        (on_sender
          (send_chunks turns.chunks c.trace id plan.chunk_bytes plan.chunk_count 0 size
            turns.content)
          h).1
chunks_sent c id size maximum turns plan h sized planned done =
    let total = length turns.content in
    let sending = send_chunks turns.chunks c.trace id plan.chunk_bytes plan.chunk_count 0 in
    let (chunks, sent, whole, counted, bounded) =
      transfer_is_whole turns.chunks c.trace id maximum turns.content plan h.sender
        (subst (λ n. artifact_plan n maximum ≡ ok plan) (sym sized) planned)
        (subst (λ n. (sending n turns.content h.sender).0 ≡ ok tt) (sym sized) done) in
    record {
      chunks = chunks;
      sent =
          subst
            (λ n.
              transcript (sending n turns.content h.sender).1
              ≡ transcript h.sender ++ chunk_messages c.trace id 0 chunks)
            sized sent;
      whole = whole;
      planned = counted;
      bounded = bounded;
      live = λ i lt.
          let all =
            chunks_live turns.chunks c.trace id plan.chunk_bytes plan.chunk_count 0 size
              turns.content h.sender done in
          let same : 0 + i ≡ i = omega arith in
          subst (λ x. IsLive (turns.chunks x)) same (all i lt);
    }

-- The exchange: an accepted start, all the bytes in chunks, and a confirmed end.
pub record Transferred (c : ActionContext) (descriptor : ArtifactDescriptor) (id : PluginArtifactId)
    (turns : StoreTurns) (h t : HostClient) : Type 0 where
  pub plan : ArtifactPlan
  pub accepted : HostClient
  pub started :
      Asked c
        (start_payload c descriptor plan)
        turns.starting
        h
        (Payload.artifact_accepted (some id))
        accepted
  pub finished : HostClient
  pub chunked :
      Chunked turns.chunks c id turns.content plan h.maximum_artifact_chunk_bytes accepted finished
  pub completed :
      Asked c
        (Payload.artifact_complete (some id))
        turns.completing
        finished
        (Payload.artifact_stored (some id))
        t

module _ (c : ActionContext) (descriptor : ArtifactDescriptor) (id : PluginArtifactId)
    (turns : StoreTurns) where
  abbrev pub artifact : StoredArtifact
  artifact = record { job_id = c.job_id; descriptor = descriptor }

  confirmed :
      (stored : StoredArtifact) (h t : HostClient)
      → (request c (Payload.artifact_complete (some id)) turns.completing >>= λ answer.
            lift (check_stored id artifact answer))
          h
        ≡ (some (ok stored), t)
      → (stored ≡ artifact)
        × Asked c
            (Payload.artifact_complete (some id))
            turns.completing
            h
            (Payload.artifact_stored (some id))
            t
  confirmed stored h t e =
      let asking = request c (Payload.artifact_complete (some id)) turns.completing in
      let payload = Payload.artifact_complete (some id) in
      let asking = request c payload turns.completing in
      let (answer, asked, e1) = returned asking _ h e in
      let (kept, same) = lift-ok (check_stored id artifact answer) (asking h).1 t e1 in
      let (named, mine) = stores_same id artifact stored answer kept in
      (
        mine,
        subst (λ x. Asked c payload turns.completing h (Payload.artifact_stored (some id)) x) same
            (subst (λ p. Asked c payload turns.completing h p (asking h).1) named
              (request-Asked c payload turns.completing h (asking h).1 answer
                (ended asking h asked))),
      )

  abbrev sends_chunks : ArtifactPlan → Exec HostClient (Unit {0})
  sends_chunks plan = on_sender (
      send_chunks turns.chunks c.trace id plan.chunk_bytes plan.chunk_count 0 descriptor.size_bytes
        turns.content)

  abbrev confirming : Async HostClient StoredArtifact
  confirming = request c (Payload.artifact_complete (some id)) turns.completing >>= λ answer.
      lift (check_stored id artifact answer)

  module _ (sized : length turns.content ≡ descriptor.size_bytes) where
    sent_and_confirmed :
        (stored : StoredArtifact) (plan : ArtifactPlan) (maximum : ℕ) (h t : HostClient)
        → artifact_plan descriptor.size_bytes maximum ≡ ok plan
        → (at_once (sends_chunks plan) >> confirming) h ≡ (some (ok stored), t)
        → (stored ≡ artifact)
          × ((finished : HostClient) × Chunked turns.chunks c id turns.content plan maximum h
                finished
              × Asked c
                  (Payload.artifact_complete (some id))
                  turns.completing
                  finished
                  (Payload.artifact_stored (some id))
                  t)
    sent_and_confirmed stored plan maximum h t planned e =
        let (_, sent, e1) = returned (at_once (sends_chunks plan)) (λ _. confirming) h e in
        let (mine, asked) = confirmed stored (sends_chunks plan h).1 t e1 in
        (
          mine,
          (
            (sends_chunks plan h).1,
            chunks_sent c id descriptor.size_bytes maximum turns plan h sized planned
                (come_to sent),
            asked,
          ),
        )

    pub transfer-Transferred :
        (stored : StoredArtifact) (h t : HostClient)
        → transfer c descriptor id turns h ≡ (some (ok stored), t)
        → (stored ≡ artifact) × Transferred c descriptor id turns h t
    unfolding transfer
    transfer-Transferred stored h t e =
        let (plan, planned, e1) = returned (plan_transfer descriptor) _ h e in
        let asking = request c (start_payload c descriptor plan) turns.starting in
        let (answer, asked, e2) = returned asking _ h e1 in
        let (_, good, e3) = returned (lift (check_accepted id answer)) _ (asking h).1 e2 in
        let (mine, (finished, chunked, completed)) =
          sent_and_confirmed stored plan h.maximum_artifact_chunk_bytes (asking h).1 t
            (come_to planned) e3 in
        (
          mine,
          record {
            plan = plan;
            accepted = (asking h).1;
            started =
                subst
                  (λ p. Asked c (start_payload c descriptor plan) turns.starting h p (asking h).1)
                  (accepts_same id answer (come_to good))
                  (request-Asked c (start_payload c descriptor plan) turns.starting h (asking h).1
                    answer (ended asking h asked));
            finished = finished;
            chunked = chunked;
            completed = completed;
          },
        )
