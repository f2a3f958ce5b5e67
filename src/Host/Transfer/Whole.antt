-- ===== src/Host/Transfer/Whole.antt =====
-- What the loop sends: the whole source, in order, in chunks within their bound.
use rust_plugin_sdk.Prelude.{
  ℕ, zero, suc, ◌+◌, ◌-◌, ◌≤◌, ◌≡◌, refl, sym, ap, ◌∙◌, Bool, min, none, List, [], ◌∷◌, ◌++◌, arith,
  inl, inr, length, All, append-nil, append_assoc,
}
use rust_plugin_sdk.Protocol.{TraceContext, PluginArtifactId}
use rust_plugin_sdk.Error.{ok}
use rust_plugin_sdk.Exec.{proceed-ok}
use rust_plugin_sdk.Cancellation.{Cancellation, ensure_active}
use rust_plugin_sdk.Sender.{SessionSender}
use rust_plugin_sdk.Sender.Effect.{Message, message, transcript}
use rust_plugin_sdk.Host.Transfer.Selected.{select_send-Delivers}
use rust_plugin_sdk.Host.Artifact.{ArtifactPlan, artifact_plan}
use rust_plugin_sdk.Host.Artifact.Plan.{artifact_plan-Covers}
use rust_plugin_sdk.Host.Transfer.Defs.{
  take, drop, ChunkTurn, select_read, select_send, chunk_payload, send_chunks,
}
use rust_plugin_sdk.Host.Transfer.Pieces.{
  pieces, together, length-drop, together-pieces, pieces_short,
}

-- The pieces that a number of bytes left is cut into.
abbrev cut : ℕ → ℕ → ℕ → List ℕ → List (List ℕ)
cut zero c remaining source = []
cut (suc n) c remaining source =
    take (min remaining c) source
    ∷ cut n c (remaining - min remaining c) (drop (min remaining c) source)

cut-pieces :
    (n c remaining : ℕ) (source : List ℕ)
    → remaining ≡ length source
    → cut n c remaining source ≡ pieces n c source
cut-pieces zero c remaining source e = refl
cut-pieces (suc n) c remaining source e = rw e (
    ap (λ rest. take (min (length source) c) source ∷ rest)
      (cut-pieces n c (length source - min (length source) c) (drop (min (length source) c) source)
        (sym (length-drop (min (length source) c) source))))

read_taken :
    (now : Cancellation) (n : ℕ) (source chunk : List ℕ)
    → select_read now n source ≡ ok chunk
    → chunk ≡ take n source
read_taken now n source chunk h = ground arith

module _ (trace : TraceContext) (id : PluginArtifactId) where
  -- The messages of some chunks, numbered from `index`.
  abbrev pub chunk_messages : ℕ → List (List ℕ) → List Message
  chunk_messages index [] = []
  chunk_messages index (p ∷ ps) =
      message none trace (chunk_payload id index p) ∷ chunk_messages (index + 1) ps

  sent_message :
      (now : Cancellation) (polled : Bool) (index : ℕ) (chunk : List ℕ) (s : SessionSender) (n : ℕ)
      → let r = select_send now polled none trace (chunk_payload id index chunk) s in
        r.0 ≡ ok n
        → transcript r.1 ≡ transcript s ++ message none trace (chunk_payload id index chunk) ∷ []
  sent_message now polled index chunk s n h =
      elim (select_send-Delivers now polled none trace (chunk_payload id index chunk) s) [
        | inl (_, same) ↦ same
        | inr (x, failed, _) ↦ ground (arith, h, failed)
      ]

module _ (turns : ℕ → ChunkTurn) (trace : TraceContext) (id : PluginArtifactId) (c : ℕ) where
  sends_cut :
      (n index remaining : ℕ) (source : List ℕ) (s : SessionSender)
      → (send_chunks turns trace id c n index remaining source s).0 ≡ ok tt
      → transcript (send_chunks turns trace id c n index remaining source s).1
        ≡ transcript s ++ chunk_messages trace id index (cut n c remaining source)
  unfolding send_chunks
  sends_cut zero index remaining source s h = sym (append-nil (transcript s))
  sends_cut (suc n) index remaining source s h =
      let k = min remaining c in
      let rest = send_chunks turns trace id c n (index + 1) (remaining - k) (drop k source) in
      let (t1, live, e1) = proceed-ok (ensure_active (turns index).top) _ s h in
      let (chunk, read, e2) =
        proceed-ok (select_read (turns index).reading k source) _ s (sym (ap (λ r. r.0) e1) ∙ h) in
      let turn = turns index in
      let t = select_send turn.sending turn.polled none trace (chunk_payload id index chunk) s in
      let (m, sent, e3) = proceed-ok t.0 (λ _. rest) t.1 (sym (ap (λ r. r.0) (e1 ∙ e2)) ∙ h) in
      let all = e1 ∙ (e2 ∙ e3) in
      let later =
        sends_cut n (index + 1) (remaining - k) (drop k source) t.1 (sym (ap (λ r. r.0) all) ∙ h) in
      let messages =
        chunk_messages trace id (index + 1) (cut n c (remaining - k) (drop k source)) in
      ap (λ r. transcript r.1) all
      ∙ (later
          ∙ (ap (λ ms. ms ++ messages)
                (sent_message trace id turn.sending turn.polled index chunk s m sent)
              ∙ (append_assoc (transcript s)
                    (message none trace (chunk_payload id index chunk) ∷ []) messages
                  ∙ ap
                      (λ x.
                        transcript s ++ message none trace (chunk_payload id index x) ∷ messages)
                      (read_taken turn.reading k source chunk read))))

length-pieces : (n c : ℕ) (source : List ℕ) → length (pieces n c source) ≡ n
length-pieces zero c source = refl
length-pieces (suc n) c source =
    ground (arith, length-pieces n c (drop (min (length source) c) source))

All-weaken :
    (c maximum : ℕ) (ps : List (List ℕ))
    → c ≤ maximum
    → All (λ p. length p ≤ c) ps
    → All (λ p. length p ≤ maximum) ps
All-weaken c maximum [] h a = tt
All-weaken c maximum (p ∷ ps) h a = (omega (arith, a.0), All-weaken c maximum ps h a.1)

-- The chunks of a plan for the source, if all are sent, are numbered from 0 and are, put together, the
-- whole source; none is longer than the host's limit.
pub transfer_is_whole :
    (turns : ℕ → ChunkTurn) (trace : TraceContext) (id : PluginArtifactId) (maximum : ℕ)
    (source : List ℕ) (p : ArtifactPlan) (s : SessionSender)
    → artifact_plan (length source) maximum ≡ ok p
    → let end = send_chunks turns trace id p.chunk_bytes p.chunk_count 0 (length source) source s in
      end.0 ≡ ok tt
      → (chunks : List (List ℕ)) × (transcript end.1
          ≡ transcript s ++ chunk_messages trace id 0 chunks)
        × (together chunks ≡ source)
        × (length chunks ≡ p.chunk_count)
        × All (λ chunk. length chunk ≤ maximum) chunks
transfer_is_whole turns trace id maximum source p s planned done =
    let (covers, some', bound, small, few) =
      artifact_plan-Covers (length source) maximum p planned in
    let chunks = pieces p.chunk_count p.chunk_bytes source in
    (
      chunks,
      sends_cut turns trace id p.chunk_bytes p.chunk_count 0 (length source) source s done
          ∙ ap (λ ps. transcript s ++ chunk_messages trace id 0 ps)
              (cut-pieces p.chunk_count p.chunk_bytes (length source) source refl),
      together-pieces p.chunk_count p.chunk_bytes source covers.0,
      length-pieces p.chunk_count p.chunk_bytes source,
      All-weaken p.chunk_bytes maximum chunks bound
          (pieces_short p.chunk_count p.chunk_bytes source),
    )
