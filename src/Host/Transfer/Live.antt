-- ===== src/Host/Transfer/Live.antt =====
-- The loop that sends the chunks ends well only while its action is active.
use rust_plugin_sdk.Prelude.{
  ℕ, zero, suc, ◌+◌, ◌-◌, ◌<◌, ◌≡◌, sym, ap, ◌∙◌, subst, min, List, none, arith, nat_eq,
}
use native.Mathlib.Nat.{add-zero}
use rust_plugin_sdk.Protocol.{TraceContext, PluginArtifactId}
use rust_plugin_sdk.Error.{ok}
use rust_plugin_sdk.Exec.{proceed-ok}
use rust_plugin_sdk.Cancellation.{Cancellation, active, ensure_active}
use rust_plugin_sdk.Sender.{SessionSender}
use rust_plugin_sdk.Host.Context.Calls.{live_active}
use rust_plugin_sdk.Host.Transfer.Defs.{
  drop, ChunkTurn, select_read, select_send, chunk_payload, send_chunks,
}

-- The controller was active wherever it was read for a chunk.
abbrev pub IsLive : ChunkTurn → Type 0
IsLive turn = (turn.top ≡ active) × (turn.reading ≡ active) × (turn.sending ≡ active)

read_live :
    (now : Cancellation) (n : ℕ) (source chunk : List ℕ)
    → select_read now n source ≡ ok chunk
    → now ≡ active
read_live now n source chunk h = ground (arith, h)

send_live :
    (turn : ChunkTurn) (trace : TraceContext) (id : PluginArtifactId) (index : ℕ) (chunk : List ℕ)
    (s : SessionSender) (n : ℕ)
    → (select_send turn.sending turn.polled none trace (chunk_payload id index chunk) s).0 ≡ ok n
    → turn.sending ≡ active
unfolding select_send
send_live turn trace id index chunk s n h = ground (arith, h)

module _ (turns : ℕ → ChunkTurn) (trace : TraceContext) (id : PluginArtifactId) (c : ℕ) where
  -- The turn of each chunk that is sent.
  pub chunks_live :
      (n index remaining : ℕ) (source : List ℕ) (s : SessionSender)
      → (send_chunks turns trace id c n index remaining source s).0 ≡ ok tt
      → (i : ℕ) → i < n
      → IsLive (turns (index + i))
  unfolding send_chunks
  chunks_live zero index remaining source s h i lt = elim lt [ ]
  chunks_live (suc n) index remaining source s h i lt =
      let k = min remaining c in
      let turn = turns index in
      let rest = send_chunks turns trace id c n (index + 1) (remaining - k) (drop k source) in
      let (t1, top, e1) = proceed-ok (ensure_active turn.top) _ s h in
      let (chunk, read, e2) =
        proceed-ok (select_read turn.reading k source) _ s (sym (ap (λ r. r.0) e1) ∙ h) in
      let t = select_send turn.sending turn.polled none trace (chunk_payload id index chunk) s in
      let (m, sent, e3) = proceed-ok t.0 (λ _. rest) t.1 (sym (ap (λ r. r.0) (e1 ∙ e2)) ∙ h) in
      let first : IsLive turn = (
        live_active turn.top top,
        read_live turn.reading k source chunk read,
        send_live turn trace id index chunk s m sent,
      ) in
      let later =
        chunks_live n (index + 1) (remaining - k) (drop k source) t.1
          (sym (ap (λ r. r.0) (e1 ∙ (e2 ∙ e3))) ∙ h) in
      from i lt first later
    where
      from :
          (i : ℕ)
          → i < suc n
          → IsLive (turns index)
          → ((i : ℕ) → i < n → IsLive (turns (index + 1 + i)))
          → IsLive (turns (index + i))
      from zero lt first later = rw add-zero first
      from (suc i) lt first later =
          let shift : index + 1 + i ≡ index + suc i = omega arith in
          subst (λ x. IsLive (turns x)) shift (later i (omega (arith, lt)))
