-- ===== src/Host/Request/Dropped.antt =====
-- What is left of a request that its action's end drops while it waits for room in the channel.
use rust_plugin_sdk.Prelude.{
  ℕ, ◌+◌, ◌≡◌, ◌≢◌, refl, sym, ◌∙◌, subst, inl, inr, false, Bool-cases, none, arith, ◌==◌, nat_eq,
}
use rust_plugin_sdk.Prelude.Map.{lookup, remove, lookup-insert, lookup-remove_ne}
use rust_plugin_sdk.Protocol.{TraceContext}
use rust_plugin_sdk.Sender.{u64_max, abandon}
use rust_plugin_sdk.Sender.Effect.{transcript}
use rust_plugin_sdk.Host.Client.{Routing, HostClient, register, drop_guard}
use rust_plugin_sdk.Host.Client.Routes.{IsRouting, waiting, waits_once}
use rust_plugin_sdk.Host.Request.Defs.{drop_sending}

-- The entry that was made is gone again, and no other one is touched.
entry_undone :
    (trace : TraceContext) (id other : ℕ) (r : Routing)
    → lookup id r.pending ≡ none
    → lookup other (remove id (waiting trace id r).pending) ≡ lookup other r.pending
entry_undone trace id other r new = elim (Bool-cases (id == other)) [
  | inl same ↦
      let one : id ≡ other = ground (arith, same) in
      subst (λ x. lookup x (remove id (waiting trace id r).pending) ≡ lookup x r.pending) one
        (waits_once trace id r new ∙ sym new)
  | inr differs ↦
      lookup-remove_ne id other (waiting trace id r).pending differs
      ∙ (lookup-insert id other _ r.pending ∙ rw differs refl)
]

-- A request that is dropped while it waits for room in the channel, the numbers not being used up and none
-- waiting under the next one or a later one, leaves nothing but a number that is not given again: the table
-- of the pending requests answers as before for every ID, and nothing was sent.
pub drop_sending_undoes :
    (trace : TraceContext) (h : HostClient) (other : ℕ)
    → IsRouting h
    → h.sender.next_message_id ≢ u64_max
    → let t = drop_sending trace h in
      (lookup other t.routing.pending ≡ lookup other h.routing.pending)
      × (transcript t.sender ≡ transcript h.sender)
      × (t.sender.next_message_id ≡ h.sender.next_message_id + 1)
unfolding abandon register drop_guard transcript
drop_sending_undoes trace h other v room =
    let id = h.sender.next_message_id in
    let free : (id == u64_max) ≡ false = ground (arith, room) in
    let new = v.fresh id (omega arith) in
    rw (free, new) (entry_undone trace id other h.routing new, refl, refl)
