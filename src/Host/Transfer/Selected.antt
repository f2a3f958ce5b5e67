-- ===== src/Host/Transfer/Selected.antt =====
-- What a send that may be cancelled does.
use rust_plugin_sdk.Prelude.{
  ℕ, ◌≡◌, refl, inr, Bool, true, false, Bool-cases, inl, Option, ◌==◌, nat_eq,
}
use rust_plugin_sdk.Protocol.{TraceContext, Payload}
use rust_plugin_sdk.Error.{SdkError}
use rust_plugin_sdk.Cancellation.{Cancellation, active}
use rust_plugin_sdk.Sender.{SessionSender, no_register, keep}
use rust_plugin_sdk.Sender.Effect.{message, transcript, Delivers, send-Delivers, abandon_quiet}
use rust_plugin_sdk.Host.Transfer.Defs.{drop_send, select_send}

drop_send-transcript :
    (polled : Bool) (s : SessionSender) → transcript (drop_send polled s) ≡ transcript s
drop_send-transcript true s = abandon_quiet no_register keep s tt
drop_send-transcript false s = refl

-- A send in a select puts its message at the end of the transcript, or fails and leaves the transcript
-- alone.
pub select_send-Delivers :
    (now : Cancellation) (polled : Bool) (reply_to : Option ℕ) (trace : TraceContext)
    (payload : Payload) (s : SessionSender)
    → Delivers s (message reply_to trace payload) (select_send now polled reply_to trace payload s)
unfolding select_send
select_send-Delivers now polled reply_to trace payload s = elim (Bool-cases (now == active)) [
  | inl live ↦ rw live (send-Delivers reply_to trace payload s)
  | inr over ↦ rw over (inr (SdkError.cancelled, refl, drop_send-transcript polled s))
]
