-- ===== src/Tests/Senders.antt =====
-- The sender's theorems at a channel that takes everything.
use rust_plugin_sdk.Prelude.{◌++◌, ◌≡◌, refl, true, false, none, [], ◌∷◌}
use rust_plugin_sdk.Protocol.{Payload}
use rust_plugin_sdk.Error.{ok}
use rust_plugin_sdk.Sender.{enqueue, send_and_wait_for_consumption, new_sender}
use rust_plugin_sdk.Sender.Order.{IsOrdered, new_sender-IsOrdered, enqueue-IsOrdered}
use rust_plugin_sdk.Sender.Effect.{message, send_and_wait_consumed, transcript}
use rust_plugin_sdk.Host.Client.{Routing, register, drop_guard}
use rust_plugin_sdk.Tests.Data.{open_wire, identity, sender, root_trace}

abbrev nothing_pending : Routing
nothing_pending = record { pending = []; delivered = []; dropped = [] }

sender-IsOrdered : IsOrdered sender
sender-IsOrdered = new_sender-IsOrdered open_wire identity refl

enqueue-IsOrdered_example :
    IsOrdered
      (enqueue
        (register root_trace)
        drop_guard
        none
        root_trace
        Payload.ready
        false
        (sender, nothing_pending)).1.0
enqueue-IsOrdered_example =
    enqueue-IsOrdered (register root_trace) drop_guard none root_trace Payload.ready false sender
      nothing_pending sender-IsOrdered

waiting_send_returned :
    (send_and_wait_for_consumption none root_trace Payload.ready sender).0 ≡ ok 1
unfolding send_and_wait_for_consumption enqueue new_sender
waiting_send_returned = refl

send_and_wait_consumed_example :
    let s = (send_and_wait_for_consumption none root_trace Payload.ready sender).1 in
    (transcript s ≡ transcript sender ++ message none root_trace Payload.ready ∷ [])
    × (s.wire.consumes s.wire.sent ≡ true)
send_and_wait_consumed_example =
    send_and_wait_consumed none root_trace Payload.ready sender 1 waiting_send_returned
