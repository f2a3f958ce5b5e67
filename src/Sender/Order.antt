-- ===== src/Sender/Order.antt =====
-- The order of runtime/sender.rs: message IDs never repeat, fall or wrap, whatever the channel and the
-- callers do.
use rust_plugin_sdk.Prelude.{
  ℕ, suc, ◌+◌, ◌≤◌, ◌≡◌, refl, Bool, true, false, Option, List, [], ◌∷◌, ◌++◌, arith, All,
  Bool-cases, inl, inr, ◌==◌, nat_eq, subst, sym,
}
use rust_plugin_sdk.Protocol.{TraceContext, Payload}
use rust_plugin_sdk.Error.{Result, ok, err, panic}
use rust_plugin_sdk.Exec.{Exec}
use rust_plugin_sdk.Sender.Defs.{
  SessionSender, SessionIdentity, OutboundEnvelope, Wire, enqueue, abandon, send,
  send_and_wait_for_consumption, new_sender, outbound, u64_max, await_consumption, transmit,
  no_register, keep,
}

abbrev pub id_of : OutboundEnvelope → ℕ
id_of out = out.envelope.message_id

-- The IDs of a list climb from `lo` and stay below `hi`.
abbrev pub Rising : ℕ → List OutboundEnvelope → ℕ → Type 0
Rising lo [] hi = lo ≤ hi
Rising lo (out ∷ outs) hi = (lo ≤ id_of out) × Rising (suc (id_of out)) outs hi

Rising-raise :
    (lo hi hi' : ℕ) (outs : List OutboundEnvelope)
    → hi ≤ hi'
    → Rising lo outs hi
    → Rising lo outs hi'
Rising-raise lo hi hi' [] h r = omega arith
Rising-raise lo hi hi' (out ∷ outs) h r = (r.0, Rising-raise _ hi hi' outs h r.1)

Rising-snoc :
    (lo hi : ℕ) (outs : List OutboundEnvelope) (out : OutboundEnvelope)
    → id_of out ≡ hi
    → Rising lo outs hi
    → Rising lo (outs ++ out ∷ []) (hi + 1)
Rising-snoc lo hi [] out e r = (omega arith, omega arith)
Rising-snoc lo hi (o ∷ outs) out e r = (r.0, Rising-snoc _ hi outs out e r.1)

abbrev pub IsOwn : SessionIdentity → OutboundEnvelope → Type 0
IsOwn identity out =
    (out.envelope.session_id ≡ identity.session_id)
    × (out.envelope.plugin_instance_id ≡ identity.instance_id)

All-snoc :
    (P : OutboundEnvelope → Type 0) (outs : List OutboundEnvelope) (out : OutboundEnvelope)
    → All P outs
    → P out
    → All P (outs ++ out ∷ [])
All-snoc P [] out h p = (p, tt)
All-snoc P (o ∷ outs) out h p = (h.0, All-snoc P outs out h.1 p)

-- Nonzero, strictly increasing IDs below the next one, which fits 64 bits, under one identity.
pub record IsOrdered (s : SessionSender) : Type 0 where
  pub rising : Rising 1 s.wire.sent s.next_message_id
  pub bounded : s.next_message_id ≤ u64_max
  pub own : All (IsOwn s.identity) s.wire.sent

pub new_sender-IsOrdered :
    (w : Wire) (i : SessionIdentity) → w.sent ≡ [] → IsOrdered (new_sender w i)
unfolding new_sender
new_sender-IsOrdered w i e = record {
  rising = subst (λ outs. Rising 1 outs 1) (sym e) (omega arith);
  bounded = omega arith;
  own = subst (All (IsOwn i)) (sym e) tt;
}

module _ {S T : Type 0} (register : ℕ → Exec S T) (release : T → S → S) where
  transmit-IsOrdered :
      (s : SessionSender) (env : S) (out : OutboundEnvelope) (r : Result T)
      → IsOrdered s
      → id_of out ≡ s.next_message_id
      → s.next_message_id + 1 ≤ u64_max
      → IsOwn s.identity out
      → IsOrdered
          (transmit register release s.next_message_id out r
            (record s { next_message_id = s.next_message_id + 1 }, env)).1.0
  transmit-IsOrdered s env out (err e) v i h o = record {
    rising = Rising-raise 1 _ _ s.wire.sent (omega arith) v.rising;
    bounded = h;
    own = v.own;
  }
  transmit-IsOrdered s env out (panic m) v i h o = record {
    rising = Rising-raise 1 _ _ s.wire.sent (omega arith) v.rising;
    bounded = h;
    own = v.own;
  }
  transmit-IsOrdered s env out (ok t) v i h o = elim (Bool-cases (s.wire.accepts s.wire.sent)) [
    | inl opened ↦ rw opened (record {
      rising = Rising-snoc 1 _ s.wire.sent out i v.rising;
      bounded = h;
      own = All-snoc _ s.wire.sent out v.own o;
    })
    | inr closed ↦ rw closed (record {
      rising = Rising-raise 1 _ _ s.wire.sent (omega arith) v.rising;
      bounded = h;
      own = v.own;
    })
  ]

  -- Whatever the registration and the channel do, `enqueue` keeps the strictly increasing order of
  -- the message IDs, their 64 bits and the session's identity on all that was sent.
  pub enqueue-IsOrdered :
      (reply_to : Option ℕ) (trace : TraceContext) (payload : Payload) (consumed : Bool)
      (s : SessionSender) (env : S)
      → IsOrdered s
      → IsOrdered (enqueue register release reply_to trace payload consumed (s, env)).1.0
  unfolding enqueue
  enqueue-IsOrdered reply_to trace payload consumed s env v =
      elim (Bool-cases (s.next_message_id == u64_max)) [
        | inl full ↦ rw full v
        | inr room ↦ rw room (
            transmit-IsOrdered s (register s.next_message_id env).1
              (outbound s reply_to trace payload consumed) (register s.next_message_id env).0 v refl
              (ground (arith, v.bounded)) (refl, refl))
      ]

  -- An `enqueue` that its caller drops while it waits for room keeps the order, the 64 bits and the
  -- identity of all that was sent.
  pub abandon-IsOrdered :
      (s : SessionSender) (env : S) → IsOrdered s → IsOrdered (abandon register release (s, env)).0
  unfolding abandon
  abandon-IsOrdered s env v = elim (Bool-cases (s.next_message_id == u64_max)) [
    | inl full ↦ rw full v
    | inr room ↦ rw room (record {
      rising = Rising-raise 1 _ _ s.wire.sent (omega arith) v.rising;
      bounded = ground (arith, v.bounded);
      own = v.own;
    })
  ]

pub send-IsOrdered :
    (reply_to : Option ℕ) (trace : TraceContext) (payload : Payload) (s : SessionSender)
    → IsOrdered s
    → IsOrdered (send reply_to trace payload s).1
unfolding send
send-IsOrdered reply_to trace payload s v =
    enqueue-IsOrdered no_register keep reply_to trace payload false s tt v

await_keeps : (r : Result ℕ) (s : SessionSender) → (await_consumption r s).1 ≡ s
await_keeps (err e) s = refl
await_keeps (panic m) s = refl
await_keeps (ok id) s = ground arith

pub send_and_wait_for_consumption-IsOrdered :
    (reply_to : Option ℕ) (trace : TraceContext) (payload : Payload) (s : SessionSender)
    → IsOrdered s
    → IsOrdered (send_and_wait_for_consumption reply_to trace payload s).1
unfolding send_and_wait_for_consumption
send_and_wait_for_consumption-IsOrdered reply_to trace payload s v =
    rw await_keeps (enqueue-IsOrdered no_register keep reply_to trace payload true s tt v)
