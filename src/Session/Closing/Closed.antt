-- ===== src/Session/Closing/Closed.antt =====
-- When the session closes well.
use rust_plugin_sdk.Prelude.{ℕ, ◌-◌, ◌<◌, ◌≡◌, ◌↔◌, refl, subst, arith}
use rust_plugin_sdk.Protocol.{Timestamp, PluginEnvelope}
use rust_plugin_sdk.Error.{ok}
use rust_plugin_sdk.Host.Source.{IoCall, gives, breaks}
use rust_plugin_sdk.Session.Serve.{Incoming}
use rust_plugin_sdk.Session.Closing.Defs.{
  Arrival, after, never, timeout, closed, wait_until, wait_for_host_close,
}

-- No message comes in time: before the deadline, or at once if the deadline has passed.
abbrev pub IsSilent : ℕ → ℕ → Arrival → Type 0
IsSilent now deadline arrival =
    (delay : ℕ) (envelope : PluginEnvelope)
    → arrival ≡ after delay (Incoming.received envelope)
    → deadline - now < delay

IsSilent-arrival :
    (now deadline : ℕ) (arrival : Arrival)
    → (closed (timeout (deadline - now) arrival) ≡ ok tt) ↔ IsSilent now deadline arrival
IsSilent-arrival now deadline never = (λ h delay envelope e. ground (arith, e), λ h. refl)
IsSilent-arrival now deadline (after d Incoming.closed) =
    (λ h delay envelope e. ground (arith, e), λ h. ground arith)
IsSilent-arrival now deadline (after d (Incoming.broken error)) =
    (λ h delay envelope e. ground (arith, e), λ h. ground arith)
IsSilent-arrival now deadline (after d (Incoming.received x)) =
    (λ h delay envelope e. ground (arith, h, e), λ h. ground (arith, h d x refl))

silent :
    (now : ℕ) (arrival : Arrival) (time : IoCall ℕ)
    → (wait_until now arrival time ≡ ok tt)
      ↔ ((deadline : ℕ) × (time ≡ gives deadline) × IsSilent now deadline arrival)
silent now arrival (breaks error) = (λ h. ground (arith, h), λ (d, e, q). ground (arith, e))
silent now arrival (gives deadline) = (
  λ h. (deadline, refl, (IsSilent-arrival now deadline arrival).0 h),
  λ (d, e, q).
      let same : d ≡ deadline = ground (arith, e) in
      (IsSilent-arrival now deadline arrival).1 (subst (λ x. IsSilent now x arrival) same q),
)

-- The wait for the host ends well exactly if the deadline is a time of the system and no message comes
-- by it; that the stream is closed, breaks, or stays silent is all the same.
pub wait_for_host_close_iff :
    (system_time : Timestamp → IoCall ℕ) (deadline : Timestamp) (now : ℕ) (arrival : Arrival)
    → (wait_for_host_close system_time deadline now arrival ≡ ok tt)
      ↔ ((time : ℕ) × (system_time deadline ≡ gives time) × IsSilent now time arrival)
unfolding wait_for_host_close
wait_for_host_close_iff system_time deadline now arrival = silent now arrival (system_time deadline)
