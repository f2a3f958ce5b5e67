-- ===== src/Cancellation/Defs.antt =====
-- `Cancellation`, `CancellationController` and `FinishGuard`. All clones share one atomic byte, so a
-- `Cancellation` is that byte; each compare-exchange is one atomic step.
use rust_plugin_sdk.Prelude.{ℕ, Bool, true, false, ◌==◌, nat_eq, if◌then◌else◌}
use rust_plugin_sdk.Error.{SdkError, Result, ensure}

abbrev pub active : ℕ
active = 0

abbrev pub cancelled : ℕ
cancelled = 1

abbrev pub finished : ℕ
finished = 2

abbrev pub Cancellation : Type 0
Cancellation = ℕ

unfoldable pub is_cancelled : Cancellation → Bool
is_cancelled value = value == cancelled

unfoldable pub ensure_active : Cancellation → Result (Unit {0})
ensure_active value = ensure (value == active) SdkError.cancelled

-- `CancellationController::new`.
abbrev pub new_cancellation : Cancellation
new_cancellation = active

-- `compare_exchange(active, new)`, with whether it succeeds, in which case all waiters are notified.
abbrev pub compare_exchange : ℕ → Cancellation → Cancellation × Bool
compare_exchange new value = if value == active then (new, true) else (value, false)

unfoldable pub cancel : Cancellation → Cancellation × Bool
cancel value = compare_exchange cancelled value

unfoldable pub finish : Cancellation → Cancellation × Bool
finish value = compare_exchange finished value
