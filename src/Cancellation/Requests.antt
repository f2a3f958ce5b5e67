-- ===== src/Cancellation/Requests.antt =====
-- Any sequence of cancellations and ends of one action: the first decides.
use rust_plugin_sdk.Prelude.{
  ℕ, ◌+◌, ◌≡◌, ◌≢◌, refl, Bool, true, false, List, [], ◌∷◌, arith, if◌then◌else◌,
}
use rust_plugin_sdk.Error.{is_ok}
use rust_plugin_sdk.Cancellation.Defs.{
  Cancellation, active, cancelled, finished, is_cancelled, ensure_active, new_cancellation, cancel,
  finish,
}

-- The calls of `cancel` by the session, and of `finish` by the guard of the action's task.
pub data Request : Type 0 where
  cancels finishes : Request

abbrev pub outcome : Request → Cancellation
outcome Request.cancels = cancelled
outcome Request.finishes = finished

abbrev pub step : Request → Cancellation → Cancellation × Bool
step Request.cancels value = cancel value
step Request.finishes value = finish value

-- The state at the end, and how many of the calls notified the waiters.
unfoldable pub run : Cancellation → List Request → Cancellation × ℕ
unfolding cancel finish
run value [] = (value, 0)
run value (r ∷ rs) =
    let (value', notified) = step r value in
    let (end, n) = run value' rs in (end, (if notified then 1 else 0) + n)

run_settled :
    (value : Cancellation) (rs : List Request) → value ≢ active → run value rs ≡ (value, 0)
unfolding run
run_settled value [] h = refl
run_settled value (Request.cancels ∷ rs) h = ground (arith, run_settled value rs h)
run_settled value (Request.finishes ∷ rs) h = ground (arith, run_settled value rs h)

-- Of any sequence of cancellations and ends of a new action, the first call decides its state for
-- good and is the only one that notifies the waiters.
pub first_request_wins :
    (r : Request) (rs : List Request) → run new_cancellation (r ∷ rs) ≡ (outcome r, 1)
unfolding run
first_request_wins Request.cancels rs = ground (arith, run_settled cancelled rs (omega arith))
first_request_wins Request.finishes rs = ground (arith, run_settled finished rs (omega arith))

abbrev pub none_yet : List Request → Bool
none_yet [] = true
none_yet (r ∷ rs) = false

abbrev pub begins_cancelled : List Request → Bool
begins_cancelled (Request.cancels ∷ rs) = true
begins_cancelled _ = false

-- In any sequence of cancellations and ends of a new action, work may be emitted exactly until the
-- first call, and the action sees that it was cancelled exactly if that call was a cancellation.
pub observers-run :
    (rs : List Request)
    → (is_ok (ensure_active (run new_cancellation rs).0) ≡ none_yet rs)
      × (is_cancelled (run new_cancellation rs).0 ≡ begins_cancelled rs)
unfolding run ensure_active is_cancelled
observers-run [] = (refl, refl)
observers-run (Request.cancels ∷ rs) = ground (arith, first_request_wins Request.cancels rs)
observers-run (Request.finishes ∷ rs) = ground (arith, first_request_wins Request.finishes rs)
