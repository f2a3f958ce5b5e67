-- ===== src/Cancellation/Waiting.antt =====
-- `Cancellation::cancelled` as a machine: each waiting future takes the steps of the loop body, between
-- those of the controller. `tokio::sync::Notify` is a parameter with its documented behaviour.
use rust_plugin_sdk.Prelude.{ℕ, ◌≡◌, ◌≢◌, Bool, true, false, ◌==◌, nat_eq, if◌then◌else◌}
use rust_plugin_sdk.Cancellation.Defs.{Cancellation, active}
use rust_plugin_sdk.Cancellation.Requests.{Request, step}

-- A future of one waiter is registered by `enable`, and `notify_waiters` completes those that are.
pub record Notify : Type 1 where
  pub State : Type 0
  pub enabled : State → ℕ → Bool
  pub completed : State → ℕ → Bool
  pub enable : State → ℕ → State
  pub notify_waiters : State → State
  pub enabled-enable : (s : State) (i j : ℕ) → i ≡ j → enabled (enable s i) j ≡ true
  pub enabled-enable_other :
      (s : State) (i j : ℕ) → enabled s j ≡ true → enabled (enable s i) j ≡ true
  pub completed-enable_other :
      (s : State) (i j : ℕ) → i ≢ j → completed s j ≡ true → completed (enable s i) j ≡ true
  pub enabled-notify :
      (s : State) (i : ℕ) → enabled s i ≡ true → enabled (notify_waiters s) i ≡ true
  pub completed-notify :
      (s : State) (i : ℕ) → enabled s i ≡ true → completed (notify_waiters s) i ≡ true

-- Where a waiter stands: before `enable`, between `enable` and the test, awaiting the notification, or
-- returned.
pub data Phase : Type 0 where
  starting registered parked returned : Phase

abbrev pub at : (ℕ → Phase) → ℕ → Phase → ℕ → Phase
at phases i p j = if j == i then p else phases j

module _ (N : Notify) where
  open N use {State, enabled, completed, enable, notify_waiters}

  -- `owed` tells that a compare-exchange has succeeded and its `notify_waiters` is still to come.
  pub record Waiting : Type 0 where
    pub value : Cancellation
    pub owed : Bool
    pub notify : State
    pub phases : ℕ → Phase

  pub data Step (s : Waiting) : Waiting → Type 0 where
    -- the waiter `i` makes its future and registers it
    enables :
        (i : ℕ)
        → s.phases i ≡ Phase.starting
        → Step s (record s { notify = enable s.notify i; phases = at s.phases i Phase.registered })
    -- it loads the value, and returns or awaits
    returns :
        (i : ℕ)
        → s.phases i ≡ Phase.registered
        → s.value ≢ active
        → Step s (record s { phases = at s.phases i Phase.returned })
    parks :
        (i : ℕ)
        → s.phases i ≡ Phase.registered
        → s.value ≡ active
        → Step s (record s { phases = at s.phases i Phase.parked })
    -- its future is complete, and the loop starts again
    wakes :
        (i : ℕ)
        → s.phases i ≡ Phase.parked
        → completed s.notify i ≡ true
        → Step s (record s { phases = at s.phases i Phase.starting })
    -- the controller cancels or finishes, then notifies
    settles :
        (r : Request) (v : Cancellation)
        → step r s.value ≡ (v, true)
        → Step s (record s { value = v; owed = true })
    notifies : s.owed ≡ true → Step s (record s { owed = false; notify = notify_waiters s.notify })

  pub data Reach (s : Waiting) : Waiting → Type 0 where
    here : Reach s s
    next : {t u : Waiting} → Reach s t → Step t u → Reach s u

  -- An action that has just started, with no future made.
  abbrev pub initial : State → Waiting
  initial n = record { value = active; owed = false; notify = n; phases = λ _. Phase.starting }
