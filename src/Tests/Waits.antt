-- ===== src/Tests/Waits.antt =====
-- The cancellation's theorems at one waiter, with a notification that keeps two tables.
use rust_plugin_sdk.Prelude.{
  ℕ, ◌≡◌, ◌≢◌, refl, Bool, true, false, ◌||◌, [], ◌∷◌, arith, ◌==◌, nat_eq, if◌then◌else◌,
}
use rust_plugin_sdk.Cancellation.{active, cancelled, cancel, new_cancellation}
use rust_plugin_sdk.Cancellation.Requests.{Request, run, outcome, first_request_wins}
use rust_plugin_sdk.Cancellation.Waiting.{
  Notify, Phase, at, Waiting, Reach, initial, here, next, enables, parks, settles, notifies,
}
use rust_plugin_sdk.Cancellation.Wakeup.{no_lost_wakeup, waiter_returns}

record Tables : Type 0 where
  enabled : ℕ → Bool
  completed : ℕ → Bool

abbrev enable_table : Tables → ℕ → Tables
enable_table s i = record {
  enabled = λ j. if j == i then true else s.enabled j;
  completed = λ j. if j == i then false else s.completed j;
}

abbrev notify_table : Tables → Tables
notify_table s = record s { completed = λ j. s.enabled j || s.completed j }

enabled_table : (s : Tables) (i j : ℕ) → i ≡ j → (enable_table s i).enabled j ≡ true
enabled_table s i j e = ground arith

enabled_table_other :
    (s : Tables) (i j : ℕ) → s.enabled j ≡ true → (enable_table s i).enabled j ≡ true
enabled_table_other s i j e = ground arith

completed_table_other :
    (s : Tables) (i j : ℕ) → i ≢ j → s.completed j ≡ true → (enable_table s i).completed j ≡ true
completed_table_other s i j ne e = ground arith

completed_table : (s : Tables) (i : ℕ) → s.enabled i ≡ true → (notify_table s).completed i ≡ true
completed_table s i e = ground arith

abbrev table_notify : Notify
table_notify = record {
  State = Tables;
  enabled = λ s. s.enabled;
  completed = λ s. s.completed;
  enable = enable_table;
  notify_waiters = notify_table;
  enabled-enable = enabled_table;
  enabled-enable_other = enabled_table_other;
  completed-enable_other = completed_table_other;
  enabled-notify = λ s i e. e;
  completed-notify = completed_table;
}

abbrev blank : Tables
blank = record { enabled = λ i. false; completed = λ i. false }

abbrev before : Waiting table_notify
before = initial table_notify blank

-- Waiter 0 parks, then the action is cancelled and the notification goes out.
abbrev parked : Waiting table_notify
parked = record {
  value = active;
  owed = false;
  notify = enable_table blank 0;
  phases = at (at (λ i. Phase.starting) 0 Phase.registered) 0 Phase.parked;
}

parked_reached : Reach table_notify before parked
parked_reached = next (next here (enables 0 refl)) (parks 0 refl refl)

abbrev after : Waiting table_notify
after = record parked { value = cancelled; notify = notify_table parked.notify }

after_reached : Reach table_notify before after
unfolding cancel
after_reached = next (next parked_reached (settles Request.cancels cancelled refl)) (notifies refl)

ended : after.value ≢ active
ended = ground arith

no_lost_wakeup_example : after.notify.completed 0 ≡ true
no_lost_wakeup_example = no_lost_wakeup table_notify blank after 0 after_reached ended refl refl

waiter_returns_example :
    (t : Waiting table_notify) × Reach table_notify after t × (t.phases 0 ≡ Phase.returned)
waiter_returns_example = waiter_returns table_notify blank after 0 after_reached ended refl

first_request_wins_example :
    run new_cancellation (Request.finishes ∷ Request.cancels ∷ []) ≡ (outcome Request.finishes, 1)
first_request_wins_example = first_request_wins Request.finishes (Request.cancels ∷ [])
