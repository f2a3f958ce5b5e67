-- ===== src/Cancellation/Wakeup.antt =====
-- No wake-up is lost: registering before the test leaves no gap in which a notification is missed.
use rust_plugin_sdk.Prelude.{
  ℕ, ◌≡◌, ◌≢◌, refl, subst, ◌⊎◌, inl, inr, true, false, arith, ◌==◌, nat_eq, Bool-cases,
}
use rust_plugin_sdk.Cancellation.Defs.{Cancellation, active, cancel, finish}
use rust_plugin_sdk.Cancellation.Requests.{Request, step}
use rust_plugin_sdk.Cancellation.Waiting.{
  Notify, Waiting, Phase, Step, enables, returns, parks, wakes, settles, notifies, Reach, here,
  next, initial, at,
}

abbrev Listening : Phase → Type 0
Listening p = (p ≡ Phase.registered) ⊎ (p ≡ Phase.parked)

settled_value :
    (r : Request) (value v : Cancellation)
    → step r value ≡ (v, true)
    → (value ≡ active) × (v ≢ active)
unfolding cancel finish
settled_value Request.cancels value v e = ground arith
settled_value Request.finishes value v e = ground arith

at_same : (phases : ℕ → Phase) (i j : ℕ) (p : Phase) → j == i ≡ true → at phases i p j ≡ p
at_same phases i j p e = rw e

same : (i : ℕ) → i == i ≡ true
same i = ground arith

module _ (N : Notify) where
  open N use {
    State, enabled, completed, enable, notify_waiters, enabled-enable, enabled-enable_other,
    completed-enable_other, enabled-notify, completed-notify,
  }

  record Inv (s : Waiting N) : Type 0 where
    -- who is about to test, or waits, is registered
    listens : (i : ℕ) → Listening (s.phases i) → enabled s.notify i ≡ true
    quiet : s.value ≡ active → s.owed ≡ false
    -- once the action has ended and the notification is out, who waits can go on
    awake :
        s.value ≢ active
        → s.owed ≡ false
        → (i : ℕ) → s.phases i ≡ Phase.parked
        → completed s.notify i ≡ true

  initial-Inv : (n : State) → Inv (initial N n)
  initial-Inv n = record {
    listens = λ i h. ground arith;
    quiet = λ e. refl;
    awake = λ h e i p. ground arith;
  }

  enables-Inv :
      (s : Waiting N) (i : ℕ)
      → s.phases i ≡ Phase.starting
      → Inv s
      → Inv (record s { notify = enable s.notify i; phases = at s.phases i Phase.registered })
  enables-Inv s i e v = record {
    listens = λ j h. elim (Bool-cases (j == i)) [
      | inl same ↦ enabled-enable s.notify i j (ground arith)
      | inr other ↦ enabled-enable_other s.notify i j (v.listens j (ground arith))
    ];
    quiet = v.quiet;
    awake = λ ended out j p. elim (Bool-cases (j == i)) [
      | inl same ↦ ground arith
      | inr other ↦
          completed-enable_other s.notify i j (ground arith) (v.awake ended out j (ground arith))
    ];
  }

  -- A step that moves one waiter to a phase where it listens only if it did.
  moves-Inv :
      (s : Waiting N) (i : ℕ) (p : Phase)
      → (Listening p → Listening (s.phases i))
      → (p ≡ Phase.parked → s.value ≡ active)
      → Inv s
      → Inv (record s { phases = at s.phases i p })
  moves-Inv s i p l k v = record {
    listens = λ j h. elim (Bool-cases (j == i)) [
      | inl same ↦
          let e : j ≡ i = ground arith in
          rw e (v.listens i (l (subst Listening (at_same s.phases i j p same) h)))
      | inr other ↦ v.listens j (ground arith)
    ];
    quiet = v.quiet;
    awake = λ ended out j q. elim (Bool-cases (j == i)) [
      | inl same ↦ absurd (ended (k (ground arith)))
      | inr other ↦ v.awake ended out j (ground arith)
    ];
  }

  notifies-Inv :
      (s : Waiting N) → Inv s → Inv (record s { owed = false; notify = notify_waiters s.notify })
  notifies-Inv s v = record {
    listens = λ i h. enabled-notify s.notify i (v.listens i h);
    quiet = λ e. refl;
    awake = λ ended out i p. completed-notify s.notify i (v.listens i (inr p));
  }

  settles-Inv :
      (s : Waiting N) (v : Cancellation)
      → v ≢ active
      → Inv s
      → Inv (record s { value = v; owed = true })
  settles-Inv s v h w = record {
    listens = w.listens;
    quiet = λ e. absurd (h e);
    awake = λ ended out. ground arith;
  }

  Step-Inv : {s t : Waiting N} → Step N s t → Inv s → Inv t
  Step-Inv {s} (enables i e) v = enables-Inv s i e v
  Step-Inv {s} (returns i e ended) v =
      moves-Inv s i Phase.returned (λ h. ground arith) (λ h. ground arith) v
  Step-Inv {s} (parks i e going) v = moves-Inv s i Phase.parked (λ h. inl e) (λ h. going) v
  Step-Inv {s} (wakes i e complete) v =
      moves-Inv s i Phase.starting (λ h. ground arith) (λ h. ground arith) v
  Step-Inv {s} (settles r value e) v = settles-Inv s value (settled_value r s.value value e).1 v
  Step-Inv {s} (notifies e) v = notifies-Inv s v

  Reach-Inv : {s t : Waiting N} → Inv s → Reach N s t → Inv t
  Reach-Inv v here = v
  Reach-Inv v (next r step) = Step-Inv step (Reach-Inv v r)

  -- In every interleaving of waiters and controller: once the action is cancelled or finished and its
  -- notification is out, the future of every parked waiter is complete.
  pub no_lost_wakeup :
      (n : State) (s : Waiting N) (i : ℕ)
      → Reach N (initial N n) s
      → s.value ≢ active
      → s.owed ≡ false
      → s.phases i ≡ Phase.parked
      → completed s.notify i ≡ true
  no_lost_wakeup n s i r ended out p = (Reach-Inv (initial-Inv n) r).awake ended out i p

  abbrev Returns : Waiting N → ℕ → Type 0
  Returns s i = (t : Waiting N) × Reach N s t × (t.phases i ≡ Phase.returned)

  module _ (start : Waiting N) (i : ℕ) where
    from_registered :
        (s : Waiting N)
        → Reach N start s
        → s.value ≢ active
        → s.phases i ≡ Phase.registered
        → Returns start i
    from_registered s r ended p = (
      record s { phases = at s.phases i Phase.returned },
      next r (returns i p ended),
      at_same s.phases i i Phase.returned (same i),
    )

    from_starting :
        (s : Waiting N)
        → Reach N start s
        → s.value ≢ active
        → s.phases i ≡ Phase.starting
        → Returns start i
    from_starting s r ended p =
        from_registered
          (record s { notify = enable s.notify i; phases = at s.phases i Phase.registered })
          (next r (enables i p)) ended (at_same s.phases i i Phase.registered (same i))

    from_parked :
        (s : Waiting N)
        → Reach N start s
        → s.value ≢ active
        → s.phases i ≡ Phase.parked
        → completed s.notify i ≡ true
        → Returns start i
    from_parked s r ended p complete =
        from_starting (record s { phases = at s.phases i Phase.starting })
          (next r (wakes i p complete)) ended (at_same s.phases i i Phase.starting (same i))

    from_any :
        (p : Phase) (s : Waiting N)
        → Reach N start s
        → s.value ≢ active
        → (s.phases i ≡ Phase.parked → completed s.notify i ≡ true)
        → s.phases i ≡ p
        → Returns start i
    from_any Phase.starting s r ended complete e = from_starting s r ended e
    from_any Phase.registered s r ended complete e = from_registered s r ended e
    from_any Phase.parked s r ended complete e = from_parked s r ended e (complete e)
    from_any Phase.returned s r ended complete e = (s, r, e)

  -- Nobody waits forever: from every reachable state in which the action has ended and the
  -- notification is out, each waiter can run on its own until it returns.
  pub waiter_returns :
      (n : State) (s : Waiting N) (i : ℕ)
      → Reach N (initial N n) s
      → s.value ≢ active
      → s.owed ≡ false
      → (t : Waiting N) × Reach N s t × (t.phases i ≡ Phase.returned)
  waiter_returns n s i r ended out =
      from_any s i (s.phases i) s here ended (no_lost_wakeup n s i r ended out) refl
