-- ===== src/Session/Jobs/Polling.antt =====
-- What `run_action` comes to, in the polls that the runtime makes of its future.
use Prim.Native.String.{◌++◌ as concat}
use rust_plugin_sdk.Prelude.{
  ℕ, zero, suc, ◌+◌, ◌<◌, String, ◌≡◌, ◌↔◌, refl, ap, sym, ◌∙◌, subst, some, List, arith,
}
use rust_plugin_sdk.Error.{SdkError}
use rust_plugin_sdk.Plugin.{
  PanicPayload, Output, Poll, Handled, RegisteredAction, text, other, failed,
}
use rust_plugin_sdk.Session.Jobs.Errors.{poll_until, poll_guarded, run_action, action_panic}

-- A panic is a failure that tells its text, if it has one.
abbrev pub Panics : PanicPayload → Output → Type 0
Panics (text message) output =
    output ≡ failed (SdkError.action (concat "action task panicked: " message))
Panics other output =
    output ≡ failed (SdkError.action "action task panicked: non-string panic payload")

abbrev pub EndsIn : Poll → Output → Type 0
EndsIn Poll.pending output = ⊥
EndsIn (Poll.ready given) output = output ≡ given
EndsIn (Poll.panics payload) output = Panics payload output

-- One of the polls from `n` on, fewer than `polls` of them, ends it after pending ones.
abbrev pub EndsAfter : ℕ → ℕ → (ℕ → Poll) → Output → Type 0
EndsAfter polls n poll output =
    (k : ℕ) × (k < polls)
    × ((i : ℕ) → i < k → poll (n + i) ≡ Poll.pending)
    × EndsIn (poll (n + k)) output

-- The call of the handler has panicked, or its future ends.
abbrev pub Answers : ℕ → Handled → Output → Type 0
Answers polls (Handled.panics payload) output = Panics payload output
Answers polls (Handled.future poll) output = EndsAfter polls 0 poll output

panic_iff :
    (payload : PanicPayload) (output : Output)
    → (some (failed (action_panic payload)) ≡ some output) ↔ Panics payload output
unfolding action_panic
panic_iff (text message) output = (λ h. ground (arith, h), λ h. ap some (sym h))
panic_iff other output = (λ h. ground (arith, h), λ h. ap some (sym h))

guarded_iff :
    (poll : Poll) (output : Output) → (poll_guarded poll ≡ some output) ↔ EndsIn poll output
guarded_iff Poll.pending output = (λ h. ground (arith, h), λ h. absurd h)
guarded_iff (Poll.ready given) output = (λ h. ground (arith, h), λ h. ap some (sym h))
guarded_iff (Poll.panics payload) output = panic_iff payload output

polls_on :
    (polls n : ℕ) (poll : ℕ → Poll)
    → poll n ≡ Poll.pending
    → poll_until (suc polls) n poll ≡ poll_until polls (n + 1) poll
unfolding poll_until
polls_on polls n poll e = rw (e, poll_until) refl

polls_end :
    (polls n : ℕ) (poll : ℕ → Poll) (output : Output)
    → poll_guarded (poll n) ≡ some output
    → poll_until (suc polls) n poll ≡ some output
unfolding poll_until
polls_end polls n poll output e = rw (e, poll_until) refl

at_start : (n : ℕ) → n + 0 ≡ n
at_start n = omega arith

onward : (n i : ℕ) → n + 1 + i ≡ n + suc i
onward n i = omega arith

one_later :
    (polls n : ℕ) (poll : ℕ → Poll) (output : Output)
    → poll n ≡ Poll.pending
    → EndsAfter polls (n + 1) poll output
    → EndsAfter (suc polls) n poll output
one_later polls n poll output e (k, lt, idle, ends) =
    (suc k, omega (arith, lt), idles, subst (λ x. EndsIn (poll x) output) (onward n k) ends)
  where
    idles : (i : ℕ) → i < suc k → poll (n + i) ≡ Poll.pending
    idles zero h = ap poll (at_start n) ∙ e
    idles (suc i) h = ap poll (sym (onward n i)) ∙ idle i (omega (arith, h))

ends_now :
    (polls n : ℕ) (poll : ℕ → Poll) (output : Output)
    → poll_guarded (poll n) ≡ some output
    → EndsAfter (suc polls) n poll output
ends_now polls n poll output ends = (
  0,
  omega arith,
  λ i lt. absurd (ground (arith, lt)),
  subst (λ x. EndsIn (poll x) output) (sym (at_start n)) ((guarded_iff (poll n) output).0 ends),
)

-- The output that one more poll gives, by what that poll does.
polled :
    (polls n : ℕ) (poll : ℕ → Poll) (output : Output) (p : Poll)
    → poll n ≡ p
    → (poll_until polls (n + 1) poll ≡ some output → EndsAfter polls (n + 1) poll output)
    → poll_until (suc polls) n poll ≡ some output
    → EndsAfter (suc polls) n poll output
polled polls n poll output Poll.pending e later h =
    one_later polls n poll output e (later (sym (polls_on polls n poll e) ∙ h))
polled polls n poll output (Poll.ready given) e later h =
    let guarded = ap poll_guarded e in
    ends_now polls n poll output (guarded ∙ (sym (polls_end polls n poll given guarded) ∙ h))
polled polls n poll output (Poll.panics payload) e later h =
    let guarded = ap poll_guarded e in
    ends_now polls n poll output
      (guarded ∙ (sym (polls_end polls n poll (failed (action_panic payload)) guarded) ∙ h))

polls_sound :
    (polls n : ℕ) (poll : ℕ → Poll) (output : Output)
    → poll_until polls n poll ≡ some output
    → EndsAfter polls n poll output
unfolding poll_until
polls_sound zero n poll output h = ground (arith, h)
polls_sound (suc polls) n poll output h =
    polled polls n poll output (poll n) refl (polls_sound polls (n + 1) poll output) h

polls_complete :
    (polls n k : ℕ) (poll : ℕ → Poll) (output : Output)
    → k < polls
    → ((i : ℕ) → i < k → poll (n + i) ≡ Poll.pending)
    → EndsIn (poll (n + k)) output
    → poll_until polls n poll ≡ some output
polls_complete zero n k poll output lt idle ends = elim lt [ ]
polls_complete (suc polls) n zero poll output lt idle ends =
    polls_end polls n poll output
      ((guarded_iff (poll n) output).1 (subst (λ x. EndsIn (poll x) output) (at_start n) ends))
polls_complete (suc polls) n (suc k) poll output lt idle ends =
    polls_on polls n poll (sym (ap poll (at_start n)) ∙ idle 0 (omega arith))
    ∙ polls_complete polls (n + 1) k poll output (omega (arith, lt))
        (λ i h. ap poll (onward n i) ∙ idle (suc i) (omega (arith, h)))
        (subst (λ x. EndsIn (poll x) output) (sym (onward n k)) ends)

handled_iff :
    (polls : ℕ) (h : Handled) (arguments : List String) (action : RegisteredAction)
    (output : Output)
    → action.handler arguments ≡ h
    → (run_action polls action arguments ≡ some output) ↔ Answers polls h output
unfolding run_action
handled_iff polls (Handled.panics payload) arguments action output e =
    rw e (panic_iff payload output)
handled_iff polls (Handled.future poll) arguments action output e = rw e (
  polls_sound polls 0 poll output,
  λ (k, lt, idle, ends). polls_complete polls 0 k poll output lt idle ends,
)

-- A task's action comes to an output within a number of polls exactly if the call of its handler panics and
-- the output is that failure, or one of these polls of its future, after pending ones only, gives the
-- output or panics and the output is that failure.
pub run_action_iff :
    (polls : ℕ) (action : RegisteredAction) (arguments : List String) (output : Output)
    → (run_action polls action arguments ≡ some output)
      ↔ Answers polls (action.handler arguments) output
run_action_iff polls action arguments output =
    handled_iff polls (action.handler arguments) arguments action output refl
