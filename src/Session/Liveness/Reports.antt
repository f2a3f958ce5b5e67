-- ===== src/Session/Liveness/Reports.antt =====
-- What the wait for the parent tells the session.
use rust_plugin_sdk.Prelude.{
  ◌≡◌, ◌⊎◌, inl, inr, refl, Bool, true, false, some, List, ◌∷◌, ◌++◌, arith, subst, All,
  Option-cases,
}
use rust_plugin_sdk.Error.{SdkError, ok, err}
use rust_plugin_sdk.Session.Liveness.Defs.{
  IoError, IoResult, fine, failed, ready, end_of_file, Turn, watch_descriptor, Report, reported,
  dropped, watch_stdin, wait,
}
use rust_plugin_sdk.Session.Liveness.Ends.{
  IsQuiet, EndsIn, watch_descriptor_iff, IsSticky, sticky_of,
}

-- The pipe was closed, or a call failed, in the first turn that is not quiet.
abbrev pub ClosesIn : List Turn → Type 0
ClosesIn ts =
    (before : List Turn) × (t : Turn) × (after : List Turn) × (ts ≡ before ++ t ∷ after)
    × All IsQuiet before
    × (t.polled ≡ ready)
    × (t.read ≡ end_of_file)

abbrev pub BreaksIn : List Turn → IoError → Type 0
BreaksIn ts e = EndsIn ts (failed e)

abbrev pub Outcome : List Turn → Bool → Report → Type 0
Outcome ts stopped r =
    ((stopped ≡ true) × (r ≡ dropped))
    ⊎ ((stopped ≡ false) × ClosesIn ts × (wait r ≡ ok tt))
    ⊎ ((stopped ≡ false)
        × ((e : IoError) × BreaksIn ts e
            × (wait r ≡ err (SdkError.runtime "watch parent-liveness pipe" e.text))))

closes : (ts : List Turn) → IsSticky ts false → EndsIn ts fine → ClosesIn ts
closes ts sticky (before, t, after, e, q, w) =
    let once = sticky_of before t after false (subst (λ x. IsSticky x false) e sticky) in
    (before, t, after, e, q, ground (arith, w, once), ground (arith, w, once))

judged :
    (ts : List Turn) (r : IoResult)
    → IsSticky ts false
    → EndsIn ts r
    → Outcome ts false (reported r)
unfolding wait
judged ts fine sticky ends = inr (inl (refl, closes ts sticky ends, refl))
judged ts (failed e) sticky ends = inr (inr (refl, (e, ends, refl)))

-- When the watcher ends, the flag was set and its report is dropped; or the flag was never set, and then
-- the wait returns well because the pipe was closed, or fails with the error of the call that failed.
pub watch_stdin-Outcome :
    (ts : List Turn) (stopped : Bool) (r : Report)
    → IsSticky ts stopped
    → watch_stdin ts stopped ≡ some r
    → Outcome ts stopped r
unfolding watch_stdin
watch_stdin-Outcome ts true r sticky h = elim (Option-cases (watch_descriptor ts)) [
  | inl waits ↦ ground (arith, h, waits)
  | inr (x, ends) ↦ inl (refl, ground (arith, h, ends))
]
watch_stdin-Outcome ts false r sticky h = elim (Option-cases (watch_descriptor ts)) [
  | inl waits ↦ ground (arith, h, waits)
  | inr (x, ends) ↦
      let same : reported x ≡ r = ground (arith, h, ends) in
      subst (Outcome ts false) same (judged ts x sticky ((watch_descriptor_iff ts x).0 ends))
]
