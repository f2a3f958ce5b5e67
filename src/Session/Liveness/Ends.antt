-- ===== src/Session/Liveness/Ends.antt =====
-- When the watch ends, and with what.
use rust_plugin_sdk.Prelude.{
  ◌≡◌, ◌≢◌, ◌↔◌, ◌⊎◌, inl, inr, refl, Bool, true, false, none, some, List, [], ◌∷◌, ◌++◌, arith, ap,
  subst, sym, All, Option-cases,
}
use rust_plugin_sdk.Session.Liveness.Defs.{
  IoError, IoErrorKind, IoResult, fine, failed, Polled, idle, ready, poll_failed, ReadByte,
  end_of_file, one_byte, read_failed, Turn, turn_result, watch_descriptor,
}

-- The turns after which the loop goes on: nothing was ready, a byte came, or the call is to be retried.
abbrev pub IsQuiet : Turn → Type 0
IsQuiet t =
    (t.stopped ≡ false)
    × ((t.polled ≡ idle)
        ⊎ ((e : IoError) × (t.polled ≡ poll_failed e) × (e.kind ≡ IoErrorKind.interrupted))
        ⊎ ((t.polled ≡ ready)
            × (t.stopped_later ≡ false)
            × ((t.read ≡ one_byte)
                ⊎ ((e : IoError) × (t.read ≡ read_failed e) × (e.kind ≢ IoErrorKind.other)))))

-- The turns that end it well: the flag was seen, or the pipe was closed.
abbrev pub EndsWell : Turn → Type 0
EndsWell t =
    (t.stopped ≡ true) ⊎ ((t.polled ≡ ready) × ((t.stopped_later ≡ true) ⊎ (t.read ≡ end_of_file)))

-- The turns that end it with an error, which no flag was seen before.
abbrev pub Fails : Turn → IoError → Type 0
Fails t e =
    (t.stopped ≡ false)
    × (((t.polled ≡ poll_failed e) × (e.kind ≢ IoErrorKind.interrupted))
        ⊎ ((t.polled ≡ ready)
            × (t.stopped_later ≡ false)
            × (t.read ≡ read_failed e)
            × (e.kind ≡ IoErrorKind.other)))

abbrev pub EndsWith : Turn → IoResult → Type 0
EndsWith t fine = EndsWell t
EndsWith t (failed e) = Fails t e

abbrev turn : Bool → Polled → Bool → ReadByte → Turn
turn stopped polled later read = record {
  stopped = stopped;
  polled = polled;
  stopped_later = later;
  read = read;
}

IsQuiet-fields :
    (stopped : Bool) (polled : Polled) (later : Bool) (read : ReadByte)
    → turn_result (turn stopped polled later read) ≡ none
    → IsQuiet (turn stopped polled later read)
IsQuiet-fields true polled later read h = ground (arith, h)
IsQuiet-fields false idle later read h = (refl, inl refl)
IsQuiet-fields false (poll_failed e) later read h = (refl, inr (inl (e, refl, ground (arith, h))))
IsQuiet-fields false ready true read h = ground (arith, h)
IsQuiet-fields false ready false end_of_file h = ground (arith, h)
IsQuiet-fields false ready false one_byte h = (refl, inr (inr (refl, refl, inl refl)))
IsQuiet-fields false ready false (read_failed e) h =
    (refl, inr (inr (refl, refl, inr (e, refl, ground (arith, h)))))

turn-IsQuiet : (t : Turn) → turn_result t ≡ none → IsQuiet t
turn-IsQuiet t h = IsQuiet-fields t.stopped t.polled t.stopped_later t.read h

turn_ends : (t : Turn) (r : IoResult) → turn_result t ≡ some r → EndsWith t r
turn_ends t fine h = ground (arith, h)
turn_ends t (failed e) h = ground (arith, h)

quiet_turn : (t : Turn) → IsQuiet t → turn_result t ≡ none
quiet_turn t h = ground arith

ending_turn : (t : Turn) (r : IoResult) → EndsWith t r → turn_result t ≡ some r
ending_turn t fine h = ground arith
ending_turn t (failed e) h = ground arith

-- The watch ended in one of its turns, after quiet ones.
abbrev pub EndsIn : List Turn → IoResult → Type 0
EndsIn ts r =
    (before : List Turn) × (t : Turn) × (after : List Turn) × (ts ≡ before ++ t ∷ after)
    × All IsQuiet before
    × EndsWith t r

found : (ts : List Turn) (r : IoResult) → watch_descriptor ts ≡ some r → EndsIn ts r
unfolding watch_descriptor
found [] r h = ground (arith, h)
found (t ∷ ts) r h = elim (Option-cases (turn_result t)) [
  | inl quiet ↦
      let (before, u, after, e, q, w) = found ts r (ground (arith, h, quiet)) in
      (t ∷ before, u, after, ap (◌∷◌ t) e, (turn-IsQuiet t quiet, q), w)
  | inr (x, ends) ↦ ([], t, ts, refl, tt, turn_ends t r (ground (arith, h, ends)))
]

ends_after :
    (before : List Turn) (t : Turn) (after : List Turn) (r : IoResult)
    → All IsQuiet before
    → EndsWith t r
    → watch_descriptor (before ++ t ∷ after) ≡ some r
unfolding watch_descriptor
ends_after [] t after r q w = rw (ending_turn t r w) refl
ends_after (b ∷ before) t after r q w = rw (quiet_turn b q.0) (ends_after before t after r q.1 w)

-- The watch on the descriptor ends exactly in the first turn that is not quiet: well if that turn saw
-- the stop flag or the end of the pipe, and with an error if a call failed in it that is not to be
-- retried.
pub watch_descriptor_iff :
    (ts : List Turn) (r : IoResult) → (watch_descriptor ts ≡ some r) ↔ EndsIn ts r
watch_descriptor_iff ts r = (
  found ts r,
  λ (before, t, after, e, q, w).
      subst (λ x. watch_descriptor x ≡ some r) (sym e) (ends_after before t after r q w),
)

-- Once the flag is set at the top of a turn, the watch ends by that turn, whatever came before it and
-- whatever the system answers.
pub stop_ends_watch :
    (before : List Turn) (t : Turn) (after : List Turn)
    → t.stopped ≡ true
    → (r : IoResult) × (watch_descriptor (before ++ t ∷ after) ≡ some r)
unfolding watch_descriptor
stop_ends_watch [] t after h = (fine, ground arith)
stop_ends_watch (b ∷ before) t after h = elim (Option-cases (turn_result b)) [
  | inl quiet ↦ rw quiet (stop_ends_watch before t after h)
  | inr (x, ends) ↦ rw ends (x, refl)
]

-- The flag, once set, stays set; `last` is its value when the loop is over.
abbrev pub IsSticky : List Turn → Bool → Type 0
IsSticky ts last = All (λ t. ((t.stopped ≡ true) ⊎ (t.stopped_later ≡ true)) → last ≡ true) ts

pub sticky_of :
    (before : List Turn) (t : Turn) (after : List Turn) (last : Bool)
    → IsSticky (before ++ t ∷ after) last
    → ((t.stopped ≡ true) ⊎ (t.stopped_later ≡ true))
    → last ≡ true
sticky_of [] t after last h = h.0
sticky_of (b ∷ before) t after last h = sticky_of before t after last h.1
