-- ===== src/Host/Log/Logged.antt =====
-- What a log call does.
use rust_plugin_sdk.Prelude.{
  ◌≤◌, ◌≡◌, ◌≢◌, ◌⊎◌, inl, inr, refl, String, Bool, none, some, not, List, [], ◌∷◌, ◌++◌, arith,
  All, Bool-cases, true, false, string_eq, ℕ, ◌==◌, nat_eq,
}
use rust_plugin_sdk.Prelude.Text.{is_empty}
use rust_plugin_sdk.Protocol.{TraceContext, ConfigValue, LogLevel, log_level, Payload, Timestamp}
use rust_plugin_sdk.Error.{SdkError, Result, ok, err, panic, ensure}
use rust_plugin_sdk.Exec.{Exec, ◌>>=◌, ◌>>◌, pure, lift}
use rust_plugin_sdk.Value.{validate_serializable, validate}
use rust_plugin_sdk.Value.Domain.{valid_timestamp, IsTimestamp, valid_timestamp_iff}
use rust_plugin_sdk.Value.Shape.{height, Sound, validate_iff}
use rust_plugin_sdk.Value.Total.{Decides, validate_serializable-Decides}
use rust_plugin_sdk.Cancellation.{Cancellation, active, ensure_active}
use rust_plugin_sdk.Sender.{SessionSender}
use rust_plugin_sdk.Sender.Effect.{Message, message, transcript, Delivers}
use rust_plugin_sdk.Host.Client.{HostClient}
use rust_plugin_sdk.Host.Context.{ActionContext}
use rust_plugin_sdk.Host.Context.Calls.{live_active}
use rust_plugin_sdk.Host.Transfer.{select_send}
use rust_plugin_sdk.Host.Transfer.Selected.{select_send-Delivers}
use rust_plugin_sdk.Host.Log.Defs.{on_sender, system_timestamp, is_unspecified, check_fields, log}

-- A value that may leave the session: at most 33 containers deep, and without function handles.
abbrev pub IsStorable : ConfigValue → Type 0
IsStorable value = (height value ≤ 33) × Sound value none

fields-IsStorable :
    (fields : List (String × ConfigValue))
    → check_fields fields ≡ ok tt
    → All (λ f. IsStorable f.1) fields
unfolding check_fields validate_serializable
fields-IsStorable [] h = tt
fields-IsStorable ((key, value) ∷ fields) h =
    let good : validate value 0 none ≡ ok tt = ground (arith, h) in
    let rest : check_fields fields ≡ ok tt = ground (arith, h) in
    let (shallow, whole) = (validate_iff value 0 none).0 good in
    ((omega (arith, shallow), whole), fields-IsStorable fields rest)

check_fields-Decides : (fields : List (String × ConfigValue)) → Decides (check_fields fields)
unfolding check_fields
check_fields-Decides [] m = ground arith
check_fields-Decides ((key, value) ∷ fields) m =
    ground (arith, validate_serializable-Decides value m, check_fields-Decides fields m)

-- Either all the facts hold and the message has gone out, or an error has come and nothing went out.
abbrev pub Outcome : Type 0 → Message → HostClient → Result (Unit {0}) × HostClient → Type 0
Outcome Facts m h (r, t) =
    ((r ≡ ok tt) × Facts × (transcript t.sender ≡ transcript h.sender ++ m ∷ []))
    ⊎ ((e : SdkError) × (r ≡ err e) × (transcript t.sender ≡ transcript h.sender))

module _ (m : Message) (h : HostClient) where
  -- A check before the send.
  check_first :
      {Facts : Type 0} {A : Type 0} (r : Result A) (rest : A → Exec HostClient (Unit {0}))
      → ((text : String) → ¬ (r ≡ panic text))
      → ((a : A) → r ≡ ok a → Outcome Facts m h (rest a h))
      → Outcome Facts m h ((lift r >>= rest) h)
  check_first (ok a) rest decides next = next a refl
  check_first (err e) rest decides next = inr (e, refl, refl)
  check_first (panic text) rest decides next = absurd (decides text refl)

  delivered :
      {Facts : Type 0} (q : Result ℕ × SessionSender)
      → Delivers h.sender m q
      → ((n : ℕ) → q.0 ≡ ok n → Facts)
      → Outcome Facts m h (((λ g. (q.0, record g { sender = q.1 })) >> pure tt) h)
  delivered (ok n, s) (inl (done, out)) facts = inl (refl, facts n refl, out)
  delivered (ok n, s) (inr (e, failed, out)) facts = ground (arith, failed)
  delivered (err x, s) (inl (done, out)) facts = ground (arith, done)
  delivered (err x, s) (inr (e, failed, out)) facts = inr (x, refl, out)
  delivered (panic text, s) (inl (done, out)) facts = ground (arith, done)
  delivered (panic text, s) (inr (e, failed, out)) facts = ground (arith, failed)

live_sent :
    (now : Cancellation) (polled : Bool) (trace : TraceContext) (payload : Payload)
    (s : SessionSender) (n : ℕ)
    → (select_send now polled none trace payload s).0 ≡ ok n
    → now ≡ active
unfolding select_send
live_sent now polled trace payload s n h = elim (Bool-cases (now == active)) [
  | inl live ↦ ground (arith, live)
  | inr over ↦ ground (arith, h, over)
]

-- What a log call asks for: a level, a target, fields that may leave the session, and a clock in the
-- range of a Timestamp.
abbrev pub IsLoggable : LogLevel → String → List (String × ConfigValue) → Timestamp → Type 0
IsLoggable level target fields clock =
    (level ≢ LogLevel.unspecified)
    × (target ≢ "")
    × All (λ f. IsStorable f.1) fields
    × IsTimestamp clock

abbrev pub log_payload :
    Timestamp → LogLevel → String → String → List (String × ConfigValue) → Payload
log_payload clock level target text fields = Payload.log (record {
  timestamp = some clock;
  level = log_level level;
  target = target;
  message = text;
  fields = fields;
})

abbrev pub log_message :
    TraceContext → Timestamp → LogLevel → String → String → List (String × ConfigValue) → Message
log_message trace clock level target text fields =
    message none trace (log_payload clock level target text fields)

ensure_active-Decides : (c : Cancellation) → Decides (ensure_active c)
unfolding ensure_active
ensure_active-Decides c m = ground arith

Decides-ensure : (b : Bool) (e : SdkError) → Decides (ensure b e)
Decides-ensure true e m = ground arith
Decides-ensure false e m = ground arith

system_timestamp-Decides : (clock : Timestamp) (m : String) → ¬ (system_timestamp clock ≡ panic m)
unfolding system_timestamp
system_timestamp-Decides clock m = ground arith

timestamp_valid :
    (clock timestamp : Timestamp)
    → system_timestamp clock ≡ ok timestamp
    → (timestamp ≡ clock) × IsTimestamp clock
unfolding system_timestamp
timestamp_valid clock timestamp h = elim (Bool-cases (valid_timestamp clock)) [
  | inl good ↦ (ground (arith, h, good), (valid_timestamp_iff clock).0 good)
  | inr bad ↦ ground (arith, h, bad)
]

specified :
    (level : LogLevel) (e : SdkError)
    → ensure (not (is_unspecified level)) e ≡ ok tt
    → level ≢ LogLevel.unspecified
specified level e h = ground (arith, h)

named : (target : String) (e : SdkError) → ensure (not (is_empty target)) e ≡ ok tt → target ≢ ""
named target e h = ground (arith, h, string_eq.beq_iff target "")

logged :
    {Facts : Type 0} (c : ActionContext) (ended : Cancellation) (polled : Bool)
    (clock timestamp : Timestamp) (level : LogLevel) (target text : String)
    (fields : List (String × ConfigValue)) (h : HostClient)
    → timestamp ≡ clock
    → (ended ≡ active → Facts)
    → Outcome Facts (log_message c.trace clock level target text fields) h (
        (on_sender (
              select_send ended polled none c.trace
                (log_payload timestamp level target text fields))
            >> pure tt)
          h)
logged c ended polled clock timestamp level target text fields h same facts = rw same (
    delivered (log_message c.trace clock level target text fields) h
      (select_send ended polled none c.trace (log_payload clock level target text fields) h.sender)
      (select_send-Delivers ended polled none c.trace _ h.sender)
      (λ n out. facts (live_sent ended polled c.trace _ h.sender n out)))

-- A log call either sends one record, with the clock's time, as the last message, which it does only
-- while the action is active and for a specified level, a named target, fields that may leave the
-- session and a time in the range of a Timestamp; or it returns an error and sends nothing. It never
-- panics.
pub log-Outcome :
    (c : ActionContext) (begun ended : Cancellation) (polled : Bool) (clock : Timestamp)
    (level : LogLevel) (target text : String) (fields : List (String × ConfigValue))
    (h : HostClient)
    → Outcome
        ((begun ≡ active) × (ended ≡ active) × IsLoggable level target fields clock)
        (log_message c.trace clock level target text fields)
        h
        (log c begun ended polled clock level target text fields h)
unfolding log
log-Outcome c begun ended polled clock level target text fields h =
    check_first m h (ensure_active begun) _ (ensure_active-Decides begun) λ _ live.
      check_first m h _ _ (Decides-ensure _ _) λ _ levelled.
        check_first m h _ _ (Decides-ensure _ _) λ _ targeted.
          check_first m h (check_fields fields) _ (check_fields-Decides fields) λ _ storable.
            check_first m h (system_timestamp clock) _ (system_timestamp-Decides clock)
              λ timestamp timed.
                let (same, valid) = timestamp_valid clock timestamp timed in
                logged c ended polled clock timestamp level target text fields h same λ still. (
                  live_active begun live,
                  still,
                  (
                    specified level _ levelled,
                    named target _ targeted,
                    fields-IsStorable fields storable,
                    valid,
                  ),
                )
  where
    m : Message
    m = log_message c.trace clock level target text fields
