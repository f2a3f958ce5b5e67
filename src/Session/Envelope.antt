-- ===== src/Session/Envelope.antt =====
-- `SessionState` and `validate_envelope`, against what an acceptable message is.
use rust_plugin_sdk.Prelude.{
  ℕ, ap, ◌⊎◌, ◌≤◌, ◌<◌, ◌≡◌, ◌≢◌, ◌↔◌, refl, ◌||◌, leb, Option, none, some, arith, ◌==◌, ◌!=◌,
  nat_eq, string_eq, Bool, Bool-cases, inl, inr, if◌then◌else◌,
}
use rust_plugin_sdk.Protocol.{TraceContext, PluginEnvelope}
use rust_plugin_sdk.Error
use rust_plugin_sdk.Error.{ok_or, SdkError, Result, ok, err, ensure}
use rust_plugin_sdk.Exec.{Exec, ◌>>=◌, ◌>>◌, pure, lift, modify}
use rust_plugin_sdk.Validation
use rust_plugin_sdk.Validation.{keep_if}
use rust_plugin_sdk.Session.Jobs.Frames.{Checks}
use rust_plugin_sdk.Sender.{SessionIdentity}

pub record SessionState : Type 0 where
  pub identity : SessionIdentity
  pub last_host_message_id : ℕ
  pub maximum_call_depth : ℕ
  pub maximum_causal_depth : ℕ

-- What is left once the number and the identity are good: the trace, then the new state.
abbrev pub note_trace : ℕ → Result TraceContext → Exec SessionState TraceContext
note_trace message_id r = do
  trace ← lift r
  modify (λ s. record s { last_host_message_id = message_id })
  pure trace

unfoldable pub validate_envelope : PluginEnvelope → Exec SessionState TraceContext
validate_envelope envelope s =
    if envelope.message_id == 0 || leb envelope.message_id s.last_host_message_id
    then (err (SdkError.protocol "host message IDs must be nonzero and strictly increasing"), s)
    else if envelope.session_id != s.identity.session_id
        || envelope.plugin_instance_id != s.identity.instance_id
    then (err (SdkError.protocol "host envelope belongs to another plugin instance"), s)
    else note_trace envelope.message_id
        (Validation.trace envelope s.maximum_call_depth s.maximum_causal_depth) s

-- A higher number than any before, this session's identity, and a trace with a correlation ID, within
-- the negotiated depths.
pub record IsNext (envelope : PluginEnvelope) (s : SessionState) (t : TraceContext) : Type 0 where
  pub newer : s.last_host_message_id < envelope.message_id
  pub session : envelope.session_id ≡ s.identity.session_id
  pub instance_id : envelope.plugin_instance_id ≡ s.identity.instance_id
  pub traced : envelope.trace ≡ some t
  pub correlated : t.correlation_id ≢ ""
  pub shallow : t.call_depth ≤ s.maximum_call_depth
  pub caused : t.causal_depth ≤ s.maximum_causal_depth

pub trace_sound :
    (envelope : PluginEnvelope) (calls causes : ℕ) (o : Option TraceContext) (t : TraceContext)
    → envelope.trace ≡ o
    → Validation.trace envelope calls causes ≡ ok t
    → (o ≡ some t) × (t.correlation_id ≢ "") × (t.call_depth ≤ calls) × (t.causal_depth ≤ causes)
unfolding Validation.trace
trace_sound envelope calls causes none t e h = ground (arith, e, h)
trace_sound envelope calls causes (some x) t e h =
    ground (arith, e, h, string_eq.beq_iff x.correlation_id "")

trace_complete :
    (envelope : PluginEnvelope) (calls causes : ℕ) (t : TraceContext)
    → envelope.trace ≡ some t
    → t.correlation_id ≢ ""
    → t.call_depth ≤ calls
    → t.causal_depth ≤ causes
    → Validation.trace envelope calls causes ≡ ok t
unfolding Validation.trace
trace_complete envelope calls causes t e named shallow caused =
    ground (arith, e, string_eq.beq_iff t.correlation_id "")

gate :
    (envelope : PluginEnvelope) (s : SessionState) (t : TraceContext)
    → (validate_envelope envelope s).0 ≡ ok t
    → (s.last_host_message_id < envelope.message_id)
      × (envelope.session_id ≡ s.identity.session_id)
      × (envelope.plugin_instance_id ≡ s.identity.instance_id)
      × (Validation.trace envelope s.maximum_call_depth s.maximum_causal_depth ≡ ok t)
unfolding validate_envelope
gate envelope s t h = ground (
  arith,
  string_eq.beq_iff envelope.session_id s.identity.session_id,
  string_eq.beq_iff envelope.plugin_instance_id s.identity.instance_id,
)

pub accept_sound :
    (envelope : PluginEnvelope) (s : SessionState) (t : TraceContext)
    → (validate_envelope envelope s).0 ≡ ok t
    → IsNext envelope s t
accept_sound envelope s t h =
    let (newer, same_session, same_instance, good) = gate envelope s t h in
    let (traced, correlated, shallow, caused) =
      trace_sound envelope s.maximum_call_depth s.maximum_causal_depth envelope.trace t refl good in
    record {
      newer = newer;
      session = same_session;
      instance_id = same_instance;
      traced = traced;
      correlated = correlated;
      shallow = shallow;
      caused = caused;
    }

pub accept_complete :
    (envelope : PluginEnvelope) (s : SessionState) (t : TraceContext)
    → IsNext envelope s t
    → validate_envelope envelope s ≡ (ok t, record s { last_host_message_id = envelope.message_id })
unfolding validate_envelope
accept_complete envelope s t n =
    let good =
      trace_complete envelope s.maximum_call_depth s.maximum_causal_depth t n.traced n.correlated
        n.shallow n.caused in
    ground (
      arith,
      n.newer,
      n.session,
      n.instance_id,
      good,
      string_eq.beq_iff envelope.session_id s.identity.session_id,
      string_eq.beq_iff envelope.plugin_instance_id s.identity.instance_id,
    )

checked :
    (o : Option TraceContext) (missing deep : SdkError) (exceeds : TraceContext → Bool)
    → Checks (Error.◌>>=◌ (ok_or o missing) (λ t. if exceeds t then err deep else ok t))
checked none missing deep exceeds = inr (missing, refl)
checked (some t) missing deep exceeds = elim (Bool-cases (exceeds t)) [
  | inl yes' ↦ inr (deep, rw yes')
  | inr no' ↦ inl (t, rw no')
]

pub trace-Checks :
    (envelope : PluginEnvelope) (calls causes : ℕ) → Checks (Validation.trace envelope calls causes)
unfolding Validation.trace
trace-Checks envelope calls causes = checked (keep_if _ envelope.trace) _ _ _

-- The verdict: the trace and the new state, or an error and the old one.
abbrev pub Verdict : SessionState → Result TraceContext × SessionState → Type 0
Verdict s r = ((t : TraceContext) × (r.0 ≡ ok t)) ⊎ ((e : SdkError) × (r ≡ (err e, s)))

noted :
    (id : ℕ) (r : Result TraceContext) (s : SessionState) → Checks r → Verdict s (note_trace id r s)
noted id r s (inl (t, e)) = rw e (inl (t, refl))
noted id r s (inr (x, e)) = rw e (inr (x, refl))

pub verdict :
    (envelope : PluginEnvelope) (s : SessionState) → Verdict s (validate_envelope envelope s)
unfolding validate_envelope
verdict envelope s =
    elim (Bool-cases (envelope.message_id == 0 || leb envelope.message_id s.last_host_message_id)) [
      | inl stale ↦ rw stale (inr (_, refl))
      | inr newer ↦
          elim (Bool-cases (
            envelope.session_id != s.identity.session_id
            || envelope.plugin_instance_id != s.identity.instance_id)) [
              | inl foreign ↦ rw (newer, foreign) (inr (_, refl))
              | inr own ↦
                  rw (newer, own) (noted envelope.message_id _ s (trace-Checks envelope _ _))
            ]
    ]

-- An envelope is accepted with a trace exactly if it is newer than every accepted one before, of this
-- session and instance, and correlated by that trace within the negotiated depths; its number is then
-- the last one. Any other envelope is refused with an error and changes nothing.
pub validate_envelope_iff :
    (envelope : PluginEnvelope) (s : SessionState)
    → ((t : TraceContext)
        → (validate_envelope envelope s
            ≡ (ok t, record s { last_host_message_id = envelope.message_id }))
          ↔ IsNext envelope s t)
      × (((t : TraceContext) → ¬ IsNext envelope s t)
          → (e : SdkError) × (validate_envelope envelope s ≡ (err e, s)))
validate_envelope_iff envelope s = (
  λ t. (λ h. accept_sound envelope s t (ap (λ r. r.0) h), accept_complete envelope s t),
  λ never. elim (verdict envelope s) [
    | inl (t, h) ↦ absurd (never t (accept_sound envelope s t h))
    | inr refused ↦ refused
  ],
)
