-- ===== src/Session/Jobs/Updates.antt =====
-- Every end of an action becomes a well-formed terminal update.
use rust_plugin_sdk.Prelude.{
  String, ◌≡◌, refl, ap, ◌∙◌, ◌⊎◌, inl, inr, true, Option, none, some, List, [], arith, Bool-cases,
  string_eq,
}
use rust_plugin_sdk.Protocol.{
  ProtocolError, JobUpdate, JobState, job_state, ConfigValue, ArtifactDescriptor,
}
use rust_plugin_sdk.Error
use rust_plugin_sdk.Error.{SdkError, Result, ok, err, panic, is_ok, ◌>>◌, >>=-ok}
use rust_plugin_sdk.Validation
use rust_plugin_sdk.Host.Output.{ActionResult, into_wire, check_result, check_artifacts}
use rust_plugin_sdk.Host.Output.Wire.{HasIds, descriptors, into_wire-Decides}
use rust_plugin_sdk.Plugin.{Output, succeeded, failed}
use rust_plugin_sdk.Session.Jobs.Errors.{
  outbound_error, invalid_error, terminal_update, wire_update, failed_update, succeeded_update,
}

ok_of_is_ok : (r : Result (Unit {0})) → is_ok r ≡ true → r ≡ ok tt
ok_of_is_ok (ok tt) h = refl
ok_of_is_ok (err e) h = cc
ok_of_is_ok (panic m) h = cc

fallback_valid : Validation.protocol_error invalid_error ≡ ok tt
unfolding Validation.protocol_error
fallback_valid = refl

-- Whatever error an action ends with, the error sent to the host has a code and a message; and an
-- error that has them is sent unchanged.
pub outbound_error_valid :
    (e : SdkError)
    → (Validation.protocol_error (outbound_error e) ≡ ok tt)
      × (Validation.protocol_error (Error.protocol_error e) ≡ ok tt
          → outbound_error e ≡ Error.protocol_error e)
unfolding outbound_error
outbound_error_valid e =
    elim (Bool-cases (is_ok (Validation.protocol_error (Error.protocol_error e)))) [
      | inl valid ↦ (rw valid (ok_of_is_ok _ valid), λ h. rw valid)
      | inr bad ↦ (rw bad fallback_valid, λ h. ground (arith, h))
    ]

-- The update of a job that has failed: it has no result and no artifacts, and its error is a valid one,
-- that of the failure if this is valid on the wire.
abbrev pub Fails : String → SdkError → JobUpdate → Type 0
Fails job_id e u =
    (u.job_id ≡ some (record { value = job_id }))
    × (u.state ≡ job_state JobState.failed)
    × (u.result ≡ none)
    × (u.artifacts ≡ [])
    × ((error : ProtocolError) × (u.error ≡ some error)
        × (Validation.protocol_error error ≡ ok tt)
        × (Validation.protocol_error (Error.protocol_error e) ≡ ok tt
            → error ≡ Error.protocol_error e))

-- The update of a job that has succeeded: it has no error, and the result and the artifacts of the action.
abbrev pub Succeeds : String → ActionResult → JobUpdate → Type 0
Succeeds job_id r u =
    (u.job_id ≡ some (record { value = job_id }))
    × (u.state ≡ job_state JobState.succeeded)
    × (u.result ≡ r.result)
    × (u.artifacts ≡ descriptors r.artifacts)
    × (u.error ≡ none)

-- A failed action has failed, as has one whose result may not be sent; any other has succeeded.
abbrev pub IsUpdateOf : String → Output → JobUpdate → Type 0
IsUpdateOf job_id (failed e) u = Fails job_id e u
IsUpdateOf job_id (succeeded r) u =
    ((into_wire r job_id ≡ ok (r.result, descriptors r.artifacts)) × Succeeds job_id r u)
    ⊎ ((e : SdkError) × (into_wire r job_id ≡ err e) × Fails job_id e u)

failed_update-Fails : (job_id : String) (e : SdkError) → Fails job_id e (failed_update job_id e)
failed_update-Fails job_id e =
    let (valid, same) = outbound_error_valid e in
    (refl, refl, refl, refl, (outbound_error e, refl, valid, same))

wire_sound :
    (r : ActionResult) (job_id : String) (w : Option ConfigValue × List ArtifactDescriptor)
    → into_wire r job_id ≡ ok w
    → w ≡ (r.result, descriptors r.artifacts)
unfolding into_wire
wire_sound r job_id w e =
    let (_, _, e1) = >>=-ok (check_result r.result >> check_artifacts job_id [] r.artifacts) _ e in
    ground (arith, e1)

wire_update-IsUpdateOf :
    (job_id : String) (result : ActionResult)
    (w : Result (Option ConfigValue × List ArtifactDescriptor))
    → into_wire result job_id ≡ w
    → ((m : String) → ¬ (w ≡ panic m))
    → (u : JobUpdate) × (wire_update job_id w ≡ ok u) × IsUpdateOf job_id (succeeded result) u
wire_update-IsUpdateOf job_id result (ok w) e h =
    let same = wire_sound result job_id w e in
    (
      succeeded_update job_id w.0 w.1,
      refl,
      inl (e ∙ ap ok same, (refl, refl, ap (λ x. x.0) same, ap (λ x. x.1) same, refl)),
    )
wire_update-IsUpdateOf job_id result (err e) same h =
    (failed_update job_id e, refl, inr (e, same, failed_update-Fails job_id e))
wire_update-IsUpdateOf job_id result (panic m) same h = absurd (h m refl)

abbrev pub WellStored : Output → Type 0
WellStored (succeeded r) = HasIds r.artifacts
WellStored (failed e) = Unit

-- Every end of an action whose artifacts were stored gives the terminal update of its job: a failure, with
-- its own error if that is valid on the wire and with another valid one otherwise, where the action has
-- failed or its result may not be sent; and otherwise a success with exactly that result and the
-- descriptors of its artifacts.
pub terminal_update-IsUpdateOf :
    (job_id : String) (output : Output)
    → WellStored output
    → (u : JobUpdate) × (terminal_update job_id output ≡ ok u) × IsUpdateOf job_id output u
unfolding terminal_update
terminal_update-IsUpdateOf job_id (failed e) h =
    (failed_update job_id e, refl, failed_update-Fails job_id e)
terminal_update-IsUpdateOf job_id (succeeded r) h =
    wire_update-IsUpdateOf job_id r (into_wire r job_id) refl (λ m. into_wire-Decides r job_id m h)
