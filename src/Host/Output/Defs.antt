-- ===== src/Host/Output/Defs.antt =====
-- `ActionResult`, its constructors and `into_wire`.
use rust_plugin_sdk.Prelude.{
  String, Option, none, some, List, [], ◌∷◌, ◌++◌, map, ◌==◌, ◌!=◌, string_eq, if◌then◌else◌, any,
}
use rust_plugin_sdk.Protocol.{ConfigValue, ArtifactDescriptor, PluginArtifactId}
use rust_plugin_sdk.Error.{SdkError, Result, ok, err, ◌>>=◌, ◌>>◌, expect}
use rust_plugin_sdk.Value.{validate_serializable}

pub record StoredArtifact : Type 0 where
  pub job_id : String
  pub descriptor : ArtifactDescriptor

pub record ActionResult : Type 0 where
  pub result : Option ConfigValue
  pub artifacts : List StoredArtifact

abbrev pub empty : ActionResult
empty = record { result = none; artifacts = [] }

unfoldable pub value : ConfigValue → Result ActionResult
value v = validate_serializable v >>= λ _. ok (record { result = some v; artifacts = [] })

unfoldable pub with_artifact : ActionResult → StoredArtifact → ActionResult
with_artifact r artifact = record r { artifacts = r.artifacts ++ artifact ∷ [] }

abbrev pub foreign_artifact : SdkError
foreign_artifact =
    SdkError.invalid_argument "job results may reference only artifacts stored by that job"

abbrev pub repeated_artifact : SdkError
repeated_artifact =
    SdkError.invalid_argument "job results must not reference the same artifact more than once"

-- The loop of `into_wire`; `artifact_ids` is the set of those seen.
unfoldable pub check_artifacts : String → List String → List StoredArtifact → Result (Unit {0})
check_artifacts job_id artifact_ids [] = ok tt
check_artifacts job_id artifact_ids (artifact ∷ artifacts) =
    if artifact.job_id != job_id
    then err foreign_artifact
    else (expect artifact.descriptor.artifact_id "stored artifacts have validated IDs"
        >>= λ (id : PluginArtifactId).
            if any (λ seen. seen == id.value) artifact_ids
            then err repeated_artifact
            else check_artifacts job_id (id.value ∷ artifact_ids) artifacts)

abbrev pub check_result : Option ConfigValue → Result (Unit {0})
check_result none = ok tt
check_result (some result) = validate_serializable result

unfoldable pub into_wire :
    ActionResult → String → Result (Option ConfigValue × List ArtifactDescriptor)
unfolding check_artifacts
into_wire r job_id =
    check_result r.result
    >> check_artifacts job_id [] r.artifacts
    >> ok (r.result, map (λ (a : StoredArtifact). a.descriptor) r.artifacts)
