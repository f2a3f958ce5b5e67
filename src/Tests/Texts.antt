-- ===== src/Tests/Texts.antt =====
-- Values, texts, results and plugins at concrete inputs.
use rust_plugin_sdk.Prelude.{◌+◌, ◌≤◌, ◌≡◌, ◌↔◌, refl, true, none, some, List, [], ◌∷◌, All}
use rust_plugin_sdk.Prelude.Int.{pos, negsuc}
use rust_plugin_sdk.Prelude.Text.{bytes}
use rust_plugin_sdk.Protocol.{
  Duration, ConfigValue, bool_value, integer_value, list_value, cons, nil,
}
use rust_plugin_sdk.Error.{ok}
use rust_plugin_sdk.Value.{validate, validate_serializable}
use rust_plugin_sdk.Value.Shape.{height, Sound, validate_iff}
use rust_plugin_sdk.Validation.{plugin_id, canonical_uuid_v4, valid_dns_label, split}
use rust_plugin_sdk.Validation.PluginId.{IsPluginId, plugin_id_iff}
use rust_plugin_sdk.Host.Output.{ActionResult, into_wire, check_result}
use rust_plugin_sdk.Host.Output.Wire.{Owned, Distinct, descriptors, into_wire_iff}
use rust_plugin_sdk.Plugin.{Plugin, Handled, Poll, builder, build, action, maximum_concurrent_jobs}
use rust_plugin_sdk.Plugin.Builder.{Call, assemble, IsPlugin, built-IsPlugin}
use rust_plugin_sdk.Tests.Data.{first_id, two_uuids, done}

abbrev nested : ConfigValue
nested = list_value (cons (integer_value (pos 3)) nil)

validate_iff_example :
    (validate nested 4 none ≡ ok tt) ↔ ((4 + height nested ≤ 33) × Sound nested none)
validate_iff_example = validate_iff nested 4 none

two_serializable : All (λ v. validate_serializable v ≡ ok tt) (nested ∷ bool_value true ∷ [])
unfolding validate_serializable validate
two_serializable = (refl, (refl, tt))

abbrev half_second_ago : Duration
half_second_ago = record { seconds = pos 0; nanos = negsuc 499999999 }

plugin_id_iff_example : (plugin_id "com.example" ≡ ok tt) ↔ IsPluginId (bytes "com.example")
plugin_id_iff_example = plugin_id_iff "com.example"

first_canonical : canonical_uuid_v4 two_uuids first_id ≡ true
unfolding canonical_uuid_v4
first_canonical = refl

abbrev one_artifact : ActionResult
one_artifact = record {
  result = some nested;
  artifacts =
      record {
        job_id = first_id;
        descriptor = record {
          artifact_id = some (record { value = "artifact" });
          file_name = "report.txt";
          media_type = "text/plain";
          size_bytes = 3;
          sha256 = [];
        };
      }
      ∷ [];
}

into_wire_iff_example :
    (into_wire one_artifact first_id ≡ ok (some nested, descriptors one_artifact.artifacts)) ↔ (
      (check_result (some nested) ≡ ok tt)
      × Owned first_id one_artifact.artifacts
      × Distinct one_artifact.artifacts)
into_wire_iff_example = into_wire_iff one_artifact first_id (refl, tt)

abbrev calls : List Call
calls =
    Call.bounds 3
    ∷ Call.registers "run" "runs" (λ arguments. Handled.future (λ n. Poll.ready done))
    ∷ []

abbrev built : Plugin
built = record {
  plugin_id = "com.example";
  version = "1";
  actions =
      (
        "run",
        record {
          description = "runs";
          handler = λ arguments. Handled.future (λ n. Poll.ready done);
        },
      )
      ∷ [];
  maximum_concurrent_jobs = 3;
}

assembled : assemble calls (builder "com.example" "1") ≡ ok built
unfolding assemble builder maximum_concurrent_jobs action build plugin_id split valid_dns_label
    bytes
assembled = refl

built-IsPlugin_example : IsPlugin built
built-IsPlugin_example = built-IsPlugin "com.example" "1" calls built assembled
