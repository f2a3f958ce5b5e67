-- ===== src/Value/Total.antt =====
-- `validate` ends in a verdict on every value.
use rust_plugin_sdk.Prelude.{ℕ, ◌+◌, String, ◌≡◌, Option, none, arith}
use rust_plugin_sdk.Protocol.{
  ConfigValue, ConfigList, ConfigMap, unset, null_value, integer_value, bool_value, number_value,
  string_value, bytes_value, list_value, map_value, function_value, timestamp_value, duration_value,
  nil, cons, end, entry,
}
use rust_plugin_sdk.Error.{Result, panic}
use rust_plugin_sdk.Value.Defs.{validate, validate_list, validate_map, validate_serializable}

abbrev pub Decides : Result (Unit {0}) → Type 0
Decides r = (m : String) → ¬ (r ≡ panic m)

mutual
  unfolding validate

  Decides-validate : (v : ConfigValue) (d : ℕ) (s : Option String) → Decides (validate v d s)
  Decides-validate unset d s m = ground arith
  Decides-validate (null_value _) d s m = ground arith
  Decides-validate (bool_value _) d s m = ground arith
  Decides-validate (integer_value _) d s m = ground arith
  Decides-validate (string_value _) d s m = ground arith
  Decides-validate (bytes_value _) d s m = ground arith
  Decides-validate (number_value _) d s m = ground arith
  Decides-validate (function_value _) d s m = ground arith
  Decides-validate (timestamp_value _) d s m = ground arith
  Decides-validate (duration_value _) d s m = ground arith
  Decides-validate (list_value l) d s m = ground (arith, Decides-validate_list l (d + 1) s m)
  Decides-validate (map_value l) d s m = ground (arith, Decides-validate_map l (d + 1) s m)

  Decides-validate_list :
      (l : ConfigList) (d : ℕ) (s : Option String) → Decides (validate_list l d s)
  Decides-validate_list nil d s m = ground arith
  Decides-validate_list (cons v l) d s m =
      ground (arith, Decides-validate v d s m, Decides-validate_list l d s m)

  Decides-validate_map : (l : ConfigMap) (d : ℕ) (s : Option String) → Decides (validate_map l d s)
  Decides-validate_map end d s m = ground arith
  Decides-validate_map (entry k v l) d s m =
      ground (arith, Decides-validate v d s m, Decides-validate_map l d s m)

pub validate_serializable-Decides : (v : ConfigValue) → Decides (validate_serializable v)
unfolding validate_serializable
validate_serializable-Decides v = Decides-validate v 0 none
