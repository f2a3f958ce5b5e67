-- ===== src/Protocol/Config.antt =====
-- proto/oll/config.proto. A `double` is its IEEE 754 bit pattern; map entries stand in the order in
-- which they are visited, which the code leaves open.
use rust_plugin_sdk.Prelude.{ℕ, String, Bool, Option, List}
use rust_plugin_sdk.Prelude.Int.{ℤ}
use rust_plugin_sdk.Protocol.Common.{Timestamp, Duration}

pub record ConfigFunctionRef : Type 0 where
  pub session_id : String
  pub function_id : String

mutual
  pub data ConfigValue : Type 0 where
    unset : ConfigValue
    null_value integer_value : ℤ → ConfigValue
    bool_value : Bool → ConfigValue
    number_value : ℕ → ConfigValue
    string_value : String → ConfigValue
    bytes_value : List ℕ → ConfigValue
    list_value : ConfigList → ConfigValue
    map_value : ConfigMap → ConfigValue
    function_value : ConfigFunctionRef → ConfigValue
    timestamp_value : Timestamp → ConfigValue
    duration_value : Duration → ConfigValue

  pub data ConfigList : Type 0 where
    nil : ConfigList
    cons : ConfigValue → ConfigList → ConfigList

  pub data ConfigMap : Type 0 where
    end : ConfigMap
    entry : String → ConfigValue → ConfigMap → ConfigMap

pub data ConfigPathKind : Type 0 where
  key : String → ConfigPathKind
  index : ℕ → ConfigPathKind

pub record ConfigPathSegment : Type 0 where
  pub kind : Option ConfigPathKind

pub record ConfigPath : Type 0 where
  pub segments : List ConfigPathSegment

pub record GetConfigRequest : Type 0 where
  pub path : Option ConfigPath

pub record GetConfigResponse : Type 0 where
  pub value : Option ConfigValue

pub record InvokeConfigFunctionRequest : Type 0 where
  pub function : Option ConfigFunctionRef
  pub arguments : List ConfigValue

pub record InvokeConfigFunctionResponse : Type 0 where
  pub results : List ConfigValue
