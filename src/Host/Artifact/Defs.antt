-- ===== src/Host/Artifact/Defs.antt =====
-- `ArtifactPlan`, `validate_descriptor` and `artifact_plan`.
use rust_plugin_sdk.Prelude.{
  ℕ, ◌+◌, ◌-◌, ◌/◌, ◌^◌, ◌*◌, min, ◌||◌, any, length, ltb, ◌==◌, ◌!=◌, nat_eq, string_eq,
  if◌then◌else◌,
}
use rust_plugin_sdk.Prelude.Text.{bytes, is_empty}
use rust_plugin_sdk.Protocol.{ArtifactDescriptor, PluginArtifactId}
use rust_plugin_sdk.Error.{SdkError, Result, ok, err, ◌>>=◌, ok_or}
use rust_plugin_sdk.Validation.{UuidCrate, canonical_uuid_v4, keep_if}
use rust_plugin_sdk.Sender.{u64_max}

abbrev pub artifact_io_buffer_bytes : ℕ
artifact_io_buffer_bytes = 64 * 1024

abbrev pub maximum_artifact_file_name_bytes : ℕ
maximum_artifact_file_name_bytes = 191

abbrev pub sha256_digest_bytes : ℕ
sha256_digest_bytes = 32

abbrev pub u32_max : ℕ
u32_max = 2 ^ 32 - 1

pub record ArtifactPlan : Type 0 where
  pub chunk_bytes : ℕ
  pub chunk_count : ℕ

-- The file name is one safe basename; `/` and NUL are one byte each in UTF-8.
unfoldable pub validate_descriptor : UuidCrate → ArtifactDescriptor → Result PluginArtifactId
validate_descriptor u descriptor = do
  artifact_id ←
      ok_or
        (keep_if (λ (id : PluginArtifactId). canonical_uuid_v4 u id.value) descriptor.artifact_id)
        (SdkError.invalid_argument "artifact ID must be a canonical UUID v4")
  let file_name = bytes descriptor.file_name
  if length file_name == 0
        || (ltb maximum_artifact_file_name_bytes (length file_name)
            || (descriptor.file_name == "."
                || (descriptor.file_name == ".."
                    || (any (λ b. b == 0) file_name || any (λ b. b == b'/') file_name))))
      then err (
          SdkError.invalid_argument
            "artifact file name must be one safe UTF-8 basename of at most 191 bytes")
      else if is_empty descriptor.media_type || length descriptor.sha256 != sha256_digest_bytes
      then err (SdkError.invalid_argument "artifact media type and 32-byte SHA-256 are required")
      else ok artifact_id

-- The checked addition and the division that round up.
abbrev pub chunk_count_of : ℕ → ℕ → Result ℕ
chunk_count_of size_bytes chunk_bytes =
    if size_bytes == 0
    then ok 0
    else if ltb u64_max (size_bytes + (chunk_bytes - 1))
    then err (SdkError.invalid_argument "artifact chunk count overflowed")
    else ok ((size_bytes + (chunk_bytes - 1)) / chunk_bytes)

-- `usize` has 64 bits, so that the conversion of the limit never saturates.
unfoldable pub artifact_plan : ℕ → ℕ → Result ArtifactPlan
artifact_plan size_bytes maximum_chunk_bytes =
    if maximum_chunk_bytes == 0
    then err (SdkError.protocol "host advertised a zero artifact chunk limit")
    else (let chunk_bytes = min maximum_chunk_bytes artifact_io_buffer_bytes in
        chunk_count_of size_bytes chunk_bytes >>= λ count.
        if ltb u32_max count
        then err (SdkError.invalid_argument "artifact has too many chunks")
        else ok (record { chunk_bytes = chunk_bytes; chunk_count = count }))
