-- ===== src/Host/Artifact/Descriptor.antt =====
-- Which descriptors may be transferred.
use rust_plugin_sdk.Prelude.{
  ap, sym, ◌∙◌, ℕ, String, ◌≤◌, ◌<◌, ◌≡◌, ◌≢◌, ◌↔◌, ◌||◌, Bool, true, false, Option, none, some,
  List, [], ◌∷◌, All, any, arith, length, string_eq, nat_eq, ◌==◌, ◌!=◌, ltb, if◌then◌else◌,
}
use rust_plugin_sdk.Prelude.Text.{bytes, is_empty}
use rust_plugin_sdk.Protocol.{ArtifactDescriptor, PluginArtifactId}
use rust_plugin_sdk.Error
use rust_plugin_sdk.Error.{Result, SdkError, ok, err, ok_or}
use rust_plugin_sdk.Validation.{UuidCrate, canonical_uuid_v4, keep_if}
use rust_plugin_sdk.Host.Artifact.Defs.{validate_descriptor}

-- A basename: neither empty nor a dot name, of at most 191 bytes, none of them NUL or a slash.
pub record IsBasename (name : String) : Type 0 where
  pub short : (0 < length (bytes name)) × (length (bytes name) ≤ 191)
  pub undotted : (name ≢ ".") × (name ≢ "..")
  pub plain : All (λ b. (b ≢ 0) × (b ≢ b'/')) (bytes name)

pub record IsTransferable (u : UuidCrate) (d : ArtifactDescriptor) (id : PluginArtifactId)
    : Type 0 where
  pub identified : d.artifact_id ≡ some id
  pub canonical : canonical_uuid_v4 u id.value ≡ true
  pub basename : IsBasename d.file_name
  pub typed : d.media_type ≢ ""
  pub digested : length d.sha256 ≡ 32

any_none :
    (bs : List ℕ)
    → (any (λ b. b == 0) bs || any (λ b. b == b'/') bs ≡ false) ↔ All (λ b. (b ≢ 0) × (b ≢ b'/')) bs
any_none [] = ground arith
any_none (b ∷ bs) = ground (arith, any_none bs)

abbrev unsafe_name : String → List ℕ → Bool
unsafe_name name bs =
    length bs == 0
    || (ltb 191 (length bs)
        || (name == "." || (name == ".." || (any (λ b. b == 0) bs || any (λ b. b == b'/') bs))))

safe_iff :
    (name : String) (bs : List ℕ)
    → (unsafe_name name bs ≡ false) ↔ (
        ((0 < length bs) × (length bs ≤ 191))
        × ((name ≢ ".") × (name ≢ ".."))
        × All (λ b. (b ≢ 0) × (b ≢ b'/')) bs)
safe_iff name bs =
    ground (arith, string_eq.beq_iff name ".", string_eq.beq_iff name "..", any_none bs)

-- The two tests that follow the ID.
tests_iff :
    (a id : PluginArtifactId) (unsafe untyped : Bool) (x y : SdkError)
    → ((if unsafe then err x else if untyped then err y else ok a) ≡ ok id)
      ↔ ((a ≡ id) × (unsafe ≡ false) × (untyped ≡ false))
tests_iff a id unsafe untyped x y = ground arith

-- An ID that is there and canonical, and what follows it.
kept_iff :
    (p : PluginArtifactId → Bool) (o : Option PluginArtifactId) (e : SdkError)
    (id : PluginArtifactId) (unsafe untyped : Bool) (x y : SdkError)
    → (Error.◌>>=◌
          (ok_or (keep_if p o) e)
          (λ a. if unsafe then err x else if untyped then err y else ok a)
        ≡ ok id)
      ↔ ((o ≡ some id) × (p id ≡ true) × (unsafe ≡ false) × (untyped ≡ false))
kept_iff p none e id unsafe untyped x y = ground arith
kept_iff p (some a) e id unsafe untyped x y = (
  λ h.
      let same : a ≡ id = ground arith in
      let held : p a ≡ true = ground arith in
      (ap some same, sym (ap p same) ∙ held, ground arith, ground arith),
  λ h.
      let same : a ≡ id = ground arith in
      let held : p a ≡ true = ap p same ∙ h.1 in ground (arith, same, held, h),
)

-- A descriptor is accepted, with its artifact ID, exactly if that ID is a canonical random UUID, the
-- file name is one safe basename of at most 191 bytes, and it has a media type and a 32-byte digest.
pub validate_descriptor_iff :
    (u : UuidCrate) (d : ArtifactDescriptor) (id : PluginArtifactId)
    → (validate_descriptor u d ≡ ok id) ↔ IsTransferable u d id
unfolding validate_descriptor
validate_descriptor_iff u d id =
    let kept =
      kept_iff (λ i. canonical_uuid_v4 u i.value) d.artifact_id
        (SdkError.invalid_argument "artifact ID must be a canonical UUID v4") id
        (unsafe_name d.file_name (bytes d.file_name))
        (is_empty d.media_type || length d.sha256 != 32) _ _ in
    let safe = safe_iff d.file_name (bytes d.file_name) in
    (
      λ h.
          let (there, canonical, fine, typed) = kept.0 h in
          let (short, undotted, plain) = safe.0 fine in
          record {
            identified = there;
            canonical = canonical;
            basename = record { short = short; undotted = undotted; plain = plain };
            typed = ground (arith, string_eq.beq_iff d.media_type "", typed);
            digested = ground (arith, typed);
          },
      λ t. kept.1 (
        t.identified,
        t.canonical,
        safe.1 (t.basename.short, t.basename.undotted, t.basename.plain),
        ground (arith, string_eq.beq_iff d.media_type "", t.typed, t.digested),
      ),
    )
