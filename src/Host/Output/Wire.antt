-- ===== src/Host/Output/Wire.antt =====
-- Which results a job may end with.
use rust_plugin_sdk.Prelude.{
  String, ◌≡◌, ◌≢◌, refl, ◌∙◌, ◌↔◌, inl, inr, Bool, true, false, Option, none, some, List, [], ◌∷◌,
  map, arith, ◌==◌, ◌!=◌, string_eq, if◌then◌else◌, any, All, Option-cases, is_some,
}
use rust_plugin_sdk.Protocol.{ConfigValue, ArtifactDescriptor, PluginArtifactId}
use rust_plugin_sdk.Error.{ok, err, panic}
use rust_plugin_sdk.Value.Total.{validate_serializable-Decides}
use rust_plugin_sdk.Host.Output.Defs.{
  StoredArtifact, ActionResult, check_artifacts, check_result, into_wire, foreign_artifact,
  repeated_artifact,
}

abbrev pub artifact_id : StoredArtifact → Option PluginArtifactId
artifact_id a = a.descriptor.artifact_id

-- Stored artifacts have an ID: `store_artifact` makes no other.
abbrev pub HasIds : List StoredArtifact → Type 0
HasIds artifacts = All (λ a. is_some (artifact_id a) ≡ true) artifacts

-- No artifact of the list has that ID.
abbrev pub Absent : Option PluginArtifactId → List StoredArtifact → Type 0
Absent id artifacts = All (λ a. artifact_id a ≢ id) artifacts

abbrev pub Distinct : List StoredArtifact → Type 0
Distinct [] = Unit
Distinct (a ∷ artifacts) = Absent (artifact_id a) artifacts × Distinct artifacts

abbrev pub Owned : String → List StoredArtifact → Type 0
Owned job_id artifacts = All (λ a. a.job_id ≡ job_id) artifacts

abbrev seen_by : List String → Option PluginArtifactId → Bool
seen_by ids none = false
seen_by ids (some id) = any (λ seen. seen == id.value) ids

-- No artifact of the list is among those already seen.
abbrev NotSeen : List String → List StoredArtifact → Type 0
NotSeen ids artifacts = All (λ a. seen_by ids (artifact_id a) ≡ false) artifacts

seen-cons :
    (id : PluginArtifactId) (ids : List String) (o : Option PluginArtifactId)
    → (seen_by (id.value ∷ ids) o ≡ false) ↔ ((o ≢ some id) × (seen_by ids o ≡ false))
seen-cons id ids none = ground arith
seen-cons id ids (some x) = ground (arith, string_eq.beq_iff id.value x.value)

NotSeen-cons :
    (id : PluginArtifactId) (ids : List String) (rest : List StoredArtifact)
    → NotSeen (id.value ∷ ids) rest
    → Absent (some id) rest × NotSeen ids rest
NotSeen-cons id ids [] h = (tt, tt)
NotSeen-cons id ids (a ∷ rest) h =
    let (x, y) = (seen-cons id ids (artifact_id a)).0 h.0 in
    let (xs, ys) = NotSeen-cons id ids rest h.1 in ((x, xs), (y, ys))

cons-NotSeen :
    (id : PluginArtifactId) (ids : List String) (rest : List StoredArtifact)
    → Absent (some id) rest
    → NotSeen ids rest
    → NotSeen (id.value ∷ ids) rest
cons-NotSeen id ids [] h k = tt
cons-NotSeen id ids (a ∷ rest) h k =
    ((seen-cons id ids (artifact_id a)).1 (h.0, k.0), cons-NotSeen id ids rest h.1 k.1)

module _ (job_id : String) where
  check_step :
      (ids : List String) (a : StoredArtifact) (rest : List StoredArtifact) (id : PluginArtifactId)
      → artifact_id a ≡ some id
      → check_artifacts job_id ids (a ∷ rest) ≡ (
          if a.job_id != job_id
          then err foreign_artifact
          else if seen_by ids (some id)
          then err repeated_artifact
          else check_artifacts job_id (id.value ∷ ids) rest)
  unfolding check_artifacts
  check_step ids a rest id e = rw (e, check_artifacts)

  check_sound :
      (ids : List String) (rest : List StoredArtifact)
      → HasIds rest
      → check_artifacts job_id ids rest ≡ ok tt
      → Owned job_id rest × NotSeen ids rest × Distinct rest
  unfolding check_artifacts
  check_sound ids [] has h = (tt, tt, tt)
  check_sound ids (a ∷ rest) has h = elim (Option-cases (artifact_id a)) [
    | inl e ↦ ground arith
    | inr (id, e) ↦
        let g = check_step ids a rest id e in
        let (o, n, d) = check_sound (id.value ∷ ids) rest has.1 (ground arith) in
        let (x, y) = NotSeen-cons id ids rest n in
        (
          (ground (arith, string_eq.beq_iff a.job_id job_id), o),
          (rw e (ground arith), y),
          (rw e x, d),
        )
  ]

  check_complete :
      (ids : List String) (rest : List StoredArtifact)
      → HasIds rest
      → Owned job_id rest
      → NotSeen ids rest
      → Distinct rest
      → check_artifacts job_id ids rest ≡ ok tt
  unfolding check_artifacts
  check_complete ids [] has o n d = refl
  check_complete ids (a ∷ rest) has o n d = elim (Option-cases (artifact_id a)) [
    | inl e ↦ ground arith
    | inr (id, e) ↦
        let done =
          check_complete (id.value ∷ ids) rest has.1 o.1
            (cons-NotSeen id ids rest (rw e at d.0) n.1) d.1 in
        check_step ids a rest id e ∙ ground (arith, done, string_eq.beq_iff a.job_id job_id)
  ]

nothing_seen : (rest : List StoredArtifact) → NotSeen [] rest
nothing_seen [] = tt
nothing_seen (a ∷ rest) = (none_seen (artifact_id a), nothing_seen rest)
  where
    none_seen : (o : Option PluginArtifactId) → seen_by [] o ≡ false
    none_seen none = refl
    none_seen (some id) = refl

abbrev pub descriptors : List StoredArtifact → List ArtifactDescriptor
descriptors = map λ a. a.descriptor

-- A job may end with a result whose artifacts have IDs exactly if its value may be stored and its
-- artifacts are its own, each listed once; what goes on the wire is then that value and the
-- artifacts' descriptors, in order.
pub into_wire_iff :
    (r : ActionResult) (job_id : String)
    → HasIds r.artifacts
    → (into_wire r job_id ≡ ok (r.result, descriptors r.artifacts))
      ↔ ((check_result r.result ≡ ok tt) × Owned job_id r.artifacts × Distinct r.artifacts)
unfolding into_wire
into_wire_iff r job_id has = (
  λ h. let (o, _, d) = check_sound job_id [] r.artifacts has (ground arith) in (ground arith, o, d),
  λ h. rw (h.0, check_complete job_id [] r.artifacts has h.1 (nothing_seen r.artifacts) h.2),
)

check_decides :
    (job_id : String) (ids : List String) (rest : List StoredArtifact) (m : String)
    → HasIds rest
    → ¬ (check_artifacts job_id ids rest ≡ panic m)
unfolding check_artifacts
check_decides job_id ids [] m has = ground arith
check_decides job_id ids (a ∷ rest) m has = elim (Option-cases (artifact_id a)) [
  | inl e ↦ ground arith
  | inr (id, e) ↦
      rw (check_step job_id ids a rest id e)
        (ground (arith, check_decides job_id (id.value ∷ ids) rest m has.1))
]

result_decides : (o : Option ConfigValue) (m : String) → ¬ (check_result o ≡ panic m)
result_decides none m = ground arith
result_decides (some v) m = validate_serializable-Decides v m

-- On artifacts that have IDs, the `expect` of `into_wire` never fires, nor does anything else in it
-- panic.
pub into_wire-Decides :
    (r : ActionResult) (job_id m : String) → HasIds r.artifacts → ¬ (into_wire r job_id ≡ panic m)
unfolding into_wire
into_wire-Decides r job_id m has =
    λ h. result_decides r.result m (ground (arith, check_decides job_id [] r.artifacts m has))
