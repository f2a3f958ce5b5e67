-- ===== src/Host/Artifact/Plan.antt =====
-- The plan of a transfer: its chunks cover the artifact exactly, within every bound.
use rust_plugin_sdk.Prelude.{ℕ, ◌+◌, ◌-◌, ◌*◌, ◌/◌, ◌≤◌, ◌<◌, ◌≡◌, arith, min, nat_eq}
use native.Mathlib.Nat.{lt-div-mul-add, div-mul-le_self}
use rust_plugin_sdk.Error.{ok}
use rust_plugin_sdk.Host.Artifact.Defs.{
  ArtifactPlan, artifact_plan, artifact_io_buffer_bytes, u32_max,
}

-- All chunks but the last are full, and the last is not empty.
abbrev pub Covers : ArtifactPlan → ℕ → Type 0
Covers p size =
    (size ≤ p.chunk_count * p.chunk_bytes) × (p.chunk_count * p.chunk_bytes < size + p.chunk_bytes)

ceil_covers :
    (size c : ℕ)
    → 0 < c
    → 0 < size
    → (size ≤ (size + (c - 1)) / c * c) × ((size + (c - 1)) / c * c < size + c)
ceil_covers size c pos' some' =
    let above = lt-div-mul-add {a = size + (c - 1)} {b = c} pos' in
    let below = div-mul-le_self (size + (c - 1)) c in (omega arith, omega arith)

-- A plan has chunks of at least one byte and at most 64 KiB and the host's limit, at most 2 ^ 32 - 1 in
-- number; together they hold the artifact, and the last of them is not empty.
pub artifact_plan-Covers :
    (size maximum : ℕ) (p : ArtifactPlan)
    → artifact_plan size maximum ≡ ok p
    → Covers p size
      × (0 < p.chunk_bytes)
      × (p.chunk_bytes ≤ maximum)
      × (p.chunk_bytes ≤ 65536)
      × (p.chunk_count ≤ u32_max)
unfolding artifact_plan
artifact_plan-Covers size maximum p e =
    ground (arith, ceil_covers size (min maximum artifact_io_buffer_bytes))
