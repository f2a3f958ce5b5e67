-- ===== src/Validation/Uuid.antt =====
-- What the canonical form of a UUID gives: identifiers that name one UUID are one text.
use rust_plugin_sdk.Prelude.{ℕ, String, ◌≡◌, true, some, arith, Option-cases, inl, inr}
use rust_plugin_sdk.Prelude.{string_eq}
use rust_plugin_sdk.Validation.Defs.{UuidCrate, UuidVersion, canonical_uuid_v4}

-- An accepted text parses to a random UUID and is that UUID's hyphenated form.
pub canonical_form :
    (u : UuidCrate) (value : String)
    → canonical_uuid_v4 u value ≡ true
    → (id : ℕ) × (u.parse_str value ≡ some id)
      × (u.get_version id ≡ some UuidVersion.random)
      × (u.hyphenated id ≡ value)
unfolding canonical_uuid_v4
canonical_form u value h = elim (Option-cases (u.parse_str value)) [
  | inl e ↦ ground arith
  | inr (id, e) ↦ (id, e, ground arith, ground (arith, string_eq.beq_iff (u.hyphenated id) value))
]

-- Two accepted texts that parse to one UUID are equal: jobs and artifacts have one name each.
pub canonical_uuid_v4-injective :
    (u : UuidCrate) (a b : String)
    → canonical_uuid_v4 u a ≡ true
    → canonical_uuid_v4 u b ≡ true
    → u.parse_str a ≡ u.parse_str b
    → a ≡ b
canonical_uuid_v4-injective u a b ha hb same =
    let (x, px, _, ex) = canonical_form u a ha in let (y, py, _, ey) = canonical_form u b hb in cc
