-- ===== src/Plugin/Builder.antt =====
-- What holds of every plugin that the builder lets through.
use rust_plugin_sdk.Prelude.{
  ℕ, ◌≤◌, ◌<◌, String, ◌≡◌, ◌≢◌, refl, subst, List, [], ◌∷◌, arith, count, Option-cases, inl, inr,
  string_eq,
}
use rust_plugin_sdk.Prelude.Map.{keys, lookup, count-insert, count-lookup-none}
use rust_plugin_sdk.Prelude.Text.{bytes}
use rust_plugin_sdk.Error.{Result, ok, ◌>>=◌, >>=-ok}
use rust_plugin_sdk.Validation
use rust_plugin_sdk.Validation.PluginId.{IsPluginId, plugin_id_iff}
use rust_plugin_sdk.Plugin.Defs.{Plugin, Handled, builder, maximum_concurrent_jobs, action, build}

-- The calls that may stand between `builder` and `build`.
pub data Call : Type 0 where
  bounds : ℕ → Call
  registers : String → String → (List String → Handled) → Call

abbrev pub call : Call → Plugin → Result Plugin
call (Call.bounds maximum) p = maximum_concurrent_jobs maximum p
call (Call.registers name description handler) p = action name description handler p

unfoldable pub assemble : List Call → Plugin → Result Plugin
assemble [] p = build p
assemble (c ∷ cs) p = call c p >>= assemble cs

-- Room for a job, and actions under distinct names that are not empty.
pub record IsAssembled (p : Plugin) : Type 0 where
  pub room : 0 < p.maximum_concurrent_jobs
  pub once : (name : String) → count name (keys p.actions) ≤ 1
  pub named : count "" (keys p.actions) ≡ 0

pub record IsPlugin (p : Plugin) : Type 0 where
  pub assembled : IsAssembled p
  pub identified : IsPluginId (bytes p.plugin_id)
  pub versioned : p.version ≢ ""

builder-IsAssembled : (id version : String) → IsAssembled (builder id version)
unfolding builder
builder-IsAssembled id version = record {
  room = omega arith;
  once = λ n. omega arith;
  named = refl;
}

call-IsAssembled : (c : Call) (p q : Plugin) → IsAssembled p → call c p ≡ ok q → IsAssembled q
unfolding maximum_concurrent_jobs action
call-IsAssembled (Call.bounds m) p q v e = record {
  room = ground (arith, v.room);
  once = λ n. ground (arith, v.once n);
  named = ground (arith, v.named);
}
call-IsAssembled (Call.registers name d h) p q v e = elim (Option-cases (lookup name p.actions)) [
  | inr (old, found) ↦ ground arith
  | inl new ↦ record {
    room = ground (arith, v.room);
    once = λ n. ground (
      arith,
      v.once n,
      count-insert name n (record { description = d; handler = h }) p.actions,
      count-lookup-none name p.actions,
      string_eq.beq_iff name n,
    );
    named =
        ground (
          arith,
          v.named,
          count-insert name "" (record { description = d; handler = h }) p.actions,
        );
  }
]

build-IsPlugin : (p q : Plugin) → IsAssembled p → build p ≡ ok q → IsPlugin q
unfolding build
build-IsPlugin p q v e =
    let (u, checked, rest) = >>=-ok (Validation.plugin_id p.plugin_id) _ e in
    let same : p ≡ q = ground arith in
    subst IsPlugin same (record {
      assembled = v;
      identified = (plugin_id_iff p.plugin_id).0 checked;
      versioned = λ empty. ground (arith, string_eq.beq_iff p.version "");
    })

assemble-IsPlugin :
    (cs : List Call) (p q : Plugin) → IsAssembled p → assemble cs p ≡ ok q → IsPlugin q
unfolding assemble
assemble-IsPlugin [] p q v e = build-IsPlugin p q v e
assemble-IsPlugin (c ∷ cs) p q v e =
    let (r, called, rest) = >>=-ok (call c p) (assemble cs) e in
    assemble-IsPlugin cs r q (call-IsAssembled c p r v called) rest

-- Whatever calls are made of the builder, a plugin that it returns has a valid ID, a version, room for
-- at least one job, and actions under distinct names that are not empty.
pub built-IsPlugin :
    (id version : String) (cs : List Call) (p : Plugin)
    → assemble cs (builder id version) ≡ ok p
    → IsPlugin p
built-IsPlugin id version cs p e =
    assemble-IsPlugin cs (builder id version) p (builder-IsAssembled id version) e
