-- ===== src/Prelude/Map.antt =====
-- `HashMap` as an association list with its entries in the order of insertion.
use Prim.Native.Nat.{◌+◌, ◌-◌, ◌≤◌}
use mathlib.Core.Path.{◌≡◌, refl}
use mathlib.Core.Bool.{Bool, false}
use mathlib.Core.Option.{Option, none, some}
use mathlib.Core.List.{List, [], ◌∷◌}
use native.Mathlib.Omega.{arith}
use mathlib.Core.Logic.{inl, inr}
use rust_plugin_sdk.Prelude.Tests.{Eq, Bool-cases, if◌then◌else◌, is_some}
use rust_plugin_sdk.Prelude.Lists.{length, count}

module _ {K V : Type 0} where
  abbrev pub keys : List (K × V) → List K
  keys [] = []
  keys ((k, v) ∷ m) = k ∷ keys m

  abbrev pub values : List (K × V) → List V
  values [] = []
  values ((k, v) ∷ m) = v ∷ values m

module _ {K V : Type 0} ⦃e : Eq K⦄ where
  abbrev pub lookup : K → List (K × V) → Option V
  lookup k [] = none
  lookup k ((j, v) ∷ m) = if e.beq j k then some v else lookup k m

  abbrev pub contains_key : K → List (K × V) → Bool
  contains_key k m = is_some (lookup k m)

  abbrev pub insert : K → V → List (K × V) → List (K × V)
  insert k v [] = (k, v) ∷ []
  insert k v ((j, w) ∷ m) = if e.beq j k then (j, v) ∷ m else (j, w) ∷ insert k v m

  abbrev pub remove : K → List (K × V) → List (K × V)
  remove k [] = []
  remove k ((j, w) ∷ m) = if e.beq j k then m else (j, w) ∷ remove k m

  pub lookup-insert :
      (k j : K) (v : V) (m : List (K × V))
      → lookup j (insert k v m) ≡ (if e.beq k j then some v else lookup j m)
  lookup-insert k j v [] = ground arith
  lookup-insert k j v ((i, w) ∷ m) =
      ground (arith, e.beq_iff k j, e.beq_iff i k, e.beq_iff i j, lookup-insert k j v m)

  pub count-lookup-none : (k : K) (m : List (K × V)) → lookup k m ≡ none → count k (keys m) ≡ 0
  count-lookup-none k [] h = refl
  count-lookup-none k ((i, w) ∷ m) h = ground (arith, count-lookup-none k m)

  pub count-lookup-some :
      (k : K) (v : V) (m : List (K × V)) → lookup k m ≡ some v → 1 ≤ count k (keys m)
  count-lookup-some k v [] h = ground arith
  count-lookup-some k v ((i, w) ∷ m) h = ground (arith, count-lookup-some k v m)

  -- A key that occurs can be looked up.
  pub lookup-count_pos :
      (k : K) (m : List (K × V)) → 1 ≤ count k (keys m) → (v : V) × (lookup k m ≡ some v)
  lookup-count_pos k [] h = absurd (omega arith)
  lookup-count_pos k ((i, w) ∷ m) h = elim (Bool-cases (e.beq i k)) [
    | inl hit ↦ (w, ground arith)
    | inr miss ↦ let (v, found) = lookup-count_pos k m (ground arith) in (v, ground arith)
  ]

  pub count-insert :
      (k j : K) (v : V) (m : List (K × V))
      → lookup k m ≡ none
      → count j (keys (insert k v m)) ≡ count j (keys m) + (if e.beq k j then 1 else 0)
  count-insert k j v [] h = ground arith
  count-insert k j v ((i, w) ∷ m) h = ground (arith, count-insert k j v m)

  -- A write to a key that is there changes no key.
  pub keys-insert :
      (k : K) (v w : V) (m : List (K × V)) → lookup k m ≡ some w → keys (insert k v m) ≡ keys m
  keys-insert k v w [] h = ground arith
  keys-insert k v w ((i, u) ∷ m) h = ground (arith, keys-insert k v w m)

  pub length-insert_new :
      (k : K) (v : V) (m : List (K × V)) → lookup k m ≡ none → length (insert k v m) ≡ length m + 1
  length-insert_new k v [] h = ground arith
  length-insert_new k v ((i, u) ∷ m) h = ground (arith, length-insert_new k v m)

  pub length-insert_old :
      (k : K) (v w : V) (m : List (K × V)) → lookup k m ≡ some w → length (insert k v m) ≡ length m
  length-insert_old k v w [] h = ground arith
  length-insert_old k v w ((i, u) ∷ m) h = ground (arith, length-insert_old k v w m)

  pub count-remove :
      (k j : K) (m : List (K × V))
      → count j (keys (remove k m)) ≡ count j (keys m) - (if e.beq k j then 1 else 0)
  count-remove k j [] = ground arith
  count-remove k j ((i, w) ∷ m) =
      ground (arith, count-remove k j m, e.beq_iff i k, e.beq_iff i j, e.beq_iff k j)

  pub length-remove_le : (k : K) (m : List (K × V)) → length (remove k m) ≤ length m
  length-remove_le k [] = omega arith
  length-remove_le k ((i, w) ∷ m) = ground (arith, length-remove_le k m)

  pub lookup-remove_ne :
      (k j : K) (m : List (K × V)) → e.beq k j ≡ false → lookup j (remove k m) ≡ lookup j m
  lookup-remove_ne k j [] h = refl
  lookup-remove_ne k j ((i, w) ∷ m) h =
      ground (arith, lookup-remove_ne k j m, e.beq_iff i k, e.beq_iff i j, e.beq_iff k j)

  pub lookup-count_zero : (k : K) (m : List (K × V)) → count k (keys m) ≡ 0 → lookup k m ≡ none
  lookup-count_zero k [] h = refl
  lookup-count_zero k ((i, w) ∷ m) h = ground (arith, lookup-count_zero k m)

  -- With keys that occur once, a removed key is gone.
  pub lookup-remove_self :
      (k : K) (m : List (K × V)) → count k (keys m) ≤ 1 → lookup k (remove k m) ≡ none
  lookup-remove_self k m h =
      lookup-count_zero k (remove k m) (ground (arith, count-remove k k m, e.beq_iff k k))
