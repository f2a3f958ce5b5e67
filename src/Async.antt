-- ===== src/Async.antt =====
-- Methods that change a shared state, may fail, and may wait for what another task does: `none` is a
-- wait that has not ended, with the state that was left at it.
use rust_plugin_sdk.Prelude.{◌≡◌, refl, arith, ap, sym, ◌∙◌, Option, none, some}
use rust_plugin_sdk.Error.{SdkError, Result, ok, err, panic}
use rust_plugin_sdk.Exec.{Exec}

abbrev pub Async : Type 0 → Type 0 → Type 0
Async S A = S → Option (Result A) × S

module _ {S A : Type 0} where
  abbrev pub pure : A → Async S A
  pure a s = (some (ok a), s)

  abbrev pub raise : SdkError → Async S A
  raise e s = (some (err e), s)

  abbrev pub lift : Result A → Async S A
  lift r s = (some r, s)

  -- A part that does not wait.
  abbrev pub at_once : Exec S A → Async S A
  at_once m s = let (r, t) = m s in (some r, t)

  -- A part that leaves the state alone.
  abbrev pub awaits : (S → Option (Result A)) → Async S A
  awaits f s = (f s, s)

module _ {S A B : Type 0} where
  abbrev pub proceed : Option (Result A) → (A → Async S B) → Async S B
  proceed none f s = (none, s)
  proceed (some (ok a)) f s = f a s
  proceed (some (err e)) f s = (some (err e), s)
  proceed (some (panic m)) f s = (some (panic m), s)

  infixl 5 ◌>>=◌ ◌>>◌
  abbrev pub ◌>>=◌ : Async S A → (A → Async S B) → Async S B
  ◌>>=◌ m f s = let (r, t) = m s in proceed r f t

  abbrev pub ◌>>◌ : Async S A → Async S B → Async S B
  m >> n = m >>= λ _. n

  proceeds-ok :
      (r : Option (Result A)) (f : A → Async S B) (s : S) {b : B}
      → (proceed r f s).0 ≡ some (ok b)
      → (a : A) × (r ≡ some (ok a)) × (proceed r f s ≡ f a s)
  proceeds-ok none f s h = ground arith
  proceeds-ok (some (ok a)) f s h = (a, refl, refl)
  proceeds-ok (some (err e)) f s h = ground arith
  proceeds-ok (some (panic m)) f s h = ground arith

  -- A bind that has returned: the value between, and what the rest did.
  pub returned :
      (m : Async S A) (f : A → Async S B) (s : S) {b : B} {t : S}
      → (m >>= f) s ≡ (some (ok b), t)
      → (a : A) × ((m s).0 ≡ some (ok a)) × (f a (m s).1 ≡ (some (ok b), t))
  returned m f s h =
      let (a, first, rest) = proceeds-ok (m s).0 f (m s).1 (ap (λ x. x.0) h) in
      (a, first, sym rest ∙ h)

pub come_to : {A : Type 0} {r : Result A} {a : A} → some r ≡ some (ok a) → r ≡ ok a
come_to e = ground (arith, e)

module _ {S A : Type 0} where
  -- What a part has come to, with the state that it has left.
  pub ended : (m : Async S A) (s : S) {r : Option (Result A)} → (m s).0 ≡ r → m s ≡ (r, (m s).1)
  ended m s e = ap (λ x. (x, (m s).1)) e

  pub lift-ok :
      (r : Result A) (s t : S) {a : A} → lift r s ≡ (some (ok a), t) → (r ≡ ok a) × (s ≡ t)
  lift-ok r s t e = let first = ap (λ x. x.0) e in (come_to first, ap (λ x. x.1) e)
