-- ===== src/Exec.antt =====
-- Methods that change a shared state and may fail: what was written before a failure stays written, so
-- the state comes back beside the error too.
use rust_plugin_sdk.Prelude.{◌≡◌, refl, arith, ap, sym, ◌∙◌}
use rust_plugin_sdk.Error.{SdkError, Result, ok, err, panic}

abbrev pub Exec : Type 0 → Type 0 → Type 0
Exec S A = S → Result A × S

module _ {S A : Type 0} where
  abbrev pub pure : A → Exec S A
  pure a s = (ok a, s)

  abbrev pub raise : SdkError → Exec S A
  raise e s = (err e, s)

  abbrev pub lift : Result A → Exec S A
  lift r s = (r, s)

  abbrev pub gets : (S → A) → Exec S A
  gets f s = (ok (f s), s)

abbrev pub modify : {S : Type 0} → (S → S) → Exec S (Unit {0})
modify f s = (ok tt, f s)

module _ {S A B : Type 0} where
  abbrev pub proceed : Result A → (A → Exec S B) → Exec S B
  proceed (ok a) f s = f a s
  proceed (err e) f s = (err e, s)
  proceed (panic m) f s = (panic m, s)

  infixl 5 ◌>>=◌ ◌>>◌
  abbrev pub ◌>>=◌ : Exec S A → (A → Exec S B) → Exec S B
  ◌>>=◌ m f s = let (r, t) = m s in proceed r f t

  abbrev pub ◌>>◌ : Exec S A → Exec S B → Exec S B
  m >> n = m >>= λ _. n

-- A part that returned, and what follows it.
module _ {S A B : Type 0} where
  pub proceed-ok :
      (r : Result A) (f : A → Exec S B) (s : S) {b : B}
      → (proceed r f s).0 ≡ ok b
      → (a : A) × (r ≡ ok a) × (proceed r f s ≡ f a s)
  proceed-ok (ok a) f s h = (a, refl, refl)
  proceed-ok (err e) f s h = ground arith
  proceed-ok (panic m) f s h = ground arith

-- A bind that has returned: the value between, and what the rest did.
module _ {S A B : Type 0} where
  pub returned :
      (m : Exec S A) (f : A → Exec S B) (s : S) {b : B} {t : S}
      → (m >>= f) s ≡ (ok b, t)
      → (a : A) × ((m s).0 ≡ ok a) × (f a (m s).1 ≡ (ok b, t))
  returned m f s h =
      let (a, first, rest) = proceed-ok (m s).0 f (m s).1 (ap (λ x. x.0) h) in
      (a, first, sym rest ∙ h)
