-- ===== src/Base/Exec.antt =====
-- Methods that mutate an object and may fail: what was written before a failure stays written, so
-- the state comes back beside the error and beside a panic too.
use mathlib.Core.Path.{◌≡◌}
use foc_devnet.Base.Results.{Outcome, ok, err, panic}

abbrev pub Exec {ℓ κ ι} : Type ℓ → Type κ → Type ι → Type (ℓ ⊔ κ ⊔ ι)
Exec S E A = S → Outcome E A × S

module _ {ℓ κ ι} {S : Type ℓ} {E : Type κ} {A : Type ι} where
  abbrev pub pure : A → Exec S E A
  pure a s = (ok a, s)

  abbrev pub raise : E → Exec S E A
  raise e s = (err e, s)

  abbrev pub lift : Outcome E A → Exec S E A
  lift r s = (r, s)

  abbrev pub gets : (S → A) → Exec S E A
  gets f s = (ok (f s), s)

module _ {ℓ κ} {S : Type ℓ} {E : Type κ} where
  abbrev pub modify : (S → S) → Exec S E (Unit {0})
  modify f s = (ok tt, f s)

module _ {ℓ κ ι ν} {S : Type ℓ} {E : Type κ} {A : Type ι} {B : Type ν} where
  -- What follows a call that came back with this result and this state.
  abbrev pub continue : Outcome E A × S → (A → Exec S E B) → Outcome E B × S
  continue (ok a, s) f = f a s
  continue (err e, s) f = (err e, s)
  continue (panic, s) f = (panic, s)

  infixl 5 ◌>>=◌ ◌>>◌
  abbrev pub ◌>>=◌ : Exec S E A → (A → Exec S E B) → Exec S E B
  ◌>>=◌ m f s = continue (m s) f

  abbrev pub ◌>>◌ : Exec S E A → Exec S E B → Exec S E B
  m >> n = m >>= λ _. n

  -- A call that came back with a value goes on from the state that it left, whatever it is.
  pub continue-ok :
      (r : Outcome E A × S) (f : A → Exec S E B) {a : A} → r.0 ≡ ok a → continue r f ≡ f a r.1
  continue-ok (ok b, s) f h = cc
  continue-ok (err e, s) f h = cc
  continue-ok (panic, s) f h = cc

  pub continue-err :
      (r : Outcome E A × S) (f : A → Exec S E B) {e : E} → r.0 ≡ err e → continue r f ≡ (err e, r.1)
  continue-err (ok b, s) f h = cc
  continue-err (err e, s) f h = cc
  continue-err (panic, s) f h = cc
