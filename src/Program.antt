-- ===== src/Program.antt =====
-- Code that threads run against a shared object behind a lock: a program is a sequence of atomic
-- actions, each of which reads the object, replaces it, and goes on by what it read. Between two
-- actions of one thread, other threads may act.
pub mod Interleaving
pub mod Threads
pub mod Secures
pub mod Gathered
pub mod Success
pub mod Loops
pub mod Catch
pub mod Caught
use mathlib.Core.Path.{fun_ext}
use foc_devnet.Base.{
  ◌≡◌, refl, sym, ap, ◌∙◌, Outcome, ok, err, panic, List, [], ◌∷◌, Bool, true, false, if◌then◌else◌,
}
use foc_devnet.Base.Results
use foc_devnet.Base.Results.{ok-injective}

pub data Program (W E A : Type 0) : Type 0 where
  ret : Outcome E A → Program W E A
  act : (W → W) → (W → Program W E A) → Program W E A

module _ {W E A : Type 0} where
  abbrev pub pure : A → Program W E A
  pure a = ret (ok a)

  abbrev pub raise : E → Program W E A
  raise e = ret (err e)

  -- A read of the object under its lock.
  abbrev pub gets : (W → A) → Program W E A
  gets f = act (λ w. w) (λ w. pure (f w))

  -- A method that changes the object under its lock and returns a result.
  abbrev pub locked : (W → Outcome E A × W) → Program W E A
  locked m = act (λ w. (m w).1) (λ w. ret (m w).0)

  -- The program run with no other thread beside it.
  unfoldable pub run : Program W E A → W → Outcome E A × W
  run (ret r) w = (r, w)
  run (act u k) w = run (k w) (u w)

module _ {W E : Type 0} where
  abbrev pub modify : (W → W) → Program W E (Unit {0})
  modify u = act u (λ w. pure tt)

module _ {W E A B : Type 0} where
  abbrev pub then_do : Outcome E A → (A → Program W E B) → Program W E B
  then_do (ok a) f = f a
  then_do (err e) f = ret (err e)
  then_do panic f = ret panic

  infixl 5 ◌>>=◌ ◌>>◌
  abbrev pub ◌>>=◌ : Program W E A → (A → Program W E B) → Program W E B
  ret r >>= f = then_do r f
  act u k >>= f = act u (λ w. k w >>= f)

  abbrev pub ◌>>◌ : Program W E A → Program W E B → Program W E B
  m >> n = m >>= λ _. n

  -- What follows a program run alone.
  abbrev pub then_run : Outcome E A × W → (A → Program W E B) → Outcome E B × W
  then_run (ok a, w) f = run (f a) w
  then_run (err e, w) f = (err e, w)
  then_run (panic, w) f = (panic, w)

  pub run-bind :
      (m : Program W E A) (f : A → Program W E B) (w : W) → run (m >>= f) w ≡ then_run (run m w) f
  unfolding run
  run-bind (ret (ok a)) f w = refl
  run-bind (ret (err e)) f w = refl
  run-bind (ret panic) f w = refl
  run-bind (act u k) f w = run-bind (k w) f (u w)

-- `map_err` on what a program returns.
module _ {W E D A : Type 0} where
  abbrev pub map_error : (E → D) → Program W E A → Program W D A
  map_error f (ret r) = ret (Results.map_err f r)
  map_error f (act u k) = act u (λ w. map_error f (k w))

  pub run-map_error :
      (f : E → D) (m : Program W E A) (w : W)
      → run (map_error f m) w ≡ (Results.map_err f (run m w).0, (run m w).1)
  unfolding run
  run-map_error f (ret r) w = refl
  run-map_error f (act u k) w = run-map_error f (k w) (u w)

-- Every action of the program keeps `P`, whatever other threads do that keep it too.
module _ {W E A : Type 0} (P : W → Type 0) where
  abbrev pub Keeps : Program W E A → Type 0
  Keeps (ret r) = Unit
  Keeps (act u k) = (w : W) → P w → P (u w) × Keeps (k w)

module _ {W E A B : Type 0} (P : W → Type 0) where
  pub Keeps-bind :
      (m : Program W E A) (f : A → Program W E B)
      → Keeps P m
      → ((a : A) → Keeps P (f a))
      → Keeps P (m >>= f)
  Keeps-bind (ret (ok a)) f km kf = kf a
  Keeps-bind (ret (err e)) f km kf = tt
  Keeps-bind (ret panic) f km kf = tt
  Keeps-bind (act u k) f km kf = λ w h. ((km w h).0, Keeps-bind (k w) f (km w h).1 kf)

module _ {W E D A : Type 0} (P : W → Type 0) where
  pub Keeps-map_error : (g : E → D) (m : Program W E A) → Keeps P m → Keeps P (map_error g m)
  Keeps-map_error g (ret r) km = tt
  Keeps-map_error g (act u k) km = λ w h. ((km w h).0, Keeps-map_error g (k w) (km w h).1)

module _ {W E A B : Type 0} where
  -- Inversion of a run that succeeds.
  pub then_run-ok :
      (r : Outcome E A × W) (f : A → Program W E B) {b : B} {w : W}
      → then_run r f ≡ (ok b, w)
      → (a : A) × (r ≡ (ok a, r.1)) × (run (f a) r.1 ≡ (ok b, w))
  then_run-ok (ok a, v) f h = (a, refl, h)
  then_run-ok (err e, v) f h = cc
  then_run-ok (panic, v) f h = cc

  pub then_pure-ok :
      (r : Outcome E A × W) (g : A → B) {b : B} {w : W}
      → then_run r (λ a. pure (g a)) ≡ (ok b, w)
      → (a : A) × (r ≡ (ok a, w)) × (b ≡ g a)
  unfolding run
  then_pure-ok (ok a, v) g h = (a, ap (λ s. (ok a, s.1)) h, sym (ok-injective (ap (λ s. s.0) h)))
  then_pure-ok (err e, v) g h = cc (ap (λ s. s.0) h)
  then_pure-ok (panic, v) g h = cc (ap (λ s. s.0) h)
