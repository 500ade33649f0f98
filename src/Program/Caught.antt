-- ===== src/Program/Caught.antt =====
-- `match` on the result of a call: what it keeps, and what the call did if it succeeded.
use foc_devnet.Program.Loops.{for_each}
use foc_devnet.Base.{
  ◌≡◌, ap, List, [], ◌∷◌, All, if◌then◌else◌, Bool, true, false, Outcome, ok, err, panic,
}
use foc_devnet.Base.Results.{ok-injective}
use foc_devnet.Program.{Program, ret, act, run, Keeps, Keeps-bind}
use foc_devnet.Program.Catch.{catch}

module _ {W E A : Type 0} (D : Type 0) (P : W → Type 0) where
  pub Keeps-catch : (m : Program W E A) → Keeps P m → Keeps P (catch {D = D} m)
  unfolding catch
  Keeps-catch (ret (ok a)) k = tt
  Keeps-catch (ret (err e)) k = tt
  Keeps-catch (ret panic) k = tt
  Keeps-catch (act u f) k = λ w h. ((k w h).0, Keeps-catch (f w) (k w h).1)

module _ {W E A : Type 0} (P : W → Type 0) where
  pub Keeps-if :
      (b : Bool) (m n : Program W E A) → Keeps P m → Keeps P n → Keeps P (if b then m else n)
  Keeps-if true m n km kn = km
  Keeps-if false m n km kn = kn

module _ {E A : Type 0} where
  ok_ok-injective : {a b : A} → ◌≡◌ {A = Outcome E (Outcome E A)} (ok (ok a)) (ok (ok b)) → a ≡ b
  ok_ok-injective h = ok-injective (ok-injective h)

module _ {W E A : Type 0} where
  -- A call whose value is matched came back with it.
  pub run-catch :
      (m : Program W E A) (a : A) (w v : W)
      → run (catch {D = E} m) w ≡ (ok (ok a), v)
      → run m w ≡ (ok a, v)
  unfolding catch run
  run-catch (ret (ok b)) a w v h =
      λ i. (ok (ok_ok-injective (ap (λ s. s.0) h) i), ap (λ s. s.1) h i)
  run-catch (ret (err e)) a w v h = cc (ap (λ s. s.0) h)
  run-catch (ret panic) a w v h = cc (ap (λ s. s.0) h)
  run-catch (act u k) a w v h = run-catch (k w) a (u w) v h

module _ {W E A : Type 0} (P : W → Type 0) where
  pub Keeps-for_each :
      (xs : List A) (body : A → Program W E (Unit {0}))
      → All (λ x. Keeps P (body x)) xs
      → Keeps P (for_each xs body)
  unfolding for_each
  Keeps-for_each [] body k = tt
  Keeps-for_each (x ∷ xs) body k = Keeps-bind P (body x) _ k.0 (λ u. Keeps-for_each xs body k.1)

module _ {W E A : Type 0} (D : Type 0) where
  -- A call that comes back with a value is matched with it.
  pub catch-run :
      (m : Program W E A) (a : A) (w v : W)
      → run m w ≡ (ok a, v)
      → run (catch {D = D} m) w ≡ (ok (ok a), v)
  unfolding catch run
  catch-run (ret (ok b)) a w v h =
      λ i. (ok (ok (ok-injective (ap (λ s. s.0) h) i)), ap (λ s. s.1) h i)
  catch-run (ret (err e)) a w v h = cc (ap (λ s. s.0) h)
  catch-run (ret panic) a w v h = cc (ap (λ s. s.0) h)
  catch-run (act u k) a w v h = catch-run (k w) a (u w) v h
