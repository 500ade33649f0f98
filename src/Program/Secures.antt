-- ===== src/Program/Secures.antt =====
-- Threads that report their errors: what holds when all of them came back and none reported one.
use foc_devnet.Base.{
  ℕ, zero, suc, ◌+◌, ltb, ◌≡◌, ◌⊎◌, inl, inr, Bool, true, false, if◌then◌else◌, Option, some,
  Outcome, ok, err, panic, List, [], ◌∷◌, ◌++◌, All,
}
use foc_devnet.Program.{Program, run, ret, act, map_error, ◌>>=◌}
use foc_devnet.Program.Catch.{catch, attempts, pause, tried}
use foc_devnet.Program.Threads.{
  on_world, push_error, report, reporting, join_all, JoinsThreads, Stable, Will, Any, AnyPanics,
  Interleaves-Will,
}

module _ {W E A : Type 0} (G : W → Type 0) where
  -- Every way of the program to a success passes an action that makes `G` hold.
  abbrev pub Secures : Program W E A → Type 0
  Secures (ret (ok a)) = ⊥
  Secures (ret (err e)) = Unit
  Secures (ret panic) = Unit
  Secures (act u k) = (w : W) → G (u w) ⊎ Secures (k w)

module _ {W E A B : Type 0} (G : W → Type 0) where
  -- The part that secures it comes first.
  pub Secures-first :
      (m : Program W E A) (f : A → Program W E B) → Secures G m → Secures G (m >>= f)
  Secures-first (ret (ok a)) f s = elim s [ ]
  Secures-first (ret (err e)) f s = tt
  Secures-first (ret panic) f s = tt
  Secures-first (act u k) f s =
      λ w. elim (s w) [ inl now ↦ inl now | inr later ↦ inr (Secures-first (k w) f later) ]

  pub Secures-later :
      (m : Program W E A) (f : A → Program W E B)
      → ((a : A) → Secures G (f a))
      → Secures G (m >>= f)
  Secures-later (ret (ok a)) f s = s a
  Secures-later (ret (err e)) f s = tt
  Secures-later (ret panic) f s = tt
  Secures-later (act u k) f s = λ w. inr (Secures-later (k w) f s)

  pub Stable-bind :
      (m : Program W E A) (f : A → Program W E B)
      → Stable G m
      → ((a : A) → Stable G (f a))
      → Stable G (m >>= f)
  Stable-bind (ret (ok a)) f km kf = kf a
  Stable-bind (ret (err e)) f km kf = tt
  Stable-bind (ret panic) f km kf = tt
  Stable-bind (act u k) f km kf = λ w. ((km w).0, Stable-bind (k w) f (km w).1 kf)

module _ {W E D A : Type 0} (G : W → Type 0) where
  pub Stable-map_error : (g : E → D) (m : Program W E A) → Stable G m → Stable G (map_error g m)
  Stable-map_error g (ret r) k = tt
  Stable-map_error g (act u f) k = λ x. ((k x).0, Stable-map_error g (f x) (k x).1)

  pub Secures-map_error : (g : E → D) (m : Program W E A) → Secures G m → Secures G (map_error g m)
  Secures-map_error g (ret (ok a)) s = elim s [ ]
  Secures-map_error g (ret (err e)) s = tt
  Secures-map_error g (ret panic) s = tt
  Secures-map_error g (act u f) s =
      λ w. elim (s w) [ inl now ↦ inl now | inr later ↦ inr (Secures-map_error g (f w) later) ]

module _ {W E A : Type 0} (G : W → Type 0) where
  pub Stable-if :
      (b : Bool) (m n : Program W E A) → Stable G m → Stable G n → Stable G (if b then m else n)
  Stable-if true m n km kn = km
  Stable-if false m n km kn = kn

module _ {W E A : Type 0} (G : W → Type 0) where
  pub run-Stable : (m : Program W E A) (w : W) → Stable G m → G w → G (run m w).1
  unfolding run
  run-Stable (ret r) w k h = h
  run-Stable (act u f) w k h = run-Stable (f w) (u w) (k w).1 ((k w).0 h)

module _ {W E D A B : Type 0} (G : W → Type 0) where
  pub Stable-catch :
      (m : Program W E A) (f : Outcome E A → Program W D B)
      → Stable G m
      → ((r : Outcome E A) → Stable G (f r))
      → Stable G (catch m >>= f)
  unfolding catch
  Stable-catch (ret (ok a)) f km kf = kf (ok a)
  Stable-catch (ret (err e)) f km kf = kf (err e)
  Stable-catch (ret panic) f km kf = tt
  Stable-catch (act u k) f km kf = λ w. ((km w).0, Stable-catch (k w) f (km w).1 kf)

  pub Secures-catch :
      (m : Program W E A) (f : Outcome E A → Program W D B)
      → Secures G m
      → ((e : E) → Secures G (f (err e)))
      → Secures G (catch m >>= f)
  unfolding catch
  Secures-catch (ret (ok a)) f s sf = elim s [ ]
  Secures-catch (ret (err e)) f s sf = sf e
  Secures-catch (ret panic) f s sf = tt
  Secures-catch (act u k) f s sf =
      λ w. elim (s w) [ inl now ↦ inl now | inr later ↦ inr (Secures-catch (k w) f later sf) ]

module _ {E : Type 0} where
  abbrev NonEmpty : List E → Type 0
  NonEmpty [] = ⊥
  NonEmpty (e ∷ es) = Unit

  NonEmpty-push : (es : List E) (e : E) → NonEmpty (es ++ e ∷ [])
  NonEmpty-push [] e = tt
  NonEmpty-push (d ∷ es) e = tt

module _ {W E : Type 0} (G : W → Type 0) where
  -- `G`, or a thread has reported an error.
  abbrev pub OrError : W × List E → Type 0
  OrError s = NonEmpty s.1 ⊎ G s.0

  push_error-Stable : (e : E) → Stable OrError (push_error {W = W} e)
  push_error-Stable e = λ s. ((λ h. inl (NonEmpty-push s.1 e)), tt)

  report-Stable :
      (about : E → E) (r : Outcome E (Unit {0})) → Stable OrError (report {W = W} about r)
  report-Stable about (ok u) = tt
  report-Stable about (err e) = push_error-Stable (about e)
  report-Stable about panic = tt

  pub reporting-Stable :
      (about : E → E) (m : Program W E (Unit {0})) → Stable G m → Stable OrError (reporting about m)
  unfolding reporting on_world catch
  reporting-Stable about (ret (ok a)) k = tt
  reporting-Stable about (ret (err e)) k = push_error-Stable (about e)
  reporting-Stable about (ret panic) k = tt
  reporting-Stable about (act u f) k = λ s. (
    (λ h. elim h [ inl es ↦ inl es | inr g ↦ inr ((k s.0).0 g) ]),
    reporting-Stable about (f s.0) (k s.0).1,
  )

  pub reporting-Will :
      (about : E → E) (m : Program W E (Unit {0})) → Secures G m → Will OrError (reporting about m)
  unfolding reporting on_world catch
  reporting-Will about (ret (ok a)) s = elim s [ ]
  reporting-Will about (ret (err e)) s = λ w. inl (inl (NonEmpty-push w.1 (about e)))
  reporting-Will about (ret panic) s = tt
  reporting-Will about (act u k) s = λ w. elim (s w.0) [
    | inl now ↦ inl (inr now)
    | inr later ↦ inr (reporting-Will about (k w.0) later)
  ]

module _ {E : Type 0} (W : Type 0) (G : W × List E → Type 0) where
  none_panicked :
      (panicked : E) (rs : List (Outcome E (Unit {0})))
      → ok tt ≡ join_all panicked rs
      → AnyPanics G rs
      → ⊥
  unfolding join_all
  none_panicked panicked [] e p = p
  none_panicked panicked (ok u ∷ rs) e (inl p) = p
  none_panicked panicked (ok u ∷ rs) e (inr ps) = none_panicked panicked rs e ps
  none_panicked panicked (err d ∷ rs) e (inl p) = p
  none_panicked panicked (err d ∷ rs) e (inr ps) = none_panicked panicked rs e ps
  none_panicked panicked (panic ∷ rs) e p = cc

module _ {W : Type 0} (E : Type 0) (G : W → Type 0) where
  pub without_errors : (w : W) → OrError {E = E} G (w, []) → G w
  without_errors w (inl e) = elim e [ ]
  without_errors w (inr g) = g

module _ {W E : Type 0} (G : W → Type 0) where
  -- If the threads are joined, then what held before them or is secured by one of them, and none of
  -- them ends, holds behind them, unless an error has been reported.
  pub JoinsThreads-OrError :
      {panicked : E} {ps : List (Program (W × List E) E (Unit {0}))} {w w' : W} {es es' : List E}
      → JoinsThreads panicked ps w es w' es' (ok tt)
      → All (Stable (OrError G)) ps
      → OrError G (w, es) ⊎ Any (OrError G) ps
      → OrError G (w', es')
  JoinsThreads-OrError {panicked} j ss h = elim (Interleaves-Will (OrError G) j.interleaved ss h) [
    | inl g ↦ g
    | inr p ↦ absurd (none_panicked W (OrError G) panicked j.results j.joined p)
  ]

  -- The same where none has been reported.
  pub JoinsThreads-holds :
      {panicked : E} {ps : List (Program (W × List E) E (Unit {0}))} {w w' : W}
      → JoinsThreads panicked ps w [] w' [] (ok tt)
      → All (Stable (OrError G)) ps
      → G w ⊎ Any (OrError G) ps
      → G w'
  JoinsThreads-holds {w'} j ss (inl h) =
      without_errors E G w' (JoinsThreads-OrError j ss (inl (inr h)))
  JoinsThreads-holds {w'} j ss (inr will) =
      without_errors E G w' (JoinsThreads-OrError j ss (inr will))

module _ {W E A : Type 0} (G : W → Type 0) (sleep : ℕ → Program W E (Unit {0})) (no_error : E)
    (max_retries delay_secs : ℕ) (operation : ℕ → Program W E A) where
  tried-Stable :
      (again : E → Program W E A) (r : Outcome E A)
      → ((e : E) → Stable G (again e))
      → Stable G (tried again r)
  tried-Stable again (ok a) k = tt
  tried-Stable again (err e) k = k e
  tried-Stable again panic k = tt

  pub attempts-Stable :
      ((n : ℕ) → Stable G (sleep n))
      → ((i : ℕ) → Stable G (operation i))
      → (n attempt : ℕ) (last : Option E)
      → Stable G (attempts sleep no_error max_retries delay_secs operation n attempt last)
  unfolding attempts
  attempts-Stable slept k zero attempt last = tt
  attempts-Stable slept k (suc n) attempt last =
      Stable-catch G (operation attempt) _ (k attempt) λ r. tried-Stable _ r λ e.
        Stable-bind G (pause sleep max_retries delay_secs attempt) _
          (Stable-if G (ltb attempt max_retries) _ _ (slept delay_secs) tt)
          (λ u. attempts-Stable slept k n (attempt + 1) (some e))

  pub attempts-Secures :
      ((i : ℕ) → Secures G (operation i))
      → (n attempt : ℕ) (last : Option E)
      → Secures G (attempts sleep no_error max_retries delay_secs operation n attempt last)
  unfolding attempts
  attempts-Secures s zero attempt last = tt
  attempts-Secures s (suc n) attempt last = Secures-catch G (operation attempt) _ (s attempt) λ e.
      Secures-later G (pause sleep max_retries delay_secs attempt) _
        λ u. attempts-Secures s n (attempt + 1) (some e)
