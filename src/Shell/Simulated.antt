-- ===== src/Shell/Simulated.antt =====
-- A list of names that a program prints and takes names from, as the tests take it for Docker.
use foc_devnet.Base.{◌≡◌, refl, arith, if◌then◌else◌, Bool, true, false, List, [], ◌∷◌, ◌++◌}
use foc_devnet.Text.{Text, text_eq, text_eq_iff}
use foc_devnet.Shell.{Output, exactly}
use foc_devnet.Network.Laws.{printed}
use foc_devnet.Network.Cleanup.{one_of}

abbrev pub shown : Text → List Text → Text
shown filter [] = []
shown filter (k ∷ ks) = if text_eq (exactly k) filter then k ++ b'\n' ∷ [] else shown filter ks

abbrev pub without : Text → List Text → List Text
without n [] = []
without n (k ∷ ks) = if text_eq n k then without n ks else k ∷ without n ks

abbrev pub printing : Text → Output
printing s = record { success = true; stdout = s; stderr = [] }

abbrev pub exists : Text → List Text → Bool
exists n x = one_of n x

ends_eq : (s t : Text) → text_eq (s ++ b'$' ∷ []) (t ++ b'$' ∷ []) ≡ text_eq s t
unfolding text_eq
ends_eq [] [] = refl
ends_eq [] (d ∷ []) = ground arith
ends_eq [] (d ∷ e ∷ t) = ground arith
ends_eq (c ∷ []) [] = ground arith
ends_eq (c ∷ d ∷ s) [] = ground arith
ends_eq (c ∷ s) (d ∷ t) = ground (arith, ends_eq s t)

exactly_eq : (s t : Text) → text_eq (exactly s) (exactly t) ≡ text_eq s t
unfolding text_eq
exactly_eq s t = ends_eq s t

pub shown-printed : (n : Text) (x : List Text) → shown (exactly n) x ≡ printed n (exists n x)
unfolding one_of
shown-printed n [] = refl
shown-printed n (k ∷ x) = ground (arith, exactly_eq k n, text_eq_iff k n, shown-printed n x)

pub exists-without :
    (n m : Text) (x : List Text)
    → exists m (without n x) ≡ (if text_eq n m then false else exists m x)
unfolding one_of
exists-without n m [] = ground arith
exists-without n m (k ∷ x) =
    ground (arith, text_eq_iff n k, text_eq_iff n m, text_eq_iff k m, exists-without n m x)

pub exists-with :
    (n m : Text) (x : List Text) → exists m (n ∷ x) ≡ (if text_eq n m then true else exists m x)
unfolding one_of
exists-with n m x = ground arith
