-- ===== src/RunId/Examples.antt =====
-- A second attempt that finds its directory unused.
use mathlib.Core.Path.{subst}
use foc_devnet.Base.{
  ℕ, zero, suc, ◌<◌, ◌≡◌, refl, ap, arith, if◌then◌else◌, Bool, true, false, some, List, [], ◌∷◌,
  ok,
}
use foc_devnet.Text.{Text, codes, text_eq, text_eq_refl}
use foc_devnet.Paths.{foc_devnet_runs}
use foc_devnet.Network.Cleanup.{one_of}
use foc_devnet.RunId.{Made, Disk, Draw, created, already_exists, candidate_dir, generate_run_id}
use foc_devnet.RunId.Reserve.{Directories, generate_run_id-candidate}

abbrev there : Text → List Text → Bool
there p x = one_of p x

abbrev disk : Disk (List Text)
disk = record {
  home = codes "h";
  create_dir_all = λ p x. (ok tt, x);
  create_dir = λ p x. if there p x then (already_exists, x) else (created, p ∷ x);
}

by_test :
    (b : Bool) (p : Text) (x y : List Text)
    → ◌≡◌ {A = Made × List Text} (if b then (already_exists, x) else (created, p ∷ x)) (created, y)
    → there p y ≡ true
unfolding one_of
by_test true p x y h = let f = ap (λ r. r.0) h in cc f
by_test false p x y h = subst (λ z. there p z ≡ true) (ap (λ r. r.1) h) (rw text_eq_refl refl)

disk-Directories : Directories disk there
disk-Directories = record {
  refuses = λ p x h. rw h refl;
  makes = λ p x y h. by_test (there p x) p x y h;
}

abbrev noun_of : ℕ → Text
noun_of zero = codes "Pip"
noun_of (suc i) = codes "Moo"

abbrev draw : ℕ → Draw
draw i = record { datetime = codes "20260507T1747"; adjective = codes "Zany"; noun = noun_of i }

abbrev taken : List Text
taken = codes "h/run/20260507T1747_ZanyPip" ∷ []

first_taken :
    (j : ℕ) → j < 1 → there (candidate_dir disk draw (foc_devnet_runs (codes "h")) j) taken ≡ true
unfolding one_of text_eq
first_taken zero h = refl
first_taken (suc j) h = absurd (omega arith)

generate_run_id-candidate_example :
    (generate_run_id disk draw 2 taken
      ≡ some (ok (codes "20260507T1747_ZanyMoo"), codes "h/run/20260507T1747_ZanyMoo" ∷ taken))
    × (there (codes "h/run/20260507T1747_ZanyMoo") taken ≡ false)
    × (there (codes "h/run/20260507T1747_ZanyMoo") (codes "h/run/20260507T1747_ZanyMoo" ∷ taken)
        ≡ true)
unfolding one_of text_eq
generate_run_id-candidate_example =
    generate_run_id-candidate disk disk-Directories draw 1 2 taken taken
      (codes "h/run/20260507T1747_ZanyMoo" ∷ taken) (omega arith) refl first_taken refl
