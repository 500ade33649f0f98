-- ===== src/Clean/Examples.antt =====
-- A home directory that is the list of its names, and a `clean` of it.
use foc_devnet.Base.{
  ◌↔◌, ◌≡◌, ◌≢◌, refl, sym, ap, ◌∙◌, arith, Option, ◌||◌, if◌then◌else◌, Bool, true, false, none,
  some, List, [], ◌∷◌, ◌++◌, map, Outcome, ok,
}
use foc_devnet.Base.Results.{ok-injective}
use foc_devnet.Text.{Text, codes, text_eq, text_eq_refl, text_eq→eq}
use foc_devnet.Text.Split.{strip_prefix}
use foc_devnet.Text.Search.{lines}
use foc_devnet.Program.{run}
use foc_devnet.Program.Loops.{for_each}
use foc_devnet.Shell.{Failure, Output}
use foc_devnet.Clean.{Disk, clean_docker_images, remove_entries, clean, is_clean_for_init}
use foc_devnet.Clean.Swept.{Directory, listed, all_read, is_clean_for_init-clean}

abbrev without : Text → List Text → List Text
without n [] = []
without n (x ∷ xs) = if text_eq x n then without n xs else x ∷ without n xs

abbrev holds : Text → List Text → Bool
holds m [] = false
holds m (x ∷ xs) = text_eq x m || holds m xs

abbrev without_path : Option Text → List Text → List Text
without_path none xs = xs
without_path (some n) xs = without n xs

abbrev removed : Text → List Text → Outcome Failure (Unit {0}) × List Text
removed path xs = (ok tt, without_path (strip_prefix (codes "/h/") path) xs)

abbrev silent : Output
silent = record { success = true; stdout = []; stderr = [] }

abbrev listing : Disk (List Text)
listing = record {
  launch = λ program args xs. (ok silent, xs);
  home = codes "/h";
  exists = λ path xs. true;
  is_dir = λ path xs. text_eq path (codes "/h/run");
  read_dir = λ path xs. (ok (map ok xs), xs);
  remove_dir_all = removed;
  remove_file = removed;
  is_not_found = λ e. false;
}

same_text : (n x m : Text) → text_eq x n ≡ true → text_eq x m ≡ text_eq n m
same_text n x m e = rw (text_eq→eq x n e) refl

same_as : (n x m : Text) → text_eq x m ≡ true → text_eq n m ≡ true → text_eq x n ≡ true
same_as n x m e f = rw (text_eq→eq x m e) (rw (text_eq→eq n m f) (text_eq_refl m))

holds-without :
    (n m : Text) (xs : List Text)
    → holds m (without n xs) ≡ (if text_eq n m then false else holds m xs)
holds-without n m [] = ground arith
holds-without n m (x ∷ xs) =
    let rest = holds-without n m xs in
    let same = same_text n x m in let joined = same_as n x m in ground arith

listed-map : (m : Text) (xs : List Text) → listed m (map ok xs) ≡ holds m xs
listed-map m [] = refl
listed-map m (x ∷ xs) = rw (listed-map m xs) refl

read_of :
    (m : Text) (xs y : List Text) (es : List (Outcome Failure Text))
    → map ok xs ≡ es
    → xs ≡ y
    → (holds m y ≡ holds m xs)
      × (listed m es ≡ true → holds m xs ≡ true)
      × (all_read es ≡ true → holds m xs ≡ true → listed m es ≡ true)
read_of m xs y es e f =
    let same = sym (listed-map m xs) ∙ ap (listed m) e in
    (ap (holds m) (sym f), λ l. same ∙ l, λ r t. sym same ∙ t)

removed_of :
    (n m : Text) (x y : List Text)
    → removed (codes "/h/" ++ n) x ≡ (ok tt, y)
    → holds m y ≡ (if text_eq n m then false else holds m x)
unfolding strip_prefix
removed_of n m x y h = ap (λ s. holds m s.1) (sym h) ∙ holds-without n m x

listing-Directory : Directory listing holds
listing-Directory = record {
  lists = λ m es x y h. read_of m x y es (ok-injective (ap (λ s. s.0) h)) (ap (λ s. s.1) h);
  dir_removed = removed_of;
  file_removed = removed_of;
  docker_keeps = λ args m x. refl;
}

abbrev names : List Text
names = codes "config.toml" ∷ codes "run" ∷ codes "keys" ∷ []

names_cleaned : run (clean listing false true) names ≡ (ok tt, codes "config.toml" ∷ [])
unfolding run clean remove_entries clean_docker_images for_each lines strip_prefix text_eq
names_cleaned = refl

is_clean_for_init-clean_example :
    ((m : Text)
      → (holds m (codes "config.toml" ∷ []) ≡ true)
        ↔ (◌≡◌ {A = Bool} false false × (m ≡ codes "config.toml") × (holds m names ≡ true)))
    × ((run (is_clean_for_init listing) (codes "config.toml" ∷ [])).0 ≢ ok false)
is_clean_for_init-clean_example =
    is_clean_for_init-clean listing listing-Directory false true names (codes "config.toml" ∷ [])
      names_cleaned refl
