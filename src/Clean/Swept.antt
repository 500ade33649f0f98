-- ===== src/Clean/Swept.antt =====
-- src/commands/clean.rs: the home directory behind a `clean`.
use mathlib.Core.Path.{subst}
use foc_devnet.Base.{
  ◌↔◌, ◌≡◌, ◌≢◌, refl, sym, ap, ◌∙◌, arith, ◌&&◌, ◌||◌, not, if◌then◌else◌, Bool, true, false,
  Bool-cases, inl, inr, List, [], ◌∷◌, All, Outcome, ok, err, panic,
}
use mathlib.Core.List.{tail}
use foc_devnet.Text.Keys.{append_cancel}
use foc_devnet.Paths.{foc_devnet_config}
use foc_devnet.Text.{Text, codes, text_eq, text_eq_refl, text_eq→eq}
use foc_devnet.Text.Search.{lines}
use foc_devnet.Program.{run, pure, locked, ◌>>◌, Keeps, Keeps-bind, Keeps-map_error}
use foc_devnet.Program.Caught.{Keeps-if, Keeps-for_each}
use foc_devnet.Program.Loops.{run_bind-ok, run-pure-ok, run-ret, run-locked, for_each}
use foc_devnet.Program.Success.{run-Keeps}
use foc_devnet.Paths.{◌/◌}
use foc_devnet.Shell.{Failure}
use foc_devnet.Shell.Containers.{is_foc_devnet_image}
use foc_devnet.Clean.{
  Disk, docker, remove_image, clean_docker_images, is_kept, remove_entry, remove_entries,
  clean_home, clean, is_ignored, only_ignored, ready, is_clean_for_init, docker_error,
}

abbrev pub listed : Text → List (Outcome Failure Text) → Bool
listed m [] = false
listed m (ok name ∷ es) = text_eq name m || listed m es
listed m (err e ∷ es) = listed m es
listed m (panic ∷ es) = listed m es

abbrev pub all_read : List (Outcome Failure Text) → Bool
all_read [] = true
all_read (ok name ∷ es) = all_read es
all_read (err e ∷ es) = false
all_read (panic ∷ es) = false

-- What is documented of the file system: `read_dir` lists the entries that are there and, where every
-- entry can be read, all of them; what is removed is not there any more, and nothing else goes; and no
-- command of Docker changes the directory.
pub record Directory {X : Type 0} (disk : Disk X) (there : Text → X → Bool) : Type 0 where
  pub lists :
      (m : Text) (es : List (Outcome Failure Text)) (x y : X)
      → disk.read_dir disk.home x ≡ (ok es, y)
      → (there m y ≡ there m x)
        × (listed m es ≡ true → there m x ≡ true)
        × (all_read es ≡ true → there m x ≡ true → listed m es ≡ true)
  pub dir_removed :
      (n m : Text) (x y : X)
      → disk.remove_dir_all (disk.home / n) x ≡ (ok tt, y)
      → there m y ≡ (if text_eq n m then false else there m x)
  pub file_removed :
      (n m : Text) (x y : X)
      → disk.remove_file (disk.home / n) x ≡ (ok tt, y)
      → there m y ≡ (if text_eq n m then false else there m x)
  pub docker_keeps :
      (args : List Text) (m : Text) (x : X)
      → there m (disk.launch (codes "docker") args x).1 ≡ there m x

module _ {A : Type 0} (P : A → Type 0) where
  All-always : ((a : A) → P a) → (xs : List A) → All P xs
  All-always f [] = tt
  All-always f (x ∷ xs) = (f x, All-always f xs)

-- One entry more has been gone through: `kn` and `km` are whether it and the entry in question are
-- kept, `t` is whether they are the same, `l` whether that one is among the others.
one_more :
    (kn km t l before between after : Bool)
    → (t ≡ true → kn ≡ km)
    → between ≡ (if kn then before else if t then false else before)
    → after ≡ (between && (km || not l))
    → after ≡ (before && (km || not (t || l)))
one_more kn km true l before between after f h e = let same = f refl in ground arith
one_more kn km false l before between after f h e = ground arith

accounted :
    (k l : Bool) {b b₁ b₂ b₃ : Bool}
    → b₁ ≡ b
    → (l ≡ true → b ≡ true)
    → (b ≡ true → l ≡ true)
    → b₂ ≡ (b₁ && (k || not l))
    → b₃ ≡ b₂
    → b₃ ≡ (k && b)
accounted k l same sound found after rest = ground arith

module _ {X : Type 0} (disk : Disk X) {there : Text → X → Bool} (dir : Directory disk there)
    (all : Bool) (m : Text) where
  remove_entry_lem :
      (n : Text) (x y : X)
      → run (remove_entry disk (disk.home / n)) x ≡ (ok tt, y)
      → there m y ≡ (if text_eq n m then false else there m x)
  unfolding run
  remove_entry_lem n x y h = elim (Bool-cases (disk.is_dir (disk.home / n) x)) [
    | inl is ↦ dir.dir_removed n m x y (
        subst
          (λ b.
            run
              (if b
                then locked (disk.remove_dir_all (disk.home / n))
                else locked (disk.remove_file (disk.home / n)))
              x
            ≡ (ok tt, y))
          is h)
    | inr is ↦ dir.file_removed n m x y (
        subst
          (λ b.
            run
              (if b
                then locked (disk.remove_dir_all (disk.home / n))
                else locked (disk.remove_file (disk.home / n)))
              x
            ≡ (ok tt, y))
          is h)
  ]

  stepped :
      (n : Text) (k : Bool) (x y : X) {u : Unit {0}}
      → run (if k then pure tt else remove_entry disk (disk.home / n)) x ≡ (ok u, y)
      → there m y ≡ (if k then there m x else if text_eq n m then false else there m x)
  stepped n true x y h = ap (there m) (sym (run-pure-ok x y h).1)
  stepped n false x y h = remove_entry_lem n x y h

  remove_entries_lem :
      (es : List (Outcome Failure Text)) (x y : X)
      → run (remove_entries disk all es) x ≡ (ok tt, y)
      → (there m y ≡ (there m x && (is_kept disk all m || not (listed m es))))
        × (all_read es ≡ true)
  unfolding remove_entries
  remove_entries_lem [] x y h = (ap (there m) (sym (run-pure-ok x y h).1) ∙ ground arith, refl)
  remove_entries_lem (err e ∷ es) x y h = let f : err e ≡ ok tt = run-ret (err e) x y h in cc f
  remove_entries_lem (panic ∷ es) x y h =
      let f : ◌≡◌ {A = Outcome Failure (Unit {0})} panic (ok tt) = run-ret panic x y h in cc f
  remove_entries_lem (ok name ∷ es) x y h =
      let step = if is_kept disk all name then pure tt else remove_entry disk (disk.home / name) in
      let (u, x₁, e₁, h₁) = run_bind-ok step _ x y h in
      let (after, read) = remove_entries_lem es x₁ y h₁ in
      (
        one_more (is_kept disk all name) (is_kept disk all m) (text_eq name m) (listed m es)
            (there m x) (there m x₁) (there m y) (λ e. ap (is_kept disk all) (text_eq→eq name m e))
            (stepped name (is_kept disk all name) x x₁ e₁) after,
        read,
      )

  launch_Keeps : (c : Bool) (args : List Text) → Keeps (λ x. there m x ≡ c) (docker disk args)
  launch_Keeps c args =
      Keeps-map_error (λ x. there m x ≡ c) (docker_error disk)
        (locked (disk.launch (codes "docker") args)) (λ x h. (dir.docker_keeps args m x ∙ h, tt))

  remove_image-Keeps :
      (c : Bool) (line : Text) → Keeps (λ x. there m x ≡ c) (remove_image disk line)
  remove_image-Keeps c line =
      Keeps-if (λ x. there m x ≡ c) (is_foc_devnet_image line)
        (docker disk (codes "rmi" ∷ line ∷ []) >> pure tt) (pure tt)
        (Keeps-bind (λ x. there m x ≡ c) (docker disk (codes "rmi" ∷ line ∷ [])) _
          (launch_Keeps c _) (λ u. tt))
        tt

  -- Removing the images changes nothing of the directory.
  clean_docker_images-Keeps : (c : Bool) → Keeps (λ x. there m x ≡ c) (clean_docker_images disk)
  unfolding clean_docker_images
  clean_docker_images-Keeps c =
      Keeps-bind (λ x. there m x ≡ c) (docker disk _) _ (launch_Keeps c _)
        (λ output.
          Keeps-if (λ x. there m x ≡ c) output.success
            (for_each (lines output.stdout) (remove_image disk)) (pure tt)
            (Keeps-for_each (λ x. there m x ≡ c) (lines output.stdout) (remove_image disk)
              (All-always _ (remove_image-Keeps c) (lines output.stdout)))
            tt)

  images-Keeps :
      (images : Bool) (x y : X) {u : Unit {0}}
      → run (if images then clean_docker_images disk else pure tt) x ≡ (ok u, y)
      → there m y ≡ there m x
  images-Keeps images x y h =
      let k =
        run-Keeps (λ z. there m z ≡ there m x)
          (if images then clean_docker_images disk else pure tt) x
          (Keeps-if _ images (clean_docker_images disk) (pure tt)
            (clean_docker_images-Keeps (there m x)) tt)
          refl in
      ap (λ s. there m s.1) (sym h) ∙ k

  clean_home_lem :
      (images : Bool) (x y : X)
      → run (clean_home disk all images) x ≡ (ok tt, y)
      → there m y ≡ (is_kept disk all m && there m x)
  clean_home_lem images x y h =
      let (es, x₁, e₁, h₁) = run_bind-ok (locked (disk.read_dir disk.home)) _ x y h in
      let (u, x₂, e₂, h₂) = run_bind-ok (remove_entries disk all es) _ x₁ y h₁ in
      let (same, sound, complete) =
        dir.lists m es x x₁ (run-locked (disk.read_dir disk.home) x x₁ e₁) in
      let (after, read) = remove_entries_lem es x₁ x₂ e₂ in
      let rest = images-Keeps images x₂ y h₂ in
      let found = complete read in
      accounted (is_kept disk all m) (listed m es) same sound found after rest

  clean-there :
      (images : Bool) (x y : X)
      → run (clean disk all images) x ≡ (ok tt, y)
      → disk.exists disk.home x ≡ true
      → there m y ≡ (is_kept disk all m && there m x)
  unfolding clean run
  clean-there images x y h e =
      clean_home_lem images x y
        (subst (λ b. run (if b then clean_home disk all images else pure tt) x ≡ (ok tt, y)) e h)

module _ {X : Type 0} (disk : Disk X) where
  only_ignored_lem :
      (es : List (Outcome Failure Text)) (x y : X) {b : Bool}
      → run (only_ignored disk es) x ≡ (ok b, y)
      → ((m : Text) → listed m es ≡ true → is_ignored disk m ≡ true)
      → b ≡ true
  unfolding only_ignored
  only_ignored_lem [] x y h f = sym (run-pure-ok x y h).0
  only_ignored_lem (err e ∷ es) x y {b} h f = let g : err e ≡ ok b = run-ret (err e) x y h in cc g
  only_ignored_lem (panic ∷ es) x y {b} h f =
      let g : ◌≡◌ {A = Outcome Failure Bool} panic (ok b) = run-ret panic x y h in cc g
  only_ignored_lem (ok name ∷ es) x y {b} h f =
      only_ignored_lem es x y
        (subst (λ c. run (if c then only_ignored disk es else pure false) x ≡ (ok b, y))
          (f name (rw (text_eq_refl name) refl)) h)
        (λ m l. f m (ground (arith, l)))

  ready_lem :
      {there : Text → X → Bool} (dir : Directory disk there) (x y : X) {b : Bool}
      → run (ready disk) x ≡ (ok b, y)
      → ((m : Text) → there m x ≡ true → is_ignored disk m ≡ true)
      → b ≡ true
  ready_lem dir x y h f =
      let (es, x₁, e₁, h₁) = run_bind-ok (locked (disk.read_dir disk.home)) _ x y h in
      only_ignored_lem es x₁ y h₁
        (λ m l. f m ((dir.lists m es x x₁ (run-locked (disk.read_dir disk.home) x x₁ e₁)).1 l))

  -- Where all that is there is ignored, the answer is never that the directory is not clean.
  answers_true :
      {there : Text → X → Bool} (dir : Directory disk there) (x y : X) {b : Bool}
      → ((m : Text) → there m x ≡ true → is_ignored disk m ≡ true)
      → run (is_clean_for_init disk) x ≡ (ok b, y)
      → b ≡ true
  unfolding is_clean_for_init run
  answers_true dir x y {b} f h = elim (Bool-cases (disk.exists disk.home x)) [
    | inl is ↦
        ready_lem dir x y
          (subst (λ c. run (if c then ready disk else pure true) x ≡ (ok b, y)) is h) f
    | inr is ↦
        sym
          (run-pure-ok x y
            (subst (λ c. run (if c then ready disk else pure true) x ≡ (ok b, y)) is h)).0
  ]

  kept_is_ignored :
      (all : Bool) (m : Text) (before : Bool) {b : Bool}
      → b ≡ true
      → b ≡ (is_kept disk all m && before)
      → is_ignored disk m ≡ true
  kept_is_ignored all m before e h = ground arith

  -- The path of a name is that of the configuration exactly if the name is that of its file.
  is_config :
      (m : Text)
      → (text_eq (disk.home / m) (foc_devnet_config disk.home) ≡ true) ↔ (m ≡ codes "config.toml")
  is_config m = (
    (λ h. ap tail (append_cancel disk.home _ _ (text_eq→eq _ _ h))),
    λ e. rw e (text_eq_refl (foc_devnet_config disk.home)),
  )

  kept_iff :
      (all : Bool) (m : Text) (before after : Bool)
      → after ≡ (is_kept disk all m && before)
      → (after ≡ true) ↔ ((all ≡ false) × (m ≡ codes "config.toml") × (before ≡ true))
  kept_iff all m before after h = (
    λ t.
        let both : (all ≡ false)
            × (text_eq (disk.home / m) (foc_devnet_config disk.home) ≡ true)
            × (before ≡ true) =
          ground arith in
        (both.0, (is_config m).0 both.1, both.2),
    λ (without, e, b). let same = (is_config m).1 e in ground arith,
  )

  not_refused :
      {there : Text → X → Bool} (dir : Directory disk there) (x : X)
      → ((m : Text) → there m x ≡ true → is_ignored disk m ≡ true)
      → (run (is_clean_for_init disk) x).0 ≢ ok false
  not_refused dir x f h =
      let answered : ◌≡◌ {A = Bool} false true =
        answers_true dir x (run (is_clean_for_init disk) x).1 f
          (λ i. (h i, (run (is_clean_for_init disk) x).1)) in
      cc answered

  -- Where the home directory is there and `clean` succeeds, an entry is there behind it exactly if `--all`
  -- was not given, it is `config.toml` and it was there before; whether the images are removed or not. And
  -- `is_clean_for_init` does not answer behind it that the directory is not clean.
  pub is_clean_for_init-clean :
      {there : Text → X → Bool} (dir : Directory disk there)
      → (all images : Bool) (x y : X) → run (clean disk all images) x ≡ (ok tt, y)
      → disk.exists disk.home x ≡ true
      → ((m : Text)
          → (there m y ≡ true) ↔ ((all ≡ false) × (m ≡ codes "config.toml") × (there m x ≡ true)))
        × ((run (is_clean_for_init disk) y).0 ≢ ok false)
  is_clean_for_init-clean {there} dir all images x y h e =
      let left = λ (m : Text). clean-there disk dir all m images x y h e in
      (
        λ m. kept_iff all m (there m x) (there m y) (left m),
        not_refused dir y (λ m t. kept_is_ignored all m (there m x) t (left m)),
      )
