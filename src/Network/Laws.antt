-- ===== src/Network/Laws.antt =====
-- src/docker/network.rs: what the calls about networks leave, given what Docker documents of its
-- commands about networks.
use foc_devnet.Base.{
  ℕ, ◌≡◌, ◌≢◌, refl, sym, ap, ◌∙◌, arith, if◌then◌else◌, Bool, true, false, [], ◌∷◌, ◌++◌,
  append_assoc, ok, Bool-cases, inl, inr,
}
use foc_devnet.Text.{Text, codes, to_string, text_eq, text_eq_iff}
use foc_devnet.Text.Decimal.{Digits, to_string-Digits}
use foc_devnet.Text.Split.{skip_space, is_whitespace}
use foc_devnet.Text.Search.{trim, trim_end, all_space, contains_text, starts_with}
use foc_devnet.Program.{run, pure, ◌>>◌}
use foc_devnet.Program.Loops.{run_bind-ok, run-pure-ok}
use foc_devnet.Shell.{Launch, Output, docker_command}
use foc_devnet.Shell.Success.{Launched, docker_command-Launched}
use foc_devnet.Network.{
  ls_args, create_args, rm_args, network_exists, create_network, delete_network, delete_if_there,
  lotus_network_name, lotus_miner_network_name, pdp_miner_network_name,
}

abbrev pub printed : Text → Bool → Text
printed name b = if b then name ++ b'\n' ∷ [] else []

-- A name that is still itself when it has been printed on a line and trimmed.
abbrev pub Tight : Text → Type 0
Tight name = (trim (name ++ b'\n' ∷ []) ≡ name) × (name ≢ [])

-- What Docker documents of its networks: `ls` with the filter of one name prints that name if there
-- is such a network and changes none, `create` adds the one and `rm` takes it away.
pub record Networks {X : Type 0} (launch : Launch X) (exists : Text → X → Bool) : Type 0 where
  pub ls_prints :
      (n : Text) (o : Output) (x y : X)
      → Launched launch (codes "docker") (ls_args n) o x y
      → o.stdout ≡ printed n (exists n x)
  pub ls_keeps :
      (n m : Text) (o : Output) (x y : X)
      → Launched launch (codes "docker") (ls_args n) o x y
      → exists m y ≡ exists m x
  pub create_adds :
      (n m : Text) (o : Output) (x y : X)
      → Launched launch (codes "docker") (create_args n) o x y
      → exists m y ≡ (if text_eq n m then true else exists m x)
  pub rm_removes :
      (n m : Text) (o : Output) (x y : X)
      → Launched launch (codes "docker") (rm_args n) o x y
      → exists m y ≡ (if text_eq n m then false else exists m x)

starts_with_refl : (s : Text) → starts_with s s ≡ true
unfolding starts_with
starts_with_refl [] = refl
starts_with_refl (c ∷ s) = ground (arith, starts_with_refl s)

pub contains_text-printed :
    (n : Text) (b : Bool) → Tight n → contains_text n (trim (printed n b)) ≡ b
unfolding contains_text trim skip_space trim_end starts_with
contains_text-printed [] b h = absurd (h.1 refl)
contains_text-printed (c ∷ n) false h = refl
contains_text-printed (c ∷ n) true h = rw h.0 (ground (arith, starts_with_refl n))

trim_end-Digits : (ds : Text) → Digits ds → trim_end (ds ++ b'\n' ∷ []) ≡ ds
unfolding trim_end all_space is_whitespace
trim_end-Digits [] h = refl
trim_end-Digits (c ∷ ds) h = ground (arith, trim_end-Digits ds h.1)

all_space-append : (s t : Text) → all_space t ≡ false → all_space (s ++ t) ≡ false
unfolding all_space
all_space-append [] t h = h
all_space-append (c ∷ s) t h = ground (arith, all_space-append s t h)

trim_end-append : (s t : Text) → all_space t ≡ false → trim_end (s ++ t) ≡ s ++ trim_end t
unfolding trim_end
trim_end-append [] t h = refl
trim_end-append (c ∷ s) t h = rw (all_space-append (c ∷ s) t h, trim_end-append s t h) refl

-- A name `f…` is tight if its end is not blank and stays when it is trimmed.
pub named-Tight :
    (p run_id s : Text)
    → all_space (s ++ b'\n' ∷ []) ≡ false
    → trim_end (s ++ b'\n' ∷ []) ≡ s
    → Tight (b'f' ∷ p ++ (run_id ++ s))
unfolding trim skip_space is_whitespace
named-Tight p run_id s h e = (
  rw (append_assoc p (run_id ++ s) (b'\n' ∷ []), append_assoc run_id s (b'\n' ∷ []))
      (ap (λ t. trim_end (b'f' ∷ t)) (sym (append_assoc p run_id (s ++ b'\n' ∷ [])))
        ∙ trim_end-append (b'f' ∷ p ++ run_id) (s ++ b'\n' ∷ []) h
        ∙ rw e (ap (λ t. b'f' ∷ t) (append_assoc p run_id s))),
  λ e. cc e,
)

pub lotus-Tight : (run_id : Text) → Tight (lotus_network_name run_id)
unfolding trim_end all_space is_whitespace
lotus-Tight run_id = named-Tight (codes "oc_") run_id (codes "_lot-net") refl refl

pub lotus_miner-Tight : (run_id : Text) → Tight (lotus_miner_network_name run_id)
unfolding trim_end all_space is_whitespace
lotus_miner-Tight run_id = named-Tight (codes "oc_") run_id (codes "_lot-m-net") refl refl

pub pdp_miner-Tight : (run_id : Text) (i : ℕ) → Tight (pdp_miner_network_name run_id i)
unfolding trim_end all_space is_whitespace
pdp_miner-Tight run_id i =
    named-Tight (codes "oc_") run_id (codes "_cur-m-net-" ++ to_string i) refl
      (ap (λ t. codes "_cur-m-net-" ++ t) (trim_end-Digits (to_string i) (to_string-Digits i)))

module _ {X : Type 0} (launch : Launch X) {exists : Text → X → Bool}
    (docker : Networks launch exists) where
  -- From `x` to `y`, the network of this name has come to be there or not; no other has changed.
  abbrev pub Becomes : Bool → Text → X → X → Type 0
  Becomes b n x y = (m : Text) → exists m y ≡ (if text_eq n m then b else exists m x)

  network_exists-ok :
      (n : Text) (b : Bool) (x y : X)
      → Tight n
      → run (network_exists launch n) x ≡ (ok b, y)
      → (b ≡ exists n x) × ((m : Text) → exists m y ≡ exists m x)
  unfolding network_exists
  network_exists-ok n b x y tight h =
      let (o, x₁, listed, found) = run_bind-ok (docker_command launch (ls_args n)) _ x y h in
      let (same, at) = run-pure-ok x₁ y found in
      let launched = docker_command-Launched launch (ls_args n) o x x₁ listed in
      (
        sym same
            ∙ ap (λ s. contains_text n (trim s)) (docker.ls_prints n o x x₁ launched)
            ∙ contains_text-printed n (exists n x) tight,
        λ m. ap (exists m) (sym at) ∙ docker.ls_keeps n m o x x₁ launched,
      )

  -- The state that is asked for is there already.
  there-Becomes : (b : Bool) (n : Text) (x y : X) → b ≡ exists n x → x ≡ y → Becomes b n x y
  there-Becomes b n x y there at m = elim (Bool-cases (text_eq n m)) [
    | inl e ↦ rw (e, sym at) (ap (λ k. exists k x) (sym ((text_eq_iff n m).0 e)) ∙ sym there)
    | inr e ↦ rw (e, sym at) refl
  ]

  kept-Becomes :
      (b : Bool) (n : Text) (x x₁ y : X)
      → ((m : Text) → exists m x₁ ≡ exists m x)
      → Becomes b n x₁ y
      → Becomes b n x y
  kept-Becomes b n x x₁ y keeps h m = h m ∙ ap (λ c. if text_eq n m then b else c) (keeps m)

  removed-Becomes :
      (b : Bool) (n : Text) (x y : X)
      → b ≡ exists n x
      → run (if b then docker_command launch (rm_args n) >> pure tt else pure tt) x ≡ (ok tt, y)
      → Becomes false n x y
  removed-Becomes true n x y is h =
      let (o, x₁, ran, rest) = run_bind-ok (docker_command launch (rm_args n)) _ x y h in
      λ m.
        ap (exists m) (sym (run-pure-ok x₁ y rest).1)
        ∙ docker.rm_removes n m o x x₁ (docker_command-Launched launch (rm_args n) o x x₁ ran)
  removed-Becomes false n x y is h = there-Becomes false n x y is (run-pure-ok x y h).1

  added-Becomes :
      (b : Bool) (n : Text) (x y : X)
      → b ≡ exists n x
      → run (if b then pure tt else docker_command launch (create_args n) >> pure tt) x ≡ (ok tt, y)
      → Becomes true n x y
  added-Becomes false n x y is h =
      let (o, x₁, ran, rest) = run_bind-ok (docker_command launch (create_args n)) _ x y h in
      λ m.
        ap (exists m) (sym (run-pure-ok x₁ y rest).1)
        ∙ docker.create_adds n m o x x₁ (docker_command-Launched launch (create_args n) o x x₁ ran)
  added-Becomes true n x y is h = there-Becomes true n x y is (run-pure-ok x y h).1

  pub delete_network-Becomes :
      (n : Text) (x y : X)
      → Tight n
      → run (delete_network launch n) x ≡ (ok tt, y)
      → Becomes false n x y
  unfolding delete_network
  delete_network-Becomes n x y tight h =
      let (b, x₁, asked, rest) = run_bind-ok (network_exists launch n) _ x y h in
      let (is, keeps) = network_exists-ok n b x x₁ tight asked in
      kept-Becomes false n x x₁ y keeps (removed-Becomes b n x₁ y (is ∙ sym (keeps n)) rest)

  pub create_network-Becomes :
      (n : Text) (x y : X)
      → Tight n
      → run (create_network launch n) x ≡ (ok tt, y)
      → Becomes true n x y
  unfolding create_network
  create_network-Becomes n x y tight h =
      let (b, x₁, asked, rest) = run_bind-ok (network_exists launch n) _ x y h in
      let (is, keeps) = network_exists-ok n b x x₁ tight asked in
      kept-Becomes true n x x₁ y keeps (added-Becomes b n x₁ y (is ∙ sym (keeps n)) rest)

  deleted-Becomes :
      (b : Bool) (n : Text) (x y : X)
      → Tight n
      → b ≡ exists n x
      → run (if b then delete_network launch n else pure tt) x ≡ (ok tt, y)
      → Becomes false n x y
  deleted-Becomes true n x y tight is h = delete_network-Becomes n x y tight h
  deleted-Becomes false n x y tight is h = there-Becomes false n x y is (run-pure-ok x y h).1

  pub delete_if_there-Becomes :
      (n : Text) (x y : X)
      → Tight n
      → run (delete_if_there launch n) x ≡ (ok tt, y)
      → Becomes false n x y
  delete_if_there-Becomes n x y tight h =
      let (b, x₁, asked, rest) = run_bind-ok (network_exists launch n) _ x y h in
      let (is, keeps) = network_exists-ok n b x x₁ tight asked in
      kept-Becomes false n x x₁ y keeps (deleted-Becomes b n x₁ y tight (is ∙ sym (keeps n)) rest)
