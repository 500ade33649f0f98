-- ===== src/Network/Cleanup.antt =====
-- src/docker/network.rs: all the networks of a run, created and deleted.
use foc_devnet.Base.{
  ℕ, zero, suc, ◌+◌, ◌≤◌, ◌≡◌, sym, ap, arith, if◌then◌else◌, Bool, true, false, ◌||◌, List, [],
  ◌∷◌, map, ok,
}
use foc_devnet.Text.{Text, text_eq}
use foc_devnet.Config.{max_pdp_sp_count}
use foc_devnet.Program.{Program, run}
use foc_devnet.Program.Loops.{range, for_each, run_bind-ok, run-pure-ok}
use foc_devnet.Shell.{Launch, Failure}
use foc_devnet.Network.{
  create_network, delete_network, lotus_network_name, lotus_miner_network_name,
  pdp_miner_network_name, create_all_networks, delete_all_networks,
}
use foc_devnet.Network.Laws.{
  Networks, lotus-Tight, lotus_miner-Tight, pdp_miner-Tight, create_network-Becomes,
  delete_network-Becomes, delete_if_there-Becomes,
}

unfoldable pub one_of : Text → List Text → Bool
one_of m [] = false
one_of m (n ∷ names) = text_eq n m || one_of m names

abbrev pdp_names : Text → ℕ → List Text
pdp_names run_id n = map (pdp_miner_network_name run_id) (range 1 n)

-- The networks of a run with `n` active providers.
abbrev pub run_networks : Text → ℕ → List Text
run_networks run_id n =
    lotus_network_name run_id ∷ lotus_miner_network_name run_id ∷ pdp_names run_id n

module _ {X : Type 0} (exists : Text → X → Bool) where
  -- From `x` to `y`, all networks of these names have come to be there or not; no other has changed.
  abbrev pub AllBecome : Bool → List Text → X → X → Type 0
  AllBecome b names x y = (m : Text) → exists m y ≡ (if one_of m names then b else exists m x)

  Becomes-AllBecome :
      (b : Bool) (n : Text) (names : List Text) (x x₁ y : X)
      → ((m : Text) → exists m x₁ ≡ (if text_eq n m then b else exists m x))
      → AllBecome b names x₁ y
      → AllBecome b (n ∷ names) x y
  unfolding one_of
  Becomes-AllBecome b n names x x₁ y h k m = ground (arith, h m, k m)

module _ {X : Type 0} {exists : Text → X → Bool} where
  for_each-AllBecome :
      (b : Bool) (body : ℕ → Program X Failure (Unit {0})) (name : ℕ → Text)
      → ((i : ℕ) (x y : X)
          → run (body i) x ≡ (ok tt, y)
          → (m : Text) → exists m y ≡ (if text_eq (name i) m then b else exists m x))
      → (is : List ℕ) (x y : X) → run (for_each is body) x ≡ (ok tt, y)
      → AllBecome exists b (map name is) x y
  unfolding for_each one_of
  for_each-AllBecome b body name each [] x y h = λ m. ap (exists m) (sym (run-pure-ok x y h).1)
  for_each-AllBecome b body name each (i ∷ is) x y h =
      let (u, x₁, first, rest) = run_bind-ok (body i) _ x y h in
      Becomes-AllBecome exists b (name i) (map name is) x x₁ y (each i x x₁ first)
        (for_each-AllBecome b body name each is x₁ y rest)

one_of-longer :
    (name : ℕ → Text) (m : Text) (i n k : ℕ)
    → n ≤ k
    → one_of m (map name (range i n)) ≡ true
    → one_of m (map name (range i k)) ≡ true
unfolding one_of
one_of-longer name m i zero k le h = cc
one_of-longer name m i (suc n) zero le h = absurd (omega arith)
one_of-longer name m i (suc n) (suc k) le h =
    ground (arith, one_of-longer name m (i + 1) n k (omega arith))

one_of-run_networks :
    (run_id m : Text) (n k : ℕ)
    → n ≤ k
    → one_of m (run_networks run_id n) ≡ true
    → one_of m (run_networks run_id k) ≡ true
unfolding one_of
one_of-run_networks run_id m n k le h =
    ground (arith, one_of-longer (pdp_miner_network_name run_id) m 1 n k le)

module _ {X : Type 0} (launch : Launch X) {exists : Text → X → Bool}
    (docker : Networks launch exists) where
  pub create_all-AllBecome :
      (run_id : Text) (n : ℕ) (x y : X)
      → run (create_all_networks launch run_id n) x ≡ (ok tt, y)
      → AllBecome exists true (run_networks run_id n) x y
  unfolding create_all_networks
  create_all-AllBecome run_id n x y h =
      let (u, x₁, lotus, h₁) =
        run_bind-ok (create_network launch (lotus_network_name run_id)) _ x y h in
      let (v, x₂, miner, h₂) =
        run_bind-ok (create_network launch (lotus_miner_network_name run_id)) _ x₁ y h₁ in
      Becomes-AllBecome exists true (lotus_network_name run_id) _ x x₁ y
        (create_network-Becomes launch docker (lotus_network_name run_id) x x₁ (lotus-Tight run_id)
          lotus)
        (Becomes-AllBecome exists true (lotus_miner_network_name run_id) _ x₁ x₂ y
          (create_network-Becomes launch docker (lotus_miner_network_name run_id) x₁ x₂
            (lotus_miner-Tight run_id) miner)
          (for_each-AllBecome true _ (pdp_miner_network_name run_id)
            (λ i x y.
              create_network-Becomes launch docker (pdp_miner_network_name run_id i) x y
                (pdp_miner-Tight run_id i))
            (range 1 n) x₂ y h₂))

  pub delete_all-AllBecome :
      (run_id : Text) (x y : X)
      → run (delete_all_networks launch run_id) x ≡ (ok tt, y)
      → AllBecome exists false (run_networks run_id max_pdp_sp_count) x y
  unfolding delete_all_networks
  delete_all-AllBecome run_id x y h =
      let (u, x₁, lotus, h₁) =
        run_bind-ok (delete_network launch (lotus_network_name run_id)) _ x y h in
      let (v, x₂, miner, h₂) =
        run_bind-ok (delete_network launch (lotus_miner_network_name run_id)) _ x₁ y h₁ in
      Becomes-AllBecome exists false (lotus_network_name run_id) _ x x₁ y
        (delete_network-Becomes launch docker (lotus_network_name run_id) x x₁ (lotus-Tight run_id)
          lotus)
        (Becomes-AllBecome exists false (lotus_miner_network_name run_id) _ x₁ x₂ y
          (delete_network-Becomes launch docker (lotus_miner_network_name run_id) x₁ x₂
            (lotus_miner-Tight run_id) miner)
          (for_each-AllBecome false _ (pdp_miner_network_name run_id)
            (λ i x y.
              delete_if_there-Becomes launch docker (pdp_miner_network_name run_id i) x y
                (pdp_miner-Tight run_id i))
            (range 1 max_pdp_sp_count) x₂ y h₂))

  -- After the networks of a run of at most five providers have been created and those of its run ID
  -- deleted, each call with success, the networks are those that were there before, less those that
  -- have a name of the run, if Docker keeps to what it documents of its networks.
  pub delete_all_networks-create_all_networks :
      (run_id : Text) (n : ℕ) (x y z : X)
      → n ≤ max_pdp_sp_count
      → run (create_all_networks launch run_id n) x ≡ (ok tt, y)
      → run (delete_all_networks launch run_id) y ≡ (ok tt, z)
      → (m : Text)
      → exists m z ≡ (if one_of m (run_networks run_id max_pdp_sp_count) then false else exists m x)
  delete_all_networks-create_all_networks run_id n x y z le h k m = ground (
    arith,
    create_all-AllBecome run_id n x y h m,
    delete_all-AllBecome run_id y z k m,
    one_of-run_networks run_id m n max_pdp_sp_count le,
  )
