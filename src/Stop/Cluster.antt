-- ===== src/Stop/Cluster.antt =====
-- src/commands/stop.rs: a stop of the current run, from its run ID to the end.
use mathlib.Core.Path.{subst}
use foc_devnet.Base.{
  ℕ, ◌≤◌, inl, inr, ◌≡◌, refl, sym, ◌∙◌, Bool, false, List, [], ◌∷◌, ◌++◌, All, ok,
}
use foc_devnet.Text.{Text, codes, to_string}
use foc_devnet.Text.Split.{is_whitespace}
use foc_devnet.Text.Search.{all_space, trim_end}
use foc_devnet.Program.{run, ◌>>◌}
use foc_devnet.Program.Loops.{for_each, run_bind-elim, bind-run}
use foc_devnet.Program.Caught.{catch-run}
use foc_devnet.Program.Catch.{catch}
use foc_devnet.Config.{max_pdp_sp_count}
use foc_devnet.Containers.{
  get_run_containers, db_container_names, lotus_container_name, lotus_miner_container_name,
  curio_container_name, postgres_container_name, scylla_container_name,
}
use foc_devnet.Containers.Listed.{Listed, get_run_containers-Listed}
use foc_devnet.Shell.{Failure}
use foc_devnet.Network.Laws.{Tight, named-Tight}
use foc_devnet.Stop.{
  Machine, force_kill_foc_containers, force_remove_foc_networks, delete_current_run_id,
  delete_networks_of, load_current_run_id, stop_cluster,
}
use foc_devnet.Stop.Laws.{Containers}
use foc_devnet.Stop.Kept.{
  force_kill-Keeps, delete_networks_of-Keeps, force_remove-Keeps, delete_current_run_id-Keeps,
}
use foc_devnet.Stop.Gone.{loop-Gone, still-Gone, stop_one}

module _ {A : Type 0} where
  All-step : (P Q : A → Type 0) (xs : List A) → ((x : A) → P x → Q x) → All P xs → All Q xs
  All-step P Q [] f h = tt
  All-step P Q (x ∷ xs) f h = (f x h.0, All-step P Q xs f h.1)

All-Listed :
    (P : Text → Type 0) (name : Text) (cs : List (Text × Text))
    → All (λ c. P c.0) cs
    → Listed name cs
    → P name
All-Listed P name [] h l = elim l [ ]
All-Listed P name (c ∷ cs) h (inl e) = subst P e h.0
All-Listed P name (c ∷ cs) h (inr l) = All-Listed P name cs h.1 l

run_containers-Tight : (run_id : Text) → All (λ c. Tight c.0) (get_run_containers run_id)
unfolding get_run_containers db_container_names to_string all_space trim_end is_whitespace
run_containers-Tight run_id =
    let tight : (s : Text)
        → all_space (s ++ b'\n' ∷ []) ≡ false
        → trim_end (s ++ b'\n' ∷ []) ≡ s
        → Tight (codes "foc-" ++ (run_id ++ s)) =
      named-Tight (codes "oc-") run_id in
    (
      tight (codes "-curio-1") refl refl,
      (
        tight (codes "-curio-2") refl refl,
        (
          tight (codes "-curio-3") refl refl,
          (
            tight (codes "-curio-4") refl refl,
            (
              tight (codes "-curio-5") refl refl,
              (
                tight (codes "-postgres-1") refl refl,
                (
                  tight (codes "-scylla-1") refl refl,
                  (
                    tight (codes "-postgres-2") refl refl,
                    (
                      tight (codes "-scylla-2") refl refl,
                      (
                        tight (codes "-postgres-3") refl refl,
                        (
                          tight (codes "-scylla-3") refl refl,
                          (
                            tight (codes "-postgres-4") refl refl,
                            (
                              tight (codes "-scylla-4") refl refl,
                              (
                                tight (codes "-postgres-5") refl refl,
                                (
                                  tight (codes "-scylla-5") refl refl,
                                  (
                                    tight (codes "-lotus-miner") refl refl,
                                    (tight (codes "-lotus") refl refl, tt),
                                  ),
                                ),
                              ),
                            ),
                          ),
                        ),
                      ),
                    ),
                  ),
                ),
              ),
            ),
          ),
        ),
      ),
    )

module _ {X : Type 0} (machine : Machine X) {there : Text → X → Bool}
    (docker : Containers machine there) where
  stopped-Gone :
      (c : ℕ) (run_id m : Text) (x y : X)
      → there m x ≡ false
      → run
          (do
            force_kill_foc_containers machine.launch machine.is_decimal
            delete_networks_of machine (c ∷ run_id)
            force_remove_foc_networks machine.launch machine.is_decimal
            delete_current_run_id machine)
          x
        ≡ (ok tt, y)
      → there m y ≡ false
  stopped-Gone c run_id m x y gone h =
      run_bind-elim (force_kill_foc_containers machine.launch machine.is_decimal) _ tt x y h
        λ u x₁ r₁ h₁.
          run_bind-elim (delete_networks_of machine (c ∷ run_id)) _ tt x₁ y h₁ λ v x₂ r₂ h₂.
            run_bind-elim (force_remove_foc_networks machine.launch machine.is_decimal) _ tt x₂ y h₂
              λ t x₃ r₃ h₃.
                still-Gone machine docker m (delete_current_run_id machine) tt x₃ y
                  (delete_current_run_id-Keeps machine docker m) h₃
                  (still-Gone machine docker m _ t x₂ x₃ (force_remove-Keeps machine docker m) r₃ (
                    still-Gone machine docker m _ v x₁ x₂
                      (delete_networks_of-Keeps machine docker m (c ∷ run_id)) r₂
                      (still-Gone machine docker m _ u x x₁ (force_kill-Keeps machine docker m) r₁
                        gone)))

  stop_cluster-All :
      (c : ℕ) (run_id : Text) (x x₁ y : X)
      → run (load_current_run_id machine) x ≡ (ok (c ∷ run_id), x₁)
      → run (stop_cluster machine) x ≡ (ok tt, y)
      → All (λ n. there n.0 y ≡ false) (get_run_containers (c ∷ run_id))
  unfolding stop_cluster
  stop_cluster-All c run_id x x₁ y loaded h =
      let h₁ =
        sym (
          bind-run (catch (load_current_run_id machine)) _ (ok (c ∷ run_id)) x x₁
            (catch-run Failure (load_current_run_id machine) (c ∷ run_id) x x₁ loaded))
        ∙ h in
      run_bind-elim (for_each (get_run_containers (c ∷ run_id)) (stop_one machine docker)) _ tt x₁ y
        h₁
        λ u x₂ r₂ h₂.
          All-step _ _ (get_run_containers (c ∷ run_id))
            (λ n gone. stopped-Gone c run_id n.0 x₂ y gone h₂)
            (loop-Gone machine docker (get_run_containers (c ∷ run_id)) x₁ x₂
              (run_containers-Tight (c ∷ run_id)) r₂)

  -- If a run ID that is not empty is stored, if `ps -a` tells which containers there are and if no
  -- command that a stop gives makes one, then after a stop that succeeds these containers of the run are
  -- not there: those of Lotus and of its miner, and those of Curio, Postgres and Scylla of every provider
  -- that a valid configuration can have.
  pub stop_cluster-Gone :
      (c : ℕ) (run_id : Text) (x x₁ y : X)
      → run (load_current_run_id machine) x ≡ (ok (c ∷ run_id), x₁)
      → run (stop_cluster machine) x ≡ (ok tt, y)
      → (sp : ℕ) → 1 ≤ sp
      → sp ≤ max_pdp_sp_count
      → (there (lotus_container_name (c ∷ run_id)) y ≡ false)
        × (there (lotus_miner_container_name (c ∷ run_id)) y ≡ false)
        × (there (curio_container_name (c ∷ run_id) sp) y ≡ false)
        × (there (postgres_container_name (c ∷ run_id) sp) y ≡ false)
        × (there (scylla_container_name (c ∷ run_id) sp) y ≡ false)
  stop_cluster-Gone c run_id x x₁ y loaded h sp l u =
      let all = stop_cluster-All c run_id x x₁ y loaded h in
      let gone =
        λ (m : Text). All-Listed (λ n. there n y ≡ false) m (get_run_containers (c ∷ run_id)) all in
      let (curio, postgres, scylla, miner, lotus) = get_run_containers-Listed (c ∷ run_id) sp l u in
      (
        gone (lotus_container_name (c ∷ run_id)) lotus,
        gone (lotus_miner_container_name (c ∷ run_id)) miner,
        gone (curio_container_name (c ∷ run_id) sp) curio,
        gone (postgres_container_name (c ∷ run_id) sp) postgres,
        gone (scylla_container_name (c ∷ run_id) sp) scylla,
      )
