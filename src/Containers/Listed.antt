-- ===== src/Containers/Listed.antt =====
-- src/commands/stop.rs, `get_run_containers`: the names that a start gives to its containers.
use foc_devnet.Base.{
  ℕ, zero, suc, ◌+◌, ◌≤◌, ◌<◌, ◌≡◌, refl, ap, arith, List, [], ◌∷◌, ◌++◌, ◌⊎◌, inl, inr,
}
use native.Mathlib.Decide.{ℕ_discrete}
use foc_devnet.Text.{Text, codes}
use foc_devnet.Config.{max_pdp_sp_count}
use foc_devnet.Containers.{
  lotus_container_name, lotus_miner_container_name, postgres_container_name, scylla_container_name,
  curio_container_name, curio_names, database_names, db_container_names, with_service,
  get_run_containers,
}

-- The name stands in the list with some service.
abbrev pub Listed : Text → List (Text × Text) → Type 0
Listed name [] = ⊥
Listed name (c ∷ containers) = (c.0 ≡ name) ⊎ Listed name containers

behind : (name : Text) (xs ys : List (Text × Text)) → Listed name ys → Listed name (xs ++ ys)
behind name [] ys h = h
behind name (x ∷ xs) ys h = inr (behind name xs ys h)

before : (name : Text) (xs ys : List (Text × Text)) → Listed name xs → Listed name (xs ++ ys)
before name [] ys h = absurd h
before name (x ∷ xs) ys (inl e) = inl e
before name (x ∷ xs) ys (inr h) = inr (before name xs ys h)

module _ (service run_id : Text) where
  curio-Listed :
      (n start sp : ℕ)
      → start ≤ sp
      → sp < start + n
      → Listed (curio_container_name run_id sp) (with_service service (curio_names run_id start n))
  curio-Listed zero start sp l h = absurd (omega arith)
  curio-Listed (suc n) start sp l h = elim (ℕ_discrete start sp) [
    | yes here ↦ inl (ap (curio_container_name run_id) here)
    | no later ↦ inr (curio-Listed n (start + 1) sp (omega arith) (omega arith))
  ]

  database-Listed :
      (n start sp : ℕ)
      → start ≤ sp
      → sp < start + n
      → Listed
          (postgres_container_name run_id sp)
          (with_service service (database_names run_id start n))
        × Listed
            (scylla_container_name run_id sp)
            (with_service service (database_names run_id start n))
  database-Listed zero start sp l h = absurd (omega arith)
  database-Listed (suc n) start sp l h = elim (ℕ_discrete start sp) [
    | yes here ↦ (
      inl (ap (postgres_container_name run_id) here),
      inr (inl (ap (scylla_container_name run_id) here)),
    )
    | no later ↦
        let (p, s) = database-Listed n (start + 1) sp (omega arith) (omega arith) in
        (inr (inr p), inr (inr s))
  ]

abbrev lotuses : Text → List (Text × Text)
lotuses run_id =
    (lotus_miner_container_name run_id, codes "Lotus-Miner")
    ∷ (lotus_container_name run_id, codes "Lotus")
    ∷ []

-- For every provider index that a valid configuration can use, a stop names the containers of Curio,
-- Postgres and Scylla of that provider, and those of Lotus and its miner.
pub get_run_containers-Listed :
    (run_id : Text) (sp : ℕ)
    → 1 ≤ sp
    → sp ≤ max_pdp_sp_count
    → Listed (curio_container_name run_id sp) (get_run_containers run_id)
      × Listed (postgres_container_name run_id sp) (get_run_containers run_id)
      × Listed (scylla_container_name run_id sp) (get_run_containers run_id)
      × Listed (lotus_miner_container_name run_id) (get_run_containers run_id)
      × Listed (lotus_container_name run_id) (get_run_containers run_id)
unfolding get_run_containers db_container_names
get_run_containers-Listed run_id sp l h =
    let curio = with_service (codes "Curio") (curio_names run_id 1 max_pdp_sp_count) in
    let databases = with_service (codes "Database") (database_names run_id 1 max_pdp_sp_count) in
    let lotus = lotuses run_id in
    let (p, s) = database-Listed (codes "Database") run_id max_pdp_sp_count 1 sp l (omega arith) in
    (
      before (curio_container_name run_id sp) (curio ++ databases) lotus (
          before (curio_container_name run_id sp) curio databases
            (curio-Listed (codes "Curio") run_id max_pdp_sp_count 1 sp l (omega arith))),
      before (postgres_container_name run_id sp) (curio ++ databases) lotus
          (behind (postgres_container_name run_id sp) curio databases p),
      before (scylla_container_name run_id sp) (curio ++ databases) lotus
          (behind (scylla_container_name run_id sp) curio databases s),
      behind (lotus_miner_container_name run_id) (curio ++ databases) lotus (inl refl),
      behind (lotus_container_name run_id) (curio ++ databases) lotus (inr (inl refl)),
    )
