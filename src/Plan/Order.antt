-- ===== src/Plan/Order.antt =====
-- src/commands/start/mod.rs: the order of the steps beside the epochs.
use foc_devnet.Base.{ℕ, suc, ltb, ◌==◌, ◌&&◌, if◌then◌else◌, Bool, true, false, List, [], ◌∷◌}
use mathlib.Core.List.{Perm}
use mathlib.Core.List.Perm
use foc_devnet.Config.{Config}
use foc_devnet.Plan.{
  StartStep, prerequisites_check_step, lotus_step, lotus_miner_step, eth_acc_funding_step,
  usdfc_deploy_step, usdfc_funding_step, multicall3_deploy_step, foc_deploy_step, pdp_sp_reg_step,
  database_step, curio_step, endorsement_step, user_setup_step,
}

-- What a step is, its counts aside.
abbrev kind : StartStep → ℕ
kind prerequisites_check_step = 0
kind lotus_step = 1
kind lotus_miner_step = 2
kind (eth_acc_funding_step _) = 3
kind usdfc_deploy_step = 4
kind (usdfc_funding_step _) = 5
kind multicall3_deploy_step = 6
kind foc_deploy_step = 7
kind (pdp_sp_reg_step _ _) = 8
kind (database_step _) = 9
kind (curio_step _) = 10
kind (endorsement_step _ _) = 11
kind user_setup_step = 12

-- The position of the first list with a step of the kind `k`, or the number of the lists.
abbrev has_kind : ℕ → List StartStep → Bool
has_kind k [] = false
has_kind k (s ∷ steps) = if kind s == k then true else has_kind k steps

abbrev position : ℕ → List (List StartStep) → ℕ
position k [] = 0
position k (epoch ∷ epochs) =
    let later = position k epochs in if has_kind k epoch then 0 else suc later

abbrev pub alone : List StartStep → List (List StartStep)
alone [] = []
alone (s ∷ steps) = (s ∷ []) ∷ alone steps

-- The first step of a pair needs the second: after the comments on the epochs; and a deploy needs the
-- addresses of the deployers, which the funding of the accounts puts into the context, and Curio and the
-- registration need the contract addresses, which the deploys write. The counts are of no account here.
abbrev pub needs : List (StartStep × StartStep)
needs =
    (lotus_miner_step, lotus_step)
    ∷ (eth_acc_funding_step 0, lotus_step)
    ∷ (eth_acc_funding_step 0, lotus_miner_step)
    ∷ (usdfc_deploy_step, eth_acc_funding_step 0)
    ∷ (multicall3_deploy_step, eth_acc_funding_step 0)
    ∷ (foc_deploy_step, eth_acc_funding_step 0)
    ∷ (usdfc_funding_step 0, usdfc_deploy_step)
    ∷ (foc_deploy_step, usdfc_deploy_step)
    ∷ (curio_step 0, database_step 0)
    ∷ (curio_step 0, foc_deploy_step)
    ∷ (curio_step 0, multicall3_deploy_step)
    ∷ (pdp_sp_reg_step 0 0, curio_step 0)
    ∷ (pdp_sp_reg_step 0 0, foc_deploy_step)
    ∷ (endorsement_step 0 0, pdp_sp_reg_step 0 0)
    ∷ (user_setup_step, foc_deploy_step)
    ∷ (user_setup_step, lotus_step)
    ∷ []

abbrev pub respects : List (List StartStep) → List (StartStep × StartStep) → Bool
respects epochs [] = true
respects epochs ((later, earlier) ∷ rest) =
    ltb (position (kind earlier) epochs) (position (kind later) epochs) && respects epochs rest

-- The epochs behind the one of the prerequisites check
abbrev tail : List (List StartStep) → List (List StartStep)
tail [] = []
tail (epoch ∷ epochs) = epochs
