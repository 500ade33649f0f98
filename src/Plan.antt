-- ===== src/Plan.antt =====
-- src/commands/start/mod.rs: which steps a start runs, in their order (`create_steps`) and in epochs
-- (`create_step_epochs`). A step stands here with the counts that it is made with.
mod Examples
pub mod Order
use foc_devnet.Base.{ℕ, List, [], ◌∷◌}
use foc_devnet.Config.{Config}

pub data StartStep : Type 0 where
  prerequisites_check_step : StartStep
  lotus_step : StartStep
  lotus_miner_step : StartStep
  eth_acc_funding_step : ℕ → StartStep
  usdfc_deploy_step : StartStep
  usdfc_funding_step : ℕ → StartStep
  multicall3_deploy_step : StartStep
  foc_deploy_step : StartStep
  pdp_sp_reg_step : ℕ → ℕ → StartStep
  database_step : ℕ → StartStep
  curio_step : ℕ → StartStep
  endorsement_step : ℕ → ℕ → StartStep
  user_setup_step : StartStep

unfoldable pub create_steps : Config → List StartStep
create_steps config =
    lotus_step
    ∷ lotus_miner_step
    ∷ eth_acc_funding_step config.active_pdp_sp_count
    ∷ usdfc_deploy_step
    ∷ usdfc_funding_step config.active_pdp_sp_count
    ∷ multicall3_deploy_step
    ∷ foc_deploy_step
    ∷ database_step config.active_pdp_sp_count
    ∷ curio_step config.active_pdp_sp_count
    ∷ pdp_sp_reg_step config.active_pdp_sp_count config.approved_pdp_sp_count
    ∷ endorsement_step config.endorsed_pdp_sp_count config.active_pdp_sp_count
    ∷ user_setup_step
    ∷ []

pub create_step_epochs : Config → List (List StartStep)
create_step_epochs config =
    (prerequisites_check_step ∷ [])
    ∷ (lotus_step ∷ [])
    ∷ (lotus_miner_step ∷ [])
    ∷ (eth_acc_funding_step config.active_pdp_sp_count ∷ [])
    ∷ (usdfc_deploy_step ∷ multicall3_deploy_step ∷ [])
    ∷ (foc_deploy_step
        ∷ usdfc_funding_step config.active_pdp_sp_count
        ∷ database_step config.active_pdp_sp_count
        ∷ [])
    ∷ (curio_step config.active_pdp_sp_count ∷ [])
    ∷ (pdp_sp_reg_step config.active_pdp_sp_count config.approved_pdp_sp_count ∷ [])
    ∷ (endorsement_step config.endorsed_pdp_sp_count config.active_pdp_sp_count ∷ [])
    ∷ (user_setup_step ∷ [])
    ∷ []
