-- ===== src/Config/Valid.antt =====
-- What `validate` accepts.
use foc_devnet.Base.{◌≤◌, ◌≡◌, ◌↔◌, refl, arith, ok}
use foc_devnet.Config.{Config, default, validate, max_pdp_sp_count}

pub record IsValid (c : Config) : Type 0 where
  pub endorsed : c.endorsed_pdp_sp_count ≤ c.approved_pdp_sp_count
  pub approved : c.approved_pdp_sp_count ≤ c.active_pdp_sp_count
  pub active : c.active_pdp_sp_count ≤ max_pdp_sp_count

-- `validate` accepts exactly the configurations in which the endorsed providers are at most as many
-- as the approved ones, these as the active ones, and these as the maximum.
pub validate_iff : (c : Config) → (validate c ≡ ok tt) ↔ IsValid c
unfolding validate
validate_iff c = (λ h. ground arith, λ v. ground arith)

pub default-IsValid : validate default ≡ ok tt
unfolding validate
default-IsValid = refl
