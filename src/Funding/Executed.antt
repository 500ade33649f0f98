-- ===== src/Funding/Executed.antt =====
-- src/commands/start/eth_acc_funding/eth_acc_funding_step.rs: an execution of the step that succeeds.
use foc_devnet.Text.{Text}
