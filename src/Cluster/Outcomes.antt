-- ===== src/Cluster/Outcomes.antt =====
-- src/commands/start/mod.rs: what a start returns.
use foc_devnet.Text.{Text}
use foc_devnet.Program.{Program}
use foc_devnet.Config.{Config}
