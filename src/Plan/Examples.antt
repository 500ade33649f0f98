-- ===== src/Plan/Examples.antt =====
-- The plans of the default configuration.
use foc_devnet.Base.{List}
