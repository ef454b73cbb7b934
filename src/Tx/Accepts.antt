-- ===== src/Tx/Accepts.antt =====
-- `check_correctness` against the checks of each transaction, in both directions.
use qs_react_native_zksync.Tx.Checks.{Checked}
