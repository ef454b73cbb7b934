-- ===== src/State/Inversion.antt =====
-- What a handler that succeeds has found and done: the accounts, the checks that passed, the updates
-- that it reports and the state that it leaves.
pub mod Transfers
pub mod Others
pub mod Create
pub mod Bind
