-- ===== src/Lib.antt =====
-- The state machine of zkSync, the layer-two network whose sources this repository vendors for its
-- React Native library (zksync/core).
--
-- The program. A server keeps the state of the network, a tree of accounts with an index by address
-- (zksync/core/lib/state). Users send signed transactions (zksync/core/lib/types/src/tx): transfers,
-- withdrawals, forced exits of accounts without a key, changes of the key. The contract on Ethereum
-- sends priority operations: deposits and full exits. Each has a handler
-- (zksync/core/lib/state/src/handler) with three functions: `create_op` reads the state and checks
-- the signature, `apply_op` checks nonce and balance, writes the accounts and returns the fee with a
-- list of account updates, and `apply_tx` runs both. The updates are what the rest of the server
-- lives on: they are stored, applied again after a restart (`apply_account_updates`), and reversed
-- when a batch fails (`execute_txs_batch`).
--
-- The files.
--   Prelude: the library names that the other modules use, Boolean tests, lists, options, text.
--   HashMap: the maps of the standard library as association lists, their laws and sums.
--   Params: zksync/core/lib/crypto/src/params.rs.
--   Bits, Float: BitConvert and FloatConversions of zksync/core/lib/crypto/src/primitives.rs, and the
--     packing of amounts in zksync/core/lib/types/src/helpers.rs.
--   Account: zksync/core/lib/types/src/account: Account, AccountUpdate. Account/View is what an
--     account shows: a balance that is absent reads as zero.
--   Tx: the transactions; Tx/Encode their signed bytes (get_bytes), Tx/Verify their signers
--     (verify_signature), Tx/Check their checks (check_correctness), Tx/Checks,
--     Tx/Checked and Tx/Accepts what these find. Tx/Message is about the message of a change of the key, Tx/Examples
--     holds an example.
--   State/Defs: ZkSyncState (the items and the depth of the tree, the index by address, the block
--     number), the operations, and the monad: an action takes the state to a result (`ok`, `err` for
--     `anyhow::Error`, `panic`) and the next state.
--   State/Handler: one module per handler, with create_*, apply_*_op and apply_*.
--   State/Updates: apply_account_updates, reverse_updates. State/Execute: the other entry points of
--     state.rs (execute_tx, execute_priority_op, execute_txs_batch, collect_fee, from_acc_map, chunks).
--   State/View: the abstract state, functions from ids and addresses, with the updates on it.
--     State/Refine, State/Reverse, State/Consistent, State/RoundTrip: the updates of the code against
--     those of views, their reversal, the agreement of accounts and index.
--   State/Inversion: what a success of each create_* and apply_* says. State/Steps, State/Explains:
--     the reported updates against the states before and after.
--   State/Errors, State/Batch, State/Undo, State/Spending, State/Authority, State/Supply,
--     State/Conservation, State/Priority, State/PriorityBalance, State/Density, State/Growth, State/Fees,
--     State/NoPanic, State/Accepted: properties of the entry points.
--   State/Examples: a state with two accounts, for which the properties are instantiated.
--   State/Conversion: the operation that a conversion returns, and its chunks, against what is executed.
--   Gas: zksync/core/lib/types/src/gas_counter.rs. Block: zksync/core/lib/types/src/block.rs.
--   StateKeeper: zksync/core/bin/zksync_core/src/state_keeper/mod.rs, the actor that forms blocks. Defs
--     holds the keeper, whose channel to the committer is the list of the requests sent; Apply and
--     ApplyBatch one proposal (apply_tx, apply_priority_op, apply_batch), Seal the sealing and storing
--     of the block, Run the queues of execute_proposed_block, Restore new and initialize. A call is
--     `done`, `refused` (the `Err` that means "no room in this block") or a `crash`.
--     StateKeeper/Forming is the invariant of the pending block; Inversion, Invariant, Sealing, Storing,
--     Restored, Queue, Settles, GasRoom, Takes, TakesBatch, Termination and Batches prove the
--     properties, Examples instantiates them.
--   Mempool: zksync/core/bin/zksync_core/src/mempool.rs, the transactions that wait for the keeper.
--     Mempool/Laws is about proposals and batches, Mempool/Nonces about the nonces it keeps.
--   EthSender: zksync/core/bin/zksync_eth_sender/src. CounterQueue, SparseQueue and TxQueue are the
--     queues of tx_queue, GasAdjuster is gas_adjuster/mod.rs; Order, Policy, Returns, Typed, Calls and GasPrice prove their
--     properties.
--   EthWatch: zksync/core/bin/zksync_core/src/eth_watch, the priority operations that Ethereum reports.
--     EthWatch/Laws is about requests, EthWatch/Received and EthWatch/Events
--     about the blocks that are read.
--
-- Choices. Numbers are natural numbers; a nonce is a u32 and wraps at 2 ^ 32, packed amounts are u128.
-- Addresses and key hashes are numbers, 0 the zero address and the hash that stands for no key. The
-- signature scheme and the recovery of an Ethereum signer are not in the sources: a record `Crypto`
-- stands for them in every definition. The only assumption on it, where a property says so, is that
-- the signer of a forced exit is not the hash that stands for no key. The loop that counts
-- decimal digits in `to_float` and the queues of a proposal run on fuel: 128 rounds for the digits,
-- since each divides a number below 2 ^ 128, and two rounds for each item of a queue, as the results say. The
-- watcher's loop over priority operations runs one round more than there are chunks to fill.
-- Counters of the keeper wrap at their width, and the debug assertion on the block number in
-- process_new_blocks is left out, as in a release build. The watcher's store of withdrawals is a
-- parameter that answers whether it succeeded; the mempool's database is the list of what it has
-- committed, with the id that it gives to a batch as an argument.
--
-- A state is valid (`IsValid`) when no id is stored twice, the index by address and the accounts agree
-- in both directions, and every id fits in the tree. It is dense (`IsDense`) when every id is below the
-- number of accounts.
--
-- Not modelled: the hashes of the tree, the circuit and the prover (curve arithmetic), storage and
-- servers (input and output), contracts and clients in other languages; the main loop of the
-- Ethereum sender, the watcher's queries of contracts, and the public data of operations. The root hash
-- of a block is the parameter `root_hash`.
pub mod Prelude
pub mod HashMap
pub mod Params
pub mod Bits
pub mod Block
pub mod Gas
pub mod EthSender
pub mod EthWatch
pub mod Mempool
pub mod StateKeeper
pub mod Float
pub mod Account
pub mod Tx
pub mod State
