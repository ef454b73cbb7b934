-- ===== src/EthWatch.antt =====
-- zksync/core/bin/zksync_core/src/eth_watch: the priority operations that Ethereum reports. The node's
-- logs, the store of complete withdrawals and the clock are arguments.
pub mod Laws
pub mod Received
pub mod Events
pub mod Examples
use qs_react_native_zksync.Prelude.{
  ℕ, zero, suc, usize_add, u64_mod, ◌+◌, ◌-◌, ◌*◌, ◌%◌, Bool, true, false, Option, none, some, List,
  [], ◌∷◌, leb, ltb, ◌==◌, ◌||◌, if◌then◌else◌, and_then, map_some,
}
use qs_react_native_zksync.HashMap
use qs_react_native_zksync.HashMap.{HashMap}
use qs_react_native_zksync.State.Defs.{ZkSyncPriorityOp, Deposit, FullExit}
use qs_react_native_zksync.Block.{PriorityOp, priority_chunks}

-- `PRIORITY_OP_EXPIRATION` in seconds: six days and two hours
abbrev pub priority_op_expiration : ℕ
priority_op_expiration = 6 * 24 * 3600 + 2 * 3600

pub record ReceivedPriorityOp : Type 0 where
  pub op : PriorityOp
  pub received_at : ℕ

unfoldable pub is_outdated : ℕ → ReceivedPriorityOp → Bool
is_outdated now r = leb priority_op_expiration (now - r.received_at)

unfoldable pub sift_outdated_ops : ℕ → HashMap ReceivedPriorityOp → HashMap ReceivedPriorityOp
unfolding is_outdated
sift_outdated_ops now [] = []
sift_outdated_ops now ((id, r) ∷ ops) =
    let rest = sift_outdated_ops now ops in if is_outdated now r then rest else (id, r) ∷ rest

pub record EthState : Type 0 where
  pub last_ethereum_block : ℕ
  pub unconfirmed_queue : List (ℕ × PriorityOp)
  pub priority_queue : HashMap ReceivedPriorityOp

abbrev pub default_state : EthState
default_state = record { last_ethereum_block = 0; unconfirmed_queue = []; priority_queue = [] }

-- The node's answer for the events from one block to another, or to the latest: each with its block.
abbrev pub Logs : Type 0
Logs = ℕ → Option ℕ → Option (List (ℕ × PriorityOp))

-- The loop that extends the queue, with the time of receipt.
unfoldable pub insert_all :
    ℕ → List (ℕ × PriorityOp) → HashMap ReceivedPriorityOp → HashMap ReceivedPriorityOp
unfolding HashMap.insert
insert_all now [] queue = queue
insert_all now ((block, op) ∷ ops) queue =
    insert_all now ops (HashMap.insert op.serial_id (record { op = op; received_at = now }) queue)

abbrev pub priority_expiration : ℕ
priority_expiration = 35000

-- A watcher's configuration: the node, whether complete withdrawals are read and stored, and the
-- confirmations.
pub record Watch : Type 0 where
  pub logs : Logs
  pub stores_withdrawals : ℕ → ℕ → Bool
  pub number_of_confirmations_for_event : ℕ

unfoldable pub get_unconfirmed_ops : Watch → ℕ → Option (List (ℕ × PriorityOp))
get_unconfirmed_ops w current_ethereum_block =
    w.logs (current_ethereum_block - w.number_of_confirmations_for_event + 1) none

-- `none` where a request fails; the state is then as it was.
unfoldable pub restore_state_from_eth : Watch → ℕ → ℕ → Option EthState
unfolding get_unconfirmed_ops insert_all
restore_state_from_eth w now last_ethereum_block =
    let current_ethereum_block = last_ethereum_block - w.number_of_confirmations_for_event in
    let new_block = current_ethereum_block - w.number_of_confirmations_for_event in
    let previous_block = new_block - priority_expiration in
    and_then (get_unconfirmed_ops w current_ethereum_block) (λ unconfirmed.
      if w.stores_withdrawals previous_block new_block
      then map_some (w.logs previous_block (some new_block)) (λ events. record {
        last_ethereum_block = last_ethereum_block;
        unconfirmed_queue = unconfirmed;
        priority_queue = insert_all now events [];
      })
      else none)

unfoldable pub process_new_blocks : Watch → ℕ → ℕ → EthState → Option EthState
unfolding get_unconfirmed_ops insert_all sift_outdated_ops
process_new_blocks w now last_ethereum_block st =
    let previous_block = (st.last_ethereum_block + 1) - w.number_of_confirmations_for_event in
    let new_block = last_ethereum_block - w.number_of_confirmations_for_event in
    if w.stores_withdrawals previous_block new_block
    then and_then (w.logs previous_block (some new_block)) (λ events.
      map_some (get_unconfirmed_ops w last_ethereum_block) (λ unconfirmed. record {
        last_ethereum_block = last_ethereum_block;
        unconfirmed_queue = unconfirmed;
        priority_queue = insert_all now events (sift_outdated_ops now st.priority_queue);
      }))
    else none

-- The state after a poll, with the node's block number, and whether the poll succeeded.
unfoldable pub poll_eth_node : Watch → ℕ → Option ℕ → EthState → Bool × EthState
unfolding process_new_blocks
poll_eth_node w now none st = (false, st)
poll_eth_node w now (some last_block_number) st =
    if ltb st.last_ethereum_block last_block_number
    then elim (process_new_blocks w now last_block_number st) [
      | none ↦ (false, st)
      | some next ↦ (true, next)
    ]
    else (true, st)

-- The loop of `get_priority_requests` from an id, with the chunks used, on fuel.
unfoldable pub priority_loop : ℕ → ℕ → ℕ → ℕ → HashMap ReceivedPriorityOp → List PriorityOp
unfolding HashMap.get
priority_loop zero max_chunks used_chunks id queue = []
priority_loop (suc fuel) max_chunks used_chunks id queue = elim (HashMap.get id queue) [
  | none ↦ []
  | some r ↦ elim (leb (used_chunks + priority_chunks r.op.«data») max_chunks) [
    | true ↦
        r.op
        ∷ priority_loop fuel max_chunks (used_chunks + priority_chunks r.op.«data») (usize_add id 1)
            queue
    | false ↦ []
  ]
]

-- Every operation takes a chunk, so the chunks and one more are rounds enough.
unfoldable pub get_priority_requests : ℕ → ℕ → EthState → List PriorityOp
unfolding priority_loop
get_priority_requests first_serial_id max_chunks st =
    priority_loop (max_chunks + 1) max_chunks 0 first_serial_id st.priority_queue

-- `get_ongoing_deposits_for`: the sender's or the recipient's
unfoldable pub is_deposit_of : ℕ → ZkSyncPriorityOp → Bool
is_deposit_of address (ZkSyncPriorityOp.deposit d) = (d.from == address) || (d.to == address)
is_deposit_of address (ZkSyncPriorityOp.full_exit e) = false

unfoldable pub deposits_in : ℕ → List (ℕ × PriorityOp) → List (ℕ × PriorityOp)
unfolding is_deposit_of
deposits_in address [] = []
deposits_in address ((block, op) ∷ ops) =
    let rest = deposits_in address ops in
    if is_deposit_of address op.«data» then (block, op) ∷ rest else rest

unfoldable pub get_ongoing_deposits_for : ℕ → EthState → List (ℕ × PriorityOp)
unfolding deposits_in
get_ongoing_deposits_for address st = deposits_in address st.unconfirmed_queue

pub data WatcherMode : Type 0 where
  working : WatcherMode
  backoff : (delay_until : ℕ) → WatcherMode

unfoldable pub enter_backoff_mode : ℕ → WatcherMode
enter_backoff_mode now = backoff (now + 30)

unfoldable pub polling_allowed : ℕ → WatcherMode → Bool × WatcherMode
polling_allowed now working = (true, working)
polling_allowed now (backoff delay_until) =
    if leb delay_until now then (true, working) else (false, backoff delay_until)
