-- ===== src/StateKeeper/Seal.antt =====
-- `seal_pending_block` and `store_pending_block`: what goes to the committer.
use qs_react_native_zksync.Prelude.{
  ℕ, ◌+◌, ◌%◌, Option, none, some, List, [], ◌∷◌, ◌++◌, map, length, drop, ltb, if◌then◌else◌,
}
use qs_react_native_zksync.Params.{u32_mod}
use qs_react_native_zksync.Account.{AccountUpdates}
use qs_react_native_zksync.State.Defs.{ZkSyncState, Result, ok, err, panic}
use qs_react_native_zksync.State.Execute.{collect_fee}
use qs_react_native_zksync.Gas.{done, crash, commit_gas_limit, verify_gas_limit}
use qs_react_native_zksync.Block.{ExecutedOperations, new_from_available_block_sizes}
use qs_react_native_zksync.StateKeeper.Defs.{PendingBlock, Call, CommitRequest, new_pending_block}

unfoldable pub last : List ℕ → Option ℕ
last [] = none
last (size ∷ []) = some size
last (size ∷ next ∷ sizes) = last (next ∷ sizes)

-- `account_updates[first..]`, which panics beyond the end
unfoldable pub updates_from : ℕ → AccountUpdates → Result AccountUpdates
updates_from first us = if ltb (length us) first then panic else ok (drop first us)

-- the operations of the block: the successes, then the failures
abbrev pub block_operations : PendingBlock → List ExecutedOperations
block_operations pb = pb.success_operations ++ map ExecutedOperations.tx pb.failed_txs

-- The tree's root hash is the parameter `root_hash`.
unfoldable pub seal_pending_block : (ZkSyncState → ℕ) → Call (Unit {0}) (Unit {0})
unfolding last updates_from
seal_pending_block root_hash k =
    let pb = k.pending_block in
    elim (last k.available_block_chunk_sizes) [
      | none ↦ (crash, k)
      | some max_size ↦
          let (fees, s) = collect_fee pb.collected_fees k.fee_account_id k.state in
          elim fees [
            | err e ↦ (crash, k)
            | panic ↦ (crash, k)
            | ok fee_updates ↦
                let updates = pb.account_updates ++ fee_updates in
                elim (new_from_available_block_sizes s.block_number (root_hash s) k.fee_account_id
                  (block_operations pb)
                  (pb.unprocessed_priority_op_before, k.current_unprocessed_priority_op)
                  k.available_block_chunk_sizes (commit_gas_limit pb.gas_counter)
                  (verify_gas_limit pb.gas_counter)) [
                    | err e ↦ (crash, k)
                    | panic ↦ (crash, k)
                    | ok block ↦ elim (updates_from pb.stored_account_updates updates) [
                      | err e ↦ (crash, k)
                      | panic ↦ (crash, k)
                      | ok applied ↦ (
                        done tt,
                        record k {
                          state = record s { block_number = (s.block_number + 1) % u32_mod };
                          pending_block =
                              new_pending_block k.current_unprocessed_priority_op max_size;
                          tx_for_commitments =
                              k.tx_for_commitments
                              ++ (CommitRequest.block
                                    (record { block = block; accounts_updated = updates })
                                    (record {
                                      account_updates = applied;
                                      first_update_order_id = pb.stored_account_updates;
                                    })
                                  ∷ []);
                        },
                      )
                    ]
                  ]
          ]
    ]

unfoldable pub store_pending_block : Call (Unit {0}) (Unit {0})
unfolding updates_from
store_pending_block k =
    let pb = k.pending_block in
    elim (updates_from pb.stored_account_updates pb.account_updates) [
      | err e ↦ (crash, k)
      | panic ↦ (crash, k)
      | ok applied ↦ (
        done tt,
        record k {
          pending_block = record pb { stored_account_updates = length pb.account_updates };
          tx_for_commitments =
              k.tx_for_commitments
              ++ (CommitRequest.pending_block
                    (record {
                      number = k.state.block_number;
                      chunks_left = pb.chunks_left;
                      unprocessed_priority_op_before = pb.unprocessed_priority_op_before;
                      pending_block_iteration = pb.pending_block_iteration;
                      success_operations = pb.success_operations;
                      failed_txs = pb.failed_txs;
                    })
                    (record {
                      account_updates = applied;
                      first_update_order_id = pb.stored_account_updates;
                    })
                  ∷ []);
        },
      )
    ]
