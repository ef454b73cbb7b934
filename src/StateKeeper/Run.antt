-- ===== src/StateKeeper/Run.antt =====
-- `execute_proposed_block` and `initialize`: proposals one after the other, each again on a fresh
-- block when the pending one has no room. The loops run on fuel, one unit for a round.
use qs_react_native_zksync.Prelude.{
  ℕ, zero, suc, usize_add, Bool, true, false, Option, none, some, List, [], ◌∷◌, length, ltb,
  if◌then◌else◌, and_then,
}
use qs_react_native_zksync.Tx.{Crypto}
use qs_react_native_zksync.State.Defs.{ZkSyncState}
use qs_react_native_zksync.Gas.{Outcome, done, refused, crash}
use qs_react_native_zksync.StateKeeper.Defs.{
  ZkSyncStateKeeper, Call, SignedTxVariant, ProposedBlock,
}
use qs_react_native_zksync.StateKeeper.Apply.{apply_tx, apply_priority_op}
use qs_react_native_zksync.StateKeeper.ApplyBatch.{apply_batch}
use qs_react_native_zksync.StateKeeper.Seal.{seal_pending_block, store_pending_block}

module _ (c : Crypto) (root_hash : ZkSyncState → ℕ) where
  -- One round: an item has run, or the block is sealed and the item stays at the front of its queue.
  unfoldable pub or_seal : {E A : Type 0} → Call E A → Call (Unit {0}) Bool
  or_seal call k =
      let (out, k') = call k in
      elim out [
        | done made ↦ (done true, k')
        | crash ↦ (crash, k')
        | refused back ↦
            let (sealed, k'') = seal_pending_block root_hash k' in
            elim sealed [
              | done u ↦ (done false, k'')
              | refused u ↦ (crash, k'')
              | crash ↦ (crash, k'')
            ]
      ]

  unfoldable pub apply_variant : SignedTxVariant → Call (Unit {0}) Bool
  unfolding or_seal
  apply_variant (SignedTxVariant.tx tx) = or_seal (apply_tx c tx)
  apply_variant (SignedTxVariant.batch batch) = or_seal (apply_batch c batch.txs batch.batch_id)

  -- A queue from its front, each item until it has run; `none` when the fuel is used up.
  unfoldable pub run_queue :
      {A : Type 0}
      → (A → Call (Unit {0}) Bool)
      → ℕ
      → List A
      → ZkSyncStateKeeper
      → Option (Outcome (Unit {0}) (Unit {0}) × ZkSyncStateKeeper)
  run_queue apply fuel [] k = some (done tt, k)
  run_queue apply zero (item ∷ items) k = none
  run_queue apply (suc fuel) (item ∷ items) k =
      let (out, k') = apply item k in
      elim out [
        | done ran ↦ elim ran [
          | true ↦ run_queue apply fuel items k'
          | false ↦ run_queue apply fuel (item ∷ items) k'
        ]
        | refused u ↦ some (refused u, k')
        | crash ↦ some (crash, k')
      ]

  -- The end of a round of proposals: the block is sealed after enough rounds, or stored.
  unfoldable pub finish_iteration : Call (Unit {0}) (Unit {0})
  finish_iteration k =
      let pb = k.pending_block in
      let pb' =
        if ltb 0 (length pb.success_operations)
        then record pb { pending_block_iteration = usize_add pb.pending_block_iteration 1 }
        else pb in
      let max =
        if pb'.fast_processing_required
        then k.fast_miniblock_iterations
        else k.max_miniblock_iterations in
      let k' = record k { pending_block = pb' } in
      if ltb max pb'.pending_block_iteration
      then seal_pending_block root_hash k'
      else store_pending_block k'

  unfoldable pub execute_proposed_block :
      ℕ
      → ProposedBlock
      → ZkSyncStateKeeper
      → Option (Outcome (Unit {0}) (Unit {0}) × ZkSyncStateKeeper)
  unfolding run_queue finish_iteration apply_variant or_seal
  execute_proposed_block fuel proposed k =
      and_then (run_queue (λ op. or_seal (apply_priority_op op)) fuel proposed.priority_ops k) (λ r.
        let (out, k1) = r in
        elim out [
          | refused u ↦ some (refused u, k1)
          | crash ↦ some (crash, k1)
          | done u ↦ and_then (run_queue apply_variant fuel proposed.txs k1) (λ q.
              let (out', k2) = q in
              elim out' [
                | refused u ↦ some (refused u, k2)
                | crash ↦ some (crash, k2)
                | done u ↦ some (finish_iteration k2)
              ])
        ])
