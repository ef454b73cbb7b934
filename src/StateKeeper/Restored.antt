-- ===== src/StateKeeper/Restored.antt =====
-- The keeper before and after `initialize`, which executes a stored pending block again.
use qs_react_native_zksync.Prelude.{
  ℕ, ◌≡◌, refl, ap, sym, ◌∙◌, subst, arith, inl, inr, some, List, [], ◌∷◌, map, length,
}
use qs_react_native_zksync.Tx.{Crypto}
use qs_react_native_zksync.State.Defs.{ZkSyncState}
use qs_react_native_zksync.State.Explains.Handlers.{SignerIsSet}
use qs_react_native_zksync.Gas.{done}
use qs_react_native_zksync.Block.{ExecutedOperations, chunks_used}
use qs_react_native_zksync.StateKeeper.Defs.{ZkSyncStateKeeper, SendablePendingBlock}
use qs_react_native_zksync.StateKeeper.Apply.{apply_tx, apply_priority_op}
use qs_react_native_zksync.StateKeeper.Forming.{IsForming, HasRoom}
use qs_react_native_zksync.StateKeeper.Invariant.{apply_tx-IsForming, apply_priority_op-IsForming}
use qs_react_native_zksync.StateKeeper.Inversion.{Outcome-cases}
use qs_react_native_zksync.StateKeeper.Queue.{Each}
use qs_react_native_zksync.StateKeeper.Restore.{execute_again, execute_all_again, initialize}

-- The signer of an operation's forced exit is not the hash that stands for no key.
abbrev pub OperationSignerIsSet : Crypto → ExecutedOperations → Type 0
OperationSignerIsSet c (ExecutedOperations.tx executed) = SignerIsSet c executed.signed_tx.tx
OperationSignerIsSet c (ExecutedOperations.priority_op executed) = Unit

module _ (c : Crypto) (start : ZkSyncState) (size : ℕ) where
  execute_again-Orderly :
      (operation : ExecutedOperations) (k : ZkSyncStateKeeper) (made : ExecutedOperations)
      → OperationSignerIsSet c operation
      → IsForming start k × HasRoom size k.pending_block
      → (execute_again c operation k).0 ≡ done made
      → IsForming start (execute_again c operation k).1
        × HasRoom size (execute_again c operation k).1.pending_block
  unfolding execute_again
  execute_again-Orderly (ExecutedOperations.tx e) k made set (f, room) h =
      apply_tx-IsForming c e.signed_tx start size k (apply_tx c e.signed_tx k).1 made f room set
        (λ i. (h i, (apply_tx c e.signed_tx k).1))
  execute_again-Orderly (ExecutedOperations.priority_op e) k made set (f, room) h =
      elim (Outcome-cases (apply_priority_op e.priority_op k).0) [
        | inr (inl (u, is)) ↦ absurd (ground arith)
        | inr (inr is) ↦ absurd (ground arith)
        | inl (op, is) ↦
            let k1 = (apply_priority_op e.priority_op k).1 in
            let there : (execute_again c (ExecutedOperations.priority_op e) k).1 ≡ k1 =
              ground arith in
            subst (λ (q : ZkSyncStateKeeper). IsForming start q × HasRoom size q.pending_block)
              (sym there)
              (apply_priority_op-IsForming e.priority_op start size k k1 op f room
                (λ i. (is i, k1)))
      ]

  execute_all_again-Orderly :
      (operations : List ExecutedOperations) (k : ZkSyncStateKeeper)
      → Each (OperationSignerIsSet c) operations
      → IsForming start k × HasRoom size k.pending_block
      → (execute_all_again c operations k).0 ≡ done tt
      → IsForming start (execute_all_again c operations k).1
        × HasRoom size (execute_all_again c operations k).1.pending_block
  unfolding execute_all_again
  execute_all_again-Orderly [] k set o h = o
  execute_all_again-Orderly (operation ∷ operations) k (set, sets) o h =
      elim (Outcome-cases (execute_again c operation k).0) [
        | inr (inl (u, is)) ↦ absurd (ground arith)
        | inr (inr is) ↦ absurd (ground arith)
        | inl (op, is) ↦
            let k1 = (execute_again c operation k).1 in
            let there : execute_all_again c (operation ∷ operations) k
                ≡ execute_all_again c operations k1 =
              ground arith in
            subst (λ (q : ZkSyncStateKeeper). IsForming start q × HasRoom size q.pending_block)
              (ap (λ p. p.1) (sym there))
              (execute_all_again-Orderly operations k1 sets
                (execute_again-Orderly operation k op set o is) (ap (λ p. p.0) (sym there) ∙ h))
      ]

  -- A stored pending block that is executed again, without a panic, on a keeper whose block is in order
  -- leaves the block in order: its updates lead from the start of the block to the state, its room and
  -- its operations together are the size of the block, all its updates count as stored, and the failed
  -- transactions are the stored ones, which are assumed to have no operation. The signers of forced exits
  -- are assumed not to be the hash that stands for no key.
  pub initialize-IsForming :
      (pending : SendablePendingBlock) (k k' : ZkSyncStateKeeper)
      → Each (OperationSignerIsSet c) pending.success_operations
      → chunks_used (map ExecutedOperations.tx pending.failed_txs) ≡ 0
      → IsForming start k
      → HasRoom size k.pending_block
      → initialize c (some pending) k ≡ (done tt, k')
      → IsForming start k'
        × HasRoom size k'.pending_block
        × (k'.pending_block.stored_account_updates ≡ length k'.pending_block.account_updates)
        × (k'.pending_block.failed_txs ≡ pending.failed_txs)
  unfolding initialize
  initialize-IsForming pending k k' sets nothing f room h =
      elim (Outcome-cases (execute_all_again c pending.success_operations k).0) [
        | inr (inl (u, is)) ↦ absurd (ground arith)
        | inr (inr is) ↦ absurd (ground arith)
        | inl (u, is) ↦
            let k1 = (execute_all_again c pending.success_operations k).1 in
            let k2 : ZkSyncStateKeeper = record k1 {
              pending_block = record k1.pending_block {
                stored_account_updates = length k1.pending_block.account_updates;
                failed_txs = pending.failed_txs;
              };
            } in
            let there : k' ≡ k2 = ground arith in
            let o = execute_all_again-Orderly pending.success_operations k sets (f, room) is in
            subst
              (λ (q : ZkSyncStateKeeper).
                IsForming start q
                × HasRoom size q.pending_block
                × (q.pending_block.stored_account_updates ≡ length q.pending_block.account_updates)
                × (q.pending_block.failed_txs ≡ pending.failed_txs))
              (sym there)
              (
                record {
                  valid = o.0.valid;
                  explains = o.0.explains;
                  gas = o.0.gas;
                  index = o.0.index;
                  stored = ground arith;
                  failures = nothing;
                },
                o.1,
                refl,
                refl,
              )
      ]
