-- ===== src/StateKeeper/Sealing.antt =====
-- `seal_pending_block`, and what the committer receives.
use qs_react_native_zksync.Prelude.{
  ℕ, ◌+◌, ◌%◌, ◌≡◌, ◌≤◌, ◌⊎◌, refl, ap, sym, ◌∙◌, arith, inl, inr, some, List, [], ◌∷◌, ◌++◌,
  length, drop, map, length-append, leb, Bool-cases,
}
use qs_react_native_zksync.Params.{u32_mod}
use qs_react_native_zksync.Account.{Account, AccountUpdates}
use qs_react_native_zksync.State.Defs.{ZkSyncState, ok, get_account, CollectedFee, insert_account}
use qs_react_native_zksync.State.Execute.{collect_fee}
use qs_react_native_zksync.State.Fees.{collect_fee-collects}
use qs_react_native_zksync.State.Explains.{Explains, IsValid}
use qs_react_native_zksync.State.Batch.{Explains-IsValid}
use qs_react_native_zksync.Gas.{
  new_gas_counter, done, commit_gas_limit, verify_gas_limit, tx_gas_limit, scale_up,
}
use qs_react_native_zksync.Block.{
  Block, ExecutedOperations, chunks_used, smallest_block_size_for_chunks,
  new_from_available_block_sizes,
}
use qs_react_native_zksync.StateKeeper.Defs.{ZkSyncStateKeeper, CommitRequest, new_pending_block}
use qs_react_native_zksync.StateKeeper.Seal.{
  last, updates_from, block_operations, seal_pending_block,
}
use qs_react_native_zksync.StateKeeper.Forming.{
  GasFits, IsForming, HasRoom, Explains-append, Explains-nothing, chunks_used-append,
}

-- A number of a list.
abbrev pub Member : ℕ → List ℕ → Type 0
Member n [] = ⊥
Member n (m ∷ ms) = (n ≡ m) ⊎ Member n ms

-- What is used and at most the last supported size fits in a supported size.
pub smallest_block_size_for_chunks-fits :
    (used size : ℕ) (sizes : List ℕ)
    → last sizes ≡ some size
    → used ≤ size
    → (n : ℕ) × (smallest_block_size_for_chunks used sizes ≡ ok n) × (used ≤ n) × Member n sizes
unfolding last smallest_block_size_for_chunks
smallest_block_size_for_chunks-fits used size [] h le = absurd (ground arith)
smallest_block_size_for_chunks-fits used size (n ∷ []) h le =
    (n, ground arith, ground arith, inl refl)
smallest_block_size_for_chunks-fits used size (n ∷ m ∷ sizes) h le =
    elim (Bool-cases (leb used n)) [
      | inl e ↦ (n, ground arith, ground arith, inl refl)
      | inr e ↦
          let (b, is, fits, there) =
            smallest_block_size_for_chunks-fits used size (m ∷ sizes) h le in
          (b, rw e is, fits, inr there)
    ]

pub updates_from-fits :
    (first : ℕ) (us : AccountUpdates)
    → first ≤ length us
    → updates_from first us ≡ ok (drop first us)
unfolding updates_from
updates_from-fits first us h = ground arith

block_number-collect_fee :
    (fees : List CollectedFee) (id : ℕ) (s : ZkSyncState)
    → (collect_fee fees id s).1.block_number ≡ s.block_number
unfolding collect_fee insert_account
block_number-collect_fee fees id s = ground arith

-- The next block's number leaves a state valid.
numbered-IsValid : (s : ZkSyncState) (n : ℕ) → IsValid s → IsValid (record s { block_number = n })
numbered-IsValid s n valid = record {
  unique = valid.unique;
  consistent = record {
    indexed = valid.consistent.indexed;
    backed = valid.consistent.backed;
    within = valid.consistent.within;
  };
}

pub new_gas_counter-GasFits : GasFits new_gas_counter
unfolding scale_up
new_gas_counter-GasFits = record { commit = ground arith; verify = ground arith }

-- The block that is sent, with the keeper and its pending block before, and the state after it.
pub record IsSealed (start : ZkSyncState) (size : ℕ) (k : ZkSyncStateKeeper) (block : Block)
    (updates : AccountUpdates) (s : ZkSyncState) : Type 0 where
  pub explains : Explains updates start s
  pub operations : block.block_transactions ≡ block_operations k.pending_block
  pub fits : chunks_used block.block_transactions ≤ block.block_chunks_size
  pub supported : Member block.block_chunks_size k.available_block_chunk_sizes
  pub commit_gas : block.commit_gas_limit ≤ tx_gas_limit
  pub verify_gas : block.verify_gas_limit ≤ tx_gas_limit
  pub number : block.block_number ≡ k.state.block_number
  pub priority_ops :
      block.processed_priority_ops
      ≡ (k.pending_block.unprocessed_priority_op_before, k.current_unprocessed_priority_op)

abbrev pub sent_block : ZkSyncStateKeeper → Block → AccountUpdates → CommitRequest
sent_block k block updates =
    CommitRequest.block (record { block = block; accounts_updated = updates })
      (record {
        account_updates = drop k.pending_block.stored_account_updates updates;
        first_update_order_id = k.pending_block.stored_account_updates;
      })

-- The keeper after sealing.
abbrev pub after_sealing : ZkSyncStateKeeper → ZkSyncState → ℕ → CommitRequest → ZkSyncStateKeeper
after_sealing k s size request = record k {
  state = record s { block_number = (s.block_number + 1) % u32_mod };
  pending_block = new_pending_block k.current_unprocessed_priority_op size;
  tx_for_commitments = k.tx_for_commitments ++ request ∷ [];
}

abbrev pub block_of : (ZkSyncState → ℕ) → ZkSyncStateKeeper → ZkSyncState → ℕ → Block
block_of root_hash k s size = record {
  block_number = s.block_number;
  new_root_hash = root_hash s;
  fee_account = k.fee_account_id;
  block_transactions = block_operations k.pending_block;
  processed_priority_ops =
      (k.pending_block.unprocessed_priority_op_before, k.current_unprocessed_priority_op);
  block_chunks_size = size;
  commit_gas_limit = commit_gas_limit k.pending_block.gas_counter;
  verify_gas_limit = verify_gas_limit k.pending_block.gas_counter;
}

module _ (root_hash : ZkSyncState → ℕ) (k : ZkSyncStateKeeper) where
  -- The run of the code, from the results of what it calls.
  seal_runs :
      (size n : ℕ) (us : AccountUpdates) (s : ZkSyncState)
      → last k.available_block_chunk_sizes ≡ some size
      → collect_fee k.pending_block.collected_fees k.fee_account_id k.state ≡ (ok us, s)
      → smallest_block_size_for_chunks
          (chunks_used (block_operations k.pending_block))
          k.available_block_chunk_sizes
        ≡ ok n
      → k.pending_block.stored_account_updates ≤ length (k.pending_block.account_updates ++ us)
      → seal_pending_block root_hash k ≡ (
        done tt,
        after_sealing k s size
            (sent_block k (block_of root_hash k s n) (k.pending_block.account_updates ++ us)),
      )
  unfolding seal_pending_block new_from_available_block_sizes
  seal_runs size n us s e collected chosen stored =
      let cut =
        updates_from-fits k.pending_block.stored_account_updates
          (k.pending_block.account_updates ++ us) stored in
      ground arith

module _ (root_hash : ZkSyncState → ℕ) (start : ZkSyncState) (size : ℕ)
    (k : ZkSyncStateKeeper) where
  -- A block in order is sealed without a panic, where its room and its operations are the largest
  -- supported size and the account that takes the fees exists. The committer receives one more request:
  -- a block with the operations of the pending block, of a supported size that they fit in, with gas
  -- limits within the limit of a transaction, the number of the state, the range of priority operations,
  -- and with updates that lead from the state at the start of the block to the state after the fees, and
  -- those of the updates that are not stored yet. The next block is in order, with room for the size.
  pub seal_pending_block-seals :
      (a : Account)
      → IsForming start k
      → HasRoom size k.pending_block
      → last k.available_block_chunk_sizes ≡ some size
      → get_account k.fee_account_id k.state ≡ some a
      → (block : Block) × (updates : AccountUpdates) × (s : ZkSyncState) × (seal_pending_block
            root_hash k
          ≡ (done tt, after_sealing k s size (sent_block k block updates)))
        × IsSealed start size k block updates s
        × (let k' = after_sealing k s size (sent_block k block updates) in
            IsForming k'.state k' × HasRoom size k'.pending_block)
  unfolding commit_gas_limit verify_gas_limit scale_up
  seal_pending_block-seals a f room largest exists =
      let pb = k.pending_block in
      let (us, s, collected, _, more) =
        collect_fee-collects pb.collected_fees k.fee_account_id a k.state 0 f.valid exists in
      let used =
        chunks_used-append pb.success_operations (map ExecutedOperations.tx pb.failed_txs) in
      let (n, chosen, fits, supported) =
        smallest_block_size_for_chunks-fits (chunks_used (block_operations pb)) size
          k.available_block_chunk_sizes largest (ground (arith, f.failures)) in
      let valid =
        numbered-IsValid s ((s.block_number + 1) % u32_mod)
          (Explains-IsValid us k.state s f.valid more) in
      let updates = pb.account_updates ++ us in
      let lengths = length-append pb.account_updates us in
      (
        block_of root_hash k s n,
        updates,
        s,
        seal_runs root_hash k size n us s largest collected chosen (ground (arith, f.stored)),
        record {
          explains = Explains-append pb.account_updates us start k.state s f.explains more;
          operations = refl;
          fits = fits;
          supported = supported;
          commit_gas = f.gas.commit;
          verify_gas = f.gas.verify;
          number =
              ap (λ p. p.1.block_number) (sym collected)
              ∙ block_number-collect_fee pb.collected_fees k.fee_account_id k.state;
          priority_ops = refl;
        },
        (
          record {
            valid = valid;
            explains = Explains-nothing _ valid.unique;
            gas = new_gas_counter-GasFits;
            index = refl;
            stored = ground arith;
            failures = unfold chunks_used in refl;
          },
          unfold chunks_used in omega arith,
        ),
      )
