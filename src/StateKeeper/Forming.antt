-- ===== src/StateKeeper/Forming.antt =====
-- What it means for the block that is being formed to be in order, and the steps of `push_success`
-- and of recording a result.
use qs_react_native_zksync.Prelude.{
  ℕ, ◌+◌, ◌%◌, ◌≡◌, ◌≤◌, refl, ap, sym, ◌∙◌, subst, arith, some, List, [], ◌∷◌, ◌++◌, length, map,
  length-append, and_then,
}
use qs_react_native_zksync.Params.{u32_mod}
use qs_react_native_zksync.HashMap.Laws.{IsUnique}
use qs_react_native_zksync.Account.{AccountUpdates}
use qs_react_native_zksync.State.Defs.{ZkSyncState, ZkSyncOp, OpSuccess}
use qs_react_native_zksync.State.View.{StateView, view}
use qs_react_native_zksync.State.Inversion.Create.{some_eq}
use qs_react_native_zksync.State.Refine.{update_views}
use qs_react_native_zksync.State.RoundTrip.{AllReversible, update_views-append}
use qs_react_native_zksync.State.Explains.{Explains, IsValid}
use qs_react_native_zksync.Gas.{GasCounter, scale_up, tx_gas_limit, add_op, done}
use qs_react_native_zksync.Block.{ExecutedOperations, chunks_used}
use qs_react_native_zksync.StateKeeper.Apply.{push_success}
use qs_react_native_zksync.StateKeeper.Defs.{PendingBlock, ZkSyncStateKeeper}

-- Updates that lead from one state to the next, one list after the other.
AllReversible-append :
    (us ws : AccountUpdates) (v w : StateView)
    → AllReversible us v
    → update_views us v ≡ some w
    → AllReversible ws w
    → AllReversible (us ++ ws) v
AllReversible-append [] ws v w r h q = subst (AllReversible ws) (sym (some_eq h)) q
AllReversible-append ((id, u) ∷ us) ws v w r h q = (
  r.0,
  λ x first.
      AllReversible-append us ws x w (r.1 x first)
        (ap (λ o. and_then o (update_views us)) (sym first) ∙ h) q,
)

pub Explains-append :
    (us ws : AccountUpdates) (s s' s'' : ZkSyncState)
    → Explains us s s'
    → Explains ws s' s''
    → Explains (us ++ ws) s s''
Explains-append us ws s s' s'' x y = record {
  agrees =
      update_views-append us ws (view s)
      ∙ ap (λ o. and_then o (update_views ws)) x.agrees
      ∙ y.agrees;
  reversible = AllReversible-append us ws (view s) (view s') x.reversible x.agrees y.reversible;
  unique = y.unique;
}

pub Explains-nothing : (s : ZkSyncState) → IsUnique s.balance_tree.items → Explains [] s s
Explains-nothing s unique = record { agrees = refl; reversible = tt; unique = unique }

pub chunks_used-append :
    (xs ys : List ExecutedOperations) → chunks_used (xs ++ ys) ≡ chunks_used xs + chunks_used ys
unfolding chunks_used
chunks_used-append [] ys = omega arith
chunks_used-append (x ∷ xs) ys = ground (arith, chunks_used-append xs ys)

-- The gas of both calls stays within the limit of a transaction.
pub record GasFits (gas : GasCounter) : Type 0 where
  pub commit : scale_up gas.commit_cost ≤ tx_gas_limit
  pub verify : scale_up gas.verify_cost ≤ tx_gas_limit

pub add_op-GasFits :
    (op : ZkSyncOp) (gas gas' : GasCounter) → add_op op gas ≡ done gas' → GasFits gas'
unfolding add_op
add_op-GasFits op gas gas' h = ground arith

-- The failed transactions take no chunks.
abbrev pub FailuresTakeNothing : PendingBlock → Type 0
FailuresTakeNothing pb = chunks_used (map ExecutedOperations.tx pb.failed_txs) ≡ 0

-- The keeper's pending block, begun in the state `start`: the state is valid, the updates lead to it
-- from the start and can be taken back, the gas fits, the next index is the number of operations, no
-- more updates are stored than there are, and the failed transactions take no chunks.
pub record IsForming (start : ZkSyncState) (k : ZkSyncStateKeeper) : Type 0 where
  pub valid : IsValid k.state
  pub explains : Explains k.pending_block.account_updates start k.state
  pub gas : GasFits k.pending_block.gas_counter
  pub index :
      k.pending_block.pending_op_block_index ≡ length k.pending_block.success_operations % u32_mod
  pub stored : k.pending_block.stored_account_updates ≤ length k.pending_block.account_updates
  pub failures : FailuresTakeNothing k.pending_block

-- The room left and the operations of the pending block together are `size` chunks.
abbrev pub HasRoom : ℕ → PendingBlock → Type 0
HasRoom size pb = pb.chunks_left + chunks_used pb.success_operations ≡ size

-- Two pending blocks that hold the same operations, updates and room.
pub record SameWork (pb pb' : PendingBlock) : Type 0 where
  pub operations : pb'.success_operations ≡ pb.success_operations
  pub updates : pb'.account_updates ≡ pb.account_updates
  pub room : pb'.chunks_left ≡ pb.chunks_left
  pub index : pb'.pending_op_block_index ≡ pb.pending_op_block_index
  pub stored : pb'.stored_account_updates ≡ pb.stored_account_updates
  pub failures : FailuresTakeNothing pb → FailuresTakeNothing pb'

module _ (start : ZkSyncState) (k : ZkSyncStateKeeper) (pb : PendingBlock) (f : IsForming start k)
    (gas : GasFits pb.gas_counter) (same : SameWork k.pending_block pb) where
  -- A success leaves the block in order.
  pub push_success-IsForming :
      (s : ZkSyncState) (r : OpSuccess) (made : ExecutedOperations) (n next : ℕ)
      → IsValid s
      → Explains r.updates k.state s
      → IsForming start (record k {
        state = s;
        pending_block = push_success n r made pb;
        current_unprocessed_priority_op = next;
      })
  unfolding push_success
  push_success-IsForming s r made n next valid x = record {
    valid = valid;
    explains =
        rw same.updates
          (Explains-append k.pending_block.account_updates r.updates start k.state s f.explains x);
    gas = gas;
    index = ground (arith, f.index, length-append k.pending_block.success_operations (made ∷ []));
    stored = ground (arith, f.stored, length-append k.pending_block.account_updates r.updates);
    failures = same.failures f.failures;
  }

  -- What is counted, or failed, without an operation keeps the block in order.
  pub SameWork-IsForming : IsForming start (record k { pending_block = pb })
  SameWork-IsForming = record {
    valid = f.valid;
    explains = rw same.updates f.explains;
    gas = gas;
    index = ground (arith, f.index);
    stored = ground (arith, f.stored);
    failures = same.failures f.failures;
  }

-- A success that fits takes its chunks out of the room.
pub push_success-HasRoom :
    (size : ℕ) (pb : PendingBlock) (n : ℕ) (r : OpSuccess) (made : ExecutedOperations)
    → HasRoom size pb
    → n ≤ pb.chunks_left
    → chunks_used (made ∷ []) ≡ n
    → HasRoom size (push_success n r made pb)
unfolding push_success
push_success-HasRoom size pb n r made room fits used =
    ground (arith, chunks_used-append pb.success_operations (made ∷ []))

pub SameWork-HasRoom :
    (size : ℕ) (pb pb' : PendingBlock) → SameWork pb pb' → HasRoom size pb → HasRoom size pb'
SameWork-HasRoom size pb pb' same room = ground (arith, ap chunks_used same.operations)
