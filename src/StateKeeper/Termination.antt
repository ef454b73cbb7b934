-- ===== src/StateKeeper/Termination.antt =====
-- `execute_proposed_block`: what is executed of a proposal, and the fuel for it.
use qs_react_native_zksync.Prelude.{
  ℕ, ◌*◌, ◌%◌, ◌≡◌, ◌≤◌, refl, ap, subst, ◌∙◌, ◌⊎◌, arith, inl, inr, some, List, [], ◌∷◌, length,
  Bool, false,
}
use qs_react_native_zksync.Params.{u32_mod}
use qs_react_native_zksync.Tx.{Crypto}
use qs_react_native_zksync.State.Defs.{ZkSyncState}
use qs_react_native_zksync.Gas.{Outcome, done, crash}
use qs_react_native_zksync.Block.{PriorityOp}
use qs_react_native_zksync.StateKeeper.Defs.{
  ZkSyncStateKeeper, Call, SignedTxVariant, ProposedBlock,
}
use qs_react_native_zksync.StateKeeper.Apply.{apply_tx, apply_priority_op}
use qs_react_native_zksync.StateKeeper.ApplyBatch.{apply_batch}
use qs_react_native_zksync.StateKeeper.Seal.{last}
use qs_react_native_zksync.StateKeeper.Run.{
  or_seal, apply_variant, finish_iteration, execute_proposed_block,
}
use qs_react_native_zksync.StateKeeper.Queue.{
  run_queue-Executes, Executes, Executes-cases, Settled, Each, Configured, Keeps,
  apply_priority_op-Keeps, apply_tx-Keeps, apply_batch-Keeps, or_seal-Keeps,
}
use qs_react_native_zksync.StateKeeper.Settles.{Taken, Stopped, paired, or_seal-settles}
use qs_react_native_zksync.StateKeeper.Takes.{apply_priority_op-takes, apply_tx-takes}
use qs_react_native_zksync.StateKeeper.TakesBatch.{apply_batch-takes, Small}

-- A transaction, or a small batch.
abbrev pub SmallVariant : ℕ → ℕ → SignedTxVariant → Type 0
SmallVariant size limit (SignedTxVariant.tx tx) = Unit
SmallVariant size limit (SignedTxVariant.batch b) = Small size limit b.txs

Each-trivially : {A : Type 0} (xs : List A) → Each (λ x. Unit) xs
Each-trivially [] = tt
Each-trivially (x ∷ xs) = (tt, Each-trivially xs)

module _ (c : Crypto) (root_hash : ZkSyncState → ℕ) where
  -- A transaction or a batch that is taken, and one that stops the keeper.
  abbrev pub VariantTaken : SignedTxVariant → ZkSyncStateKeeper → ZkSyncStateKeeper → Type 0
  VariantTaken (SignedTxVariant.tx tx) k k' = Taken root_hash (apply_tx c tx) k k'
  VariantTaken (SignedTxVariant.batch b) k k' =
      Taken root_hash (apply_batch c b.txs b.batch_id) k k'

  abbrev pub VariantStopped : SignedTxVariant → ZkSyncStateKeeper → ZkSyncStateKeeper → Type 0
  VariantStopped (SignedTxVariant.tx tx) k k' = Stopped root_hash (apply_tx c tx) k k'
  VariantStopped (SignedTxVariant.batch b) k k' =
      Stopped root_hash (apply_batch c b.txs b.batch_id) k k'

  -- The priority operations in their order, and the transactions and batches in theirs.
  abbrev pub PriorityExecutes :
      List PriorityOp
      → ZkSyncStateKeeper
      → Outcome (Unit {0}) (Unit {0}) × ZkSyncStateKeeper
      → Type 0
  PriorityExecutes =
      Executes (λ op. Taken root_hash (apply_priority_op op))
        (λ op. Stopped root_hash (apply_priority_op op))

  abbrev pub VariantsExecute :
      List SignedTxVariant
      → ZkSyncStateKeeper
      → Outcome (Unit {0}) (Unit {0}) × ZkSyncStateKeeper
      → Type 0
  VariantsExecute = Executes VariantTaken VariantStopped

  -- A proposal that is executed: every item, and then the end of the iteration; or up to an item that
  -- stops the keeper with a panic.
  abbrev pub ProposalExecutes :
      ProposedBlock → ZkSyncStateKeeper → Outcome (Unit {0}) (Unit {0}) × ZkSyncStateKeeper → Type 0
  ProposalExecutes proposed k r =
      ((k1 k2 : ZkSyncStateKeeper) × PriorityExecutes proposed.priority_ops k (done tt, k1)
        × VariantsExecute proposed.txs k1 (done tt, k2)
        × (r ≡ finish_iteration c root_hash k2))
      ⊎ ((r.0 ≡ crash)
          × (PriorityExecutes proposed.priority_ops k r
              ⊎ ((k1 : ZkSyncStateKeeper) × PriorityExecutes proposed.priority_ops k (done tt, k1)
                  × VariantsExecute proposed.txs k1 r)))

module _ (c : Crypto) (root_hash : ZkSyncState → ℕ) (size limit : ℕ) (six : 6 ≤ size)
    (one : 1 ≤ limit % u32_mod) where
  Keeps-Configured :
      {E A : Type 0} (call : Call E A) (k : ZkSyncStateKeeper)
      → Keeps call
      → Configured size limit k
      → Configured size limit (call k).1
  Keeps-Configured call k keeps q = (ap last (keeps k).0 ∙ q.0, (keeps k).1 ∙ q.1)

  apply_variant-Keeps : (v : SignedTxVariant) → Keeps (apply_variant c root_hash v)
  unfolding apply_variant
  apply_variant-Keeps (SignedTxVariant.tx tx) =
      or_seal-Keeps c root_hash (apply_tx c tx) (apply_tx-Keeps c tx)
  apply_variant-Keeps (SignedTxVariant.batch b) =
      or_seal-Keeps c root_hash (apply_batch c b.txs b.batch_id)
        (apply_batch-Keeps c b.txs b.batch_id)

  apply_variant-settles :
      (v : SignedTxVariant) (k : ZkSyncStateKeeper)
      → SmallVariant size limit v
      → Configured size limit k
      → Settled
          (apply_variant c root_hash)
          (VariantTaken c root_hash)
          (VariantStopped c root_hash)
          v
          k
          k
        ⊎ (((apply_variant c root_hash v k).0 ≡ done false)
            × Settled
                (apply_variant c root_hash)
                (VariantTaken c root_hash)
                (VariantStopped c root_hash)
                v
                k
                (apply_variant c root_hash v k).1)
  unfolding apply_variant
  apply_variant-settles (SignedTxVariant.tx tx) k small q =
      or_seal-settles c root_hash (apply_tx c tx) size limit (apply_tx-Keeps c tx)
        (apply_tx-takes c tx size limit six one) k q
  apply_variant-settles (SignedTxVariant.batch b) k small q =
      or_seal-settles c root_hash (apply_batch c b.txs b.batch_id) size limit
        (apply_batch-Keeps c b.txs b.batch_id)
        (apply_batch-takes c b.txs b.batch_id size limit small) k q

  -- A proposal is executed, two rounds for each of its items being enough, where the largest block has
  -- six chunks, a block may have a withdrawal, and every batch is small: at most 45 transactions, which
  -- fit in the chunks of the largest block with six chunks each, and in its number of withdrawals.
  -- Every item is executed in its order, in the pending block or right after that block is sealed, and
  -- the iteration is finished then; or an item or the sealing before it panics.
  pub execute_proposed_block-ends :
      (proposed : ProposedBlock) (fuel : ℕ) (k : ZkSyncStateKeeper)
      → Configured size limit k
      → Each (SmallVariant size limit) proposed.txs
      → 2 * length proposed.priority_ops ≤ fuel
      → 2 * length proposed.txs ≤ fuel
      → (r : Outcome (Unit {0}) (Unit {0}) × ZkSyncStateKeeper) × (execute_proposed_block c
            root_hash fuel proposed k
          ≡ some r)
        × ProposalExecutes c root_hash proposed k r
  unfolding execute_proposed_block
  execute_proposed_block-ends proposed fuel k q small enough enough' =
      let prior : PriorityOp → Call (Unit {0}) Bool =
        λ op. or_seal c root_hash (apply_priority_op op) in
      let keeps = λ (op : PriorityOp).
        or_seal-Keeps c root_hash (apply_priority_op op) (apply_priority_op-Keeps op) in
      let (r, ended, ran, q1) =
        run_queue-Executes c root_hash prior (λ op. Taken root_hash (apply_priority_op op))
          (λ op. Stopped root_hash (apply_priority_op op)) (λ op. Unit) (Configured size limit)
          (λ op k q. Keeps-Configured (prior op) k (keeps op) q)
          (λ op k u q.
            or_seal-settles c root_hash (apply_priority_op op) size limit
              (apply_priority_op-Keeps op)
              (λ k before fresh same back. apply_priority_op-takes op size six k before fresh back)
              k q)
          proposed.priority_ops fuel k q (Each-trivially proposed.priority_ops) enough in
      let (r', ended', ran', q2) =
        run_queue-Executes c root_hash (apply_variant c root_hash) (VariantTaken c root_hash)
          (VariantStopped c root_hash) (SmallVariant size limit) (Configured size limit)
          (λ v k q. Keeps-Configured (apply_variant c root_hash v) k (apply_variant-Keeps v) q)
          apply_variant-settles proposed.txs fuel r.1 q1 small enough' in
      elim (Executes-cases ran) [
        | inr e ↦ (r, ground arith, inr (e, inl ran))
        | inl e ↦
            let ran1 =
              subst (PriorityExecutes c root_hash proposed.priority_ops k) (paired r e refl) ran in
            elim (Executes-cases ran') [
              | inr e' ↦ (r', ground arith, inr (e', inr (r.1, ran1, ran')))
              | inl e' ↦ (
                finish_iteration c root_hash r'.1,
                ground arith,
                inl (
                  r.1,
                  r'.1,
                  ran1,
                  subst (VariantsExecute c root_hash proposed.txs r.1) (paired r' e' refl) ran',
                  refl,
                ),
              )
            ]
      ]
