-- ===== src/StateKeeper/Queue.antt =====
-- `run_queue`: the items of a queue one after the other, and the configuration that calls keep.
use qs_react_native_zksync.Prelude.{
  ℕ, zero, suc, ◌*◌, ◌≡◌, ◌≤◌, ◌⊎◌, refl, ◌∙◌, arith, inl, inr, some, List, [], ◌∷◌, length, Bool,
  true, false,
}
use qs_react_native_zksync.Tx.{Crypto}
use qs_react_native_zksync.State.Defs.{ZkSyncState}
use qs_react_native_zksync.State.Execute.{SignedZkSyncTx}
use qs_react_native_zksync.Gas.{Outcome, done, crash}
use qs_react_native_zksync.Block.{PriorityOp}
use qs_react_native_zksync.StateKeeper.Defs.{ZkSyncStateKeeper, Call}
use qs_react_native_zksync.StateKeeper.Apply.{apply_tx, apply_priority_op}
use qs_react_native_zksync.StateKeeper.ApplyBatch.{apply_batch}
use qs_react_native_zksync.StateKeeper.Seal.{last, seal_pending_block}
use qs_react_native_zksync.StateKeeper.Run.{or_seal, run_queue}

-- Every item of a list has the property.
abbrev pub Each {ℓ} : {A : Type ℓ} → (A → Type 0) → List A → Type 0
Each P [] = Unit
Each P (x ∷ xs) = P x × Each P xs

-- A queue executed from its front: every item is taken, in its order, or the first that is not stops
-- the keeper with a panic.
pub data Executes {A : Type 0} (takes stops : A → ZkSyncStateKeeper → ZkSyncStateKeeper → Type 0)
    : List A → ZkSyncStateKeeper → Outcome (Unit {0}) (Unit {0}) × ZkSyncStateKeeper → Type 0 where
  all_taken : (k : ZkSyncStateKeeper) → Executes takes stops [] k (done tt, k)
  taken :
      (item : A) (items : List A) (k k' : ZkSyncStateKeeper)
      (r : Outcome (Unit {0}) (Unit {0}) × ZkSyncStateKeeper)
      → takes item k k'
      → Executes takes stops items k' r
      → Executes takes stops (item ∷ items) k r
  stopped :
      (item : A) (items : List A) (k k' : ZkSyncStateKeeper)
      → stops item k k'
      → Executes takes stops (item ∷ items) k (crash, k')

pub Executes-cases :
    {A : Type 0} {takes stops : A → ZkSyncStateKeeper → ZkSyncStateKeeper → Type 0} {items : List A}
    {k : ZkSyncStateKeeper} {r : Outcome (Unit {0}) (Unit {0}) × ZkSyncStateKeeper}
    → Executes takes stops items k r
    → (r.0 ≡ done tt) ⊎ (r.0 ≡ crash)
Executes-cases (all_taken k) = inl refl
Executes-cases (taken item items k k' r t ran) = Executes-cases ran
Executes-cases (stopped item items k k' s) = inr refl

-- A round that takes its item, or stops with a panic.
abbrev pub Settled :
    {A : Type 0}
    → (A → Call (Unit {0}) Bool)
    → (A → ZkSyncStateKeeper → ZkSyncStateKeeper → Type 0)
    → (A → ZkSyncStateKeeper → ZkSyncStateKeeper → Type 0)
    → A
    → ZkSyncStateKeeper
    → ZkSyncStateKeeper
    → Type 0
Settled apply takes stops item from k =
    (((apply item k).0 ≡ done true) × takes item from (apply item k).1)
    ⊎ (((apply item k).0 ≡ crash) × stops item from (apply item k).1)

-- A queue whose items settle in the first round or in the second, in keepers of which `Q` holds.
module _ {A : Type 0} (c : Crypto) (root_hash : ZkSyncState → ℕ) (apply : A → Call (Unit {0}) Bool)
    (takes stops : A → ZkSyncStateKeeper → ZkSyncStateKeeper → Type 0) (P : A → Type 0)
    (Q : ZkSyncStateKeeper → Type 0)
    (keeps : (item : A) (k : ZkSyncStateKeeper) → Q k → Q (apply item k).1)
    (settles : (item : A) (k : ZkSyncStateKeeper)
      → P item
      → Q k
      → Settled apply takes stops item k k
        ⊎ (((apply item k).0 ≡ done false)
            × Settled apply takes stops item k (apply item k).1)) where
  -- The queue is executed from a keeper, on the fuel.
  abbrev Runs : ℕ → List A → ZkSyncStateKeeper → Type 0
  Runs fuel items k =
      (r : Outcome (Unit {0}) (Unit {0}) × ZkSyncStateKeeper) × (run_queue c root_hash apply fuel
          items k
        ≡ some r)
      × Executes takes stops items k r
      × Q r.1

  one_round :
      (item : A) (items : List A) (fuel : ℕ) (from k : ZkSyncStateKeeper)
      → Settled apply takes stops item from k
      → Runs fuel items (apply item k).1
      → Q k
      → (r : Outcome (Unit {0}) (Unit {0}) × ZkSyncStateKeeper) × (run_queue c root_hash apply
            (suc fuel)
            (item ∷ items)
            k
          ≡ some r)
        × Executes takes stops (item ∷ items) from r
        × Q r.1
  unfolding run_queue
  one_round item items fuel from k (inl (e, takes_it)) (r, rest, ran, kept) q =
      (r, ground arith, taken item items from (apply item k).1 r takes_it ran, kept)
  one_round item items fuel from k (inr (e, stops_it)) rest q = (
    (crash, (apply item k).1),
    ground arith,
    stopped item items from (apply item k).1 stops_it,
    keeps item k q,
  )

  put_back :
      (item : A) (items : List A) (fuel : ℕ) (k : ZkSyncStateKeeper)
      → (apply item k).0 ≡ done false
      → run_queue c root_hash apply (suc fuel) (item ∷ items) k
        ≡ run_queue c root_hash apply fuel (item ∷ items) (apply item k).1
  unfolding run_queue
  put_back item items fuel k e = ground arith

  -- Two rounds for each item are enough, and the keeper stays one of `Q`.
  pub run_queue-Executes :
      (items : List A) (fuel : ℕ) (k : ZkSyncStateKeeper)
      → Q k
      → Each P items
      → 2 * length items ≤ fuel
      → (r : Outcome (Unit {0}) (Unit {0}) × ZkSyncStateKeeper) × (run_queue c root_hash apply fuel
            items k
          ≡ some r)
        × Executes takes stops items k r
        × Q r.1
  run_queue-Executes [] fuel k q each le =
      ((done tt, k), unfold run_queue in ground arith, all_taken k, q)
  run_queue-Executes (item ∷ items) zero k q each le = absurd (omega arith)
  run_queue-Executes (item ∷ items) (suc zero) k q each le = absurd (omega arith)
  run_queue-Executes (item ∷ items) (suc (suc fuel)) k q (holds, each) le =
      elim (settles item k holds q) [
        | inl settled ↦
            one_round item items (suc fuel) k k settled
              (run_queue-Executes items (suc fuel) (apply item k).1 (keeps item k q) each
                (omega arith))
              q
        | inr (e, settled) ↦
            let k' = (apply item k).1 in
            let q' = keeps item k q in
            let (r, is, ran, kept) =
              one_round item items fuel k k' settled
                (run_queue-Executes items fuel (apply item k').1 (keeps item k' q') each
                  (omega arith))
                q' in
            (r, put_back item items (suc fuel) k e ∙ is, ran, kept)
      ]

-- The configuration that no call changes: the largest block size, and the limit of withdrawals.
abbrev pub Configured : ℕ → ℕ → ZkSyncStateKeeper → Type 0
Configured size limit k =
    (last k.available_block_chunk_sizes ≡ some size)
    × (k.max_number_of_withdrawals_per_block ≡ limit)

abbrev pub Keeps : {E A : Type 0} → Call E A → Type 0
Keeps call =
    (k : ZkSyncStateKeeper)
    → ((call k).1.available_block_chunk_sizes ≡ k.available_block_chunk_sizes)
      × ((call k).1.max_number_of_withdrawals_per_block ≡ k.max_number_of_withdrawals_per_block)

pub apply_priority_op-Keeps : (op : PriorityOp) → Keeps (apply_priority_op op)
unfolding apply_priority_op
apply_priority_op-Keeps op k = ground arith

pub apply_tx-Keeps : (c : Crypto) (tx : SignedZkSyncTx) → Keeps (apply_tx c tx)
unfolding apply_tx
apply_tx-Keeps c tx k = ground arith

pub apply_batch-Keeps :
    (c : Crypto) (txs : List SignedZkSyncTx) (id : ℕ) → Keeps (apply_batch c txs id)
unfolding apply_batch
apply_batch-Keeps c txs id k = ground arith

pub seal_pending_block-Keeps : (root_hash : ZkSyncState → ℕ) → Keeps (seal_pending_block root_hash)
unfolding seal_pending_block
seal_pending_block-Keeps root_hash k = ground arith

pub or_seal-Keeps :
    (c : Crypto) (root_hash : ZkSyncState → ℕ) {E A : Type 0} (call : Call E A)
    → Keeps call
    → Keeps (or_seal c root_hash call)
unfolding or_seal
or_seal-Keeps c root_hash call keeps k =
    ground (arith, keeps k, seal_pending_block-Keeps root_hash (call k).1)
