-- ===== src/State/Batch.antt =====
-- Batches: `execute_txs_batch`, its loop and its restoring loop.
use mathlib.Core.List.{reverse, reverse-cons, append-nil, append_assoc}
use qs_react_native_zksync.Prelude.{
  ℕ, ◌+◌, ◌≡◌, ◌⊎◌, refl, sym, ap, ◌∙◌, inl, inr, List, [], ◌∷◌, ◌++◌, map, length, replicate,
  arith, subst,
}
use qs_react_native_zksync.Account.{AccountUpdates}
use qs_react_native_zksync.HashMap.Laws.{IsUnique}
use qs_react_native_zksync.Tx.{Crypto}
use qs_react_native_zksync.State.Defs.{
  ZkSyncState, Result, ok, err, panic, Error, batch_failed, OpSuccess, Action, pure, ◌>>◌,
}
use qs_react_native_zksync.State.Updates.{apply_account_updates, reverse_updates}
use qs_react_native_zksync.State.Execute.{
  SignedZkSyncTx, execute_tx, roll_back, batch_loop, execute_txs_batch,
}
use qs_react_native_zksync.State.View.{StateView, view}
use qs_react_native_zksync.State.RoundTrip.{undo, update_views-IsConsistent}
use qs_react_native_zksync.State.Errors.{execute_tx-FailsClean}
use qs_react_native_zksync.State.Explains.{Explains, IsValid}
use qs_react_native_zksync.State.Explains.Handlers.{SignerIsSet, execute_tx-Explains}

-- The transactions run one after the other, each with its success.
abbrev pub Executes :
    Crypto → List SignedZkSyncTx → ZkSyncState → List OpSuccess → ZkSyncState → Type 0
Executes c [] s [] s' = s ≡ s'
Executes c [] s (r ∷ rs) s' = ⊥
Executes c (tx ∷ txs) s [] s' = ⊥
Executes c (tx ∷ txs) s (r ∷ rs) s' =
    (t : ZkSyncState) × (execute_tx c tx.tx s ≡ (ok r, t)) × Executes c txs t rs s'

abbrev pub AllSignersSet : Crypto → List SignedZkSyncTx → Type 0
AllSignersSet c [] = Unit
AllSignersSet c (tx ∷ txs) = SignerIsSet c tx.tx × AllSignersSet c txs

-- After transactions that succeed, one panics.
abbrev pub PanicsAt : Crypto → List SignedZkSyncTx → ZkSyncState → Type 0
PanicsAt c [] s = ⊥
PanicsAt c (tx ∷ txs) s =
    ((execute_tx c tx.tx s).0 ≡ panic)
    ⊎ ((r : OpSuccess) × (t : ZkSyncState) × (execute_tx c tx.tx s ≡ (ok r, t)) × PanicsAt c txs t)

-- After transactions that succeed, number `n` is refused, where `id` come before the list.
abbrev pub FailsAt : Crypto → ℕ → List SignedZkSyncTx → ZkSyncState → ℕ → Error → Type 0
FailsAt c id [] s n e = ⊥
FailsAt c id (tx ∷ txs) s n e =
    ((n ≡ id + 1) × ((execute_tx c tx.tx s).0 ≡ err e))
    ⊎ ((r : OpSuccess) × (t : ZkSyncState) × (execute_tx c tx.tx s ≡ (ok r, t))
        × FailsAt c (id + 1) txs t n e)

pub Explains-IsValid :
    (us : AccountUpdates) (s s' : ZkSyncState) → IsValid s → Explains us s s' → IsValid s'
Explains-IsValid us s s' valid x = record {
  unique = x.unique;
  consistent = update_views-IsConsistent us (view s) valid.consistent x.reversible x.agrees;
}

-- The successes, newest first, can be taken back from any state that shows the same.
CanUndo : List OpSuccess → StateView → StateView → Type 0
CanUndo successes v start =
    (t : ZkSyncState)
    → view t ≡ v
    → IsUnique t.balance_tree.items
    → (u : ZkSyncState) × (roll_back successes t ≡ (ok tt, u)) × (view u ≡ start)

CanUndo-nothing : (s : ZkSyncState) → CanUndo [] (view s) (view s)
unfolding CanUndo roll_back
CanUndo-nothing s t same unique = (t, refl, same)

-- An action that has returned is followed by the next one.
then_ok :
    {A B : Type 0} (m : Action A) (n : Action B) (s : ZkSyncState) {a : A} {t : ZkSyncState}
    → m s ≡ (ok a, t)
    → (m >> n) s ≡ n t
then_ok m n s h = ground (arith, h)

roll_back-cons :
    (r : OpSuccess) (successes : List OpSuccess) (t : ZkSyncState)
    → roll_back (r ∷ successes) t
      ≡ (apply_account_updates (reverse_updates r.updates) >> roll_back successes) t
unfolding roll_back
roll_back-cons r successes t = refl

CanUndo-more :
    (r : OpSuccess) (successes : List OpSuccess) (s s' : ZkSyncState) (start : StateView)
    → IsValid s
    → Explains r.updates s s'
    → CanUndo successes (view s) start
    → CanUndo (r ∷ successes) (view s') start
unfolding CanUndo
CanUndo-more r successes s s' start valid x can t same unique =
    let (u, done, shown, still) =
      undo r.updates s s' t valid.consistent x.reversible x.agrees same unique in
    let (w, undone, back) = can u shown still in
    (
      w,
      roll_back-cons r successes t
          ∙ then_ok (apply_account_updates (reverse_updates r.updates)) (roll_back successes) t done
          ∙ undone,
      back,
    )

-- What the rest of a batch does: it succeeds, or what was done is taken back, or it panics.
abbrev LoopCases :
    Crypto
    → ℕ
    → ℕ
    → List SignedZkSyncTx
    → List OpSuccess
    → StateView
    → ZkSyncState
    → Result (List (Result OpSuccess)) × ZkSyncState
    → Type 0
LoopCases c total id txs successes start s p =
    ((rs : List OpSuccess) × (p.0 ≡ ok (map ok (reverse successes ++ rs)))
      × Executes c txs s rs p.1)
    ⊎ (((n : ℕ) × (e : Error) × FailsAt c id txs s n e
          × (p.0 ≡ ok (replicate total (err (batch_failed n e))))
          × (view p.1 ≡ start))
        ⊎ (PanicsAt c txs s × (p.0 ≡ panic)))

module _ (c : Crypto) (total : ℕ) (start : StateView) where
  -- One step of the loop, by the result of the transaction.
  step_ok :
      (tx : SignedZkSyncTx) (txs : List SignedZkSyncTx) (id : ℕ) (successes : List OpSuccess)
      (s t : ZkSyncState) (r : OpSuccess)
      → execute_tx c tx.tx s ≡ (ok r, t)
      → batch_loop c total id (tx ∷ txs) successes s
        ≡ batch_loop c total (id + 1) txs (r ∷ successes) t
  unfolding batch_loop
  step_ok tx txs id successes s t r e = ground (arith, e)

  step_err :
      (tx : SignedZkSyncTx) (txs : List SignedZkSyncTx) (id : ℕ) (successes : List OpSuccess)
      (s t : ZkSyncState) (error : Error)
      → execute_tx c tx.tx s ≡ (err error, t)
      → batch_loop c total id (tx ∷ txs) successes s
        ≡ (roll_back successes >> pure (replicate total (err (batch_failed (id + 1) error)))) t
  unfolding batch_loop
  step_err tx txs id successes s t error e = ground (arith, e)

  step_panic :
      (tx : SignedZkSyncTx) (txs : List SignedZkSyncTx) (id : ℕ) (successes : List OpSuccess)
      (s t : ZkSyncState)
      → execute_tx c tx.tx s ≡ (panic, t)
      → batch_loop c total id (tx ∷ txs) successes s ≡ (panic, t)
  unfolding batch_loop
  step_panic tx txs id successes s t e = ground (arith, e)

  -- The cases of the rest are cases of the whole.
  more :
      (tx : SignedZkSyncTx) (txs : List SignedZkSyncTx) (id : ℕ) (successes : List OpSuccess)
      (s t : ZkSyncState) (r : OpSuccess) (p : Result (List (Result OpSuccess)) × ZkSyncState)
      → execute_tx c tx.tx s ≡ (ok r, t)
      → LoopCases c total (id + 1) txs (r ∷ successes) start t p
      → LoopCases c total id (tx ∷ txs) successes start s p
  more tx txs id successes s t r p e (inl (rs, is, runs)) =
      inl (r ∷ rs, rw (reverse-cons, append_assoc) at is, (t, e, runs))
  more tx txs id successes s t r p e (inr (inl (n, error, fails, is, back))) =
      inr (inl (n, error, inr (r, t, e, fails), is, back))
  more tx txs id successes s t r p e (inr (inr (panics, is))) =
      inr (inr (inr (r, t, e, panics), is))

  loop_cases :
      (txs : List SignedZkSyncTx) (id : ℕ) (successes : List OpSuccess) (s : ZkSyncState)
      → AllSignersSet c txs
      → IsValid s
      → CanUndo successes (view s) start
      → LoopCases c total id txs successes start s (batch_loop c total id txs successes s)
  unfolding CanUndo
  loop_cases [] id successes s set valid can = unfold batch_loop in inl ([], rw append-nil, refl)
  loop_cases (tx ∷ txs) id successes s set valid can =
      go (execute_tx c tx.tx s) refl (λ r t. loop_cases txs (id + 1) (r ∷ successes) t)
    where
      go :
          (p : Result OpSuccess × ZkSyncState)
          → execute_tx c tx.tx s ≡ p
          → ((r : OpSuccess) (t : ZkSyncState)
              → AllSignersSet c txs
              → IsValid t
              → CanUndo (r ∷ successes) (view t) start
              → LoopCases c total
                  (id + 1)
                  txs
                  (r ∷ successes)
                  start
                  t
                  (batch_loop c total (id + 1) txs (r ∷ successes) t))
          → LoopCases c total id
              (tx ∷ txs)
              successes
              start
              s
              (batch_loop c total id (tx ∷ txs) successes s)
      go (ok r, t) e rest =
          let x = execute_tx-Explains c tx.tx s t r valid set.0 e in
          subst (LoopCases c total id (tx ∷ txs) successes start s)
            (sym (step_ok tx txs id successes s t r e))
            (more tx txs id successes s t r _ e (
              rest r t set.1 (Explains-IsValid r.updates s t valid x)
                (CanUndo-more r successes s t start valid x can)))
      go (err error, t) e rest =
          let (u, undone, back) = can s refl valid.unique in
          let answer : Action (List (Result OpSuccess)) =
            pure (replicate total (err (batch_failed (id + 1) error))) in
          let stopped : batch_loop c total id (tx ∷ txs) successes s ≡ answer u =
            step_err tx txs id successes s t error e
            ∙ ap (roll_back successes >> answer) (execute_tx-FailsClean c tx.tx s t error e)
            ∙ then_ok (roll_back successes) answer s undone in
          subst (LoopCases c total id (tx ∷ txs) successes start s) (sym stopped)
            (inr (inl (id + 1, error, inl (refl, ap (λ p. p.0) e), refl, back)))
      go (panic, t) e rest =
          subst (LoopCases c total id (tx ∷ txs) successes start s)
            (sym (step_panic tx txs id successes s t e)) (inr (inr (inl (ap (λ p. p.0) e), refl)))

-- The ends of a batch: every transaction has run after the one before it, and the results are their
-- successes; or transaction `n` is refused, after those before it have run, every result is that
-- error, and the state shows what it showed before the batch; or a transaction panics, after those
-- before it have run.
abbrev pub BatchEnds :
    Crypto
    → List SignedZkSyncTx
    → ZkSyncState
    → Result (List (Result OpSuccess)) × ZkSyncState
    → Type 0
BatchEnds c txs s p =
    ((rs : List OpSuccess) × (p.0 ≡ ok (map ok rs)) × Executes c txs s rs p.1)
    ⊎ (((n : ℕ) × (e : Error) × FailsAt c 0 txs s n e
          × (p.0 ≡ ok (replicate (length txs) (err (batch_failed n e))))
          × (view p.1 ≡ view s))
        ⊎ (PanicsAt c txs s × (p.0 ≡ panic)))

-- A batch in a valid state is atomic: it runs every transaction, or, when one is refused, it answers
-- each with that error and leaves a state that shows what the state before the batch showed; it
-- panics only where a transaction does. The signers of forced exits are assumed not to be the hash
-- that stands for no key.
pub execute_txs_batch-atomic :
    (c : Crypto) (txs : List SignedZkSyncTx) (s : ZkSyncState)
    → AllSignersSet c txs
    → IsValid s
    → BatchEnds c txs s (execute_txs_batch c txs s)
unfolding execute_txs_batch
execute_txs_batch-atomic c txs s set valid =
    loop_cases c (length txs) (view s) txs 0 [] s set valid (CanUndo-nothing s)
