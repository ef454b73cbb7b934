-- ===== src/StateKeeper/Settles.antt =====
-- `or_seal`: a call in the pending block, or in the block after it is sealed.
use qs_react_native_zksync.Prelude.{
  ℕ, ◌≡◌, ◌≢◌, ◌⊎◌, refl, ap, sym, subst, ◌∙◌, arith, inl, inr, some, true, false,
}
use qs_react_native_zksync.Tx.{Crypto}
use qs_react_native_zksync.State.Defs.{ZkSyncState}
use qs_react_native_zksync.Gas.{done, refused, crash}
use qs_react_native_zksync.StateKeeper.Defs.{ZkSyncStateKeeper, Call, new_pending_block}
use qs_react_native_zksync.StateKeeper.Seal.{last, seal_pending_block}
use qs_react_native_zksync.StateKeeper.Run.{or_seal}
use qs_react_native_zksync.StateKeeper.Inversion.{Outcome-cases}
use qs_react_native_zksync.StateKeeper.Queue.{Configured, Keeps, seal_pending_block-Keeps}

-- Sealing leaves a fresh block of the largest size.
seal_pending_block-fresh :
    (root_hash : ZkSyncState → ℕ) (size : ℕ) (k : ZkSyncStateKeeper)
    → last k.available_block_chunk_sizes ≡ some size
    → (seal_pending_block root_hash k).0 ≡ done tt
    → (seal_pending_block root_hash k).1.pending_block
      ≡ new_pending_block k.current_unprocessed_priority_op size
unfolding seal_pending_block
seal_pending_block-fresh root_hash size k e h = ground arith

module _ (root_hash : ZkSyncState → ℕ) {E A : Type 0} (call : Call E A)
    (k k' : ZkSyncStateKeeper) where
  -- The call is done, in the pending block, or where it has no room there in the block after it is
  -- sealed.
  abbrev pub Taken : Type 0
  Taken =
      ((a : A) × (call k ≡ (done a, k')))
      ⊎ ((e : E) × (a : A) × (full sealed : ZkSyncStateKeeper) × (call k ≡ (refused e, full))
          × (seal_pending_block root_hash full ≡ (done tt, sealed))
          × (call sealed ≡ (done a, k')))

  -- The call panics, or the sealing does, or the call after it.
  abbrev pub Stopped : Type 0
  Stopped =
      (call k ≡ (crash, k'))
      ⊎ ((e : E) × (full : ZkSyncStateKeeper) × (call k ≡ (refused e, full))
          × ((((seal_pending_block root_hash full).0 ≢ done tt)
                × ((seal_pending_block root_hash full).1 ≡ k'))
              ⊎ ((sealed : ZkSyncStateKeeper) × (seal_pending_block root_hash full
                    ≡ (done tt, sealed))
                  × (call sealed ≡ (crash, k')))))

pub paired {ℓ κ} :
    {A : Type ℓ} {B : Type κ} (p : A × B) {a : A} {b : B} → p.0 ≡ a → p.1 ≡ b → p ≡ (a, b)
paired p e f = λ i. (e i, f i)

-- The rounds of `or_seal`, by what the call and the sealing answer.
module _ (c : Crypto) (root_hash : ZkSyncState → ℕ) {E A : Type 0} (call : Call E A)
    (k : ZkSyncStateKeeper) where
  or_seal_done :
      (a : A) → (call k).0 ≡ done a → or_seal c root_hash call k ≡ (done true, (call k).1)
  unfolding or_seal
  or_seal_done a e = ground arith

  or_seal_crash : (call k).0 ≡ crash → or_seal c root_hash call k ≡ (crash, (call k).1)
  unfolding or_seal
  or_seal_crash e = ground arith

  or_seal_sealed :
      (e : E)
      → (call k).0 ≡ refused e
      → (seal_pending_block root_hash (call k).1).0 ≡ done tt
      → or_seal c root_hash call k ≡ (done false, (seal_pending_block root_hash (call k).1).1)
  unfolding or_seal
  or_seal_sealed e h s = ground arith

  or_seal_unsealed :
      (e : E)
      → (call k).0 ≡ refused e
      → (seal_pending_block root_hash (call k).1).0 ≢ done tt
      → or_seal c root_hash call k ≡ (crash, (seal_pending_block root_hash (call k).1).1)
  unfolding or_seal
  or_seal_unsealed e h s = elim (Outcome-cases (seal_pending_block root_hash (call k).1).0) [
    | inl (u, sealed) ↦ absurd (s sealed)
    | inr (inl (u, bad)) ↦ ground arith
    | inr (inr bad) ↦ ground arith
  ]

-- A call that takes its item in a fresh block is put back at most once.
pub or_seal-settles :
    (c : Crypto) (root_hash : ZkSyncState → ℕ) {E A : Type 0} (call : Call E A) (size limit : ℕ)
    → Keeps call
    → ((k : ZkSyncStateKeeper) (before : ℕ)
        → k.pending_block ≡ new_pending_block before size
        → k.max_number_of_withdrawals_per_block ≡ limit
        → (e : E) → (call k).0 ≢ refused e)
    → (k : ZkSyncStateKeeper) → Configured size limit k
    → (let round = or_seal c root_hash call in
        ((((round k).0 ≡ done true) × Taken root_hash call k (round k).1)
          ⊎ (((round k).0 ≡ crash) × Stopped root_hash call k (round k).1))
        ⊎ (((round k).0 ≡ done false)
            × ((((round (round k).1).0 ≡ done true) × Taken root_hash call k (round (round k).1).1)
                ⊎ (((round (round k).1).0 ≡ crash)
                    × Stopped root_hash call k (round (round k).1).1))))
or_seal-settles c root_hash {E = E} call size limit keeps takes k q =
    let round = or_seal c root_hash call in
    let k1 = (call k).1 in
    let k2 = (seal_pending_block root_hash k1).1 in
    let largest : last k1.available_block_chunk_sizes ≡ some size = ap last (keeps k).0 ∙ q.0 in
    let unsealed : (back : E)
        → (call k).0 ≡ refused back
        → (seal_pending_block root_hash k1).0 ≢ done tt
        → ((round k).0 ≡ crash) × Stopped root_hash call k (round k).1 =
      λ back is bad.
        let w = or_seal_unsealed c root_hash call k back is bad in
        (
          ap (λ p. p.0) w,
          inr (back, k1, paired (call k) is refl, inl (bad, sym (ap (λ p. p.1) w))),
        ) in
    elim (Outcome-cases (call k).0) [
      | inl (a, is) ↦
          let w = or_seal_done c root_hash call k a is in
          inl (inl (ap (λ p. p.0) w, inl (a, paired (call k) is (sym (ap (λ p. p.1) w)))))
      | inr (inr is) ↦
          let w = or_seal_crash c root_hash call k is in
          inl (inr (ap (λ p. p.0) w, inl (paired (call k) is (sym (ap (λ p. p.1) w)))))
      | inr (inl (back, is)) ↦ elim (Outcome-cases (seal_pending_block root_hash k1).0) [
        | inr (inl (u, s)) ↦ inl (inr (unsealed back is (λ e. cc)))
        | inr (inr s) ↦ inl (inr (unsealed back is (λ e. cc)))
        | inl (u, s) ↦
            let w = or_seal_sealed c root_hash call k back is s in
            let fresh = seal_pending_block-fresh root_hash size k1 largest s in
            let same : k2.max_number_of_withdrawals_per_block ≡ limit =
              (seal_pending_block-Keeps root_hash k1).1 ∙ (keeps k).1 ∙ q.1 in
            let sealed = paired (seal_pending_block root_hash k1) s refl in
            let full = paired (call k) is refl in
            let there : (round k).1 ≡ k2 = ap (λ p. p.1) w in
            inr (
              ap (λ p. p.0) w,
              subst
                  (λ k2.
                    (((round k2).0 ≡ done true) × Taken root_hash call k (round k2).1)
                    ⊎ (((round k2).0 ≡ crash) × Stopped root_hash call k (round k2).1))
                  (sym there)
                  (elim (Outcome-cases (call k2).0) [
                    | inl (a, ran) ↦
                        let w' = or_seal_done c root_hash call k2 a ran in
                        inl (
                          ap (λ p. p.0) w',
                          inr (
                            back,
                            a,
                            k1,
                            k2,
                            full,
                            sealed,
                            paired (call k2) ran (sym (ap (λ p. p.1) w')),
                          ),
                        )
                    | inr (inr stop) ↦
                        let w' = or_seal_crash c root_hash call k2 stop in
                        inr (
                          ap (λ p. p.0) w',
                          inr (
                            back,
                            k1,
                            full,
                            inr (k2, sealed, paired (call k2) stop (sym (ap (λ p. p.1) w'))),
                          ),
                        )
                    | inr (inl (e', again)) ↦
                        absurd (takes k2 k1.current_unprocessed_priority_op fresh same e' again)
                  ]),
            )
      ]
    ]
