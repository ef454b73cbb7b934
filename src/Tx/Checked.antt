-- ===== src/Tx/Checked.antt =====
-- What `check_correctness` has checked of a transaction that it accepts.
use qs_react_native_zksync.Prelude.{
  ℕ, ◌≡◌, refl, sym, ap, ◌∙◌, subst, Bool, true, false, Option, none, some, map_some, is_some,
  eq_some, leb, ◌&&◌, ◌||◌, not, arith, ==→eq, inl, inr, Option-cases,
}
use qs_react_native_zksync.Params.{u128_max, max_account_id, max_token_id}
use qs_react_native_zksync.Float.{is_token_amount_packable, is_fee_amount_packable}
use qs_react_native_zksync.Tx.{
  Crypto, VerifiedSignatureCache, cached, Transfer, Withdraw, ChangePubKey, ForcedExit, Close,
  ZkSyncTx, transfer, withdraw, close, change_pub_key, forced_exit,
}
use qs_react_native_zksync.Tx.Encode.{close_bytes}
use qs_react_native_zksync.Tx.Verify.{change_pub_key_signer, eth_signer}
use qs_react_native_zksync.Tx.Check.{
  and_also, with_signer, transfer_bounds, check_transfer, check_withdraw, check_forced_exit,
  check_change_pub_key, check_close, check_correctness,
}
use qs_react_native_zksync.Tx.Checks.{EthSigned, CloseChecked, Checked}

some_eq {ℓ} : {A : Type ℓ} {a b : A} → some a ≡ some b → a ≡ b
some_eq h = cc

and_also_inv : (a b : Option Bool) → and_also a b ≡ some true → (a ≡ some true) × (b ≡ some true)
and_also_inv none b h = cc
and_also_inv (some false) b h = cc
and_also_inv (some true) b h = (refl, h)

with_signer_inv {ℓ} :
    {A : Type ℓ} (valid : Option Bool) (signer : Option (Option ℕ)) (tx : A)
    (cache : VerifiedSignatureCache → A) {tx' : A}
    → with_signer valid signer tx cache ≡ some (true, tx')
    → (valid ≡ some true) × (k : ℕ) × (signer ≡ some (some k)) × (tx' ≡ cache (cached (some k)))
with_signer_inv none signer tx cache h = cc
with_signer_inv (some false) signer tx cache h = cc
with_signer_inv (some true) none tx cache h = cc
with_signer_inv (some true) (some none) tx cache h = cc
with_signer_inv (some true) (some (some k)) tx cache h = (refl, k, refl, cc)

eq_some_inv : (o : Option ℕ) (n : ℕ) → eq_some o n ≡ true → o ≡ some n
eq_some_inv none n h = cc
eq_some_inv (some m) n h = ap some (==→eq m n h)

map_some_inv {ℓ κ} :
    {A : Type ℓ} {B : Type κ} (o : Option A) (f : A → B) {b : B}
    → map_some o f ≡ some b
    → (a : A) × (o ≡ some a) × (f a ≡ b)
map_some_inv none f h = cc
map_some_inv (some a) f h = (a, refl, cc)

module _ (c : Crypto) where
  transfer-Checked :
      (tx : Transfer) {tx' : Transfer}
      → check_transfer c tx ≡ some (true, tx')
      → Checked c (transfer tx) (transfer tx')
  unfolding check_transfer
  transfer-Checked tx h =
      let (valid, k, signer, is) = with_signer_inv _ _ _ _ h in
      let (small, packed) =
        and_also_inv (some (leb tx.amount u128_max && leb tx.fee u128_max)) _ valid in
      let (amount, rest) = and_also_inv (is_token_amount_packable tx.amount) _ packed in
      let (fee, some_bounds) =
        and_also_inv (is_fee_amount_packable tx.fee) (some (transfer_bounds tx)) rest in
      let bounds : transfer_bounds tx ≡ true = some_eq some_bounds in
      let small' : (leb tx.amount u128_max && leb tx.fee u128_max) ≡ true = some_eq small in
      (
        k,
        (
          signer,
          ground (arith, small'),
          ground (arith, small'),
          amount,
          fee,
          ground (arith, bounds),
          ground (arith, bounds),
          ground (arith, bounds),
        ),
        ap transfer is,
      )

  withdraw-Checked :
      (tx : Withdraw) {tx' : Withdraw}
      → check_withdraw c tx ≡ some (true, tx')
      → Checked c (withdraw tx) (withdraw tx')
  unfolding check_withdraw
  withdraw-Checked tx h =
      let (valid, k, signer, is) = with_signer_inv _ _ _ _ h in
      let (small, rest) = and_also_inv (some (leb tx.amount u128_max)) _ valid in
      let (fee, some_bounds) =
        and_also_inv (is_fee_amount_packable tx.fee)
          (some (leb tx.account_id max_account_id && leb tx.token max_token_id)) rest in
      let bounds : (leb tx.account_id max_account_id && leb tx.token max_token_id) ≡ true =
        some_eq some_bounds in
      let small' : leb tx.amount u128_max ≡ true = some_eq small in
      (
        k,
        (signer, ground (arith, small'), fee, ground (arith, bounds), ground (arith, bounds)),
        ap withdraw is,
      )

  forced_exit-Checked :
      (tx : ForcedExit) {tx' : ForcedExit}
      → check_forced_exit c tx ≡ some (true, tx')
      → Checked c (forced_exit tx) (forced_exit tx')
  unfolding check_forced_exit
  forced_exit-Checked tx h =
      let (valid, k, signer, is) = with_signer_inv _ _ _ _ h in
      let (fee, some_bounds) =
        and_also_inv (is_fee_amount_packable tx.fee)
          (some (leb tx.initiator_account_id max_account_id && leb tx.token max_token_id)) valid in
      let bounds : (leb tx.initiator_account_id max_account_id && leb tx.token max_token_id)
          ≡ true =
        some_eq some_bounds in
      (k, (signer, fee, ground (arith, bounds), ground (arith, bounds)), ap forced_exit is)

  change_pub_key_signed :
      (tx : ChangePubKey) (signer : Option (Option ℕ))
      → map_some signer (λ found. eq_some found tx.new_pk_hash) ≡ some true
      → signer ≡ some (some tx.new_pk_hash)
  change_pub_key_signed tx none h = cc
  change_pub_key_signed tx (some none) h = cc
  change_pub_key_signed tx (some (some k)) h =
      ap (λ j. some (some j)) (==→eq k tx.new_pk_hash (some_eq h))

  eth_signed :
      (tx : ChangePubKey)
      → (not (is_some tx.eth_signature) || eq_some (eth_signer c tx) tx.account) ≡ true
      → EthSigned c tx
  eth_signed tx h = elim (Option-cases tx.eth_signature) [
    | inl e ↦ inl e
    | inr (sign, e) ↦
        let same : eq_some (eth_signer c tx) tx.account ≡ true = ground arith in
        inr (eq_some_inv (eth_signer c tx) tx.account same)
  ]

  close-Checked : (tx : Close) → check_close c tx ≡ true → CloseChecked c tx
  unfolding check_close
  close-Checked tx h = elim (Option-cases (c.verify_musig tx.signature (close_bytes tx))) [
    | inl e ↦ absurd (ground arith)
    | inr (key, e) ↦ (key, e)
  ]

  change_pub_key-Checked :
      (tx : ChangePubKey)
      → check_change_pub_key c tx ≡ some true
      → Checked c (change_pub_key tx) (change_pub_key tx)
  unfolding check_change_pub_key
  change_pub_key-Checked tx h =
      let (eth, rest) =
        and_also_inv (some (not (is_some tx.eth_signature) || eq_some (eth_signer c tx) tx.account))
          _ h in
      let (signer, rest2) =
        and_also_inv (map_some (change_pub_key_signer c tx) (λ found. eq_some found tx.new_pk_hash))
          _ rest in
      let (some_bounds, fee) =
        and_also_inv (some (leb tx.account_id max_account_id && leb tx.fee_token max_token_id))
          (is_fee_amount_packable tx.fee) rest2 in
      let bounds : (leb tx.account_id max_account_id && leb tx.fee_token max_token_id) ≡ true =
        some_eq some_bounds in
      (
        (
          eth_signed tx (some_eq eth),
          change_pub_key_signed tx (change_pub_key_signer c tx) signer,
          fee,
          ground (arith, bounds),
          ground (arith, bounds),
        ),
        refl,
      )

-- A transaction that `check_correctness` accepts has a signer, which is cached but for a change of
-- the key, whose signer is the new key; its fee, and the amount of a transfer, can be packed; its
-- account and its token are within the limits; and a transfer does not go to the zero address. A
-- `Close` is returned as it is.
pub check_correctness-Checked :
    (c : Crypto) (tx tx' : ZkSyncTx) → check_correctness c tx ≡ some (true, tx') → Checked c tx tx'
unfolding check_correctness
check_correctness-Checked c (transfer tx) tx' h =
    let ((valid, t), found, is) = map_some_inv (check_transfer c tx) (λ p. (p.0, transfer p.1)) h in
    subst (Checked c (transfer tx)) (ap (λ p. p.1) is)
      (transfer-Checked c tx (found ∙ ap (λ b. some (b, t)) (ap (λ p. p.0) is)))
check_correctness-Checked c (withdraw tx) tx' h =
    let ((valid, t), found, is) = map_some_inv (check_withdraw c tx) (λ p. (p.0, withdraw p.1)) h in
    subst (Checked c (withdraw tx)) (ap (λ p. p.1) is)
      (withdraw-Checked c tx (found ∙ ap (λ b. some (b, t)) (ap (λ p. p.0) is)))
check_correctness-Checked c (close tx) tx' h =
    (close-Checked c tx (ap (λ p. p.0) (some_eq h)), sym (ap (λ p. p.1) (some_eq h)))
check_correctness-Checked c (change_pub_key tx) tx' h =
    let (valid, found, is) =
      map_some_inv (check_change_pub_key c tx) (λ valid. (valid, change_pub_key tx)) h in
    subst (Checked c (change_pub_key tx)) (ap (λ p. p.1) is)
      (change_pub_key-Checked c tx (found ∙ ap some (ap (λ p. p.0) is)))
check_correctness-Checked c (forced_exit tx) tx' h =
    let ((valid, t), found, is) =
      map_some_inv (check_forced_exit c tx) (λ p. (p.0, forced_exit p.1)) h in
    subst (Checked c (forced_exit tx)) (ap (λ p. p.1) is)
      (forced_exit-Checked c tx (found ∙ ap (λ b. some (b, t)) (ap (λ p. p.0) is)))
