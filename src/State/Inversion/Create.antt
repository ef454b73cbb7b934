-- ===== src/State/Inversion/Create.antt =====
-- What the checks of `create_op` have found: who signed, which account pays, who receives.
use qs_react_native_zksync.Prelude.{
  ℕ, ◌≡◌, ◌≢◌, ◌≤◌, ◌⊎◌, ap, arith, none, some, Option-cases, inl, inr, sym, ◌∙◌,
}
use qs_react_native_zksync.Params.{max_account_id, max_token_id}
use qs_react_native_zksync.HashMap
use qs_react_native_zksync.Account.{Account, zero_address, default_pub_key_hash}
use qs_react_native_zksync.Tx.{Crypto, Transfer, Withdraw, ChangePubKey, ForcedExit}
use qs_react_native_zksync.Tx.Verify.{
  transfer_signer, withdraw_signer, change_pub_key_signer, forced_exit_signer, eth_signer,
}
use qs_react_native_zksync.State.Defs.{
  ZkSyncState, ok, TransferOutcome, WithdrawOp, ForcedExitOp, ChangePubKeyOp, DepositOp, FullExitOp,
  Deposit, FullExit, get_account, get_free_account_id,
}
use qs_react_native_zksync.State.Handler.Transfer.{create_transfer}
use qs_react_native_zksync.State.Handler.Withdraw.{create_withdraw}
use qs_react_native_zksync.State.Handler.ChangePubKey.{create_change_pub_key}
use qs_react_native_zksync.State.Handler.ForcedExit.{create_forced_exit, balance_of_address}
use qs_react_native_zksync.State.Handler.Priority.{create_deposit, create_full_exit}

pub some_eq {ℓ} : {A : Type ℓ} {a b : A} → some a ≡ some b → a ≡ b
some_eq h = cc

-- The account that an address stands for.
abbrev pub Owns : ℕ → ℕ → Account → ZkSyncState → Type 0
Owns address id a s =
    (HashMap.get address s.account_id_by_address ≡ some id) × (get_account id s ≡ some a)

-- The recipient of a transfer: an account that the address stands for, or the free id.
abbrev pub Receives : Transfer → ℕ → TransferOutcome → ZkSyncState → Type 0
Receives tx from out s =
    ((to : ℕ) × (b : Account) × Owns tx.to to b s
      × (out ≡ TransferOutcome.transfer (record { tx = tx; from = from; to = to })))
    ⊎ ((HashMap.get tx.to s.account_id_by_address ≡ none)
        × (out
            ≡ TransferOutcome.transfer_to_new
                (record { tx = tx; from = from; to = get_free_account_id s })))

module _ (c : Crypto) (tx : Transfer) (s s' : ZkSyncState) (out : TransferOutcome) where
  pub transfer_sender :
      create_transfer c tx s ≡ (ok out, s')
      → (a : Account) × Owns tx.from tx.account_id a s
        × (a.pub_key_hash ≢ default_pub_key_hash)
        × (transfer_signer c tx ≡ some (some a.pub_key_hash))
        × (tx.token ≤ max_token_id)
        × (tx.to ≢ zero_address)
        × (s' ≡ s)
  unfolding create_transfer
  transfer_sender h = elim (Option-cases (HashMap.get tx.from s.account_id_by_address)) [
    | inl e ↦ absurd (ground arith)
    | inr (id, e) ↦ elim (Option-cases (get_account id s)) [
      | inl f ↦ absurd (ground arith)
      | inr (a, f) ↦
          let here : id ≡ tx.account_id = ground arith in
          (
            a,
            (ground arith, ground (arith, ap (λ j. get_account j s) here)),
            ground arith,
            ground arith,
            ground arith,
            ground arith,
            ground arith,
          )
    ]
  ]

  pub transfer_recipient : create_transfer c tx s ≡ (ok out, s') → Receives tx tx.account_id out s
  unfolding create_transfer
  transfer_recipient h = elim (Option-cases (HashMap.get tx.to s.account_id_by_address)) [
    | inl e ↦ inr (e, ground arith)
    | inr (to, e) ↦ elim (Option-cases (get_account to s)) [
      | inl f ↦ absurd (ground arith)
      | inr (b, f) ↦ inl (to, b, (e, f), ground arith)
    ]
  ]

module _ (c : Crypto) (tx : Withdraw) (s s' : ZkSyncState) (op : WithdrawOp) where
  pub withdraw_sender :
      create_withdraw c tx s ≡ (ok op, s')
      → (a : Account) × Owns tx.from tx.account_id a s
        × (a.pub_key_hash ≢ default_pub_key_hash)
        × (withdraw_signer c tx ≡ some (some a.pub_key_hash))
        × (tx.token ≤ max_token_id)
        × (s' ≡ s)
        × (op ≡ record { tx = tx; account_id = tx.account_id })
  unfolding create_withdraw
  withdraw_sender h = elim (Option-cases (HashMap.get tx.from s.account_id_by_address)) [
    | inl e ↦ absurd (ground arith)
    | inr (id, e) ↦ elim (Option-cases (get_account id s)) [
      | inl f ↦ absurd (ground arith)
      | inr (a, f) ↦
          let here : id ≡ tx.account_id = ground arith in
          (
            a,
            (ground arith, ground (arith, ap (λ j. get_account j s) here)),
            ground arith,
            ground arith,
            ground arith,
            ground arith,
            ground arith,
          )
    ]
  ]

module _ (c : Crypto) (tx : ChangePubKey) (s s' : ZkSyncState) (op : ChangePubKeyOp) where
  pub change_pub_key_sender :
      create_change_pub_key c tx s ≡ (ok op, s')
      → (a : Account) × Owns tx.account tx.account_id a s
        × ((tx.eth_signature ≡ none) ⊎ (eth_signer c tx ≡ some a.address))
        × (change_pub_key_signer c tx ≡ some (some tx.new_pk_hash))
        × (tx.account_id ≤ max_account_id)
        × (s' ≡ s)
        × (op ≡ record { tx = tx; account_id = tx.account_id })
  unfolding create_change_pub_key
  change_pub_key_sender h = elim (Option-cases (HashMap.get tx.account s.account_id_by_address)) [
    | inl e ↦ absurd (ground arith)
    | inr (id, e) ↦ elim (Option-cases (get_account id s)) [
      | inl f ↦ absurd (ground arith)
      | inr (a, f) ↦
          let here : id ≡ tx.account_id = ground arith in
          (
            a,
            (ground arith, ground (arith, ap (λ j. get_account j s) here)),
            ground arith,
            ground arith,
            ground arith,
            ground arith,
            ground arith,
          )
    ]
  ]

module _ (c : Crypto) (tx : ForcedExit) (s s' : ZkSyncState) (op : ForcedExitOp) where
  pub forced_exit_parties :
      create_forced_exit c tx s ≡ (ok op, s')
      → (a : Account) × (b : Account) × (get_account tx.initiator_account_id s ≡ some a)
        × Owns tx.target op.target_account_id b s
        × (b.pub_key_hash ≡ default_pub_key_hash)
        × (forced_exit_signer c tx ≡ some (some a.pub_key_hash))
        × (tx.token ≤ max_token_id)
        × (s' ≡ s)
        × (op.tx ≡ tx)
        × (op.withdraw_amount ≡ balance_of_address tx.target tx.token (some b))
  unfolding create_forced_exit
  forced_exit_parties h = elim (Option-cases (get_account tx.initiator_account_id s)) [
    | inl e ↦ absurd (ground arith)
    | inr (a, e) ↦ elim (Option-cases (HashMap.get tx.target s.account_id_by_address)) [
      | inl f ↦ absurd (ground arith)
      | inr (id, f) ↦ elim (Option-cases (get_account id s)) [
        | inl g ↦ absurd (ground arith)
        | inr (b, g) ↦
            let here : id ≡ op.target_account_id = ground arith in
            (
              a,
              b,
              e,
              (ground arith, ground (arith, ap (λ j. get_account j s) here)),
              ground arith,
              ground arith,
              ground arith,
              ground arith,
              ground arith,
              ground arith,
            )
      ]
    ]
  ]

  -- The hash of a key that signs is not the default hash, so no account is both parties.
  pub forced_exit_differ :
      forced_exit_signer c tx ≢ some (some default_pub_key_hash)
      → create_forced_exit c tx s ≡ (ok op, s')
      → op.tx.initiator_account_id ≢ op.target_account_id
  forced_exit_differ signer made one =
      let (a, b, e, owns, locked, signed, _, _, is_tx, _) = forced_exit_parties made in
      let found : get_account op.tx.initiator_account_id s ≡ some a =
        ap (λ (x : ForcedExit). get_account x.initiator_account_id s) is_tx ∙ e in
      let same : a ≡ b = some_eq (sym found ∙ ap (λ j. get_account j s) one ∙ owns.1) in
      signer (signed ∙ ap (λ k. some (some k)) (ap (λ (x : Account). x.pub_key_hash) same ∙ locked))

module _ (op : Deposit) (s s' : ZkSyncState) (created : DepositOp) where
  pub deposit_target :
      create_deposit op s ≡ (ok created, s')
      → (op.token ≤ max_token_id)
        × (s' ≡ s)
        × (created.priority_op ≡ op)
        × (((a : Account) × Owns op.to created.account_id a s)
            ⊎ ((HashMap.get op.to s.account_id_by_address ≡ none)
                × (created.account_id ≡ get_free_account_id s)))
  unfolding create_deposit
  deposit_target h = elim (Option-cases (HashMap.get op.to s.account_id_by_address)) [
    | inl e ↦ (ground arith, ground arith, ground arith, inr (e, ground arith))
    | inr (id, e) ↦ elim (Option-cases (get_account id s)) [
      | inl f ↦ absurd (ground arith)
      | inr (a, f) ↦
          let here : id ≡ created.account_id = ground arith in
          (
            ground arith,
            ground arith,
            ground arith,
            inl (a, (ground arith, ground (arith, ap (λ j. get_account j s) here))),
          )
    ]
  ]

module _ (op : FullExit) (s s' : ZkSyncState) (created : FullExitOp) where
  pub full_exit_amount :
      create_full_exit op s ≡ (ok created, s')
      → (op.token ≤ max_token_id)
        × (s' ≡ s)
        × (created ≡ record {
          priority_op = op;
          withdraw_amount =
              balance_of_address op.eth_address op.token (get_account op.account_id s);
        })
  unfolding create_full_exit
  full_exit_amount h = (ground arith, ground arith, ground arith)
