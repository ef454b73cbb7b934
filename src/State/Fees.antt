-- ===== src/State/Fees.antt =====
-- `collect_fee`: the fees of a block go to one account.
use qs_react_native_zksync.Prelude.{
  ℕ, ◌+◌, ◌^◌, ◌≡◌, ◌≢◌, ◌<◌, refl, sym, ap, ◌∙◌, arith, some, List, [], ◌∷◌, inl, inr, eq_cases,
  ==_refl,
}
use qs_react_native_zksync.HashMap
use qs_react_native_zksync.HashMap.Sums.{sum_by-insert_old}
use qs_react_native_zksync.HashMap.Laws.{get-insert, insert-IsUnique}
use qs_react_native_zksync.Account.{
  Account, AccountUpdates, update_balance, get_balance, add_balance, replace_balance,
}
use qs_react_native_zksync.Account.View.{get_balance-replace_balance, view_account, put_restore}
use qs_react_native_zksync.State.Defs.{
  ZkSyncState, CollectedFee, ok, get_account, inserted, insert_account,
}
use qs_react_native_zksync.State.Execute.{collect_loop, collect_fee}
use qs_react_native_zksync.State.View.{StateView, view, update_view, view-inserted, store}
use qs_react_native_zksync.State.Refine.{update_views}
use qs_react_native_zksync.State.RoundTrip.{AllReversible}
use qs_react_native_zksync.State.Steps.{balance_step, view-inserted_twice, get_account_here}
use qs_react_native_zksync.State.Inversion.Transfers.{change}
use qs_react_native_zksync.State.Supply.{supply, counted}
use qs_react_native_zksync.State.Explains.{Explains, IsValid, found_within}

-- The sum of the fees, counted for a token.
abbrev pub total : List CollectedFee → ℕ → ℕ
total [] t = 0
total (fee ∷ fees) t = counted fee.token fee.amount t + total fees t

get_balance-add_balance :
    (token x t : ℕ) (a : Account)
    → get_balance t (add_balance token x a) ≡ get_balance t a + counted token x t
unfolding add_balance
get_balance-add_balance token x t a = elim (eq_cases token t) [
  | inl same ↦ ground (
    arith,
    get_balance-replace_balance token t (get_balance token a + x) a,
    ap (λ k. get_balance k a) same,
  )
  | inr differ ↦ ground (arith, get_balance-replace_balance token t (get_balance token a + x) a)
]

address-add_balance : (token x : ℕ) (a : Account) → (add_balance token x a).address ≡ a.address
unfolding add_balance replace_balance
address-add_balance token x a = refl

-- The account that the loop leaves.
module _ (id : ℕ) where
  get_balance-collect_loop :
      (fees : List CollectedFee) (a : Account) (t : ℕ)
      → get_balance t (collect_loop id fees a).0 ≡ get_balance t a + total fees t
  unfolding collect_loop
  get_balance-collect_loop [] a t = omega arith
  get_balance-collect_loop (fee ∷ fees) a t = ground (
    arith,
    get_balance-collect_loop fees a t,
    get_balance-collect_loop fees (add_balance fee.token fee.amount a) t,
    get_balance-add_balance fee.token fee.amount t a,
  )

  address-collect_loop :
      (fees : List CollectedFee) (a : Account) → (collect_loop id fees a).0.address ≡ a.address
  unfolding collect_loop
  address-collect_loop [] a = refl
  address-collect_loop (fee ∷ fees) a = ground (
    arith,
    address-collect_loop fees a,
    address-collect_loop fees (add_balance fee.token fee.amount a),
    address-add_balance fee.token fee.amount a,
  )

  -- One round of the loop.
  collect_skips :
      (fee : CollectedFee) (fees : List CollectedFee) (a : Account)
      → fee.amount ≡ 0
      → collect_loop id (fee ∷ fees) a ≡ collect_loop id fees a
  unfolding collect_loop
  collect_skips fee fees a e = ground arith

  collect_adds :
      (fee : CollectedFee) (fees : List CollectedFee) (a : Account)
      → fee.amount ≢ 0
      → collect_loop id (fee ∷ fees) a ≡ (
        (collect_loop id fees (add_balance fee.token fee.amount a)).0,
        change id fee.token a (add_balance fee.token fee.amount a)
            ∷ (collect_loop id fees (add_balance fee.token fee.amount a)).1,
      )
  unfolding collect_loop add_balance replace_balance
  collect_adds fee fees a e = ground arith

  reversible-collect_loop :
      (fees : List CollectedFee) (a : Account) (v : StateView)
      → AllReversible (collect_loop id fees a).1 v
  reversible-collect_loop [] a v = unfold collect_loop in tt
  reversible-collect_loop (fee ∷ fees) a v = elim (eq_cases fee.amount 0) [
    | inl e ↦ rw (collect_skips fee fees a e) (reversible-collect_loop fees a v)
    | inr e ↦
        rw (collect_adds fee fees a e)
          (tt, λ w h. reversible-collect_loop fees (add_balance fee.token fee.amount a) w)
  ]

-- Storing the account that is there changes nothing that the state shows.
view-inserted_same :
    (id : ℕ) (a : Account) (s : ZkSyncState)
    → get_account id s ≡ some a
    → HashMap.get a.address s.account_id_by_address ≡ some id
    → view (inserted id a s) ≡ view s
view-inserted_same id a s e f = view-inserted id a s ∙ same
  where
    same : store id (view_account a) (view s) ≡ view s
    same = λ k. record {
      accounts = put_restore (view s).accounts id (some (view_account a)) found k;
      ids = put_restore (view s).ids a.address (some id) f k;
      size = size k;
      depth = (view s).depth;
      block_number = (view s).block_number;
    }
      where
        found : (view s).accounts id ≡ some (view_account a)
        found = rw e refl

        size : (store id (view_account a) (view s)).size ≡ (view s).size
        size = rw found refl

-- One reported update leads to the state with the account stored.
add_step :
    (id token x : ℕ) (a : Account) (s : ZkSyncState)
    → get_account id s ≡ some a
    → id < 2 ^ s.balance_tree.tree_depth
    → update_view id
        (update_balance a.nonce
          (add_balance token x a).nonce
          token
          (get_balance token a)
          (get_balance token (add_balance token x a)))
        (view s)
      ≡ some (view (inserted id (add_balance token x a) s))
unfolding add_balance replace_balance
add_step id token x a s e d = balance_step id token (get_balance token a + x) a.nonce a s e d

-- The reported updates lead to the state with the account stored.
collect_loop_agrees :
    (id : ℕ) (fees : List CollectedFee) (a : Account) (s : ZkSyncState)
    → get_account id s ≡ some a
    → HashMap.get a.address s.account_id_by_address ≡ some id
    → id < 2 ^ s.balance_tree.tree_depth
    → update_views (collect_loop id fees a).1 (view s)
      ≡ some (view (inserted id (collect_loop id fees a).0 s))
collect_loop_agrees id [] a s e f d =
    unfold collect_loop in ap some (sym (view-inserted_same id a s e f))
collect_loop_agrees id (fee ∷ fees) a s e f d = elim (eq_cases fee.amount 0) [
  | inl e0 ↦ rw (collect_skips id fee fees a e0) (collect_loop_agrees id fees a s e f d)
  | inr e0 ↦
      let b : Account = add_balance fee.token fee.amount a in
      let s1 : ZkSyncState = inserted id b s in
      let rest =
        collect_loop_agrees id fees b s1 (get_account_here id b s)
          (get-insert b.address b.address id s.account_id_by_address ∙ rw (==_refl b.address)) d in
      rw (collect_adds id fee fees a e0, add_step id fee.token fee.amount a s e d)
        (rest
          ∙ ap some (
              view-inserted_twice id b (collect_loop id fees b).0 s
                (sym (address-collect_loop id fees b))))
]

collect_fee_runs :
    (fees : List CollectedFee) (id : ℕ) (a : Account) (s : ZkSyncState)
    → get_account id s ≡ some a
    → id < 2 ^ s.balance_tree.tree_depth
    → collect_fee fees id s
      ≡ (ok (collect_loop id fees a).1, inserted id (collect_loop id fees a).0 s)
unfolding collect_fee insert_account
collect_fee_runs fees id a s e d = ground arith

-- In a valid state with the account that takes the fees, the collection of fees does not panic; what
-- all accounts hold of a token grows by the fees in that token; and the reported updates lead from
-- what the state showed to what it shows, and can be reversed.
pub collect_fee-collects :
    (fees : List CollectedFee) (id : ℕ) (a : Account) (s : ZkSyncState) (t : ℕ)
    → IsValid s
    → get_account id s ≡ some a
    → (us : AccountUpdates) × (s' : ZkSyncState) × (collect_fee fees id s ≡ (ok us, s'))
      × (supply t s' ≡ supply t s + total fees t)
      × Explains us s s'
collect_fee-collects fees id a s t valid e =
    let d = found_within id a s valid e in
    let loop = collect_loop id fees a in
    let indexed = valid.consistent.indexed id (view_account a) (rw e) in
    let sum = sum_by-insert_old (get_balance t) id loop.0 a s.balance_tree.items e in
    let more = get_balance-collect_loop id fees a t in
    (
      loop.1,
      inserted id loop.0 s,
      collect_fee_runs fees id a s e d,
      omega arith,
      record {
        agrees = collect_loop_agrees id fees a s e indexed d;
        reversible = reversible-collect_loop id fees a (view s);
        unique = insert-IsUnique id loop.0 s.balance_tree.items valid.unique;
      },
    )
