-- ===== src/State/Inversion/Bind.antt =====
-- Actions in sequence: what a success says of each.
use qs_react_native_zksync.Prelude.{◌≡◌, refl, arith}
use qs_react_native_zksync.State.Defs.{
  ZkSyncState, Result, ok, err, panic, Action, Applied, OpSuccess, ZkSyncOp, pure, ◌>>=◌,
}
use qs_react_native_zksync.State.Handler.Base.{apply_created}

pub bind_ok :
    {A B : Type 0} (m : Action A) (f : A → Action B) (s : ZkSyncState) {b : B} {s' : ZkSyncState}
    → (m >>= f) s ≡ (ok b, s')
    → (a : A) × (t : ZkSyncState) × (m s ≡ (ok a, t)) × (f a t ≡ (ok b, s'))
bind_ok {A} {B} m f s {b} {s'} = go (m s)
  where
    go :
        (p : Result A × ZkSyncState)
        → ((λ (t : ZkSyncState). p) >>= f) s ≡ (ok b, s')
        → (a : A) × (t : ZkSyncState) × (p ≡ (ok a, t)) × (f a t ≡ (ok b, s'))
    go (ok a, t) h = (a, t, refl, h)
    go (err e, t) h = cc
    go (panic, t) h = cc

-- What a successful `apply_tx` has created and applied.
pub apply_created_ok :
    {Op : Type 0} (create : Action Op) (apply_op : Op → Action Applied) (wrap : Op → ZkSyncOp)
    (s : ZkSyncState) {r : OpSuccess} {s' : ZkSyncState}
    → apply_created create apply_op wrap s ≡ (ok r, s')
    → (op : Op) × (t : ZkSyncState) × (done : Applied) × (create s ≡ (ok op, t))
      × (apply_op op t ≡ (ok done, s'))
      × (r ≡ record { fee = done.0; updates = done.1; executed_op = wrap op })
apply_created_ok create apply_op wrap s {s' = s'} h =
    let (op, t, made, rest) =
      bind_ok create
        (λ op. apply_op op >>= λ done.
          pure (record { fee = done.0; updates = done.1; executed_op = wrap op }))
        s h in
    let (done, t', applied, last) =
      bind_ok (apply_op op)
        (λ done. pure (record { fee = done.0; updates = done.1; executed_op = wrap op })) t rest in
    let same : t' ≡ s' = ground (arith, last) in
    (op, t, done, made, rw same at applied, ground (arith, last))
