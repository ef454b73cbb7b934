-- ===== src/State/Handler/Base.antt =====
-- What the handlers share.
use qs_react_native_zksync.Prelude.{◌+◌, ◌%◌, Option, none, some}
use qs_react_native_zksync.Params.{u32_mod}
use qs_react_native_zksync.Account.{Account}
use qs_react_native_zksync.State.Defs.{
  Error, Action, Applied, OpSuccess, ZkSyncOp, ok, err, ◌>>=◌, pure,
}

-- `ok_or_else(...)?`
abbrev pub ok_or : {A : Type 0} → Option A → Error → Action A
ok_or none e s = (err e, s)
ok_or (some a) e s = (ok a, s)

-- `nonce += 1` on a `u32`
abbrev pub next_nonce : Account → Account
next_nonce a = record a { nonce = (a.nonce + 1) % u32_mod }

-- The body of every `apply_tx`: create the operation, apply it, report it.
abbrev pub apply_created :
    {Op : Type 0} → Action Op → (Op → Action Applied) → (Op → ZkSyncOp) → Action OpSuccess
apply_created create apply_op wrap = do
  op ← create
  done ← apply_op op
  pure (record { fee = done.0; updates = done.1; executed_op = wrap op })
