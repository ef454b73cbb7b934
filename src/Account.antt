-- ===== src/Account.antt =====
-- zksync/core/lib/types/src/account/: an account of the network and the atomic changes of one.
-- An address is its 160 bits and a `PubKeyHash` its 20 bytes, each read as a number; `BigUint` is ℕ.
pub mod View
use qs_react_native_zksync.Prelude.{
  ℕ, ◌+◌, ◌-◌, Option, none, some, List, [], ◌∷◌, leb, if◌then◌else◌,
}
use qs_react_native_zksync.HashMap
use qs_react_native_zksync.HashMap.{HashMap}

abbrev pub Address : Type 0
Address = ℕ

-- `Address::zero()`
abbrev pub zero_address : Address
zero_address = 0

abbrev pub PubKeyHash : Type 0
PubKeyHash = ℕ

-- `PubKeyHash::default()`: no key was set
abbrev pub default_pub_key_hash : PubKeyHash
default_pub_key_hash = 0

pub record Account : Type 0 where
  pub pub_key_hash : PubKeyHash
  pub address : Address
  pub balances : HashMap ℕ
  pub nonce : ℕ

-- (token, old balance, new balance) stand as three fields of `update_balance`.
pub data AccountUpdate : Type 0 where
  create : (address nonce : ℕ) → AccountUpdate
  delete : (address nonce : ℕ) → AccountUpdate
  update_balance : (old_nonce new_nonce token old_balance new_balance : ℕ) → AccountUpdate
  change_pub_key_hash : (old_pub_key_hash new_pub_key_hash old_nonce new_nonce : ℕ) → AccountUpdate

abbrev pub AccountUpdates : Type 0
AccountUpdates = List (ℕ × AccountUpdate)

-- `Account::default()`
abbrev pub default_account : Account
default_account = record {
  pub_key_hash = default_pub_key_hash;
  address = zero_address;
  balances = [];
  nonce = 0;
}

abbrev pub create_account : ℕ → Address → Account × AccountUpdates
create_account id address =
    (record default_account { address = address }, (id, create address 0) ∷ [])

-- `unwrap_or_default` on what a map of balances returns
abbrev pub or_zero : Option ℕ → ℕ
or_zero none = 0
or_zero (some x) = x

unfoldable pub get_balance : ℕ → Account → ℕ
get_balance token a = or_zero (HashMap.get token a.balances)

unfoldable pub set_balance : ℕ → ℕ → Account → Account
set_balance token amount a = record a { balances = HashMap.insert token amount a.balances }

-- The entry is taken out and put back with another value, as `add_balance` and `sub_balance` do.
unfoldable pub replace_balance : ℕ → ℕ → Account → Account
replace_balance token amount a = record a {
  balances = HashMap.insert token amount (HashMap.remove token a.balances);
}

unfoldable pub add_balance : ℕ → ℕ → Account → Account
add_balance token amount a = replace_balance token (get_balance token a + amount) a

-- `none` is the panic of `BigUint` when the amount exceeds the balance.
unfoldable pub sub_balance : ℕ → ℕ → Account → Option Account
sub_balance token amount a =
    if leb amount (get_balance token a)
    then some (replace_balance token (get_balance token a - amount) a)
    else none

-- `Account::apply_update`; an update that does not fit is logged and leaves the account.
pub apply_update : Option Account → AccountUpdate → Option Account
unfolding set_balance
apply_update (some a) (create address nonce) = some a
apply_update (some a) (delete address nonce) = none
apply_update (some a) (update_balance old_nonce new_nonce token old_balance new_balance) =
    some (record (set_balance token new_balance a) { nonce = new_nonce })
apply_update (some a) (change_pub_key_hash old_hash new_hash old_nonce new_nonce) =
    some (record a { pub_key_hash = new_hash; nonce = new_nonce })
apply_update none (create address nonce) =
    some (record default_account { address = address; nonce = nonce })
apply_update none (delete address nonce) = none
apply_update none (update_balance old_nonce new_nonce token old_balance new_balance) = none
apply_update none (change_pub_key_hash old_hash new_hash old_nonce new_nonce) = none

-- `AccountUpdate::reversed_update`
unfoldable pub reversed_update : AccountUpdate → AccountUpdate
reversed_update (create address nonce) = delete address nonce
reversed_update (delete address nonce) = create address nonce
reversed_update (update_balance old_nonce new_nonce token old_balance new_balance) =
    update_balance new_nonce old_nonce token new_balance old_balance
reversed_update (change_pub_key_hash old_hash new_hash old_nonce new_nonce) =
    change_pub_key_hash new_hash old_hash new_nonce old_nonce
