-- ===== src/Balance/Naive.antt =====
-- patterns/02-per-user-balance/naive/src/lib.rs
use slipstream_contracts.Common.{◌≡◌, ◌≢◌, Option, none, some, unwrap_or}
use slipstream_contracts.Common.Int.{ℤ, pos, leb_ℤ}
use slipstream_contracts.Host.{
  Slot, persistent, Call, done, ◌>>=◌, ◌>>◌, storage_get, storage_set, require_auth, assert,
}
use slipstream_contracts.Host.Words.{add_i128, sub_i128}

-- The documented behaviour of the SDK's `Map<Address, i128>`.
pub record BalanceMap (Address : Type 0) : Type 1 where
  pub Map : Type 0
  pub new : Map
  pub get : Address → Map → Option ℤ
  pub set : Address → ℤ → Map → Map
  pub get-new : (a : Address) → get a new ≡ none
  pub get-set_self : (a : Address) (v : ℤ) (m : Map) → get a (set a v m) ≡ some v
  pub get-set_other : (a b : Address) (v : ℤ) (m : Map) → a ≢ b → get a (set b v m) ≡ get a m

pub data DataKey : Type 0 where
  balances : DataKey

module _ {Address : Type 0} (M : BalanceMap Address) where
  abbrev pub Value : Slot DataKey → Type 0
  Value _ = M.Map

  unfoldable pub load : Call (Slot DataKey) Value Address M.Map
  load = do stored ← storage_get (persistent balances); done (unwrap_or stored M.new)

  unfoldable pub store : M.Map → Call (Slot DataKey) Value Address (Unit {0})
  store m = storage_set (persistent balances) m

  unfoldable pub deposit : Address → ℤ → Call (Slot DataKey) Value Address ℤ
  unfolding load store
  deposit to amount = do
    m ← load
    new_balance ← add_i128 (unwrap_or (M.get to m) (pos 0)) amount
    store (M.set to new_balance m)
    done new_balance

  unfoldable pub transfer : Address → Address → ℤ → Call (Slot DataKey) Value Address (Unit {0})
  unfolding load store
  transfer from to amount = do
    require_auth from
    m ← load
    let from_balance = unwrap_or (M.get from m) (pos 0)
    assert (leb_ℤ amount from_balance)
    debited ← sub_i128 from_balance amount
    let m' = M.set from debited m
    to_balance ← add_i128 (unwrap_or (M.get to m') (pos 0)) amount
    store (M.set to to_balance m')

  unfoldable pub balance : Address → Call (Slot DataKey) Value Address ℤ
  unfolding load
  balance who = do m ← load; done (unwrap_or (M.get who m) (pos 0))
