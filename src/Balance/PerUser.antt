-- ===== src/Balance/PerUser.antt =====
-- patterns/02-per-user-balance/optimized/src/lib.rs
use slipstream_contracts.Common.Int.{ℤ, pos, leb_ℤ}
use slipstream_contracts.Host.{
  Slot, persistent, Call, done, ◌>>=◌, ◌>>◌, storage_get_or, storage_set, require_auth, assert,
}
use slipstream_contracts.Host.Words.{add_i128, sub_i128}

pub data DataKey (Address : Type 0) : Type 0 where
  balance_key : Address → DataKey Address

abbrev pub Value : {Address : Type 0} → Slot (DataKey Address) → Type 0
Value _ = ℤ

module _ {Address : Type 0} where
  abbrev pub balance_slot : Address → Slot (DataKey Address)
  balance_slot who = persistent (balance_key who)

  unfoldable pub read : Address → Call (Slot (DataKey Address)) Value Address ℤ
  read who = storage_get_or (balance_slot who) (pos 0)

  unfoldable pub write : Address → ℤ → Call (Slot (DataKey Address)) Value Address (Unit {0})
  write who amount = storage_set (balance_slot who) amount

  unfoldable pub deposit : Address → ℤ → Call (Slot (DataKey Address)) Value Address ℤ
  unfolding read write
  deposit to amount = do
    new_balance ← add_i128 (← read to) amount
    write to new_balance
    done new_balance

  unfoldable pub transfer :
      Address → Address → ℤ → Call (Slot (DataKey Address)) Value Address (Unit {0})
  unfolding read write
  transfer from to amount = do
    require_auth from
    from_balance ← read from
    assert (leb_ℤ amount from_balance)
    debited ← sub_i128 from_balance amount
    write from debited
    to_balance ← add_i128 (← read to) amount
    write to to_balance

  unfoldable pub balance : Address → Call (Slot (DataKey Address)) Value Address ℤ
  unfolding read
  balance who = read who
