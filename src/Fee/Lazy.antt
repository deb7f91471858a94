-- ===== src/Fee/Lazy.antt =====
-- patterns/03-lazy-fee-accrual/optimized/src/lib.rs
use slipstream_contracts.Common.{ℕ}
use slipstream_contracts.Common.Int.{ℤ, pos}
use slipstream_contracts.Host.{
  Slot, persistent, data_key, Call, done, ◌>>=◌, ◌>>◌, storage_get_or, storage_set, require_auth,
}
use slipstream_contracts.Host.Words.{add_u64, add_i128}

pub data DataKey (Address : Type 0) : Type 0 where
  op_count_key : Address → DataKey Address
  accrued_fee_key : Address → DataKey Address
  fee_pool_key : DataKey Address

abbrev pub ValueOf : {Address : Type 0} → DataKey Address → Type 0
ValueOf (op_count_key _) = ℕ
ValueOf (accrued_fee_key _) = ℤ
ValueOf fee_pool_key = ℤ

abbrev pub Value : {Address : Type 0} → Slot (DataKey Address) → Type 0
Value k = ValueOf (data_key k)

-- `FEE_PER_OP`
abbrev pub fee_per_op : ℤ
fee_per_op = pos 5

module _ {Address : Type 0} where
  unfoldable pub operate : Address → Call (Slot (DataKey Address)) Value Address (Unit {0})
  operate who = do
    require_auth who
    count ← storage_get_or (persistent (op_count_key who)) 0
    count' ← add_u64 count 1
    storage_set (persistent (op_count_key who)) count'
    accrued ← storage_get_or (persistent (accrued_fee_key who)) (pos 0)
    accrued' ← add_i128 accrued fee_per_op
    storage_set (persistent (accrued_fee_key who)) accrued'

  unfoldable pub sweep : Address → Call (Slot (DataKey Address)) Value Address ℤ
  sweep who = do
    accrued ← storage_get_or (persistent (accrued_fee_key who)) (pos 0)
    storage_set (persistent (accrued_fee_key who)) (pos 0)
    pool ← storage_get_or (persistent fee_pool_key) (pos 0)
    new_pool ← add_i128 pool accrued
    storage_set (persistent fee_pool_key) new_pool
    done new_pool

  unfoldable pub fee_pool : Call (Slot (DataKey Address)) Value Address ℤ
  fee_pool = storage_get_or (persistent fee_pool_key) (pos 0)

  unfoldable pub accrued : Address → Call (Slot (DataKey Address)) Value Address ℤ
  accrued who = storage_get_or (persistent (accrued_fee_key who)) (pos 0)

  unfoldable pub op_count : Address → Call (Slot (DataKey Address)) Value Address ℕ
  op_count who = storage_get_or (persistent (op_count_key who)) 0
