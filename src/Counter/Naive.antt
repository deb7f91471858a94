-- ===== src/Counter/Naive.antt =====
-- patterns/01-sharded-counter/naive/src/lib.rs
use slipstream_contracts.Common.{ℕ}
use slipstream_contracts.Host.{
  Slot, persistent, Call, done, ◌>>=◌, ◌>>◌, storage_get_or, storage_set,
}
use slipstream_contracts.Host.Words.{add_u64}

pub data DataKey : Type 0 where
  counter : DataKey

abbrev pub Value : Slot DataKey → Type 0
Value _ = ℕ

module _ {Address : Type 0} where
  unfoldable pub increment : Call (Slot DataKey) Value Address ℕ
  increment = do
    value ← storage_get_or (persistent counter) 0
    value ← add_u64 value 1
    storage_set (persistent counter) value
    done value

  unfoldable pub total : Call (Slot DataKey) Value Address ℕ
  total = storage_get_or (persistent counter) 0
