-- ===== src/Nonce/Naive.antt =====
-- patterns/04-temporary-nonce/naive/src/lib.rs
use slipstream_contracts.Common.{ℕ}
use slipstream_contracts.Host.{
  Slot, persistent, Call, done, ◌>>=◌, ◌>>◌, storage_get_or, storage_set,
}
use slipstream_contracts.Host.Words.{add_u64}

pub data DataKey : Type 0 where
  nonce : DataKey

abbrev pub Value : Slot DataKey → Type 0
Value _ = ℕ

module _ {Address : Type 0} where
  unfoldable pub next : Call (Slot DataKey) Value Address ℕ
  next = do
    current ← storage_get_or (persistent nonce) 0
    next ← add_u64 current 1
    storage_set (persistent nonce) next
    done next

  unfoldable pub current : Call (Slot DataKey) Value Address ℕ
  current = storage_get_or (persistent nonce) 0
