-- ===== src/Counter/Sharded.antt =====
-- patterns/01-sharded-counter/optimized/src/lib.rs
pub mod Total
use slipstream_contracts.Common.{ℕ, zero, suc, ◌≡◌, refl, Result, ok, err, leb, if◌then◌else◌}
use slipstream_contracts.Host.{
  Slot, persistent, Call, done, ◌>>=◌, ◌>>◌, storage_get_or, storage_set,
}
use slipstream_contracts.Host.Words.{add_u64}

-- `SHARDS`
abbrev pub n_shards : ℕ
n_shards = 8

pub data DataKey : Type 0 where
  shard_key : ℕ → DataKey

abbrev pub Value : Slot DataKey → Type 0
Value _ = ℕ

pub data Error : Type 0 where
  shard_out_of_range : Error

abbrev pub shard_slot : ℕ → Slot DataKey
shard_slot i = persistent (shard_key i)

module _ {Address : Type 0} where
  unfoldable pub increment : ℕ → Call (Slot DataKey) Value Address (Result ℕ Error)
  increment shard = if leb n_shards shard then done (err shard_out_of_range) else do
    value ← storage_get_or (shard_slot shard) 0
    value ← add_u64 value 1
    storage_set (shard_slot shard) value
    done (ok value)

  unfoldable pub shard_total : ℕ → Call (Slot DataKey) Value Address (Result ℕ Error)
  shard_total shard =
      if leb n_shards shard
      then done (err shard_out_of_range)
      else do value ← storage_get_or (shard_slot shard) 0; done (ok value)

  -- The loop of `total`: the shards left, the next shard and the sum so far.
  unfoldable pub total_loop : ℕ → ℕ → ℕ → Call (Slot DataKey) Value Address ℕ
  total_loop zero shard sum = done sum
  total_loop (suc left) shard sum = do
    value ← storage_get_or (shard_slot shard) 0
    sum ← add_u64 sum value
    total_loop left (suc shard) sum

  unfoldable pub total : Call (Slot DataKey) Value Address ℕ
  unfolding total_loop
  total = total_loop n_shards 0 0

  unfoldable pub shards : Call (Slot DataKey) Value Address ℕ
  shards = done n_shards
