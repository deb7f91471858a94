-- ===== src/EventLog/Segmented.antt =====
-- patterns/06-event-log/optimized/src/lib.rs
use slipstream_contracts.Common.{ℕ, zero, suc, Option, Result, ok, err, leb, if◌then◌else◌}
use slipstream_contracts.Host.{
  Slot, persistent, data_key, Call, done, ◌>>=◌, ◌>>◌, storage_get, storage_get_or, storage_set,
}
use slipstream_contracts.Host.Words.{add_u64}

-- `SEGMENTS`
abbrev pub n_segments : ℕ
n_segments = 8

pub data DataKey : Type 0 where
  segment_tail : ℕ → DataKey
  entry_key : ℕ → ℕ → DataKey

abbrev pub ValueOf : Type 0 → DataKey → Type 0
ValueOf Message (segment_tail _) = ℕ
ValueOf Message (entry_key _ _) = Message

abbrev pub Value : Type 0 → Slot DataKey → Type 0
Value Message k = ValueOf Message (data_key k)

pub data Error : Type 0 where
  segment_out_of_range : Error

abbrev pub tail_slot : ℕ → Slot DataKey
tail_slot segment = persistent (segment_tail segment)

abbrev pub entry_slot : ℕ → ℕ → Slot DataKey
entry_slot segment index = persistent (entry_key segment index)

module _ {Message Address : Type 0} where
  unfoldable pub append : ℕ → Message → Call (Slot DataKey) (Value Message) Address (Result ℕ Error)
  append segment msg = if leb n_segments segment then done (err segment_out_of_range) else do
    tail ← storage_get_or (tail_slot segment) 0
    storage_set (entry_slot segment tail) msg
    next ← add_u64 tail 1
    storage_set (tail_slot segment) next
    done (ok tail)

  unfoldable pub segment_len : ℕ → Call (Slot DataKey) (Value Message) Address (Result ℕ Error)
  segment_len segment =
      if leb n_segments segment
      then done (err segment_out_of_range)
      else do len ← storage_get_or (tail_slot segment) 0; done (ok len)

  -- The loop of `total_len`: the segments left, the next segment and the sum so far.
  unfoldable pub total_len_loop : ℕ → ℕ → ℕ → Call (Slot DataKey) (Value Message) Address ℕ
  total_len_loop zero segment sum = done sum
  total_len_loop (suc left) segment sum = do
    len ← storage_get_or (tail_slot segment) 0
    sum ← add_u64 sum len
    total_len_loop left (suc segment) sum

  unfoldable pub total_len : Call (Slot DataKey) (Value Message) Address ℕ
  unfolding total_len_loop
  total_len = total_len_loop n_segments 0 0

  unfoldable pub get : ℕ → ℕ → Call (Slot DataKey) (Value Message) Address (Option Message)
  get segment index = storage_get (entry_slot segment index)

  unfoldable pub segments : Call (Slot DataKey) (Value Message) Address ℕ
  segments = done n_segments
