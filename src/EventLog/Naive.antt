-- ===== src/EventLog/Naive.antt =====
-- patterns/06-event-log/naive/src/lib.rs. `Message` is the SDK's `String`, which the code only
-- stores and returns.
use slipstream_contracts.Common.{ℕ, Option}
use slipstream_contracts.Host.{
  Slot, persistent, data_key, Call, done, ◌>>=◌, ◌>>◌, storage_get, storage_get_or, storage_set,
}
use slipstream_contracts.Host.Words.{add_u64}

pub data DataKey : Type 0 where
  tail_key : DataKey
  entry_key : ℕ → DataKey

abbrev pub ValueOf : Type 0 → DataKey → Type 0
ValueOf Message tail_key = ℕ
ValueOf Message (entry_key _) = Message

abbrev pub Value : Type 0 → Slot DataKey → Type 0
Value Message k = ValueOf Message (data_key k)

module _ {Message Address : Type 0} where
  unfoldable pub append : Message → Call (Slot DataKey) (Value Message) Address ℕ
  append msg = do
    tail ← storage_get_or (persistent tail_key) 0
    storage_set (persistent (entry_key tail)) msg
    next ← add_u64 tail 1
    storage_set (persistent tail_key) next
    done tail

  unfoldable pub entry_count : Call (Slot DataKey) (Value Message) Address ℕ
  entry_count = storage_get_or (persistent tail_key) 0

  unfoldable pub get : ℕ → Call (Slot DataKey) (Value Message) Address (Option Message)
  get index = storage_get (persistent (entry_key index))
