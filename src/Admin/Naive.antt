-- ===== src/Admin/Naive.antt =====
-- patterns/05-batched-admin-writes/naive/src/lib.rs
use slipstream_contracts.Common.{ℕ, suc, ◌%◌, ◌^◌, List, [], ◌∷◌}
use slipstream_contracts.Common.Int.{ℤ, pos}
use slipstream_contracts.Host.{Slot, persistent, Call, done, ◌>>◌, storage_get_or, storage_set}

pub data DataKey : Type 0 where
  setting : ℕ → DataKey

abbrev pub Value : Slot DataKey → Type 0
Value _ = ℤ

module _ {Address : Type 0} where
  -- The loop of `set_config` from the item with index `i` on; `i as u32` keeps 32 bits.
  unfoldable pub set_config_from : ℕ → List ℤ → Call (Slot DataKey) Value Address (Unit {0})
  set_config_from i [] = done tt
  set_config_from i (value ∷ values) = do
    storage_set (persistent (setting (i % 2 ^ 32))) value
    set_config_from (suc i) values

  unfoldable pub set_config : List ℤ → Call (Slot DataKey) Value Address (Unit {0})
  unfolding set_config_from
  set_config values = set_config_from 0 values

  unfoldable pub get_setting : ℕ → Call (Slot DataKey) Value Address ℤ
  get_setting index = storage_get_or (persistent (setting index)) (pos 0)
