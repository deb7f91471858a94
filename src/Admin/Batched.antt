-- ===== src/Admin/Batched.antt =====
-- patterns/05-batched-admin-writes/optimized/src/lib.rs
use slipstream_contracts.Common.{ℕ, Bool, false, unwrap_or}
use slipstream_contracts.Common.Int.{ℤ, pos}
use slipstream_contracts.Host.{Slot, persistent, Call, done, ◌>>=◌, storage_get, storage_set}

pub record Config : Type 0 where
  pub fee_bps : ℕ
  pub max_amount : ℤ
  pub paused : Bool
  pub admin_count : ℕ
  pub min_amount : ℤ
  pub fee_recipient_set : Bool

-- `Config::default`
abbrev pub default : Config
default = record {
  fee_bps = 0;
  max_amount = pos 0;
  paused = false;
  admin_count = 0;
  min_amount = pos 0;
  fee_recipient_set = false;
}

pub data DataKey : Type 0 where
  config : DataKey

abbrev pub Value : Slot DataKey → Type 0
Value _ = Config

module _ {Address : Type 0} where
  unfoldable pub set_config : Config → Call (Slot DataKey) Value Address (Unit {0})
  set_config c = storage_set (persistent config) c

  unfoldable pub get_config : Call (Slot DataKey) Value Address Config
  get_config = do stored ← storage_get (persistent config); done (unwrap_or stored default)

  unfoldable pub fee_bps : Call (Slot DataKey) Value Address ℕ
  unfolding get_config
  fee_bps = do c ← get_config; done c.fee_bps
