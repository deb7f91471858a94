-- ===== src/Nonce/PerUser.antt =====
-- patterns/04-temporary-nonce/optimized/src/lib.rs
use slipstream_contracts.Common.{ℕ}
use slipstream_contracts.Host.{
  Slot, temporary, Call, done, ◌>>=◌, ◌>>◌, storage_get_or, storage_set, require_auth,
}
use slipstream_contracts.Host.Words.{add_u64}

pub data DataKey (Address : Type 0) : Type 0 where
  nonce : Address → DataKey Address

abbrev pub Value : {Address : Type 0} → Slot (DataKey Address) → Type 0
Value _ = ℕ

module _ {Address : Type 0} where
  unfoldable pub next : Address → Call (Slot (DataKey Address)) Value Address ℕ
  next who = do
    require_auth who
    let key = temporary (nonce who)
    current ← storage_get_or key 0
    next ← add_u64 current 1
    storage_set key next
    done next

  unfoldable pub current : Address → Call (Slot (DataKey Address)) Value Address ℕ
  current who = storage_get_or (temporary (nonce who)) 0
