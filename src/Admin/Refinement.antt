-- ===== src/Admin/Refinement.antt =====
-- Reconfigurations of the two contracts of patterns/05-batched-admin-writes.
use mathlib.Core.Path.{ap₂}
use slipstream_contracts.Common.{
  ℕ, ◌<◌, ◌≡◌, refl, ap, Bool, true, false, some, List, [], ◌∷◌, map, get_elem?, unwrap_or, arith,
}
use slipstream_contracts.Common.Int.{ℤ, pos}
use slipstream_contracts.Host.{Slot, persistent, Ledger}
use slipstream_contracts.Host.Footprint.{result, after, after_all, replies}
use slipstream_contracts.Admin.Naive
use slipstream_contracts.Admin.Batched
use slipstream_contracts.Admin.Batched.{Config}
use slipstream_contracts.Admin.Settings.{set_config-get_setting}

abbrev flag : Bool → ℤ
flag true = pos 1
flag false = pos 0

-- The fields in the order in which the struct declares them, as numbers: the settings 0 to 5.
abbrev pub fields : Config → List ℤ
fields c =
    pos c.fee_bps
    ∷ c.max_amount
    ∷ flag c.paused
    ∷ pos c.admin_count
    ∷ c.min_amount
    ∷ flag c.fee_recipient_set
    ∷ []

module _ {Address : Type 0} (authorized : Address → Bool)
    (N : Ledger (Slot Naive.DataKey) Naive.Value)
    (L : Ledger (Slot Batched.DataKey) Batched.Value) where
  -- What `get_setting` reads at each of the six indices is that field of what `get_config` reads.
  abbrev pub SameSettings : N.State → L.State → Type 0
  SameSettings s t =
      (c : Config) × (result L authorized Batched.get_config t ≡ some c)
      × (result L authorized Batched.fee_bps t ≡ some c.fee_bps)
      × ((k : ℕ)
          → k < 6
          → result N authorized (Naive.get_setting k) s
            ≡ some (unwrap_or (get_elem? (fields c) k) (pos 0)))

  set_config-SameSettings :
      (c : Config) (s : N.State) (t : L.State)
      → (result N authorized (Naive.set_config (fields c)) s ≡ some tt)
        × (result L authorized (Batched.set_config c) t ≡ some tt)
        × SameSettings
            (after N authorized (Naive.set_config (fields c)) s)
            (after L authorized (Batched.set_config c) t)
  unfolding Batched.set_config Batched.get_config Batched.fee_bps
  set_config-SameSettings c s t =
      let r = set_config-get_setting authorized N (fields c) s (omega arith) in
      let e = L.read-write_self (persistent Batched.config) c t in
      (
        r.0,
        refl,
        (
          c,
          ap (λ o. some (unwrap_or o Batched.default)) e,
          ap (λ o. some ((unwrap_or o Batched.default).fee_bps)) e,
          r.1,
        ),
      )

  -- From ledgers that tell the same configuration, any sequence of whole configurations goes through
  -- in both contracts, the naive one set with the six fields in their order as the settings 0 to 5,
  -- a flag as 0 or 1. Both tell the same configuration afterwards: `get_setting` at each of the six
  -- indices reads that field of what `get_config` reads, and `fee_bps` its first.
  pub batched-refines-naive :
      (configs : List Config) (s : N.State) (t : L.State)
      → SameSettings s t
      → (replies N authorized (map (λ c. Naive.set_config (fields c)) configs) s
          ≡ map (λ _. some tt) configs)
        × (replies L authorized (map Batched.set_config configs) t ≡ map (λ _. some tt) configs)
        × SameSettings
            (after_all N authorized (map (λ c. Naive.set_config (fields c)) configs) s)
            (after_all L authorized (map Batched.set_config configs) t)
  batched-refines-naive [] s t same = (refl, refl, same)
  batched-refines-naive (c ∷ configs) s t same =
      let now = set_config-SameSettings c s t in
      let rest =
        batched-refines-naive configs (after N authorized (Naive.set_config (fields c)) s)
          (after L authorized (Batched.set_config c) t) now.2 in
      (ap₂ (λ x l. x ∷ l) now.0 rest.0, ap₂ (λ x l. x ∷ l) now.1 rest.1, rest.2)
