-- ===== src/Admin/Tests.antt =====
-- Runs of pattern 05, with numbers for addresses.
use slipstream_contracts.Common.{map, refl, suc, zero}
use slipstream_contracts.Host.Footprint.{after_all, replies}
use slipstream_contracts.Admin.Refinement.{fields, SameSettings, batched-refines-naive}
use slipstream_contracts.Common.{
  ℕ, ◌≤◌, ◌<◌, ◌≡◌, Bool, true, Option, some, List, [], ◌∷◌, get_elem?, unwrap_or, arith, ◌↔◌,
  ℕ_discrete,
}
use slipstream_contracts.Common.Int.{ℤ, pos, negsuc}
use slipstream_contracts.Host.{Slot, Ledger}
use slipstream_contracts.Host.Memory.{memory, empty}
use slipstream_contracts.Host.Footprint.{result, after, Conflict}
use slipstream_contracts.Admin.Naive
use slipstream_contracts.Admin.Batched
use slipstream_contracts.Admin.Batched.{Config}
use slipstream_contracts.Admin.Settings.{
  set_config-get_setting, set_config-get_setting-Conflict_iff,
}

naive_eq : Discrete (Slot Naive.DataKey)
naive_eq = hlevel ℕ_discrete

batched_eq : Discrete (Slot Batched.DataKey)
batched_eq = hlevel

abbrev everybody : ℕ → Bool
everybody _ = true

abbrev naive_ledger : Ledger (Slot Naive.DataKey) Naive.Value
naive_ledger = memory Naive.Value naive_eq

abbrev batched_ledger : Ledger (Slot Batched.DataKey) Batched.Value
batched_ledger = memory Batched.Value batched_eq

abbrev start : (k : Slot Naive.DataKey) → Option ℤ
start = empty Naive.Value naive_eq

abbrev values : List ℤ
values = pos 30 ∷ negsuc 4 ∷ []

abbrev settings : Config
settings = record Batched.default { fee_bps = 30; paused = true }

set_config-get_setting_example :
    let t = after naive_ledger everybody (Naive.set_config values) start in
    (result naive_ledger everybody (Naive.set_config values) start ≡ some tt)
    × ((k : ℕ)
        → k < 2
        → result naive_ledger everybody (Naive.get_setting k) t
          ≡ some (unwrap_or (get_elem? values k) (pos 0)))
    × ((k : ℕ)
        → 2 ≤ k
        → result naive_ledger everybody (Naive.get_setting k) t
          ≡ result naive_ledger everybody (Naive.get_setting k) start)
set_config-get_setting_example =
    set_config-get_setting everybody naive_ledger values start (omega arith)

set_config-get_setting-Conflict_iff_example :
    Conflict naive_ledger everybody (Naive.set_config values) (Naive.get_setting 1) start
    ↔ (◌<◌ 1 2)
set_config-get_setting-Conflict_iff_example =
    set_config-get_setting-Conflict_iff everybody naive_ledger values 1 start (omega arith)

abbrev batched_start : (k : Slot Batched.DataKey) → Option Config
batched_start = empty Batched.Value batched_eq

-- Two ledgers without a configuration tell the default one.
start-SameSettings : SameSettings everybody naive_ledger batched_ledger start batched_start
unfolding Batched.get_config Batched.fee_bps Naive.get_setting
start-SameSettings = (Batched.default, refl, refl, of)
  where
    of :
        (k : ℕ)
        → k < 6
        → some (pos 0) ≡ some (unwrap_or (get_elem? (fields Batched.default) k) (pos 0))
    of zero h = refl
    of (suc zero) h = refl
    of (suc (suc zero)) h = refl
    of (suc (suc (suc zero))) h = refl
    of (suc (suc (suc (suc zero)))) h = refl
    of (suc (suc (suc (suc (suc zero))))) h = refl
    of (suc (suc (suc (suc (suc (suc k)))))) h = absurd (omega arith)

abbrev configs : List Config
configs = settings ∷ record Batched.default { max_amount = negsuc 4 } ∷ []

batched-refines-naive_example :
    (replies naive_ledger everybody (map (λ c. Naive.set_config (fields c)) configs) start
      ≡ map (λ _. some tt) configs)
    × (replies batched_ledger everybody (map Batched.set_config configs) batched_start
        ≡ map (λ _. some tt) configs)
    × SameSettings everybody naive_ledger batched_ledger
        (after_all naive_ledger everybody (map (λ c. Naive.set_config (fields c)) configs) start)
        (after_all batched_ledger everybody (map Batched.set_config configs) batched_start)
batched-refines-naive_example =
    batched-refines-naive everybody naive_ledger batched_ledger configs start batched_start
      start-SameSettings
