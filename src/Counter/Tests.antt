-- ===== src/Counter/Tests.antt =====
-- Runs of pattern 01 on an empty ledger.
use slipstream_contracts.Host.{done}
use slipstream_contracts.Host.Footprint.Interleave.{Reach}
use slipstream_contracts.Host.Footprint.Interleave.Serial.{Serial}
use slipstream_contracts.Host.Footprint.Interleave.{start, later, here, read_key, write_key, passed}
use slipstream_contracts.Host.Footprint.Interleave.Stages.{stage, no_stages}
use slipstream_contracts.Host.Footprint.Interleave.Updates.{updates-Reach}
use slipstream_contracts.Counter.Interleaved.{increments-Serial}
use slipstream_contracts.Counter.Sharded.{shard_slot}
use slipstream_contracts.Common.{unwrap_or, Option}
use slipstream_contracts.Counter.Answers.{answers, increments-answers}
use slipstream_contracts.Host.Footprint.{replies, IsSchedule, result, after, after_all}
use slipstream_contracts.Counter.Sharded.Total.{shard_value, shard_sum, increment-count, count}
use slipstream_contracts.Common.{
  All, Distinct, ne-none, ℕ, ◌+◌, ◌≡◌, refl, ◌↔◌, Bool, true, some, List, [], ◌∷◌, map, arith,
  ℕ_discrete, ok,
}
use slipstream_contracts.Host.{Slot, Ledger}
use slipstream_contracts.Host.Words.{fits_u64}
use slipstream_contracts.Host.Memory.{memory, empty}
use slipstream_contracts.Counter.Stages.{increments-IsSchedule_iff}
use slipstream_contracts.Counter.Naive
use slipstream_contracts.Counter.Sharded
use slipstream_contracts.Counter.Refinement.{sharded-refines-naive}

naive_eq : Discrete (Slot Naive.DataKey)
naive_eq = hlevel

sharded_eq : Discrete (Slot Sharded.DataKey)
sharded_eq = hlevel ℕ_discrete

abbrev everybody : ℕ → Bool
everybody _ = true

abbrev naive_ledger : Ledger (Slot Naive.DataKey) Naive.Value
naive_ledger = memory Naive.Value naive_eq

abbrev sharded_ledger : Ledger (Slot Sharded.DataKey) Sharded.Value
sharded_ledger = memory Sharded.Value sharded_eq

abbrev picks : List ℕ
picks = 0 ∷ 3 ∷ 3 ∷ 7 ∷ []

sharded-refines-naive_example :
    result sharded_ledger everybody Sharded.total (
      after_all sharded_ledger everybody
        (map Sharded.increment picks)
        (empty Sharded.Value sharded_eq))
    ≡ result naive_ledger everybody Naive.total (
        after_all naive_ledger everybody
          (map (λ _. Naive.increment) picks)
          (empty Naive.Value naive_eq))
unfolding fits_u64 shard_sum
sharded-refines-naive_example =
    sharded-refines-naive everybody sharded_ledger (empty Sharded.Value sharded_eq) naive_ledger
      (empty Naive.Value naive_eq) picks (omega arith) refl refl

increment-count_example :
    (result sharded_ledger everybody (Sharded.increment 5) (empty Sharded.Value sharded_eq)
      ≡ some (ok 1))
    × (count sharded_ledger everybody
          (after sharded_ledger everybody (Sharded.increment 5) (empty Sharded.Value sharded_eq))
        ≡ count sharded_ledger everybody (empty Sharded.Value sharded_eq) + 1)
unfolding fits_u64
increment-count_example =
    increment-count sharded_ledger everybody 5 (empty Sharded.Value sharded_eq) (omega arith) refl

increments-IsSchedule_iff_example :
    IsSchedule sharded_ledger everybody
      (map (map Sharded.increment) ((1 ∷ 2 ∷ []) ∷ (1 ∷ []) ∷ []))
      (empty Sharded.Value sharded_eq)
    ↔ All (Distinct {A = ℕ}) ((1 ∷ 2 ∷ []) ∷ (1 ∷ []) ∷ [])
unfolding fits_u64 shard_sum
increments-IsSchedule_iff_example =
    increments-IsSchedule_iff everybody sharded_ledger ((1 ∷ 2 ∷ []) ∷ (1 ∷ []) ∷ [])
      (empty Sharded.Value sharded_eq) (omega arith) refl

abbrev in_turn : List (List (Unit {0}))
in_turn = (tt ∷ []) ∷ (tt ∷ []) ∷ []

-- Two increments of the naive counter, in two stages.
naive-IsSchedule :
    IsSchedule naive_ledger everybody
      (map (map (λ _. Naive.increment)) in_turn)
      (empty Naive.Value naive_eq)
unfolding Naive.increment fits_u64 naive_eq
naive-IsSchedule = ((tt, tt), (ne-none _ refl, tt), ((tt, tt), (ne-none _ refl, tt), tt))

increments-answers_example :
    let s = empty Sharded.Value sharded_eq in
    (replies sharded_ledger everybody (map Sharded.increment (2 ∷ 9 ∷ 2 ∷ [])) s
      ≡ answers (2 ∷ 9 ∷ 2 ∷ []) (λ i. shard_value sharded_ledger everybody i s))
    × (result sharded_ledger everybody Sharded.total
          (after_all sharded_ledger everybody (map Sharded.increment (2 ∷ 9 ∷ 2 ∷ [])) s)
        ≡ some 2)
unfolding fits_u64 shard_sum
increments-answers_example =
    increments-answers sharded_ledger everybody (2 ∷ 9 ∷ 2 ∷ []) (empty Sharded.Value sharded_eq)
      refl

-- Increments of the shards 0 and 3, which both read before either writes.
abbrev mixed_end : (k : Slot Sharded.DataKey) → Option (Sharded.Value k)
mixed_end =
    sharded_ledger.write (shard_slot 3) 1
      (sharded_ledger.write (shard_slot 0) 1 (empty Sharded.Value sharded_eq))

mixed_run :
    Reach sharded_ledger everybody
      (map Sharded.increment (0 ∷ 3 ∷ []))
      (empty Sharded.Value sharded_eq)
      (map done (ok 1 ∷ ok 1 ∷ []))
      mixed_end
unfolding Sharded.increment fits_u64
mixed_run =
    updates-Reach sharded_ledger everybody (shard_slot 0) (λ o. fits_u64 (unwrap_or o 0 + 1))
      (λ o. unwrap_or o 0 + 1) (λ o. ok (unwrap_or o 0 + 1)) (shard_slot 3)
      (λ o. fits_u64 (unwrap_or o 0 + 1)) (λ o. unwrap_or o 0 + 1) (λ o. ok (unwrap_or o 0 + 1))
      (empty Sharded.Value sharded_eq) refl refl

-- Then one more increment of the shard 0, alone.
abbrev last_end : (k : Slot Sharded.DataKey) → Option (Sharded.Value k)
last_end = sharded_ledger.write (shard_slot 0) 2 mixed_end

last_run :
    Reach sharded_ledger everybody
      (map Sharded.increment (0 ∷ []))
      mixed_end
      (map done (ok 2 ∷ []))
      last_end
unfolding Sharded.increment fits_u64 sharded_eq ℕ_discrete
last_run =
    later (later (later start (here (read_key _ _ _))) (here (passed _ _ _ refl)))
      (here (write_key _ _ _ _))

increments-Serial_example :
    (result sharded_ledger everybody Sharded.total last_end ≡ some 3)
    × Serial sharded_ledger everybody
        (map Sharded.increment (0 ∷ 3 ∷ 0 ∷ []))
        (empty Sharded.Value sharded_eq)
        (ok 1 ∷ ok 1 ∷ ok 2 ∷ [])
        last_end
unfolding fits_u64 shard_sum
increments-Serial_example =
    increments-Serial everybody sharded_ledger ((0 ∷ 3 ∷ []) ∷ (0 ∷ []) ∷ [])
      (empty Sharded.Value sharded_eq) ((ok 1 ∷ ok 1 ∷ []) ∷ (ok 2 ∷ []) ∷ []) last_end
      (omega arith) (omega arith) refl (stage mixed_run (stage last_run no_stages))
