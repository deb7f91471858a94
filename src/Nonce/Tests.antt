-- ===== src/Nonce/Tests.antt =====
-- Runs of pattern 04, with numbers for addresses.
use slipstream_contracts.Common.{List}
use slipstream_contracts.Nonce.Refinement.{own, next-refines-naive}
use slipstream_contracts.Nonce.Answers.{answers, last_nonces, nexts-answers}
use slipstream_contracts.Host.Footprint.{replies, after_all, result, after}
use slipstream_contracts.Nonce.PerUser.{current, nonce, next}
use slipstream_contracts.Common.{
  map, [], ◌∷◌, ℕ, ◌<◌, ◌≡◌, refl, Bool, true, Option, some, arith, ℕ_discrete,
}
use slipstream_contracts.Host.{Slot, Ledger}
use slipstream_contracts.Host.Words.{fits_u64}
use slipstream_contracts.Host.Memory.{memory, empty, removed, removed_self, removed_other}
use slipstream_contracts.Nonce.Naive
use slipstream_contracts.Nonce.PerUser
use slipstream_contracts.Nonce.Freshness.{
  Evicting, nonce_slot, call, evicted, here, then_step, next_increases, after_calls,
  next_after_eviction,
}

naive_eq : Discrete (Slot Naive.DataKey)
naive_eq = hlevel

per_user_eq : Discrete (Slot (PerUser.DataKey ℕ))
per_user_eq = hlevel ℕ_discrete

abbrev everybody : ℕ → Bool
everybody _ = true

abbrev naive_ledger : Ledger (Slot Naive.DataKey) Naive.Value
naive_ledger = memory Naive.Value naive_eq

abbrev ledger : Ledger (Slot (PerUser.DataKey ℕ)) PerUser.Value
ledger = memory PerUser.Value per_user_eq

abbrev eviction : Evicting ledger
eviction = record {
  evict = removed PerUser.Value per_user_eq;
  read-evict_self = removed_self PerUser.Value per_user_eq;
  read-evict_other = removed_other PerUser.Value per_user_eq;
}

abbrev start : (k : Slot (PerUser.DataKey ℕ)) → Option ℕ
start = empty PerUser.Value per_user_eq

abbrev first : (k : Slot (PerUser.DataKey ℕ)) → Option ℕ
first = after ledger everybody (next 1) start

-- Another account takes a nonce, and its entry is evicted.
abbrev later : (k : Slot (PerUser.DataKey ℕ)) → Option ℕ
later = eviction.evict (nonce_slot 2) (after ledger everybody (next 2) first)

first_nonce : result ledger everybody (next 1) start ≡ some 1
unfolding next fits_u64
first_nonce = refl

second_nonce : result ledger everybody (next 1) later ≡ some 2
unfolding next fits_u64 per_user_eq ℕ_discrete
second_nonce = refl

next_increases_example : ◌<◌ 1 2
next_increases_example =
    next_increases ledger eviction everybody 1 start later first_nonce
      (then_step (then_step here (call 2 first))
        (evicted 2 (after ledger everybody (next 2) first) (omega arith)))
      second_nonce

next_after_eviction_example :
    result ledger everybody
      (next 1)
      (after_calls ledger eviction everybody 2 1 (eviction.evict (nonce_slot 1) first))
    ≡ some 3
unfolding fits_u64
next_after_eviction_example = next_after_eviction ledger eviction everybody 1 first 2 refl refl

nexts-answers_example :
    (replies ledger everybody (map next (1 ∷ 2 ∷ 1 ∷ [])) start
      ≡ answers ℕ_discrete everybody (1 ∷ 2 ∷ 1 ∷ []) (λ _. 0))
    × ((a : ℕ)
        → result ledger everybody
            (current a)
            (after_all ledger everybody (map next (1 ∷ 2 ∷ 1 ∷ [])) start)
          ≡ some (last_nonces ℕ_discrete everybody (1 ∷ 2 ∷ 1 ∷ []) (λ _. 0) a))
nexts-answers_example =
    nexts-answers ℕ_discrete everybody ledger (1 ∷ 2 ∷ 1 ∷ []) (λ _. 0) start (λ a. refl)

abbrev naive_start : (k : Slot Naive.DataKey) → Option ℕ
naive_start = empty Naive.Value naive_eq

-- Account 1 among calls of two accounts.
abbrev mixed_picks : List ℕ
mixed_picks = 1 ∷ 2 ∷ 2 ∷ 1 ∷ []

next-refines-naive_example :
    let calls = map (λ _. Naive.next) (own ℕ_discrete 1 mixed_picks mixed_picks) in
    (own ℕ_discrete 1 mixed_picks (replies ledger everybody (map next mixed_picks) start)
      ≡ replies naive_ledger everybody calls naive_start)
    × (result ledger everybody (current 1) (after_all ledger everybody (map next mixed_picks) start)
        ≡ result naive_ledger everybody Naive.current
            (after_all naive_ledger everybody calls naive_start))
next-refines-naive_example =
    next-refines-naive ℕ_discrete everybody ledger naive_ledger 1 refl mixed_picks start naive_start
      refl
