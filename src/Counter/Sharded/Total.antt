-- ===== src/Counter/Sharded/Total.antt =====
-- The shards of patterns/01-sharded-counter/optimized and their sum.
use slipstream_contracts.Common.{
  ℕ, zero, suc, ◌+◌, ◌<◌, ◌≤◌, ◌≡◌, refl, ap, ◌≢◌, Bool, true, none, some, arith, unwrap_or, ok,
  if◌then◌else◌, lt→leb, err, leb, ◌==◌, Bool-cases, inl, inr, false, ℕ_discrete,
}
use mathlib.Core.Path.{ap₂}
use slipstream_contracts.Host.{Slot, Ledger, run}
use slipstream_contracts.Host.Words.{fits_u64, fits_u64-le, zero-fits}
use slipstream_contracts.Host.Footprint.{result, after, returned}
use slipstream_contracts.Counter.Sharded.{
  n_shards, DataKey, Value, shard_slot, shard_out_of_range, increment, total, total_loop,
}

pub shard_slot-ne : {i j : ℕ} → i ≢ j → shard_slot i ≢ shard_slot j
shard_slot-ne h e = h (cc)

module _ {Address : Type 0} (L : Ledger (Slot DataKey) Value) (authorized : Address → Bool) where
  open L use {State, read, write, read-write_self, read-write_other}

  abbrev pub shard_value : ℕ → State → ℕ
  shard_value i s = unwrap_or (read (shard_slot i) s) 0

  -- The sum of `n` shards from shard `i` on.
  unfoldable pub shard_sum : ℕ → ℕ → State → ℕ
  shard_sum zero i s = 0
  shard_sum (suc n) i s = shard_value i s + shard_sum n (suc i) s

  total_loop_lem :
      (n i sum : ℕ) (s : State)
      → fits_u64 (sum + shard_sum n i s) ≡ true
      → run L authorized (total_loop n i sum) s ≡ some (sum + shard_sum n i s, s)
  unfolding total_loop shard_sum
  total_loop_lem zero i sum s h = ap (λ t. some (t, s)) (omega arith)
  total_loop_lem (suc n) i sum s h =
      let v = shard_value i s in
      let e : sum + (v + shard_sum n (suc i) s) ≡ sum + v + shard_sum n (suc i) s = omega arith in
      rw (fits_u64-le (sum + v) _ (omega arith) h)
        (rw e (total_loop_lem n (suc i) (sum + v) s (rw e at h)))

  -- `total` panics when the sum is out of range.
  total_loop-panic :
      (n i sum : ℕ) (s : State)
      → fits_u64 sum ≡ true
      → fits_u64 (sum + shard_sum n i s) ≡ false
      → run L authorized (total_loop n i sum) s ≡ none
  unfolding total_loop shard_sum
  total_loop-panic zero i sum s k h = let e : sum + 0 ≡ sum = omega arith in cc (rw e at h)
  total_loop-panic (suc n) i sum s k h =
      let v = shard_value i s in
      let e : sum + (v + shard_sum n (suc i) s) ≡ sum + v + shard_sum n (suc i) s = omega arith in
      elim (Bool-cases (fits_u64 (sum + v))) [
        | inl b ↦ rw b (total_loop-panic n (suc i) (sum + v) s b (rw e at h))
        | inr b ↦ rw b
      ]

  -- A write under shard `i` changes the sum by what it changes of that shard.
  shard_sum-write_other :
      (n i j v : ℕ) (s : State) → j < i → shard_sum n i (write (shard_slot j) v s) ≡ shard_sum n i s
  unfolding shard_sum
  shard_sum-write_other zero i j v s h = refl
  shard_sum-write_other (suc n) i j v s h =
      ap₂ ◌+◌
        (ap (λ o. unwrap_or o 0) (read-write_other _ _ v s (λ e. shard_slot-ne (omega arith) e)))
        (shard_sum-write_other n (suc i) j v s (omega arith))

  shard_sum-write :
      (n i j v : ℕ) (s : State)
      → i ≤ j
      → j < i + n
      → shard_sum n i (write (shard_slot j) v s) + shard_value j s ≡ shard_sum n i s + v
  unfolding shard_sum
  shard_sum-write zero i j v s p q = absurd (omega arith)
  shard_sum-write (suc n) i j v s p q = elim (ℕ_discrete i j) [
    | yes e ↦
        rw
          (
            e,
            read-write_self (shard_slot j) v s,
            shard_sum-write_other n (suc j) j v s (omega arith),
          )
          (omega arith)
    | no ne ↦
        rw (read-write_other (shard_slot i) (shard_slot j) v s (shard_slot-ne ne))
          (omega (arith, shard_sum-write n (suc i) j v s (omega arith) (omega arith)))
  ]

  -- What every shard holds together.
  abbrev pub count : State → ℕ
  count s = shard_sum n_shards 0 s

  shard_value-le-sum :
      (n i j : ℕ) (s : State) → i ≤ j → j < i + n → shard_value j s ≤ shard_sum n i s
  unfolding shard_sum
  shard_value-le-sum zero i j s p q = absurd (omega arith)
  shard_value-le-sum (suc n) i j s p q = elim (ℕ_discrete i j) [
    | yes e ↦ rw e (omega arith)
    | no ne ↦ omega (arith, shard_value-le-sum n (suc i) j s (omega arith) (omega arith))
  ]

  pub shard_value-le-count : (j : ℕ) (s : State) → j < n_shards → shard_value j s ≤ count s
  shard_value-le-count j s h = shard_value-le-sum n_shards 0 j s (omega arith) (omega arith)

  -- `total` returns the sum of the shards, or panics where that is no `u64`.
  pub total_lem :
      (s : State)
      → run L authorized total s ≡ (if fits_u64 (count s) then some (count s, s) else none)
  unfolding total
  total_lem s =
      let z : 0 + count s ≡ count s = omega arith in
      elim (Bool-cases (fits_u64 (count s))) [
        | inl e ↦ rw e (rw z at (total_loop_lem n_shards 0 0 s (rw (← z) at e)))
        | inr e ↦ rw e (total_loop-panic n_shards 0 0 s zero-fits (rw (← z) at e))
      ]

  run-increment :
      (i : ℕ) (s : State)
      → i < n_shards
      → fits_u64 (shard_value i s + 1) ≡ true
      → run L authorized (increment i) s
        ≡ some (ok (shard_value i s + 1), write (shard_slot i) (shard_value i s + 1) s)
  unfolding increment
  run-increment i s h fits = rw (lt→leb n_shards i h) (rw fits refl)

  -- An increment of a shard in range returns that shard's new value and counts one more.
  pub increment-count :
      (i : ℕ) (s : State)
      → i < n_shards
      → fits_u64 (shard_value i s + 1) ≡ true
      → (result L authorized (increment i) s ≡ some (ok (shard_value i s + 1)))
        × (count (after L authorized (increment i) s) ≡ count s + 1)
  increment-count i s h fits =
      let r = returned L authorized (increment i) s (run-increment i s h fits) in
      (
        r.0,
        rw (r.1) (
            omega (
              arith,
              shard_sum-write n_shards 0 i (shard_value i s + 1) s (omega arith) (omega arith),
            )),
      )

  -- An increment of a shard out of range answers with the error and leaves the ledger as it is.
  pub run-increment_out :
      (i : ℕ) (s : State)
      → leb n_shards i ≡ true
      → run L authorized (increment i) s ≡ some (err shard_out_of_range, s)
  unfolding increment
  run-increment_out i s out = rw out refl

  pub shard_value-increment :
      (i j : ℕ) (s : State)
      → i < n_shards
      → fits_u64 (shard_value i s + 1) ≡ true
      → shard_value j (after L authorized (increment i) s)
        ≡ (if j == i then shard_value j s + 1 else shard_value j s)
  shard_value-increment i j s h fits =
      let r = returned L authorized (increment i) s (run-increment i s h fits) in
      rw (r.1) (elim (ℕ_discrete j i) [
        | yes e ↦ rw (e, read-write_self (shard_slot i) (shard_value i s + 1) s) (ground arith)
        | no n ↦
            rw
              (read-write_other (shard_slot j) (shard_slot i) (shard_value i s + 1) s
                (shard_slot-ne n))
              (ground arith)
      ])
