-- ===== src/Fee/Bounds.antt =====
-- How far the counts and fees of patterns/03-lazy-fee-accrual grow with the operations.
use slipstream_contracts.Common.{
  ℕ, ◌+◌, ◌*◌, ◌≤◌, ◌≡◌, ap, ◌≢◌, ◌⊎◌, inl, inr, Bool, true, some, List, arith, In, Distinct,
}
use slipstream_contracts.Common.Int.{ℤ, pos, ◌+ℤ◌, ◌≤ℤ◌, int_laws, parts_of_eq}
use slipstream_contracts.Common.Sums.{sum_of, sum_of-change, sum_of_nonneg, le-sum_of}
use slipstream_contracts.Host.{Slot, Ledger, run}
use slipstream_contracts.Host.Words.{fits_u64, fits_u64-le, fits_i128-fees}
use slipstream_contracts.Fee.Lazy
use slipstream_contracts.Fee.Lazy.{DataKey, Value, fee_per_op}
use slipstream_contracts.Fee.Accrual.{
  ops_slot, pool, owed, ops, operated, swept, run-operate, run-sweep, pool-operated, owed-operated,
  owed-operated_other, ops-operated, ops-operated_other, pool-swept, owed-swept, owed-swept_other,
  ops-swept,
}

module _ {Address : Type 0} (L : Ledger (Slot (DataKey Address)) Value)
    (accounts : List Address) where
  open L use {State, key_eq}

  -- All fees so far, swept or not.
  abbrev pub collected : State → ℤ
  collected s = pool L s +ℤ sum_of accounts (λ a. owed L a s)

  pub record IsBounded (n : ℕ) (s : State) : Type 0 where
    pub ops_le : (a : Address) → ops L a s ≤ n
    pub owed_nonneg : (a : Address) → pos 0 ≤ℤ owed L a s
    pub pool_nonneg : pos 0 ≤ℤ pool L s
    pub collected_le : collected s ≤ℤ pos (5 * n)

  pub collected_nonneg : {n : ℕ} {s : State} → IsBounded n s → pos 0 ≤ℤ collected s
  collected_nonneg {s} bounded =
      omega (
        int_laws,
        bounded.pool_nonneg,
        sum_of_nonneg accounts (λ b. owed L b s) bounded.owed_nonneg,
      )

  pub same_or_not : (a b : Address) → (a ≡ b) ⊎ (a ≢ b)
  same_or_not a b = elim (key_eq (ops_slot a) (ops_slot b)) [
    | yes e ↦ inl (cc)
    | no n ↦ inr (λ e. n (ap ops_slot e))
  ]

  module _ (distinct : Distinct accounts) (a : Address) (listed : In a accounts) where
    pub collected-operated : (s : State) → collected (operated L a s) ≡ collected s +ℤ fee_per_op
    collected-operated s = omega (
      int_laws,
      parts_of_eq (pool-operated L a s),
      parts_of_eq (owed-operated L a s),
      parts_of_eq (
          sum_of-change accounts (λ b. owed L b s) (λ b. owed L b (operated L a s)) a
            (owed-operated_other L a s) distinct listed),
    )

    pub collected-swept : (s : State) → collected (swept L a s) ≡ collected s
    collected-swept s = omega (
      int_laws,
      parts_of_eq (pool-swept L a s),
      parts_of_eq (owed-swept L a s),
      parts_of_eq (
          sum_of-change accounts (λ b. owed L b s) (λ b. owed L b (swept L a s)) a
            (owed-swept_other L a s) distinct listed),
    )

    module _ {n : ℕ} {s : State} (bounded : IsBounded n s) where
      owed_le : owed L a s ≤ℤ pos (5 * n)
      owed_le = omega (
        int_laws,
        bounded.pool_nonneg,
        bounded.collected_le,
        le-sum_of accounts (λ b. owed L b s) a bounded.owed_nonneg listed,
      )

      pub operated-IsBounded : IsBounded (n + 1) (operated L a s)
      operated-IsBounded = record {
        ops_le = λ b. elim (same_or_not b a) [
          | inl e ↦ rw (e, ops-operated L a s) (omega (arith, bounded.ops_le a))
          | inr d ↦ rw (ops-operated_other L a s b d) (omega (arith, bounded.ops_le b))
        ];
        owed_nonneg = λ b. elim (same_or_not b a) [
          | inl e ↦ rw (e, owed-operated L a s) (omega (int_laws, bounded.owed_nonneg a))
          | inr d ↦ rw (owed-operated_other L a s b d) (bounded.owed_nonneg b)
        ];
        pool_nonneg = rw (pool-operated L a s) bounded.pool_nonneg;
        collected_le = rw (collected-operated s) (omega (int_laws, bounded.collected_le));
      }

      pub swept-IsBounded : IsBounded n (swept L a s)
      swept-IsBounded = record {
        ops_le = λ b. rw (ops-swept L a s b) (bounded.ops_le b);
        owed_nonneg = λ b. elim (same_or_not b a) [
          | inl e ↦ rw (e, owed-swept L a s) (omega arith)
          | inr d ↦ rw (owed-swept_other L a s b d) (bounded.owed_nonneg b)
        ];
        pool_nonneg =
            rw (pool-swept L a s) (omega (int_laws, bounded.pool_nonneg, bounded.owed_nonneg a));
        collected_le = rw (collected-swept s) bounded.collected_le;
      }

      -- Below 2^64 operations, an authorised operation returns.
      pub operate_returns :
          (authorized : Address → Bool)
          → authorized a ≡ true
          → fits_u64 (n + 1) ≡ true
          → run L authorized (Lazy.operate a) s ≡ some (tt, operated L a s)
      operate_returns authorized signed f =
          run-operate L authorized a s signed
            (fits_u64-le _ (n + 1) (omega (arith, bounded.ops_le a)) f)
            (fits_i128-fees _ (n + 1) (omega (int_laws, bounded.owed_nonneg a))
              (omega (int_laws, owed_le)) f)

      -- So does a sweep, by anybody.
      pub sweep_returns :
          (authorized : Address → Bool)
          → fits_u64 n ≡ true
          → run L authorized (Lazy.sweep a) s ≡ some (pool L s +ℤ owed L a s, swept L a s)
      sweep_returns authorized f = run-sweep L authorized a s (
          fits_i128-fees _ n (omega (int_laws, bounded.pool_nonneg, bounded.owed_nonneg a))
            (omega (
              int_laws,
              bounded.collected_le,
              le-sum_of accounts (λ b. owed L b s) a bounded.owed_nonneg listed,
            ))
            f)
