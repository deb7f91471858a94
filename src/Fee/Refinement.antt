-- ===== src/Fee/Refinement.antt =====
-- The lazy contract of patterns/03-lazy-fee-accrual against the naive one.
use mathlib.Core.Path.{subst₂}
use slipstream_contracts.Common.{
  ℕ, suc, ◌+◌, ◌≡◌, refl, sym, ap, subst, inl, inr, Bool, true, some, List, [], ◌∷◌, map, length,
  arith, In, All, Distinct,
}
use slipstream_contracts.Common.Int.{◌+ℤ◌, int_laws}
use slipstream_contracts.Host.{Slot, Call, done, ◌>>=◌, Ledger, run, run->>=}
use slipstream_contracts.Host.Words.{fits_u64, fits_u64-le, fits_i128-fees}
use slipstream_contracts.Host.Footprint.{after_all, replies, returned}
use slipstream_contracts.Fee.Naive
use slipstream_contracts.Fee.Lazy
use slipstream_contracts.Fee.Lazy.{fee_per_op}
use slipstream_contracts.Fee.Accrual.{
  ops, operated, swept, ops-operated, ops-operated_other, ops-swept,
}
use slipstream_contracts.Fee.Pool.{
  naive_pool, naive_ops, naive_operated, run-naive_operate, naive_pool-operated, naive_ops-operated,
  naive_ops-operated_other,
}
use slipstream_contracts.Fee.Bounds.{
  collected, collected_nonneg, IsBounded, same_or_not, collected-operated, collected-swept,
  operated-IsBounded, swept-IsBounded, operate_returns, sweep_returns,
}

-- The calls that change the lazy contract, in the order in which the ledger applies them.
pub data Event (Address : Type 0) : Type 0 where
  operate : Address → Event Address
  sweep : Address → Event Address

module _ {Address : Type 0} where
  unfoldable pub lazy_call :
      Event Address → Call (Slot (Lazy.DataKey Address)) Lazy.Value Address (Unit {0})
  lazy_call (operate a) = Lazy.operate a
  lazy_call (sweep a) = Lazy.sweep a >>= λ _. done tt

  -- The operations among the events; the naive contract has no sweep.
  abbrev pub operators : List (Event Address) → List Address
  operators [] = []
  operators (operate a ∷ es) = a ∷ operators es
  operators (sweep a ∷ es) = operators es

  -- An operation is signed by its account; every account of an event is on the list.
  abbrev pub Admitted : List Address → (Address → Bool) → Event Address → Type 0
  Admitted accounts authorized (operate a) = In a accounts × (authorized a ≡ true)
  Admitted accounts authorized (sweep a) = In a accounts × Unit

pub run-lazy_sweep :
    {Address : Type 0} (L : Ledger (Slot (Lazy.DataKey Address)) Lazy.Value)
    (accounts : List Address)
    → Distinct accounts
    → (a : Address) → In a accounts
    → {n : ℕ} {s : L.State} → IsBounded L accounts n s
    → (authorized : Address → Bool) → fits_u64 n ≡ true
    → run L authorized (lazy_call (sweep a)) s ≡ some (tt, swept L a s)
unfolding lazy_call
run-lazy_sweep L accounts distinct a listed {s = s} bounded authorized f =
    rw
      (
        run->>= L authorized (Lazy.sweep a) (λ _. done tt) s,
        sweep_returns L accounts distinct a listed bounded authorized f,
      )
      refl

module _ {Address : Type 0} (L : Ledger (Slot (Lazy.DataKey Address)) Lazy.Value)
    (N : Ledger (Slot (Naive.DataKey Address)) Naive.Value) (authorized : Address → Bool)
    (accounts : List Address) where
  -- The naive pool holds what the lazy contract has collected, and the counts agree.
  abbrev pub SameFees : L.State → N.State → Type 0
  SameFees s t =
      (naive_pool N t ≡ collected L accounts s) × ((a : Address) → naive_ops N a t ≡ ops L a s)

  module _ (distinct : Distinct accounts) where
    operate-SameFees :
        (a : Address) (s : L.State) (t : N.State)
        → In a accounts
        → SameFees s t
        → SameFees (operated L a s) (naive_operated N a t)
    operate-SameFees a s t listed same = (
      rw (naive_pool-operated N a t, collected-operated L accounts distinct a listed s)
          (ap (λ x. x +ℤ fee_per_op) same.0),
      λ b. elim (same_or_not L accounts b a) [
        | inl e ↦ rw (e, naive_ops-operated N a t, ops-operated L a s) (ap (λ x. x + 1) (same.1 a))
        | inr d ↦ rw (naive_ops-operated_other N a b t d, ops-operated_other L a s b d) (same.1 b)
      ],
    )

    sweep-SameFees :
        (a : Address) (s : L.State) (t : N.State)
        → In a accounts
        → SameFees s t
        → SameFees (swept L a s) t
    sweep-SameFees a s t listed same = (
      rw (collected-swept L accounts distinct a listed s) same.0,
      λ b. rw (ops-swept L a s b) (same.1 b),
    )

    naive_operate_returns :
        (a : Address) (n : ℕ) (s : L.State) (t : N.State)
        → authorized a ≡ true
        → IsBounded L accounts n s
        → SameFees s t
        → fits_u64 (n + 1) ≡ true
        → run N authorized (Naive.operate a) t ≡ some (tt, naive_operated N a t)
    naive_operate_returns a n s t signed bounded same f =
        run-naive_operate N authorized a t signed
          (rw (same.1 a) (fits_u64-le _ (n + 1) (omega (arith, bounded.ops_le a)) f))
          (rw same.0 (
            fits_i128-fees _ (n + 1) (omega (int_laws, collected_nonneg L accounts bounded))
              (omega (int_laws, bounded.collected_le)) f))

    -- On the lazy ledger no account has more than `n` operations, neither the pool nor a fee owed is
    -- below zero, and pool and fees owed are at most 5 `n`; the naive ledger has the same fees, and
    -- `n` and the operations of the run are fewer than 2^64 together. Then any run of signed
    -- operations and of sweeps, all on listed accounts, goes through in both contracts and leaves
    -- the same fees: the naive pool is the lazy pool and what is still accrued, and the operation
    -- counts agree.
    pub lazy-refines-naive :
        (events : List (Event Address)) (n : ℕ) (s : L.State) (t : N.State)
        → All (Admitted accounts authorized) events
        → IsBounded L accounts n s
        → SameFees s t
        → fits_u64 (n + length (operators events)) ≡ true
        → (replies L authorized (map lazy_call events) s ≡ map (λ _. some tt) events)
          × (replies N authorized (map Naive.operate (operators events)) t
              ≡ map (λ _. some tt) (operators events))
          × SameFees
              (after_all L authorized (map lazy_call events) s)
              (after_all N authorized (map Naive.operate (operators events)) t)
    unfolding lazy_call
    lazy-refines-naive [] n s t h bounded same f = (refl, refl, same)
    lazy-refines-naive (operate a ∷ events) n s t h bounded same f =
        let f1 = fits_u64-le (n + 1) _ (omega arith) f in
        let e : n + suc (length (operators events)) ≡ n + 1 + length (operators events) =
          omega arith in
        let r =
          returned L authorized (Lazy.operate a) s
            (operate_returns L accounts distinct a h.0.0 bounded authorized h.0.1 f1) in
        let q =
          returned N authorized (Naive.operate a) t
            (naive_operate_returns a n s t h.0.1 bounded same f1) in
        let rest =
          lazy-refines-naive events (n + 1) (operated L a s) (naive_operated N a t) h.1
            (operated-IsBounded L accounts distinct a h.0.0 bounded)
            (operate-SameFees a s t h.0.0 same) (rw e at f) in
        (
          rw (r.0, r.1) (ap (λ l. some tt ∷ l) rest.0),
          rw (q.0, q.1) (ap (λ l. some tt ∷ l) rest.1),
          subst₂
              (λ x y.
                SameFees (after_all L authorized (map lazy_call events) x)
                  (after_all N authorized (map Naive.operate (operators events)) y))
              (sym r.1) (sym q.1) rest.2,
        )
    lazy-refines-naive (sweep a ∷ events) n s t h bounded same f =
        let f0 = fits_u64-le n _ (omega arith) f in
        let w = run-lazy_sweep L accounts distinct a h.0.0 bounded authorized f0 in
        let r = returned L authorized (lazy_call (sweep a)) s w in
        let rest =
          lazy-refines-naive events n (swept L a s) t h.1
            (swept-IsBounded L accounts distinct a h.0.0 bounded) (sweep-SameFees a s t h.0.0 same)
            f in
        (
          rw (r.0, r.1) (ap (λ l. some tt ∷ l) rest.0),
          rest.1,
          subst
              (λ x.
                SameFees (after_all L authorized (map lazy_call events) x)
                  (after_all N authorized (map Naive.operate (operators events)) t))
              (sym r.1) rest.2,
        )
