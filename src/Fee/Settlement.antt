-- ===== src/Fee/Settlement.antt =====
-- Sweeps of every account of pattern 03, after any run.
use slipstream_contracts.Common.{
  ℕ, suc, ◌+◌, ◌≡◌, refl, sym, subst, ap, ◌∙◌, ◌≢◌, ◌⊎◌, inl, inr, Bool, true, some, none, List, [],
  ◌∷◌, map, length, arith, In, All, All-in, All-of, Distinct, ne-none,
}
use slipstream_contracts.Common.Int.{ℤ, pos, int_laws, parts_of_eq}
use slipstream_contracts.Common.Sums.{sum_of}
use slipstream_contracts.Host.{Slot, Ledger}
use slipstream_contracts.Host.Words.{fits_u64, fits_u64-le}
use slipstream_contracts.Host.Footprint.{result, after_all, replies, returned}
use slipstream_contracts.Fee.Naive
use slipstream_contracts.Fee.Lazy
use slipstream_contracts.Fee.Accrual.{pool, owed, operated, swept, owed-swept, owed-swept_other}
use slipstream_contracts.Fee.Pool.{naive_pool}
use slipstream_contracts.Fee.Bounds.{
  collected, IsBounded, same_or_not, collected-swept, operated-IsBounded, swept-IsBounded,
  operate_returns, sweep_returns,
}
use slipstream_contracts.Fee.Refinement.{
  Event, operate, sweep, lazy_call, operators, Admitted, SameFees, run-lazy_sweep,
  lazy-refines-naive,
}

sum_of-zero :
    {A : Type 0} (xs : List A) (f : A → ℤ) → All (λ a. f a ≡ pos 0) xs → sum_of xs f ≡ pos 0
sum_of-zero [] f h = refl
sum_of-zero (a ∷ xs) f h = omega (int_laws, parts_of_eq h.0, parts_of_eq (sum_of-zero xs f h.1))

module _ {Address : Type 0} (L : Ledger (Slot (Lazy.DataKey Address)) Lazy.Value)
    (authorized : Address → Bool) (accounts : List Address) (distinct : Distinct accounts) where
  open L use {State}

  events-IsBounded :
      (events : List (Event Address)) (n : ℕ) (s : State)
      → All (Admitted accounts authorized) events
      → IsBounded L accounts n s
      → fits_u64 (n + length (operators events)) ≡ true
      → IsBounded L accounts
          (n + length (operators events))
          (after_all L authorized (map lazy_call events) s)
  unfolding lazy_call
  events-IsBounded [] n s h bounded f = subst (λ m. IsBounded L accounts m s) (omega arith) bounded
  events-IsBounded (operate a ∷ events) n s h bounded f =
      let f1 = fits_u64-le (n + 1) _ (omega arith) f in
      let e : n + suc (length (operators events)) ≡ n + 1 + length (operators events) =
        omega arith in
      let r =
        returned L authorized (Lazy.operate a) s
          (operate_returns L accounts distinct a h.0.0 bounded authorized h.0.1 f1) in
      subst
        (λ x.
          IsBounded L accounts (n + suc (length (operators events)))
            (after_all L authorized (map lazy_call events) x))
        (sym r.1)
        (rw e (
          events-IsBounded events (n + 1) (operated L a s) h.1
            (operated-IsBounded L accounts distinct a h.0.0 bounded) (rw e at f)))
  events-IsBounded (sweep a ∷ events) n s h bounded f =
      let f0 = fits_u64-le n _ (omega arith) f in
      let r =
        returned L authorized (lazy_call (sweep a)) s
          (run-lazy_sweep L accounts distinct a h.0.0 bounded authorized f0) in
      subst
        (λ x.
          IsBounded L accounts (n + length (operators events))
            (after_all L authorized (map lazy_call events) x))
        (sym r.1)
        (events-IsBounded events n (swept L a s) h.1
          (swept-IsBounded L accounts distinct a h.0.0 bounded) f)

  -- What sweeps leave: all go through, and no fee is lost or owed any more.
  sweeps_lem :
      (who : List Address) (n : ℕ) (s : State)
      → All (λ a. In a accounts) who
      → IsBounded L accounts n s
      → fits_u64 n ≡ true
      → let s' = after_all L authorized (map Lazy.sweep who) s in
        All (λ r. r ≢ none) (replies L authorized (map Lazy.sweep who) s)
        × (collected L accounts s' ≡ collected L accounts s)
        × ((a : Address) → (owed L a s ≡ pos 0) ⊎ In a who → owed L a s' ≡ pos 0)
  sweeps_lem [] n s h bounded f = (tt, refl, λ a. elim [ inl e ↦ e | inr i ↦ absurd i ])
  sweeps_lem (b ∷ who) n s h bounded f =
      let r =
        returned L authorized (Lazy.sweep b) s
          (sweep_returns L accounts distinct b h.0 bounded authorized f) in
      let rest =
        sweeps_lem who n (swept L b s) h.1 (swept-IsBounded L accounts distinct b h.0 bounded) f in
      subst
        (λ x.
          All (λ r. r ≢ none)
            (result L authorized (Lazy.sweep b) s ∷ replies L authorized (map Lazy.sweep who) x)
          × (collected L accounts (after_all L authorized (map Lazy.sweep who) x)
              ≡ collected L accounts s)
          × ((a : Address)
              → (owed L a s ≡ pos 0) ⊎ In a (b ∷ who)
              → owed L a (after_all L authorized (map Lazy.sweep who) x) ≡ pos 0))
        (sym r.1)
        (
          (ne-none _ r.0, rest.0),
          rest.1 ∙ collected-swept L accounts distinct b h.0 s,
          λ a z. rest.2 a (swept-owed a z),
        )
    where
      swept-owed :
          (a : Address)
          → (owed L a s ≡ pos 0) ⊎ In a (b ∷ who)
          → (owed L a (swept L b s) ≡ pos 0) ⊎ In a who
      swept-owed a (inr (inr i)) = inr i
      swept-owed a (inr (inl e)) = inl (rw e (owed-swept L b s))
      swept-owed a (inl z) = elim (same_or_not L accounts a b) [
        | inl e ↦ inl (rw e (owed-swept L b s))
        | inr n ↦ inl (owed-swept_other L b s a n ∙ z)
      ]

  module _ (N : Ledger (Slot (Naive.DataKey Address)) Naive.Value) where
    -- On the lazy ledger no account has more than `n` operations, neither the pool nor a fee owed is
    -- below zero, and pool and fees owed are at most 5 `n`; the naive ledger has the same fees, and
    -- `n` and the operations of a run are fewer than 2^64 together. After any such run of signed
    -- operations and of sweeps, all on listed accounts, sweeps that reach every listed account go
    -- through, and they bring every fee into the pool: `fee_pool` then answers as it does for
    -- the naive contract after the same operations, and `accrued` answers 0 for every listed
    -- account.
    pub sweeps_settle :
        (events : List (Event Address)) (who : List Address) (n : ℕ) (s : State) (t : N.State)
        → All (Admitted accounts authorized) events
        → All (λ a. In a accounts) who
        → All (λ a. In a who) accounts
        → IsBounded L accounts n s
        → SameFees L N authorized accounts s t
        → fits_u64 (n + length (operators events)) ≡ true
        → let s' = after_all L authorized (map lazy_call events) s in
          let s'' = after_all L authorized (map Lazy.sweep who) s' in
          let t' = after_all N authorized (map Naive.operate (operators events)) t in
          All (λ r. r ≢ none) (replies L authorized (map Lazy.sweep who) s')
          × (result L authorized Lazy.fee_pool s'' ≡ result N authorized Naive.fee_pool t')
          × All (λ a. result L authorized (Lazy.accrued a) s'' ≡ some (pos 0)) accounts
    unfolding Lazy.fee_pool Lazy.accrued Naive.fee_pool
    sweeps_settle events who n s t h listed reached bounded same f =
        let s' = after_all L authorized (map lazy_call events) s in
        let s'' = after_all L authorized (map Lazy.sweep who) s' in
        let run =
          lazy-refines-naive L N authorized accounts distinct events n s t h bounded same f in
        let all =
          sweeps_lem who (n + length (operators events)) s' listed
            (events-IsBounded events n s h bounded f) f in
        let nothing : All (λ a. owed L a s'' ≡ pos 0) accounts =
          All-of _ accounts (λ a i. all.2 a (inr (All-in _ accounts reached i))) in
        let paid : pool L s'' ≡ naive_pool N _ = omega (
          int_laws,
          parts_of_eq (sum_of-zero accounts (λ a. owed L a s'') nothing),
          parts_of_eq all.1,
          parts_of_eq run.2.0,
        ) in
        (all.0, ap some paid, All-of _ accounts (λ a i. ap some (All-in _ accounts nothing i)))
