-- ===== src/Fee/Interleaved.antt =====
-- Operations and sweeps of pattern 03 that run at the same time, one host access after the other.
use slipstream_contracts.Common.{
  ℕ, ◌+◌, ◌≡◌, ◌≢◌, refl, sym, ◌∙◌, ap, fun_ext, Bool, true, none, some, ne-none, unwrap_or, List,
  map, length, All, All-All, All-map, Distinct, Apart, flattened,
}
use slipstream_contracts.Common.Int.{pos}
use slipstream_contracts.Common.Sums.{sum_of}
use slipstream_contracts.Host.{Slot, Ledger}
use slipstream_contracts.Host.Words.{fits_u64}
use slipstream_contracts.Host.Footprint.{after_all, replies, Agree}
use slipstream_contracts.Host.Footprint.Interleave.Stages.{Runs, stages-Serial}
use slipstream_contracts.Fee.Naive
use slipstream_contracts.Fee.Lazy
use slipstream_contracts.Fee.Accrual.{owed, pool_slot, accrued_slot, ops_slot}
use slipstream_contracts.Fee.Bounds.{collected, IsBounded}
use slipstream_contracts.Fee.Refinement.{
  Event, lazy_call, operators, Admitted, SameFees, lazy-refines-naive,
}
use slipstream_contracts.Fee.Stages.{event_keys, events-IsStage}

module _ {Address : Type 0} (L : Ledger (Slot (Lazy.DataKey Address)) Lazy.Value)
    (N : Ledger (Slot (Naive.DataKey Address)) Naive.Value) (authorized : Address → Bool)
    (accounts : List Address) where
  collected-Agree :
      (s t : L.State) → Agree L authorized s t → collected L accounts s ≡ collected L accounts t
  collected-Agree s t h =
      let same : (a : Address) → owed L a s ≡ owed L a t =
        λ a. ap (λ o. unwrap_or o (pos 0)) (h (accrued_slot a)) in
      rw (h pool_slot, ap (sum_of accounts) (fun_ext same)) refl

  -- On the lazy ledger no account has more than `n` operations, neither the pool nor a fee owed is
  -- below zero, and pool and fees owed are at most 5 `n`; the naive ledger has the same fees. Stages
  -- of signed operations and of sweeps, all of listed accounts, run one after the other on the lazy
  -- ledger, where `n` and the operations are fewer than 2^64 together. No two calls of a stage have
  -- a key in common, and they run at the same time. Whatever the order of the host accesses, once
  -- all have answered, the fees are those of the contract with the one pool after the same
  -- operations one after the other: its pool is the lazy pool and what is still accrued, and the
  -- operation counts agree.
  pub interleaved-SameFees :
      (stages : List (List (Event Address))) (n : ℕ) (s : L.State) (t : N.State)
      (answers : List (List (Unit {0}))) (u : L.State)
      → Distinct accounts
      → All (Apart event_keys) stages
      → All (Admitted accounts authorized) (flattened stages)
      → IsBounded L accounts n s
      → SameFees L N authorized accounts s t
      → fits_u64 (n + length (operators (flattened stages))) ≡ true
      → Runs L authorized (map (map lazy_call) stages) s answers u
      → SameFees L N authorized accounts u
          (after_all N authorized (map Naive.operate (operators (flattened stages))) t)
  interleaved-SameFees stages n s t answers u distinct h listed bounded same fits runs =
      let events = flattened stages in
      let alike =
        lazy-refines-naive L N authorized accounts distinct events n s t listed bounded same fits in
      let through : All (λ r. r ≢ none) (replies L authorized (map lazy_call events) s) =
        rw alike.0
          (All-map (λ o. o ≢ none) (λ _. some tt) events (All-All events (λ _. ne-none _ refl))) in
      let serial =
        stages-Serial L authorized lazy_call (Apart event_keys) stages s answers u
          (λ es t. events-IsStage authorized L es t) h through runs in
      (
        alike.2.0 ∙ sym (collected-Agree u _ serial.1),
        λ a. alike.2.1 a ∙ ap (λ o. unwrap_or o 0) (sym (serial.1 (ops_slot a))),
      )
