-- ===== src/Fee/Tests.antt =====
-- Runs of pattern 03, with numbers for addresses.
use slipstream_contracts.Common.{arith, ◌==◌}
use slipstream_contracts.Host.{done}
use slipstream_contracts.Host.Footprint.Interleave.{
  Reach, start, later, here, there, read_key, write_key, signed, passed,
}
use slipstream_contracts.Fee.Accrual.{ops_slot, accrued_slot, pool_slot}
use slipstream_contracts.Common.{flattened}
use slipstream_contracts.Host.Footprint.Interleave.Stages.{stage, no_stages}
use slipstream_contracts.Fee.Stages.{sweep-operate-Disjoint}
use slipstream_contracts.Fee.Interleaved.{interleaved-SameFees}
use slipstream_contracts.Common.{
  All, ◌≢◌, none, ne-none, ℕ, ◌≡◌, refl, Bool, true, Option, some, List, [], ◌∷◌, map, arith,
  ℕ_discrete, inl, inr,
}
use slipstream_contracts.Common.Int.{pos, ◌+ℤ◌}
use slipstream_contracts.Host.{Slot, Ledger}
use slipstream_contracts.Host.Words.{fits_u64, fits_i128}
use slipstream_contracts.Host.Memory.{memory, empty}
use slipstream_contracts.Fee.Answers.{Book, event_call, last_book, events-answers}
use slipstream_contracts.Fee.Settlement.{sweeps_settle}
use slipstream_contracts.Host.Footprint.{IsSchedule, result, after_all, replies}
use slipstream_contracts.Fee.Naive
use slipstream_contracts.Fee.Lazy
use slipstream_contracts.Fee.Bounds.{IsBounded}
use slipstream_contracts.Fee.Refinement.{
  Event, operate, sweep, lazy_call, operators, SameFees, lazy-refines-naive,
}

naive_eq : Discrete (Slot (Naive.DataKey ℕ))
naive_eq = hlevel ℕ_discrete

lazy_eq : Discrete (Slot (Lazy.DataKey ℕ))
lazy_eq = hlevel ℕ_discrete

abbrev everybody : ℕ → Bool
everybody _ = true

abbrev naive_ledger : Ledger (Slot (Naive.DataKey ℕ)) Naive.Value
naive_ledger = memory Naive.Value naive_eq

abbrev lazy_ledger : Ledger (Slot (Lazy.DataKey ℕ)) Lazy.Value
lazy_ledger = memory Lazy.Value lazy_eq

abbrev accounts : List ℕ
accounts = 1 ∷ 2 ∷ []

abbrev events : List (Event ℕ)
events = operate 1 ∷ operate 2 ∷ sweep 1 ∷ operate 1 ∷ sweep 2 ∷ []

abbrev lazy_start : (k : Slot (Lazy.DataKey ℕ)) → Option (Lazy.Value k)
lazy_start = empty Lazy.Value lazy_eq

abbrev naive_start : (k : Slot (Naive.DataKey ℕ)) → Option (Naive.Value k)
naive_start = empty Naive.Value naive_eq

start-IsBounded : IsBounded lazy_ledger accounts 0 lazy_start
unfolding ◌+ℤ◌
start-IsBounded = record {
  ops_le = λ a. omega arith;
  owed_nonneg = λ a. omega arith;
  pool_nonneg = omega arith;
  collected_le = omega arith;
}

start-SameFees : SameFees lazy_ledger naive_ledger everybody accounts lazy_start naive_start
unfolding ◌+ℤ◌
start-SameFees = (refl, λ a. refl)

lazy-refines-naive_example :
    (replies lazy_ledger everybody (map lazy_call events) lazy_start ≡ map (λ _. some tt) events)
    × (replies naive_ledger everybody (map Naive.operate (operators events)) naive_start
        ≡ map (λ _. some tt) (operators events))
    × SameFees lazy_ledger naive_ledger everybody accounts
        (after_all lazy_ledger everybody (map lazy_call events) lazy_start)
        (after_all naive_ledger everybody (map Naive.operate (operators events)) naive_start)
unfolding fits_u64
lazy-refines-naive_example =
    lazy-refines-naive lazy_ledger naive_ledger everybody accounts
      ((λ e. absurd (omega arith), tt), (tt, tt)) events 0 lazy_start naive_start
      (
        (inl refl, refl),
        ((inr (inl refl), refl), ((inl refl, tt), ((inl refl, refl), ((inr (inl refl), tt), tt)))),
      )
      start-IsBounded start-SameFees refl

abbrev in_turn : List (List ℕ)
in_turn = (1 ∷ []) ∷ (2 ∷ []) ∷ []

-- Operations of two accounts that pay into the one pool, in two stages.
naive-IsSchedule : IsSchedule naive_ledger everybody (map (map Naive.operate) in_turn) naive_start
unfolding Naive.operate fits_u64 fits_i128 ◌+ℤ◌ naive_eq ℕ_discrete
naive-IsSchedule = ((tt, tt), (ne-none _ refl, tt), ((tt, tt), (ne-none _ refl, tt), tt))

sweeps_settle_example :
    let s' = after_all lazy_ledger everybody (map lazy_call events) lazy_start in
    let s'' = after_all lazy_ledger everybody (map Lazy.sweep (2 ∷ 1 ∷ [])) s' in
    let t' = after_all naive_ledger everybody (map Naive.operate (operators events)) naive_start in
    All (λ r. r ≢ none) (replies lazy_ledger everybody (map Lazy.sweep (2 ∷ 1 ∷ [])) s')
    × (result lazy_ledger everybody Lazy.fee_pool s''
        ≡ result naive_ledger everybody Naive.fee_pool t')
    × All (λ a. result lazy_ledger everybody (Lazy.accrued a) s'' ≡ some (pos 0)) accounts
unfolding fits_u64
sweeps_settle_example =
    sweeps_settle lazy_ledger everybody accounts ((λ e. absurd (omega arith), tt), (tt, tt))
      naive_ledger events (2 ∷ 1 ∷ []) 0 lazy_start naive_start
      (
        (inl refl, refl),
        ((inr (inl refl), refl), ((inl refl, tt), ((inl refl, refl), ((inr (inl refl), tt), tt)))),
      )
      (inr (inl refl), (inl refl, tt)) (inr (inl refl), (inl refl, tt)) start-IsBounded
      start-SameFees refl

-- The sweep of account 2 in the midst of an operation of account 1.
abbrev mixed_end : (k : Slot (Lazy.DataKey ℕ)) → Option (Lazy.Value k)
mixed_end = lazy_ledger.write (accrued_slot 1) (pos 5) (
    lazy_ledger.write pool_slot (pos 0)
      (lazy_ledger.write (accrued_slot 2) (pos 0) (lazy_ledger.write (ops_slot 1) 1 lazy_start)))

mixed_run :
    Reach lazy_ledger everybody
      (map lazy_call (sweep 2 ∷ operate 1 ∷ []))
      lazy_start
      (map done (tt ∷ tt ∷ []))
      mixed_end
unfolding lazy_call Lazy.operate Lazy.sweep fits_u64 fits_i128 ◌+ℤ◌ lazy_eq ℕ_discrete
mixed_run =
    let a = later start (here (read_key _ _ _)) in
    let b = later a (there (here (signed 1 _ _ refl))) in
    let c = later b (there (here (read_key _ _ _))) in
    let d = later c (there (here (passed _ _ _ refl))) in
    let e = later d (there (here (write_key _ _ _ _))) in
    let f = later e (here (write_key _ _ _ _)) in
    let g = later f (here (read_key _ _ _)) in
    let h = later g (there (here (read_key _ _ _))) in
    let i = later h (here (passed _ _ _ refl)) in
    let j = later i (here (write_key _ _ _ _)) in
    let k = later j (there (here (passed _ _ _ refl))) in later k (there (here (write_key _ _ _ _)))

-- Then the sweep of account 1, alone.
abbrev last_end : (k : Slot (Lazy.DataKey ℕ)) → Option (Lazy.Value k)
last_end =
    lazy_ledger.write pool_slot (pos 5) (lazy_ledger.write (accrued_slot 1) (pos 0) mixed_end)

last_run :
    Reach lazy_ledger everybody
      (map lazy_call (sweep 1 ∷ []))
      mixed_end
      (map done (tt ∷ []))
      last_end
unfolding lazy_call Lazy.sweep fits_i128 ◌+ℤ◌ lazy_eq ℕ_discrete
last_run =
    let a = later start (here (read_key _ _ _)) in
    let b = later a (here (write_key _ _ _ _)) in
    let c = later b (here (read_key _ _ _)) in
    let d = later c (here (passed _ _ _ refl)) in later d (here (write_key _ _ _ _))

abbrev in_stages : List (List (Event ℕ))
in_stages = (sweep 2 ∷ operate 1 ∷ []) ∷ (sweep 1 ∷ []) ∷ []

interleaved-SameFees_example : SameFees lazy_ledger naive_ledger everybody accounts last_end (
    after_all naive_ledger everybody
      (map Naive.operate (operators (flattened in_stages)))
      naive_start)
unfolding fits_u64
interleaved-SameFees_example =
    interleaved-SameFees lazy_ledger naive_ledger everybody accounts in_stages 0 lazy_start
      naive_start ((tt ∷ tt ∷ []) ∷ (tt ∷ []) ∷ []) last_end
      ((λ e. absurd (omega arith), tt), (tt, tt))
      (((sweep-operate-Disjoint 2 1 (λ e. absurd (omega arith)), tt), (tt, tt)), ((tt, tt), tt))
      ((inr (inl refl), tt), ((inl refl, refl), ((inl refl, tt), tt))) start-IsBounded
      start-SameFees refl (stage mixed_run (stage last_run no_stages))

-- Account 1 alone has signed.
abbrev first_signed : ℕ → Bool
first_signed a = a == 1

abbrev booked_events : List (Event ℕ)
booked_events = operate 1 ∷ operate 2 ∷ sweep 1 ∷ operate 1 ∷ sweep 2 ∷ []

abbrev empty_book : Book ℕ
empty_book = record { paid = pos 0; due = λ _. pos 0; count = λ _. 0 }

events-answers_example :
    let t = after_all lazy_ledger first_signed (map event_call booked_events) lazy_start in
    (replies lazy_ledger first_signed (map event_call booked_events) lazy_start
      ≡ some none ∷ none ∷ some (some (pos 5)) ∷ some none ∷ some (some (pos 5)) ∷ [])
    × (result lazy_ledger first_signed Lazy.fee_pool t ≡ some (pos 5))
    × ((a : ℕ)
        → result lazy_ledger first_signed (Lazy.accrued a) t
          ≡ some ((last_book ℕ_discrete first_signed booked_events empty_book).due a))
    × ((a : ℕ)
        → result lazy_ledger first_signed (Lazy.op_count a) t
          ≡ some ((last_book ℕ_discrete first_signed booked_events empty_book).count a))
unfolding fits_u64 fits_i128 ◌+ℤ◌ ℕ_discrete
events-answers_example =
    events-answers ℕ_discrete first_signed lazy_ledger booked_events empty_book lazy_start
      (refl, λ a. refl, λ a. refl)
