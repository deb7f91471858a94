-- ===== src/EventLog/Tests.antt =====
-- Runs of pattern 06, with numbers for messages and addresses.
use mathlib.Core.WellFounded.{Acc}
use slipstream_contracts.Common.{err, flattened}
use slipstream_contracts.Host.Footprint.Interleave.{there, write_key, passed}
use slipstream_contracts.Host.Footprint.Interleave.Stages.{stage, no_stages}
use slipstream_contracts.EventLog.Interleaved.{interleaved-answers}
use slipstream_contracts.Common.{Result, ok}
use slipstream_contracts.Host.{Call, done, set, check}
use slipstream_contracts.Host.Footprint.Interleave.{Reach, Next, start, later, here, read_key}
use slipstream_contracts.EventLog.Segmented.{tail_slot, entry_slot}
use slipstream_contracts.EventLog.Interleaved.{appends-Ends}
use slipstream_contracts.EventLog.Answers.{accepted, answers, appends-answers}
use slipstream_contracts.Common.{
  ℕ, ◌≡◌, refl, Bool, true, Option, some, List, [], ◌∷◌, ◌++◌, map, get_elem?, arith, ℕ_discrete,
}
use slipstream_contracts.Host.{Slot, Ledger}
use slipstream_contracts.Host.Words.{fits_u64}
use slipstream_contracts.Host.Memory.{memory, empty}
use slipstream_contracts.Host.Footprint.{result, after_all, replies}
use slipstream_contracts.EventLog.Naive
use slipstream_contracts.EventLog.Segmented
use slipstream_contracts.EventLog.History.{indices, appends-get}
use slipstream_contracts.EventLog.Segments.{Logs}
use slipstream_contracts.EventLog.Total.{append_event, extended_all, len_sum}

naive_eq : Discrete (Slot Naive.DataKey)
naive_eq = hlevel ℕ_discrete

segmented_eq : Discrete (Slot Segmented.DataKey)
segmented_eq = hlevel ℕ_discrete

abbrev everybody : ℕ → Bool
everybody _ = true

abbrev naive_ledger : Ledger (Slot Naive.DataKey) (Naive.Value ℕ)
naive_ledger = memory (Naive.Value ℕ) naive_eq

abbrev ledger : Ledger (Slot Segmented.DataKey) (Segmented.Value ℕ)
ledger = memory (Segmented.Value ℕ) segmented_eq

abbrev naive_start : (k : Slot Naive.DataKey) → Option (Naive.Value ℕ k)
naive_start = empty (Naive.Value ℕ) naive_eq

abbrev start_ledger : (k : Slot Segmented.DataKey) → Option (Segmented.Value ℕ k)
start_ledger = empty (Segmented.Value ℕ) segmented_eq

abbrev no_logs : Logs ℕ
no_logs _ = []

abbrev events : List (ℕ × ℕ)
events = (0, 10) ∷ (0, 11) ∷ (1, 12) ∷ (0, 13) ∷ []

appends-get_example :
    let t = after_all naive_ledger everybody (map Naive.append (7 ∷ 8 ∷ [])) naive_start in
    (replies naive_ledger everybody (map Naive.append (7 ∷ 8 ∷ [])) naive_start
      ≡ indices naive_ledger everybody 0 (7 ∷ 8 ∷ []))
    × ((i : ℕ)
        → result naive_ledger everybody (Naive.get i) t ≡ some (get_elem? ([] ++ 7 ∷ 8 ∷ []) i))
    × (result naive_ledger everybody Naive.entry_count t ≡ some 2)
unfolding fits_u64
appends-get_example =
    appends-get naive_ledger everybody (7 ∷ 8 ∷ []) [] naive_start (refl, λ i. refl) refl

-- The segment 8 is out of range.
abbrev some_events : List (ℕ × ℕ)
some_events = (0, 10) ∷ (8, 11) ∷ (1, 12) ∷ (0, 13) ∷ []

appends-answers_example :
    let t =
      after_all ledger everybody (map (append_event ledger everybody) some_events) start_ledger in
    (replies ledger everybody (map (append_event ledger everybody) some_events) start_ledger
      ≡ answers some_events no_logs)
    × ((g i : ℕ)
        → result ledger everybody (Segmented.get g i) t
          ≡ some (get_elem? (extended_all (accepted some_events) no_logs g) i))
    × (result ledger everybody Segmented.total_len t ≡ some 3)
unfolding fits_u64 len_sum
appends-answers_example =
    appends-answers ledger everybody some_events no_logs start_ledger (λ g. refl, λ g i. refl) refl

-- Two appends, of which the first has read its tail.
abbrev started_calls :
    List (Call (Slot Segmented.DataKey) (Segmented.Value ℕ) ℕ (Result ℕ Segmented.Error))
started_calls =
    set (entry_slot 1 0) 5 (check (fits_u64 1) (set (tail_slot 1) 1 (done (ok 0))))
    ∷ Segmented.append 2 6
    ∷ []

started_run :
    Reach ledger everybody
      (map (append_event ledger everybody) ((1, 5) ∷ (2, 6) ∷ []))
      start_ledger
      started_calls
      start_ledger
unfolding Segmented.append
started_run = later start (here (read_key _ _ _))

appends-Ends_example :
    Acc (Next ledger everybody) started_calls
    × ((given : List (Result ℕ Segmented.Error)) × (u : (k : Slot Segmented.DataKey)
          → Option (Segmented.Value ℕ k))
        × Reach ledger everybody started_calls start_ledger (map done given) u
        × (map some given ≡ answers ((1, 5) ∷ (2, 6) ∷ []) no_logs)
        × ((g i : ℕ)
            → result ledger everybody (Segmented.get g i) u
              ≡ some (get_elem? (extended_all (accepted ((1, 5) ∷ (2, 6) ∷ [])) no_logs g) i))
        × (result ledger everybody Segmented.total_len u ≡ some 2))
unfolding Segmented.append fits_u64 len_sum
appends-Ends_example =
    appends-Ends everybody ledger ((1, 5) ∷ (2, 6) ∷ []) no_logs start_ledger started_calls
      start_ledger (λ g. refl, λ g i. refl) (omega arith) refl started_run

-- Two appends that both read their tail before either writes, and one out of range between them;
-- then a further append to the first segment.
abbrev in_stages : List (List (ℕ × ℕ))
in_stages = ((1, 5) ∷ (8, 11) ∷ (2, 6) ∷ []) ∷ ((1, 7) ∷ []) ∷ []

abbrev mixed_end : (k : Slot Segmented.DataKey) → Option (Segmented.Value ℕ k)
mixed_end = ledger.write (tail_slot 2) 1 (
    ledger.write (tail_slot 1) 1
      (ledger.write (entry_slot 2 0) 6 (ledger.write (entry_slot 1 0) 5 start_ledger)))

mixed_run :
    Reach ledger everybody
      (map (append_event ledger everybody) ((1, 5) ∷ (8, 11) ∷ (2, 6) ∷ []))
      start_ledger
      (map done (ok 0 ∷ err Segmented.segment_out_of_range ∷ ok 0 ∷ []))
      mixed_end
unfolding Segmented.append fits_u64
mixed_run =
    let a = later start (here (read_key _ _ _)) in
    let b = later a (there (there (here (read_key _ _ _)))) in
    let c = later b (here (write_key _ _ _ _)) in
    let d = later c (here (passed _ _ _ refl)) in
    let e = later d (there (there (here (write_key _ _ _ _)))) in
    let f = later e (here (write_key _ _ _ _)) in
    let g = later f (there (there (here (passed _ _ _ refl)))) in
    later g (there (there (here (write_key _ _ _ _))))

abbrev last_end : (k : Slot Segmented.DataKey) → Option (Segmented.Value ℕ k)
last_end = ledger.write (tail_slot 1) 2 (ledger.write (entry_slot 1 1) 7 mixed_end)

last_run :
    Reach ledger everybody
      (map (append_event ledger everybody) ((1, 7) ∷ []))
      mixed_end
      (map done (ok 1 ∷ []))
      last_end
unfolding Segmented.append fits_u64 segmented_eq ℕ_discrete
last_run =
    let a = later start (here (read_key _ _ _)) in
    let b = later a (here (write_key _ _ _ _)) in
    let c = later b (here (passed _ _ _ refl)) in later c (here (write_key _ _ _ _))

interleaved-answers_example :
    (map some (ok 0 ∷ err Segmented.segment_out_of_range ∷ ok 0 ∷ ok 1 ∷ [])
      ≡ answers (flattened in_stages) no_logs)
    × ((g i : ℕ)
        → result ledger everybody (Segmented.get g i) last_end
          ≡ some (get_elem? (extended_all (accepted (flattened in_stages)) no_logs g) i))
    × (result ledger everybody Segmented.total_len last_end ≡ some 3)
unfolding fits_u64 len_sum
interleaved-answers_example =
    interleaved-answers everybody ledger in_stages no_logs start_ledger
      ((ok 0 ∷ err Segmented.segment_out_of_range ∷ ok 0 ∷ []) ∷ (ok 1 ∷ []) ∷ []) last_end
      (λ g. refl, λ g i. refl) (omega arith) refl (stage mixed_run (stage last_run no_stages))
