-- ===== src/EventLog/Interleaved.antt =====
-- Appends of pattern 06 that run at the same time, one host access after the other.
use mathlib.Core.WellFounded.{Acc}
use slipstream_contracts.Common.{
  ℕ, ◌+◌, ◌≡◌, ◌≢◌, sym, ◌∙◌, subst, inl, inr, Bool, true, Bool-cases, leb, none, some, ne-none,
  Result, List, [], ◌∷◌, map, length, get_elem?, All, Distinct, flattened, refl,
}
use slipstream_contracts.Host.{Slot, Ledger, Call, done}
use slipstream_contracts.Host.Footprint.Interleave.{Reach, Next}
use slipstream_contracts.Host.Footprint.Interleave.Serial.{Serial, Reach-Ends, results-Through}
use slipstream_contracts.EventLog.Segmented
use slipstream_contracts.Host.Words.{fits_u64}
use slipstream_contracts.Host.Footprint.{result}
use slipstream_contracts.Host.Footprint.Stage.{stage-replies}
use slipstream_contracts.Host.Footprint.Interleave.Stages.{Runs, stages-Serial, Serial-result}
use slipstream_contracts.EventLog.Segmented.{n_segments}
use slipstream_contracts.EventLog.Segments.{Logs, Holds, extended}
use slipstream_contracts.EventLog.Total.{append_event, extended_all, len_sum}
use slipstream_contracts.EventLog.Answers.{accepted, answers, appends-answers}
use slipstream_contracts.EventLog.Stages.{appends-IsStage}

-- No append panics.
answers-some :
    {Message : Type 0} (es : List (ℕ × Message)) (logs : Logs Message)
    → All (λ r. r ≢ none) (answers es logs)
answers-some [] logs = tt
answers-some ((g, msg) ∷ es) logs = elim (Bool-cases (leb n_segments g)) [
  | inl e ↦ rw e (ne-none _ refl, answers-some es logs)
  | inr e ↦ rw e (ne-none _ refl, answers-some es (extended g msg logs))
]

module _ {Message Address : Type 0} (authorized : Address → Bool)
    (L : Ledger (Slot Segmented.DataKey) (Segmented.Value Message)) where
  open L use {State}

  -- What appends of given answers leave, where they leave it as one after the other.
  Serial-facts :
      (es : List (ℕ × Message)) (logs : Logs Message) (s : State)
      (given : List (Result ℕ Segmented.Error)) (u : State)
      → Holds L authorized logs s
      → fits_u64 (len_sum n_segments 0 logs + length (accepted es)) ≡ true
      → Serial L authorized (map (append_event L authorized) es) s given u
      → (map some given ≡ answers es logs)
        × ((g i : ℕ)
            → result L authorized (Segmented.get g i) u
              ≡ some (get_elem? (extended_all (accepted es) logs g) i))
        × (result L authorized Segmented.total_len u
            ≡ some (len_sum n_segments 0 logs + length (accepted es)))
  Serial-facts es logs s given u h f serial =
      let calls = map (append_event L authorized) es in
      let seq = appends-answers L authorized es logs s h f in
      (
        sym serial.0 ∙ seq.0,
        λ g i. Serial-result L authorized (Segmented.get g i) calls s given u serial ∙ seq.1 g i,
        Serial-result L authorized Segmented.total_len calls s given u serial ∙ seq.2,
      )

  -- From a ledger that holds a list for each segment, and while `total_len` is a `u64`, appends, no
  -- two of them to one segment, run at the same time. From whatever point they have reached, the
  -- host accesses that are left come to an end in whatever order, and from that same point there is
  -- an order of them in which every append answers. An append to a segment out of range has then
  -- got the error, and one to a segment in range the length of that segment before; `get` reads
  -- each segment's messages with the new ones, and `total_len` counts each append in range once.
  pub appends-Ends :
      (appends : List (ℕ × Message)) (logs : Logs Message) (s : State)
      (calls : List (Call _ _ Address _)) (t : State)
      → Holds L authorized logs s
      → Distinct (map (λ a. a.0) appends)
      → fits_u64 (len_sum n_segments 0 logs + length (accepted appends)) ≡ true
      → Reach L authorized (map (append_event L authorized) appends) s calls t
      → Acc (Next L authorized) calls
        × ((given : List (Result ℕ Segmented.Error)) × (u : State) × Reach L authorized calls t
              (map done given)
              u
            × (map some given ≡ answers appends logs)
            × ((g i : ℕ)
                → result L authorized (Segmented.get g i) u
                  ≡ some (get_elem? (extended_all (accepted appends) logs g) i))
            × (result L authorized Segmented.total_len u
                ≡ some (len_sum n_segments 0 logs + length (accepted appends))))
  appends-Ends appends logs s calls t h distinct f r =
      let all = map (append_event L authorized) appends in
      let stage = appends-IsStage authorized L appends s distinct in
      let through = results-Through L authorized all s (
        subst (All (λ r. r ≢ none))
          (sym (appends-answers L authorized appends logs s h f).0
            ∙ stage-replies L authorized all s stage)
          (answers-some appends logs)) in
      let (acc, (given, u, r', serial)) = Reach-Ends L authorized all s calls t stage through r in
      let facts = Serial-facts appends logs s given u h f serial in
      (acc, (given, u, r', facts.0, facts.1, facts.2))

  -- Stages of appends run one after the other, no segment twice in a stage, from a ledger that holds
  -- a list for each segment, while `total_len` is a `u64`. The appends of a stage run at the same
  -- time. Whatever the order of the host accesses, once all have answered, an append to a segment
  -- out of range has got the error, and one to a segment in range the length of that segment so
  -- far; `get` reads each segment's messages in the order of the stages, and `total_len` counts
  -- each append in range once.
  pub interleaved-answers :
      (stages : List (List (ℕ × Message))) (logs : Logs Message) (s : State)
      (given : List (List (Result ℕ Segmented.Error))) (u : State)
      → Holds L authorized logs s
      → All (λ es. Distinct (map (λ e. e.0) es)) stages
      → let es = flattened stages in
        fits_u64 (len_sum n_segments 0 logs + length (accepted es)) ≡ true
        → Runs L authorized (map (map (append_event L authorized)) stages) s given u
        → (map some (flattened given) ≡ answers es logs)
          × ((g i : ℕ)
              → result L authorized (Segmented.get g i) u
                ≡ some (get_elem? (extended_all (accepted es) logs g) i))
          × (result L authorized Segmented.total_len u
              ≡ some (len_sum n_segments 0 logs + length (accepted es)))
  interleaved-answers stages logs s given u h distinct f runs =
      let es = flattened stages in
      let seq = appends-answers L authorized es logs s h f in
      let serial =
        stages-Serial L authorized (append_event L authorized) (λ es. Distinct (map (λ e. e.0) es))
          stages s given u (λ es t. appends-IsStage authorized L es t) distinct
          (subst (All (λ r. r ≢ none)) (sym seq.0) (answers-some es logs)) runs in
      Serial-facts es logs s (flattened given) u h f serial
