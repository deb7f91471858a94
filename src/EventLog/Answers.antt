-- ===== src/EventLog/Answers.antt =====
-- Runs of `append` of patterns/06-event-log/optimized, with segments in range and out of it.
use slipstream_contracts.Common.{
  ℕ, suc, ◌+◌, ◌≡◌, refl, sym, ap, subst, ◌∙◌, Bool, true, Option, some, List, [], ◌∷◌, map, length,
  get_elem?, arith, Result, ok, err, leb, leb→lt, if◌then◌else◌, Bool-cases, inl, inr,
}
use slipstream_contracts.Host.{Slot, Ledger}
use slipstream_contracts.Host.Words.{fits_u64, fits_u64-le}
use slipstream_contracts.Host.Footprint.{result, after_all, replies, returned}
use slipstream_contracts.EventLog.Segmented.{
  n_segments, DataKey, Value, Error, segment_out_of_range, append, get, total_len,
}
use slipstream_contracts.EventLog.Segments.{Logs, extended, Holds, append-Holds, run-append_out}
use slipstream_contracts.EventLog.Total.{
  len_sum, len_sum-extended, le-len_sum, extended_all, append_event, total_len_loop_lem,
}

module _ {Message : Type 0} where
  -- The appends to a segment that there is.
  abbrev pub accepted : List (ℕ × Message) → List (ℕ × Message)
  accepted [] = []
  accepted ((g, msg) ∷ es) =
      let rest = accepted es in if leb n_segments g then rest else (g, msg) ∷ rest

  -- What the appends answer, from the lists of the segments.
  abbrev pub answers : List (ℕ × Message) → Logs Message → List (Option (Result ℕ Error))
  answers [] logs = []
  answers ((g, msg) ∷ es) logs =
      let refused = answers es logs in
      let stored = answers es (extended g msg logs) in
      if leb n_segments g
      then some (err segment_out_of_range) ∷ refused
      else some (ok (length (logs g))) ∷ stored

module _ {Message Address : Type 0} (L : Ledger (Slot DataKey) (Value Message))
    (authorized : Address → Bool) where
  open L use {State}

  -- The answers and the lists of a run whose first append has left the ledger `x`.
  abbrev Answered : ℕ → Message → List (ℕ × Message) → Logs Message → State → State → Type 0
  Answered g msg es logs s x =
      (result L authorized (append g msg) s
          ∷ replies L authorized (map (append_event L authorized) es) x
        ≡ answers ((g, msg) ∷ es) logs)
      × Holds L authorized (extended_all (accepted ((g, msg) ∷ es)) logs)
          (after_all L authorized (map (append_event L authorized) es) x)
      × (len_sum n_segments 0 (extended_all (accepted ((g, msg) ∷ es)) logs)
          ≡ len_sum n_segments 0 logs + length (accepted ((g, msg) ∷ es)))

  answered :
      (es : List (ℕ × Message)) (logs : Logs Message) (s : State)
      → Holds L authorized logs s
      → fits_u64 (len_sum n_segments 0 logs + length (accepted es)) ≡ true
      → (replies L authorized (map (append_event L authorized) es) s ≡ answers es logs)
        × Holds L authorized
            (extended_all (accepted es) logs)
            (after_all L authorized (map (append_event L authorized) es) s)
        × (len_sum n_segments 0 (extended_all (accepted es) logs)
            ≡ len_sum n_segments 0 logs + length (accepted es))
  answered [] logs s h f = (refl, h, omega arith)
  answered ((g, msg) ∷ es) logs s h f = elim (Bool-cases (leb n_segments g)) [
    | inl out ↦
        let r = returned L authorized (append g msg) s (run-append_out L authorized g msg s out) in
        let rest = answered es logs s h (rw out at f) in
        subst (Answered g msg es logs s) (sym r.1)
          (rw (r.0, out) (ap (λ l. some (err segment_out_of_range) ∷ l) rest.0, rest.1, rest.2))
    | inr within ↦
        let e : fits_u64 (len_sum n_segments 0 logs + suc (length (accepted es))) ≡ true =
          rw within at f in
        let lt = leb→lt n_segments g within in
        let fits : fits_u64 (length (logs g) + 1) ≡ true =
          fits_u64-le _ _
            (omega (arith, le-len_sum n_segments 0 g logs (omega arith) (omega (arith, lt)))) e in
        let q = append-Holds L authorized g msg logs s lt h fits in
        let n = len_sum-extended n_segments 0 g msg logs (omega arith) (omega (arith, lt)) in
        let m : len_sum n_segments 0 logs + suc (length (accepted es))
            ≡ len_sum n_segments 0 (extended g msg logs) + length (accepted es) =
          omega (arith, n) in
        let rest = answered es (extended g msg logs) _ q.1 (rw m at e) in
        rw (q.0, within) (ap (λ l. some (ok (length (logs g))) ∷ l) rest.0, rest.1, rest.2 ∙ sym m)
  ]

  -- From a ledger that holds a list for each segment, and while `total_len` is a `u64`: whatever
  -- segments are picked, an append to a segment out of range answers with the error, and one to a
  -- segment in range with the length of that segment so far; `get` then reads each segment's
  -- messages in the order of the appends in range, and `total_len` counts each of those once.
  pub appends-answers :
      (es : List (ℕ × Message)) (logs : Logs Message) (s : State)
      → Holds L authorized logs s
      → fits_u64 (len_sum n_segments 0 logs + length (accepted es)) ≡ true
      → let t = after_all L authorized (map (append_event L authorized) es) s in
        (replies L authorized (map (append_event L authorized) es) s ≡ answers es logs)
        × ((g i : ℕ)
            → result L authorized (get g i) t
              ≡ some (get_elem? (extended_all (accepted es) logs g) i))
        × (result L authorized total_len t
            ≡ some (len_sum n_segments 0 logs + length (accepted es)))
  unfolding get total_len
  appends-answers es logs s h f =
      let q = answered es logs s h f in
      let t = after_all L authorized (map (append_event L authorized) es) s in
      let z : 0 + len_sum n_segments 0 (extended_all (accepted es) logs)
          ≡ len_sum n_segments 0 logs + length (accepted es) =
        omega (arith, q.2) in
      let w =
        total_len_loop_lem L authorized n_segments 0 0 (extended_all (accepted es) logs) t q.1
          (rw z f) in
      (q.0, λ g i. ap some (q.1.1 g i), (returned L authorized total_len t (rw z at w)).0)
