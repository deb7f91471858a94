-- ===== src/EventLog/Total.antt =====
-- Runs of appends to patterns/06-event-log/optimized.
use slipstream_contracts.Common.{
  ℕ, zero, suc, ◌+◌, ◌≤◌, ◌<◌, ◌≡◌, refl, sym, ap, ◌∙◌, Bool, true, some, List, [], ◌∷◌, map,
  length, length-append, get_elem?, All, arith, ℕ_discrete, Result,
}
use slipstream_contracts.Host.{Slot, Call, Ledger, run}
use slipstream_contracts.Host.Words.{fits_u64, fits_u64-le}
use slipstream_contracts.Host.Footprint.{result, after_all, returned}
use slipstream_contracts.EventLog.Segmented.{
  DataKey, Value, Error, n_segments, append, total_len, total_len_loop, get,
}
use slipstream_contracts.EventLog.Segments.{Logs, extended, Holds, append-Holds, ==_self, ==_ne}

-- The length of the lists of `n` segments from segment `g` on.
unfoldable pub len_sum : {Message : Type 0} → ℕ → ℕ → Logs Message → ℕ
len_sum zero g logs = 0
len_sum (suc n) g logs = length (logs g) + len_sum n (suc g) logs

len_sum-extended_before :
    {Message : Type 0} (n k g : ℕ) (msg : Message) (logs : Logs Message)
    → g < k
    → len_sum n k (extended g msg logs) ≡ len_sum n k logs
unfolding len_sum
len_sum-extended_before zero k g msg logs h = refl
len_sum-extended_before (suc n) k g msg logs h =
    rw (==_ne k g (omega arith))
      (ap (λ m. length (logs k) + m) (len_sum-extended_before n (suc k) g msg logs (omega arith)))

pub len_sum-extended :
    {Message : Type 0} (n k g : ℕ) (msg : Message) (logs : Logs Message)
    → k ≤ g
    → g < k + n
    → len_sum n k (extended g msg logs) ≡ len_sum n k logs + 1
unfolding len_sum
len_sum-extended zero k g msg logs p q = absurd (omega arith)
len_sum-extended (suc n) k g msg logs p q = elim (ℕ_discrete k g) [
  | yes e ↦
      rw (e, ==_self g)
        (omega (
          arith,
          length-append (logs g) (msg ∷ []),
          len_sum-extended_before n (suc g) g msg logs (omega arith),
        ))
  | no ne ↦
      rw (==_ne k g ne)
        (omega (arith, len_sum-extended n (suc k) g msg logs (omega arith) (omega arith)))
]

pub le-len_sum :
    {Message : Type 0} (n k g : ℕ) (logs : Logs Message)
    → k ≤ g
    → g < k + n
    → length (logs g) ≤ len_sum n k logs
unfolding len_sum
le-len_sum zero k g logs p q = absurd (omega arith)
le-len_sum (suc n) k g logs p q = elim (ℕ_discrete k g) [
  | yes e ↦ rw e (omega arith)
  | no ne ↦ omega (arith, le-len_sum n (suc k) g logs (omega arith) (omega arith))
]

-- The lists after a run of appends.
abbrev pub extended_all : {Message : Type 0} → List (ℕ × Message) → Logs Message → Logs Message
extended_all [] logs = logs
extended_all ((g, msg) ∷ es) logs = extended_all es (extended g msg logs)

module _ {Message Address : Type 0} (L : Ledger (Slot DataKey) (Value Message))
    (authorized : Address → Bool) where
  open L use {State}

  -- The append of an event, a segment and a message.
  abbrev pub append_event :
      ℕ × Message → Call (Slot DataKey) (Value Message) Address (Result ℕ Error)
  append_event (g, msg) = append g msg

  pub total_len_loop_lem :
      (n g sum : ℕ) (logs : Logs Message) (s : State)
      → Holds L authorized logs s
      → fits_u64 (sum + len_sum n g logs) ≡ true
      → run L authorized (total_len_loop n g sum) s ≡ some (sum + len_sum n g logs, s)
  unfolding total_len_loop len_sum
  total_len_loop_lem zero g sum logs s h f = ap (λ t. some (t, s)) (omega arith)
  total_len_loop_lem (suc n) g sum logs s h f =
      let v = length (logs g) in
      let e : sum + (v + len_sum n (suc g) logs) ≡ sum + v + len_sum n (suc g) logs = omega arith in
      rw (h.0 g) (
        rw (fits_u64-le (sum + v) _ (omega arith) f)
          (rw e (total_len_loop_lem n (suc g) (sum + v) logs s h (rw e at f))))

  appends-Holds :
      (es : List (ℕ × Message)) (logs : Logs Message) (s : State)
      → All (λ e. e.0 < n_segments) es
      → Holds L authorized logs s
      → fits_u64 (len_sum n_segments 0 logs + length es) ≡ true
      → Holds L authorized (extended_all es logs) (after_all L authorized (map append_event es) s)
        × (len_sum n_segments 0 (extended_all es logs) ≡ len_sum n_segments 0 logs + length es)
  appends-Holds [] logs s r h f = (h, omega arith)
  appends-Holds ((g, msg) ∷ es) logs s r h f =
      let q = append-Holds L authorized g msg logs s r.0 h (
        fits_u64-le _ _
          (omega (arith, le-len_sum n_segments 0 g logs (omega arith) (omega (arith, r.0)))) f) in
      let n = len_sum-extended n_segments 0 g msg logs (omega arith) (omega (arith, r.0)) in
      let e : len_sum n_segments 0 logs + suc (length es)
          ≡ len_sum n_segments 0 (extended g msg logs) + length es =
        omega (arith, n) in
      let rest = appends-Holds es (extended g msg logs) _ r.1 q.1 (rw e at f) in
      (rest.0, rest.1 ∙ sym e)

  -- After any run of appends to segments in range, `get` reads each segment's messages in the
  -- order of their appends, and `total_len` counts every append once.
  pub segmented_appends-get :
      (es : List (ℕ × Message)) (logs : Logs Message) (s : State)
      → All (λ e. e.0 < n_segments) es
      → Holds L authorized logs s
      → fits_u64 (len_sum n_segments 0 logs + length es) ≡ true
      → let t = after_all L authorized (map append_event es) s in
        ((g i : ℕ) → result L authorized (get g i) t ≡ some (get_elem? (extended_all es logs g) i))
        × (result L authorized total_len t ≡ some (len_sum n_segments 0 logs + length es))
  unfolding get total_len
  segmented_appends-get es logs s r h f =
      let q = appends-Holds es logs s r h f in
      let t = after_all L authorized (map append_event es) s in
      let z : 0 + len_sum n_segments 0 (extended_all es logs)
          ≡ len_sum n_segments 0 logs + length es =
        omega (arith, q.1) in
      let w = total_len_loop_lem n_segments 0 0 (extended_all es logs) t q.0 (rw z f) in
      (λ g i. ap some (q.0.1 g i), (returned L authorized total_len t (rw z at w)).0)
