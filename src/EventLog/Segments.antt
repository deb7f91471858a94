-- ===== src/EventLog/Segments.antt =====
-- The segments of patterns/06-event-log/optimized as lists, and `total_len`.
use slipstream_contracts.Common.{
  ℕ, ◌+◌, ◌<◌, ◌≡◌, refl, sym, ap, subst, ◌∙◌, ◌≢◌, Bool, true, false, some, List, [], ◌∷◌, ◌++◌,
  length, length-append, get_elem?, get_elem?-append_end, arith, unwrap_or, ℕ_discrete, ok, err,
  leb, lt→leb, if◌then◌else◌, ◌==◌,
}
use slipstream_contracts.Host.{Slot, Ledger, run}
use slipstream_contracts.Host.Words.{fits_u64}
use slipstream_contracts.Host.Footprint.{result, after, returned}
use slipstream_contracts.EventLog.Segmented.{
  DataKey, Value, n_segments, tail_slot, entry_slot, segment_out_of_range, append,
}
use slipstream_contracts.EventLog.History.{get_elem?-snoc_ne}

pub tail_slot-ne : {i j : ℕ} → i ≢ j → tail_slot i ≢ tail_slot j
tail_slot-ne h e = h (cc)

pub entry_slot-ne_segment : {g i h j : ℕ} → g ≢ h → entry_slot g i ≢ entry_slot h j
entry_slot-ne_segment n e = n (cc)

entry_slot-ne_index : {g i h j : ℕ} → i ≢ j → entry_slot g i ≢ entry_slot h j
entry_slot-ne_index n e = n (cc)

pub entry-ne-tail : (g i h : ℕ) → entry_slot g i ≢ tail_slot h
entry-ne-tail g i h e = cc

pub tail-ne-entry : (g h i : ℕ) → tail_slot g ≢ entry_slot h i
tail-ne-entry g h i e = cc

pub ==_self : (i : ℕ) → (i == i) ≡ true
==_self i = ground arith

pub ==_ne : (i j : ℕ) → i ≢ j → (i == j) ≡ false
==_ne i j h = ground arith

-- A list for each segment, and one more message on segment `g`.
abbrev pub Logs : Type 0 → Type 0
Logs Message = ℕ → List Message

abbrev pub extended : {Message : Type 0} → ℕ → Message → Logs Message → Logs Message
extended g msg logs i = if i == g then logs i ++ msg ∷ [] else logs i

module _ {Message Address : Type 0} (L : Ledger (Slot DataKey) (Value Message))
    (authorized : Address → Bool) where
  open L use {State, read, write, read-write_self, read-write_other}

  abbrev pub tail_of : ℕ → State → ℕ
  tail_of g s = unwrap_or (read (tail_slot g) s) 0

  -- Each segment's tail is its list's length, and its entries are the list.
  abbrev pub Holds : Logs Message → State → Type 0
  Holds logs s =
      ((g : ℕ) → tail_of g s ≡ length (logs g))
      × ((g i : ℕ) → read (entry_slot g i) s ≡ get_elem? (logs g) i)

  abbrev appended : ℕ → Message → State → State
  appended g msg s =
      write (tail_slot g) (tail_of g s + 1) (write (entry_slot g (tail_of g s)) msg s)

  run-append :
      (g : ℕ) (msg : Message) (s : State)
      → g < n_segments
      → fits_u64 (tail_of g s + 1) ≡ true
      → run L authorized (append g msg) s ≡ some (ok (tail_of g s), appended g msg s)
  unfolding append
  run-append g msg s h f = rw (lt→leb n_segments g h) (rw f refl)

  appended-tail :
      (g : ℕ) (msg : Message) (logs : Logs Message) (s : State)
      → Holds logs s
      → (k : ℕ) → tail_of k (appended g msg s) ≡ length (extended g msg logs k)
  appended-tail g msg logs s h k = elim (ℕ_discrete k g) [
    | yes e ↦
        rw
          (
            e,
            ==_self g,
            read-write_self (tail_slot g) (tail_of g s + 1)
                (write (entry_slot g (tail_of g s)) msg s),
          )
          (omega (arith, h.0 g, length-append (logs g) (msg ∷ [])))
    | no n ↦
        rw
          (
            ==_ne k g n,
            read-write_other (tail_slot k) (tail_slot g) (tail_of g s + 1)
                (write (entry_slot g (tail_of g s)) msg s) (tail_slot-ne n),
            read-write_other (tail_slot k) (entry_slot g (tail_of g s)) msg s (tail-ne-entry k g _),
          )
          (h.0 k)
  ]

  appended-entry :
      (g : ℕ) (msg : Message) (logs : Logs Message) (s : State)
      → Holds logs s
      → (k i : ℕ) → read (entry_slot k i) (appended g msg s) ≡ get_elem? (extended g msg logs k) i
  appended-entry g msg logs s h k i =
      rw
        (read-write_other (entry_slot k i) (tail_slot g) (tail_of g s + 1)
          (write (entry_slot g (tail_of g s)) msg s) (entry-ne-tail k i g))
        (elim (ℕ_discrete k g) [
          | no n ↦
              rw
                (
                  ==_ne k g n,
                  read-write_other (entry_slot k i) (entry_slot g (tail_of g s)) msg s
                      (entry_slot-ne_segment n),
                )
                (h.1 k i)
          | yes e ↦
              rw (e, ==_self g)
                (elim (ℕ_discrete i (tail_of g s)) [
                  | yes e' ↦
                      rw (e', read-write_self (entry_slot g (tail_of g s)) msg s, h.0 g)
                        (sym (get_elem?-append_end (logs g) msg))
                  | no n' ↦
                      rw
                        (read-write_other (entry_slot g i) (entry_slot g (tail_of g s)) msg s
                          (entry_slot-ne_index n'))
                        (h.1 g i
                          ∙ sym (get_elem?-snoc_ne (logs g) msg i (λ e'. n' (e' ∙ sym (h.0 g)))))
                ])
        ])

  -- An append to a segment in range returns the length of that segment's list, which gains the
  -- message at its end; no other segment changes.
  pub append-Holds :
      (g : ℕ) (msg : Message) (logs : Logs Message) (s : State)
      → g < n_segments
      → Holds logs s
      → fits_u64 (length (logs g) + 1) ≡ true
      → (result L authorized (append g msg) s ≡ some (ok (length (logs g))))
        × Holds (extended g msg logs) (after L authorized (append g msg) s)
  append-Holds g msg logs s r h f =
      let q = returned L authorized (append g msg) s (run-append g msg s r (rw (h.0 g) f)) in
      (
        q.0 ∙ ap (λ n. some (ok n)) (h.0 g),
        subst (Holds (extended g msg logs)) (sym q.1)
            (appended-tail g msg logs s h, appended-entry g msg logs s h),
      )

  -- An append to a segment out of range answers with the error and leaves the ledger as it is.
  pub run-append_out :
      (g : ℕ) (msg : Message) (s : State)
      → leb n_segments g ≡ true
      → run L authorized (append g msg) s ≡ some (err segment_out_of_range, s)
  unfolding append
  run-append_out g msg s out = rw out refl
