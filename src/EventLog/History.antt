-- ===== src/EventLog/History.antt =====
-- The history of the naive log, patterns/06-event-log/naive.
use slipstream_contracts.Common.{
  ℕ, zero, suc, ◌+◌, ◌≡◌, refl, sym, ap, subst, ◌∙◌, ◌≢◌, Bool, true, Option, some, List, [], ◌∷◌,
  ◌++◌, map, length, length-append, get_elem?, get_elem?-append_end, append-nil, append_assoc,
  arith, unwrap_or, ℕ_discrete,
}
use slipstream_contracts.Host.{Slot, persistent, Ledger, run}
use slipstream_contracts.Host.Words.{fits_u64, fits_u64-le}
use slipstream_contracts.Host.Footprint.{result, after_all, replies, returned}
use slipstream_contracts.EventLog.Naive.{
  DataKey, Value, tail_key, entry_key, append, entry_count, get,
}

abbrev pub tail_slot : Slot DataKey
tail_slot = persistent tail_key

abbrev pub entry_slot : ℕ → Slot DataKey
entry_slot i = persistent (entry_key i)

pub entry_slot-ne : {i j : ℕ} → i ≢ j → entry_slot i ≢ entry_slot j
entry_slot-ne h e = h (cc)

pub entry-ne-tail : (i : ℕ) → entry_slot i ≢ tail_slot
entry-ne-tail i e = cc

pub tail-ne-entry : (i : ℕ) → tail_slot ≢ entry_slot i
tail-ne-entry i e = cc

-- One more item at the end of a list, seen by index.
pub get_elem?-snoc_ne :
    {A : Type 0} (xs : List A) (x : A) (i : ℕ)
    → i ≢ length xs
    → get_elem? (xs ++ x ∷ []) i ≡ get_elem? xs i
get_elem?-snoc_ne [] x zero h = absurd (h refl)
get_elem?-snoc_ne [] x (suc i) h = refl
get_elem?-snoc_ne (y ∷ xs) x zero h = refl
get_elem?-snoc_ne (y ∷ xs) x (suc i) h = get_elem?-snoc_ne xs x i (λ e. h (ap suc e))

module _ {Message Address : Type 0} (L : Ledger (Slot DataKey) (Value Message))
    (authorized : Address → Bool) where
  open L use {State, read, write, read-write_self, read-write_other}

  abbrev pub tail_of : State → ℕ
  tail_of s = unwrap_or (read tail_slot s) 0

  -- The ledger holds a log: the tail is its length, and each entry is under its index.
  abbrev pub Holds : List Message → State → Type 0
  Holds log s = (tail_of s ≡ length log) × ((i : ℕ) → read (entry_slot i) s ≡ get_elem? log i)

  abbrev appended : Message → State → State
  appended msg s = write tail_slot (tail_of s + 1) (write (entry_slot (tail_of s)) msg s)

  run-append :
      (msg : Message) (s : State)
      → fits_u64 (tail_of s + 1) ≡ true
      → run L authorized (append msg) s ≡ some (tail_of s, appended msg s)
  unfolding append
  run-append msg s f = rw f refl

  appended-Holds :
      (msg : Message) (log : List Message) (s : State)
      → Holds log s
      → Holds (log ++ msg ∷ []) (appended msg s)
  appended-Holds msg log s h =
      let s' = write (entry_slot (tail_of s)) msg s in
      (
        rw (read-write_self tail_slot (tail_of s + 1) s')
            (omega (arith, h.0, length-append log (msg ∷ []))),
        λ i.
            rw (read-write_other (entry_slot i) tail_slot (tail_of s + 1) s' (entry-ne-tail i))
              (elim (ℕ_discrete i (tail_of s)) [
                | yes e ↦
                    rw (e, read-write_self (entry_slot (tail_of s)) msg s, h.0)
                      (sym (get_elem?-append_end log msg))
                | no n ↦
                    rw
                      (read-write_other (entry_slot i) (entry_slot (tail_of s)) msg s
                        (entry_slot-ne n))
                      (h.1 i ∙ sym (get_elem?-snoc_ne log msg i (λ e. n (e ∙ sym h.0))))
              ]),
      )

  -- The indices that the appends of a list of messages return, from `n` on.
  abbrev pub indices : ℕ → List Message → List (Option ℕ)
  indices n [] = []
  indices n (_ ∷ msgs) = some n ∷ indices (suc n) msgs

  appends-Holds :
      (msgs log : List Message) (s : State)
      → Holds log s
      → fits_u64 (length log + length msgs) ≡ true
      → (replies L authorized (map append msgs) s ≡ indices (length log) msgs)
        × Holds (log ++ msgs) (after_all L authorized (map append msgs) s)
  appends-Holds [] log s h f = (refl, rw (append-nil log) h)
  appends-Holds (msg ∷ msgs) log s h f =
      let q =
        returned L authorized (append msg) s
          (run-append msg s (fits_u64-le _ _ (omega (arith, h.0)) f)) in
      let n : length (log ++ msg ∷ []) ≡ suc (length log) =
        omega (arith, length-append log (msg ∷ [])) in
      let g : length (log ++ msg ∷ []) + length msgs ≡ length log + suc (length msgs) =
        omega (arith, n) in
      let rest =
        appends-Holds msgs (log ++ msg ∷ []) (appended msg s) (appended-Holds msg log s h)
          (rw g f) in
      (
        rw (q.0, q.1, h.0) (ap (λ l. some (length log) ∷ l) (rest.0 ∙ ap (λ k. indices k msgs) n)),
        subst (λ t. Holds (log ++ msg ∷ msgs) (after_all L authorized (map append msgs) t))
            (sym q.1)
            (subst (λ l. Holds l (after_all L authorized (map append msgs) (appended msg s)))
              (append_assoc log (msg ∷ []) msgs) rest.1),
      )

  -- On a ledger that holds a log, and while its length is a `u64`, appends return consecutive
  -- indices; afterwards the log is what it was with the messages behind it: every index reads the
  -- item at that place, or nothing past the end, and the count is the length.
  pub appends-get :
      (msgs log : List Message) (s : State)
      → Holds log s
      → fits_u64 (length log + length msgs) ≡ true
      → let t = after_all L authorized (map append msgs) s in
        (replies L authorized (map append msgs) s ≡ indices (length log) msgs)
        × ((i : ℕ) → result L authorized (get i) t ≡ some (get_elem? (log ++ msgs) i))
        × (result L authorized entry_count t ≡ some (length (log ++ msgs)))
  unfolding get entry_count
  appends-get msgs log s h f =
      let r = appends-Holds msgs log s h f in (r.0, λ i. ap some (r.1.1 i), ap some r.1.0)
