-- ===== src/EventLog/Footprints.antt =====
-- Which appends of pattern 06 conflict.
use slipstream_contracts.Common.{
  ℕ, ◌+◌, ◌≡◌, refl, ◌≢◌, inl, inr, Bool, true, [], ◌∷◌, leb, Bool-cases,
}
use slipstream_contracts.Host.{Slot, Ledger}
use slipstream_contracts.Host.Words.{fits_u64}
use slipstream_contracts.Host.Footprint.{Within, Commute, Conflict}
use slipstream_contracts.Host.Footprint.Independence.{Commute-apart}
use slipstream_contracts.EventLog.Naive
use slipstream_contracts.EventLog.Segmented
use slipstream_contracts.EventLog.Segmented.{n_segments, tail_slot, entry_slot}
use slipstream_contracts.EventLog.Segments.{
  tail_of, tail_slot-ne, entry-ne-tail, tail-ne-entry, entry_slot-ne_segment,
}
use slipstream_contracts.EventLog.History

module _ {Message Address : Type 0} (authorized : Address → Bool) where
  module _ (L : Ledger (Slot Segmented.DataKey) (Segmented.Value Message)) where
    open L use {State}

    pub append-Within :
        (g : ℕ) (msg : Message) (s : State)
        → Within L authorized
            (tail_slot g ∷ entry_slot g (tail_of L authorized g s) ∷ [])
            (Segmented.append g msg)
            s
    unfolding Segmented.append
    append-Within g msg s = elim (Bool-cases (leb n_segments g)) [
      | inl e ↦ rw e (tt, tt)
      | inr e ↦ rw e (elim (Bool-cases (fits_u64 (tail_of L authorized g s + 1))) [
        | inr f ↦ rw f ((inl refl, tt), (inr (inl refl), tt))
        | inl f ↦ rw f ((inl refl, tt), (inr (inl refl), (inl refl, tt)))
      ])
    ]

    -- Appends to two different segments commute.
    append-Commute :
        (g h : ℕ) (x y : Message) (s : State)
        → g ≢ h
        → Commute L authorized (Segmented.append g x) (Segmented.append h y) s
    append-Commute g h x y s n =
        let i = tail_of L authorized g s in
        let j = tail_of L authorized h s in
        Commute-apart L authorized (Segmented.append g x) (Segmented.append h y) s
          (tail_slot g ∷ entry_slot g i ∷ []) (tail_slot h ∷ entry_slot h j ∷ [])
          (append-Within g x s) (append-Within h y s)
          (
            (tail_slot-ne n, (tail-ne-entry g h j, tt)),
            ((entry-ne-tail g i h, (entry_slot-ne_segment n, tt)), tt),
          )

  module _ (L : Ledger (Slot Naive.DataKey) (Naive.Value Message)) where
    open L use {State}

    -- Any two appends to the naive log conflict on its tail, as long as the tail does not overflow.
    naive_append-Conflict :
        (x y : Message) (s : State)
        → fits_u64 (History.tail_of L authorized s + 1) ≡ true
        → Conflict L authorized (Naive.append x) (Naive.append y) s
    unfolding Naive.append
    naive_append-Conflict x y s f = rw f (inl (History.tail_slot, inr (inl refl), inl refl))
