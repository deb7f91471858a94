-- ===== src/Nonce/Footprints.antt =====
-- Which calls of pattern 04 conflict.
use slipstream_contracts.Common.{
  ◌+◌, ◌≡◌, refl, ◌≢◌, inl, inr, Bool, true, [], ◌∷◌, unwrap_or, Bool-cases,
}
use slipstream_contracts.Host.{Slot, persistent, Ledger}
use slipstream_contracts.Host.Words.{fits_u64}
use slipstream_contracts.Host.Footprint.{Within, Commute, Conflict}
use slipstream_contracts.Host.Footprint.Independence.{Commute-apart}
use slipstream_contracts.Nonce.Naive
use slipstream_contracts.Nonce.PerUser
use slipstream_contracts.Nonce.Freshness.{nonce_slot, nonce_slot-ne}

module _ {Address : Type 0} (authorized : Address → Bool) where
  module _ (L : Ledger (Slot (PerUser.DataKey Address)) PerUser.Value) where
    open L use {State, read}

    pub next-Within :
        (a : Address) (s : State) → Within L authorized (nonce_slot a ∷ []) (PerUser.next a) s
    unfolding PerUser.next
    next-Within a s = elim (Bool-cases (authorized a)) [
      | inr e ↦ rw e (tt, tt)
      | inl e ↦ rw e (elim (Bool-cases (fits_u64 (unwrap_or (read (nonce_slot a) s) 0 + 1))) [
        | inr f ↦ rw f ((inl refl, tt), tt)
        | inl f ↦ rw f ((inl refl, tt), (inl refl, tt))
      ])
    ]

    -- Calls of `next` for two different accounts commute.
    next-Commute :
        (a b : Address) (s : State)
        → a ≢ b
        → Commute L authorized (PerUser.next a) (PerUser.next b) s
    next-Commute a b s h =
        Commute-apart L authorized (PerUser.next a) (PerUser.next b) s (nonce_slot a ∷ [])
          (nonce_slot b ∷ []) (next-Within a s) (next-Within b s) ((nonce_slot-ne h, tt), tt)

  module _ (L : Ledger (Slot Naive.DataKey) Naive.Value) where
    open L use {State, read}

    -- Any two calls of the naive `next` conflict, as long as the counter does not overflow.
    naive_next-Conflict :
        (s : State)
        → fits_u64 (unwrap_or (read (persistent Naive.nonce) s) 0 + 1) ≡ true
        → Conflict L authorized Naive.next Naive.next s
    unfolding Naive.next
    naive_next-Conflict s f = rw f (inl (persistent Naive.nonce, inl refl, inl refl))
