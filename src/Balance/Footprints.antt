-- ===== src/Balance/Footprints.antt =====
-- Which calls of pattern 02 conflict.
use slipstream_contracts.Common.{
  ◌≡◌, refl, ◌≢◌, inl, inr, Bool, true, [], ◌∷◌, unwrap_or, Bool-cases, Disjoint,
}
use slipstream_contracts.Common.Int.{ℤ, pos, ◌+ℤ◌, ◌-ℤ◌, leb_ℤ}
use slipstream_contracts.Host.{Slot, persistent, Ledger}
use slipstream_contracts.Host.Words.{fits_i128}
use slipstream_contracts.Host.Footprint.{Within, Commute, Conflict}
use slipstream_contracts.Host.Footprint.Independence.{Commute-apart}
use slipstream_contracts.Balance.Naive
use slipstream_contracts.Balance.Naive.{BalanceMap}
use slipstream_contracts.Balance.PerUser
use slipstream_contracts.Balance.PerUser.{DataKey, Value, balance_slot}
use slipstream_contracts.Balance.Transfer.{funds, debited, balance_slot-ne}

module _ {Address : Type 0} (authorized : Address → Bool) where
  module _ (L : Ledger (Slot (DataKey Address)) Value) where
    open L use {State}

    pub deposit-Within :
        (to : Address) (amount : ℤ) (s : State)
        → Within L authorized (balance_slot to ∷ []) (PerUser.deposit to amount) s
    unfolding PerUser.deposit
    deposit-Within to amount s = elim (Bool-cases (fits_i128 (funds L authorized to s +ℤ amount))) [
      | inl f ↦ rw f ((inl refl, tt), (inl refl, tt))
      | inr f ↦ rw f ((inl refl, tt), tt)
    ]

    pub transfer-Within :
        (from to : Address) (amount : ℤ) (s : State)
        → Within L authorized
            (balance_slot from ∷ balance_slot to ∷ [])
            (PerUser.transfer from to amount)
            s
    unfolding PerUser.transfer
    transfer-Within from to amount s = elim (Bool-cases (authorized from)) [
      | inr e ↦ rw e (tt, tt)
      | inl e ↦ rw e (elim (Bool-cases (leb_ℤ amount (funds L authorized from s))) [
        | inr c ↦ rw c ((inl refl, tt), tt)
        | inl c ↦ rw c (elim (Bool-cases (fits_i128 (funds L authorized from s -ℤ amount))) [
          | inr f ↦ rw f ((inl refl, tt), tt)
          | inl f ↦
              rw f
                (elim (Bool-cases (
                  fits_i128
                    (funds L authorized to (debited L authorized from amount s) +ℤ amount))) [
                      | inr g ↦ rw g ((inl refl, (inr (inl refl), tt)), (inl refl, tt))
                      | inl g ↦
                          rw g ((inl refl, (inr (inl refl), tt)), (inl refl, (inr (inl refl), tt)))
                    ])
        ])
      ])
    ]

    -- Deposits to two different accounts commute.
    deposit-Commute :
        (a b : Address) (x y : ℤ) (s : State)
        → a ≢ b
        → Commute L authorized (PerUser.deposit a x) (PerUser.deposit b y) s
    deposit-Commute a b x y s h =
        Commute-apart L authorized (PerUser.deposit a x) (PerUser.deposit b y) s
          (balance_slot a ∷ []) (balance_slot b ∷ []) (deposit-Within a x s) (deposit-Within b y s)
          ((balance_slot-ne h, tt), tt)

    -- Transfers that share no account commute.
    transfer-Commute :
        (a b c d : Address) (x y : ℤ) (s : State)
        → Disjoint (a ∷ b ∷ []) (c ∷ d ∷ [])
        → Commute L authorized (PerUser.transfer a b x) (PerUser.transfer c d y) s
    transfer-Commute a b c d x y s h =
        Commute-apart L authorized (PerUser.transfer a b x) (PerUser.transfer c d y) s
          (balance_slot a ∷ balance_slot b ∷ []) (balance_slot c ∷ balance_slot d ∷ [])
          (transfer-Within a b x s) (transfer-Within c d y s)
          (
            (balance_slot-ne h.0.0, (balance_slot-ne h.0.1.0, tt)),
            ((balance_slot-ne h.1.0.0, (balance_slot-ne h.1.0.1.0, tt)), tt),
          )

  module _ (M : BalanceMap Address) (L : Ledger (Slot Naive.DataKey) (Naive.Value M)) where
    open L use {State, read}

    -- Any two deposits into the one map conflict where the first does not overflow, whoever they
    -- are for.
    naive_deposit-Conflict :
        (a b : Address) (x y : ℤ) (s : State)
        → fits_i128 (
            unwrap_or (M.get a (unwrap_or (read (persistent Naive.balances) s) M.new)) (pos 0) +ℤ x)
          ≡ true
        → Conflict L authorized (Naive.deposit M a x) (Naive.deposit M b y) s
    unfolding Naive.deposit
    naive_deposit-Conflict a b x y s f = rw f (inl (persistent Naive.balances, inl refl, inl refl))
