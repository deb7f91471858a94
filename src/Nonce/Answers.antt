-- ===== src/Nonce/Answers.antt =====
-- The nonces that patterns/04-temporary-nonce/optimized hands out to many accounts in turn.
use slipstream_contracts.Common.{
  ℕ, ◌+◌, ◌≡◌, refl, sym, ap, subst, Bool, true, false, ◌&&◌, Option, none, some, List, [], ◌∷◌,
  map, if◌then◌else◌, Bool-cases, and_parts, inl, inr, unwrap_or,
}
use slipstream_contracts.Host.{Slot, Ledger, run}
use slipstream_contracts.Host.Words.{fits_u64}
use slipstream_contracts.Host.Footprint.{result, after_all, replies, returned, panicked}
use slipstream_contracts.Nonce.PerUser.{DataKey, Value, next, current}
use slipstream_contracts.Nonce.Freshness.{nonce_slot, nonce_slot-ne}

module _ {Address : Type 0} (eq : Discrete Address) (authorized : Address → Bool) where
  abbrev pub bumped : Address → (Address → ℕ) → Address → ℕ
  bumped a nonces b = elim (eq b a) [ yes _ ↦ nonces b + 1 | no _ ↦ nonces b ]

  -- A call goes through where the account has signed it and has a nonce left.
  abbrev pub admitted : Address → (Address → ℕ) → Bool
  admitted a nonces = authorized a && fits_u64 (nonces a + 1)

  -- What calls of `next` answer, from the nonces that the accounts have got last.
  abbrev pub answers : List Address → (Address → ℕ) → List (Option ℕ)
  answers [] nonces = []
  answers (a ∷ picks) nonces =
      let refused = answers picks nonces in
      let drawn = answers picks (bumped a nonces) in
      if admitted a nonces then some (nonces a + 1) ∷ drawn else none ∷ refused

  -- The nonces that the accounts have got last after the calls.
  abbrev pub last_nonces : List Address → (Address → ℕ) → Address → ℕ
  last_nonces [] nonces = nonces
  last_nonces (a ∷ picks) nonces =
      let refused = last_nonces picks nonces in
      let drawn = last_nonces picks (bumped a nonces) in
      if admitted a nonces then drawn else refused

  module _ (L : Ledger (Slot (DataKey Address)) Value) where
    open L use {State, read, write, read-write_self, read-write_other}

    -- The ledger holds these nonces.
    abbrev pub HoldsNonces : (Address → ℕ) → State → Type 0
    HoldsNonces nonces s = (a : Address) → unwrap_or (read (nonce_slot a) s) 0 ≡ nonces a

    run-next-admitted :
        (a : Address) (nonces : Address → ℕ) (s : State)
        → HoldsNonces nonces s
        → admitted a nonces ≡ true
        → run L authorized (next a) s ≡ some (nonces a + 1, write (nonce_slot a) (nonces a + 1) s)
    unfolding next
    run-next-admitted a nonces s h go =
        let both = and_parts (authorized a) (fits_u64 (nonces a + 1)) go in
        rw (h a) (rw (both.0) (rw (both.1) refl))

    run-next-refused :
        (a : Address) (nonces : Address → ℕ) (s : State)
        → HoldsNonces nonces s
        → admitted a nonces ≡ false
        → run L authorized (next a) s ≡ none
    unfolding next
    run-next-refused a nonces s h stop = elim (Bool-cases (authorized a)) [
      | inl e ↦ rw (h a) (rw e (rw (rw e at stop) refl))
      | inr e ↦ rw e refl
    ]

    HoldsNonces-bumped :
        (a : Address) (nonces : Address → ℕ) (s : State)
        → HoldsNonces nonces s
        → HoldsNonces (bumped a nonces) (write (nonce_slot a) (nonces a + 1) s)
    HoldsNonces-bumped a nonces s h b = of (eq b a)
      where
        of :
            (d : Dec (b ≡ a))
            → unwrap_or (read (nonce_slot b) (write (nonce_slot a) (nonces a + 1) s)) 0
              ≡ elim d [ yes _ ↦ nonces b + 1 | no _ ↦ nonces b ]
        of (yes e) = rw (e, read-write_self (nonce_slot a) (nonces a + 1) s) refl
        of (no n) =
            rw (read-write_other (nonce_slot b) (nonce_slot a) (nonces a + 1) s (nonce_slot-ne n))
              (h b)

    -- The answers and the nonces of a run whose first call has left the ledger `x`.
    abbrev Answered : Address → List Address → (Address → ℕ) → State → State → Type 0
    Answered a picks nonces s x =
        (result L authorized (next a) s ∷ replies L authorized (map next picks) x
          ≡ answers (a ∷ picks) nonces)
        × HoldsNonces (last_nonces (a ∷ picks) nonces) (after_all L authorized (map next picks) x)

    answered :
        (picks : List Address) (nonces : Address → ℕ) (s : State)
        → HoldsNonces nonces s
        → (replies L authorized (map next picks) s ≡ answers picks nonces)
          × HoldsNonces (last_nonces picks nonces) (after_all L authorized (map next picks) s)
    answered [] nonces s h = (refl, h)
    answered (a ∷ picks) nonces s h = elim (Bool-cases (admitted a nonces)) [
      | inl go ↦
          let r = returned L authorized (next a) s (run-next-admitted a nonces s h go) in
          let rest = answered picks (bumped a nonces) _ (HoldsNonces-bumped a nonces s h) in
          subst (Answered a picks nonces s) (sym r.1)
            (rw (r.0, go) (ap (λ l. some (nonces a + 1) ∷ l) rest.0, rest.1))
      | inr stop ↦
          let r = panicked L authorized (next a) s (run-next-refused a nonces s h stop) in
          let rest = answered picks nonces s h in
          subst (Answered a picks nonces s) (sym r.1)
            (rw (r.0, stop) (ap (λ l. none ∷ l) rest.0, rest.1))
    ]

    -- From a ledger that holds a last nonce for each account, calls of `next` in turn, for any
    -- accounts, of which one fixed set signs all its calls: each call that was signed, and whose
    -- account's nonce can still grow, hands out the successor of that account's last nonce, and each
    -- other panics; `current` then tells for every account the last nonce that it was handed out.
    pub nexts-answers :
        (picks : List Address) (nonces : Address → ℕ) (s : State)
        → HoldsNonces nonces s
        → (replies L authorized (map next picks) s ≡ answers picks nonces)
          × ((a : Address)
              → result L authorized (current a) (after_all L authorized (map next picks) s)
                ≡ some (last_nonces picks nonces a))
    unfolding current
    nexts-answers picks nonces s h =
        let q = answered picks nonces s h in (q.0, λ a. ap some (q.1 a))
