-- ===== src/Nonce/Freshness.antt =====
-- The nonces that patterns/04-temporary-nonce/optimized hands out, with and without evictions.
use slipstream_contracts.Common.{
  ℕ, zero, suc, ◌+◌, ◌≤◌, ◌<◌, ◌≡◌, refl, sym, ap, ◌∙◌, ◌≢◌, ◌⊎◌, inl, inr, Bool, true, none, some,
  arith, unwrap_or, Bool-cases,
}
use slipstream_contracts.Host.{Slot, temporary, Ledger, run}
use slipstream_contracts.Host.Words.{fits_u64, fits_u64-le}
use slipstream_contracts.Host.Footprint.{result, after, returned, panicked}
use slipstream_contracts.Nonce.PerUser.{DataKey, Value, nonce, next}

-- The documented behaviour of temporary storage: when its time to live runs out, the host removes
-- an entry for good, and no other.
pub record Evicting {K : Type 0} {V : K → Type 0} (L : Ledger K V) : Type 0 where
  pub evict : K → L.State → L.State
  pub read-evict_self : (k : K) (s : L.State) → L.read k (evict k s) ≡ none
  pub read-evict_other : (j k : K) (s : L.State) → j ≢ k → L.read j (evict k s) ≡ L.read j s

abbrev pub nonce_slot : {Address : Type 0} → Address → Slot (DataKey Address)
nonce_slot a = temporary (nonce a)

pub nonce_slot-ne : {Address : Type 0} {a b : Address} → a ≢ b → nonce_slot a ≢ nonce_slot b
nonce_slot-ne h e = h (cc)

module _ {Address : Type 0} (L : Ledger (Slot (DataKey Address)) Value) (E : Evicting L)
    (authorized : Address → Bool) where
  open L use {State, read, write, key_eq, read-write_self, read-write_other}

  abbrev pub last_nonce : Address → State → ℕ
  last_nonce a s = unwrap_or (read (nonce_slot a) s) 0

  run-next :
      (a : Address) (s : State)
      → authorized a ≡ true
      → fits_u64 (last_nonce a s + 1) ≡ true
      → run L authorized (next a) s
        ≡ some (last_nonce a s + 1, write (nonce_slot a) (last_nonce a s + 1) s)
  unfolding next
  run-next a s signed f = rw signed (rw f refl)

  -- A call of `next` panics, or it was signed and hands out the successor of the last nonce.
  next_cases :
      (a : Address) (s : State)
      → (run L authorized (next a) s ≡ none)
        ⊎ ((authorized a ≡ true)
            × (run L authorized (next a) s
                ≡ some (last_nonce a s + 1, write (nonce_slot a) (last_nonce a s + 1) s)))
  unfolding next
  next_cases a s = elim (Bool-cases (authorized a)) [
    | inr e ↦ inl (rw e refl)
    | inl e ↦ elim (Bool-cases (fits_u64 (last_nonce a s + 1))) [
      | inr f ↦ inl (rw e (rw f refl))
      | inl f ↦ inr (e, rw e (rw f refl))
    ]
  ]

  -- What may happen between two calls of `a`: calls of anybody, signed or not, and the eviction
  -- of the entries of others.
  pub data Step (a : Address) : State → State → Type 0 where
    call : (b : Address) (s : State) → Step a s (after L authorized (next b) s)
    evicted : (b : Address) (s : State) → b ≢ a → Step a s (E.evict (nonce_slot b) s)

  pub data Reach (a : Address) (s : State) : State → Type 0 where
    here : Reach a s s
    then_step : {t u : State} → Reach a s t → Step a t u → Reach a s u

  last_nonce-write_other :
      (a b : Address) (v : ℕ) (s : State)
      → a ≢ b
      → last_nonce a (write (nonce_slot b) v s) ≡ last_nonce a s
  last_nonce-write_other a b v s n =
      rw (read-write_other (nonce_slot a) (nonce_slot b) v s (nonce_slot-ne n)) refl

  last_nonce-write_self :
      (a : Address) (v : ℕ) (s : State) → last_nonce a (write (nonce_slot a) v s) ≡ v
  last_nonce-write_self a v s = rw (read-write_self (nonce_slot a) v s) refl

  same_or_not : (a b : Address) → (a ≡ b) ⊎ (a ≢ b)
  same_or_not a b = elim (key_eq (nonce_slot a) (nonce_slot b)) [
    | yes e ↦ inl (cc)
    | no n ↦ inr (λ e. n (ap nonce_slot e))
  ]

  last_nonce-next :
      (a b : Address) (s : State) → last_nonce a s ≤ last_nonce a (after L authorized (next b) s)
  last_nonce-next a b s = elim (next_cases b s) [
    | inl p ↦ rw ((panicked L authorized (next b) s p).1) (omega arith)
    | inr r ↦ rw ((returned L authorized (next b) s r.1).1) (elim (same_or_not a b) [
      | inl e ↦ rw (e, last_nonce-write_self b (last_nonce b s + 1) s) (omega arith)
      | inr n ↦ rw (last_nonce-write_other a b (last_nonce b s + 1) s n) (omega arith)
    ])
  ]

  last_nonce-Step : {a : Address} {s t : State} → Step a s t → last_nonce a s ≤ last_nonce a t
  last_nonce-Step {a} (call b s) = last_nonce-next a b s
  last_nonce-Step {a} (evicted b s n) =
      rw (E.read-evict_other (nonce_slot a) (nonce_slot b) s (nonce_slot-ne (λ e. n (sym e))))
        (omega arith)

  last_nonce-Reach : {a : Address} {s t : State} → Reach a s t → last_nonce a s ≤ last_nonce a t
  last_nonce-Reach here = omega arith
  last_nonce-Reach (then_step r st) = omega (arith, last_nonce-Reach r, last_nonce-Step st)

  next-value :
      (a : Address) (s : State) {n : ℕ}
      → result L authorized (next a) s ≡ some n
      → (n ≡ last_nonce a s + 1) × (last_nonce a (after L authorized (next a) s) ≡ n)
  next-value a s e = elim (next_cases a s) [
    | inl p ↦ absurd (none_some (sym (panicked L authorized (next a) s p).0 ∙ e))
    | inr r ↦
        let q = returned L authorized (next a) s r.1 in
        let v = some_eq (sym q.0 ∙ e) in
        (sym v, rw (q.1, last_nonce-write_self a (last_nonce a s + 1) s) v)
  ]
    where
      none_some : {m : ℕ} → none ≡ some m → ⊥
      none_some h = cc

      some_eq : {m k : ℕ} → some m ≡ some k → m ≡ k
      some_eq h = cc

  -- Whatever happens between two calls of `next` for an account, by accounts of which one fixed set
  -- signs all its calls, and short of the eviction of the account's own entry, the later call hands
  -- out a larger nonce.
  pub next_increases :
      (a : Address) (s t : State) {n m : ℕ}
      → result L authorized (next a) s ≡ some n
      → Reach a (after L authorized (next a) s) t
      → result L authorized (next a) t ≡ some m
      → n < m
  next_increases a s t e r f =
      omega (arith, (next-value a s e).1, (next-value a t f).0, last_nonce-Reach r)

  -- The ledger after `k` calls of `next` for one account.
  pub after_calls : ℕ → Address → State → State
  after_calls zero a s = s
  after_calls (suc k) a s = after_calls k a (after L authorized (next a) s)

  after_calls-last_nonce :
      (k : ℕ) (a : Address) (s : State)
      → authorized a ≡ true
      → fits_u64 (last_nonce a s + k) ≡ true
      → last_nonce a (after_calls k a s) ≡ last_nonce a s + k
  unfolding after_calls
  after_calls-last_nonce zero a s signed f = omega arith
  after_calls-last_nonce (suc k) a s signed f =
      let s' = after L authorized (next a) s in
      let q =
        returned L authorized (next a) s (run-next a s signed (fits_u64-le _ _ (omega arith) f)) in
      let v : last_nonce a s' ≡ last_nonce a s + 1 =
        rw (q.1, last_nonce-write_self a (last_nonce a s + 1) s) refl in
      let e : last_nonce a s + suc k ≡ last_nonce a s' + k = omega (arith, v) in
      rw e (after_calls-last_nonce k a s' signed (rw e at f))

  -- After the eviction of its entry an account that signs is handed out every nonce again: the call
  -- that follows `k` calls gets `k + 1`, where that is a `u64`, whatever had been handed out
  -- before.
  pub next_after_eviction :
      (a : Address) (s : State) (k : ℕ)
      → authorized a ≡ true
      → fits_u64 (k + 1) ≡ true
      → result L authorized (next a) (after_calls k a (E.evict (nonce_slot a) s)) ≡ some (k + 1)
  next_after_eviction a s k signed f =
      let s' = E.evict (nonce_slot a) s in
      let z : last_nonce a s' ≡ 0 = rw (E.read-evict_self (nonce_slot a) s) refl in
      let e : last_nonce a s' + k ≡ k = omega (arith, z) in
      let v = after_calls-last_nonce k a s' signed (rw e (fits_u64-le k (k + 1) (omega arith) f)) in
      let w : last_nonce a (after_calls k a s') ≡ k = v ∙ e in
      let q =
        (returned L authorized (next a) (after_calls k a s')
          (run-next a (after_calls k a s') signed (rw w f))).0 in
      rw w at q
