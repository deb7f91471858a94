-- ===== src/Admin/Settings.antt =====
-- What is read after a reconfiguration, and how wide its footprint is.
use slipstream_contracts.Common.{
  ℕ, zero, suc, ◌+◌, ◌≤◌, ◌<◌, ◌%◌, ◌^◌, ◌≡◌, refl, sym, ap, ◌∙◌, ◌≢◌, Bool, some, List, [], ◌∷◌,
  length, get_elem?, unwrap_or, arith, inl, inr, In, subst, ◌↔◌,
}
use slipstream_contracts.Common.Int.{ℤ, pos}
use slipstream_contracts.Host.{Slot, persistent, Ledger, run}
use slipstream_contracts.Host.Footprint.{result, after, reads, writes, returned, Conflict}
use slipstream_contracts.Admin.Naive
use slipstream_contracts.Admin.Naive.{setting}

abbrev pub setting_slot : ℕ → Slot Naive.DataKey
setting_slot i = persistent (setting i)

setting_slot-ne : {i j : ℕ} → i ≢ j → setting_slot i ≢ setting_slot j
setting_slot-ne h e = h (cc)

-- The first `n` setting keys from `i` on.
abbrev pub setting_slots : ℕ → ℕ → List (Slot Naive.DataKey)
setting_slots i zero = []
setting_slots i (suc n) = setting_slot i ∷ setting_slots (suc i) n

In-setting_slots : (n i k : ℕ) → In (setting_slot k) (setting_slots i n) → (i ≤ k) × (k < i + n)
In-setting_slots zero i k m = absurd m
In-setting_slots (suc n) i k (inl e) = let p : k ≡ i = slot_index e in omega arith
  where
    slot_index : setting_slot k ≡ setting_slot i → k ≡ i
    slot_index e = cc
In-setting_slots (suc n) i k (inr m) = let h = In-setting_slots n (suc i) k m in omega arith

setting_slots-In : (n i k : ℕ) → k < n → In (setting_slot (i + k)) (setting_slots i n)
setting_slots-In zero i k h = absurd (omega arith)
setting_slots-In (suc n) i zero h = inl (ap setting_slot (omega arith))
setting_slots-In (suc n) i (suc k) h =
    let e : i + suc k ≡ suc i + k = omega arith in
    inr (
      subst (λ j. In (setting_slot j) (setting_slots (suc i) n)) (sym e)
        (setting_slots-In n (suc i) k (omega arith)))

module _ {Address : Type 0} (authorized : Address → Bool) where
  module _ (L : Ledger (Slot Naive.DataKey) Naive.Value) where
    open L use {State, read, write, read-write_self, read-write_other}

    -- The ledger after the loop.
    configured : ℕ → List ℤ → State → State
    configured i [] s = s
    configured i (v ∷ values) s = configured (suc i) values (write (setting_slot i) v s)

    run-set_config_from :
        (values : List ℤ) (i : ℕ) (s : State)
        → i + length values ≤ 2 ^ 32
        → (run L authorized (Naive.set_config_from i values) s ≡ some (tt, configured i values s))
          × (writes L authorized (Naive.set_config_from i values) s
              ≡ setting_slots i (length values))
          × (reads L authorized (Naive.set_config_from i values) s ≡ [])
    unfolding Naive.set_config_from configured
    run-set_config_from [] i s h = (refl, refl, refl)
    run-set_config_from (v ∷ values) i s h =
        let e : i % 2 ^ 32 ≡ i = omega arith in
        let ih = run-set_config_from values (suc i) (write (setting_slot i) v s) (omega arith) in
        rw e (ih.0, ap (λ l. setting_slot i ∷ l) ih.1, ih.2)

    configured_before :
        (values : List ℤ) (i j : ℕ) (s : State)
        → j < i
        → read (setting_slot j) (configured i values s) ≡ read (setting_slot j) s
    unfolding configured
    configured_before [] i j s h = refl
    configured_before (v ∷ values) i j s h =
        configured_before values (suc i) j (write (setting_slot i) v s) (omega arith)
        ∙ read-write_other (setting_slot j) (setting_slot i) v s (setting_slot-ne (omega arith))

    configured_read :
        (values : List ℤ) (i k : ℕ) (s : State)
        → k < length values
        → read (setting_slot (i + k)) (configured i values s) ≡ get_elem? values k
    unfolding configured
    configured_read [] i k s h = absurd (omega arith)
    configured_read (v ∷ values) i zero s h =
        let e : i + 0 ≡ i = omega arith in
        rw e (
          configured_before values (suc i) i (write (setting_slot i) v s) (omega arith)
          ∙ read-write_self (setting_slot i) v s)
    configured_read (v ∷ values) i (suc k) s h =
        let e : i + suc k ≡ suc i + k = omega arith in
        rw e (configured_read values (suc i) k (write (setting_slot i) v s) (omega arith))

    configured_beyond :
        (values : List ℤ) (i j : ℕ) (s : State)
        → i + length values ≤ j
        → read (setting_slot j) (configured i values s) ≡ read (setting_slot j) s
    unfolding configured
    configured_beyond [] i j s h = refl
    configured_beyond (v ∷ values) i j s h =
        configured_beyond values (suc i) j (write (setting_slot i) v s) (omega arith)
        ∙ read-write_other (setting_slot j) (setting_slot i) v s (setting_slot-ne (omega arith))

    -- `set_config` of a list of at most 2^32 values returns. Afterwards `get_setting` reads the
    -- listed values at their indices, and at every later index what it read before.
    pub set_config-get_setting :
        (values : List ℤ) (s : State)
        → length values ≤ 2 ^ 32
        → let t = after L authorized (Naive.set_config values) s in
          (result L authorized (Naive.set_config values) s ≡ some tt)
          × ((k : ℕ)
              → k < length values
              → result L authorized (Naive.get_setting k) t
                ≡ some (unwrap_or (get_elem? values k) (pos 0)))
          × ((k : ℕ)
              → length values ≤ k
              → result L authorized (Naive.get_setting k) t
                ≡ result L authorized (Naive.get_setting k) s)
    unfolding Naive.set_config Naive.get_setting
    set_config-get_setting values s h =
        let q =
          returned L authorized (Naive.set_config_from 0 values) s
            (run-set_config_from values 0 s (omega arith)).0 in
        (
          q.0,
          λ k r.
              let e : 0 + k ≡ k = omega arith in
              rw (q.1)
                (ap (λ o. some (unwrap_or o (pos 0))) (rw e at (configured_read values 0 k s r))),
          λ k r.
              rw (q.1) (
                ap (λ o. some (unwrap_or o (pos 0)))
                  (configured_beyond values 0 k s (omega arith))),
        )

    -- The write footprint of `set_config` is the keys of the settings listed, one for each.
    pub writes-set_config :
        (values : List ℤ) (s : State)
        → length values ≤ 2 ^ 32
        → writes L authorized (Naive.set_config values) s ≡ setting_slots 0 (length values)
    unfolding Naive.set_config
    writes-set_config values s h = (run-set_config_from values 0 s (omega arith)).1

    -- A reconfiguration of at most 2^32 values conflicts with the readers of exactly the settings
    -- that it lists.
    pub set_config-get_setting-Conflict_iff :
        (values : List ℤ) (k : ℕ) (s : State)
        → length values ≤ 2 ^ 32
        → Conflict L authorized (Naive.set_config values) (Naive.get_setting k) s
          ↔ (k < length values)
    unfolding Naive.get_setting
    set_config-get_setting-Conflict_iff values k s h = rw (writes-set_config values s h) (
      elim [
        | inl (x, m, inl e) ↦ below k (
            In-setting_slots (length values) 0 k
              (subst (λ y. In y (setting_slots 0 (length values))) e m))
        | inl (x, m, inr n) ↦ absurd n
        | inr (x, n, _) ↦ absurd n
      ],
      λ r.
          let e : 0 + k ≡ k = omega arith in
          inl (setting_slot k, rw e at (setting_slots-In (length values) 0 k r), inl refl),
    )
      where
        below : (k : ℕ) → (0 ≤ k) × (k < 0 + length values) → k < length values
        below k r = omega arith
