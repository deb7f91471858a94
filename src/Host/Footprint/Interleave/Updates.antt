-- ===== src/Host/Footprint/Interleave/Updates.antt =====
-- Two calls that each read an entry, compute and write it back, run at the same time.
use slipstream_contracts.Common.{◌≡◌, Bool, true, Option, [], ◌∷◌, map}
use slipstream_contracts.Host.{Call, done, get, set, check, Ledger}
use slipstream_contracts.Host.Footprint.Interleave.{
  Reach, start, later, here, there, read_key, write_key, passed,
}

module _ {K : Type 0} {V : K → Type 0} {W : Type 0} (L : Ledger K V) (authorized : W → Bool)
    {A : Type 0} where
  open L use {State, read, write}

  -- It panics unless what it computes fits.
  abbrev pub update :
      (k : K) → (Option (V k) → Bool) → (Option (V k) → V k) → (Option (V k) → A) → Call K V W A
  update k fits next answer = get k (λ o. check (fits o) (set k (next o) (done (answer o))))

  -- Both read before either writes, so that each works on the entry that it finds at the start.
  pub updates-Reach :
      (k : K) (fits : Option (V k) → Bool) (next : Option (V k) → V k) (answer : Option (V k) → A)
      (k' : K) (fits' : Option (V k') → Bool) (next' : Option (V k') → V k')
      (answer' : Option (V k') → A) (s : State)
      → fits (read k s) ≡ true
      → fits' (read k' s) ≡ true
      → Reach L authorized
          (update k fits next answer ∷ update k' fits' next' answer' ∷ [])
          s
          (map done (answer (read k s) ∷ answer' (read k' s) ∷ []))
          (write k' (next' (read k' s)) (write k (next (read k s)) s))
  updates-Reach k fits next answer k' fits' next' answer' s f f' =
      later
        (later
          (later
            (later (later (later start (here (read_key _ _ s))) (there (here (read_key _ _ s))))
              (here (passed _ _ s f)))
            (here (write_key k _ _ s)))
          (there (here (passed _ _ _ f'))))
        (there (here (write_key k' _ _ _)))
