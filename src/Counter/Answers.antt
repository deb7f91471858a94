-- ===== src/Counter/Answers.antt =====
-- Runs of `increment` of patterns/01-sharded-counter/optimized, with shards in range and out of it.
use mathlib.Core.Path.{ap₂}
use slipstream_contracts.Common.{
  leb→lt, ℕ, suc, ◌+◌, ◌≡◌, refl, sym, ap, subst, ◌∙◌, Bool, true, Option, some, List, [], ◌∷◌, map,
  length, arith, Result, ok, err, leb, ◌==◌, if◌then◌else◌, Bool-cases, inl, inr,
}
use slipstream_contracts.Host.{Slot, Ledger, run}
use slipstream_contracts.Host.Words.{fits_u64, fits_u64-le}
use slipstream_contracts.Host.Footprint.{result, after, after_all, replies, returned}
use slipstream_contracts.Counter.Sharded.{
  n_shards, DataKey, Value, Error, shard_out_of_range, increment, total,
}
use slipstream_contracts.Counter.Sharded.Total.{
  shard_value, count, total_lem, increment-count, shard_value-le-count, shard_value-increment,
  run-increment_out,
}

-- The picks of a shard that there is.
abbrev pub in_range : List ℕ → List ℕ
in_range [] = []
in_range (i ∷ picks) = let rest = in_range picks in if leb n_shards i then rest else i ∷ rest

abbrev pub bumped : ℕ → (ℕ → ℕ) → ℕ → ℕ
bumped i values j = if j == i then values j + 1 else values j

-- What the increments answer, from the values of the shards.
abbrev pub answers : List ℕ → (ℕ → ℕ) → List (Option (Result ℕ Error))
answers [] values = []
answers (i ∷ picks) values =
    let refused = answers picks values in
    let counted = answers picks (bumped i values) in
    if leb n_shards i
    then some (err shard_out_of_range) ∷ refused
    else some (ok (values i + 1)) ∷ counted

module _ {Address : Type 0} (L : Ledger (Slot DataKey) Value) (authorized : Address → Bool) where
  open L use {State}

  -- The answers and the count of a run whose first increment has left the ledger `x`.
  abbrev Answered : ℕ → List ℕ → (ℕ → ℕ) → State → State → Type 0
  Answered i picks values s x =
      (result L authorized (increment i) s ∷ replies L authorized (map increment picks) x
        ≡ answers (i ∷ picks) values)
      × (count L authorized (after_all L authorized (map increment picks) x)
          ≡ count L authorized s + length (in_range (i ∷ picks)))

  answered :
      (picks : List ℕ) (values : ℕ → ℕ) (s : State)
      → ((i : ℕ) → shard_value L authorized i s ≡ values i)
      → fits_u64 (count L authorized s + length (in_range picks)) ≡ true
      → (replies L authorized (map increment picks) s ≡ answers picks values)
        × (count L authorized (after_all L authorized (map increment picks) s)
            ≡ count L authorized s + length (in_range picks))
  answered [] values s h f = (refl, omega arith)
  answered (i ∷ picks) values s h f = elim (Bool-cases (leb n_shards i)) [
    | inl out ↦
        let r = returned L authorized (increment i) s (run-increment_out L authorized i s out) in
        let rest = answered picks values s h (rw out at f) in
        subst (Answered i picks values s) (sym r.1)
          (rw (r.0, out) (ap (λ l. some (err shard_out_of_range) ∷ l) rest.0, rest.1))
    | inr within ↦
        let g : fits_u64 (count L authorized s + suc (length (in_range picks))) ≡ true =
          rw within at f in
        let lt = leb→lt n_shards i within in
        let fits : fits_u64 (shard_value L authorized i s + 1) ≡ true =
          fits_u64-le _ _ (omega (arith, shard_value-le-count L authorized i s lt)) g in
        let r = increment-count L authorized i s lt fits in
        let e : count L authorized s + suc (length (in_range picks))
            ≡ count L authorized (after L authorized (increment i) s) + length (in_range picks) =
          omega (arith, r.1) in
        let rest =
          answered picks (bumped i values) (after L authorized (increment i) s)
            (λ j.
              shard_value-increment L authorized i j s lt fits
              ∙ ap (λ v. if j == i then v + 1 else v) (h j))
            (rw e at g) in
        rw (r.0, within) (ap₂ (λ v l. some (ok (v + 1)) ∷ l) (h i) rest.0, rest.1 ∙ sym e)
  ]

  -- While the total is a `u64`: whatever shards are picked, an increment of a shard out of range
  -- answers with the error, and one in range with the new value of its shard; `total` then counts
  -- each of those in range once.
  pub increments-answers :
      (picks : List ℕ) (s : State)
      → fits_u64 (count L authorized s + length (in_range picks)) ≡ true
      → (replies L authorized (map increment picks) s
          ≡ answers picks (λ i. shard_value L authorized i s))
        × (result L authorized total (after_all L authorized (map increment picks) s)
            ≡ some (count L authorized s + length (in_range picks)))
  increments-answers picks s f =
      let q = answered picks (λ i. shard_value L authorized i s) s (λ i. refl) f in
      let t = after_all L authorized (map increment picks) s in
      let r : run L authorized total t ≡ some (count L authorized s + length (in_range picks), t) =
        rw (total_lem L authorized t, q.1, f) refl in
      (q.0, (returned L authorized total t r).0)
