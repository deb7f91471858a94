-- ===== src/Host/Footprint/Schedule.antt =====
-- The number of stages that a batch of calls takes.
use slipstream_contracts.Common.{
  ◌≤◌, ◌≡◌, ◌≢◌, refl, ◌⊎◌, inl, inr, Bool, true, false, if◌then◌else◌, Option, none, some, List,
  [], ◌∷◌, map, length, length-append, All, All-in, In, flattened, NotIn-In, All-append_right,
  arith,
}
use slipstream_contracts.Host.{Call, done, get, set, auth, check, ◌>>=◌, Ledger, run}
use slipstream_contracts.Host.Footprint.{
  reads, writes, result, after_all, Independent, IsStage, IsSchedule,
}

-- Two calls that write one key conflict.
pub not-Independent :
    {K : Type 0} {V : K → Type 0} {W A : Type 0} (L : Ledger K V) (authorized : W → Bool)
    (p q : Call K V W A) (s : L.State) (k : K)
    → In k (writes L authorized p s)
    → In k (writes L authorized q s)
    → ¬ Independent L authorized p q s
not-Independent L authorized p q s k i j free =
    NotIn-In (writes L authorized q s) k
      (All-append_right _ (reads L authorized q s) (writes L authorized q s)
        (All-in _ (writes L authorized p s) free.0 i))
      j

module _ {K : Type 0} {V : K → Type 0} {W : Type 0} where
  -- Every way to the end of the call sets the key.
  abbrev pub Sets : {A : Type 0} → K → Call K V W A → Type 0
  Sets k (done a) = ⊥
  Sets k (get j c) = (o : Option (V j)) → Sets k (c o)
  Sets k (set j v m) = (k ≡ j) ⊎ Sets k m
  Sets k (auth w m) = Sets k m
  Sets k (check b m) = Sets k m

  Sets->>= :
      {A B : Type 0} (k : K) (m : Call K V W A) (f : A → Call K V W B) → Sets k m → Sets k (m >>= f)
  Sets->>= k (done a) f h = absurd h
  Sets->>= k (get j c) f h = λ o. Sets->>= k (c o) f (h o)
  Sets->>= k (set j v m) f (inl e) = inl e
  Sets->>= k (set j v m) f (inr h) = inr (Sets->>= k m f h)
  Sets->>= k (auth w m) f h = Sets->>= k m f h
  Sets->>= k (check b m) f h = Sets->>= k m f h

  module _ (L : Ledger K V) (authorized : W → Bool) where
    passed :
        {A : Type 0} (b : Bool) (k : K) (m : Call K V W A) (s : L.State)
        → (result L authorized m s ≢ none → In k (writes L authorized m s))
        → ◌≢◌ {A = Option A}
            (elim (if b then run L authorized m s else none) [ none ↦ none | some (a, _) ↦ some a ])
            none
        → In k (if b then writes L authorized m s else [])
    passed true k m s h n = h n
    passed false k m s h n = absurd (n refl)

    -- A call that goes through has written such a key.
    Sets-writes :
        {A : Type 0} (k : K) (m : Call K V W A) (s : L.State)
        → Sets k m
        → result L authorized m s ≢ none
        → In k (writes L authorized m s)
    Sets-writes k (done a) s h n = absurd h
    Sets-writes k (get j c) s h n = Sets-writes k (c (L.read j s)) s (h _) n
    Sets-writes k (set j v m) s (inl e) n = inl e
    Sets-writes k (set j v m) s (inr h) n = inr (Sets-writes k m (L.write j v s) h n)
    Sets-writes k (auth w m) s h n = passed (authorized w) k m s (Sets-writes k m s h) n
    Sets-writes k (check b m) s h n = passed b k m s (Sets-writes k m s h) n

module _ {K : Type 0} {V : K → Type 0} {W A I : Type 0} (L : Ledger K V) (authorized : W → Bool)
    (call : I → Call K V W A) where
  open L use {State}

  module _ (k : K) (hot : (i : I) → Sets k (call i)) where
    stage_le :
        (is : List I) (s : State)
        → IsStage L authorized (map call is) s
        → All (λ p. result L authorized p s ≢ none) (map call is)
        → length is ≤ 1
    stage_le [] s h w = omega arith
    stage_le (i ∷ []) s h w = omega arith
    stage_le (i ∷ j ∷ is) s h w = absurd (
        not-Independent L authorized (call i) (call j) s k
          (Sets-writes L authorized k (call i) s (hot i) w.0)
          (Sets-writes L authorized k (call j) s (hot j) w.1.0) h.0.0)

    -- Calls that all write one key take a stage each.
    pub length-flattened_le :
        (stages : List (List I)) (s : State)
        → IsSchedule L authorized (map (map call) stages) s
        → length (flattened stages) ≤ length stages
    length-flattened_le [] s h = omega arith
    length-flattened_le (is ∷ stages) s h = omega (
      arith,
      length-append is (flattened stages),
      stage_le is s h.0 h.1,
      length-flattened_le stages (after_all L authorized (map call is) s) h.2,
    )
