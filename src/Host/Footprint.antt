-- ===== src/Host/Footprint.antt =====
-- The footprint of a call: the ledger keys that it reads and writes (docs/PLAYBOOK.md, "Background").
pub mod Locality
pub mod Commute
pub mod Independence
pub mod Together
pub mod Stage
pub mod Interleave
pub mod Schedule
use slipstream_contracts.Common.{
  ◌≡◌, ◌≢◌, ap, Bool, Option, none, some, List, [], ◌∷◌, ◌++◌, ◌⊎◌, In, Disjoint, All,
  if◌then◌else◌,
}
use slipstream_contracts.Host.{Call, done, get, set, auth, check, Ledger, run}

module _ {K : Type 0} {V : K → Type 0} {W : Type 0} (L : Ledger K V) (authorized : W → Bool) where
  open L use {State, read, write}

  abbrev pub reads : {A : Type 0} → Call K V W A → State → List K
  reads (done a) s = []
  reads (get k c) s = k ∷ reads (c (read k s)) s
  reads (set k v m) s = reads m (write k v s)
  reads (auth w m) s = let rest = reads m s in if authorized w then rest else []
  reads (check b m) s = let rest = reads m s in if b then rest else []

  abbrev pub writes : {A : Type 0} → Call K V W A → State → List K
  writes (done a) s = []
  writes (get k c) s = writes (c (read k s)) s
  writes (set k v m) s = k ∷ writes m (write k v s)
  writes (auth w m) s = let rest = writes m s in if authorized w then rest else []
  writes (check b m) s = let rest = writes m s in if b then rest else []

  -- What the caller gets; `none` is a panic.
  abbrev pub result : {A : Type 0} → Call K V W A → State → Option A
  result p s = elim (run L authorized p s) [ none ↦ none | some (a, _) ↦ some a ]

  -- The ledger after the call. The host undoes the writes of a call that panics.
  abbrev pub after : {A : Type 0} → Call K V W A → State → State
  after p s = elim (run L authorized p s) [ none ↦ s | some (_, s') ↦ s' ]

  -- The ledger after a sequence of calls.
  abbrev pub after_all : {A : Type 0} → List (Call K V W A) → State → State
  after_all [] s = s
  after_all (p ∷ ps) s = after_all ps (after p s)

  -- What the callers get, in turn.
  abbrev pub replies : {A : Type 0} → List (Call K V W A) → State → List (Option A)
  replies [] s = []
  replies (p ∷ ps) s = result p s ∷ replies ps (after p s)

  -- Two transactions conflict when one writes a key that the other reads or writes.
  abbrev pub Independent : {A B : Type 0} → Call K V W A → Call K V W B → State → Type 0
  Independent p q s =
      Disjoint (writes p s) (reads q s ++ writes q s) × Disjoint (writes q s) (reads p s)

  abbrev pub Conflict : {A B : Type 0} → Call K V W A → Call K V W B → State → Type 0
  Conflict p q s =
      ((k : K) × In k (writes p s) × In k (reads q s ++ writes q s))
      ⊎ ((k : K) × In k (writes q s) × In k (reads p s))

  -- Every access of the call is to one of the listed keys.
  abbrev pub Within : {A : Type 0} → List K → Call K V W A → State → Type 0
  Within ks p s = All (λ k. In k ks) (reads p s) × All (λ k. In k ks) (writes p s)

  -- A stage: no two of its calls conflict.
  abbrev pub IsStage : {A : Type 0} → List (Call K V W A) → State → Type 0
  IsStage [] s = Unit
  IsStage (p ∷ ps) s = All (λ q. Independent p q s) ps × IsStage ps s

  -- A schedule: stages one after the other, in which every call goes through.
  abbrev pub IsSchedule : {A : Type 0} → List (List (Call K V W A)) → State → Type 0
  IsSchedule [] s = Unit
  IsSchedule (ps ∷ stages) s =
      IsStage ps s × All (λ p. result p s ≢ none) ps × IsSchedule stages (after_all ps s)

  -- The ledgers hold the same under every key.
  abbrev pub Agree : State → State → Type 0
  Agree s t = (k : K) → read k s ≡ read k t

  -- The order of two calls does not matter: each returns what it returns alone, and every key
  -- ends up with the same value.
  abbrev pub Commute : {A B : Type 0} → Call K V W A → Call K V W B → State → Type 0
  Commute p q s =
      (result q (after p s) ≡ result q s)
      × (result p (after q s) ≡ result p s)
      × ((k : K) → read k (after q (after p s)) ≡ read k (after p (after q s)))

  -- What a run gives, and what it leaves, read off an equation for it.
  pub returned :
      {A : Type 0} (p : Call K V W A) (s : State) {a : A} {s' : State}
      → run L authorized p s ≡ some (a, s')
      → (result p s ≡ some a) × (after p s ≡ s')
  returned p s e = (
    ap (elim [ none ↦ none | some (a, _) ↦ some a ]) e,
    ap (elim [ none ↦ s | some (_, s') ↦ s' ]) e,
  )

  pub panicked :
      {A : Type 0} (p : Call K V W A) (s : State)
      → run L authorized p s ≡ none
      → (result p s ≡ none) × (after p s ≡ s)
  panicked p s e = (
    ap (elim [ none ↦ none | some (a, _) ↦ some a ]) e,
    ap (elim [ none ↦ s | some (_, s') ↦ s' ]) e,
  )
