-- ===== src/Host.antt =====
-- The interface of the Soroban host that the contracts of patterns/ run on: what a contract
-- function may ask of the host, and a ledger that answers it.
pub mod Footprint
pub mod Words
pub mod Memory
use slipstream_contracts.Common.{
  ◌∙◌, ◌≡◌, refl, ◌≢◌, inl, inr, Bool, Bool-cases, Option, none, some, unwrap_or, if◌then◌else◌,
}

-- A ledger key of a contract: its `DataKey` in one of the storage classes that the code uses,
-- `env.storage().persistent()` and `env.storage().temporary()`.
pub data Slot (K : Type 0) : Type 0 where
  persistent : K → Slot K
  temporary : K → Slot K

abbrev pub data_key : {K : Type 0} → Slot K → K
data_key (persistent k) = k
data_key (temporary k) = k

-- A contract function as the host calls that it makes. `K` are the ledger keys, `V k` the type of
-- the value that the contract keeps under `k`, and `W` the addresses. `trap` is a panic: the
-- build profile has `overflow-checks = true` and `panic = "abort"`.
pub data Call (K : Type 0) (V : K → Type 0) (W : Type 0) (A : Type 0) : Type 0 where
  done : A → Call K V W A
  get : (k : K) → (Option (V k) → Call K V W A) → Call K V W A
  set : (k : K) → V k → Call K V W A → Call K V W A
  auth : W → Call K V W A → Call K V W A
  check : Bool → Call K V W A → Call K V W A

module _ {K : Type 0} {V : K → Type 0} {W : Type 0} where
  infixl 5 ◌>>=◌ ◌>>◌
  abbrev pub ◌>>=◌ : {A B : Type 0} → Call K V W A → (A → Call K V W B) → Call K V W B
  done a >>= f = f a
  get k c >>= f = get k (λ o. c o >>= f)
  set k v m >>= f = set k v (m >>= f)
  auth w m >>= f = auth w (m >>= f)
  check b m >>= f = check b (m >>= f)

  abbrev pub ◌>>◌ : {B : Type 0} → Call K V W (Unit {0}) → Call K V W B → Call K V W B
  m >> n = m >>= λ _. n

  -- `env.storage().….get(&k)`
  abbrev pub storage_get : (k : K) → Call K V W (Option (V k))
  storage_get k = get k (λ o. done o)

  -- `env.storage().….get(&k).unwrap_or(d)`
  abbrev pub storage_get_or : (k : K) → V k → Call K V W (V k)
  storage_get_or k d = get k (λ o. done (unwrap_or o d))

  -- `env.storage().….set(&k, &v)`
  abbrev pub storage_set : (k : K) → V k → Call K V W (Unit {0})
  storage_set k v = set k v (done tt)

  -- `who.require_auth()`, which panics unless the address has authorised the call
  abbrev pub require_auth : W → Call K V W (Unit {0})
  require_auth w = auth w (done tt)

  -- `assert!(b, …)`
  abbrev pub assert : Bool → Call K V W (Unit {0})
  assert b = check b (done tt)

-- The documented behaviour of contract storage: a key holds what was last written under it, and
-- a write leaves the other keys alone. Keys are told apart by their encoding.
pub record Ledger (K : Type 0) (V : K → Type 0) : Type 1 where
  pub State : Type 0
  pub read : (k : K) → State → Option (V k)
  pub write : (k : K) → V k → State → State
  pub key_eq : Discrete K
  pub read-write_self : (k : K) (v : V k) (s : State) → read k (write k v s) ≡ some v
  pub read-write_other : (j k : K) (v : V k) (s : State) → j ≢ k → read j (write k v s) ≡ read j s

-- A run against a ledger, where `authorized` says which addresses have signed the call. `none`
-- is a panic, after which the host keeps the ledger as it was.
module _ {K : Type 0} {V : K → Type 0} {W : Type 0} (L : Ledger K V) (authorized : W → Bool) where
  open L use {State, read, write}

  abbrev pub run : {A : Type 0} → Call K V W A → State → Option (A × State)
  run (done a) s = some (a, s)
  run (get k c) s = run (c (read k s)) s
  run (set k v m) s = run m (write k v s)
  run (auth w m) s = let rest = run m s in if authorized w then rest else none
  run (check b m) s = let rest = run m s in if b then rest else none

  -- A sequence of two calls runs the second where the first has left the ledger.
  pub run->>= :
      {A B : Type 0} (m : Call K V W A) (f : A → Call K V W B) (s : State)
      → run (m >>= f) s ≡ elim (run m s) [ none ↦ none | some (a, s') ↦ run (f a) s' ]
  run->>= (done a) f s = refl
  run->>= (get k c) f s = run->>= (c (read k s)) f s
  run->>= (set k v m) f s = run->>= m f (write k v s)
  run->>= (auth w m) f s = elim (Bool-cases (authorized w)) [
    | inl e ↦ rw e (run->>= m f s)
    | inr e ↦ rw e refl
  ]
  run->>= (check b m) f s = elim (Bool-cases b) [ inl e ↦ rw e (run->>= m f s) | inr e ↦ rw e refl ]

  -- A call whose answer is passed on as another.
  pub run-answer :
      {A B : Type 0} (m : Call K V W A) (f : A → B) (s : State) {a : A} {t : State}
      → run m s ≡ some (a, t)
      → run (m >>= λ v. done (f v)) s ≡ some (f a, t)
  run-answer m f s e = run->>= m (λ v. done (f v)) s ∙ rw e refl

  pub run-answer_panic :
      {A B : Type 0} (m : Call K V W A) (f : A → B) (s : State)
      → run m s ≡ none
      → run (m >>= λ v. done (f v)) s ≡ none
  run-answer_panic m f s e = run->>= m (λ v. done (f v)) s ∙ rw e refl
