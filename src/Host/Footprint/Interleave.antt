-- ===== src/Host/Footprint/Interleave.antt =====
-- Calls that run at the same time on one ledger, one host access of one call after the other.
pub mod Moved
pub mod Kept
pub mod Serial
pub mod Updates
pub mod Stages
use mathlib.Core.WellFounded.{Acc}
use slipstream_contracts.Common.{◌≡◌, refl, subst, Bool, true, Option, List, ◌∷◌, [], map}
use slipstream_contracts.Host.{Call, done, get, set, auth, check, Ledger}

module _ {K : Type 0} {V : K → Type 0} {W : Type 0} (L : Ledger K V) (authorized : W → Bool)
    {A : Type 0} where
  open L use {State, read, write}

  -- The next access of a call: the call that is left, and the ledger after it. A call that would
  -- panic has none, nor has one that is done.
  pub data Access : Call K V W A → State → Call K V W A → State → Type 0 where
    read_key :
        (k : K) (c : Option (V k) → Call K V W A) (s : State) → Access (get k c) s (c (read k s)) s
    write_key :
        (k : K) (v : V k) (m : Call K V W A) (s : State) → Access (set k v m) s m (write k v s)
    signed : (w : W) (m : Call K V W A) (s : State) → authorized w ≡ true → Access (auth w m) s m s
    passed : (b : Bool) (m : Call K V W A) (s : State) → b ≡ true → Access (check b m) s m s

  -- One of the calls makes its next access.
  pub data Step : List (Call K V W A) → State → List (Call K V W A) → State → Type 0 where
    here :
        {p p' : Call K V W A} {ps : List (Call K V W A)} {s t : State}
        → Access p s p' t
        → Step (p ∷ ps) s (p' ∷ ps) t
    there :
        {p : Call K V W A} {ps qs : List (Call K V W A)} {s t : State}
        → Step ps s qs t
        → Step (p ∷ ps) s (p ∷ qs) t

  -- The calls and the ledger after accesses in some order.
  pub data Reach (ps : List (Call K V W A)) (s : State) : List (Call K V W A) → State → Type 0 where
    start : Reach ps s ps s
    later :
        {qs rs : List (Call K V W A)} {t u : State}
        → Reach ps s qs t
        → Step qs t rs u
        → Reach ps s rs u

  -- What one step makes of the calls, on whatever ledger.
  abbrev pub Next : List (Call K V W A) → List (Call K V W A) → Type 0
  Next qs ps = (s : State) × (t : State) × Step ps s qs t

  -- A step of the first call, or of the others.
  acc_split :
      (p : Call K V W A) (ps : List (Call K V W A))
      → ((p' : Call K V W A) (s t : State) → Access p s p' t → Acc Next (p' ∷ ps))
      → ((qs : List (Call K V W A)) → Next qs ps → Acc Next (p ∷ qs))
      → Acc Next (p ∷ ps)
  acc_split p ps first rest = Acc.intro (p ∷ ps) (λ qs (s, t, st). of st)
    where
      of : {qs : List (Call K V W A)} {s t : State} → Step (p ∷ ps) s qs t → Acc Next qs
      of (here {p' = p'} {s = s} {t = t} a) = first p' s t a
      of (there {qs = qs} {s = s} {t = t} st) = rest qs (s, t, st)

  get_next :
      {k : K} {c : Option (V k) → Call K V W A} {s t : State} {q : Call K V W A}
      → Access (get k c) s q t
      → c (read k s) ≡ q
  get_next (read_key k c s) = refl

  set_next : {k : K} {v : V k} {m q : Call K V W A} {s t : State} → Access (set k v m) s q t → m ≡ q
  set_next (write_key k v m s) = refl

  auth_next : {w : W} {m q : Call K V W A} {s t : State} → Access (auth w m) s q t → m ≡ q
  auth_next (signed w m s e) = refl

  check_next : {b : Bool} {m q : Call K V W A} {s t : State} → Access (check b m) s q t → m ≡ q
  check_next (passed b m s e) = refl

  Next-acc_cons : (p : Call K V W A) (ps : List (Call K V W A)) → Acc Next ps → Acc Next (p ∷ ps)
  Next-acc_cons (done x) ps (Acc.intro _ f) =
      acc_split (done x) ps (λ p' s t a. elim a [ ]) (λ qs n. Next-acc_cons (done x) qs (f qs n))
  Next-acc_cons (get k c) ps (Acc.intro _ f) =
      acc_split (get k c) ps
        (λ p' s t a.
          subst (λ q. Acc Next (q ∷ ps)) (get_next a)
            (Next-acc_cons (c (read k s)) ps (Acc.intro ps f)))
        (λ qs n. Next-acc_cons (get k c) qs (f qs n))
  Next-acc_cons (set k v m) ps (Acc.intro _ f) =
      acc_split (set k v m) ps
        (λ p' s t a.
          subst (λ q. Acc Next (q ∷ ps)) (set_next a) (Next-acc_cons m ps (Acc.intro ps f)))
        (λ qs n. Next-acc_cons (set k v m) qs (f qs n))
  Next-acc_cons (auth w m) ps (Acc.intro _ f) =
      acc_split (auth w m) ps
        (λ p' s t a.
          subst (λ q. Acc Next (q ∷ ps)) (auth_next a) (Next-acc_cons m ps (Acc.intro ps f)))
        (λ qs n. Next-acc_cons (auth w m) qs (f qs n))
  Next-acc_cons (check b m) ps (Acc.intro _ f) =
      acc_split (check b m) ps
        (λ p' s t a.
          subst (λ q. Acc Next (q ∷ ps)) (check_next a) (Next-acc_cons m ps (Acc.intro ps f)))
        (λ qs n. Next-acc_cons (check b m) qs (f qs n))

  -- However the accesses are ordered, they come to an end.
  pub Next-acc : (ps : List (Call K V W A)) → Acc Next ps
  Next-acc [] = Acc.intro [] (λ qs (s, t, st). elim st [ ])
  Next-acc (p ∷ ps) = Next-acc_cons p ps (Next-acc ps)
