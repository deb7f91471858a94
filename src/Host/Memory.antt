-- ===== src/Host/Memory.antt =====
-- A ledger as a function from keys to entries, which shows that the laws of a ledger can hold.
use mathlib.Core.HLevel.{hedberg}
use mathlib.Core.Path.{subst_refl}
use slipstream_contracts.Common.{◌≡◌, refl, sym, ap, subst, ◌∙◌, ◌≢◌, Option, none, some}
use slipstream_contracts.Host.{Ledger}

module _ {K : Type 0} (V : K → Type 0) (eq : Discrete K) where
  abbrev pub Entries : Type 0
  Entries = (k : K) → Option (V k)

  abbrev pub empty : Entries
  empty k = none

  abbrev pub put : (k : K) → V k → Entries → Entries
  put k v s j = elim (eq j k) [ yes e ↦ some (subst V (sym e) v) | no _ ↦ s j ]

  pub put_self : (k : K) (v : V k) (s : Entries) → put k v s k ≡ some v
  put_self k v s = go (eq k k)
    where
      go : (d : Dec (k ≡ k)) → elim d [ yes e ↦ some (subst V (sym e) v) | no _ ↦ s k ] ≡ some v
      go (yes e) = ap some (ap (λ p. subst V p v) (hedberg eq k k (sym e) refl) ∙ subst_refl V v)
      go (no n) = absurd (n refl)

  pub put_other : (j k : K) (v : V k) (s : Entries) → j ≢ k → put k v s j ≡ s j
  put_other j k v s n = go (eq j k)
    where
      go : (d : Dec (j ≡ k)) → elim d [ yes e ↦ some (subst V (sym e) v) | no _ ↦ s j ] ≡ s j
      go (yes e) = absurd (n e)
      go (no _) = refl

  abbrev pub memory : Ledger K V
  memory = record {
    State = Entries;
    read = λ k s. s k;
    write = put;
    key_eq = eq;
    read-write_self = put_self;
    read-write_other = put_other;
  }

  -- The entries without that of one key.
  abbrev pub removed : K → Entries → Entries
  removed k s j = elim (eq j k) [ yes _ ↦ none | no _ ↦ s j ]

  pub removed_self : (k : K) (s : Entries) → removed k s k ≡ none
  removed_self k s = go (eq k k)
    where
      go : (d : Dec (k ≡ k)) → ◌≡◌ {A = Option (V k)} (elim d [ yes _ ↦ none | no _ ↦ s k ]) none
      go (yes _) = refl
      go (no n) = absurd (n refl)

  pub removed_other : (j k : K) (s : Entries) → j ≢ k → removed k s j ≡ s j
  removed_other j k s n = go (eq j k)
    where
      go : (d : Dec (j ≡ k)) → ◌≡◌ {A = Option (V j)} (elim d [ yes _ ↦ none | no _ ↦ s j ]) (s j)
      go (yes e) = absurd (n e)
      go (no _) = refl
