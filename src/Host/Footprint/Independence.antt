-- ===== src/Host/Footprint/Independence.antt =====
-- Calls that do not conflict: their keys, and what they are after a further call.
use slipstream_contracts.Common.{
  Bool, All-in, All-of, In, NotIn-In, List, [], ◌∷◌, Disjoint, All-append, Disjoint-sym,
  Disjoint-append, Disjoint-append_left, Disjoint-append_right,
}
use slipstream_contracts.Host.{Call, Ledger}
use slipstream_contracts.Host.Footprint.{
  reads, writes, after, Independent, IsStage, Within, Commute,
}
use slipstream_contracts.Host.Footprint.Locality.{locality}
use slipstream_contracts.Host.Footprint.Commute.{commute, q_agrees}

module _ {K : Type 0} {V : K → Type 0} {W : Type 0} (L : Ledger K V) (authorized : W → Bool) where
  open L use {State, read, write, key_eq, read-write_self, read-write_other}

  pub Independent-sym :
      {A : Type 0} (p q : Call K V W A) (s : State)
      → Independent L authorized p q s
      → Independent L authorized q p s
  Independent-sym p q s h =
      let ws =
        Disjoint-append_right (writes L authorized p s) (reads L authorized q s)
          (writes L authorized q s) h.0 in
      (
        Disjoint-append (writes L authorized q s) (reads L authorized p s) (writes L authorized p s)
            h.1 (Disjoint-sym (writes L authorized p s) (writes L authorized q s) ws),
        Disjoint-append_left (writes L authorized p s) (reads L authorized q s)
            (writes L authorized q s) h.0,
      )

  -- Calls that keep to two lists of keys with no key in common do not conflict.
  pub Independent-apart :
      {A B : Type 0} (p : Call K V W A) (q : Call K V W B) (s : State) (ks js : List K)
      → Within L authorized ks p s
      → Within L authorized js q s
      → Disjoint ks js
      → Independent L authorized p q s
  Independent-apart p q s ks js wp wq apart = (
    All-of _ _ (λ k i.
        All-of _ _
          λ j m e. meet k (All-in _ _ wp.1 i) (rw e (All-in _ _ (All-append _ _ _ wq.0 wq.1) m))),
    All-of _ _
        (λ j i. All-of _ _ λ k m e. meet k (All-in _ _ wp.0 m) (rw (← e) (All-in _ _ wq.1 i))),
  )
    where
      meet : (k : K) → In k ks → In k js → ⊥
      meet k i j = NotIn-In js k (All-in _ ks apart i) j

  -- So they commute.
  pub Commute-apart :
      {A B : Type 0} (p : Call K V W A) (q : Call K V W B) (s : State) (ks js : List K)
      → Within L authorized ks p s
      → Within L authorized js q s
      → Disjoint ks js
      → Commute L authorized p q s
  Commute-apart p q s ks js wp wq apart =
      commute L authorized p q s (Independent-apart p q s ks js wp wq apart)

  -- What `p` is independent of stays as independent after it.
  Independent-after :
      {A : Type 0} (p q r : Call K V W A) (s : State)
      → Independent L authorized p q s
      → Independent L authorized p r s
      → Independent L authorized q r s
      → Independent L authorized q r (after L authorized p s)
  Independent-after p q r s pq pr qr =
      let lq =
        locality L authorized q s (after L authorized p s) (q_agrees L authorized p q s pq) in
      let lr =
        locality L authorized r s (after L authorized p s) (q_agrees L authorized p r s pr) in
      rw (lq.1, lq.2, lr.1, lr.2) qr

  pub IsStage-after :
      {A : Type 0} (p : Call K V W A) (ps : List (Call K V W A)) (s : State)
      → IsStage L authorized (p ∷ ps) s
      → IsStage L authorized ps (after L authorized p s)
  IsStage-after p [] s h = tt
  IsStage-after p (q ∷ ps) s h = (
    All-of _ ps λ r m. Independent-after p q r s h.0.0 (All-in _ ps h.0.1 m) (All-in _ ps h.1.0 m),
    IsStage-after p ps s (h.0.1, h.1.1),
  )
