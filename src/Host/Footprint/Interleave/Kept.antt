-- ===== src/Host/Footprint/Interleave/Kept.antt =====
-- What one access leaves as it was: the answers, the footprints and the final ledger of a stage.
use mathlib.Core.Path.{ap₂}
use slipstream_contracts.Common.{
  ◌≡◌, sym, ap, ◌∙◌, inl, inr, ◌≢◌, Bool, none, List, ◌∷◌, ◌++◌, map, All, All-in, All-of,
  All-append_left, In, In-append_right, NotIn, In-or_not, Disjoint, Disjoint-sym,
  Disjoint-append_left, Disjoint-append_right,
}
use slipstream_contracts.Host.{Call, Ledger}
use slipstream_contracts.Host.Footprint.{reads, writes, result, Independent, IsStage}
use slipstream_contracts.Host.Footprint.Commute.{after-agree, result-agree, frame}
use slipstream_contracts.Host.Footprint.Independence.{Independent-sym}
use slipstream_contracts.Host.Footprint.Together.{
  together, together-written, together-other, Same, writes-Same, together-unwritten, together-Same,
  unwritten, unwritten-Same,
}
use slipstream_contracts.Host.Footprint.Interleave.Moved.{
  SameBut, Moved, Access-Moved, Disjoint-Same, Independent-Same, IsStage-Same, results-Same,
  written-Disjoint, Moved-Same, Moved-Independent, Moved-after, Moved-result,
}
use slipstream_contracts.Host.Footprint.Interleave.{Step, here, there}

module _ {K : Type 0} {V : K → Type 0} {W : Type 0} (L : Ledger K V) (authorized : W → Bool)
    {A : Type 0} where
  open L use {State, read, write, key_eq}

  -- What a step of a stage keeps. `written` are the keys that it has changed.
  pub record Kept (ps : List (Call K V W A)) (s : State) (qs : List (Call K V W A)) (t : State)
      : Type 0 where
    written : List K
    same : SameBut L written s t
    untouched :
        (q : Call K V W A)
        → All (λ p. Independent L authorized q p s) ps
        → Disjoint written (reads L authorized q s ++ writes L authorized q s)
    independent :
        (q : Call K V W A)
        → All (λ p. Independent L authorized q p s) ps
        → All (λ p. Independent L authorized q p t) qs
    pub stage : IsStage L authorized qs t
    pub results : map (λ p. result L authorized p t) qs ≡ map (λ p. result L authorized p s) ps
    pub ends : (k : K) → together L authorized qs t k ≡ together L authorized ps s k

  module _ {p p' : Call K V W A} (ps : List (Call K V W A)) {s t : State}
      (m : Moved L authorized p s p' t) (h : IsStage L authorized (p ∷ ps) s)
      (w : result L authorized p s ≢ none) where
    others-Same : All (Same L authorized s t) ps
    others-Same =
        All-of _ ps λ r i.
          Moved-Same L authorized m r (Independent-sym L authorized p r s (All-in _ ps h.0 i))

    here_ends-other :
        (k : K)
        → NotIn k (writes L authorized p' t)
        → together L authorized ps t k ≡ together L authorized (p ∷ ps) s k
    here_ends-other k n = elim (In-or_not key_eq (writes L authorized p s) k) [
      | inl i ↦
          together-unwritten L authorized ps t k (
            unwritten-Same L authorized s t ps k others-Same
              (unwritten L authorized p s ps k h.0 i))
          ∙ sym (frame L authorized p' t k n)
          ∙ ap (read k) (Moved-after L authorized m w)
          ∙ sym (together-written L authorized p ps s k i)
      | inr n' ↦
          together-Same L authorized ps s t k others-Same (
            m.same k
              (All-append_left _ m.written (writes L authorized p' t) (rw (← m.writes_eq) n')))
          ∙ sym (together-other L authorized p ps s k n')
    ]

    -- Every key still ends up with what the calls leave there at once.
    here_ends : (k : K) → together L authorized (p' ∷ ps) t k ≡ together L authorized (p ∷ ps) s k
    here_ends k = elim (In-or_not key_eq (writes L authorized p' t) k) [
      | inl i ↦
          together-written L authorized p' ps t k i
          ∙ ap (read k) (Moved-after L authorized m w)
          ∙ sym (
              together-written L authorized p ps s k
                (rw m.writes_eq (In-append_right m.written (writes L authorized p' t) k i)))
      | inr n ↦ together-other L authorized p' ps t k n ∙ here_ends-other k n
    ]

    here-Kept : Kept (p ∷ ps) s (p' ∷ ps) t
    here-Kept = record {
      written = m.written;
      same = m.same;
      untouched = λ q free. written-Disjoint L authorized m q free.0;
      independent = λ q free. (
        Moved-Independent L authorized m q free.0,
        All-of _ ps λ r i.
            Independent-Same L authorized s t q r (Moved-Same L authorized m q free.0)
              (All-in _ ps others-Same i) (All-in _ ps free.1 i),
      );
      stage = (
        All-of _ ps (λ r i. Independent-sym L authorized r p' t (
            Moved-Independent L authorized m r
              (Independent-sym L authorized p r s (All-in _ ps h.0 i)))),
        IsStage-Same L authorized s t ps others-Same h.1,
      );
      results =
          ap₂ (λ x l. x ∷ l) (Moved-result L authorized m)
            (results-Same L authorized s t ps others-Same);
      ends = here_ends;
    }

  module _ (q : Call K V W A) {ps qs : List (Call K V W A)} {s t : State} (o : Kept ps s qs t)
      (h : IsStage L authorized (q ∷ ps) s) where
    unmoved :
        (r : Call K V W A) → All (λ p. Independent L authorized r p s) ps → Same L authorized s t r
    unmoved r free = Disjoint-Same L authorized o.written s t r o.same (
        Disjoint-append_left o.written (reads L authorized r s) (writes L authorized r s)
          (o.untouched r free))

    kept : (k : K) → In k (writes L authorized q s) → NotIn k o.written
    kept k i =
        All-in _ _
          (Disjoint-sym o.written (writes L authorized q s) (
            Disjoint-append_right o.written (reads L authorized q s) (writes L authorized q s)
              (o.untouched q h.0)))
          i

    there_ends : (k : K) → together L authorized (q ∷ qs) t k ≡ together L authorized (q ∷ ps) s k
    there_ends k = elim (In-or_not key_eq (writes L authorized q s) k) [
      | inl i ↦
          together-written L authorized q qs t k
            (rw (writes-Same L authorized s t q (unmoved q h.0)) i)
          ∙ sym (after-agree L authorized q s t (unmoved q h.0) k (o.same k (kept k i)))
          ∙ sym (together-written L authorized q ps s k i)
      | inr n ↦
          together-other L authorized q qs t k
            (rw (writes-Same L authorized s t q (unmoved q h.0)) n)
          ∙ o.ends k
          ∙ sym (together-other L authorized q ps s k n)
    ]

    there-Kept : Kept (q ∷ ps) s (q ∷ qs) t
    there-Kept = record {
      written = o.written;
      same = o.same;
      untouched = λ r free. o.untouched r free.1;
      independent = λ r free. (
        Independent-Same L authorized s t r q (unmoved r free.1) (unmoved q h.0) free.0,
        o.independent r free.1,
      );
      stage = (o.independent q h.0, o.stage);
      results = ap₂ (λ x l. x ∷ l) (result-agree L authorized q s t (unmoved q h.0)) o.results;
      ends = there_ends;
    }

  pub Step-Kept :
      {ps : List (Call K V W A)} {s : State} {qs : List (Call K V W A)} {t : State}
      → Step L authorized ps s qs t
      → IsStage L authorized ps s
      → All (λ p. result L authorized p s ≢ none) ps
      → Kept ps s qs t
  Step-Kept (here {ps = ps} a) h w = here-Kept ps (Access-Moved L authorized a) h w.0
  Step-Kept (there {p = p} st) h w = there-Kept p (Step-Kept st h.1 w.1) h
