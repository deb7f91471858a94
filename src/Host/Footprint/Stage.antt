-- ===== src/Host/Footprint/Stage.antt =====
-- The stages of docs/PLAYBOOK.md, "Background": batches of calls of which no two conflict.
use mathlib.Core.List.{Permᴰ}
use mathlib.Core.Path.{ap₂}
use slipstream_contracts.Common.{
  ◌≡◌, refl, sym, ap, ◌∙◌, subst, Bool, List, [], ◌∷◌, map, All, All-in, All-of, if◌then◌else◌,
  Apart, All-map,
}
use slipstream_contracts.Host.{Call, done, get, set, auth, check, ◌>>=◌, Ledger}
use slipstream_contracts.Host.Footprint.{
  reads, writes, result, after, after_all, replies, Independent, IsStage, Agree, Within,
}
use slipstream_contracts.Host.Footprint.Commute.{after-agree, commute}
use slipstream_contracts.Host.Footprint.Independence.{
  Independent-apart, Independent-sym, IsStage-after,
}
use slipstream_contracts.Host.Footprint.Together.{together, after_all-together}

-- A predicate on all items, under an equation of their order.
All-perm : {A : Type 0} (P : A → Type 0) {xs ys : List A} → Permᴰ xs ys → All P xs → All P ys
All-perm P Permᴰ.nil h = tt
All-perm P (Permᴰ.cons e d) h = (subst P e h.0, All-perm P d h.1)
All-perm P (Permᴰ.swap e f) h = (subst P f h.1.0, (subst P e h.0, h.1.1))
All-perm P (Permᴰ.trans d e) h = All-perm P e (All-perm P d h)

map-perm : {A B : Type 0} (f : A → B) {xs ys : List A} → Permᴰ xs ys → Permᴰ (map f xs) (map f ys)
map-perm f Permᴰ.nil = Permᴰ.nil
map-perm f (Permᴰ.cons e d) = Permᴰ.cons (ap f e) (map-perm f d)
map-perm f (Permᴰ.swap e g) = Permᴰ.swap (ap f e) (ap f g)
map-perm f (Permᴰ.trans d e) = Permᴰ.trans (map-perm f d) (map-perm f e)

module _ {K : Type 0} {V : K → Type 0} {W : Type 0} (L : Ledger K V) (authorized : W → Bool) where
  open L use {State, read, write}

  reads->>=done :
      {A B : Type 0} (m : Call K V W A) (f : A → B) (s : State)
      → reads L authorized (m >>= λ a. done (f a)) s ≡ reads L authorized m s
  reads->>=done (done a) f s = refl
  reads->>=done (get k c) f s = ap (λ l. k ∷ l) (reads->>=done (c (read k s)) f s)
  reads->>=done (set k v m) f s = reads->>=done m f (write k v s)
  reads->>=done (auth w m) f s = ap (λ l. if authorized w then l else []) (reads->>=done m f s)
  reads->>=done (check b m) f s = ap (λ l. if b then l else []) (reads->>=done m f s)

  writes->>=done :
      {A B : Type 0} (m : Call K V W A) (f : A → B) (s : State)
      → writes L authorized (m >>= λ a. done (f a)) s ≡ writes L authorized m s
  writes->>=done (done a) f s = refl
  writes->>=done (get k c) f s = writes->>=done (c (read k s)) f s
  writes->>=done (set k v m) f s = ap (λ l. k ∷ l) (writes->>=done m f (write k v s))
  writes->>=done (auth w m) f s = ap (λ l. if authorized w then l else []) (writes->>=done m f s)
  writes->>=done (check b m) f s = ap (λ l. if b then l else []) (writes->>=done m f s)

  -- What is done with the answer of a call leaves its footprint.
  pub Within->>=done :
      {A B : Type 0} (ks : List K) (m : Call K V W A) (f : A → B) (s : State)
      → Within L authorized ks m s
      → Within L authorized ks (m >>= λ a. done (f a)) s
  Within->>=done ks m f s h = (rw (reads->>=done m f s) h.0, rw (writes->>=done m f s) h.1)

  module _ {A : Type 0} where
    pub after_all-Agree :
        (ps : List (Call K V W A)) (s t : State)
        → Agree L authorized s t
        → Agree L authorized (after_all L authorized ps s) (after_all L authorized ps t)
    after_all-Agree [] s t h = h
    after_all-Agree (p ∷ ps) s t h =
        after_all-Agree ps (after L authorized p s) (after L authorized p t)
          (λ k. after-agree L authorized p s t (All-of _ _ (λ j _. h j)) k (h k))

    -- Each call of a stage gets the answer that it gets alone.
    pub stage-replies :
        (ps : List (Call K V W A)) (s : State)
        → IsStage L authorized ps s
        → replies L authorized ps s ≡ map (λ p. result L authorized p s) ps
    stage-replies [] s h = refl
    stage-replies (p ∷ ps) s h =
        ap (λ l. result L authorized p s ∷ l)
          (stage-replies ps (after L authorized p s) (IsStage-after L authorized p ps s h)
            ∙ same ps h.0)
      where
        same :
            (qs : List (Call K V W A))
            → All (λ q. Independent L authorized p q s) qs
            → map (λ q. result L authorized q (after L authorized p s)) qs
              ≡ map (λ q. result L authorized q s) qs
        same [] h = refl
        same (q ∷ qs) h = ap₂ (λ x l. x ∷ l) (commute L authorized p q s h.0).0 (same qs h.1)

    IsStage-perm :
        {ps qs : List (Call K V W A)}
        → Permᴰ ps qs
        → (s : State) → IsStage L authorized ps s
        → IsStage L authorized qs s
          × Agree L authorized (after_all L authorized ps s) (after_all L authorized qs s)
    IsStage-perm Permᴰ.nil s h = (tt, λ k. refl)
    IsStage-perm (Permᴰ.cons {a = a} {b = b} {l₁ = l} {l₂ = m} e d) s h =
        let now = IsStage-perm d s h.1 in
        let later = IsStage-perm d (after L authorized a s) (IsStage-after L authorized a l s h) in
        subst
          (λ c.
            IsStage L authorized (c ∷ m) s
            × Agree L authorized (after_all L authorized (a ∷ l) s)
                (after_all L authorized (c ∷ m) s))
          e ((All-perm (λ q. Independent L authorized a q s) d h.0, now.0), later.1)
    IsStage-perm (Permᴰ.swap {a = a} {b = b} {a' = a'} {b' = b'} {l = l} e f) s h =
        let swapped : IsStage L authorized (b ∷ a ∷ l) s =
          ((Independent-sym L authorized a b s h.0.0, h.1.0), (h.0.1, h.1.1)) in
        subst
          (λ c.
            IsStage L authorized (c ∷ b' ∷ l) s
            × Agree L authorized (after_all L authorized (a ∷ b ∷ l) s)
                (after_all L authorized (c ∷ b' ∷ l) s))
          f
          (subst
            (λ c.
              IsStage L authorized (b ∷ c ∷ l) s
              × Agree L authorized (after_all L authorized (a ∷ b ∷ l) s)
                  (after_all L authorized (b ∷ c ∷ l) s))
            e
            (
              swapped,
              after_all-Agree l (after L authorized b (after L authorized a s))
                  (after L authorized a (after L authorized b s))
                  (commute L authorized a b s h.0.0).2,
            ))
    IsStage-perm (Permᴰ.trans d e) s h =
        let one = IsStage-perm d s h in
        let two = IsStage-perm e s one.0 in (two.0, λ k. one.1 k ∙ two.1 k)

    -- Made in the order `js`, each call gets the answer that it gets alone, and every key ends up
    -- with what the calls `is` leave there at once.
    abbrev pub OrderFree : {I : Type 0} → (I → Call K V W A) → List I → List I → State → Type 0
    OrderFree call is js s =
        (replies L authorized (map call js) s ≡ map (λ i. result L authorized (call i) s) js)
        × ((k : K)
            → read k (after_all L authorized (map call js) s)
              ≡ together L authorized (map call is) s k)

    pub stage-OrderFree :
        {I : Type 0} (call : I → Call K V W A) (is js : List I) (s : State)
        → IsStage L authorized (map call is) s
        → Permᴰ is js
        → OrderFree call is js s
    stage-OrderFree {I = I} call is js s h d =
        let r = IsStage-perm (map-perm call d) s h in
        (
          stage-replies (map call js) s r.0 ∙ alone js,
          λ k. sym (r.1 k) ∙ after_all-together L authorized (map call is) s k h,
        )
      where
        alone :
            (ks : List I)
            → map (λ p. result L authorized p s) (map call ks)
              ≡ map (λ i. result L authorized (call i) s) ks
        alone [] = refl
        alone (k ∷ ks) = ap (λ l. result L authorized (call k) s ∷ l) (alone ks)

    -- Calls that keep to lists of keys, of which no two have a key in common, are a stage.
    pub IsStage-Apart :
        {I : Type 0} (call : I → Call K V W A) (keys : I → List K) (is : List I) (s : State)
        → ((i : I) → Within L authorized (keys i) (call i) s)
        → Apart keys is
        → IsStage L authorized (map call is) s
    IsStage-Apart call keys [] s within h = tt
    IsStage-Apart call keys (i ∷ is) s within h = (
      All-map (λ q. Independent L authorized (call i) q s) call is
          (All-of _ is λ j m.
            Independent-apart L authorized (call i) (call j) s (keys i) (keys j) (within i)
              (within j) (All-in _ is h.0 m)),
      IsStage-Apart call keys is s within h.1,
    )
