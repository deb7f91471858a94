-- ===== src/Fee/Answers.antt =====
-- What patterns/03-lazy-fee-accrual/optimized answers in runs of any calls, panics included.
use slipstream_contracts.Common.{
  ℕ, ◌+◌, ◌≡◌, refl, sym, ap, ◌∙◌, subst, Bool, ◌&&◌, Option, none, some, List, [], ◌∷◌, map, if_of,
  if◌then◌else◌, Bool-cases, inl, inr,
}
use slipstream_contracts.Common.Int.{ℤ, pos, ◌+ℤ◌}
use slipstream_contracts.Host.{Slot, Call, done, ◌>>=◌, Ledger, run, run-answer, run-answer_panic}
use slipstream_contracts.Host.Words.{fits_u64, fits_i128}
use slipstream_contracts.Host.Footprint.{result, after, after_all, replies, returned, panicked}
use slipstream_contracts.Fee.Lazy
use slipstream_contracts.Fee.Lazy.{DataKey, Value, fee_per_op}
use slipstream_contracts.Fee.Accrual.{
  accrued_slot, ops_slot, pool_slot, accrued-ne-ops, pool-ne-accrued, pool, owed, ops, operated,
  swept, pool-operated, owed-operated, owed-operated_other, ops-operated, ops-operated_other,
  pool-swept, owed-swept, owed-swept_other, ops-swept,
}
use slipstream_contracts.Fee.Refinement.{Event, operate, sweep}

-- The fees and the counts of all accounts, apart from any ledger.
pub record Book (Address : Type 0) : Type 0 where
  pub paid : ℤ
  pub due : Address → ℤ
  pub count : Address → ℕ

-- The calls with what they answer: an operation nothing, a sweep the new pool.
unfoldable pub event_call :
    {Address : Type 0} → Event Address → Call (Slot (DataKey Address)) Value Address (Option ℤ)
event_call (operate a) = Lazy.operate a >>= λ _. done none
event_call (sweep a) = Lazy.sweep a >>= λ v. done (some v)

module _ {Address : Type 0} (eq : Discrete Address) (authorized : Address → Bool) where
  abbrev pub after_operate : Address → Book Address → Book Address
  after_operate a book = record {
    paid = book.paid;
    due = λ b. elim (eq b a) [ yes _ ↦ book.due b +ℤ pos 5 | no _ ↦ book.due b ];
    count = λ b. elim (eq b a) [ yes _ ↦ book.count b + 1 | no _ ↦ book.count b ];
  }

  abbrev pub after_sweep : Address → Book Address → Book Address
  after_sweep a book = record {
    paid = book.paid +ℤ book.due a;
    due = λ b. elim (eq b a) [ yes _ ↦ pos 0 | no _ ↦ book.due b ];
    count = book.count;
  }

  -- An operation needs the signature, and a count and a fee that do not overflow; a sweep needs a
  -- pool that does not overflow.
  abbrev pub booked : Event Address → Book Address → Option (Option ℤ × Book Address)
  booked (operate a) book =
      if authorized a && (fits_u64 (book.count a + 1) && fits_i128 (book.due a +ℤ pos 5))
      then some (none, after_operate a book)
      else none
  booked (sweep a) book =
      if fits_i128 (book.paid +ℤ book.due a)
      then some (some (book.paid +ℤ book.due a), after_sweep a book)
      else none

  -- The answer to a call and the answers after it, and the book that a call leaves.
  abbrev pub told :
      Option (Option ℤ × Book Address)
      → (Book Address → List (Option (Option ℤ)))
      → Book Address
      → List (Option (Option ℤ))
  told none rest book = none ∷ rest book
  told (some (v, book')) rest book = some v ∷ rest book'

  abbrev pub kept : Option (Option ℤ × Book Address) → Book Address → Book Address
  kept none book = book
  kept (some (_, book')) book = book'

  abbrev pub answers : List (Event Address) → Book Address → List (Option (Option ℤ))
  answers [] book = []
  answers (e ∷ events) book = told (booked e book) (answers events) book

  abbrev pub last_book : List (Event Address) → Book Address → Book Address
  last_book [] book = book
  last_book (e ∷ events) book = last_book events (kept (booked e book) book)

  module _ (L : Ledger (Slot (DataKey Address)) Value) where
    open L use {State, read-write_other}

    -- The ledger holds the book.
    abbrev pub HoldsBook : Book Address → State → Type 0
    HoldsBook book s =
        (pool L s ≡ book.paid)
        × ((a : Address) → owed L a s ≡ book.due a)
        × ((a : Address) → ops L a s ≡ book.count a)

    run-operate_all :
        (a : Address) (s : State)
        → run L authorized (Lazy.operate a) s ≡ (
            if authorized a && (fits_u64 (ops L a s + 1) && fits_i128 (owed L a s +ℤ pos 5))
            then some (tt, operated L a s)
            else none)
    unfolding Lazy.operate
    run-operate_all a s = elim (Bool-cases (authorized a)) [
      | inr e ↦ rw e refl
      | inl e ↦ elim (Bool-cases (fits_u64 (ops L a s + 1))) [
        | inr f ↦ rw e (rw f refl)
        | inl f ↦ rw e (
            rw f (
              rw
                (read-write_other (accrued_slot a) (ops_slot a) (ops L a s + 1) s
                  (accrued-ne-ops a a))
                refl))
      ]
    ]

    run-sweep_all :
        (a : Address) (s : State)
        → run L authorized (Lazy.sweep a) s ≡ (
            if fits_i128 (pool L s +ℤ owed L a s)
            then some (pool L s +ℤ owed L a s, swept L a s)
            else none)
    unfolding Lazy.sweep
    run-sweep_all a s =
        rw (read-write_other pool_slot (accrued_slot a) (pos 0) s (pool-ne-accrued a)) refl

    HoldsBook-operated :
        (a : Address) (book : Book Address) (s : State)
        → HoldsBook book s
        → HoldsBook (after_operate a book) (operated L a s)
    HoldsBook-operated a book s h =
        (pool-operated L a s ∙ h.0, λ b. due_of b (eq b a), λ b. count_of b (eq b a))
      where
        due_of :
            (b : Address) (d : Dec (b ≡ a))
            → owed L b (operated L a s) ≡ elim d [ yes _ ↦ book.due b +ℤ pos 5 | no _ ↦ book.due b ]
        due_of b (yes e) = rw (e, owed-operated L a s) (ap (λ x. x +ℤ pos 5) (h.1 a))
        due_of b (no n) = owed-operated_other L a s b n ∙ h.1 b

        count_of :
            (b : Address) (d : Dec (b ≡ a))
            → ops L b (operated L a s) ≡ elim d [ yes _ ↦ book.count b + 1 | no _ ↦ book.count b ]
        count_of b (yes e) = rw (e, ops-operated L a s) (ap (λ x. x + 1) (h.2 a))
        count_of b (no n) = ops-operated_other L a s b n ∙ h.2 b

    HoldsBook-swept :
        (a : Address) (book : Book Address) (s : State)
        → HoldsBook book s
        → HoldsBook (after_sweep a book) (swept L a s)
    HoldsBook-swept a book s h = (
      pool-swept L a s ∙ ap (λ x. x +ℤ owed L a s) h.0 ∙ ap (λ x. book.paid +ℤ x) (h.1 a),
      λ b. due_of b (eq b a),
      λ b. ops-swept L a s b ∙ h.2 b,
    )
      where
        due_of :
            (b : Address) (d : Dec (b ≡ a))
            → owed L b (swept L a s) ≡ elim d [ yes _ ↦ pos 0 | no _ ↦ book.due b ]
        due_of b (yes e) = rw (e, owed-swept L a s) refl
        due_of b (no n) = owed-swept_other L a s b n ∙ h.1 b

    -- A call does on the ledger what the book says.
    abbrev Follows : Option (Option ℤ × Book Address) → Event Address → State → Type 0
    Follows none e s = run L authorized (event_call e) s ≡ none
    Follows (some (v, book)) e s =
        (t : State) × (run L authorized (event_call e) s ≡ some (v, t)) × HoldsBook book t

    booked-Follows :
        (e : Event Address) (book : Book Address) (s : State)
        → HoldsBook book s
        → Follows (booked e book) e s
    unfolding event_call
    booked-Follows (operate a) book s h =
        if_of (λ o. Follows o (operate a) s)
          (authorized a && (fits_u64 (book.count a + 1) && fits_i128 (book.due a +ℤ pos 5)))
          (λ go.
            let r = run-answer L authorized (Lazy.operate a) (λ _. none) s (at_book ∙ rw go refl) in
            (operated L a s, r, HoldsBook-operated a book s h))
          (λ stop.
            run-answer_panic L authorized (Lazy.operate a) (λ _. none) s (at_book ∙ rw stop refl))
      where
        at_book : run L authorized (Lazy.operate a) s ≡ (
            if authorized a && (fits_u64 (book.count a + 1) && fits_i128 (book.due a +ℤ pos 5))
            then some (tt, operated L a s)
            else none)
        at_book =
            run-operate_all a s
            ∙ ap
                (λ n.
                  if authorized a && (fits_u64 (n + 1) && fits_i128 (owed L a s +ℤ pos 5))
                  then some (tt, operated L a s)
                  else none)
                (h.2 a)
            ∙ ap
                (λ x.
                  if authorized a && (fits_u64 (book.count a + 1) && fits_i128 (x +ℤ pos 5))
                  then some (tt, operated L a s)
                  else none)
                (h.1 a)
    booked-Follows (sweep a) book s h =
        if_of (λ o. Follows o (sweep a) s) (fits_i128 (book.paid +ℤ book.due a))
          (λ go.
            let r = run-answer L authorized (Lazy.sweep a) some s (at_book ∙ rw go refl) in
            (swept L a s, r, HoldsBook-swept a book s h))
          (λ stop. run-answer_panic L authorized (Lazy.sweep a) some s (at_book ∙ rw stop refl))
      where
        at_book : run L authorized (Lazy.sweep a) s ≡ (
            if fits_i128 (book.paid +ℤ book.due a)
            then some (book.paid +ℤ book.due a, swept L a s)
            else none)
        at_book =
            run-sweep_all a s
            ∙ ap (λ x. if fits_i128 x then some (x, swept L a s) else none)
                (ap (λ x. x +ℤ owed L a s) h.0 ∙ ap (λ x. book.paid +ℤ x) (h.1 a))

    -- The answers and the book of a run whose first call does `o` and leaves the ledger `x`.
    abbrev Answered :
        Option (Option ℤ × Book Address)
        → Event Address
        → List (Event Address)
        → Book Address
        → State
        → State
        → Type 0
    Answered o e events book s x =
        (result L authorized (event_call e) s ∷ replies L authorized (map event_call events) x
          ≡ told o (answers events) book)
        × HoldsBook (last_book events (kept o book))
            (after_all L authorized (map event_call events) x)

    first-Answered :
        (e : Event Address) (events : List (Event Address)) (book : Book Address) (s : State)
        → ((book' : Book Address) (t : State)
            → HoldsBook book' t
            → (replies L authorized (map event_call events) t ≡ answers events book')
              × HoldsBook
                  (last_book events book')
                  (after_all L authorized (map event_call events) t))
        → HoldsBook book s
        → (o : Option (Option ℤ × Book Address)) → Follows o e s
        → Answered o e events book s (after L authorized (event_call e) s)
    first-Answered e events book s others h none f =
        let r = panicked L authorized (event_call e) s f in
        let rest = others book s h in
        subst (Answered none e events book s) (sym r.1)
          (rw (r.0) (ap (λ l. none ∷ l) rest.0, rest.1))
    first-Answered e events book s others h (some (v, book')) (t, f, k) =
        let r = returned L authorized (event_call e) s f in
        let rest = others book' t k in
        subst (Answered (some (v, book')) e events book s) (sym r.1)
          (rw (r.0) (ap (λ l. some v ∷ l) rest.0, rest.1))

    answered :
        (events : List (Event Address)) (book : Book Address) (s : State)
        → HoldsBook book s
        → (replies L authorized (map event_call events) s ≡ answers events book)
          × HoldsBook (last_book events book) (after_all L authorized (map event_call events) s)
    answered [] book s h = (refl, h)
    answered (e ∷ events) book s h =
        first-Answered e events book s (answered events) h (booked e book)
          (booked-Follows e book s h)

    -- From a ledger that holds a book of the fees paid in, of the fee that each account owes and of
    -- its count of operations, any operations and sweeps in turn, signed or not. An operation goes
    -- through just where its account has signed it and neither count nor fee overflows; it adds one
    -- to the count and 5 to what the account owes. A sweep goes through just where the pool does not
    -- overflow; it answers the pool with what the account owed, which then owes nothing. A call that
    -- panics changes nothing. In the end `fee_pool`, `accrued` and `op_count` answer what the book
    -- then holds.
    pub events-answers :
        (events : List (Event Address)) (book : Book Address) (s : State)
        → HoldsBook book s
        → let t = after_all L authorized (map event_call events) s in
          (replies L authorized (map event_call events) s ≡ answers events book)
          × (result L authorized Lazy.fee_pool t ≡ some (last_book events book).paid)
          × ((a : Address)
              → result L authorized (Lazy.accrued a) t ≡ some ((last_book events book).due a))
          × ((a : Address)
              → result L authorized (Lazy.op_count a) t ≡ some ((last_book events book).count a))
    unfolding Lazy.fee_pool Lazy.accrued Lazy.op_count
    events-answers events book s h =
        let q = answered events book s h in
        (q.0, ap some q.1.0, λ a. ap some (q.1.1 a), λ a. ap some (q.1.2 a))
