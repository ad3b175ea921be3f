-- ===== src/Subscriber/Lost.antt =====
-- src/subscriber.rs: what happens to the traces of a poll that fails half way.
use axelar_relayer_ton.Prelude.{
  String, Bool, true, false, not, ◌&&◌, inr, inl, List, [], ◌∷◌, ◌++◌, ◌≡◌, ◌≢◌, sym, subst, ap,
  ◌∙◌, refl, Option, none, some, &&-true, Bool-cases, ok, err, All,
}
use axelar_relayer_ton.Prelude.Int.{pos, ltb_ℤ}
use axelar_relayer_ton.Types.{Trace, Transaction}
use axelar_relayer_ton.TonTrace.{
  JsonEq, TonTrace, Table, from, is_retriable, same_bool, upsert_and_return_if_changed,
}
use axelar_relayer_ton.Subscriber.{
  State, upsert_error, is_changed, collect, max_end_lt, advance, poll_account,
}
use axelar_relayer_ton.Subscriber.Fresh.{
  DistinctIds, same_row, stored, upsert-stored, upsert-elsewhere,
}
use axelar_relayer_ton.Subscriber.Polling.{
  NoneFails, answered, advance-traces, collect-table, collect-fresh, fresh-stored,
}

module _ {A : Type 0} ⦃e : JsonEq (List (Transaction A))⦄ (fails : String → Bool)
    (failing : Trace A) (back : List (Trace A)) where
  collect-err :
      (front : List (Trace A)) (t : Table (List (Transaction A)))
      → NoneFails fails front
      → fails failing.trace_id ≡ true
      → (collect fails (front ++ failing ∷ back) t).0 ≡ err (upsert_error failing.trace_id)
  unfolding collect
  collect-err [] t works down = rw down
  collect-err (trace ∷ front) t works down =
      let rest = collect-err front (upsert_and_return_if_changed (from trace) t).1 works.1 down in
      elim (Bool-cases
        (is_changed (upsert_and_return_if_changed (from trace) t).0 && not trace.is_incomplete)) [
          | inl new ↦ rw (works.0, new, rest)
          | inr old ↦ rw (works.0, old, rest)
        ]

  collect_err-elsewhere :
      (front : List (Trace A)) (t : Table (List (Transaction A))) (other : Trace A)
      → NoneFails fails front
      → fails failing.trace_id ≡ true
      → All (λ trace. trace.trace_id ≢ other.trace_id) front
      → stored (collect fails (front ++ failing ∷ back) t).1 other ≡ stored t other
  unfolding collect
  collect_err-elsewhere [] t other works down differ = rw down
  collect_err-elsewhere (trace ∷ front) t other works down differ =
      ap (λ u. stored u other) (collect-table fails trace (front ++ failing ∷ back) t works.0)
      ∙ collect_err-elsewhere front (upsert_and_return_if_changed (from trace) t).1 other works.1
          down differ.1
      ∙ upsert-elsewhere trace other t (λ same. differ.0 (sym same))

  collect_err-stored :
      (front : List (Trace A)) (t : Table (List (Transaction A)))
      → NoneFails fails front
      → fails failing.trace_id ≡ true
      → DistinctIds front
      → All (λ trace. stored (collect fails (front ++ failing ∷ back) t).1 trace ≡ true) front
  collect_err-stored [] t works down distinct = tt
  collect_err-stored (trace ∷ front) t works down distinct =
      let t' = (upsert_and_return_if_changed (from trace) t).1 in
      subst (λ u. All (λ x. stored u x ≡ true) (trace ∷ front))
        (sym (collect-table fails trace (front ++ failing ∷ back) t works.0))
        (
          collect_err-elsewhere front t' trace works.1 down distinct.0 ∙ upsert-stored trace t,
          collect_err-stored front t' works.1 down distinct.1,
        )

same_bool-eq : (b b' : Bool) → same_bool b b' ≡ true → b ≡ b'
same_bool-eq true true h = refl
same_bool-eq true false h = cc
same_bool-eq false true h = cc
same_bool-eq false false h = refl

never : (more incomplete : Bool) → (more && incomplete && not incomplete) ≡ false
never true true = refl
never true false = refl
never false incomplete = refl

module _ {A : Type 0} ⦃e : JsonEq (List (Transaction A))⦄ where
  -- The row of a complete trace is not found by the query for the retries.
  same_row-retried :
      (trace : Trace A) (row : Option (TonTrace (List (Transaction A))))
      → same_row row trace ≡ true
      → (is_retriable row && not trace.is_incomplete) ≡ false
  unfolding is_retriable from
  same_row-retried trace none h = cc
  same_row-retried trace (some row) h =
      let same : row.is_incomplete ≡ trace.is_incomplete =
        same_bool-eq row.is_incomplete trace.is_incomplete
          (&&-true _ _ (&&-true _ _ (&&-true _ _ h).0).0).0 in
      rw same (never (ltb_ℤ (pos 0) row.retries) trace.is_incomplete)

  stored-retried :
      (t : Table (List (Transaction A))) (traces : List (Trace A))
      → All (λ trace. stored t trace ≡ true) traces
      → All (λ trace. (is_retriable (t trace.trace_id) && not trace.is_incomplete) ≡ false) traces
  unfolding stored
  stored-retried t [] h = tt
  stored-retried t (trace ∷ traces) h =
      (same_row-retried trace (t trace.trace_id) h.0, stored-retried t traces h.1)

  -- If no statement fails for the traces before one of an answer, which have no id twice, and the
  -- statement for that one fails, then the poll is an error, so it returns none of the traces before it.
  -- The complete ones among them are lost: a later poll that is answered with them returns none, and the
  -- query for the retries does not find their rows.
  pub poll_account-lost :
      (front : List (Trace A)) (failing : Trace A) (back : List (Trace A)) (fails : String → Bool)
      (s : State A)
      → NoneFails fails front
      → fails failing.trace_id ≡ true
      → DistinctIds front
      → ((poll_account (answered (front ++ failing ∷ back) false fails) s).0
          ≡ err (upsert_error failing.trace_id))
        × ((poll_account
              (answered front false fails)
              (poll_account (answered (front ++ failing ∷ back) false fails) s).1).0
            ≡ ok [])
        × All
            (λ trace.
              (is_retriable (
                  (poll_account (answered (front ++ failing ∷ back) false fails) s).1.traces
                    trace.trace_id)
                && not trace.is_incomplete)
              ≡ false)
            front
  unfolding poll_account
  poll_account-lost front failing back fails s works down distinct =
      let p = answered (front ++ failing ∷ back) false fails in
      let s' = advance p (max_end_lt (front ++ failing ∷ back)) s in
      let t = (collect fails (front ++ failing ∷ back) s'.traces).1 in
      let kept = collect_err-stored fails failing back front s'.traces works down distinct in
      (
        collect-err fails failing back front s'.traces works down,
        ap (λ u. (collect fails front u).0)
              (advance-traces (answered front false fails) (max_end_lt front)
                (record s' { traces = t }))
            ∙ collect-fresh fails front t works distinct
            ∙ ap ok (fresh-stored t front kept),
        stored-retried t front kept,
      )
