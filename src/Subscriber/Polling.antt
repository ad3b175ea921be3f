-- ===== src/Subscriber/Polling.antt =====
-- src/subscriber.rs: a poll returns the traces that are new, and returns them once.
use axelar_relayer_ton.Prelude.{
  String, Bool, true, false, not, ◌&&◌, inr, inl, Option, none, some, List, [], ◌∷◌, ◌≡◌, ◌≢◌, refl,
  sym, subst, ap, ◌∙◌, Bool-cases, ok, All,
}
use axelar_relayer_ton.Prelude.Int.{ℤ}
use axelar_relayer_ton.Types.{Trace, Transaction}
use axelar_relayer_ton.TonTrace.{JsonEq, Table, from, upsert_and_return_if_changed}
use axelar_relayer_ton.Subscriber.{
  State, Poll, is_changed, collect, max_end_lt, advance, poll_account,
}
use axelar_relayer_ton.Subscriber.Fresh.{
  DistinctIds, stored, is_fresh, fresh, changed-stored, upsert-stored, upsert-elsewhere,
}

module _ {A : Type 0} ⦃e : JsonEq (List (Transaction A))⦄ where
  -- The table does not tell two tables apart on the traces.
  abbrev Agree :
      Table (List (Transaction A)) → Table (List (Transaction A)) → List (Trace A) → Type 0
  Agree t t' traces = All (λ trace. stored t' trace ≡ stored t trace) traces

  fresh-Agree :
      (t t' : Table (List (Transaction A))) (traces : List (Trace A))
      → Agree t t' traces
      → fresh t' traces ≡ fresh t traces
  unfolding fresh is_fresh
  fresh-Agree t t' [] h = refl
  fresh-Agree t t' (trace ∷ traces) h = rw (h.0, fresh-Agree t t' traces h.1)

  upsert-Agree :
      (trace : Trace A) (traces : List (Trace A)) (t : Table (List (Transaction A)))
      → All (λ other. other.trace_id ≢ trace.trace_id) traces
      → Agree t (upsert_and_return_if_changed (from trace) t).1 traces
  upsert-Agree trace [] t h = tt
  upsert-Agree trace (other ∷ traces) t h =
      (upsert-elsewhere trace other t h.0, upsert-Agree trace traces t h.1)

  abbrev pub NoneFails : (String → Bool) → List (Trace A) → Type 0
  NoneFails fails traces = All (λ trace. fails trace.trace_id ≡ false) traces

  pub collect-fresh :
      (fails : String → Bool) (traces : List (Trace A)) (t : Table (List (Transaction A)))
      → NoneFails fails traces
      → DistinctIds traces
      → (collect fails traces t).0 ≡ ok (fresh t traces)
  unfolding collect fresh is_fresh
  collect-fresh fails [] t works distinct = refl
  collect-fresh fails (trace ∷ traces) t works distinct =
      let t' = (upsert_and_return_if_changed (from trace) t).1 in
      let rest =
        collect-fresh fails traces t' works.1 distinct.1
        ∙ ap ok (fresh-Agree t t' traces (upsert-Agree trace traces t distinct.0)) in
      elim (Bool-cases (not (stored t trace) && not trace.is_incomplete)) [
        | inl new ↦ rw (works.0, changed-stored trace t, new, rest)
        | inr old ↦ rw (works.0, changed-stored trace t, old, rest)
      ]

  -- The table that the loop leaves, when the statement works.
  pub collect-table :
      (fails : String → Bool) (trace : Trace A) (traces : List (Trace A))
      (t : Table (List (Transaction A)))
      → fails trace.trace_id ≡ false
      → (collect fails (trace ∷ traces) t).1
        ≡ (collect fails traces (upsert_and_return_if_changed (from trace) t).1).1
  unfolding collect
  collect-table fails trace traces t works =
      elim (Bool-cases
        (is_changed (upsert_and_return_if_changed (from trace) t).0 && not trace.is_incomplete)) [
          | inl new ↦ rw (works, new)
          | inr old ↦ rw (works, old)
        ]

  collect-elsewhere :
      (fails : String → Bool) (traces : List (Trace A)) (t : Table (List (Transaction A)))
      (other : Trace A)
      → NoneFails fails traces
      → All (λ trace. trace.trace_id ≢ other.trace_id) traces
      → stored (collect fails traces t).1 other ≡ stored t other
  unfolding collect
  collect-elsewhere fails [] t other works differ = refl
  collect-elsewhere fails (trace ∷ traces) t other works differ =
      ap (λ u. stored u other) (collect-table fails trace traces t works.0)
      ∙ collect-elsewhere fails traces (upsert_and_return_if_changed (from trace) t).1 other works.1
          differ.1
      ∙ upsert-elsewhere trace other t (λ same. differ.0 (sym same))

  collect-stored :
      (fails : String → Bool) (traces : List (Trace A)) (t : Table (List (Transaction A)))
      → NoneFails fails traces
      → DistinctIds traces
      → All (λ trace. stored (collect fails traces t).1 trace ≡ true) traces
  collect-stored fails [] t works distinct = tt
  collect-stored fails (trace ∷ traces) t works distinct =
      let t' = (upsert_and_return_if_changed (from trace) t).1 in
      subst (λ u. All (λ x. stored u x ≡ true) (trace ∷ traces))
        (sym (collect-table fails trace traces t works.0))
        (
          collect-elsewhere fails traces t' trace works.1 distinct.0 ∙ upsert-stored trace t,
          collect-stored fails traces t' works.1 distinct.1,
        )

  pub fresh-stored :
      (t : Table (List (Transaction A))) (traces : List (Trace A))
      → All (λ trace. stored t trace ≡ true) traces
      → fresh t traces ≡ []
  unfolding fresh is_fresh
  fresh-stored t [] h = refl
  fresh-stored t (trace ∷ traces) h = rw (h.0, fresh-stored t traces h.1)

  pub advance-traces :
      (p : Poll A) (lt : Option ℤ) (s : State A) → (advance p lt s).traces ≡ s.traces
  unfolding advance
  advance-traces p none s = refl
  advance-traces p (some lt) s = refl

  -- A poll whose answer is these traces.
  abbrev pub answered : List (Trace A) → Bool → (String → Bool) → Poll A
  answered traces height_fails fails = record {
    answer = inr traces;
    height_fails = height_fails;
    upsert_fails = fails;
  }

  -- If the answer of the client has no trace id twice and no statement on the table of traces fails, a
  -- poll returns the traces that are complete and that the table did not have as they are, in their
  -- order; and polling again for the same answer returns nothing, also when the height is not stored.
  pub poll_account-fresh :
      (traces : List (Trace A)) (height_fails : Bool) (fails : String → Bool) (s : State A)
      → NoneFails fails traces
      → DistinctIds traces
      → ((poll_account (answered traces height_fails fails) s).0 ≡ ok (fresh s.traces traces))
        × ((poll_account
              (answered traces height_fails fails)
              (poll_account (answered traces height_fails fails) s).1).0
            ≡ ok [])
  unfolding poll_account
  poll_account-fresh traces height_fails fails s works distinct =
      let p = answered traces height_fails fails in
      let lt = max_end_lt traces in
      let s' = advance p lt s in
      let t = (collect fails traces s'.traces).1 in
      (
        ap (λ u. (collect fails traces u).0) (advance-traces p lt s)
            ∙ collect-fresh fails traces s.traces works distinct,
        ap (λ u. (collect fails traces u).0) (advance-traces p lt (record s' { traces = t }))
            ∙ collect-fresh fails traces t works distinct
            ∙ ap ok (fresh-stored t traces (collect-stored fails traces s'.traces works distinct)),
      )
