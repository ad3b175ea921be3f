-- ===== src/RetrySubscriber/Retries.antt =====
-- src/retry_subscriber.rs: how many retries a poll takes from a trace.
use axelar_relayer_ton.Prelude.{
  ℕ, zero, suc, String, Bool, true, false, ◌&&◌, inl, inr, Option, none, some, List, [], ◌∷◌, ◌≡◌,
  refl, sym, ap, subst, ◌∙◌, Bool-cases, ==_iff, ◌==◌, string_eq, if◌then◌else◌,
}
use axelar_relayer_ton.Prelude.Int.{ℤ}
use axelar_relayer_ton.Types.{Trace, Transaction}
use axelar_relayer_ton.TonTrace.{
  JsonEq, TonTrace, Table, from, unchanged, pred_ℤ, upsert_row, write, upsert_and_return_if_changed,
  decrease_retry, spend_row,
}
use axelar_relayer_ton.RetrySubscriber.{RetryPoll, settle, collect_retried, poll_retries}
use axelar_relayer_ton.Subscriber.Fresh.{write-elsewhere}
use axelar_relayer_ton.Subscriber.Polling.{NoneFails}

-- A retry less, a number of times.
abbrev pub spend : ℕ → ℤ → ℤ
spend zero z = z
spend (suc n) z = spend n (pred_ℤ z)

-- How often the answer says of the trace that it is still incomplete.
abbrev pub reports : {A : Type 0} → String → List (Trace A) → ℕ
reports id [] = 0
reports id (trace ∷ traces) =
    if id == trace.trace_id && trace.is_incomplete
    then suc (reports id traces)
    else reports id traces

abbrev pub row_retries : {T : Type 0} → Option (TonTrace T) → Option ℤ
row_retries none = none
row_retries (some row) = some row.retries

-- The retries that the table has for the id, if it has a row.
abbrev pub retries_at : {T : Type 0} → Table T → String → Option ℤ
retries_at t id = row_retries (t id)

spend-if :
    (b : Bool) (n : ℕ) (z : ℤ)
    → spend n (if b then pred_ℤ z else z) ≡ spend (if b then suc n else n) z
spend-if true n z = refl
spend-if false n z = refl

pub no_retries : {z : ℤ} {B : Type 0} → ◌≡◌ {A = Option ℤ} none (some z) → B
no_retries e = cc

pub some_injective : {y z : ℤ} → ◌≡◌ {A = Option ℤ} (some y) (some z) → y ≡ z
some_injective e = cc

-- What one poll is told: the rows that the query finds, at least one, the client's answer, and the
-- trace ids at which a statement fails.
pub record Round (A : Type 0) : Type 0 where
  pub row : TonTrace (List (Transaction A))
  pub rows : List (TonTrace (List (Transaction A)))
  pub traces : List (Trace A)
  pub fails : String → Bool

module _ {A : Type 0} ⦃e : JsonEq (List (Transaction A))⦄ where
  -- The statement does not touch the retries of a row.
  write-retries :
      (tx : TonTrace (List (Transaction A))) (o : Option (TonTrace (List (Transaction A))))
      (t : Table (List (Transaction A))) (z : ℤ)
      → t tx.trace_id ≡ o
      → row_retries o ≡ some z
      → retries_at (write tx (upsert_row tx o) t).1 tx.trace_id ≡ some z
  write-retries tx none t z at has = no_retries has
  write-retries tx (some row) t z at has = elim (Bool-cases (unchanged row tx)) [
    | inl same ↦ rw (same, at) has
    | inr differs ↦ rw (differs, (==_iff tx.trace_id tx.trace_id).1 refl) has
  ]

  upsert-retries :
      (tx : TonTrace (List (Transaction A))) (t : Table (List (Transaction A))) (id : String)
      (z : ℤ)
      → retries_at t id ≡ some z
      → retries_at (upsert_and_return_if_changed tx t).1 id ≡ some z
  unfolding upsert_and_return_if_changed
  upsert-retries tx t id z has = elim (Bool-cases (id == tx.trace_id)) [
    | inl same ↦
        let here : tx.trace_id ≡ id = sym ((==_iff id tx.trace_id).0 same) in
        subst (λ k. retries_at (write tx (upsert_row tx (t tx.trace_id)) t).1 k ≡ some z) here
          (write-retries tx (t tx.trace_id) t z refl (rw here has))
    | inr differs ↦
        ap row_retries (
          write-elsewhere tx (upsert_row tx (t tx.trace_id)) t id (λ here.
            let both : true ≡ false = sym ((==_iff id tx.trace_id).1 here) ∙ differs in cc))
        ∙ has
  ]

  spend_row-retries :
      (o : Option (TonTrace (List (Transaction A)))) (z : ℤ)
      → row_retries o ≡ some z
      → row_retries (spend_row o) ≡ some (pred_ℤ z)
  spend_row-retries none z has = no_retries has
  spend_row-retries (some row) z has = ap (λ y. some (pred_ℤ y)) (some_injective has)

  -- What the loop does to the retries of an id at one trace.
  settle-retries :
      (trace : Trace A) (t : Table (List (Transaction A))) (id : String) (z : ℤ)
      → retries_at t id ≡ some z
      → retries_at (settle trace t).1 id
        ≡ some (if id == trace.trace_id && trace.is_incomplete then pred_ℤ z else z)
  unfolding settle decrease_retry from
  settle-retries trace t id z has = elim (Bool-cases trace.is_incomplete) [
    | inr complete ↦ elim (Bool-cases (id == trace.trace_id)) [
      | inl same ↦ rw (complete, same) (upsert-retries _ t id z has)
      | inr differs ↦ rw (complete, differs) (upsert-retries _ t id z has)
    ]
    | inl incomplete ↦ elim (Bool-cases (id == trace.trace_id)) [
      | inl same ↦ rw (incomplete, same) (spend_row-retries (t id) z has)
      | inr differs ↦ rw (incomplete, differs) has
    ]
  ]

  pub collect_retried-table :
      (fails : String → Bool) (trace : Trace A) (traces : List (Trace A))
      (t : Table (List (Transaction A)))
      → fails trace.trace_id ≡ false
      → (collect_retried fails (trace ∷ traces) t).1
        ≡ (collect_retried fails traces (settle trace t).1).1
  unfolding collect_retried
  collect_retried-table fails trace traces t works = elim (Bool-cases (settle trace t).0) [
    | inl new ↦ rw (works, new)
    | inr old ↦ rw (works, old)
  ]

  collect_retried-retries :
      (fails : String → Bool) (traces : List (Trace A)) (t : Table (List (Transaction A)))
      (id : String) (z : ℤ)
      → NoneFails fails traces
      → retries_at t id ≡ some z
      → retries_at (collect_retried fails traces t).1 id ≡ some (spend (reports id traces) z)
  unfolding collect_retried
  collect_retried-retries fails [] t id z works has = has
  collect_retried-retries fails (trace ∷ traces) t id z works has =
      ap (λ u. retries_at u id) (collect_retried-table fails trace traces t works.0)
      ∙ collect_retried-retries fails traces (settle trace t).1 id _ works.1
          (settle-retries trace t id z has)
      ∙ ap some (spend-if (id == trace.trace_id && trace.is_incomplete) (reports id traces) z)

  -- A poll that finds rows and whose answer is these traces.
  abbrev pub asked : Round A → RetryPoll A
  asked r = record {
    rows = inr (r.row ∷ r.rows);
    traces_of = λ _. inr r.traces;
    statement_fails = r.fails;
  }

  -- If no statement of a poll fails, a row of the table of traces has one retry less for each time that
  -- the client's answer says that its trace is still incomplete, and the retries of every other row
  -- are what they were, those of a trace that has become complete too.
  pub poll_retries-retries :
      (r : Round A) (t : Table (List (Transaction A))) (id : String) (z : ℤ)
      → NoneFails r.fails r.traces
      → retries_at t id ≡ some z
      → retries_at (poll_retries (asked r) t).1 id ≡ some (spend (reports id r.traces) z)
  unfolding poll_retries
  poll_retries-retries r t id z = collect_retried-retries r.fails r.traces t id z
