-- ===== src/Subscriber/Fresh.antt =====
-- src/subscriber.rs: which traces a poll returns.
use axelar_relayer_ton.Prelude.{
  String, Bool, true, false, not, ◌&&◌, Option, none, some, List, [], ◌∷◌, ◌≡◌, ◌≢◌, refl, ap, ◌∙◌,
  inl, inr, Bool-cases, ==_iff, ◌==◌, string_eq, All, if◌then◌else◌, nat_eq,
}
use axelar_relayer_ton.Prelude.Int.{ℤ, pos, negsuc}
use axelar_relayer_ton.Types.{Trace, Transaction}
use axelar_relayer_ton.TonTrace.{
  JsonEq, EventSummary, TonTrace, Table, from, same_bool, same_i64, unchanged, upsert_row, write,
  upsert_and_return_if_changed,
}
use axelar_relayer_ton.Subscriber.{is_changed}

same_bool_refl : (b : Bool) → same_bool b b ≡ true
same_bool_refl true = refl
same_bool_refl false = refl

same_i64_refl : (z : ℤ) → same_i64 z z ≡ true
same_i64_refl (pos n) = (==_iff n n).1 refl
same_i64_refl (negsuc n) = (==_iff n n).1 refl

-- The same id, for the traces of one answer.
abbrev pub DistinctIds : {A : Type 0} → List (Trace A) → Type 0
DistinctIds [] = Unit
DistinctIds (trace ∷ traces) =
    All (λ other. other.trace_id ≢ trace.trace_id) traces × DistinctIds traces

module _ {A : Type 0} ⦃e : JsonEq (List (Transaction A))⦄ where
  abbrev pub same_row : Option (TonTrace (List (Transaction A))) → Trace A → Bool
  same_row none trace = false
  same_row (some row) trace = unchanged row (from trace)

  -- The table has the trace as it is.
  unfoldable pub stored : Table (List (Transaction A)) → Trace A → Bool
  stored t trace = same_row (t trace.trace_id) trace

  -- Complete, and not in the table as it is.
  unfoldable pub is_fresh : Table (List (Transaction A)) → Trace A → Bool
  unfolding stored
  is_fresh t trace = not (stored t trace) && not trace.is_incomplete

  unfoldable pub fresh : Table (List (Transaction A)) → List (Trace A) → List (Trace A)
  unfolding is_fresh
  fresh t [] = []
  fresh t (trace ∷ traces) = if is_fresh t trace then trace ∷ fresh t traces else fresh t traces

  -- A row with the values of the trace is the same.
  same_values :
      (trace : Trace A) (id : String) (retries : ℤ) (events : Option (List EventSummary))
      → unchanged
          (record {
            trace_id = id;
            is_incomplete = trace.is_incomplete;
            start_lt = trace.start_lt;
            end_lt = trace.end_lt;
            retries = retries;
            transactions = trace.transactions;
            events = events;
          })
          (from trace)
        ≡ true
  unfolding from
  same_values trace id retries events = rw (
    same_bool_refl trace.is_incomplete,
    same_i64_refl trace.start_lt,
    same_i64_refl trace.end_lt,
    e.same_refl trace.transactions,
  )

  write-returns :
      (tx : TonTrace (List (Transaction A))) (o : Option (TonTrace (List (Transaction A))))
      (t : Table (List (Transaction A)))
      → (write tx o t).0 ≡ o
  write-returns tx none t = refl
  write-returns tx (some row) t = refl

  pub write-elsewhere :
      (tx : TonTrace (List (Transaction A))) (o : Option (TonTrace (List (Transaction A))))
      (t : Table (List (Transaction A))) (id : String)
      → id ≢ tx.trace_id
      → (write tx o t).1 id ≡ t id
  write-elsewhere tx none t id other = refl
  write-elsewhere tx (some row) t id other = elim (Bool-cases (id == tx.trace_id)) [
    | inl same ↦ absurd (other ((==_iff id tx.trace_id).0 same))
    | inr differs ↦ rw differs
  ]

  row-changed :
      (trace : Trace A) (o : Option (TonTrace (List (Transaction A))))
      → is_changed (upsert_row (from trace) o) ≡ not (same_row o trace)
  row-changed trace none = refl
  row-changed trace (some row) = elim (Bool-cases (unchanged row (from trace))) [
    | inl same ↦ rw same
    | inr differs ↦ rw differs
  ]

  -- The statement returns a row unless the trace is stored as it is.
  pub changed-stored :
      (trace : Trace A) (t : Table (List (Transaction A)))
      → is_changed (upsert_and_return_if_changed (from trace) t).0 ≡ not (stored t trace)
  unfolding upsert_and_return_if_changed stored from
  changed-stored trace t =
      ap is_changed (write-returns (from trace) (upsert_row (from trace) (t trace.trace_id)) t)
      ∙ row-changed trace (t trace.trace_id)

  written-same :
      (trace : Trace A) (o : Option (TonTrace (List (Transaction A))))
      (t : Table (List (Transaction A)))
      → t trace.trace_id ≡ o
      → same_row ((write (from trace) (upsert_row (from trace) o) t).1 trace.trace_id) trace ≡ true
  unfolding from
  written-same trace none t at =
      rw ((==_iff trace.trace_id trace.trace_id).1 refl)
        (same_values trace trace.trace_id (pos 10) none)
  written-same trace (some row) t at = elim (Bool-cases (unchanged row (from trace))) [
    | inl same ↦ rw (same, at, same)
    | inr differs ↦
        rw (differs, (==_iff trace.trace_id trace.trace_id).1 refl)
          (same_values trace row.trace_id row.retries row.events)
  ]

  pub upsert-stored :
      (trace : Trace A) (t : Table (List (Transaction A)))
      → stored (upsert_and_return_if_changed (from trace) t).1 trace ≡ true
  unfolding upsert_and_return_if_changed stored from
  upsert-stored trace t = written-same trace (t trace.trace_id) t refl

  pub upsert-elsewhere :
      (trace other : Trace A) (t : Table (List (Transaction A)))
      → other.trace_id ≢ trace.trace_id
      → stored (upsert_and_return_if_changed (from trace) t).1 other ≡ stored t other
  unfolding upsert_and_return_if_changed from stored
  upsert-elsewhere trace other t differ =
      ap (λ o. same_row o other)
        (write-elsewhere (from trace) (upsert_row (from trace) (t trace.trace_id)) t other.trace_id
          differ)
