-- ===== src/TonTrace.antt =====
-- src/models/ton_trace.rs: the table of the traces that were seen. The primary key is the trace id, so
-- the table is a function. `T` is the type of the transactions, which the database compares as JSON;
-- timestamps are left out.
pub mod Rows
pub mod Fetch
use axelar_relayer_ton.Prelude.{
  ℕ, [], ◌∷◌, take, zero, suc, String, Bool, true, false, not, ◌&&◌, Option, none, some, List, ◌≡◌,
  ◌==◌, string_eq, if◌then◌else◌, eqb,
}
use axelar_relayer_ton.Prelude.Int.{ℤ, pos, negsuc, ltb_ℤ}
use axelar_relayer_ton.Types.{Trace, Transaction}

pub record EventSummary : Type 0 where
  pub event_id : String
  pub message_id : Option String
  pub event_type : String

pub record TonTrace (T : Type 0) : Type 0 where
  pub trace_id : String
  pub is_incomplete : Bool
  pub start_lt : ℤ  -- i64
  pub end_lt : ℤ  -- i64
  pub retries : ℤ  -- i32
  pub transactions : T
  pub events : Option (List EventSummary)

abbrev pub Table : Type 0 → Type 0
Table T = String → Option (TonTrace T)

unfoldable pub from : {A : Type 0} → Trace A → TonTrace (List (Transaction A))
from trace = record {
  trace_id = trace.trace_id;
  is_incomplete = trace.is_incomplete;
  start_lt = trace.start_lt;
  end_lt = trace.end_lt;
  retries = pos 5;
  transactions = trace.transactions;
  events = none;
}

abbrev pub same_bool : Bool → Bool → Bool
same_bool true b = b
same_bool false b = not b

abbrev pub same_i64 : ℤ → ℤ → Bool
same_i64 (pos m) (pos n) = eqb m n
same_i64 (negsuc m) (negsuc n) = eqb m n
same_i64 _ _ = false

-- The comparison of JSON values by the database: a value is not distinct from itself.
pub record JsonEq (T : Type 0) : Type 0 where
  pub same : T → T → Bool
  pub same_refl : (value : T) → same value value ≡ true

module _ {T : Type 0} ⦃e : JsonEq T⦄ where
  -- None of the four columns IS DISTINCT FROM the new value.
  abbrev pub unchanged : TonTrace T → TonTrace T → Bool
  unchanged row tx =
      same_bool row.is_incomplete tx.is_incomplete
      && same_i64 row.start_lt tx.start_lt
      && same_i64 row.end_lt tx.end_lt
      && e.same row.transactions tx.transactions

  abbrev pub set_row : String → TonTrace T → Table T → Table T
  set_row id row t k = if k == id then some row else t k

  -- What the statement does to the row of the id: an insert takes the default for `retries`
  -- and no events, and an update leaves both alone.
  abbrev pub upsert_row : TonTrace T → Option (TonTrace T) → Option (TonTrace T)
  upsert_row tx none = some (record tx { retries = pos 10; events = none })
  upsert_row tx (some row) =
      if unchanged row tx
      then none
      else some (record row {
        is_incomplete = tx.is_incomplete;
        start_lt = tx.start_lt;
        end_lt = tx.end_lt;
        transactions = tx.transactions;
      })

  abbrev pub write : TonTrace T → Option (TonTrace T) → Table T → Option (TonTrace T) × Table T
  write tx none t = (none, t)
  write tx (some row) t = (some row, set_row tx.trace_id row t)

  -- The row, if it was inserted or changed.
  unfoldable pub upsert_and_return_if_changed : TonTrace T → Table T → Option (TonTrace T) × Table T
  upsert_and_return_if_changed tx t = write tx (upsert_row tx (t tx.trace_id)) t

abbrev pub pred_ℤ : ℤ → ℤ
pred_ℤ (pos zero) = negsuc zero
pred_ℤ (pos (suc n)) = pos n
pred_ℤ (negsuc n) = negsuc (suc n)

module _ {T : Type 0} where
  abbrev pub spend_row : Option (TonTrace T) → Option (TonTrace T)
  spend_row none = none
  spend_row (some row) = some (record row { retries = pred_ℤ row.retries })

  -- The row of the id, if there is one, has a retry less. The lower end of `i32`, where the statement
  -- fails, is left out: it is two billion polls below the default.
  unfoldable pub decrease_retry : TonTrace T → Table T → Table T
  decrease_retry tx t k = if k == tx.trace_id then spend_row (t k) else t k

  -- The condition under which the query for the retries finds a row.
  unfoldable pub is_retriable : Option (TonTrace T) → Bool
  is_retriable none = false
  is_retriable (some row) = ltb_ℤ (pos 0) row.retries && row.is_incomplete

  -- The rows that the query for the retries finds, of the rows with these ids.
  abbrev pub kept_row : Bool → Option (TonTrace T) → List (TonTrace T) → List (TonTrace T)
  kept_row true (some row) rows = row ∷ rows
  kept_row true none rows = rows
  kept_row false o rows = rows

  abbrev pub retriable_rows : List String → Table T → List (TonTrace T)
  retriable_rows [] t = []
  retriable_rows (id ∷ ids) t = kept_row (is_retriable (t id)) (t id) (retriable_rows ids t)

  -- `ids` are the ids of the table in the order of `updated_at`, which is a column that is left out.
  unfoldable pub fetch_retry : (limit : ℕ) → (ids : List String) → Table T → List (TonTrace T)
  fetch_retry limit ids t = take limit (retriable_rows ids t)

  abbrev pub with_events : List EventSummary → Option (TonTrace T) → Option (TonTrace T)
  with_events events none = none
  with_events events (some row) = some (record row { events = some events })

  -- The row of the id, if there is one, has these events.
  unfoldable pub update_events : (trace_id : String) → List EventSummary → Table T → Table T
  update_events trace_id events t k = if k == trace_id then with_events events (t k) else t k

  unfoldable pub find : String → Table T → Option (TonTrace T)
  find id t = t id

  unfoldable pub delete : TonTrace T → Table T → Table T
  delete tx t k = if k == tx.trace_id then none else t k

module _ {T : Type 0} ⦃e : JsonEq T⦄ where
  -- `upsert` drops what the statement returns.
  unfoldable pub upsert : TonTrace T → Table T → Table T
  unfolding upsert_and_return_if_changed
  upsert tx t = (upsert_and_return_if_changed tx t).1
