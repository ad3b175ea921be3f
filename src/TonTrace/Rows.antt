-- ===== src/TonTrace/Rows.antt =====
-- src/models/ton_trace.rs: what the statements do to the rows of the table.
use axelar_relayer_ton.Prelude.{
  String, true, ◌⊎◌, inl, inr, Option, none, some, ◌≡◌, ◌≢◌, refl, Bool-cases, ◌==◌, string_eq,
  ==_iff,
}
use axelar_relayer_ton.Prelude.Int.{pos}
use axelar_relayer_ton.TonTrace.{
  JsonEq, TonTrace, Table, unchanged, upsert_row, write, upsert_and_return_if_changed, upsert, find,
}

module _ {T : Type 0} ⦃e : JsonEq T⦄ where
  -- The row that an upsert is meant to leave: the new values, and the retries and the events of the row
  -- that was there, if there was one.
  abbrev pub upserted : TonTrace T → Option (TonTrace T) → TonTrace T
  upserted tx none = record tx { retries = pos 10; events = none }
  upserted tx (some row) = record row {
    is_incomplete = tx.is_incomplete;
    start_lt = tx.start_lt;
    end_lt = tx.end_lt;
    transactions = tx.transactions;
  }

  -- The row is that, or it was there and has the same values for the database.
  abbrev pub Upserted : TonTrace T → Option (TonTrace T) → Option (TonTrace T) → Type 0
  Upserted tx before after =
      (after ≡ some (upserted tx before))
      ⊎ ((row : TonTrace T) × (before ≡ some row) × (unchanged row tx ≡ true) × (after ≡ some row))

  write-Upserted :
      (tx : TonTrace T) (before : Option (TonTrace T)) (t : Table T)
      → t tx.trace_id ≡ before
      → Upserted tx before ((write tx (upsert_row tx before) t).1 tx.trace_id)
  write-Upserted tx none t at = inl (rw ((==_iff tx.trace_id tx.trace_id).1 refl))
  write-Upserted tx (some row) t at = elim (Bool-cases (unchanged row tx)) [
    | inl same ↦ rw same (inr (row, refl, same, at))
    | inr differs ↦ rw (differs, (==_iff tx.trace_id tx.trace_id).1 refl) (inl refl)
  ]

  write-other :
      (tx : TonTrace T) (o : Option (TonTrace T)) (t : Table T) (id : String)
      → id ≢ tx.trace_id
      → (write tx o t).1 id ≡ t id
  write-other tx none t id other = refl
  write-other tx (some row) t id other = elim (Bool-cases (id == tx.trace_id)) [
    | inl same ↦ absurd (other ((==_iff id tx.trace_id).0 same))
    | inr differs ↦ rw differs
  ]

  -- After an upsert the table has a row for the trace with the values of the trace, up to what the
  -- database takes for the same JSON, and with the retries and the events that the row had before, or
  -- ten retries and no events where there was none; every other row is as it was.
  pub find-upsert :
      (tx : TonTrace T) (t : Table T)
      → Upserted tx (find tx.trace_id t) (find tx.trace_id (upsert tx t))
        × ((id : String) → id ≢ tx.trace_id → find id (upsert tx t) ≡ find id t)
  unfolding upsert upsert_and_return_if_changed find
  find-upsert tx t = (
    write-Upserted tx (t tx.trace_id) t refl,
    λ id other. write-other tx (upsert_row tx (t tx.trace_id)) t id other,
  )
