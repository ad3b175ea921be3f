-- ===== src/Ingestor/Ingestion.antt =====
-- src/ingestor.rs: what a call of `handle_transaction` returns and leaves in the table.
use axelar_relayer_ton.Prelude.{
  String, inl, inr, Bool-cases, Option, none, some, List, [], ◌∷◌, ◌≡◌, ◌≢◌, refl, Outcome, ok, err,
  panic, Outcome-cases, All, ◌==◌, ==_iff, string_eq,
}
use axelar_relayer_ton.Externals.{Externals}
use axelar_relayer_ton.Types.{Trace}
use axelar_relayer_ton.GmpTypes.{Event}
use axelar_relayer_ton.TonTrace.{EventSummary, TonTrace, Table, with_events, update_events}
use axelar_relayer_ton.TransactionParser.Assembly.{parse_trace}
use axelar_relayer_ton.TransactionParser.Genuine.{IsGenuine}
use axelar_relayer_ton.TransactionParser.ParseTrace.{parse_trace-IsGenuine}
use axelar_relayer_ton.Ingestor.{
  IngestorError, TonIngestor, Meets, event_summaries, save_any, store, handle_transaction,
}

-- The row after events: they replace what it had, unless there are none.
abbrev pub summarised : {T : Type 0} → List EventSummary → Option (TonTrace T) → Option (TonTrace T)
summarised [] row = row
summarised (s ∷ ss) row = with_events (s ∷ ss) row

module _ {T : Type 0} where
  update_events-same :
      (id : String) (events : List EventSummary) (t : Table T)
      → update_events id events t id ≡ with_events events (t id)
  unfolding update_events
  update_events-same id events t = rw ((==_iff id id).1 refl)

  update_events-other :
      (id : String) (events : List EventSummary) (t : Table T) (k : String)
      → k ≢ id
      → update_events id events t k ≡ t k
  unfolding update_events
  update_events-other id events t k other = elim (Bool-cases (k == id)) [
    | inl same ↦ absurd (other ((==_iff k id).0 same))
    | inr differs ↦ rw differs
  ]

module _ (lib : Externals) (self : TonIngestor lib) {T : Type 0} where
  -- Only the row of the trace differs, and that in its events at most.
  abbrev pub Summarised : String → List Event → Table T → Table T → Type 0
  Summarised trace_id events t t' =
      (t' trace_id ≡ summarised (event_summaries lib self events) (t trace_id))
      × ((k : String) → k ≢ trace_id → t' k ≡ t k)

  abbrev pub Ingested :
      Trace lib.Address → Table T → Outcome IngestorError (List Event) → Table T → Type 0
  Ingested trace t (ok events) t' =
      All (IsGenuine self.trace_parser trace.transactions) events
      × Summarised trace.trace_id events t t'
  Ingested trace t (err e) t' = t' ≡ t
  Ingested trace t panic t' = t' ≡ t

  save_any-Ingested :
      (trace : Trace lib.Address) (failure : Option String) (events : List Event) (t : Table T)
      → All (IsGenuine self.trace_parser trace.transactions) events
      → let saved =
          save_any lib failure trace.trace_id (event_summaries lib self events) events t in
        Ingested trace t saved.0 saved.1
  save_any-Ingested trace failure [] t genuine = (genuine, (refl, λ k other. refl))
  save_any-Ingested trace (some e) (event ∷ events) t genuine = refl
  save_any-Ingested trace none (event ∷ events) t genuine = (
    genuine,
    (
      update_events-same trace.trace_id _ t,
      λ k other. update_events-other trace.trace_id _ t k other,
    ),
  )

  store-Ingested :
      (trace : Trace lib.Address) (meets : Meets lib) (t : Table T)
      → let stored =
          store lib self meets.database_error trace.trace_id
            (parse_trace lib self.trace_parser meets.now trace)
            t in
        Ingested trace t stored.0 stored.1
  store-Ingested trace meets t =
      elim (Outcome-cases (parse_trace lib self.trace_parser meets.now trace)) [
        | inl (events, parsed) ↦ rw parsed (
            save_any-Ingested trace meets.database_error events t
              (parse_trace-IsGenuine lib self.trace_parser meets.now trace events parsed))
        | inr (inl (e, failed)) ↦ rw failed refl
        | inr (inr panics) ↦ rw panics refl
      ]

  -- If `handle_transaction` returns events for a text that is a trace, each of them, except those of
  -- the type `CannotExecuteMessageV2`, names a transaction of that trace whose account is the contract
  -- that its type belongs to; the row of the trace has, in the table, the summaries of exactly these
  -- events in this order, or is as it was if there are none, and the other rows are as they were. If it
  -- returns an error or panics, also where the table cannot be written, the table is as it was.
  pub handle_transaction-Ingested :
      (meets : Meets lib) (text : String) (trace : Trace lib.Address) (t : Table T)
      → self.from_str text ≡ some trace
      → let handled = handle_transaction lib self meets text t in
        Ingested trace t handled.0 handled.1
  unfolding handle_transaction
  handle_transaction-Ingested meets text trace t is_trace =
      rw is_trace (store-Ingested trace meets t)
