-- ===== src/Ingestor.antt =====
-- src/ingestor.rs: a trace from the queue becomes events, and the table of traces gets their summaries.
-- serde_json, `EventModel::from_event` of relayer_core and the failures of the database are inputs.
use axelar_relayer_ton.Prelude.{
  String, Option, none, some, List, [], ◌∷◌, map, Outcome, ok, err, panic,
}
use axelar_relayer_ton.Externals.{Externals}
use axelar_relayer_ton.Types.{
  Trace, TransactionParsingError, boc_parsing, message, gas, its_without_pair, generic, append,
}
use axelar_relayer_ton.GmpTypes.{Event}
use axelar_relayer_ton.TonTrace.{EventSummary, Table, update_events}
use axelar_relayer_ton.TransactionParser.Creation.{TraceParser}
use axelar_relayer_ton.TransactionParser.Assembly.{parse_trace}
pub mod Ingestion

-- relayer_core::error::IngestorError, the one case that the file makes
pub data IngestorError : Type 0 where
  generic_error : String → IngestorError

-- relayer_core::models::gmp_events::EventModel, the fields that the file reads
pub record EventModel : Type 0 where
  pub event_id : String
  pub message_id : Option String
  pub event_type : String

-- `e.to_string()`
abbrev pub parsing_error_text : TransactionParsingError → String
parsing_error_text (boc_parsing s) = append "BocParsingError: " s
parsing_error_text (message s) = append "MessageParsingError: " s
parsing_error_text (gas s) = append "GasError: " s
parsing_error_text (its_without_pair s) = append "ITSWithoutPair: " s
parsing_error_text (generic s) = append "GeneralError: " s

abbrev pub event_summary : EventModel → EventSummary
event_summary model = record {
  event_id = model.event_id;
  message_id = model.message_id;
  event_type = model.event_type;
}

-- The handlers of the tasks that are not implemented.
unfoldable pub handle_verify : {Task : Type 0} → Task → Outcome IngestorError (Unit {0})
handle_verify task = err (generic_error "Still not implemented")

unfoldable pub handle_wasm_event : {Task : Type 0} → Task → Outcome IngestorError (Unit {0})
handle_wasm_event task = err (generic_error "Still not implemented")

unfoldable pub handle_construct_proof : {Task : Type 0} → Task → Outcome IngestorError (Unit {0})
handle_construct_proof task = err (generic_error "Still not implemented")

unfoldable pub handle_retriable_task : {Task : Type 0} → Task → Outcome IngestorError (Unit {0})
handle_retriable_task task = err (generic_error "Still not implemented")

module _ (lib : Externals) where
  open lib use {Address}

  pub record TonIngestor : Type 0 where
    pub trace_parser : TraceParser Address
    -- `serde_json::from_str::<Trace>`
    pub from_str : String → Option (Trace Address)
    pub from_event : Event → EventModel

  -- What a call meets: the clock, and the error of the database, if it fails.
  pub record Meets : Type 0 where
    pub now : String
    pub database_error : Option String

  abbrev pub event_summaries : TonIngestor → List Event → List EventSummary
  event_summaries self events = map event_summary (map self.from_event events)

  module _ {T : Type 0} where
    abbrev pub save :
        Option String
        → String
        → List EventSummary
        → List Event
        → Table T
        → Outcome IngestorError (List Event) × Table T
    save (some e) trace_id summaries events t = (err (generic_error e), t)
    save none trace_id summaries events t = (ok events, update_events trace_id summaries t)

    abbrev pub save_any :
        Option String
        → String
        → List EventSummary
        → List Event
        → Table T
        → Outcome IngestorError (List Event) × Table T
    save_any failure trace_id [] events t = (ok events, t)
    save_any failure trace_id (s ∷ ss) events t = save failure trace_id (s ∷ ss) events t

    abbrev pub store :
        TonIngestor
        → Option String
        → String
        → Outcome TransactionParsingError (List Event)
        → Table T
        → Outcome IngestorError (List Event) × Table T
    store self failure trace_id (ok events) t =
        save_any failure trace_id (event_summaries self events) events t
    store self failure trace_id (err e) t = (err (generic_error (parsing_error_text e)), t)
    store self failure trace_id panic t = (panic, t)

    abbrev pub ingest :
        TonIngestor
        → Meets
        → Option (Trace Address)
        → Table T
        → Outcome IngestorError (List Event) × Table T
    ingest self meets none t = (panic, t)
    ingest self meets (some trace) t =
        store self meets.database_error trace.trace_id
          (parse_trace lib self.trace_parser meets.now trace) t

    unfoldable pub handle_transaction :
        TonIngestor
        → Meets
        → (trace : String) → Table T
        → Outcome IngestorError (List Event) × Table T
    handle_transaction self meets trace t = ingest self meets (self.from_str trace) t
