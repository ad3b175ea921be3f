-- ===== src/Examples/Ingests.antt =====
-- src/ingestor.rs at a trace with a call and the payment for it, which the table has from an earlier
-- poll.
use axelar_relayer_ton.Prelude.{
  ℕ, String, Option, none, some, List, [], ◌∷◌, ◌≡◌, ◌≢◌, refl, err, All, ◌==◌, string_eq,
  if◌then◌else◌,
}
use axelar_relayer_ton.Types.{Transaction}
use axelar_relayer_ton.TonTrace.{Table, EventSummary, from, update_events}
use axelar_relayer_ton.GmpTypes.{Event, call, gas_credit}
use axelar_relayer_ton.Ingestor.{
  TonIngestor, Meets, EventModel, generic_error, handle_transaction, handle_verify,
}
use axelar_relayer_ton.Ingestor.Ingestion.{handle_transaction-Ingested}
use axelar_relayer_ton.Examples.Library.{library}
use axelar_relayer_ton.Examples.Traces.{trace, trace_parser, events}
use axelar_relayer_ton.TransactionParser.Genuine.{IsGenuine}
use axelar_relayer_ton.TransactionParser.CallContract
use axelar_relayer_ton.TransactionParser.MessageExecuted
use axelar_relayer_ton.TransactionParser.MessageApproved
use axelar_relayer_ton.TransactionParser.NativeGasPaid
use axelar_relayer_ton.TransactionParser.ExecuteInsufficientGas
use axelar_relayer_ton.TransactionParser.AnyParser.{key, message_id, event}
use axelar_relayer_ton.TransactionParser.Common.{is_log_emmitted_in_opcode, hash_to_message_id}
use axelar_relayer_ton.Boc.{compare_op_code}
use axelar_relayer_ton.Boc.CellTo.{load_bytes, load_chain, cell_to_buffer, cell_to_string}
use axelar_relayer_ton.Boc.CallContract as CallContractLog
use axelar_relayer_ton.Boc.NativeGasPaid as NativeGasPaidLog
use axelar_relayer_ton.TransactionParser.Creation.{
  same_key, insert, remove, try_call_contract, try_message_executed, try_message_approved,
  try_native_gas_paid, try_in_turn, collect_from, try_execute_insufficient_gas, create_parsers,
}
use axelar_relayer_ton.TransactionParser.Assembly.{
  gas_used, convert_payment, adjust, add_gas_used_and_convert, credit_event, call_events,
  its_events, other_events, events_of, parse_trace,
}

abbrev model_of : Event → EventModel
model_of (call common message chain payload) = record {
  event_id = common.event_id;
  message_id = some message.message_id;
  event_type = "CALL";
}
model_of (gas_credit common id address payment) = record {
  event_id = common.event_id;
  message_id = some id;
  event_type = "GAS_CREDIT";
}
model_of e = record { event_id = "other"; message_id = none; event_type = "OTHER" }

-- The queue has the one trace, by its name.
abbrev ingestor : TonIngestor library
ingestor = record {
  trace_parser = trace_parser;
  from_str = λ text. if text == "trace" then some trace else none;
  from_event = model_of;
}

abbrev meets : Option String → Meets library
meets failure = record { now = "now"; database_error = failure }

abbrev seen : Table (List (Transaction ℕ))
unfolding from
seen id = if id == "trace" then some (from trace) else none

abbrev summaries : List EventSummary
summaries =
    record { event_id = "tx1"; message_id = some "0x00"; event_type = "CALL" }
    ∷ record { event_id = "tx2-gas"; message_id = some "0x00"; event_type = "GAS_CREDIT" }
    ∷ []

handle_transaction-Ingested_example :
    All (IsGenuine trace_parser trace.transactions) events
    × (((handle_transaction library ingestor (meets none) "trace" seen).1 "trace"
          ≡ some (record (from trace) { events = some summaries }))
        × ((id : String)
            → id ≢ "trace"
            → (handle_transaction library ingestor (meets none) "trace" seen).1 id ≡ seen id))
unfolding handle_transaction from update_events parse_trace gas_used convert_payment adjust
    add_gas_used_and_convert credit_event call_events its_events other_events events_of same_key
    insert remove try_call_contract try_message_executed try_message_approved try_native_gas_paid
    try_in_turn collect_from try_execute_insufficient_gas create_parsers key message_id event
    is_log_emmitted_in_opcode hash_to_message_id compare_op_code load_bytes load_chain
    cell_to_buffer cell_to_string CallContractLog.from_boc_b64 NativeGasPaidLog.from_boc_b64
    CallContract.check_match CallContract.parse CallContract.key CallContract.message_id
    CallContract.event MessageExecuted.check_match MessageApproved.check_match
    NativeGasPaid.check_match NativeGasPaid.parse NativeGasPaid.key NativeGasPaid.event
    ExecuteInsufficientGas.check_match ExecuteInsufficientGas.matches
handle_transaction-Ingested_example =
    handle_transaction-Ingested library ingestor (meets none) "trace" trace seen refl

verify_fails : handle_verify {Task = String} "task" ≡ err (generic_error "Still not implemented")
unfolding handle_verify
verify_fails = refl
