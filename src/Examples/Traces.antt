-- ===== src/Examples/Traces.antt =====
-- src/transaction_parser/ at a trace of two transactions: a call that the gateway logs, and the
-- payment for it that the gas service logs.
use axelar_relayer_ton.Prelude.{
  ℕ, String, refl, false, Option, none, some, List, [], ◌∷◌, ◌>>=◌, All, Ensures,
}
use axelar_relayer_ton.Prelude.Int.{pos}
use axelar_relayer_ton.Types.{Transaction, TransactionMessage, Trace}
use axelar_relayer_ton.GmpTypes.{Event, call, gas_credit}
use axelar_relayer_ton.Examples.Library.{library}
use axelar_relayer_ton.TransactionParser.CallContract
use axelar_relayer_ton.TransactionParser.MessageExecuted
use axelar_relayer_ton.TransactionParser.MessageApproved
use axelar_relayer_ton.TransactionParser.NativeGasPaid
use axelar_relayer_ton.TransactionParser.ExecuteInsufficientGas
use axelar_relayer_ton.TransactionParser.AnyParser.{key, message_id, event}
use axelar_relayer_ton.TransactionParser.Common.{
  metadata, common, is_log_emmitted_in_opcode, is_log_emitted, hash_to_message_id,
}
use axelar_relayer_ton.Boc.{compare_op_code}
use axelar_relayer_ton.Boc.CellTo.{load_bytes, load_chain, cell_to_buffer, cell_to_string}
use axelar_relayer_ton.Boc.CallContract as CallContractLog
use axelar_relayer_ton.Boc.NativeGasPaid as NativeGasPaidLog
use axelar_relayer_ton.TransactionParser.Creation.{
  TraceParser, same_key, insert, remove, try_call_contract, try_message_executed,
  try_message_approved, try_native_gas_paid, try_in_turn, collect_from,
  try_execute_insufficient_gas, create_parsers,
}
use axelar_relayer_ton.TransactionParser.Assembly.{
  gas_used, convert_payment, adjust, add_gas_used_and_convert, credit_event, call_events,
  its_events, other_events, events_of, parse_trace,
}
use axelar_relayer_ton.TransactionParser.Genuine.{IsGenuine}
use axelar_relayer_ton.TransactionParser.LogPosition.{FirstLog, is_log_emitted-FirstLog}
use axelar_relayer_ton.TransactionParser.ParseTrace.{parse_trace-IsGenuine, parse_trace-no_panic}

abbrev pub message_of : Option ℕ → Option ℕ → String → TransactionMessage ℕ
message_of destination opcode body = record {
  destination = destination;
  value = none;
  fwd_fee = some "100";
  opcode = opcode;
  message_content = record { body = body };
}

abbrev pub transaction : ℕ → String → ℕ → String → Transaction ℕ
transaction account hash opcode body = record {
  account = account;
  hash = hash;
  total_fees = 10;
  description = record { compute_ph = none; action = none };
  in_msg = some (message_of (some account) (some opcode) "in");
  out_msgs = message_of none none body ∷ [];
}

abbrev pub trace : Trace ℕ
trace = record {
  is_incomplete = false;
  start_lt = pos 1;
  end_lt = pos 2;
  trace_id = "trace";
  transactions = transaction 1 "tx1" 9 "call" ∷ transaction 2 "tx2" 0x1F "gas" ∷ [];
}

abbrev pub trace_parser : TraceParser ℕ
trace_parser = record {
  gateway_address = 1;
  gas_service_address = 2;
  its_address = 3;
  our_addresses = 1 ∷ 2 ∷ [];
  chain_name = "ton2";
}

parse_trace-no_panic_example :
    Ensures
      (All (IsGenuine trace_parser trace.transactions))
      (create_parsers library trace_parser trace >>= events_of library "ton2" "now")
parse_trace-no_panic_example =
    parse_trace-no_panic library trace_parser "now" trace
      (transaction 1 "tx1" 9 "call", refl, (message_of none none "call", refl))

-- The call, and the credit with the message id of the call.
abbrev pub events : List Event
events =
    call
      (common "CALL" "tx1" (
        some (
          metadata "tx1"
            (some (
              ("source_address", "0:00")
              ∷ ("destination_address", "address")
              ∷ ("destination_chain", "chain")
              ∷ []))
            "now")))
      (record {
        message_id = "0x00";
        source_chain = "ton2";
        source_address = "0:00";
        destination_address = "address";
        payload_hash = "AA==";
      })
      "chain" "AA=="
    ∷ gas_credit (common "GAS_CREDIT" "tx2-gas" (some (metadata "tx2" none "now"))) "0x00" "0:00"
        (record { token_id = none; amount = "1" })
    ∷ []

parse_trace-IsGenuine_example : All (IsGenuine trace_parser trace.transactions) events
unfolding parse_trace gas_used convert_payment adjust add_gas_used_and_convert credit_event
    call_events its_events other_events events_of same_key insert remove try_call_contract
    try_message_executed try_message_approved try_native_gas_paid try_in_turn collect_from
    try_execute_insufficient_gas create_parsers key message_id event is_log_emmitted_in_opcode
    hash_to_message_id compare_op_code load_bytes load_chain cell_to_buffer cell_to_string
    CallContractLog.from_boc_b64 NativeGasPaidLog.from_boc_b64 CallContract.check_match
    CallContract.parse CallContract.key CallContract.message_id CallContract.event
    MessageExecuted.check_match MessageApproved.check_match NativeGasPaid.check_match
    NativeGasPaid.parse NativeGasPaid.key NativeGasPaid.event ExecuteInsufficientGas.check_match
    ExecuteInsufficientGas.matches
parse_trace-IsGenuine_example = parse_trace-IsGenuine library trace_parser "now" trace events refl

is_log_emitted-FirstLog_example :
    FirstLog 13 0
      (transaction 1 "tx1" 9 "call").out_msgs
      (is_log_emitted (transaction 1 "tx1" 9 "call") 13)
is_log_emitted-FirstLog_example = is_log_emitted-FirstLog 13 (transaction 1 "tx1" 9 "call")
