-- ===== src/Examples/Payments.antt =====
-- The loops of src/transaction_parser/parser.rs at the trace of the call and its payment.
use axelar_relayer_ton.Prelude.{◌≡◌, refl, ◌↔◌, none, some, List, [], ◌∷◌, ok}
use axelar_relayer_ton.Prelude.Int.{negsuc}
use axelar_relayer_ton.GmpTypes.{Event, its_token_metadata_registered}
use axelar_relayer_ton.Boc.{compare_op_code}
use axelar_relayer_ton.Boc.CellTo.{load_bytes, load_chain, cell_to_buffer, cell_to_string}
use axelar_relayer_ton.Boc.CallContract as CallContractLog
use axelar_relayer_ton.Boc.NativeGasPaid as NativeGasPaidLog
use axelar_relayer_ton.Examples.Library.{library, zeros}
use axelar_relayer_ton.Examples.Traces.{transaction, trace, trace_parser}
use axelar_relayer_ton.TransactionParser.CallContract
use axelar_relayer_ton.TransactionParser.MessageExecuted
use axelar_relayer_ton.TransactionParser.MessageApproved
use axelar_relayer_ton.TransactionParser.NativeGasPaid
use axelar_relayer_ton.TransactionParser.ExecuteInsufficientGas
use axelar_relayer_ton.TransactionParser.ItsTokenMetadataRegistered
use axelar_relayer_ton.TransactionParser.AnyParser.{
  AnyParser, call_contract, native_gas_paid, its_token_metadata_registered as metadata_registered,
}
use axelar_relayer_ton.TransactionParser.Common.{metadata, common, is_log_emmitted_in_opcode}
use axelar_relayer_ton.TransactionParser.Creation.{
  Collected, same_key, insert, try_call_contract, try_message_executed, try_message_approved,
  try_native_gas_paid, try_in_turn, collect_from, try_execute_insufficient_gas, create_parsers,
}
use axelar_relayer_ton.TransactionParser.Assembly.{call_events, its_events}
use axelar_relayer_ton.TransactionParser.Credits.{calls_with_credits, call_events_exact}
use axelar_relayer_ton.TransactionParser.Pairing.{InStep, its_events_iff}

abbrev the_call : CallContract.ParserCallContract library
the_call = record {
  log = some (record {
    destination_chain = "chain";
    destination_address = "address";
    payload = "00";
    source_address = 7;
    payload_hash = zeros 32;
  });
  tx = transaction 1 "tx1" 9 "call";
  allowed_address = 1;
  log_position = negsuc 0;
}

abbrev the_payment : NativeGasPaid.ParserNativeGasPaid library
the_payment = record {
  log = some (record {
    sender = 7;
    payload_hash = zeros 32;
    msg_value = 1;
    refund_address = 8;
    destination_chain = "chain";
    destination_address = "address";
  });
  tx = transaction 2 "tx2" 0x1F "gas";
  allowed_address = 2;
  log_position = negsuc 0;
}

abbrev the_registration : ItsTokenMetadataRegistered.ParserItsTokenMetadataRegistered library
the_registration = record {
  log = some (record { address = 9; decimals = 6 });
  tx = transaction 3 "tx3" 0x101 "registered";
  allowed_address = 3;
  log_position = negsuc 0;
}

abbrev collected : Collected library
collected = record {
  parsers = [];
  call_contract = call_contract the_call ∷ [];
  its = [];
  gas_credit_map =
      (
        record {
          destination_chain = "chain";
          destination_address = "address";
          payload_hash = zeros 32;
        },
        native_gas_paid the_payment,
      )
      ∷ [];
  message_approved_count = 0;
}

call_events_exact_example :
    call_events library "ton2" "now" collected.call_contract collected.gas_credit_map
    ≡ calls_with_credits library "ton2" "now" [] collected.call_contract collected.gas_credit_map
unfolding same_key insert try_call_contract try_message_executed try_message_approved
    try_native_gas_paid try_in_turn collect_from try_execute_insufficient_gas create_parsers
    is_log_emmitted_in_opcode compare_op_code load_bytes load_chain cell_to_buffer cell_to_string
    CallContractLog.from_boc_b64 NativeGasPaidLog.from_boc_b64 CallContract.check_match
    CallContract.parse MessageExecuted.check_match MessageApproved.check_match
    NativeGasPaid.check_match NativeGasPaid.parse NativeGasPaid.key
    ExecuteInsufficientGas.check_match ExecuteInsufficientGas.matches
call_events_exact_example = call_events_exact library trace_parser "now" trace collected refl

-- The registration, with the message id of the call.
abbrev calls : List (AnyParser library)
calls = call_contract the_call ∷ []

abbrev registrations : List (AnyParser library)
registrations = metadata_registered the_registration ∷ []

abbrev registered : Event
registered =
    its_token_metadata_registered
      (common "ITS/TOKEN_METADATA_REGISTERED" "tx3-its-metadata" (some (metadata "tx3" none "now")))
      "0x00" "0x0:00" 6

its_events_iff_example :
    (its_events library "ton2" "now" calls 0 registrations ≡ ok (registered ∷ []))
    ↔ InStep library "ton2" "now" calls 0 registrations (registered ∷ [])
its_events_iff_example = its_events_iff library "ton2" "now" calls registrations (registered ∷ [])
