-- ===== src/TransactionParser/NativeGasPaid.antt =====
-- src/transaction_parser/parser_native_gas_paid.rs
use axelar_relayer_ton.Prelude.{
  String, Bool, false, ◌||◌, Option, none, some, Outcome, ok, ◌>>=◌, if◌then◌else◌,
}
use axelar_relayer_ton.Externals.{Externals}
use axelar_relayer_ton.Types.{
  TransactionParsingError, append, op_pay_gas, op_pay_native_gas_for_contract_call,
}
use axelar_relayer_ton.GmpTypes.{Event, gas_credit}
use axelar_relayer_ton.Boc.NativeGasPaid.{NativeGasPaidMessage, from_boc_b64}
use axelar_relayer_ton.TransactionParser.Common.{
  ParserState, MessageMatchingKey, parse_body, out_body, the_log, given_id, metadata, common,
  from_allowed, is_log_emmitted_in_opcode,
}

module _ (lib : Externals) where
  open lib use {Address, to_hex, show_number}

  abbrev pub ParserNativeGasPaid : Type 0
  ParserNativeGasPaid = ParserState Address (NativeGasPaidMessage Address)

  unfoldable pub check_match :
      ParserNativeGasPaid → Outcome TransactionParsingError (Bool × ParserNativeGasPaid)
  check_match s = ok (
    if from_allowed lib s
        then is_log_emmitted_in_opcode s.tx op_pay_native_gas_for_contract_call 0
          || is_log_emmitted_in_opcode s.tx op_pay_gas 0
        else false,
    s,
  )

  unfoldable pub parse :
      ParserNativeGasPaid → Outcome TransactionParsingError (Bool × ParserNativeGasPaid)
  parse s = parse_body (from_boc_b64 lib) (out_body s.tx 0) s

  unfoldable pub key : ParserNativeGasPaid → Outcome TransactionParsingError MessageMatchingKey
  key s = do
    log ← the_log s
    ok (record {
      destination_chain = log.destination_chain;
      destination_address = log.destination_address;
      payload_hash = log.payload_hash;
    })

  abbrev pub message_id : ParserNativeGasPaid → Outcome TransactionParsingError (Option String)
  message_id s = ok none

  -- `now` is the clock as text; `id` is the message id that the caller gives.
  unfoldable pub event :
      String → Option String → ParserNativeGasPaid → Outcome TransactionParsingError Event
  event now given s = do
    id ← given_id given
    log ← the_log s
    ok (
        gas_credit
          (common "GAS_CREDIT" (append s.tx.hash "-gas") (some (metadata s.tx.hash none now))) id
          (to_hex log.refund_address)
          (record { token_id = none; amount = show_number log.msg_value }))
