-- ===== src/TransactionParser/JettonGasPaid.antt =====
-- src/transaction_parser/parser_jetton_gas_paid.rs
use axelar_relayer_ton.Prelude.{
  String, Bool, false, ◌&&◌, Option, none, some, Outcome, ok, ◌>>=◌, if◌then◌else◌,
}
use axelar_relayer_ton.Externals.{Externals}
use axelar_relayer_ton.Types.{TransactionParsingError, append, op_transfer_notification}
use axelar_relayer_ton.GmpTypes.{Event, gas_credit}
use axelar_relayer_ton.Boc.JettonGasPaid.{JettonGasPaidMessage, from_boc_b64}
use axelar_relayer_ton.TransactionParser.Common.{
  is_ok, ParserState, MessageMatchingKey, parse_body, out_body, the_log, given_id, metadata, common,
  from_allowed, is_log_emmitted_in_opcode,
}

module _ (lib : Externals) where
  open lib use {Address, to_hex, show_number}

  abbrev pub ParserJettonGasPaid : Type 0
  ParserJettonGasPaid = ParserState Address (JettonGasPaidMessage Address)

  unfoldable pub check_match :
      ParserJettonGasPaid → Outcome TransactionParsingError (Bool × ParserJettonGasPaid)
  check_match s =
      if from_allowed lib s && is_log_emmitted_in_opcode s.tx op_transfer_notification 0
      then (do body ← out_body s.tx 0; ok (is_ok (from_boc_b64 lib body), s))
      else ok (false, s)

  unfoldable pub parse :
      ParserJettonGasPaid → Outcome TransactionParsingError (Bool × ParserJettonGasPaid)
  parse s = parse_body (from_boc_b64 lib) (out_body s.tx 0) s

  unfoldable pub key : ParserJettonGasPaid → Outcome TransactionParsingError MessageMatchingKey
  key s = do
    log ← the_log s
    ok (record {
      destination_chain = log.destination_chain;
      destination_address = log.destination_address;
      payload_hash = log.payload_hash;
    })

  abbrev pub message_id : ParserJettonGasPaid → Outcome TransactionParsingError (Option String)
  message_id s = ok none

  -- `now` is the clock as text; `id` is the message id that the caller gives.
  unfoldable pub event :
      String → Option String → ParserJettonGasPaid → Outcome TransactionParsingError Event
  event now given s = do
    id ← given_id given
    log ← the_log s
    ok (
        gas_credit
          (common "GAS_CREDIT" (append s.tx.hash "-gas") (some (metadata s.tx.hash none now))) id
          (to_hex log.refund_address)
          (record { token_id = some (to_hex log.minter); amount = show_number log.amount }))
