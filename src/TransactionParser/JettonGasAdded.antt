-- ===== src/TransactionParser/JettonGasAdded.antt =====
-- src/transaction_parser/parser_jetton_gas_added.rs
use axelar_relayer_ton.Prelude.{
  String, Bool, false, ◌&&◌, Option, none, some, Outcome, ok, panic, ◌>>=◌, if◌then◌else◌,
}
use axelar_relayer_ton.Externals.{Externals}
use axelar_relayer_ton.Types.{TransactionParsingError, append, op_transfer_notification}
use axelar_relayer_ton.GmpTypes.{Event, gas_credit}
use axelar_relayer_ton.Boc.JettonGasAdded.{JettonGasAddedMessage, from_boc_b64}
use axelar_relayer_ton.TransactionParser.Common.{
  is_ok, ParserState, MessageMatchingKey, parse_body, out_body, the_log, own_id, metadata, common,
  from_allowed, is_log_emmitted_in_opcode,
}

module _ (lib : Externals) where
  open lib use {Address, to_hex, show_tonhash, show_number}

  abbrev pub ParserJettonGasAdded : Type 0
  ParserJettonGasAdded = ParserState Address (JettonGasAddedMessage Address)

  unfoldable pub check_match :
      ParserJettonGasAdded → Outcome TransactionParsingError (Bool × ParserJettonGasAdded)
  check_match s =
      if from_allowed lib s && is_log_emmitted_in_opcode s.tx op_transfer_notification 0
      then (do body ← out_body s.tx 0; ok (is_ok (from_boc_b64 lib body), s))
      else ok (false, s)

  unfoldable pub parse :
      ParserJettonGasAdded → Outcome TransactionParsingError (Bool × ParserJettonGasAdded)
  parse s = parse_body (from_boc_b64 lib) (out_body s.tx 0) s

  -- `unimplemented!()`
  abbrev pub key : ParserJettonGasAdded → Outcome TransactionParsingError MessageMatchingKey
  key s = panic

  unfoldable pub message_id : ParserJettonGasAdded → Outcome TransactionParsingError (Option String)
  message_id s = do log ← the_log s; ok (some (append "0x" (show_tonhash log.tx_hash)))

  -- `now` is the clock as text; `id` is the message id that the caller gives.
  unfoldable pub event :
      String → Option String → ParserJettonGasAdded → Outcome TransactionParsingError Event
  unfolding message_id
  event now _ s = do
    log ← the_log s
    found ← message_id s
    id ← own_id found
    ok (
        gas_credit
          (common "GAS_CREDIT" (append s.tx.hash "-gas") (some (metadata s.tx.hash none now))) id
          (to_hex log.refund_address)
          (record { token_id = some (to_hex log.minter); amount = show_number log.amount }))
