-- ===== src/TransactionParser/NativeGasAdded.antt =====
-- src/transaction_parser/parser_native_gas_added.rs
use axelar_relayer_ton.Prelude.{String, Bool, Option, none, some, Outcome, ok, panic, ◌>>=◌}
use axelar_relayer_ton.Externals.{Externals}
use axelar_relayer_ton.Types.{TransactionParsingError, append, op_add_native_gas}
use axelar_relayer_ton.GmpTypes.{Event, gas_credit}
use axelar_relayer_ton.Boc.NativeGasAdded.{NativeGasAddedMessage, from_boc_b64}
use axelar_relayer_ton.TransactionParser.Common.{
  ParserState, MessageMatchingKey, parse_body, out_body, the_log, own_id, metadata, common,
  match_opcode,
}

module _ (lib : Externals) where
  open lib use {Address, to_hex, show_tonhash, show_number}

  abbrev pub ParserNativeGasAdded : Type 0
  ParserNativeGasAdded = ParserState Address (NativeGasAddedMessage Address)

  unfoldable pub check_match :
      ParserNativeGasAdded → Outcome TransactionParsingError (Bool × ParserNativeGasAdded)
  check_match = match_opcode lib op_add_native_gas 0

  unfoldable pub parse :
      ParserNativeGasAdded → Outcome TransactionParsingError (Bool × ParserNativeGasAdded)
  parse s = parse_body (from_boc_b64 lib) (out_body s.tx 0) s

  -- `unimplemented!()`
  abbrev pub key : ParserNativeGasAdded → Outcome TransactionParsingError MessageMatchingKey
  key s = panic

  unfoldable pub message_id : ParserNativeGasAdded → Outcome TransactionParsingError (Option String)
  message_id s = do log ← the_log s; ok (some (append "0x" (show_tonhash log.tx_hash)))

  -- `now` is the clock as text; `id` is the message id that the caller gives.
  unfoldable pub event :
      String → Option String → ParserNativeGasAdded → Outcome TransactionParsingError Event
  unfolding message_id
  event now _ s = do
    log ← the_log s
    found ← message_id s
    id ← own_id found
    ok (
        gas_credit
          (common "GAS_CREDIT" (append s.tx.hash "-gas") (some (metadata s.tx.hash none now))) id
          (to_hex log.refund_address)
          (record { token_id = none; amount = show_number log.msg_value }))
