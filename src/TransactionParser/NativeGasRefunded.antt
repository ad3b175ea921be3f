-- ===== src/TransactionParser/NativeGasRefunded.antt =====
-- src/transaction_parser/parser_native_gas_refunded.rs
use axelar_relayer_ton.Prelude.{String, Bool, Option, none, some, Outcome, ok, panic, ◌>>=◌}
use axelar_relayer_ton.Externals.{Externals}
use axelar_relayer_ton.Types.{TransactionParsingError, append, op_native_refund}
use axelar_relayer_ton.GmpTypes.{Event, gas_refunded}
use axelar_relayer_ton.Boc.NativeGasRefunded.{NativeGasRefundedMessage, from_boc_b64}
use axelar_relayer_ton.TransactionParser.Common.{
  ParserState, MessageMatchingKey, parse_body, out_body, the_log, own_id, common, match_opcode,
}

module _ (lib : Externals) where
  open lib use {Address, to_hex, show_tonhash, show_number}

  abbrev pub ParserNativeGasRefunded : Type 0
  ParserNativeGasRefunded = ParserState Address (NativeGasRefundedMessage Address)

  unfoldable pub check_match :
      ParserNativeGasRefunded → Outcome TransactionParsingError (Bool × ParserNativeGasRefunded)
  check_match = match_opcode lib op_native_refund 1

  unfoldable pub parse :
      ParserNativeGasRefunded → Outcome TransactionParsingError (Bool × ParserNativeGasRefunded)
  parse s = parse_body (from_boc_b64 lib) (out_body s.tx 1) s

  -- `unimplemented!()`
  abbrev pub key : ParserNativeGasRefunded → Outcome TransactionParsingError MessageMatchingKey
  key s = panic

  unfoldable pub message_id :
      ParserNativeGasRefunded → Outcome TransactionParsingError (Option String)
  message_id s = elim s.log [
    | some log ↦ ok (some (append "0x" (show_tonhash log.tx_hash)))
    | none ↦ ok none
  ]

  -- `now` is the clock as text; `id` is the message id that the caller gives.
  unfoldable pub event :
      String → Option String → ParserNativeGasRefunded → Outcome TransactionParsingError Event
  unfolding message_id
  event now _ s = do
    log ← the_log s
    found ← message_id s
    id ← own_id found
    ok (
        gas_refunded (common "GAS_REFUNDED" s.tx.hash none) id (to_hex log.address)
          (record { token_id = none; amount = show_number log.amount })
          (record { token_id = none; amount = "0" }))
