-- ===== src/TransactionParser/MessageApproved.antt =====
-- src/transaction_parser/parser_message_approved.rs
use axelar_relayer_ton.Prelude.{String, Bool, Option, none, some, Outcome, ok, ◌>>=◌}
use axelar_relayer_ton.Externals.{Externals}
use axelar_relayer_ton.Types.{TransactionParsingError, op_message_approved}
use axelar_relayer_ton.GmpTypes.{Event, message_approved}
use axelar_relayer_ton.Boc.CcMessage.{TonCcMessage, from_boc_b64}
use axelar_relayer_ton.TransactionParser.Common.{
  ParserState, MessageMatchingKey, parse_body, out_body, the_log, metadata, common, match_opcode,
}

module _ (lib : Externals) where
  open lib use {Address, hex_encode}

  abbrev pub ParserMessageApproved : Type 0
  ParserMessageApproved = ParserState Address TonCcMessage

  unfoldable pub check_match :
      ParserMessageApproved → Outcome TransactionParsingError (Bool × ParserMessageApproved)
  check_match = match_opcode lib op_message_approved 0

  unfoldable pub parse :
      ParserMessageApproved → Outcome TransactionParsingError (Bool × ParserMessageApproved)
  parse s = parse_body (from_boc_b64 lib) (out_body s.tx 0) s

  unfoldable pub key : ParserMessageApproved → Outcome TransactionParsingError MessageMatchingKey
  key s = do
    log ← the_log s
    ok (record {
      destination_chain = log.destination_chain;
      destination_address = log.destination_address;
      payload_hash = log.payload_hash;
    })

  abbrev pub message_id : ParserMessageApproved → Outcome TransactionParsingError (Option String)
  message_id s = ok none

  -- `now` is the clock as text; `id` is the message id that the caller gives.
  unfoldable pub event :
      String → Option String → ParserMessageApproved → Outcome TransactionParsingError Event
  event now _ s = do
    log ← the_log s
    ok (
        message_approved
          (common "MESSAGE_APPROVED" s.tx.hash
            (some (record { common_meta = metadata s.tx.hash none now; command_id = none })))
          (record {
            message_id = log.message_id;
            source_chain = log.source_chain;
            source_address = log.source_address;
            destination_address = log.destination_address;
            payload_hash = hex_encode log.payload_hash;
          })
          (record { token_id = none; amount = "0" }))
